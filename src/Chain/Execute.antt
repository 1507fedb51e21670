-- ===== src/Chain/Execute.antt =====
-- The checks of a transaction: `execute_tx` (crates/godcoin/src/blockchain/mod.rs).
use godcoin.Base.{
  Bool, true, false, not, List, [], ◌∷◌, Option, some, none, Result, ok, err, ltb, ◌==◌,
  if◌then◌else◌, length,
}
use godcoin.Base.Int.{pos, ltb_ℤ, eqb_ℤ}
use godcoin.Asset.{Asset, checked_add, checked_sub, checked_mul}
use godcoin.Crypto.{Crypto}
use godcoin.Script.Op.{AccountId, Script, EvalErrKind}
use godcoin.Script.Consume.{Fault, eval_err}
use godcoin.Account.Types.{Account, Permissions, is_valid, verify}
use godcoin.Tx.Types.{
  TxVariant, OwnerTx, MintTx, CreateAccountTx, UpdateAccountTx, TransferTx, owner_tx, mint_tx,
  create_account_tx, update_account_tx, transfer_tx, sigs,
}
use godcoin.Tx.Format.{calc_txid}
use godcoin.Receipt.Types.{LogEntry, Receipt}
use godcoin.Engine.Machine.{EngineData, ChainView}
use godcoin.Engine.Run.{eval}
use godcoin.Chain.Types.{
  TxErr, AccountInfo, panic, out_of_fuel, Outcome, reject, ok_or, unwrap, total_fee, ◌>>=◌, ◌>>◌,
  grael_acc_create_fee_mult, grael_acc_create_min_bal_mult, max_memo_byte_size,
  max_script_byte_size, max_tx_signatures,
}
use godcoin.Chain.Index.{account_exists}
use godcoin.Chain.Accounts.{Blockchain, get_account, get_account_info}

abbrev pub Check : Type 0 → Type 0
Check A = Outcome TxErr A

-- An early return with `e`.
unfoldable pub reject_if : Bool → TxErr → Check (Unit {0})
reject_if true e = reject e
reject_if false e = ok tt

abbrev pub check_zero_fee : Asset → Check (Unit {0})
check_zero_fee asset = reject_if (not (eqb_ℤ asset.amount (pos 0))) TxErr.invalid_fee_amount

abbrev pub check_pos_amt : Asset → Check (Unit {0})
check_pos_amt asset = reject_if (ltb_ℤ asset.amount (pos 0)) TxErr.invalid_amount

-- What the engine sees of the chain.
abbrev pub chain_view : Blockchain → ChainView
chain_view ch = record { get_account = get_account ch; head_timestamp = ch.head.header.timestamp }

abbrev pub engine_data : Crypto → Blockchain → TxVariant → List Receipt → Script → EngineData
engine_data c ch tx receipts script = record {
  script = script;
  tx = tx;
  txid = calc_txid c tx;
  chain = chain_view ch;
  additional_receipts = receipts;
}

-- A run of the engine, its error as `TxErr::ScriptEval`.
unfoldable pub of_eval : Result Fault (List LogEntry) → Check (List LogEntry)
of_eval (ok log) = ok log
of_eval (err (eval_err e)) = reject (TxErr.script_eval e)
of_eval (err Fault.panic) = err panic
of_eval (err Fault.out_of_fuel) = err out_of_fuel

unfoldable pub run_script :
    Crypto → Blockchain → TxVariant → List Receipt → Script → Check (List LogEntry)
run_script c ch tx receipts script = of_eval (eval c (engine_data c ch tx receipts script))

-- `get_owner`, which must be an owner transaction.
unfoldable pub get_owner : {E : Type 0} → Blockchain → Outcome E OwnerTx
get_owner ch = elim (ch.indexer.owner) [
  | some (owner_tx tx) ↦ ok tx
  | some _ ↦ err panic
  | none ↦ err panic
]

-- The owner's script on a transaction, whose log is dropped.
unfoldable pub run_owner_script : Crypto → Blockchain → TxVariant → List Receipt → Check (Unit {0})
run_owner_script c ch tx receipts = do
  owner ← get_owner ch
  wallet ← unwrap (get_account ch owner.wallet receipts)
  run_script c ch tx receipts wallet.script
  ok tt

unfoldable pub execute_owner : Crypto → Blockchain → OwnerTx → List Receipt → Check (List LogEntry)
execute_owner c ch tx receipts = do
  check_zero_fee tx.base.fee
  ok_or (get_account ch tx.wallet receipts) TxErr.account_not_found
  run_owner_script c ch (owner_tx tx) receipts
  ok []

unfoldable pub execute_mint : Crypto → Blockchain → MintTx → List Receipt → Check (List LogEntry)
execute_mint c ch tx receipts = do
  check_zero_fee tx.base.fee
  check_pos_amt tx.amount
  run_owner_script c ch (mint_tx tx) receipts
  ok_or (checked_add ch.indexer.token_supply tx.amount) TxErr.arithmetic
  ok []

-- Whether a receipt of the current block creates the account.
unfoldable pub creates : AccountId → List Receipt → Bool
creates id [] = false
creates id (r ∷ rs) =
    let rest = creates id rs in
    elim (r.tx) [ create_account_tx tx ↦ if tx.account.id == id then true else rest | _ ↦ rest ]

-- The account's own signatures; the error stands for a script that returns false.
unfoldable pub check_sigs : Crypto → Account → TxVariant → Check (Unit {0})
check_sigs c acc tx = elim (verify c (calc_txid c tx).bytes acc.permissions (sigs tx)) [
  | ok _ ↦ ok tt
  | err _ ↦ reject (TxErr.script_eval (record { pos = 0; err = EvalErrKind.script_ret_false }))
]

unfoldable pub required_fee : AccountInfo → Check Asset
required_fee info = do
  fee ← ok_or (total_fee info) TxErr.arithmetic
  ok_or (checked_mul fee grael_acc_create_fee_mult) TxErr.arithmetic

unfoldable pub execute_create_account :
    Crypto → Blockchain → CreateAccountTx → List Receipt → Check (List LogEntry)
execute_create_account c ch tx receipts = do
  reject_if (ltb max_script_byte_size (length tx.account.script.code)) TxErr.tx_too_large
  reject_if tx.account.destroyed TxErr.tx_prohibited
  reject_if (not (is_valid tx.account.permissions)) TxErr.invalid_account_permissions
  reject_if (account_exists ch.indexer tx.account.id) TxErr.account_already_exists
  reject_if (creates tx.account.id receipts) TxErr.account_already_exists
  found ← get_account_info ch tx.creator receipts
  info ← ok_or found TxErr.account_not_found
  req_fee ← required_fee info
  min_bal ← ok_or (checked_mul req_fee grael_acc_create_min_bal_mult) TxErr.arithmetic
  reject_if (ltb_ℤ tx.base.fee.amount req_fee.amount) TxErr.invalid_fee_amount
  reject_if (ltb_ℤ tx.account.balance.amount min_bal.amount) TxErr.invalid_amount
  rest ← ok_or (checked_sub info.account.balance tx.base.fee) TxErr.arithmetic
  bal ← ok_or (checked_sub rest tx.account.balance) TxErr.arithmetic
  check_pos_amt bal
  check_sigs c info.account (create_account_tx tx)
  ok []

-- The permissions are looked at only where there is no new script.
unfoldable pub check_update :
    UpdateAccountTx → Option Script → Option Permissions → Check (Unit {0})
check_update tx (some script) perms =
    reject_if (ltb max_script_byte_size (length script.code)) TxErr.tx_too_large
check_update tx none (some perms) =
    reject_if (not (is_valid perms)) TxErr.invalid_account_permissions
check_update tx none none = ok tt

unfoldable pub execute_update_account :
    Crypto → Blockchain → UpdateAccountTx → List Receipt → Check (List LogEntry)
execute_update_account c ch tx receipts = do
  found ← get_account_info ch tx.account_id receipts
  info ← ok_or found TxErr.account_not_found
  reject_if info.account.destroyed TxErr.tx_prohibited
  check_update tx tx.new_script tx.new_permissions
  req_fee ← required_fee info
  reject_if (ltb_ℤ tx.base.fee.amount req_fee.amount) TxErr.invalid_fee_amount
  bal ← ok_or (checked_sub info.account.balance tx.base.fee) TxErr.arithmetic
  check_pos_amt bal
  check_sigs c info.account (update_account_tx tx)
  ok []

unfoldable pub execute_transfer :
    Crypto → Blockchain → TransferTx → List Receipt → Check (List LogEntry)
execute_transfer c ch tx receipts = do
  reject_if (ltb max_memo_byte_size (length tx.memo)) TxErr.tx_too_large
  check_pos_amt tx.amount
  found ← get_account_info ch tx.from receipts
  info ← ok_or found TxErr.account_not_found
  fee ← ok_or (total_fee info) TxErr.arithmetic
  reject_if (ltb_ℤ tx.base.fee.amount fee.amount) TxErr.invalid_fee_amount
  rest ← ok_or (checked_sub info.account.balance tx.base.fee) TxErr.arithmetic
  bal ← ok_or (checked_sub rest tx.amount) TxErr.arithmetic
  check_pos_amt bal
  run_script c ch (transfer_tx tx) receipts info.account.script

unfoldable pub execute_body : Crypto → Blockchain → TxVariant → List Receipt → Check (List LogEntry)
execute_body c ch (owner_tx tx) receipts = execute_owner c ch tx receipts
execute_body c ch (mint_tx tx) receipts = execute_mint c ch tx receipts
execute_body c ch (create_account_tx tx) receipts = execute_create_account c ch tx receipts
execute_body c ch (update_account_tx tx) receipts = execute_update_account c ch tx receipts
execute_body c ch (transfer_tx tx) receipts = execute_transfer c ch tx receipts

unfoldable pub execute_tx : Crypto → Blockchain → TxVariant → List Receipt → Check (List LogEntry)
execute_tx c ch tx receipts = do
  reject_if (ltb max_tx_signatures (length (sigs tx))) TxErr.too_many_signatures
  execute_body c ch tx receipts
