-- ===== src/Chain/Accounts.antt =====
-- The chain and what it tells of an account: `get_account`, the fees and `get_account_info`
-- (crates/godcoin/src/blockchain/mod.rs).
use godcoin.Base.{
  ℕ, zero, suc, ◌+◌, ◌-◌, ◌/◌, ◌%◌, ◌^◌, Bool, true, false, List, [], ◌∷◌, Option, some, none, ok,
  err, ltb, ◌==◌, if◌then◌else◌, length,
}
use godcoin.Base.{◌>>=◌}
use godcoin.Asset.{Asset, asset_default, checked_add, checked_sub, checked_mul, checked_pow}
use godcoin.Script.Op.{AccountId, Script}
use godcoin.Account.Types.{Account, Permissions}
use godcoin.Tx.Types.{
  TxVariant, owner_tx, mint_tx, create_account_tx, update_account_tx, transfer_tx,
}
use godcoin.Receipt.Types.{LogEntry, Receipt}
use godcoin.Chain.Types.{
  Block, AccountInfo, panic, Outcome, grael_fee_min, grael_fee_mult, grael_fee_net_mult,
  network_fee_avg_window, fee_reset_window,
}
use godcoin.Chain.Index.{Indexer}

-- A chain that has its genesis block: `head` is the block at the height of the index, and `earlier`
-- what the block store holds below it.
pub record Blockchain : Type 0 where
  pub indexer : Indexer
  pub head : Block
  pub earlier : ℕ → Option Block

abbrev pub get_chain_height : Blockchain → ℕ
get_chain_height ch = ch.indexer.chain_height

unfoldable pub get_block : Blockchain → ℕ → Option Block
get_block ch height =
    if height == get_chain_height ch
    then some ch.head
    else if ltb height (get_chain_height ch)
    then ch.earlier height
    else none

abbrev pub with_balance : Account → Asset → Account
with_balance acc balance = record acc { balance = balance }

-- `acc.balance.checked_sub(a)?.checked_sub(b)?`.
unfoldable pub spend : Account → Asset → Asset → Option Account
spend acc a b = do
  rest ← checked_sub acc.balance a
  rest ← checked_sub rest b
  some (with_balance acc rest)

-- The effect of one log entry of a transfer on the account `id`.
unfoldable pub pend_entry : AccountId → AccountId → Account → LogEntry → Option Account
pend_entry id from acc (LogEntry.transfer to_acc amount) =
    if to_acc == id
    then (do balance ← checked_add acc.balance amount; some (with_balance acc balance))
    else some acc
pend_entry id from acc (LogEntry.destroy to_acc) =
    some (if from == id then record acc { destroyed = true; balance = asset_default } else acc)

unfoldable pub pend_log : AccountId → AccountId → Account → List LogEntry → Option Account
pend_log id from acc [] = some acc
pend_log id from acc (entry ∷ log) =
    pend_entry id from acc entry >>= λ acc'. pend_log id from acc' log

unfoldable pub new_script_of : Option Script → Account → Account
new_script_of none acc = acc
new_script_of (some script) acc = record acc { script = script }

unfoldable pub new_permissions_of : Option Permissions → Account → Account
new_permissions_of none acc = acc
new_permissions_of (some perms) acc = record acc { permissions = perms }

-- The effect of a receipt of the current block on the account `id`; `none` is a return by `?`.
unfoldable pub pend_receipt : AccountId → Account → Receipt → Option Account
pend_receipt id acc r = elim (r.tx) [
  | owner_tx tx ↦ some acc
  | mint_tx tx ↦
      if tx.to == id
      then (do balance ← checked_add acc.balance tx.amount; some (with_balance acc balance))
      else some acc
  | create_account_tx tx ↦
      if tx.creator == id then spend acc tx.account.balance tx.base.fee else some acc
  | update_account_tx tx ↦ (do
    acc' ←
        (if tx.account_id == id
          then (do balance ← checked_sub acc.balance tx.base.fee; some (with_balance acc balance))
          else some acc)
    some (new_permissions_of tx.new_permissions (new_script_of tx.new_script acc')))
  | transfer_tx tx ↦ (do
    acc' ← (if tx.from == id then spend acc tx.base.fee tx.amount else some acc)
    pend_log id tx.from acc' r.log)
]

unfoldable pub pend_receipts : AccountId → Account → List Receipt → Option Account
pend_receipts id acc [] = some acc
pend_receipts id acc (r ∷ rs) = pend_receipt id acc r >>= λ acc'. pend_receipts id acc' rs

unfoldable pub get_account : Blockchain → AccountId → List Receipt → Option Account
get_account ch id receipts = ch.indexer.accounts id >>= λ acc. pend_receipts id acc receipts

-- Whether the account `id` pays for a transaction.
unfoldable pub has_match : AccountId → TxVariant → Bool
has_match id (owner_tx tx) = false
has_match id (mint_tx tx) = false
has_match id (create_account_tx tx) = tx.creator == id
has_match id (update_account_tx tx) = tx.account_id == id
has_match id (transfer_tx tx) = tx.from == id

-- `handle_receipt_match` over receipts, on `count` and `delta`.
unfoldable pub match_receipts : AccountId → List Receipt → ℕ × ℕ → ℕ × ℕ
match_receipts id [] (count, delta) = (count, delta)
match_receipts id (r ∷ rs) (count, delta) =
    match_receipts id rs (if has_match id r.tx then (count + 1, 0) else (count, delta))

-- `GRAEL_FEE_MIN.checked_mul(mult.checked_pow(count)?)`.
abbrev pub fee_of : Asset → ℕ → Option Asset
fee_of mult count = do factor ← checked_pow mult count; checked_mul grael_fee_min factor

module _ {E : Type 0} where
  -- The loop from the height `n - 1` down to the genesis block.
  unfoldable pub match_blocks : Blockchain → AccountId → ℕ → ℕ × ℕ → Outcome E ℕ
  match_blocks ch id zero (count, delta) = ok count
  match_blocks ch id (suc n) (count, delta) =
      let matched : Block → ℕ × ℕ = λ block. match_receipts id block.receipts (count, delta + 1) in
      let rest : Block → Outcome E ℕ = λ block. match_blocks ch id n (matched block) in
      elim (get_block ch n) [
        | none ↦ err panic
        | some block ↦
            if (matched block).1 == fee_reset_window then ok (matched block).0 else rest block
      ]

  unfoldable pub get_account_fee : Blockchain → AccountId → List Receipt → Outcome E (Option Asset)
  get_account_fee ch id receipts =
      elim (match_blocks ch id (get_chain_height ch + 1) (match_receipts id receipts (1, 0))) [
        | err e ↦ err e
        | ok count ↦ ok (fee_of grael_fee_mult (count % 2 ^ 16))
      ]

  -- The receipts in `n` blocks from a height on.
  unfoldable pub count_receipts : Blockchain → ℕ → ℕ → ℕ → Outcome E ℕ
  count_receipts ch from zero count = ok count
  count_receipts ch from (suc n) count = elim (get_block ch from) [
    | none ↦ err panic
    | some block ↦ count_receipts ch (from + 1) n (count + length block.receipts)
  ]

  unfoldable pub get_network_fee : Blockchain → Outcome E (Option Asset)
  get_network_fee ch =
      let max_height = get_chain_height ch - get_chain_height ch % 5 in
      let min_height =
        if ltb network_fee_avg_window max_height then max_height - network_fee_avg_window else 0 in
      elim (count_receipts ch min_height (max_height + 1 - min_height) 1) [
        | err e ↦ err e
        | ok count ↦ ok (
            if ltb (2 ^ 16 - 1) (count / network_fee_avg_window)
            then none
            else fee_of grael_fee_net_mult (count / network_fee_avg_window))
      ]

  unfoldable pub get_account_info :
      Blockchain → AccountId → List Receipt → Outcome E (Option AccountInfo)
  get_account_info ch id receipts = elim (get_account ch id receipts) [
    | none ↦ ok none
    | some account ↦ elim (get_network_fee ch) [
      | err e ↦ err e
      | ok none ↦ ok none
      | ok (some net_fee) ↦ elim (get_account_fee ch id receipts) [
        | err e ↦ err e
        | ok none ↦ ok none
        | ok (some account_fee) ↦
            ok (some (record { account = account; net_fee = net_fee; account_fee = account_fee }))
      ]
    ]
  ]
