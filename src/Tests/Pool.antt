-- ===== src/Tests/Pool.antt =====
-- Witnesses for the pool and the minter.
use godcoin.Base.{bytes_eq, ◌≡◌, refl, arith, [], ◌∷◌, some, ok, err}
use godcoin.Base.Int.{pos}
use godcoin.Asset.{asset_default}
use godcoin.Tx.Types.{transfer_tx}
use godcoin.Receipt.Format.{entry_serialize, push_entries, receipt_serialize}
use godcoin.Asset.Ops.{
  as_i64, checked_add, checked_add_i64, checked_div, checked_mul, checked_pow, checked_sub,
  checked_sub_i64, pow_loop,
}
use godcoin.Crypto.{double_sha256}
use godcoin.Serializer.Read.{
  from_be, read_exact, take_asset, take_bytes, take_digest, take_i64, take_pub_key, take_sig_pair,
  take_u16, take_u32, take_u64, take_u8, take_var_i64, take_var_loop, zigzag_decode,
}
use godcoin.Serializer.Write.{
  be_bytes, push_asset, push_bytes, push_digest, push_i64, push_pub_key, push_sig_pair, push_u16,
  push_u32, push_u64, push_u8, push_var_i64, push_var_loop, zigzag_encode,
}
use godcoin.Script.Stack.{pop, pop_account_id, pop_asset, pop_bool, push}
use godcoin.Script.Header.{find_fn, get_fn_ptr}
use godcoin.Script.Decode.{
  consume_op, decode_op, read_args, read_byte, read_define, read_number, read_pair, read_slice,
  read_u64,
}
use godcoin.Tx.Format.{
  body_deserialize, calc_txid, create_account_deserialize, create_account_serialize,
  deserialize_header, mint_deserialize, mint_serialize, owner_deserialize, owner_serialize,
  push_permissions, push_script, push_sigs, serialize_header, serialize_without_sigs,
  take_permissions, take_script, take_sigs, transfer_deserialize, transfer_serialize,
  tx_deserialize, tx_serialize, update_account_deserialize, update_account_serialize,
  v0_deserialize,
}
use godcoin.Engine.Machine.{next_op}
use godcoin.Engine.Exec.{
  arithmetic_op, check_acc_perms, count_accs, destroy_for, destroy_op, else_op, exec, fail_unless,
  if_op, live_account, log_destroy, pop_accounts, push_next, require_account, send_funds, sender_of,
  set_ignore_else, set_marker, skip_branch, skip_until, transfer_op,
}
use godcoin.Engine.Run.{
  call_fn, enter, enter_at, eval, finish, get_last?, load_args, loop, remainder_to, send_remainder,
}
use godcoin.Chain.Types.{ok_or, total_fee, unwrap, ◌>>=◌}
use godcoin.Chain.Block.{
  block_deserialize, block_serialize, calc_header_hash, calc_receipt_root, child_of,
  header_deserialize, header_serialize, header_v0_deserialize, new_child, push_receipts,
  receipts_bytes, sum_fees, take_receipts, verify_previous_hash, verify_receipt_root,
}
use godcoin.Chain.Accounts.{
  count_receipts, get_account, get_account_fee, get_account_info, get_block, get_network_fee,
  has_match, match_blocks, match_receipts, new_permissions_of, new_script_of, pend_entry, pend_log,
  pend_receipt, pend_receipts, spend,
}
use godcoin.Chain.Execute.{
  check_sigs, check_update, creates, execute_body, execute_create_account, execute_mint,
  execute_owner, execute_transfer, execute_tx, execute_update_account, get_owner, of_eval,
  reject_if, required_fee, run_owner_script, run_script,
}
use godcoin.Base.{ℕ, true, length, ◌+◌, ◌≤◌}
use godcoin.Chain.Accounts.{get_chain_height}
use godcoin.Chain.Linked.{IsLinked, AllAccepted, insert_all, insert_all-IsLinked}
use godcoin.Chain.Verify.{
  assert_that, store_insert, insert_block, of_tx, refuse_if, verify_block, verify_receipts,
}
use godcoin.Base.Int.{◌*ℤ◌, ◌+ℤ◌, ◌-ℤ◌, ◌/ℤ◌}
use godcoin.Asset.Precision.{
  checked_div_i128, checked_div_i64, checked_mul_i128, checked_mul_i64, mult_big, set_decimals_big,
  set_decimals_i128, set_decimals_i64,
}
use godcoin.Tests.Samples.{crypto, wallet, genesis, payment}
use godcoin.Account.Types.{Account}
use godcoin.Chain.Accounts.{Blockchain}
use godcoin.Tx.Types.{TransferTx}
use godcoin.Base.{
  List, none, some, false, bytes_eq, Option, if◌then◌else◌, inl, inr, ◌⊎◌, ◌==◌, Bool-cases,
}
use godcoin.Script.Op.{AccountId}
use godcoin.Chain.Types.{BlockErr, TxErr, reject}
use godcoin.Chain.Index.{
  commit, set_chain_height, insert_or_update_account, put_account, set_owner, add_token_supply,
  get_account_mut, add_bal, sub_bal,
}
use godcoin.Chain.Apply.{
  index_entry, index_log, index_receipt, index_receipts, owner_after, index_block,
}
use godcoin.Pool.Queue.{
  ReceiptPool, TxExpiry, pool_new, has_txid, insert_txid, unexpired, purge_expired_txids, flush,
}
use godcoin.Pool.Minter.{
  Minter, Event, push_tx, produce_block, force_block, block_sign, mint_block, produce, of_push,
  of_force, handle, handle_all,
}
use godcoin.Pool.Produced.{Signs}
use godcoin.Tests.Samples.{indexer, payment, genesis, crypto, wallet}
use godcoin.Tx.Types.{OwnerTx}
use godcoin.Chain.Types.{Block}
use godcoin.Pool.History.{handle_all-IsBacked, next_block_verifies}
use godcoin.Pool.Replay.{taken_once}
use godcoin.Chain.Supply.Ledger.{Lists, total}
use godcoin.Chain.Supply.Blocks.{IsBacked}

-- The accounts 1 and 2, which hold the whole supply.
abbrev two_accounts : AccountId → Option Account
two_accounts id =
    if id == 1 then some wallet else if id == 2 then some (record wallet { id = 2 }) else none

abbrev two_chain : Blockchain
two_chain = record {
  indexer = record indexer {
    accounts = two_accounts;
    token_supply = record { amount = pos 200000 };
  };
  head = genesis;
  earlier = λ n. none;
}

abbrev ids : List AccountId
ids = 1 ∷ 2 ∷ []

abbrev no_txids : TxExpiry
no_txids key = none

abbrev minter : Minter
minter = record {
  sign = λ msg. record { pub_key = record { bytes = [] }; signature = record { bytes = msg } };
  enable_stale_production = false;
}

abbrev due_payment : TransferTx
due_payment = record payment { base = record payment.base { expiry = 200 } }

abbrev arrival : List Event
arrival = push_tx 100 (transfer_tx due_payment) ∷ []

abbrev day : List Event
day = push_tx 100 (transfer_tx due_payment) ∷ produce_block 130 ∷ force_block 135 true ∷ []

-- The pool that a history leads to.
abbrev pool_after : List Event → ReceiptPool
pool_after events = elim (handle_all crypto minter (pool_new two_chain no_txids) events) [
  | ok pool ↦ pool
  | err e ↦ pool_new two_chain no_txids
]

day_runs : handle_all crypto minter (pool_new two_chain no_txids) day ≡ ok (pool_after day)
unfolding as_i64 checked_add_i64 checked_sub_i64 checked_add checked_sub checked_mul checked_div
    pow_loop checked_pow read_exact from_be take_u8 take_u16 take_u32 take_u64 take_i64
    zigzag_decode take_var_loop take_var_i64 take_bytes take_digest take_pub_key take_sig_pair
    take_asset push pop pop_bool pop_account_id pop_asset find_fn get_fn_ptr read_byte read_slice
    read_u64 read_args read_define read_pair read_number decode_op consume_op next_op skip_until
    skip_branch live_account require_account count_accs check_acc_perms pop_accounts arithmetic_op
    push_next fail_unless send_funds transfer_op sender_of log_destroy set_marker set_ignore_else
    destroy_for destroy_op if_op else_op exec load_args loop get_last? remainder_to send_remainder
    finish enter_at enter call_fn eval ◌+ℤ◌ ◌-ℤ◌ ◌*ℤ◌ ◌/ℤ◌ double_sha256 be_bytes zigzag_encode
    push_u8 push_u16 push_u32 push_u64 push_i64 push_var_loop push_var_i64 push_bytes push_digest
    push_pub_key push_sig_pair push_asset serialize_header owner_serialize mint_serialize
    create_account_serialize push_script push_permissions update_account_serialize
    transfer_serialize serialize_without_sigs push_sigs tx_serialize calc_txid deserialize_header
    owner_deserialize mint_deserialize create_account_deserialize take_script take_permissions
    update_account_deserialize transfer_deserialize body_deserialize take_sigs v0_deserialize
    tx_deserialize total_fee ◌>>=◌ ok_or unwrap header_serialize header_v0_deserialize
    header_deserialize calc_header_hash receipts_bytes calc_receipt_root verify_previous_hash
    verify_receipt_root sum_fees child_of new_child push_receipts block_serialize take_receipts
    block_deserialize get_block spend pend_entry pend_log new_script_of new_permissions_of
    pend_receipt pend_receipts get_account has_match match_receipts match_blocks get_account_fee
    count_receipts get_network_fee get_account_info reject_if of_eval run_script get_owner
    run_owner_script execute_owner execute_mint creates check_sigs required_fee
    execute_create_account check_update execute_update_account execute_transfer execute_body
    execute_tx refuse_if of_tx verify_receipts verify_block insert_block store_insert assert_that
    checked_mul_i64 checked_div_i64 checked_mul_i128 checked_div_i128 set_decimals_i64
    set_decimals_i128 mult_big set_decimals_big receipt_serialize push_entries entry_serialize
    bytes_eq commit set_chain_height insert_or_update_account put_account set_owner add_token_supply
    get_account_mut add_bal sub_bal index_entry index_log index_receipt index_receipts owner_after
    index_block has_txid insert_txid unexpired purge_expired_txids godcoin.Pool.Queue.push flush
    block_sign mint_block produce of_push of_force handle handle_all
day_runs = refl

arrival_runs :
    handle_all crypto minter (pool_new two_chain no_txids) arrival ≡ ok (pool_after arrival)
unfolding as_i64 checked_add_i64 checked_sub_i64 checked_add checked_sub checked_mul checked_div
    pow_loop checked_pow read_exact from_be take_u8 take_u16 take_u32 take_u64 take_i64
    zigzag_decode take_var_loop take_var_i64 take_bytes take_digest take_pub_key take_sig_pair
    take_asset push pop pop_bool pop_account_id pop_asset find_fn get_fn_ptr read_byte read_slice
    read_u64 read_args read_define read_pair read_number decode_op consume_op next_op skip_until
    skip_branch live_account require_account count_accs check_acc_perms pop_accounts arithmetic_op
    push_next fail_unless send_funds transfer_op sender_of log_destroy set_marker set_ignore_else
    destroy_for destroy_op if_op else_op exec load_args loop get_last? remainder_to send_remainder
    finish enter_at enter call_fn eval ◌+ℤ◌ ◌-ℤ◌ ◌*ℤ◌ ◌/ℤ◌ double_sha256 be_bytes zigzag_encode
    push_u8 push_u16 push_u32 push_u64 push_i64 push_var_loop push_var_i64 push_bytes push_digest
    push_pub_key push_sig_pair push_asset serialize_header owner_serialize mint_serialize
    create_account_serialize push_script push_permissions update_account_serialize
    transfer_serialize serialize_without_sigs push_sigs tx_serialize calc_txid deserialize_header
    owner_deserialize mint_deserialize create_account_deserialize take_script take_permissions
    update_account_deserialize transfer_deserialize body_deserialize take_sigs v0_deserialize
    tx_deserialize total_fee ◌>>=◌ ok_or unwrap header_serialize header_v0_deserialize
    header_deserialize calc_header_hash receipts_bytes calc_receipt_root verify_previous_hash
    verify_receipt_root sum_fees child_of new_child push_receipts block_serialize take_receipts
    block_deserialize get_block spend pend_entry pend_log new_script_of new_permissions_of
    pend_receipt pend_receipts get_account has_match match_receipts match_blocks get_account_fee
    count_receipts get_network_fee get_account_info reject_if of_eval run_script get_owner
    run_owner_script execute_owner execute_mint creates check_sigs required_fee
    execute_create_account check_update execute_update_account execute_transfer execute_body
    execute_tx refuse_if of_tx verify_receipts verify_block insert_block store_insert assert_that
    checked_mul_i64 checked_div_i64 checked_mul_i128 checked_div_i128 set_decimals_i64
    set_decimals_i128 mult_big set_decimals_big receipt_serialize push_entries entry_serialize
    bytes_eq commit set_chain_height insert_or_update_account put_account set_owner add_token_supply
    get_account_mut add_bal sub_bal index_entry index_log index_receipt index_receipts owner_after
    index_block has_txid insert_txid unexpired purge_expired_txids godcoin.Pool.Queue.push flush
    block_sign mint_block produce of_push of_force handle handle_all
arrival_runs = refl

day_booked : total ids (pool_after day).chain.indexer.accounts ≡ pos 200000
unfolding as_i64 checked_add_i64 checked_sub_i64 checked_add checked_sub checked_mul checked_div
    pow_loop checked_pow read_exact from_be take_u8 take_u16 take_u32 take_u64 take_i64
    zigzag_decode take_var_loop take_var_i64 take_bytes take_digest take_pub_key take_sig_pair
    take_asset push pop pop_bool pop_account_id pop_asset find_fn get_fn_ptr read_byte read_slice
    read_u64 read_args read_define read_pair read_number decode_op consume_op next_op skip_until
    skip_branch live_account require_account count_accs check_acc_perms pop_accounts arithmetic_op
    push_next fail_unless send_funds transfer_op sender_of log_destroy set_marker set_ignore_else
    destroy_for destroy_op if_op else_op exec load_args loop get_last? remainder_to send_remainder
    finish enter_at enter call_fn eval ◌+ℤ◌ ◌-ℤ◌ ◌*ℤ◌ ◌/ℤ◌ double_sha256 be_bytes zigzag_encode
    push_u8 push_u16 push_u32 push_u64 push_i64 push_var_loop push_var_i64 push_bytes push_digest
    push_pub_key push_sig_pair push_asset serialize_header owner_serialize mint_serialize
    create_account_serialize push_script push_permissions update_account_serialize
    transfer_serialize serialize_without_sigs push_sigs tx_serialize calc_txid deserialize_header
    owner_deserialize mint_deserialize create_account_deserialize take_script take_permissions
    update_account_deserialize transfer_deserialize body_deserialize take_sigs v0_deserialize
    tx_deserialize total_fee ◌>>=◌ ok_or unwrap header_serialize header_v0_deserialize
    header_deserialize calc_header_hash receipts_bytes calc_receipt_root verify_previous_hash
    verify_receipt_root sum_fees child_of new_child push_receipts block_serialize take_receipts
    block_deserialize get_block spend pend_entry pend_log new_script_of new_permissions_of
    pend_receipt pend_receipts get_account has_match match_receipts match_blocks get_account_fee
    count_receipts get_network_fee get_account_info reject_if of_eval run_script get_owner
    run_owner_script execute_owner execute_mint creates check_sigs required_fee
    execute_create_account check_update execute_update_account execute_transfer execute_body
    execute_tx refuse_if of_tx verify_receipts verify_block insert_block store_insert assert_that
    checked_mul_i64 checked_div_i64 checked_mul_i128 checked_div_i128 set_decimals_i64
    set_decimals_i128 mult_big set_decimals_big receipt_serialize push_entries entry_serialize
    bytes_eq commit set_chain_height insert_or_update_account put_account set_owner add_token_supply
    get_account_mut add_bal sub_bal index_entry index_log index_receipt index_receipts owner_after
    index_block has_txid insert_txid unexpired purge_expired_txids godcoin.Pool.Queue.push flush
    block_sign mint_block produce of_push of_force handle handle_all
day_booked = refl

-- Each account stands in the list once.
two_listed : Lists ids two_accounts
two_listed id acc known = elim (Bool-cases (id == 1)) [
  | inl one ↦ ground (arith, one)
  | inr other ↦ elim (Bool-cases (id == 2)) [
    | inl two ↦ ground (arith, other, two)
    | inr third ↦ absurd (ground (arith, other, third, known))
  ]
]

two_chain-IsBacked : IsBacked ids two_chain.indexer
unfolding ◌+ℤ◌
two_chain-IsBacked = refl

handle_all-IsBacked_example : IsBacked ids (pool_after day).chain.indexer
handle_all-IsBacked_example =
    handle_all-IsBacked crypto minter ids two_chain no_txids day (pool_after day) two_chain-IsBacked
      two_listed (tt, (tt, (tt, tt))) day_runs

abbrev next_child : Block
next_child = elim (new_child crypto 130 genesis (pool_after arrival).receipts) [
  | some block ↦ block
  | none ↦ genesis
]

next_made :
    new_child crypto 130 (pool_after arrival).chain.head (pool_after arrival).receipts
    ≡ some next_child
unfolding as_i64 checked_add_i64 checked_sub_i64 checked_add checked_sub checked_mul checked_div
    pow_loop checked_pow read_exact from_be take_u8 take_u16 take_u32 take_u64 take_i64
    zigzag_decode take_var_loop take_var_i64 take_bytes take_digest take_pub_key take_sig_pair
    take_asset push pop pop_bool pop_account_id pop_asset find_fn get_fn_ptr read_byte read_slice
    read_u64 read_args read_define read_pair read_number decode_op consume_op next_op skip_until
    skip_branch live_account require_account count_accs check_acc_perms pop_accounts arithmetic_op
    push_next fail_unless send_funds transfer_op sender_of log_destroy set_marker set_ignore_else
    destroy_for destroy_op if_op else_op exec load_args loop get_last? remainder_to send_remainder
    finish enter_at enter call_fn eval ◌+ℤ◌ ◌-ℤ◌ ◌*ℤ◌ ◌/ℤ◌ double_sha256 be_bytes zigzag_encode
    push_u8 push_u16 push_u32 push_u64 push_i64 push_var_loop push_var_i64 push_bytes push_digest
    push_pub_key push_sig_pair push_asset serialize_header owner_serialize mint_serialize
    create_account_serialize push_script push_permissions update_account_serialize
    transfer_serialize serialize_without_sigs push_sigs tx_serialize calc_txid deserialize_header
    owner_deserialize mint_deserialize create_account_deserialize take_script take_permissions
    update_account_deserialize transfer_deserialize body_deserialize take_sigs v0_deserialize
    tx_deserialize total_fee ◌>>=◌ ok_or unwrap header_serialize header_v0_deserialize
    header_deserialize calc_header_hash receipts_bytes calc_receipt_root verify_previous_hash
    verify_receipt_root sum_fees child_of new_child push_receipts block_serialize take_receipts
    block_deserialize get_block spend pend_entry pend_log new_script_of new_permissions_of
    pend_receipt pend_receipts get_account has_match match_receipts match_blocks get_account_fee
    count_receipts get_network_fee get_account_info reject_if of_eval run_script get_owner
    run_owner_script execute_owner execute_mint creates check_sigs required_fee
    execute_create_account check_update execute_update_account execute_transfer execute_body
    execute_tx refuse_if of_tx verify_receipts verify_block insert_block store_insert assert_that
    checked_mul_i64 checked_div_i64 checked_mul_i128 checked_div_i128 set_decimals_i64
    set_decimals_i128 mult_big set_decimals_big receipt_serialize push_entries entry_serialize
    bytes_eq commit set_chain_height insert_or_update_account put_account set_owner add_token_supply
    get_account_mut add_bal sub_bal index_entry index_log index_receipt index_receipts owner_after
    index_block has_txid insert_txid unexpired purge_expired_txids godcoin.Pool.Queue.push flush
    block_sign mint_block produce of_push of_force handle handle_all
next_made = refl

abbrev two_owner : OwnerTx
two_owner = record {
  base = record { nonce = 0; expiry = 0; fee = asset_default; signature_pairs = [] };
  minter = record { bytes = [] };
  wallet = 2;
}

two_owned : get_owner {E = BlockErr} (pool_after arrival).chain ≡ ok two_owner
unfolding as_i64 checked_add_i64 checked_sub_i64 checked_add checked_sub checked_mul checked_div
    pow_loop checked_pow read_exact from_be take_u8 take_u16 take_u32 take_u64 take_i64
    zigzag_decode take_var_loop take_var_i64 take_bytes take_digest take_pub_key take_sig_pair
    take_asset push pop pop_bool pop_account_id pop_asset find_fn get_fn_ptr read_byte read_slice
    read_u64 read_args read_define read_pair read_number decode_op consume_op next_op skip_until
    skip_branch live_account require_account count_accs check_acc_perms pop_accounts arithmetic_op
    push_next fail_unless send_funds transfer_op sender_of log_destroy set_marker set_ignore_else
    destroy_for destroy_op if_op else_op exec load_args loop get_last? remainder_to send_remainder
    finish enter_at enter call_fn eval ◌+ℤ◌ ◌-ℤ◌ ◌*ℤ◌ ◌/ℤ◌ double_sha256 be_bytes zigzag_encode
    push_u8 push_u16 push_u32 push_u64 push_i64 push_var_loop push_var_i64 push_bytes push_digest
    push_pub_key push_sig_pair push_asset serialize_header owner_serialize mint_serialize
    create_account_serialize push_script push_permissions update_account_serialize
    transfer_serialize serialize_without_sigs push_sigs tx_serialize calc_txid deserialize_header
    owner_deserialize mint_deserialize create_account_deserialize take_script take_permissions
    update_account_deserialize transfer_deserialize body_deserialize take_sigs v0_deserialize
    tx_deserialize total_fee ◌>>=◌ ok_or unwrap header_serialize header_v0_deserialize
    header_deserialize calc_header_hash receipts_bytes calc_receipt_root verify_previous_hash
    verify_receipt_root sum_fees child_of new_child push_receipts block_serialize take_receipts
    block_deserialize get_block spend pend_entry pend_log new_script_of new_permissions_of
    pend_receipt pend_receipts get_account has_match match_receipts match_blocks get_account_fee
    count_receipts get_network_fee get_account_info reject_if of_eval run_script get_owner
    run_owner_script execute_owner execute_mint creates check_sigs required_fee
    execute_create_account check_update execute_update_account execute_transfer execute_body
    execute_tx refuse_if of_tx verify_receipts verify_block insert_block store_insert assert_that
    checked_mul_i64 checked_div_i64 checked_mul_i128 checked_div_i128 set_decimals_i64
    set_decimals_i128 mult_big set_decimals_big receipt_serialize push_entries entry_serialize
    bytes_eq commit set_chain_height insert_or_update_account put_account set_owner add_token_supply
    get_account_mut add_bal sub_bal index_entry index_log index_receipt index_receipts owner_after
    index_block has_txid insert_txid unexpired purge_expired_txids godcoin.Pool.Queue.push flush
    block_sign mint_block produce of_push of_force handle handle_all
two_owned = refl

minter-Signs : Signs crypto minter two_owner.minter
minter-Signs = record { named = λ msg. refl; holds = λ msg. refl }

next_block_verifies_example :
    verify_block crypto
      (pool_after arrival).chain
      (block_sign crypto minter next_child)
      (pool_after arrival).chain.head
    ≡ ok tt
next_block_verifies_example =
    next_block_verifies crypto minter ids two_chain no_txids arrival (pool_after arrival) 130
      next_child two_owner two_chain-IsBacked two_listed (tt, tt) arrival_runs two_owned
      minter-Signs next_made

-- The pool that takes the payment, and the block after it.
abbrev taken_pool : ReceiptPool
taken_pool = pool_after arrival

payment_taken :
    godcoin.Pool.Queue.push crypto 100 (pool_new two_chain no_txids) (transfer_tx due_payment)
    ≡ ok taken_pool
unfolding as_i64 checked_add_i64 checked_sub_i64 checked_add checked_sub checked_mul checked_div
    pow_loop checked_pow read_exact from_be take_u8 take_u16 take_u32 take_u64 take_i64
    zigzag_decode take_var_loop take_var_i64 take_bytes take_digest take_pub_key take_sig_pair
    take_asset push pop pop_bool pop_account_id pop_asset find_fn get_fn_ptr read_byte read_slice
    read_u64 read_args read_define read_pair read_number decode_op consume_op next_op skip_until
    skip_branch live_account require_account count_accs check_acc_perms pop_accounts arithmetic_op
    push_next fail_unless send_funds transfer_op sender_of log_destroy set_marker set_ignore_else
    destroy_for destroy_op if_op else_op exec load_args loop get_last? remainder_to send_remainder
    finish enter_at enter call_fn eval ◌+ℤ◌ ◌-ℤ◌ ◌*ℤ◌ ◌/ℤ◌ double_sha256 be_bytes zigzag_encode
    push_u8 push_u16 push_u32 push_u64 push_i64 push_var_loop push_var_i64 push_bytes push_digest
    push_pub_key push_sig_pair push_asset serialize_header owner_serialize mint_serialize
    create_account_serialize push_script push_permissions update_account_serialize
    transfer_serialize serialize_without_sigs push_sigs tx_serialize calc_txid deserialize_header
    owner_deserialize mint_deserialize create_account_deserialize take_script take_permissions
    update_account_deserialize transfer_deserialize body_deserialize take_sigs v0_deserialize
    tx_deserialize total_fee ◌>>=◌ ok_or unwrap header_serialize header_v0_deserialize
    header_deserialize calc_header_hash receipts_bytes calc_receipt_root verify_previous_hash
    verify_receipt_root sum_fees child_of new_child push_receipts block_serialize take_receipts
    block_deserialize get_block spend pend_entry pend_log new_script_of new_permissions_of
    pend_receipt pend_receipts get_account has_match match_receipts match_blocks get_account_fee
    count_receipts get_network_fee get_account_info reject_if of_eval run_script get_owner
    run_owner_script execute_owner execute_mint creates check_sigs required_fee
    execute_create_account check_update execute_update_account execute_transfer execute_body
    execute_tx refuse_if of_tx verify_receipts verify_block insert_block store_insert assert_that
    checked_mul_i64 checked_div_i64 checked_mul_i128 checked_div_i128 set_decimals_i64
    set_decimals_i128 mult_big set_decimals_big receipt_serialize push_entries entry_serialize
    bytes_eq commit set_chain_height insert_or_update_account put_account set_owner add_token_supply
    get_account_mut add_bal sub_bal index_entry index_log index_receipt index_receipts owner_after
    index_block has_txid insert_txid unexpired purge_expired_txids godcoin.Pool.Queue.push flush
    block_sign mint_block produce of_push of_force handle handle_all
payment_taken = refl

abbrev block_event : List Event
block_event = produce_block 130 ∷ force_block 135 true ∷ []

block_runs : handle_all crypto minter taken_pool block_event ≡ ok (pool_after day)
unfolding as_i64 checked_add_i64 checked_sub_i64 checked_add checked_sub checked_mul checked_div
    pow_loop checked_pow read_exact from_be take_u8 take_u16 take_u32 take_u64 take_i64
    zigzag_decode take_var_loop take_var_i64 take_bytes take_digest take_pub_key take_sig_pair
    take_asset push pop pop_bool pop_account_id pop_asset find_fn get_fn_ptr read_byte read_slice
    read_u64 read_args read_define read_pair read_number decode_op consume_op next_op skip_until
    skip_branch live_account require_account count_accs check_acc_perms pop_accounts arithmetic_op
    push_next fail_unless send_funds transfer_op sender_of log_destroy set_marker set_ignore_else
    destroy_for destroy_op if_op else_op exec load_args loop get_last? remainder_to send_remainder
    finish enter_at enter call_fn eval ◌+ℤ◌ ◌-ℤ◌ ◌*ℤ◌ ◌/ℤ◌ double_sha256 be_bytes zigzag_encode
    push_u8 push_u16 push_u32 push_u64 push_i64 push_var_loop push_var_i64 push_bytes push_digest
    push_pub_key push_sig_pair push_asset serialize_header owner_serialize mint_serialize
    create_account_serialize push_script push_permissions update_account_serialize
    transfer_serialize serialize_without_sigs push_sigs tx_serialize calc_txid deserialize_header
    owner_deserialize mint_deserialize create_account_deserialize take_script take_permissions
    update_account_deserialize transfer_deserialize body_deserialize take_sigs v0_deserialize
    tx_deserialize total_fee ◌>>=◌ ok_or unwrap header_serialize header_v0_deserialize
    header_deserialize calc_header_hash receipts_bytes calc_receipt_root verify_previous_hash
    verify_receipt_root sum_fees child_of new_child push_receipts block_serialize take_receipts
    block_deserialize get_block spend pend_entry pend_log new_script_of new_permissions_of
    pend_receipt pend_receipts get_account has_match match_receipts match_blocks get_account_fee
    count_receipts get_network_fee get_account_info reject_if of_eval run_script get_owner
    run_owner_script execute_owner execute_mint creates check_sigs required_fee
    execute_create_account check_update execute_update_account execute_transfer execute_body
    execute_tx refuse_if of_tx verify_receipts verify_block insert_block store_insert assert_that
    checked_mul_i64 checked_div_i64 checked_mul_i128 checked_div_i128 set_decimals_i64
    set_decimals_i128 mult_big set_decimals_big receipt_serialize push_entries entry_serialize
    bytes_eq commit set_chain_height insert_or_update_account put_account set_owner add_token_supply
    get_account_mut add_bal sub_bal index_entry index_log index_receipt index_receipts owner_after
    index_block has_txid insert_txid unexpired purge_expired_txids godcoin.Pool.Queue.push flush
    block_sign mint_block produce of_push of_force handle handle_all
block_runs = refl

taken_once_example :
    (godcoin.Pool.Queue.push crypto 140 (pool_after day) (transfer_tx due_payment)
      ≡ reject TxErr.tx_expired)
    ⊎ (godcoin.Pool.Queue.push crypto 140 (pool_after day) (transfer_tx due_payment)
        ≡ reject TxErr.tx_dupe)
taken_once_example =
    taken_once crypto minter 100 140 (transfer_tx due_payment) block_event
      (pool_new two_chain no_txids) taken_pool (pool_after day) payment_taken
      (omega arith, (omega arith, omega arith)) block_runs

-- The two blocks of the day, one of them forced.
abbrev day_blocks : List Block
day_blocks = elim (get_block (pool_after day).chain 1) [
  | some block ↦ block ∷ (pool_after day).chain.head ∷ []
  | none ↦ []
]

day_inserted : insert_all crypto two_chain day_blocks ≡ ok (pool_after day).chain
unfolding as_i64 checked_add_i64 checked_sub_i64 checked_add checked_sub checked_mul checked_div
    pow_loop checked_pow read_exact from_be take_u8 take_u16 take_u32 take_u64 take_i64
    zigzag_decode take_var_loop take_var_i64 take_bytes take_digest take_pub_key take_sig_pair
    take_asset push pop pop_bool pop_account_id pop_asset find_fn get_fn_ptr read_byte read_slice
    read_u64 read_args read_define read_pair read_number decode_op consume_op next_op skip_until
    skip_branch live_account require_account count_accs check_acc_perms pop_accounts arithmetic_op
    push_next fail_unless send_funds transfer_op sender_of log_destroy set_marker set_ignore_else
    destroy_for destroy_op if_op else_op exec load_args loop get_last? remainder_to send_remainder
    finish enter_at enter call_fn eval ◌+ℤ◌ ◌-ℤ◌ ◌*ℤ◌ ◌/ℤ◌ double_sha256 be_bytes zigzag_encode
    push_u8 push_u16 push_u32 push_u64 push_i64 push_var_loop push_var_i64 push_bytes push_digest
    push_pub_key push_sig_pair push_asset serialize_header owner_serialize mint_serialize
    create_account_serialize push_script push_permissions update_account_serialize
    transfer_serialize serialize_without_sigs push_sigs tx_serialize calc_txid deserialize_header
    owner_deserialize mint_deserialize create_account_deserialize take_script take_permissions
    update_account_deserialize transfer_deserialize body_deserialize take_sigs v0_deserialize
    tx_deserialize total_fee ◌>>=◌ ok_or unwrap header_serialize header_v0_deserialize
    header_deserialize calc_header_hash receipts_bytes calc_receipt_root verify_previous_hash
    verify_receipt_root sum_fees child_of new_child push_receipts block_serialize take_receipts
    block_deserialize get_block spend pend_entry pend_log new_script_of new_permissions_of
    pend_receipt pend_receipts get_account has_match match_receipts match_blocks get_account_fee
    count_receipts get_network_fee get_account_info reject_if of_eval run_script get_owner
    run_owner_script execute_owner execute_mint creates check_sigs required_fee
    execute_create_account check_update execute_update_account execute_transfer execute_body
    execute_tx refuse_if of_tx verify_receipts verify_block insert_block store_insert assert_that
    checked_mul_i64 checked_div_i64 checked_mul_i128 checked_div_i128 set_decimals_i64
    set_decimals_i128 mult_big set_decimals_big receipt_serialize push_entries entry_serialize
    bytes_eq commit set_chain_height insert_or_update_account put_account set_owner add_token_supply
    get_account_mut add_bal sub_bal index_entry index_log index_receipt index_receipts owner_after
    index_block has_txid insert_txid unexpired purge_expired_txids godcoin.Pool.Queue.push flush
    block_sign mint_block produce of_push of_force handle handle_all
day_inserted = refl

two_chain-IsLinked : IsLinked crypto two_chain
two_chain-IsLinked = record { top = refl; links = λ height below. absurd (omega arith) }

insert_all-IsLinked_example :
    IsLinked crypto (pool_after day).chain
    × AllAccepted crypto two_chain day_blocks (pool_after day).chain
    × (get_chain_height (pool_after day).chain ≡ 0 + length day_blocks)
    × ((h : ℕ) → h ≤ 0 → get_block (pool_after day).chain h ≡ get_block two_chain h)
insert_all-IsLinked_example =
    insert_all-IsLinked crypto two_chain (pool_after day).chain day_blocks two_chain-IsLinked
      day_inserted
