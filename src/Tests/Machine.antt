-- ===== src/Tests/Machine.antt =====
-- Witnesses for what the engine, the chain and the blocks promise: the theorems at concrete inputs.
use godcoin.Base.{◌≡◌, ◌≢◌, ◌≤◌, refl, arith, [], ◌∷◌, some, none, ok, err}
use godcoin.Base.Int.{pos}
use godcoin.Asset.{asset_default}
use godcoin.Script.Consume.{Fault, panic}
use godcoin.Script.Progress.{Consumed, consume_op-Consumed}
use godcoin.Tx.Types.{update_account_tx, transfer_tx}
use godcoin.Engine.Invariant.{log_sum}
use godcoin.Engine.Settle.{eval_terminates, eval-pays_all}
use godcoin.Engine.PastEnd.{eval-panic_iff}
use godcoin.Base.{ℕ, ◌↔◌, ◌<◌, length}
use godcoin.Engine.Machine.{EngineData}
use godcoin.Chain.Index.{WriteBatch, batch_new, get_account_mut, put_account}
use godcoin.Chain.Accounts.{Blockchain}
use godcoin.Tx.Types.{UpdateAccountTx}
use godcoin.Chain.Types.{TxErr}
use godcoin.Chain.Apply.{index_receipt}
use godcoin.Chain.Supply.Ledger.{view}
use godcoin.Chain.Accepted.{Payable, transfer_accepted}
use godcoin.Chain.Pending.{get_account-index_update}
use godcoin.Asset.Ops.{
  as_i64, checked_add, checked_add_i64, checked_div, checked_mul, checked_pow, checked_sub,
  checked_sub_i64, pow_loop,
}
use godcoin.Crypto.{double_sha256}
use godcoin.Serializer.Read.{
  from_be, read_exact, take_asset, take_bytes, take_digest, take_i64, take_pub_key, take_sig_pair,
  take_u16, take_u32, take_u64, take_u8, take_var_i64, take_var_loop, zigzag_decode,
}
use godcoin.Serializer.Write.{
  be_bytes, push_asset, push_bytes, push_digest, push_i64, push_pub_key, push_sig_pair, push_u16,
  push_u32, push_u64, push_u8, push_var_i64, push_var_loop, zigzag_encode,
}
use godcoin.Script.Stack.{pop, pop_account_id, pop_asset, pop_bool, push}
use godcoin.Script.Header.{find_fn, get_fn_ptr}
use godcoin.Script.Decode.{
  consume_op, decode_op, read_args, read_byte, read_define, read_number, read_pair, read_slice,
  read_u64,
}
use godcoin.Tx.Format.{
  body_deserialize, calc_txid, create_account_deserialize, create_account_serialize,
  deserialize_header, mint_deserialize, mint_serialize, owner_deserialize, owner_serialize,
  push_permissions, push_script, push_sigs, serialize_header, serialize_without_sigs,
  take_permissions, take_script, take_sigs, transfer_deserialize, transfer_serialize,
  tx_deserialize, tx_serialize, update_account_deserialize, update_account_serialize,
  v0_deserialize,
}
use godcoin.Engine.Machine.{next_op}
use godcoin.Engine.Exec.{
  arithmetic_op, check_acc_perms, count_accs, destroy_for, destroy_op, else_op, exec, fail_unless,
  if_op, live_account, log_destroy, pop_accounts, push_next, require_account, send_funds, sender_of,
  set_ignore_else, set_marker, skip_branch, skip_until, transfer_op,
}
use godcoin.Engine.Run.{
  call_fn, enter, enter_at, eval, finish, get_last?, load_args, loop, remainder_to, send_remainder,
}
use godcoin.Chain.Types.{ok_or, total_fee, unwrap, ◌>>=◌}
use godcoin.Chain.Block.{
  block_deserialize, block_serialize, calc_header_hash, calc_receipt_root, child_of,
  header_deserialize, header_serialize, header_v0_deserialize, new_child, push_receipts,
  receipts_bytes, sum_fees, take_receipts, verify_previous_hash, verify_receipt_root,
}
use godcoin.Chain.Accounts.{
  count_receipts, get_account, get_account_fee, get_account_info, get_block, get_network_fee,
  has_match, match_blocks, match_receipts, new_permissions_of, new_script_of, pend_entry, pend_log,
  pend_receipt, pend_receipts, spend,
}
use godcoin.Chain.Execute.{
  check_sigs, check_update, creates, execute_body, execute_create_account, execute_mint,
  execute_owner, execute_transfer, execute_tx, execute_update_account, get_owner, of_eval,
  reject_if, required_fee, run_owner_script, run_script,
}
use godcoin.Chain.Verify.{
  assert_that, store_insert, insert_block, of_tx, refuse_if, verify_block, verify_receipts,
}
use godcoin.Base.Int.{◌*ℤ◌, ◌+ℤ◌, ◌-ℤ◌, ◌/ℤ◌}
use godcoin.Asset.Precision.{
  checked_div_i128, checked_div_i64, checked_mul_i128, checked_mul_i64, mult_big, set_decimals_big,
  set_decimals_i128, set_decimals_i64,
}
use godcoin.Tests.Samples.{
  crypto, indexer, pay_script, wallet, genesis, blockchain, payment, payment_log, payment_data,
  free_script, update,
}

payment_runs : eval crypto payment_data ≡ ok payment_log
unfolding as_i64 checked_add_i64 checked_sub_i64 checked_add checked_sub checked_mul checked_div
    pow_loop checked_pow read_exact from_be take_u8 take_u16 take_u32 take_u64 take_i64
    zigzag_decode take_var_loop take_var_i64 take_bytes take_digest take_pub_key take_sig_pair
    take_asset push pop pop_bool pop_account_id pop_asset find_fn get_fn_ptr read_byte read_slice
    read_u64 read_args read_define read_pair read_number decode_op consume_op next_op skip_until
    skip_branch live_account require_account count_accs check_acc_perms pop_accounts arithmetic_op
    push_next fail_unless send_funds transfer_op sender_of log_destroy set_marker set_ignore_else
    destroy_for destroy_op if_op else_op exec load_args loop get_last? remainder_to send_remainder
    finish enter_at enter call_fn eval ◌+ℤ◌ ◌-ℤ◌ ◌*ℤ◌ ◌/ℤ◌
payment_runs = refl

payment_accepted : execute_tx crypto blockchain (transfer_tx payment) [] ≡ ok payment_log
unfolding as_i64 checked_add_i64 checked_sub_i64 checked_add checked_sub checked_mul checked_div
    pow_loop checked_pow read_exact from_be take_u8 take_u16 take_u32 take_u64 take_i64
    zigzag_decode take_var_loop take_var_i64 take_bytes take_digest take_pub_key take_sig_pair
    take_asset push pop pop_bool pop_account_id pop_asset find_fn get_fn_ptr read_byte read_slice
    read_u64 read_args read_define read_pair read_number decode_op consume_op next_op skip_until
    skip_branch live_account require_account count_accs check_acc_perms pop_accounts arithmetic_op
    push_next fail_unless send_funds transfer_op sender_of log_destroy set_marker set_ignore_else
    destroy_for destroy_op if_op else_op exec load_args loop get_last? remainder_to send_remainder
    finish enter_at enter call_fn eval ◌+ℤ◌ ◌-ℤ◌ ◌*ℤ◌ ◌/ℤ◌ double_sha256 be_bytes zigzag_encode
    push_u8 push_u16 push_u32 push_u64 push_i64 push_var_loop push_var_i64 push_bytes push_digest
    push_pub_key push_sig_pair push_asset serialize_header owner_serialize mint_serialize
    create_account_serialize push_script push_permissions update_account_serialize
    transfer_serialize serialize_without_sigs push_sigs tx_serialize calc_txid deserialize_header
    owner_deserialize mint_deserialize create_account_deserialize take_script take_permissions
    update_account_deserialize transfer_deserialize body_deserialize take_sigs v0_deserialize
    tx_deserialize total_fee ◌>>=◌ ok_or unwrap header_serialize header_v0_deserialize
    header_deserialize calc_header_hash receipts_bytes calc_receipt_root verify_previous_hash
    verify_receipt_root sum_fees child_of new_child push_receipts block_serialize take_receipts
    block_deserialize get_block spend pend_entry pend_log new_script_of new_permissions_of
    pend_receipt pend_receipts get_account has_match match_receipts match_blocks get_account_fee
    count_receipts get_network_fee get_account_info reject_if of_eval run_script get_owner
    run_owner_script execute_owner execute_mint creates check_sigs required_fee
    execute_create_account check_update execute_update_account execute_transfer execute_body
    execute_tx refuse_if of_tx verify_receipts verify_block insert_block store_insert assert_that
    checked_mul_i64 checked_div_i64 checked_mul_i128 checked_div_i128 set_decimals_i64
    set_decimals_i128 mult_big set_decimals_big
payment_accepted = refl

eval-pays_all_example : log_sum payment_log ≡ pos 100
eval-pays_all_example = eval-pays_all crypto payment_data payment_log (omega arith) payment_runs

eval_terminates_example : eval crypto payment_data ≢ err Fault.out_of_fuel
eval_terminates_example = eval_terminates crypto payment_data

transfer_accepted_example :
    (0 ≤ 8) × Payable blockchain payment [] × (log_sum payment_log ≡ pos 100)
transfer_accepted_example =
    transfer_accepted crypto blockchain payment [] payment_log payment_accepted

consume_op-Consumed_example : Consumed pay_script.code 6 (consume_op pay_script.code 6)
consume_op-Consumed_example = consume_op-Consumed pay_script.code 6

-- The function table has function 0 at 40, past the end.
abbrev far_data : EngineData
far_data = record payment_data {
  script = record { code = 1 ∷ 0 ∷ 0 ∷ 0 ∷ 0 ∷ 40 ∷ 0x00 ∷ 0x01 ∷ [] };
}

far_known : get_fn_ptr far_data.script 0 ≡ ok (some 40)
unfolding get_fn_ptr find_fn take_u8 take_u32 read_exact from_be
far_known = refl

eval-panic_iff_example : (eval crypto far_data ≡ err panic) ↔ (
    (ptr : ℕ) × (get_fn_ptr far_data.script 0 ≡ ok (some ptr))
    × (length far_data.script.code < ptr))
eval-panic_iff_example = eval-panic_iff crypto far_data

far_panics : eval crypto far_data ≡ err panic
far_panics = (eval-panic_iff crypto far_data).1 (40, far_known, omega arith)

-- Account 1 updates itself, and account 2 is looked up.
abbrev own_update : UpdateAccountTx
own_update = record update { account_id = 1; base = record update.base { fee = asset_default } }

abbrev update_batch : WriteBatch
update_batch = batch_new (record indexer { accounts = λ id. some wallet })

abbrev update_chain : Blockchain
update_chain = record { indexer = update_batch.indexer; head = genesis; earlier = λ n. none }

abbrev updated_batch : WriteBatch
updated_batch =
    elim (index_receipt {E = TxErr} update_batch
      (record { tx = update_account_tx own_update; log = [] })) [ ok b ↦ b | err e ↦ update_batch ]

update_indexed :
    index_receipt {E = TxErr} update_batch (record { tx = update_account_tx own_update; log = [] })
    ≡ ok updated_batch
unfolding index_receipt get_account_mut put_account unwrap ◌>>=◌ checked_sub checked_sub_i64 ◌-ℤ◌
    new_script_of new_permissions_of
update_indexed = refl

update_agrees : get_account update_chain 1 [] ≡ view update_batch 1
unfolding get_account pend_receipts
update_agrees = refl

update_other : get_account update_chain 2 [] ≡ some wallet
unfolding get_account pend_receipts
update_other = refl

get_account-index_update_example :
    (get_account update_chain 1 (record { tx = update_account_tx own_update; log = [] } ∷ [])
      ≡ view updated_batch 1)
    × (view updated_batch 2 ≡ view update_batch 2)
    × (get_account update_chain 2 (record { tx = update_account_tx own_update; log = [] } ∷ [])
        ≡ some (new_permissions_of none (record wallet { script = free_script })))
get_account-index_update_example =
    get_account-index_update update_chain update_batch updated_batch [] own_update [] free_script 2
      wallet update_indexed update_agrees refl (λ e. omega (arith, e)) update_other
