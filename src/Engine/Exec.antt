-- ===== src/Engine/Exec.antt =====
-- One operation of a script: the body of the loop of `call_fn`, `consume_op_until` with its matcher,
-- and `check_acc_perms` (crates/godcoin/src/script/engine.rs).
use godcoin.Base.{
  ℕ, zero, suc, ◌+◌, Bool, true, false, not, ◌||◌, List, [], ◌∷◌, ◌++◌, Option, some, none, Result,
  ok, err, ltb, leb, ◌==◌, if◌then◌else◌, length,
}
use godcoin.Base.Int.{ℤ, pos, ◌+ℤ◌, ◌-ℤ◌, ltb_ℤ, eqb_ℤ}
use godcoin.Asset.{Asset, checked_add, checked_sub, checked_mul, checked_div}
use godcoin.Crypto.{Crypto}
use godcoin.Script.Op.{
  AccountId, Script, OpFrame, EvalErrKind, from_bool, is_if, is_else, is_end_if,
}
use godcoin.Script.Stack.{pop_bool, pop_account_id, pop_asset}
use godcoin.Script.Consume.{Fault, out_of_fuel, new_err}
use godcoin.Account.Types.{Account, PermsSigVerifyErr, verify}
use godcoin.Tx.Types.{
  TxVariant, owner_tx, mint_tx, create_account_tx, update_account_tx, transfer_tx, sigs,
}
use godcoin.Receipt.Types.{LogEntry}
use godcoin.Engine.Machine.{
  EngineData, Machine, Step, pure, throw, or_throw, on_stack, push_frame, next_op, ◌>>=◌, ◌>>◌,
  total_amt,
}

-- Whether the loop goes on, or ends by `break`.
pub data Flow : Type 0 where
  next stop : Flow

-- The matcher that `OpIf` and `OpElse` hand to `consume_op_until`: whether to stop, and the marker.
abbrev pub matcher : ℤ → ℤ → OpFrame → Bool × ℤ
matcher req marker op =
    if is_if op
    then (false, marker +ℤ pos 1)
    else if is_else op
    then (eqb_ℤ marker req, marker)
    else if is_end_if op
    then (eqb_ℤ marker req, marker -ℤ pos 1)
    else (false, marker)

-- `consume_op_until`; a round takes a byte at least.
unfoldable pub skip_until : Script → ℕ → ℤ → Machine → Result Fault (Unit {0} × Machine)
skip_until script zero req m = err out_of_fuel
skip_until script (suc fuel) req m = elim (next_op script m) [
  | err e ↦ err e
  | ok (none, m') ↦ err (new_err m'.at EvalErrKind.unexpected_eof)
  | ok (some op, m') ↦
      let (done, marker) = matcher req m'.if_marker op in
      elim done [
        | true ↦ ok (tt, record m' { if_marker = marker })
        | false ↦ skip_until script fuel req (record m' { if_marker = marker })
      ]
]

unfoldable pub skip_branch : EngineData → Step Flow
skip_branch d m = elim (skip_until d.script (length d.script.code + 1) m.if_marker m) [
  | ok (_, m') ↦ ok (next, m')
  | err e ↦ err e
]

-- What follows a lookup that must find an account.
abbrev pub on_account : {A : Type 0} → (Account → Step A) → Option Account → Step A
on_account f none = throw EvalErrKind.account_not_found
on_account f (some acc) = f acc

unfoldable pub live_account : Account → Step (Unit {0})
live_account acc = if acc.destroyed then throw EvalErrKind.account_not_found else pure tt

-- An account that can receive: it exists and is not destroyed.
unfoldable pub require_account : EngineData → AccountId → Step (Unit {0})
require_account d id = on_account live_account (d.chain.get_account id d.additional_receipts)

-- The `match` of `check_acc_perms` on one account's `verify`: the loop goes on with or without counting
-- it, or returns `Ok(false)`.
abbrev pub on_verify :
    Step (Option ℕ) → Step (Option ℕ) → Result PermsSigVerifyErr (Unit {0}) → Step (Option ℕ)
on_verify verified skipped (ok _) = verified
on_verify verified skipped (err PermsSigVerifyErr.insufficient_threshold) = pure none
on_verify verified skipped (err PermsSigVerifyErr.invalid_sig) = pure none
on_verify verified skipped (err PermsSigVerifyErr.no_matching_sigs) = skipped

-- The loop of `check_acc_perms` over the accounts; `some n` is its count, `none` its `return Ok(false)`.
unfoldable pub count_accs : Crypto → EngineData → List AccountId → ℕ → Step (Option ℕ)
count_accs c d [] count = pure (some count)
count_accs c d (acc_id ∷ accs) count =
    let verified = count_accs c d accs (count + 1) in
    let skipped = count_accs c d accs count in
    on_account
      (λ account.
        on_verify verified skipped (verify c d.txid.bytes account.permissions (sigs d.tx)))
      (d.chain.get_account acc_id d.additional_receipts)

abbrev pub reaches : ℕ → Option ℕ → Bool
reaches threshold none = false
reaches threshold (some count) = leb threshold count

unfoldable pub check_acc_perms : Crypto → EngineData → ℕ → List AccountId → Step Bool
check_acc_perms c d threshold accs =
    if threshold == 0
    then pure true
    else if ltb (length accs) threshold
    then pure false
    else (count_accs c d accs 0 >>= λ count. pure (reaches threshold count))

-- The loop that pops the accounts of `OpCheckMultiPerms`.
unfoldable pub pop_accounts : ℕ → List AccountId → Step (List AccountId)
pop_accounts zero accs = pure accs
pop_accounts (suc n) accs = do acc ← on_stack pop_account_id; pop_accounts n (accs ++ (acc ∷ []))

-- `OpAdd`, `OpSub`, `OpMul` and `OpDiv`: the second operand is on top.
unfoldable pub arithmetic_op : (Asset → Asset → Option Asset) → Step Flow
arithmetic_op f = do
  b ← on_stack pop_asset
  a ← on_stack pop_asset
  res ← or_throw (f a b) EvalErrKind.arithmetic
  push_frame (OpFrame.push_asset res)
  pure next

unfoldable pub push_next : OpFrame → Step Flow
push_next op = do push_frame op; pure next

-- The return by which a failed fast check ends the run.
unfoldable pub fail_unless : Bool → Step Flow
fail_unless true = pure next
fail_unless false = throw EvalErrKind.script_ret_false

-- The part of `OpTransfer` after its operands: the checks, then the funds move into the log.
unfoldable pub send_funds : EngineData → AccountId → Asset → Step Flow
send_funds d transfer_to amt m =
    let send : Step Flow = do
      require_account d transfer_to
      rest ← or_throw (checked_sub m.remaining_amt amt) EvalErrKind.arithmetic
      λ m'. ok (
        next,
        record m' {
          remaining_amt = rest;
          log = m'.log ++ (LogEntry.transfer transfer_to amt ∷ []);
        },
      )
    in if ltb_ℤ amt.amount (pos 0) || ltb_ℤ m.remaining_amt.amount amt.amount
      then throw EvalErrKind.invalid_amount m
      else send m

unfoldable pub transfer_op : EngineData → Step Flow
transfer_op d = do
  amt ← on_stack pop_asset
  transfer_to ← on_stack pop_account_id
  send_funds d transfer_to amt

-- Only a transfer can destroy its sender, and not in favour of itself.
unfoldable pub sender_of : TxVariant → Option AccountId
sender_of (transfer_tx tx) = some tx.from
sender_of (owner_tx tx) = none
sender_of (mint_tx tx) = none
sender_of (create_account_tx tx) = none
sender_of (update_account_tx tx) = none

unfoldable pub log_destroy : AccountId → Step (Unit {0})
log_destroy to_acc m = ok (tt, record m { log = m.log ++ (LogEntry.destroy to_acc ∷ []) })

unfoldable pub set_marker : (ℤ → ℤ) → Step (Unit {0})
set_marker f m = ok (tt, record m { if_marker = f m.if_marker })

unfoldable pub set_ignore_else : Bool → Step (Unit {0})
set_ignore_else b m = ok (tt, record m { ignore_else = b })

-- Terminates the script, and forces it to be successful.
unfoldable pub destroy_for : EngineData → AccountId → Step Flow
destroy_for d to_acc = do
  require_account d to_acc
  log_destroy to_acc
  push_frame OpFrame.push_true
  set_marker (λ _. pos 0)
  pure stop

unfoldable pub destroy_op : EngineData → Step Flow
destroy_op d = do
  to_acc ← on_stack pop_account_id
  from_acc_id ← or_throw (sender_of d.tx) EvalErrKind.aborted
  if to_acc == from_acc_id then throw EvalErrKind.aborted else destroy_for d to_acc

unfoldable pub if_op : EngineData → Step Flow
if_op d = do
  set_marker (λ k. k +ℤ pos 1)
  holds ← on_stack pop_bool
  set_ignore_else holds
  if holds then pure next else skip_branch d

unfoldable pub else_op : EngineData → Step Flow
else_op d m = if m.ignore_else then skip_branch d m else ok (next, m)

unfoldable pub exec : Crypto → EngineData → OpFrame → Step Flow
exec c d (OpFrame.op_define args) = pure stop
exec c d OpFrame.op_transfer = transfer_op d
exec c d OpFrame.op_destroy = destroy_op d
exec c d OpFrame.push_false = push_next OpFrame.push_false
exec c d OpFrame.push_true = push_next OpFrame.push_true
exec c d (OpFrame.push_account_id id) = push_next (OpFrame.push_account_id id)
exec c d (OpFrame.push_asset a) = push_next (OpFrame.push_asset a)
exec c d OpFrame.op_load_amt = push_next (OpFrame.push_asset (total_amt d.tx))
exec c d OpFrame.op_load_rem_amt = λ m. push_next (OpFrame.push_asset m.remaining_amt) m
exec c d OpFrame.op_add = arithmetic_op checked_add
exec c d OpFrame.op_sub = arithmetic_op checked_sub
exec c d OpFrame.op_mul = arithmetic_op checked_mul
exec c d OpFrame.op_div = arithmetic_op checked_div
exec c d OpFrame.op_not = do b ← on_stack pop_bool; push_next (from_bool (not b))
exec c d OpFrame.op_if = if_op d
exec c d OpFrame.op_else = else_op d
exec c d OpFrame.op_end_if = do set_marker (λ k. k -ℤ pos 1); pure next
exec c d OpFrame.op_return = do set_marker (λ _. pos 0); pure stop
exec c d OpFrame.op_abort = throw EvalErrKind.aborted
exec c d OpFrame.op_check_perms = do
  acc ← on_stack pop_account_id
  success ← check_acc_perms c d 1 (acc ∷ [])
  push_next (from_bool success)
exec c d OpFrame.op_check_perms_fast_fail = do
  acc ← on_stack pop_account_id
  success ← check_acc_perms c d 1 (acc ∷ [])
  fail_unless success
exec c d (OpFrame.op_check_multi_perms threshold acc_count) = do
  accs ← pop_accounts acc_count []
  success ← check_acc_perms c d threshold accs
  push_next (from_bool success)
exec c d (OpFrame.op_check_multi_perms_fast_fail threshold acc_count) = do
  accs ← pop_accounts acc_count []
  success ← check_acc_perms c d threshold accs
  fail_unless success
exec c d (OpFrame.op_check_time time) = push_next (from_bool (leb time d.chain.head_timestamp))
exec c d (OpFrame.op_check_time_fast_fail time) = fail_unless (leb time d.chain.head_timestamp)
