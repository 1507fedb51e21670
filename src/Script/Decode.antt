-- ===== src/Script/Decode.antt =====
-- Decoding one operation: `consume_op` and the macro `read_bytes!` in it
-- (crates/godcoin/src/script/engine.rs).
use godcoin.Base.{
  ℕ, zero, suc, ◌+◌, List, [], ◌∷◌, ◌++◌, Bytes, Option, some, none, ok, err, leb, ◌==◌,
  if◌then◌else◌, length, take, drop, get_elem?,
}
use godcoin.Base.Int.{signed_64}
use godcoin.Serializer.Read.{from_be}
use godcoin.Script.Op.{Operand, code, Arg, arg_try_from, OpFrame, EvalErrKind}
use godcoin.Script.Consume.{Consume, panic, new_err, pure, fail, ◌>>=◌}

unfoldable pub read_byte : Consume ℕ
read_byte script pos = elim (get_elem? script pos) [
  | some b ↦ ok (b, pos + 1)
  | none ↦ err (new_err pos EvalErrKind.unexpected_eof)
]

unfoldable pub read_slice : ℕ → Consume Bytes
read_slice len script pos =
    if leb (pos + len) (length script)
    then ok (take len (drop pos script), pos + len)
    else err (new_err pos EvalErrKind.unexpected_eof)

-- A `u64` of eight bytes.
unfoldable pub read_u64 : Consume ℕ
read_u64 = do slice ← read_slice 8; pure (from_be 0 slice)

abbrev pub arg_or_fail : Option Arg → Consume Arg
arg_or_fail (some arg) = pure arg
arg_or_fail none = fail EvalErrKind.unknown_arg_type

-- The loop over the arguments of `OpDefine`.
unfoldable pub read_args : ℕ → List Arg → Consume (List Arg)
read_args zero args = pure args
read_args (suc n) args = do
  tag_byte ← read_byte
  arg ← arg_or_fail (arg_try_from tag_byte)
  read_args n (args ++ (arg ∷ []))

unfoldable pub read_define : Consume (Option OpFrame)
read_define = do
  arg_cnt ← read_byte
  args ← read_args arg_cnt []
  pure (some (OpFrame.op_define args))

unfoldable pub read_pair : (ℕ → ℕ → OpFrame) → Consume (Option OpFrame)
read_pair frame = do
  threshold ← read_byte
  acc_count ← read_byte
  pure (some (frame threshold acc_count))

unfoldable pub read_number : (ℕ → OpFrame) → Consume (Option OpFrame)
read_number frame = do n ← read_u64; pure (some (frame n))

-- The `match` on the byte of the operation.
unfoldable pub decode_op : ℕ → Consume (Option OpFrame)
decode_op byte =
    if byte == code Operand.op_define
    then read_define
    else if byte == code Operand.op_transfer
    then pure (some OpFrame.op_transfer)
    else if byte == code Operand.op_destroy
    then pure (some OpFrame.op_destroy)
    else if byte == code Operand.push_false
    then pure (some OpFrame.push_false)
    else if byte == code Operand.push_true
    then pure (some OpFrame.push_true)
    else if byte == code Operand.push_account_id
    then read_number OpFrame.push_account_id
    else if byte == code Operand.push_asset
    then read_number (λ n. OpFrame.push_asset (record { amount = signed_64 n }))
    else if byte == code Operand.op_load_amt
    then pure (some OpFrame.op_load_amt)
    else if byte == code Operand.op_load_rem_amt
    then pure (some OpFrame.op_load_rem_amt)
    else if byte == code Operand.op_add
    then pure (some OpFrame.op_add)
    else if byte == code Operand.op_sub
    then pure (some OpFrame.op_sub)
    else if byte == code Operand.op_mul
    then pure (some OpFrame.op_mul)
    else if byte == code Operand.op_div
    then pure (some OpFrame.op_div)
    else if byte == code Operand.op_not
    then pure (some OpFrame.op_not)
    else if byte == code Operand.op_if
    then pure (some OpFrame.op_if)
    else if byte == code Operand.op_else
    then pure (some OpFrame.op_else)
    else if byte == code Operand.op_end_if
    then pure (some OpFrame.op_end_if)
    else if byte == code Operand.op_return
    then pure (some OpFrame.op_return)
    else if byte == code Operand.op_abort
    then pure (some OpFrame.op_abort)
    else if byte == code Operand.op_check_perms
    then pure (some OpFrame.op_check_perms)
    else if byte == code Operand.op_check_perms_fast_fail
    then pure (some OpFrame.op_check_perms_fast_fail)
    else if byte == code Operand.op_check_multi_perms
    then read_pair OpFrame.op_check_multi_perms
    else if byte == code Operand.op_check_multi_perms_fast_fail
    then read_pair OpFrame.op_check_multi_perms_fast_fail
    else if byte == code Operand.op_check_time
    then read_number OpFrame.op_check_time
    else if byte == code Operand.op_check_time_fast_fail
    then read_number OpFrame.op_check_time_fast_fail
    else fail EvalErrKind.unknown_op

-- Past the end of the script the index is out of bounds, and the source panics.
unfoldable pub consume_op : Consume (Option OpFrame)
consume_op script pos =
    if pos == length script then ok (none, pos) else elim (get_elem? script pos) [
      | some byte ↦ decode_op byte script (pos + 1)
      | none ↦ err panic
    ]
