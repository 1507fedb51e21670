-- ===== src/Script/Op.antt =====
-- Operations of the script machine (crates/godcoin/src/script/op.rs, script/error.rs, and `Script` of
-- script/mod.rs).
use godcoin.Base.{ℕ, Bool, true, false, Bytes, Option, some, none, ◌==◌, if◌then◌else◌, List}
use godcoin.Asset.{Asset}

-- A `u64`.
abbrev pub AccountId : Type 0
AccountId = ℕ

pub record Script : Type 0 where
  pub code : Bytes

abbrev pub max_frame_stack : ℕ
max_frame_stack = 64

pub data Operand : Type 0 where
  op_define : Operand
  op_transfer op_destroy : Operand
  push_false push_true push_account_id push_asset : Operand
  op_load_amt op_load_rem_amt op_add op_sub op_mul op_div : Operand
  op_not op_if op_else op_end_if op_return op_abort : Operand
  op_check_perms op_check_perms_fast_fail : Operand
  op_check_multi_perms op_check_multi_perms_fast_fail : Operand
  op_check_time op_check_time_fast_fail : Operand

-- `From<Operand> for u8`.
abbrev pub code : Operand → ℕ
code op_define = 0x00
code op_transfer = 0x10
code op_destroy = 0x11
code push_false = 0x20
code push_true = 0x21
code push_account_id = 0x22
code push_asset = 0x23
code op_load_amt = 0x30
code op_load_rem_amt = 0x31
code op_add = 0x32
code op_sub = 0x33
code op_mul = 0x34
code op_div = 0x35
code op_not = 0x40
code op_if = 0x41
code op_else = 0x42
code op_end_if = 0x43
code op_return = 0x44
code op_abort = 0x45
code op_check_perms = 0x50
code op_check_perms_fast_fail = 0x51
code op_check_multi_perms = 0x52
code op_check_multi_perms_fast_fail = 0x53
code op_check_time = 0x60
code op_check_time_fast_fail = 0x61

pub data Arg : Type 0 where
  account_id asset : Arg

-- `Into<u8> for Arg` and `TryFrom<u8> for Arg`.
abbrev pub arg_code : Arg → ℕ
arg_code account_id = 0x00
arg_code asset = 0x01

abbrev pub arg_try_from : ℕ → Option Arg
arg_try_from value =
    if value == 0x00 then some account_id else if value == 0x01 then some asset else none

-- A decoded operation, with its operands; also what the stack holds.
pub data OpFrame : Type 0 where
  op_define : List Arg → OpFrame
  op_transfer op_destroy : OpFrame
  push_false push_true : OpFrame
  push_account_id : AccountId → OpFrame
  push_asset : Asset → OpFrame
  op_load_amt op_load_rem_amt op_add op_sub op_mul op_div : OpFrame
  op_not op_if op_else op_end_if op_return op_abort : OpFrame
  op_check_perms op_check_perms_fast_fail : OpFrame
  op_check_multi_perms op_check_multi_perms_fast_fail : ℕ → ℕ → OpFrame
  op_check_time op_check_time_fast_fail : ℕ → OpFrame

-- `From<bool> for OpFrame`.
abbrev pub from_bool : Bool → OpFrame
from_bool true = OpFrame.push_true
from_bool false = OpFrame.push_false

-- The comparisons `op == OpFrame::OpIf`, `OpElse` and `OpEndIf` of the engine.
abbrev pub is_if : OpFrame → Bool
is_if OpFrame.op_if = true
is_if _ = false

abbrev pub is_else : OpFrame → Bool
is_else OpFrame.op_else = true
is_else _ = false

abbrev pub is_end_if : OpFrame → Bool
is_end_if OpFrame.op_end_if = true
is_end_if _ = false

pub data EvalErrKind : Type 0 where
  script_ret_false aborted unexpected_eof header_read_err invalid_entry_point unknown_op :
      EvalErrKind
  unknown_fn unknown_arg_type arg_deserialization invalid_item_on_stack stack_overflow : EvalErrKind
  stack_underflow arithmetic invalid_amount account_not_found : EvalErrKind

-- `err as u8` and `TryFrom<u8> for EvalErrKind`.
abbrev pub err_code : EvalErrKind → ℕ
err_code script_ret_false = 0x00
err_code aborted = 0x01
err_code unexpected_eof = 0x02
err_code header_read_err = 0x03
err_code invalid_entry_point = 0x04
err_code unknown_op = 0x05
err_code unknown_fn = 0x06
err_code unknown_arg_type = 0x07
err_code arg_deserialization = 0x08
err_code invalid_item_on_stack = 0x09
err_code stack_overflow = 0x0A
err_code stack_underflow = 0x0B
err_code arithmetic = 0x0C
err_code invalid_amount = 0x0D
err_code account_not_found = 0x0E

unfoldable pub err_try_from : ℕ → Option EvalErrKind
err_try_from value =
    if value == err_code script_ret_false
    then some script_ret_false
    else if value == err_code aborted
    then some aborted
    else if value == err_code unexpected_eof
    then some unexpected_eof
    else if value == err_code header_read_err
    then some header_read_err
    else if value == err_code invalid_entry_point
    then some invalid_entry_point
    else if value == err_code unknown_op
    then some unknown_op
    else if value == err_code unknown_fn
    then some unknown_fn
    else if value == err_code unknown_arg_type
    then some unknown_arg_type
    else if value == err_code arg_deserialization
    then some arg_deserialization
    else if value == err_code invalid_item_on_stack
    then some invalid_item_on_stack
    else if value == err_code stack_overflow
    then some stack_overflow
    else if value == err_code stack_underflow
    then some stack_underflow
    else if value == err_code arithmetic
    then some arithmetic
    else if value == err_code invalid_amount
    then some invalid_amount
    else if value == err_code account_not_found
    then some account_not_found
    else none

-- `EvalErr`: the position after what was read, and the kind.
pub record EvalErr : Type 0 where
  pub pos : ℕ
  pub err : EvalErrKind
