-- ===== src/Script/Builder.antt =====
-- The assembler (crates/godcoin/src/script/builder.rs). A panic of the source is `none`; `build` returns
-- the size that is too large as its error.
use godcoin.Base.{
  ℕ, ◌+◌, ◌*◌, ◌%◌, ◌^◌, List, [], ◌∷◌, ◌++◌, Bytes, Option, some, none, Result, ok, err, ltb, leb,
  if◌then◌else◌, length, ◌>>=◌,
}
use godcoin.Base.Int.{bits_64}
use godcoin.Serializer.Write.{push_u8, push_u32, push_u64, be_bytes}
use godcoin.Script.Op.{Operand, code, Arg, arg_code, OpFrame, Script}

-- `MAX_SCRIPT_BYTE_SIZE` of constants.rs.
abbrev pub max_script_byte_size : ℕ
max_script_byte_size = 2048

pub record FnBuilder : Type 0 where
  pub id : ℕ
  pub byte_code : Bytes

pub record Builder : Type 0 where
  pub lookup_table : List (ℕ × ℕ)
  pub body : Bytes

abbrev pub builder_new : Builder
builder_new = record { lookup_table = []; body = [] }

unfoldable pub push_args : Bytes → List Arg → Bytes
push_args buf [] = buf
push_args buf (arg ∷ args) = push_args (buf ++ (arg_code arg ∷ [])) args

unfoldable pub fn_new : ℕ → OpFrame → Option FnBuilder
fn_new id (OpFrame.op_define args) =
    if leb (length args) 255
    then some (record {
      id = id;
      byte_code = push_args (code Operand.op_define ∷ length args % 2 ^ 8 ∷ []) args;
    })
    else none
fn_new id _ = none

-- The bytes that `FnBuilder::push` adds for one operation.
unfoldable pub frame_push : Bytes → OpFrame → Option Bytes
frame_push buf (OpFrame.op_define args) = none
frame_push buf OpFrame.op_transfer = some (push_u8 buf (code Operand.op_transfer))
frame_push buf OpFrame.op_destroy = some (push_u8 buf (code Operand.op_destroy))
frame_push buf OpFrame.push_false = some (push_u8 buf (code Operand.push_false))
frame_push buf OpFrame.push_true = some (push_u8 buf (code Operand.push_true))
frame_push buf (OpFrame.push_account_id acc) =
    some (push_u8 buf (code Operand.push_account_id) ++ be_bytes 8 acc)
frame_push buf (OpFrame.push_asset a) =
    some (push_u8 buf (code Operand.push_asset) ++ be_bytes 8 (bits_64 a.amount))
frame_push buf OpFrame.op_load_amt = some (push_u8 buf (code Operand.op_load_amt))
frame_push buf OpFrame.op_load_rem_amt = some (push_u8 buf (code Operand.op_load_rem_amt))
frame_push buf OpFrame.op_add = some (push_u8 buf (code Operand.op_add))
frame_push buf OpFrame.op_sub = some (push_u8 buf (code Operand.op_sub))
frame_push buf OpFrame.op_mul = some (push_u8 buf (code Operand.op_mul))
frame_push buf OpFrame.op_div = some (push_u8 buf (code Operand.op_div))
frame_push buf OpFrame.op_not = some (push_u8 buf (code Operand.op_not))
frame_push buf OpFrame.op_if = some (push_u8 buf (code Operand.op_if))
frame_push buf OpFrame.op_else = some (push_u8 buf (code Operand.op_else))
frame_push buf OpFrame.op_end_if = some (push_u8 buf (code Operand.op_end_if))
frame_push buf OpFrame.op_return = some (push_u8 buf (code Operand.op_return))
frame_push buf OpFrame.op_abort = some (push_u8 buf (code Operand.op_abort))
frame_push buf OpFrame.op_check_perms = some (push_u8 buf (code Operand.op_check_perms))
frame_push buf OpFrame.op_check_perms_fast_fail =
    some (push_u8 buf (code Operand.op_check_perms_fast_fail))
frame_push buf (OpFrame.op_check_multi_perms threshold key_count) =
    some (buf ++ (code Operand.op_check_multi_perms ∷ threshold ∷ key_count ∷ []))
frame_push buf (OpFrame.op_check_multi_perms_fast_fail threshold key_count) =
    some (buf ++ (code Operand.op_check_multi_perms_fast_fail ∷ threshold ∷ key_count ∷ []))
frame_push buf (OpFrame.op_check_time time) =
    some (push_u64 (push_u8 buf (code Operand.op_check_time)) time)
frame_push buf (OpFrame.op_check_time_fast_fail time) =
    some (push_u64 (push_u8 buf (code Operand.op_check_time_fast_fail)) time)

unfoldable pub fn_push : FnBuilder → OpFrame → Option FnBuilder
fn_push f frame = do
  byte_code ← frame_push f.byte_code frame
  some (record f { byte_code = byte_code })

-- `Builder::push`, whose argument is moved.
unfoldable pub builder_push : Builder → FnBuilder → Option Builder
builder_push b function =
    if ltb 255 (length b.lookup_table + 1)
    then none
    else some (record {
      lookup_table = b.lookup_table ++ ((function.id, length b.body % 2 ^ 32) ∷ []);
      body = b.body ++ function.byte_code;
    })

-- The loop of `build` over the lookup table.
unfoldable pub push_table : ℕ → Bytes → List (ℕ × ℕ) → Bytes
push_table header_len script [] = script
push_table header_len script ((id, ptr) ∷ table) =
    push_table header_len (push_u32 (push_u8 script id) ((header_len % 2 ^ 32 + ptr) % 2 ^ 32))
      table

unfoldable pub build : Builder → Result ℕ Script
build b =
    let header_len = 1 + length b.lookup_table * 5 in
    let total_len = header_len + length b.body in
    if ltb max_script_byte_size total_len
    then err total_len
    else ok (record {
      code =
          push_table header_len (push_u8 [] (length b.lookup_table % 2 ^ 8)) b.lookup_table
          ++ b.body;
    })
