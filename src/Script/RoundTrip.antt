-- ===== src/Script/RoundTrip.antt =====
-- Every operation that the assembler writes is decoded by the machine
-- (crates/godcoin/src/script/builder.rs, crates/godcoin/src/script/engine.rs).
use godcoin.Base.{
  ℕ, ◌^◌, ◌<◌, ◌≡◌, refl, ap, sym, ◌∙◌, [], ◌∷◌, ◌++◌, append_assoc, Bytes, some, ok, length,
  length-append,
}
use godcoin.Base.Int.{InI64, ℤ, bits_64, bits_64-lt, signed_64, signed_64-bits_64}
use godcoin.Serializer.Write.{be_bytes, push_u8, push_u64}
use godcoin.Script.Op.{OpFrame}
use godcoin.Script.Builder.{frame_push}
use godcoin.Script.Consume.{pure}
use godcoin.Script.Decode.{decode_op, consume_op}
use godcoin.Script.Assembled.{
  TakesAt, TakesAt-pure, consume_op-TakesAt, read_number-TakesAt, read_pair-TakesAt,
}

-- Numbers and amounts are as wide as the format is; a definition of a function is not an operation in it.
abbrev pub IsWireFrame : OpFrame → Type 0
IsWireFrame (OpFrame.op_define args) = ⊥
IsWireFrame (OpFrame.push_account_id acc) = acc < 2 ^ 64
IsWireFrame (OpFrame.push_asset a) = InI64 a.amount
IsWireFrame (OpFrame.op_check_time time) = time < 2 ^ 64
IsWireFrame (OpFrame.op_check_time_fast_fail time) = time < 2 ^ 64
IsWireFrame _ = Unit {0}

-- The bytes of an operation, which the assembler appends and the machine decodes.
record Assembles (f : OpFrame) : Type 0 where
  pub bytes : Bytes
  pub pushed : (buf : Bytes) → frame_push buf f ≡ some (buf ++ bytes)
  pub decoded : TakesAt consume_op bytes (some f)

plain :
    (f : OpFrame) (tag : ℕ)
    → ((buf : Bytes) → frame_push buf f ≡ some (buf ++ (tag ∷ [])))
    → decode_op tag ≡ pure (some f)
    → Assembles f
plain f tag e h = record {
  bytes = tag ∷ [];
  pushed = e;
  decoded = consume_op-TakesAt tag [] f (rw h (TakesAt-pure (some f)));
}

assembles : (f : OpFrame) → IsWireFrame f → Assembles f
unfolding frame_push decode_op push_u8 push_u64
assembles (OpFrame.op_define args) h = absurd h
assembles OpFrame.op_transfer h = plain _ 0x10 (λ buf. refl) refl
assembles OpFrame.op_destroy h = plain _ 0x11 (λ buf. refl) refl
assembles OpFrame.push_false h = plain _ 0x20 (λ buf. refl) refl
assembles OpFrame.push_true h = plain _ 0x21 (λ buf. refl) refl
assembles (OpFrame.push_account_id acc) h = record {
  bytes = 0x22 ∷ be_bytes 8 acc;
  pushed = λ buf. ap some (append_assoc buf (0x22 ∷ []) (be_bytes 8 acc));
  decoded = consume_op-TakesAt 0x22 _ _ (read_number-TakesAt OpFrame.push_account_id acc h);
}
assembles (OpFrame.push_asset a) h = record {
  bytes = 0x23 ∷ be_bytes 8 (bits_64 a.amount);
  pushed = λ buf. ap some (append_assoc buf (0x23 ∷ []) (be_bytes 8 (bits_64 a.amount)));
  decoded =
      rw
        (← ap (λ (z : ℤ). OpFrame.push_asset (record { amount = z }))
          (signed_64-bits_64 a.amount h))
        (consume_op-TakesAt 0x23 _ _ (
          read_number-TakesAt (λ n. OpFrame.push_asset (record { amount = signed_64 n }))
            (bits_64 a.amount) (bits_64-lt a.amount)));
}
assembles OpFrame.op_load_amt h = plain _ 0x30 (λ buf. refl) refl
assembles OpFrame.op_load_rem_amt h = plain _ 0x31 (λ buf. refl) refl
assembles OpFrame.op_add h = plain _ 0x32 (λ buf. refl) refl
assembles OpFrame.op_sub h = plain _ 0x33 (λ buf. refl) refl
assembles OpFrame.op_mul h = plain _ 0x34 (λ buf. refl) refl
assembles OpFrame.op_div h = plain _ 0x35 (λ buf. refl) refl
assembles OpFrame.op_not h = plain _ 0x40 (λ buf. refl) refl
assembles OpFrame.op_if h = plain _ 0x41 (λ buf. refl) refl
assembles OpFrame.op_else h = plain _ 0x42 (λ buf. refl) refl
assembles OpFrame.op_end_if h = plain _ 0x43 (λ buf. refl) refl
assembles OpFrame.op_return h = plain _ 0x44 (λ buf. refl) refl
assembles OpFrame.op_abort h = plain _ 0x45 (λ buf. refl) refl
assembles OpFrame.op_check_perms h = plain _ 0x50 (λ buf. refl) refl
assembles OpFrame.op_check_perms_fast_fail h = plain _ 0x51 (λ buf. refl) refl
assembles (OpFrame.op_check_multi_perms a b) h = record {
  bytes = 0x52 ∷ a ∷ b ∷ [];
  pushed = λ buf. refl;
  decoded = consume_op-TakesAt 0x52 _ _ (read_pair-TakesAt OpFrame.op_check_multi_perms a b);
}
assembles (OpFrame.op_check_multi_perms_fast_fail a b) h = record {
  bytes = 0x53 ∷ a ∷ b ∷ [];
  pushed = λ buf. refl;
  decoded =
      consume_op-TakesAt 0x53 _ _ (read_pair-TakesAt OpFrame.op_check_multi_perms_fast_fail a b);
}
assembles (OpFrame.op_check_time time) h = record {
  bytes = 0x60 ∷ be_bytes 8 time;
  pushed = λ buf. ap some (append_assoc buf (0x60 ∷ []) (be_bytes 8 time));
  decoded = consume_op-TakesAt 0x60 _ _ (read_number-TakesAt OpFrame.op_check_time time h);
}
assembles (OpFrame.op_check_time_fast_fail time) h = record {
  bytes = 0x61 ∷ be_bytes 8 time;
  pushed = λ buf. ap some (append_assoc buf (0x61 ∷ []) (be_bytes 8 time));
  decoded =
      consume_op-TakesAt 0x61 _ _ (read_number-TakesAt OpFrame.op_check_time_fast_fail time h);
}

-- Any operation but the definition of a function, its numbers as wide as the format is, which the assembler
-- appends to a script, is decoded at the place where it was appended, whatever comes after it, and the
-- machine goes on right behind it.
pub consume_op-frame_push :
    (f : OpFrame) (buf script post : Bytes)
    → IsWireFrame f
    → frame_push buf f ≡ some script
    → consume_op (script ++ post) (length buf) ≡ ok (some f, length script)
consume_op-frame_push f buf script post h e =
    let a = assembles f h in
    let same : buf ++ a.bytes ≡ script = cc (a.pushed buf, e) in
    rw⁻¹ same (
      rw (append_assoc buf a.bytes post) (
        a.decoded.runs buf post ∙ ap (λ (n : ℕ). ok (some f, n)) (sym (length-append buf a.bytes))))
