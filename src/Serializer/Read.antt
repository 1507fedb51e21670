-- ===== src/Serializer/Read.antt =====
-- Reading (`BufRead for Cursor` of crates/godcoin/src/serializer.rs). A cursor is the list of the
-- bytes that are left, and each `take_*` returns its value with what it leaves, or an I/O error.
use godcoin.Base.{
  ℕ, ◌+◌, ◌-◌, ◌*◌, ◌/◌, ◌%◌, ◌^◌, [], ◌∷◌, Bytes, ◌==◌, if◌then◌else◌, length, take, drop, bit_and,
  bit_or, bit_xor, Result, ok, err, ltb, leb, Option, some, none,
}
use godcoin.Base.Int.{ℤ, signed_64}
use godcoin.Asset.{Asset}
use godcoin.Crypto.{
  Digest, PublicKey, SigPair, digest_bytes, public_key_bytes, signature_bytes, digest_from_slice,
  public_key_from_slice, signature_from_slice,
}

pub data IoErr : Type 0 where
  unexpected_eof overflow_taking_varint digest_length incorrect_public_key_length : IoErr
  incorrect_signature_length invalid_data : IoErr

abbrev pub Read : Type 0 → Type 0
Read A = Bytes → Result IoErr (A × Bytes)

abbrev pub pure : {A : Type 0} → A → Read A
pure a cur = ok (a, cur)

abbrev pub fail : {A : Type 0} → IoErr → Read A
fail e cur = err e

infixl 5 ◌>>=◌
abbrev pub ◌>>=◌ : {A B : Type 0} → Read A → (A → Read B) → Read B
◌>>=◌ m f cur = elim (m cur) [ ok (a, cur') ↦ f a cur' | err e ↦ err e ]

-- `ok_or_else` on the result of a `from_slice`.
abbrev pub or_fail : {A : Type 0} → Option A → IoErr → Read A
or_fail (some a) e = pure a
or_fail none e = fail e

-- `read_exact` into a buffer of `len` bytes.
unfoldable pub read_exact : ℕ → Read Bytes
read_exact len cur =
    if leb len (length cur) then ok (take len cur, drop len cur) else err unexpected_eof

-- `from_be_bytes` of an unsigned integer.
unfoldable pub from_be : ℕ → Bytes → ℕ
from_be acc [] = acc
from_be acc (b ∷ bs) = from_be (acc * 256 + b) bs

unfoldable pub take_u8 : Read ℕ
take_u8 [] = err unexpected_eof
take_u8 (b ∷ cur) = ok (b, cur)

unfoldable pub take_u16 : Read ℕ
take_u16 = do buf ← read_exact 2; pure (from_be 0 buf)

unfoldable pub take_u32 : Read ℕ
take_u32 = do buf ← read_exact 4; pure (from_be 0 buf)

unfoldable pub take_u64 : Read ℕ
take_u64 = do buf ← read_exact 8; pure (from_be 0 buf)

unfoldable pub take_i64 : Read ℤ
take_i64 = do buf ← read_exact 8; pure (signed_64 (from_be 0 buf))

-- `-((from & 1) as i64)` as 64 bits is the mask of the sign.
unfoldable pub zigzag_decode : ℕ → ℤ
zigzag_decode from = signed_64 (bit_xor (from / 2) ((2 ^ 64 - bit_and from 1) % 2 ^ 64))

-- The loop of `take_var_i64`; a round tests the shift, then takes a byte. The shift of a `u64` drops
-- the bits that leave it.
unfoldable pub take_var_loop : ℕ → ℕ → Read ℕ
take_var_loop result shift [] =
    if ltb 63 shift then err overflow_taking_varint else err unexpected_eof
take_var_loop result shift (byte ∷ cur) =
    let result' = bit_or result (bit_and byte 0x7f * 2 ^ shift % 2 ^ 64) in
    let rest = take_var_loop result' (shift + 7) cur in
    if ltb 63 shift
    then err overflow_taking_varint
    else if bit_and byte 0x80 == 0
    then ok (result', cur)
    else rest

unfoldable pub take_var_i64 : Read ℤ
take_var_i64 = do result ← take_var_loop 0 0; pure (zigzag_decode result)

unfoldable pub take_bytes : Read Bytes
take_bytes = do len ← take_u32; read_exact len

unfoldable pub take_digest : Read Digest
take_digest = do buf ← read_exact digest_bytes; or_fail (digest_from_slice buf) digest_length

unfoldable pub take_pub_key : Read PublicKey
take_pub_key = do
  buf ← read_exact public_key_bytes
  or_fail (public_key_from_slice buf) incorrect_public_key_length

unfoldable pub take_sig_pair : Read SigPair
take_sig_pair = do
  pub_key ← take_pub_key
  buf ← read_exact signature_bytes
  signature ← or_fail (signature_from_slice buf) incorrect_signature_length
  pure (record { pub_key = pub_key; signature = signature })

unfoldable pub take_asset : Read Asset
take_asset = do amount ← take_var_i64; pure (record { amount = amount })
