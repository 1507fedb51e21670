-- ===== src/Serializer/Write.antt =====
-- Writing (`BufWrite for Vec<u8>` of crates/godcoin/src/serializer.rs). A buffer is a list of
-- bytes, and each `push_*` returns it with its bytes added at the end.
use godcoin.Base.{
  ℕ, zero, suc, ◌-◌, ◌*◌, ◌/◌, ◌%◌, ◌^◌, [], ◌∷◌, ◌++◌, Bytes, ◌==◌, if◌then◌else◌, length, bit_and,
  bit_or, bit_xor,
}
use godcoin.Base.Int.{ℤ, pos, negsuc, bits_64}
use godcoin.Asset.{Asset}
use godcoin.Crypto.{Digest, PublicKey, SigPair}

-- `to_be_bytes` of an unsigned integer of `w` bytes.
unfoldable pub be_bytes : ℕ → ℕ → Bytes
be_bytes zero v = []
be_bytes (suc w) v = be_bytes w (v / 256) ++ (v % 256 ∷ [])

-- The arithmetic shift `from >> 63` of an `i64`, as 64 bits.
abbrev pub sign_fill : ℤ → ℕ
sign_fill (pos n) = 0
sign_fill (negsuc n) = 2 ^ 64 - 1

unfoldable pub zigzag_encode : ℤ → ℕ
zigzag_encode from = bit_xor (bits_64 from * 2 % 2 ^ 64) (sign_fill from)

unfoldable pub push_u8 : Bytes → ℕ → Bytes
push_u8 buf v = buf ++ (v ∷ [])

unfoldable pub push_u16 : Bytes → ℕ → Bytes
push_u16 buf v = buf ++ be_bytes 2 v

unfoldable pub push_u32 : Bytes → ℕ → Bytes
push_u32 buf v = buf ++ be_bytes 4 v

unfoldable pub push_u64 : Bytes → ℕ → Bytes
push_u64 buf v = buf ++ be_bytes 8 v

unfoldable pub push_i64 : Bytes → ℤ → Bytes
push_i64 buf v = buf ++ be_bytes 8 (bits_64 v)

-- The `while more` loop, on the rounds left: a `u64` has at most ten groups of seven bits.
unfoldable pub push_var_loop : ℕ → Bytes → ℕ → Bytes
push_var_loop zero buf num = buf
push_var_loop (suc fuel) buf num =
    let byte = bit_and num 0x7f % 256 in
    let more = push_var_loop fuel (buf ++ (bit_or byte 0x80 ∷ [])) (num / 2 ^ 7) in
    if num / 2 ^ 7 == 0 then buf ++ (byte ∷ []) else more

unfoldable pub push_var_i64 : Bytes → ℤ → Bytes
push_var_i64 buf v = push_var_loop 10 buf (zigzag_encode v)

unfoldable pub push_bytes : Bytes → Bytes → Bytes
push_bytes buf [] = push_u32 buf 0
push_bytes buf (x ∷ xs) = push_u32 buf (length (x ∷ xs) % 2 ^ 32) ++ (x ∷ xs)

unfoldable pub push_digest : Bytes → Digest → Bytes
push_digest buf v = buf ++ v.bytes

unfoldable pub push_pub_key : Bytes → PublicKey → Bytes
push_pub_key buf v = buf ++ v.bytes

unfoldable pub push_sig_pair : Bytes → SigPair → Bytes
push_sig_pair buf v = push_pub_key buf v.pub_key ++ v.signature.bytes

unfoldable pub push_asset : Bytes → Asset → Bytes
push_asset buf v = push_var_i64 buf v.amount
