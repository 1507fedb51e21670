-- ===== src/Serializer/Zigzag.antt =====
-- The zigzag code (crates/godcoin/src/serializer.rs) in plain arithmetic.
use godcoin.Base.{
  ℕ, ◌+◌, ◌-◌, ◌*◌, ◌/◌, ◌%◌, ◌^◌, ◌<◌, ◌≡◌, ap, ◌∙◌, arith, bit_and, Bool-cases, inl, inr, ◌==◌,
}
use godcoin.Base.Bits.{bit_and_mask, bit_xor_zero, bit_xor_ones}
use godcoin.Base.Int.{ℤ, pos, negsuc, InI64}
use godcoin.Serializer.Write.{zigzag_encode}
use godcoin.Serializer.Read.{zigzag_decode}

-- 0, -1, 1, -2, 2, ... become 0, 1, 2, 3, 4, ...
abbrev pub interleave : ℤ → ℕ
interleave (pos n) = 2 * n
interleave (negsuc n) = 2 * n + 1

pub zigzag_encode-interleave : (z : ℤ) → InI64 z → zigzag_encode z ≡ interleave z
unfolding zigzag_encode
zigzag_encode-interleave (pos n) h =
    bit_xor_zero 64 (n % 2 ^ 64 * 2 % 2 ^ 64) (omega arith) ∙ omega arith
zigzag_encode-interleave (negsuc n) h =
    bit_xor_ones 64 ((2 ^ 64 - 1 - n % 2 ^ 64) * 2 % 2 ^ 64) (omega arith) ∙ omega arith

pub zigzag_encode-lt : (z : ℤ) → InI64 z → zigzag_encode z < 2 ^ 64
zigzag_encode-lt (pos n) h = omega (arith, zigzag_encode-interleave (pos n) h)
zigzag_encode-lt (negsuc n) h = omega (arith, zigzag_encode-interleave (negsuc n) h)

decode_even : (n : ℕ) → n < 2 ^ 63 → zigzag_decode (2 * n) ≡ pos n
unfolding zigzag_decode
decode_even n h = rw (mask, bit_xor_zero 64 (2 * n / 2) (omega arith)) (ground arith)
  where
    mask : (2 ^ 64 - bit_and (2 * n) 1) % 2 ^ 64 ≡ 0
    mask = omega (arith, bit_and_mask 1 (2 * n))

decode_odd : (n : ℕ) → n < 2 ^ 63 → zigzag_decode (2 * n + 1) ≡ negsuc n
unfolding zigzag_decode
decode_odd n h = rw (mask, bit_xor_ones 64 ((2 * n + 1) / 2) (omega arith)) (ground arith)
  where
    mask : (2 ^ 64 - bit_and (2 * n + 1) 1) % 2 ^ 64 ≡ 2 ^ 64 - 1
    mask = omega (arith, bit_and_mask 1 (2 * n + 1))

-- Decoding undoes encoding on every `i64`.
pub zigzag_decode-encode : (z : ℤ) → InI64 z → zigzag_decode (zigzag_encode z) ≡ z
zigzag_decode-encode (pos n) h = rw (zigzag_encode-interleave (pos n) h) (decode_even n h.0)
zigzag_decode-encode (negsuc n) h = rw (zigzag_encode-interleave (negsuc n) h) (decode_odd n h.1)

-- Encoding undoes decoding on every `u64`, and decoding yields `i64`s.
pub zigzag_encode-decode :
    (w : ℕ) → w < 2 ^ 64 → InI64 (zigzag_decode w) × (zigzag_encode (zigzag_decode w) ≡ w)
zigzag_encode-decode w h = elim (Bool-cases (w % 2 == 0)) [
  | inl even ↦
      let e : zigzag_decode w ≡ pos (w / 2) =
        ap zigzag_decode {x = w} (ground arith) ∙ decode_even (w / 2) (omega arith) in
      rw e (omega arith, zigzag_encode-interleave (pos (w / 2)) (omega arith) ∙ ground arith)
  | inr odd ↦
      let e : zigzag_decode w ≡ negsuc (w / 2) =
        ap zigzag_decode {x = w} (ground arith) ∙ decode_odd (w / 2) (omega arith) in
      rw e (omega arith, zigzag_encode-interleave (negsuc (w / 2)) (omega arith) ∙ ground arith)
]
