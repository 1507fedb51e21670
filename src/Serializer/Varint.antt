-- ===== src/Serializer/Varint.antt =====
-- Variable-length integers (`push_var_i64` and `take_var_i64` of crates/godcoin/src/serializer.rs):
-- groups of seven bits, lowest first, the top bit set on all bytes but the last.
use godcoin.Base.{
  ℕ, zero, suc, ◌+◌, ◌*◌, ◌/◌, ◌%◌, ◌^◌, ◌≤◌, ◌<◌, ◌≡◌, ap, sym, ◌∙◌, arith, [], ◌∷◌, ◌++◌, Bytes,
  ok, length, bit_and, bit_or, ltb, ◌==◌, if◌then◌else◌, Bool-cases, inl, inr, append_assoc,
  append-nil, All, IsByte,
}
use godcoin.Base.Bits.{bit_and_mask, bit_and_top, bit_or_top, bit_or_add}
use godcoin.Base.Int.{ℤ, InI64}
use godcoin.Serializer.Write.{push_var_loop, push_var_i64, zigzag_encode}
use godcoin.Serializer.Read.{take_var_loop, take_var_i64, zigzag_decode}
use godcoin.Serializer.Zigzag.{zigzag_encode-lt, zigzag_decode-encode}
use godcoin.Serializer.Decodes.{Decodes, Decodes-map}
use native.Mathlib.Nat.{pow-suc, mul-le-mul_right}
use native.Mathlib.Numerals.{towards_suc}

-- The groups of `num`, at most `fuel` of them.
pub groups : ℕ → ℕ → Bytes
groups zero num = []
groups (suc fuel) num =
    let rest = groups fuel (num / 128) in
    if num / 128 == 0 then num ∷ [] else (num % 128 + 128) ∷ rest

low_group : (n : ℕ) → bit_and n 0x7f % 256 ≡ n % 128
low_group n = omega (arith, bit_and_mask 7 n)

set_group : (n : ℕ) → bit_or (bit_and n 0x7f % 256) 0x80 ≡ n % 128 + 128
set_group n = ap (λ (t : ℕ). bit_or t 0x80) (low_group n) ∙ bit_or_top (n % 128) (omega arith)

push_var_loop-groups :
    (fuel : ℕ) (buf : Bytes) (num : ℕ) → push_var_loop fuel buf num ≡ buf ++ groups fuel num
unfolding push_var_loop groups
push_var_loop-groups zero buf num = sym (append-nil buf)
push_var_loop-groups (suc fuel) buf num = elim (Bool-cases (num / 128 == 0)) [
  | inl last ↦ rw (last, low_group num) (ap (λ (t : ℕ). buf ++ (t ∷ [])) (ground arith))
  | inr more ↦
      rw (more, set_group num)
        (push_var_loop-groups fuel (buf ++ ((num % 128 + 128) ∷ [])) (num / 128)
          ∙ append_assoc buf ((num % 128 + 128) ∷ []) (groups fuel (num / 128)))
]

-- One round of the reader on a group that fits at bit `shift`.
add_group :
    (acc g shift : ℕ)
    → acc < 2 ^ shift
    → g * 2 ^ shift < 2 ^ 64
    → bit_or acc (g * 2 ^ shift % 2 ^ 64) ≡ acc + g * 2 ^ shift
add_group acc g shift h k =
    ap (bit_or acc) {x = g * 2 ^ shift % 2 ^ 64} (omega arith) ∙ bit_or_add shift acc g h

last_group :
    (acc w shift : ℕ) (rest : Bytes)
    → w < 128
    → shift ≤ 63
    → acc < 2 ^ shift
    → acc + w * 2 ^ shift < 2 ^ 64
    → take_var_loop acc shift (w ∷ rest) ≡ ok (acc + w * 2 ^ shift, rest)
unfolding take_var_loop
last_group acc w shift rest hw hs ha fits =
    ground (arith, bit_and_mask 7 w, bit_and_top w, add_group acc w shift)

inner_group :
    (acc g shift : ℕ) (rest : Bytes)
    → g < 128
    → shift ≤ 63
    → acc < 2 ^ shift
    → acc + g * 2 ^ shift < 2 ^ 64
    → take_var_loop acc shift ((g + 128) ∷ rest)
      ≡ take_var_loop (acc + g * 2 ^ shift) (shift + 7) rest
unfolding take_var_loop
inner_group acc g shift rest hg hs ha fits =
    ground (arith, bit_and_mask 7 (g + 128), bit_and_top (g + 128), add_group acc g shift)

pow_seven : (s : ℕ) → 2 ^ (s + 7) ≡ 128 * 2 ^ s
pow_seven s = simp towards_suc (omega arith)

-- A number at bit `s` is its lowest group there and the rest seven bits on.
split_low : (w s : ℕ) → w * 2 ^ s ≡ w % 128 * 2 ^ s + w / 128 * 2 ^ (s + 7)
split_low w s = omega (
  arith,
  ap (λ (t : ℕ). t * 2 ^ s) {x = w} {y = w % 128 + 128 * (w / 128)} (omega arith),
  ap (λ (t : ℕ). w / 128 * t) (pow_seven s),
)

low_fits : (acc w s : ℕ) → acc < 2 ^ s → acc + w % 128 * 2 ^ s < 2 ^ (s + 7)
low_fits acc w s h =
    omega (arith, pow_seven s, mul-le-mul_right {m = w % 128} {n = 127} (2 ^ s) (omega arith))

-- A second group at bit 63 would not fit 64 bits.
room_left : (j w acc : ℕ) → j ≤ 9 → 128 ≤ w → acc + w * 2 ^ (7 * j) < 2 ^ 64 → j + 1 ≤ 9
room_left j w acc hj hw fits = elim (Bool-cases (j == 9)) [
  | inl nine ↦
      let e : 2 ^ (7 * j) ≡ 2 ^ 63 = ap (λ (t : ℕ). 2 ^ (7 * t)) {x = j} {y = 9} (ground arith) in
      absurd (omega (arith, e, ap (λ (t : ℕ). w * t) e))
  | inr other ↦ ground arith
]

groups_last : (k w : ℕ) → w < 128 → groups (suc k) w ≡ w ∷ []
unfolding groups
groups_last k w h = ground arith

groups_more : (k w : ℕ) → 128 ≤ w → groups (suc k) w ≡ (w % 128 + 128) ∷ groups k (w / 128)
unfolding groups
groups_more k w h = ground arith

take_groups :
    (k j w acc : ℕ) (rest : Bytes)
    → j ≤ 9
    → w < 128 ^ suc k
    → acc < 2 ^ (7 * j)
    → acc + w * 2 ^ (7 * j) < 2 ^ 64
    → take_var_loop acc (7 * j) (groups (suc k) w ++ rest) ≡ ok (acc + w * 2 ^ (7 * j), rest)
take_groups zero j w acc rest hj hw ha fits =
    rw (groups_last zero w (omega arith))
      (last_group acc w (7 * j) rest (omega arith) (omega arith) ha fits)
take_groups (suc k) j w acc rest hj hw ha fits = elim (Bool-cases (ltb w 128)) [
  | inl small ↦
      rw (groups_last (suc k) w (ground arith))
        (last_group acc w (7 * j) rest (ground arith) (omega arith) ha fits)
  | inr big ↦
      let large : 128 ≤ w = ground arith in
      let low = w % 128 * 2 ^ (7 * j) in
      let next : 7 * (j + 1) ≡ 7 * j + 7 = omega arith in
      let value : acc + low + w / 128 * 2 ^ (7 * (j + 1)) ≡ acc + w * 2 ^ (7 * j) =
        rw next (omega (arith, split_low w (7 * j))) in
      let later =
        take_groups k (j + 1) (w / 128) (acc + low) rest (room_left j w acc hj large fits)
          (omega (arith, pow-suc 128 (suc k))) (rw next (low_fits acc w (7 * j) ha))
          (omega (arith, value)) in
      rw (groups_more (suc k) w large) (
        inner_group acc (w % 128) (7 * j) (groups (suc k) (w / 128) ++ rest) (omega arith)
          (omega arith) ha (omega (arith, split_low w (7 * j)))
        ∙ ap (λ (t : ℕ). take_var_loop (acc + low) t (groups (suc k) (w / 128) ++ rest)) (sym next)
        ∙ later
        ∙ ap (λ (t : ℕ). ok (t, rest)) value)
]

-- The bytes of an integer.
pub var_bytes : ℤ → Bytes
var_bytes v = groups 10 (zigzag_encode v)

pub push_var_i64-var_bytes : (buf : Bytes) (v : ℤ) → push_var_i64 buf v ≡ buf ++ var_bytes v
unfolding push_var_i64 var_bytes
push_var_i64-var_bytes buf v = push_var_loop-groups 10 buf (zigzag_encode v)

-- Every `i64` is read back from its bytes, and what follows them is left.
pub take_var_i64-Decodes : (v : ℤ) → InI64 v → Decodes take_var_i64 (var_bytes v) v
unfolding take_var_i64 var_bytes
take_var_i64-Decodes v h =
    Decodes-map (take_var_loop 0 0) zigzag_decode (groups 10 (zigzag_encode v)) (zigzag_encode v) v
      (record { runs = read_back }) (zigzag_decode-encode v h)
  where
    read_back :
        (rest : Bytes)
        → take_var_loop 0 0 (groups 10 (zigzag_encode v) ++ rest) ≡ ok (zigzag_encode v, rest)
    read_back rest =
        take_groups 9 0 (zigzag_encode v) 0 rest (omega arith) (omega (arith, zigzag_encode-lt v h))
          (omega arith) (omega (arith, zigzag_encode-lt v h))
        ∙ ap (λ (t : ℕ). ok (t, rest)) (omega arith)

groups_shape :
    (k w : ℕ)
    → w < 128 ^ suc k
    → All IsByte (groups (suc k) w)
      × (1 ≤ length (groups (suc k) w))
      × (length (groups (suc k) w) ≤ suc k)
groups_shape zero w h = rw (groups_last zero w (omega arith)) (omega arith)
groups_shape (suc k) w h = elim (Bool-cases (ltb w 128)) [
  | inl small ↦ rw (groups_last (suc k) w (ground arith)) (ground arith)
  | inr big ↦
      let (bytes, lo, hi) = groups_shape k (w / 128) (omega (arith, pow-suc 128 (suc k))) in
      rw (groups_more (suc k) w (ground arith)) ((omega arith, bytes), omega arith, omega arith)
]

-- An `i64` takes one to ten bytes.
pub var_bytes_shape :
    (v : ℤ)
    → InI64 v
    → All IsByte (var_bytes v) × (1 ≤ length (var_bytes v)) × (length (var_bytes v) ≤ 10)
unfolding var_bytes
var_bytes_shape v h = groups_shape 9 (zigzag_encode v) (omega (arith, zigzag_encode-lt v h))
