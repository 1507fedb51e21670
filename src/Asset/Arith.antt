-- ===== src/Asset/Arith.antt =====
-- The checked arithmetic of `Asset` (crates/godcoin/src/asset/mod.rs) against exact integers.
use godcoin.Base.{
  ℕ, suc, ◌*◌, ◌^◌, ◌≤◌, ◌<◌, ◌≡◌, ◌≢◌, ◌↔◌, refl, none, some, arith, if◌then◌else◌, true,
}
use godcoin.Base.Int.{
  ℤ, pos, negsuc, pos_part, neg_part, ◌+ℤ◌, ◌-ℤ◌, ◌*ℤ◌, ◌/ℤ◌, InI64, fits_i128, ltb_ℤ,
}
use godcoin.Asset.Ops.{Asset, checked_add, checked_sub, checked_mul, checked_div, as_i64, i64_max}
use godcoin.Asset.Precision.{checked_div_i128}
use native.Mathlib.Nat.{mul-le-mul}

-- A checked sum is the exact sum, and is missing exactly when that leaves the `i64` range.
pub checked_add_iff :
    (a b c : Asset)
    → (checked_add a b ≡ some c)
      ↔ ((c.amount ≡ a.amount +ℤ b.amount) × InI64 (a.amount +ℤ b.amount))
unfolding checked_add
checked_add_iff a b c = (λ h. ground arith, λ h. ground arith)

-- A checked difference is the exact one, and is missing exactly when that leaves the `i64` range.
pub checked_sub_iff :
    (a b c : Asset)
    → (checked_sub a b ≡ some c)
      ↔ ((c.amount ≡ a.amount -ℤ b.amount) × InI64 (a.amount -ℤ b.amount))
unfolding checked_sub
checked_sub_iff a b c = (λ h. ground arith, λ h. ground arith)

product_bound : (x y : ℕ) → x ≤ 2 ^ 63 → y ≤ 2 ^ 63 → x * y ≤ 2 ^ 126
product_bound x y p q = mul-le-mul p q

product-fits_i128 : (a b : ℤ) → InI64 a → InI64 b → fits_i128 (a *ℤ b) ≡ true
unfolding ◌*ℤ◌
product-fits_i128 (pos x) (pos y) p q =
    ground (arith, product_bound x y (omega arith) (omega arith))
product-fits_i128 (pos x) (negsuc y) p q =
    ground (arith, product_bound x (suc y) (omega arith) (omega arith))
product-fits_i128 (negsuc x) (pos y) p q =
    ground (arith, product_bound (suc x) y (omega arith) (omega arith))
product-fits_i128 (negsuc x) (negsuc y) p q =
    ground (arith, product_bound (suc x) (suc y) (omega arith) (omega arith))

quotient-fits_i128 : (z : ℤ) → fits_i128 z ≡ true → fits_i128 (z /ℤ pos 100000) ≡ true
unfolding ◌/ℤ◌
quotient-fits_i128 (pos x) h = ground arith
quotient-fits_i128 (negsuc x) h = ground arith

-- `as i64` is the identity on `i64`, and on no other integer that is too small.
as_i64_in_range : (z : ℤ) → InI64 z → as_i64 z ≡ z
unfolding as_i64
as_i64_in_range (pos n) h = ground arith
as_i64_in_range (negsuc n) h = ground arith

as_i64_below : (z : ℤ) → 2 ^ 63 < neg_part z → as_i64 z ≢ z
unfolding as_i64
as_i64_below (pos n) h = absurd (omega arith)
as_i64_below (negsuc n) h = λ e. ground arith

-- What `checked_mul` does to the exact product, scaled back to five places.
abbrev pub scaled_product : Asset → Asset → ℤ
scaled_product a b = a.amount *ℤ b.amount /ℤ pos 100000

mul_steps :
    (a b : Asset)
    → InI64 a.amount
    → InI64 b.amount
    → checked_mul a b ≡ (
        if ltb_ℤ i64_max (scaled_product a b)
        then none
        else some (record { amount = as_i64 (scaled_product a b) }))
unfolding checked_mul checked_div_i128
mul_steps a b p q =
    let f : fits_i128 (a.amount *ℤ b.amount) ≡ true = product-fits_i128 a.amount b.amount p q in
    rw (f, quotient-fits_i128 (a.amount *ℤ b.amount) f) refl

-- For `i64` amounts `checked_mul` returns the exact product, scaled back to five places and
-- truncated, whenever that is an `i64`.
pub checked_mul_exact :
    (a b : Asset)
    → InI64 a.amount
    → InI64 b.amount
    → InI64 (scaled_product a b)
    → checked_mul a b ≡ some (record { amount = scaled_product a b })
checked_mul_exact a b p q h =
    rw (mul_steps a b p q) (ground (arith, as_i64_in_range (scaled_product a b) h))

-- For `i64` amounts `checked_mul` returns nothing when the scaled product is above the range.
pub checked_mul_overflow :
    (a b : Asset)
    → InI64 a.amount
    → InI64 b.amount
    → 2 ^ 63 ≤ pos_part (scaled_product a b)
    → checked_mul a b ≡ none
checked_mul_overflow a b p q h = rw (mul_steps a b p q) (ground arith)

-- For `i64` amounts whose scaled product is below the range `checked_mul` does not fail: it returns an
-- amount that is not the product.
pub checked_mul_underflow :
    (a b : Asset)
    → InI64 a.amount
    → InI64 b.amount
    → 2 ^ 63 < neg_part (scaled_product a b)
    → (c : Asset) × (checked_mul a b ≡ some c) × (c.amount ≢ scaled_product a b)
checked_mul_underflow a b p q h = (
  record { amount = as_i64 (scaled_product a b) },
  rw (mul_steps a b p q) (ground arith),
  as_i64_below (scaled_product a b) h,
)

-- A checked quotient exists exactly when the divisor is not zero and both the dividend at ten
-- places and the quotient are `i64`s; it is then their quotient, truncated towards zero.
pub checked_div_iff :
    (a b c : Asset)
    → (checked_div a b ≡ some c) ↔ (
        (b.amount ≢ pos 0)
        × InI64 (a.amount *ℤ pos 100000)
        × InI64 (a.amount *ℤ pos 100000 /ℤ b.amount)
        × (c.amount ≡ a.amount *ℤ pos 100000 /ℤ b.amount))
unfolding checked_div
checked_div_iff a b c = (λ h. ground arith, λ h. ground arith)
