-- ===== src/Asset/Precision.antt =====
-- Rescaling of decimal numbers (crates/godcoin/src/asset/precision.rs). Machine integers and `BigInt`s
-- are integers; a checked operation is `none` where its result leaves the type. An index past a
-- table of powers is a panic in the source and `none` here: all callers stay five places apart.
use godcoin.Base.{
  ℕ, ◌-◌, ◌^◌, Option, none, some, ◌>>=◌, ltb, ◌==◌, if◌then◌else◌, get_elem?, List, [], ◌∷◌,
}
use godcoin.Base.Int.{ℤ, pos, ◌*ℤ◌, ◌/ℤ◌, fits_i64, fits_i128, eqb_ℤ}

-- `DECIMAL_MULT_I64`.
abbrev pub decimal_mult_i64 : List ℕ
decimal_mult_i64 =
    1 ∷ 10 ∷ 100 ∷ 1000 ∷ 10000 ∷ 100000 ∷ 1000000 ∷ 10000000 ∷ 100000000 ∷ 1000000000 ∷ 10000000000
    ∷ 100000000000 ∷ 1000000000000 ∷ 10000000000000 ∷ 100000000000000 ∷ 1000000000000000
    ∷ 10000000000000000 ∷ 100000000000000000 ∷ 1000000000000000000 ∷ []

-- `DECIMAL_MULT_I128` goes on with the powers of ten up to 10^38.
abbrev pub decimal_mult_i128 : List ℕ
decimal_mult_i128 =
    1 ∷ 10 ∷ 100 ∷ 1000 ∷ 10000 ∷ 100000 ∷ 1000000 ∷ 10000000 ∷ 100000000 ∷ 1000000000 ∷ 10000000000
    ∷ 100000000000 ∷ 1000000000000 ∷ 10000000000000 ∷ 100000000000000 ∷ 1000000000000000
    ∷ 10000000000000000 ∷ 100000000000000000 ∷ 1000000000000000000 ∷ 10000000000000000000
    ∷ 100000000000000000000 ∷ 1000000000000000000000 ∷ 10000000000000000000000
    ∷ 100000000000000000000000 ∷ 1000000000000000000000000 ∷ 10000000000000000000000000
    ∷ 100000000000000000000000000 ∷ 1000000000000000000000000000 ∷ 10000000000000000000000000000
    ∷ 100000000000000000000000000000 ∷ 1000000000000000000000000000000
    ∷ 10000000000000000000000000000000 ∷ 100000000000000000000000000000000
    ∷ 1000000000000000000000000000000000 ∷ 10000000000000000000000000000000000
    ∷ 100000000000000000000000000000000000 ∷ 1000000000000000000000000000000000000
    ∷ 10000000000000000000000000000000000000 ∷ 100000000000000000000000000000000000000 ∷ []

-- `checked_mul` and `checked_div` of `i64` and `i128`.
unfoldable pub checked_mul_i64 : ℤ → ℤ → Option ℤ
checked_mul_i64 a b = let r = a *ℤ b in if fits_i64 r then some r else none

unfoldable pub checked_div_i64 : ℤ → ℤ → Option ℤ
checked_div_i64 a b =
    let r = a /ℤ b in if eqb_ℤ b (pos 0) then none else if fits_i64 r then some r else none

unfoldable pub checked_mul_i128 : ℤ → ℤ → Option ℤ
checked_mul_i128 a b = let r = a *ℤ b in if fits_i128 r then some r else none

unfoldable pub checked_div_i128 : ℤ → ℤ → Option ℤ
checked_div_i128 a b =
    let r = a /ℤ b in if eqb_ℤ b (pos 0) then none else if fits_i128 r then some r else none

-- The two functions that `create_decimal_fn!` writes.
unfoldable pub set_decimals_i64 : ℤ → ℕ → ℕ → Option ℤ
unfolding checked_mul_i64 checked_div_i64
set_decimals_i64 num orig_dec new_dec =
    if ltb new_dec orig_dec
    then (get_elem? decimal_mult_i64 (orig_dec - new_dec) >>= λ m. checked_div_i64 num (pos m))
    else if ltb orig_dec new_dec
    then (get_elem? decimal_mult_i64 (new_dec - orig_dec) >>= λ m. checked_mul_i64 num (pos m))
    else some num

unfoldable pub set_decimals_i128 : ℤ → ℕ → ℕ → Option ℤ
unfolding checked_mul_i128 checked_div_i128
set_decimals_i128 num orig_dec new_dec =
    if ltb new_dec orig_dec
    then (get_elem? decimal_mult_i128 (orig_dec - new_dec) >>= λ m. checked_div_i128 num (pos m))
    else if ltb orig_dec new_dec
    then (get_elem? decimal_mult_i128 (new_dec - orig_dec) >>= λ m. checked_mul_i128 num (pos m))
    else some num

-- The table entry for a short distance, else the number that "1" with `delta` zeros spells.
abbrev pub mult_or : ℕ → Option ℕ → ℤ
mult_or delta none = pos (10 ^ delta)
mult_or delta (some m) = pos m

unfoldable pub mult_big : ℕ → ℤ
mult_big delta = mult_or delta (get_elem? decimal_mult_i64 delta)

unfoldable pub set_decimals_big : ℤ → ℕ → ℕ → ℤ
set_decimals_big num orig_dec new_dec =
    if ltb orig_dec new_dec
    then num *ℤ mult_big (new_dec - orig_dec)
    else if orig_dec == new_dec
    then num
    else num /ℤ mult_big (orig_dec - new_dec)
