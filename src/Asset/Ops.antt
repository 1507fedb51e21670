-- ===== src/Asset/Ops.antt =====
-- The arithmetic of `Asset` (crates/godcoin/src/asset/mod.rs).
use godcoin.Base.{
  ◌≡◌, refl, ℕ, zero, suc, ◌-◌, ◌*◌, ◌/◌, ◌^◌, bit_and, Option, none, some, ◌>>=◌, ltb, ◌==◌,
  if◌then◌else◌,
}
use godcoin.Base.Int.{
  ℤ, pos, negsuc, ◌+ℤ◌, ◌-ℤ◌, ◌*ℤ◌, ◌/ℤ◌, ltb_ℤ, eqb_ℤ, fits_i64, signed_64, bits_64,
}
use godcoin.Asset.Precision.{
  checked_mul_i128, checked_div_i64, set_decimals_i64, set_decimals_i128, set_decimals_big,
  mult_big,
}

pub record Asset : Type 0 where
  pub amount : ℤ

abbrev pub max_precision : ℕ
max_precision = 5

-- `Asset::default()`.
abbrev pub asset_default : Asset
asset_default = record { amount = pos 0 }

abbrev pub i64_max : ℤ
i64_max = pos (2 ^ 63 - 1)

-- The conversion `as i64` keeps the lowest 64 bits and reads them in two's complement.
unfoldable pub as_i64 : ℤ → ℤ
as_i64 z = signed_64 (bits_64 z)

-- `i64::checked_add` and `i64::checked_sub`.
unfoldable pub checked_add_i64 : ℤ → ℤ → Option ℤ
checked_add_i64 a b = let r = a +ℤ b in if fits_i64 r then some r else none

unfoldable pub checked_sub_i64 : ℤ → ℤ → Option ℤ
checked_sub_i64 a b = let r = a -ℤ b in if fits_i64 r then some r else none

unfoldable pub checked_add : Asset → Asset → Option Asset
unfolding checked_add_i64
checked_add a b = do amount ← checked_add_i64 a.amount b.amount; some (record { amount = amount })

unfoldable pub checked_sub : Asset → Asset → Option Asset
unfolding checked_sub_i64
checked_sub a b = do amount ← checked_sub_i64 a.amount b.amount; some (record { amount = amount })

unfoldable pub checked_mul : Asset → Asset → Option Asset
unfolding checked_mul_i128 set_decimals_i128 as_i64
checked_mul a b = do
  mul ← checked_mul_i128 a.amount b.amount
  final_mul ← set_decimals_i128 mul (max_precision * 2) max_precision
  if ltb_ℤ i64_max final_mul then none else some (record { amount = as_i64 final_mul })

unfoldable pub checked_div : Asset → Asset → Option Asset
unfolding set_decimals_i64 checked_div_i64
checked_div a b = if eqb_ℤ b.amount (pos 0) then none else do
  scaled ← set_decimals_i64 a.amount max_precision (max_precision * 2)
  amount ← checked_div_i64 scaled b.amount
  some (record { amount = amount })

-- The loop of `checked_pow`: `exp` is a `u16`, so sixteen rounds are enough.
unfoldable pub pow_loop : ℕ → ℤ → ℤ → ℕ → ℤ
pow_loop zero res base exp = res
pow_loop (suc fuel) res base exp =
    let res' = if bit_and exp 1 == 1 then res *ℤ base else res in
    let rest = pow_loop fuel res' (base *ℤ base) (exp / 2) in if exp / 2 == 0 then res' else rest

-- `BigInt::to_i64`.
abbrev pub to_i64 : ℤ → Option ℤ
to_i64 z = if fits_i64 z then some z else none

unfoldable pub checked_pow : Asset → ℕ → Option Asset
checked_pow a num =
    if num == 0
    then (set_decimals_i64 (pos 1) 0 max_precision >>= λ amount. some (record { amount = amount }))
    else if ltb (max_precision * num) (2 ^ 16)
    then (to_i64
          (set_decimals_big (pow_loop 16 (pos 1) a.amount num) (max_precision * num) max_precision)
        >>= λ amount. some (record { amount = amount }))
    else none

-- The amounts that the source's own tests compute with.
fee_test :
    checked_pow (record { amount = pos 12345600 }) 3 ≡ some (record { amount = pos 188164029520 })
unfolding checked_pow pow_loop set_decimals_i64 set_decimals_big mult_big ◌*ℤ◌ ◌/ℤ◌
fee_test = refl

mul_test :
    checked_mul (record { amount = pos 12345600 }) (record { amount = negsuc 10000011110 })
    ≡ some (record { amount = negsuc 1234561371718 })
unfolding checked_mul ◌*ℤ◌ ◌/ℤ◌
mul_test = refl

div_test :
    checked_div (record { amount = pos 12345600 }) (record { amount = negsuc 2299999 })
    ≡ some (record { amount = negsuc 536764 })
unfolding checked_div ◌*ℤ◌ ◌/ℤ◌
div_test = refl
