-- ===== src/Asset/Power.antt =====
-- `Asset::checked_pow` (crates/godcoin/src/asset/mod.rs): its loop squares and multiplies, and meets
-- the power by repeated multiplication.
use godcoin.Base.{
  ℕ, zero, suc, ◌+◌, ◌-◌, ◌*◌, ◌/◌, ◌%◌, ◌^◌, ◌≤◌, ◌<◌, ◌≡◌, refl, ap, sym, ◌∙◌, arith, ◌==◌,
  if◌then◌else◌, Bool-cases, bit_and, inl, inr, Option, some, none, List, [], ◌∷◌, get_elem?, ltb,
  ltb→lt, ne→==, lt→ltb, ◌>>=◌,
}
use native.Mathlib.Nat.{pow-suc}
use mathlib.Core.Option
use godcoin.Asset.Precision.{decimal_mult_i64, mult_big, mult_or, set_decimals_big}
use godcoin.Base.Bits.{bit_and_mask}
use godcoin.Base.Int.{ℤ, pos, negsuc, pos_part, neg_part, ◌*ℤ◌, ◌/ℤ◌, eq_of_parts}
use godcoin.Asset.Ops.{Asset, pow_loop, checked_pow, to_i64}

*ℤ_parts :
    (a b : ℤ)
    → pos_part (a *ℤ b) + (pos_part a * neg_part b + neg_part a * pos_part b)
      ≡ neg_part (a *ℤ b) + (pos_part a * pos_part b + neg_part a * neg_part b)
unfolding ◌*ℤ◌
*ℤ_parts a b = ground arith

*ℤ_comm : (a b : ℤ) → a *ℤ b ≡ b *ℤ a
*ℤ_comm a b = eq_of_parts _ _ (omega (arith, *ℤ_parts a b, *ℤ_parts b a))

*ℤ_assoc : (a b c : ℤ) → a *ℤ b *ℤ c ≡ a *ℤ (b *ℤ c)
*ℤ_assoc a b c = eq_of_parts _ _ (
    omega (
      arith,
      *ℤ_parts (a *ℤ b) c,
      *ℤ_parts a (b *ℤ c),
      ap (λ (t : ℕ). t * pos_part c) (*ℤ_parts a b),
      ap (λ (t : ℕ). t * neg_part c) (*ℤ_parts a b),
      ap (λ (t : ℕ). t * pos_part a) (*ℤ_parts b c),
      ap (λ (t : ℕ). t * neg_part a) (*ℤ_parts b c),
    ))

*ℤ_one : (a : ℤ) → a *ℤ pos 1 ≡ a
unfolding ◌*ℤ◌
*ℤ_one a = ground arith

-- The power by repeated multiplication.
pub pow : ℤ → ℕ → ℤ
pow b zero = pos 1
pow b (suc n) = b *ℤ pow b n

pow_square : (b : ℤ) (n : ℕ) → pow (b *ℤ b) n ≡ pow b (n + n)
unfolding pow
pow_square b zero = refl
pow_square b (suc n) =
    ap (λ (t : ℤ). b *ℤ b *ℤ t) (pow_square b n)
    ∙ *ℤ_assoc b b (pow b (n + n))
    ∙ sym (ap (pow b) {x = suc n + suc n} {y = suc (suc (n + n))} (omega arith))

pow_even : (b : ℤ) (n : ℕ) → n % 2 ≡ 0 → pow b n ≡ pow (b *ℤ b) (n / 2)
pow_even b n h = ap (pow b) {x = n} (omega arith) ∙ sym (pow_square b (n / 2))

pow_odd : (b : ℤ) (n : ℕ) → n % 2 ≡ 1 → pow b n ≡ b *ℤ pow (b *ℤ b) (n / 2)
unfolding pow
pow_odd b n h =
    ap (pow b) {x = n} {y = suc (n / 2 + n / 2)} (omega arith)
    ∙ ap (λ (t : ℤ). b *ℤ t) (sym (pow_square b (n / 2)))

-- One round keeps the product that the loop is to return.
abbrev next_res : ℤ → ℤ → ℕ → ℤ
next_res res base exp = if bit_and exp 1 == 1 then res *ℤ base else res

pow_round :
    (res base : ℤ) (exp : ℕ)
    → next_res res base exp *ℤ pow (base *ℤ base) (exp / 2) ≡ res *ℤ pow base exp
pow_round res base exp = elim (Bool-cases (exp % 2 == 1)) [
  | inl odd ↦
      rw (bit_and_mask 1 exp, odd)
        (*ℤ_assoc res base _ ∙ ap (λ (t : ℤ). res *ℤ t) (sym (pow_odd base exp (ground arith))))
  | inr even ↦
      rw (bit_and_mask 1 exp, even)
        (ap (λ (t : ℤ). res *ℤ t) (sym (pow_even base exp (ground arith))))
]

-- The exponents below `2 ^ fuel` need no more than `fuel` rounds.
pow_loop-pow :
    (fuel : ℕ) (res base : ℤ) (exp : ℕ)
    → exp < 2 ^ fuel
    → pow_loop fuel res base exp ≡ res *ℤ pow base exp
unfolding pow_loop pow
pow_loop-pow zero res base zero h = sym (*ℤ_one res)
pow_loop-pow zero res base (suc exp) h = absurd (omega arith)
pow_loop-pow (suc fuel) res base exp h = elim (Bool-cases (exp / 2 == 0)) [
  | inl last ↦ rw last (
      sym (*ℤ_one (next_res res base exp))
      ∙ ap (λ (t : ℕ). next_res res base exp *ℤ pow (base *ℤ base) t) {x = 0} (ground arith)
      ∙ pow_round res base exp)
  | inr more ↦ rw more (
      pow_loop-pow fuel (next_res res base exp) (base *ℤ base) (exp / 2)
        (omega (arith, pow-suc 2 fuel))
      ∙ pow_round res base exp)
]

-- The table holds powers of ten.
powers : ℕ → ℕ → List ℕ
powers zero x = []
powers (suc n) x = x ∷ powers n (x * 10)

get_elem?-powers : (n x i : ℕ) → i < n → get_elem? (powers n x) i ≡ some (x * 10 ^ i)
unfolding powers
get_elem?-powers zero x i h = absurd (omega arith)
get_elem?-powers (suc n) x zero h = ap some (omega arith)
get_elem?-powers (suc n) x (suc i) h =
    get_elem?-powers n (x * 10) i (omega arith)
    ∙ ap some (omega (arith, ap (λ (t : ℕ). x * t) (pow-suc 10 i)))

get_elem?-powers_end : (n x i : ℕ) → n ≤ i → get_elem? (powers n x) i ≡ none
unfolding powers
get_elem?-powers_end zero x i h = refl
get_elem?-powers_end (suc n) x zero h = absurd (omega arith)
get_elem?-powers_end (suc n) x (suc i) h = get_elem?-powers_end n (x * 10) i (omega arith)

table_powers : (d : ℕ) → get_elem? decimal_mult_i64 d ≡ get_elem? (powers 19 1) d
unfolding powers
table_powers d = refl

mult_big_power : (d : ℕ) → mult_big d ≡ pos (10 ^ d)
unfolding mult_big
mult_big_power d = elim (Bool-cases (ltb d 19)) [
  | inl short ↦
      ap (mult_or d) (table_powers d ∙ get_elem?-powers 19 1 d (ltb→lt d 19 short))
      ∙ ap pos (omega arith)
  | inr long ↦ ap (mult_or d) (table_powers d ∙ get_elem?-powers_end 19 1 d (ground arith))
]

/ℤ-one : (z : ℤ) → z /ℤ pos 1 ≡ z
unfolding ◌/ℤ◌
/ℤ-one (pos n) = ground arith
/ℤ-one (negsuc n) = ground arith

set_decimals_big_down : (z : ℤ) (d : ℕ) → set_decimals_big z (5 + d) 5 ≡ z /ℤ pos (10 ^ d)
unfolding set_decimals_big
set_decimals_big_down z zero = sym (/ℤ-one z)
set_decimals_big_down z (suc d) = ground (arith, mult_big_power (suc d))

pow_scaled :
    (b : ℤ) (n : ℕ)
    → 1 ≤ n
    → n < 2 ^ 16
    → set_decimals_big (pow_loop 16 (pos 1) b n) (5 * n) 5 ≡ pow b n /ℤ pos (10 ^ (5 * n - 5))
pow_scaled b n h k =
    ap (λ (z : ℤ). set_decimals_big z (5 * n) 5)
      (pow_loop-pow 16 (pos 1) b n k ∙ *ℤ_comm (pos 1) (pow b n) ∙ *ℤ_one (pow b n))
    ∙ ap (λ (t : ℕ). set_decimals_big (pow b n) t 5) {x = 5 * n} {y = 5 + (5 * n - 5)} (omega arith)
    ∙ set_decimals_big_down (pow b n) (5 * n - 5)

-- For an exponent from 1 up to where five times it still fits 16 bits, the loop of `checked_pow` ends within
-- its sixteen rounds, and the result is the exact power at `5 * n` places, truncated to five; for these
-- exponents it is missing exactly when that is not an `i64`.
pub checked_pow_exact :
    (a : Asset) (n : ℕ)
    → 1 ≤ n
    → 5 * n < 2 ^ 16
    → checked_pow a n
      ≡ Option.map (λ z. record { amount = z }) (to_i64 (pow a.amount n /ℤ pos (10 ^ (5 * n - 5))))
unfolding checked_pow
checked_pow_exact a n h k =
    rw
      (
        ne→== n 0 (λ e. omega arith),
        lt→ltb (5 * n) (2 ^ 16) k,
        pow_scaled a.amount n h (omega arith),
      )
      (as_asset (to_i64 (pow a.amount n /ℤ pos (10 ^ (5 * n - 5)))))
  where
    as_asset :
        (o : Option ℤ)
        → (o >>= λ z. some (let r : Asset = record { amount = z } in r))
          ≡ Option.map (λ z. let r : Asset = record { amount = z } in r) o
    as_asset none = refl
    as_asset (some z) = refl
