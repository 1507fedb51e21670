-- ===== src/Base/Bits.antt =====
-- The bit operations as arithmetic: low masks, disjoint sums and complements at every width.
use Prim.Native.Nat.{
  ℕ, zero, suc, ◌+◌, ◌-◌, ◌*◌, ◌/◌, ◌%◌, ◌^◌, ◌≤◌, ◌<◌, min, max, bit_and, bit_or, bit_xor,
}
use Prim.Native.Nat.{digits, bit_and-bitwise, bit_or-bitwise, bit_xor-bitwise, differ}
use mathlib.Core.Path.{◌≡◌, refl, ap, ◌∙◌, sym}
use native.Mathlib.Nat.{pow-suc, one-le-pow, div-add-mod'}
use native.Mathlib.Omega.{arith}

-- The fuel of `digits` may be any number that is large enough.
digits_enough :
    (z : ℕ → ℕ) (f : ℕ → ℕ → ℕ) (n m a b : ℕ) → a ≤ n → a ≤ m → digits z f n a b ≡ digits z f m a b
digits_enough z f n m zero b p q = digits_zero n ∙ sym (digits_zero m)
  where
    digits_zero : (k : ℕ) → digits z f k zero b ≡ z b
    digits_zero zero = refl
    digits_zero (suc k) = refl
digits_enough z f zero m (suc a) b p q = absurd (omega arith)
digits_enough z f (suc n) zero (suc a) b p q = absurd (omega arith)
digits_enough z f (suc n) (suc m) (suc a) b p q =
    ap (λ (t : ℕ). t * 2 + f (suc a % 2) (b % 2))
      (digits_enough z f n m (suc a / 2) (b / 2) (omega arith) (omega arith))

-- Each operation acts on the lowest digits and on the halves.
halves :
    (z : ℕ → ℕ) (f : ℕ → ℕ → ℕ) (a b : ℕ)
    → digits z f (suc a) (suc a) b
      ≡ digits z f (suc a / 2) (suc a / 2) (b / 2) * 2 + f (suc a % 2) (b % 2)
halves z f a b =
    ap (λ (t : ℕ). t * 2 + f (suc a % 2) (b % 2))
      (digits_enough z f a (suc a / 2) (suc a / 2) (b / 2) (omega arith) (omega arith))

and_halves : (a b : ℕ) → bit_and a b ≡ bit_and (a / 2) (b / 2) * 2 + min (a % 2) (b % 2)
and_halves zero b = simp bit_and-bitwise (omega arith)
and_halves (suc a) b = simp bit_and-bitwise (halves (λ y. 0) min a b)

or_halves : (a b : ℕ) → bit_or a b ≡ bit_or (a / 2) (b / 2) * 2 + max (a % 2) (b % 2)
or_halves zero b = simp bit_or-bitwise (omega arith)
or_halves (suc a) b = simp bit_or-bitwise (halves (λ y. y) max a b)

differ_digits : (x y : ℕ) → x < 2 → y < 2 → differ x y ≡ (x + y) % 2
differ_digits zero y p q = omega arith
differ_digits (suc zero) zero p q = refl
differ_digits (suc zero) (suc zero) p q = refl
differ_digits (suc zero) (suc (suc y)) p q = absurd (omega arith)
differ_digits (suc (suc x)) y p q = absurd (omega arith)

xor_halves : (a b : ℕ) → bit_xor a b ≡ bit_xor (a / 2) (b / 2) * 2 + (a % 2 + b % 2) % 2
xor_halves zero b = simp bit_xor-bitwise (omega arith)
xor_halves (suc a) b =
    omega (arith, raw, differ_digits (suc a % 2) (b % 2) (omega arith) (omega arith))
  where
    raw : bit_xor (suc a) b ≡ bit_xor (suc a / 2) (b / 2) * 2 + differ (suc a % 2) (b % 2)
    raw = simp bit_xor-bitwise (halves (λ y. y) differ a b)

-- Two numbers with no digit in common: `or` adds them.
pub bit_or_add : (s a g : ℕ) → a < 2 ^ s → bit_or a (g * 2 ^ s) ≡ a + g * 2 ^ s
bit_or_add zero zero g h = simp bit_or-bitwise (omega arith)
bit_or_add zero (suc a) g h = absurd (omega arith)
bit_or_add (suc s) a g h = omega (
  arith,
  or_halves a (g * 2 ^ suc s),
  doubled,
  halved,
  bit_or_add s (a / 2) g (omega (arith, pow-suc 2 s)),
  low,
)
  where
    doubled : g * 2 ^ suc s ≡ 2 * (g * 2 ^ s)
    doubled = omega (arith, ap (λ (t : ℕ). g * t) (pow-suc 2 s))

    halved : bit_or (a / 2) (g * 2 ^ suc s / 2) ≡ bit_or (a / 2) (g * 2 ^ s)
    halved = ap (bit_or (a / 2)) (omega (arith, doubled))

    low : max (a % 2) (g * 2 ^ suc s % 2) ≡ a % 2
    low = omega (arith, doubled)

-- The mask of `k + 1` ones ends in a one, and its half is the mask of `k` ones.
mask_half : (k : ℕ) → (2 ^ suc k - 1) / 2 ≡ 2 ^ k - 1
mask_half k = omega (arith, pow-suc 2 k, one-le-pow k 2 (omega arith))

mask_low : (k : ℕ) → (2 ^ suc k - 1) % 2 ≡ 1
mask_low k = omega (arith, pow-suc 2 k, one-le-pow k 2 (omega arith))

and_zero : (n a : ℕ) → a ≤ n → bit_and a 0 ≡ 0
and_zero n zero h = refl
and_zero zero (suc a) h = absurd (omega arith)
and_zero (suc n) (suc a) h =
    omega (arith, and_halves (suc a) 0, and_zero n (suc a / 2) (omega arith))

mask_split : (k q r : ℕ) → q * 2 ^ suc k + r ≡ 2 * (q * 2 ^ k) + r
mask_split k q r = omega (arith, ap (λ (t : ℕ). q * t) (pow-suc 2 k))

and_fields : (k a q r : ℕ) → a ≡ q * 2 ^ k + r → r < 2 ^ k → bit_and a (2 ^ k - 1) ≡ r
and_fields zero a q r e h = omega (arith, and_zero a a (omega arith))
and_fields (suc k) a q r e h = omega (
  arith,
  and_halves a (2 ^ suc k - 1),
  ap (bit_and (a / 2)) (mask_half k),
  mask_low k,
  mask_split k q r,
  and_fields k (a / 2) q (r / 2) (omega (arith, mask_split k q r)) (omega (arith, pow-suc 2 k)),
)

-- A mask of `k` low bits is the remainder by `2 ^ k`.
pub bit_and_mask : (k a : ℕ) → bit_and a (2 ^ k - 1) ≡ a % 2 ^ k
bit_and_mask k a =
    and_fields k a (a / 2 ^ k) (a % 2 ^ k) (omega (arith, div-add-mod' a (2 ^ k)))
      (omega (arith, one-le-pow k 2 (omega arith)))

-- Exclusive or with zero, and with `k` ones.
pub bit_xor_zero : (k a : ℕ) → a < 2 ^ k → bit_xor a 0 ≡ a
bit_xor_zero zero zero h = refl
bit_xor_zero zero (suc a) h = absurd (omega arith)
bit_xor_zero (suc k) a h =
    omega (arith, xor_halves a 0, bit_xor_zero k (a / 2) (omega (arith, pow-suc 2 k)))

pub bit_xor_ones : (k a : ℕ) → a < 2 ^ k → bit_xor a (2 ^ k - 1) ≡ 2 ^ k - 1 - a
bit_xor_ones zero zero h = refl
bit_xor_ones zero (suc a) h = absurd (omega arith)
bit_xor_ones (suc k) a h = omega (
  arith,
  xor_halves a (2 ^ suc k - 1),
  ap (bit_xor (a / 2)) (mask_half k),
  mask_low k,
  pow-suc 2 k,
  bit_xor_ones k (a / 2) (omega (arith, pow-suc 2 k)),
)

-- The lowest bit of a number under a power of two, and of half of that power.
power_half : (k : ℕ) → 2 ^ suc k / 2 ≡ 2 ^ k
power_half k = omega (arith, pow-suc 2 k)

power_low : (k : ℕ) → 2 ^ suc k % 2 ≡ 0
power_low k = omega (arith, pow-suc 2 k)

and_power : (k a q r : ℕ) → a ≡ q * 2 ^ k + r → r < 2 ^ k → bit_and a (2 ^ k) ≡ q % 2 * 2 ^ k
and_power zero a q r e h = omega (arith, bit_and_mask 1 a)
and_power (suc k) a q r e h = omega (
  arith,
  and_halves a (2 ^ suc k),
  ap (bit_and (a / 2)) (power_half k),
  power_low k,
  mask_split k (q % 2) 0,
  and_power k (a / 2) q (r / 2) (omega (arith, mask_split k q r)) (omega (arith, pow-suc 2 k)),
)

-- The top bit of a byte, tested and set.
pub bit_and_top : (b : ℕ) → bit_and b 0x80 ≡ b / 128 % 2 * 128
bit_and_top b = and_power 7 b (b / 128) (b % 128) (omega arith) (omega arith)

pub bit_or_top : (b : ℕ) → b < 128 → bit_or b 0x80 ≡ b + 128
bit_or_top b h = bit_or_add 7 b 1 h
