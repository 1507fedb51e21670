-- ===== src/Serializer/Decodes.antt =====
-- What it means that a reader of crates/godcoin/src/serializer.rs undoes a writer, and how such
-- facts are chained along a `do` block.
use godcoin.Base.{
  ℕ, zero, suc, ◌+◌, ◌*◌, ◌/◌, ◌%◌, ◌^◌, ◌<◌, ◌≡◌, refl, ap, arith, [], ◌∷◌, ◌++◌, Bytes, ok,
  length, take, drop, append_assoc, le→leb, length-append,
}
use godcoin.Serializer.Write.{be_bytes}
use godcoin.Serializer.Read.{
  Read, pure, ◌>>=◌, read_exact, from_be, take_u8, take_u16, take_u32, take_u64,
}
use native.Mathlib.Nat.{pow-suc}

-- The reader takes exactly these bytes, whatever follows them, and returns the value.
pub record Decodes {A : Type 0} (m : Read A) (bs : Bytes) (a : A) : Type 0 where
  pub runs : (rest : Bytes) → m (bs ++ rest) ≡ ok (a, rest)

pub Decodes-bind :
    {A B : Type 0} (m : Read A) (f : A → Read B) (bs cs : Bytes) (a : A) (b : B)
    → Decodes m bs a
    → Decodes (f a) cs b
    → Decodes (m >>= f) (bs ++ cs) b
Decodes-bind m f bs cs a b p q = record {
  runs = λ rest. rw (append_assoc bs cs rest, p.runs (cs ++ rest), ◌>>=◌) (q.runs rest);
}

-- The last step of a block.
pub Decodes-map :
    {A B : Type 0} (m : Read A) (g : A → B) (bs : Bytes) (a : A) (b : B)
    → Decodes m bs a
    → g a ≡ b
    → Decodes (m >>= λ x. pure (g x)) bs b
Decodes-map m g bs a b p e = record {
  runs = λ rest. rw (p.runs rest, ◌>>=◌) (ap (λ x. ok (x, rest)) e);
}

pub take-length : (xs ys : Bytes) → take (length xs) (xs ++ ys) ≡ xs
take-length [] ys = refl
take-length (x ∷ xs) ys = ap (λ (t : Bytes). x ∷ t) (take-length xs ys)

pub drop-length : (xs ys : Bytes) → drop (length xs) (xs ++ ys) ≡ ys
drop-length [] ys = refl
drop-length (x ∷ xs) ys = drop-length xs ys

pub read_exact-Decodes : (n : ℕ) (bs : Bytes) → length bs ≡ n → Decodes (read_exact n) bs bs
unfolding read_exact
read_exact-Decodes n bs h = record {
  runs = λ rest. rw (
    ← h,
    length-append bs rest,
    le→leb (length bs) (length bs + length rest) (omega arith),
    take-length bs rest,
    drop-length bs rest,
  );
}

-- Big-endian numbers.
pub length-be_bytes : (w v : ℕ) → length (be_bytes w v) ≡ w
unfolding be_bytes
length-be_bytes zero v = refl
length-be_bytes (suc w) v =
    omega (arith, length-append (be_bytes w (v / 256)) (v % 256 ∷ []), length-be_bytes w (v / 256))

from_be-append : (acc b : ℕ) (xs : Bytes) → from_be acc (xs ++ (b ∷ [])) ≡ from_be acc xs * 256 + b
unfolding from_be
from_be-append acc b [] = refl
from_be-append acc b (x ∷ xs) = from_be-append (acc * 256 + x) b xs

pub from_be-be_bytes : (w v : ℕ) → v < 256 ^ w → from_be 0 (be_bytes w v) ≡ v
unfolding be_bytes
from_be-be_bytes zero v h = unfold from_be in omega arith
from_be-be_bytes (suc w) v h = omega (
  arith,
  from_be-append 0 (v % 256) (be_bytes w (v / 256)),
  from_be-be_bytes w (v / 256) (omega (arith, pow-suc 256 w)),
)

pub take_u8-Decodes : (v : ℕ) → Decodes take_u8 (v ∷ []) v
unfolding take_u8
take_u8-Decodes v = record { runs = λ rest. refl }

-- A reader of `w` bytes that makes something of the number they spell.
number-Decodes :
    {A : Type 0} (w v : ℕ) (g : ℕ → A)
    → v < 256 ^ w
    → Decodes (read_exact w >>= λ buf. pure (g (from_be 0 buf))) (be_bytes w v) (g v)
number-Decodes w v g h =
    Decodes-map (read_exact w) (λ buf. g (from_be 0 buf)) (be_bytes w v) (be_bytes w v) (g v)
      (read_exact-Decodes w (be_bytes w v) (length-be_bytes w v)) (ap g (from_be-be_bytes w v h))

pub take_u16-Decodes : (v : ℕ) → v < 2 ^ 16 → Decodes take_u16 (be_bytes 2 v) v
unfolding take_u16
take_u16-Decodes v h = number-Decodes 2 v (λ n. n) h

pub take_u32-Decodes : (v : ℕ) → v < 2 ^ 32 → Decodes take_u32 (be_bytes 4 v) v
unfolding take_u32
take_u32-Decodes v h = number-Decodes 4 v (λ n. n) h

pub take_u64-Decodes : (v : ℕ) → v < 2 ^ 64 → Decodes take_u64 (be_bytes 8 v) v
unfolding take_u64
take_u64-Decodes v h = number-Decodes 8 v (λ n. n) h
