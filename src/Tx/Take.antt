-- ===== src/Tx/Take.antt =====
-- Readers that answer with an `Option`, as `deserialize` of crates/godcoin/src/tx/mod.rs and
-- crates/godcoin/src/blockchain do: `try` is `.ok()?` on a `take_*`, `lift` is `?` on an option.
use godcoin.Base.{◌≡◌, ap, [], ◌++◌, Bytes, Option, some, none, ok, err, append_assoc}
use godcoin.Serializer.Read.{Read}
use godcoin.Serializer.Decodes.{Decodes}

abbrev pub Take : Type 0 → Type 0
Take A = Bytes → Option (A × Bytes)

abbrev pub pure : {A : Type 0} → A → Take A
pure a cur = some (a, cur)

infixl 5 ◌>>=◌
abbrev pub ◌>>=◌ : {A B : Type 0} → Take A → (A → Take B) → Take B
◌>>=◌ m f cur = elim (m cur) [ some (a, cur') ↦ f a cur' | none ↦ none ]

unfoldable pub try : {A : Type 0} → Read A → Take A
try m cur = elim (m cur) [ ok (a, cur') ↦ some (a, cur') | err e ↦ none ]

unfoldable pub lift : {A : Type 0} → Option A → Take A
lift (some a) cur = some (a, cur)
lift none cur = none

-- The reader takes exactly these bytes, whatever follows them, and returns the value.
pub record Takes {A : Type 0} (m : Take A) (bs : Bytes) (a : A) : Type 0 where
  pub runs : (rest : Bytes) → m (bs ++ rest) ≡ some (a, rest)

pub Takes-bind :
    {A B : Type 0} (m : Take A) (f : A → Take B) (bs cs : Bytes) (a : A) (b : B)
    → Takes m bs a
    → Takes (f a) cs b
    → Takes (m >>= f) (bs ++ cs) b
Takes-bind m f bs cs a b p q = record {
  runs = λ rest. rw (append_assoc bs cs rest, p.runs (cs ++ rest), ◌>>=◌) (q.runs rest);
}

pub Takes-map :
    {A B : Type 0} (m : Take A) (g : A → B) (bs : Bytes) (a : A) (b : B)
    → Takes m bs a
    → g a ≡ b
    → Takes (m >>= λ x. pure (g x)) bs b
Takes-map m g bs a b p e = record {
  runs = λ rest. rw (p.runs rest, ◌>>=◌) (ap (λ x. some (x, rest)) e);
}

pub Takes-try : {A : Type 0} {m : Read A} {bs : Bytes} {a : A} → Decodes m bs a → Takes (try m) bs a
unfolding try
Takes-try p = record { runs = λ rest. rw (p.runs rest, try) }

pub Takes-lift : {A : Type 0} (o : Option A) (a : A) → o ≡ some a → Takes (lift o) [] a
unfolding lift
Takes-lift o a e = record { runs = λ rest. rw e }
