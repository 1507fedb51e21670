-- ===== src/Chain/Inversion.antt =====
-- What a chain of checks that succeeds tells of each of them (crates/godcoin/src/blockchain/mod.rs).
use godcoin.Base.{◌≡◌, refl, Bool, true, false, not, Option, some, none, ok, err}
use godcoin.Chain.Types.{TxErr, BlockErr, Outcome, ok_or, unwrap, ◌>>=◌}
use godcoin.Chain.Execute.{reject_if}
use godcoin.Chain.Verify.{refuse_if}

pub bind_ok :
    {E A B : Type 0} (r : Outcome E A) (f : A → Outcome E B) (b : B)
    → (r >>= f) ≡ ok b
    → (a : A) × (r ≡ ok a) × (f a ≡ ok b)
unfolding ◌>>=◌
bind_ok (ok a) f b e = (a, refl, e)
bind_ok (err x) f b e = absurd cc

-- The same, for a goal that follows.
pub bind_ok-elim :
    {E A B G : Type 0} (r : Outcome E A) (f : A → Outcome E B) (b : B)
    → (r >>= f) ≡ ok b
    → ((a : A) → r ≡ ok a → f a ≡ ok b → G)
    → G
bind_ok-elim r f b e k = let (a, h, e') = bind_ok r f b e in k a h e'

pub reject_if_ok : (b : Bool) (e : TxErr) (u : Unit {0}) → reject_if b e ≡ ok u → b ≡ false
unfolding reject_if
reject_if_ok true e u h = absurd cc
reject_if_ok false e u h = refl

pub refuse_if_ok : (b : Bool) (e : BlockErr) (u : Unit {0}) → refuse_if b e ≡ ok u → b ≡ false
unfolding refuse_if
refuse_if_ok true e u h = absurd cc
refuse_if_ok false e u h = refl

pub ok_or_ok : {E A : Type 0} (o : Option A) (e : E) (a : A) → ok_or o e ≡ ok a → o ≡ some a
unfolding ok_or
ok_or_ok none e a h = absurd cc
ok_or_ok (some x) e a h = cc

pub unwrap_ok : {E A : Type 0} (o : Option A) (a : A) → unwrap {E = E} o ≡ ok a → o ≡ some a
unfolding unwrap
unwrap_ok none a h = absurd cc
unwrap_ok (some x) a h = cc

-- A chain of checks goes through where each of them does.
pub bind_to :
    {E A B : Type 0} (r : Outcome E A) (f : A → Outcome E B) (a : A) (b : B)
    → r ≡ ok a
    → f a ≡ ok b
    → (r >>= f) ≡ ok b
unfolding ◌>>=◌
bind_to (ok x) f a b e e' = let same : x ≡ a = cc in rw same e'
bind_to (err x) f a b e e' = absurd cc

pub refuse_if_passes :
    {A : Type 0} (b : Bool) (e : BlockErr) (f : Unit {0} → Outcome BlockErr A) (a : A)
    → b ≡ true
    → f tt ≡ ok a
    → (refuse_if (not b) e >>= f) ≡ ok a
unfolding refuse_if ◌>>=◌
refuse_if_passes true e f a h k = k
refuse_if_passes false e f a h k = absurd cc

pub ok_inj : {E A : Type 0} (a b : A) (r : Outcome E A) → r ≡ ok a → r ≡ ok b → a ≡ b
ok_inj a b r e e' = cc
