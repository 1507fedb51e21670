-- ===== src/Engine/Keeps.antt =====
-- Invariants of the script engine's steps (crates/godcoin/src/script/engine.rs): a step keeps a
-- predicate if it ends in a machine that has it, or in an error of the source.
use godcoin.Base.{
  ◌≤◌, arith, Bool, true, false, [], ◌∷◌, Option, some, none, Result, ok, err, length,
  if◌then◌else◌,
}
use godcoin.Script.Op.{OpFrame, EvalErr, EvalErrKind}
use godcoin.Script.Stack.{Stack, pop_bool, pop_account_id, pop_asset}
use godcoin.Script.Consume.{Fault, eval_err}
use godcoin.Engine.Machine.{Machine, Step, pure, throw, or_throw, ◌>>=◌}

pub data Held {A : Type 0} (P : Machine → Type 0) : Result Fault (A × Machine) → Type 0 where
  held : (a : A) (m : Machine) → P m → Held P (ok (a, m))
  failed : (e : EvalErr) → Held P (err (eval_err e))

pub record Keeps {A : Type 0} (P : Machine → Type 0) (s : Step A) : Type 0 where
  pub runs : (m : Machine) → P m → Held P (s m)

pub Held-then :
    {A B : Type 0} {P : Machine → Type 0} (f : A → Step B) (r : Result Fault (A × Machine))
    → Held P r
    → ((a : A) → Keeps P (f a))
    → Held P (elim r [ ok (a, m') ↦ f a m' | err e ↦ err e ])
Held-then f r (held a m p) k = (k a).runs m p
Held-then f r (failed e) k = failed e

module _ (P : Machine → Type 0) where
  pub Keeps-bind :
      {A B : Type 0} (s : Step A) (f : A → Step B)
      → Keeps P s
      → ((a : A) → Keeps P (f a))
      → Keeps P (s >>= f)
  Keeps-bind s f p q = record { runs = λ m h. Held-then f (s m) (p.runs m h) q }

  pub Keeps-pure : {A : Type 0} (a : A) → Keeps P (pure a)
  Keeps-pure a = record { runs = λ m h. held a m h }

  pub Keeps-throw : {A : Type 0} (kind : EvalErrKind) → Keeps P (throw {A = A} kind)
  Keeps-throw kind = record { runs = λ m h. failed _ }

  pub Keeps-or_throw : {A : Type 0} (o : Option A) (kind : EvalErrKind) → Keeps P (or_throw o kind)
  Keeps-or_throw none kind = Keeps-throw kind
  Keeps-or_throw (some a) kind = Keeps-pure a

  pub Keeps-if :
      {A : Type 0} (b : Bool) (s t : Step A) → Keeps P s → Keeps P t → Keeps P (if b then s else t)
  Keeps-if true s t p q = p
  Keeps-if false s t p q = q

-- What a pop leaves is no longer than what it finds.
pub data Popped {A : Type 0} (s : Stack) : Result EvalErrKind (A × Stack) → Type 0 where
  popped : (a : A) (s' : Stack) → length s' ≤ length s → Popped s (ok (a, s'))
  refused : (kind : EvalErrKind) → Popped s (err kind)

pub pop_bool-Popped : (s : Stack) → Popped s (pop_bool s)
unfolding pop_bool
pop_bool-Popped [] = refused _
pop_bool-Popped (OpFrame.push_false ∷ s) = popped false s (omega arith)
pop_bool-Popped (OpFrame.push_true ∷ s) = popped true s (omega arith)
pop_bool-Popped (_ ∷ s) = refused _

pub pop_account_id-Popped : (s : Stack) → Popped s (pop_account_id s)
unfolding pop_account_id
pop_account_id-Popped [] = refused _
pop_account_id-Popped (OpFrame.push_account_id id ∷ s) = popped id s (omega arith)
pop_account_id-Popped (_ ∷ s) = refused _

pub pop_asset-Popped : (s : Stack) → Popped s (pop_asset s)
unfolding pop_asset
pop_asset-Popped [] = refused _
pop_asset-Popped (OpFrame.push_asset a ∷ s) = popped a s (omega arith)
pop_asset-Popped (_ ∷ s) = refused _
