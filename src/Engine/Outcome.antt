-- ===== src/Engine/Outcome.antt =====
-- How a script run ends (crates/godcoin/src/script/engine.rs).
use godcoin.Base.{
  ℕ, zero, suc, ◌+◌, ◌≤◌, ◌<◌, arith, List, [], ◌∷◌, Option, some, none, Result, ok, err, length,
}
use godcoin.Base.Int.{int_laws}
use godcoin.Crypto.{Crypto}
use godcoin.Script.Op.{OpFrame, EvalErrKind}
use godcoin.Script.Consume.{Fault, new_err}
use godcoin.Script.Consume.{panic}
use godcoin.Script.Progress.{consume_op_past_end}
use godcoin.Base.{ltb, Bool-cases, inl, inr, ◌≡◌, refl, ◌<◌, ◌≤◌}
use godcoin.Engine.Machine.{EngineData, Machine, Step, throw, push_frame, next_op, ◌>>◌}
use godcoin.Engine.Exec.{Flow, next, stop, exec}
use godcoin.Engine.Keeps.{Held, held, failed, Keeps, Keeps-bind, Keeps-pure, Keeps-throw}
use godcoin.Engine.Invariant.{Inv, Keeps-push, Fetched, next_op-Fetched}
use godcoin.Serializer.Read.{IoErr, take_u64, take_asset}
use godcoin.Script.Op.{Arg}
use godcoin.Base.{Bytes}
use godcoin.Script.Header.{get_fn_ptr}
use godcoin.Script.Progress.{Consumed, ended, decoded, consume_op-Consumed}
use godcoin.Engine.Machine.{machine_new}
use godcoin.Engine.Run.{call_args, load_args, loop, enter_at, enter}
use godcoin.Engine.Preserve.{Keeps-exec}

-- The invariant from a later bound, and from the position itself.
started : {d : EngineData} {lo : ℕ} {m : Machine} → Inv d lo m → Inv d 0 m
started h = record {
  after = omega arith;
  inside = h.inside;
  spent = h.spent;
  left = h.left;
  sound = h.sound;
  bounded = h.bounded;
}

from_here : {d : EngineData} {lo : ℕ} {m : Machine} → Inv d lo m → Inv d m.at m
from_here h = record {
  after = omega arith;
  inside = h.inside;
  spent = h.spent;
  left = h.left;
  sound = h.sound;
  bounded = h.bounded;
}

module _ (c : Crypto) (d : EngineData) where
  abbrev I : Machine → Type 0
  I = Inv d 0

  Keeps-arg :
      {A : Type 0} (r : Result IoErr (A × Bytes)) (f : A → Bytes → Step (Unit {0}))
      → ((a : A) (cur : Bytes) → Keeps I (f a cur))
      → Keeps I (elim r [ ok (a, cur') ↦ f a cur' | err e ↦ throw EvalErrKind.arg_deserialization ])
  Keeps-arg (ok (a, cur)) f k = k a cur
  Keeps-arg (err e) f k = Keeps-throw I _

  Keeps-load_args : (args : List Arg) (cur : Bytes) → Keeps I (load_args args cur)
  unfolding load_args
  Keeps-load_args [] cur = Keeps-pure I tt
  Keeps-load_args (Arg.account_id ∷ args) cur =
      Keeps-arg (take_u64 cur)
        (λ id cur'. push_frame (OpFrame.push_account_id id) >> load_args args cur')
        (λ id cur'. Keeps-bind I _ _ (Keeps-push c d 0 _) (λ _. Keeps-load_args args cur'))
  Keeps-load_args (Arg.asset ∷ args) cur =
      Keeps-arg (take_asset cur)
        (λ a cur'. push_frame (OpFrame.push_asset a) >> load_args args cur')
        (λ a cur'. Keeps-bind I _ _ (Keeps-push c d 0 _) (λ _. Keeps-load_args args cur'))

  Held-executed :
      (fuel : ℕ) (m : Machine)
      → ((m' : Machine) → I m' → length d.script.code < fuel + m'.at → Held I (loop c d fuel m'))
      → length d.script.code < fuel + m.at
      → (r : Result Fault (Flow × Machine)) → Held (Inv d m.at) r
      → Held I (elim r [
        | err e ↦ err e
        | ok (stop, m'') ↦ ok (tt, m'')
        | ok (next, m'') ↦ loop c d fuel m''
      ])
  Held-executed fuel m ih enough r (held next m'' h) = ih m'' (started h) (omega (arith, h.after))
  Held-executed fuel m ih enough r (held stop m'' h) = held tt m'' (started h)
  Held-executed fuel m ih enough r (failed e) = failed e

  Held-Fetched :
      (fuel : ℕ)
      → ((m : Machine) → I m → length d.script.code < fuel + m.at → Held I (loop c d fuel m))
      → (m : Machine) → length d.script.code < suc fuel + m.at
      → (r : Result Fault (Option OpFrame × Machine)) → Fetched c d 0 m r
      → Held I (elim r [
        | err e ↦ err e
        | ok (none, m') ↦ ok (tt, m')
        | ok (some op, m') ↦ elim (exec c d op m') [
          | err e ↦ err e
          | ok (stop, m'') ↦ ok (tt, m'')
          | ok (next, m'') ↦ loop c d fuel m''
        ]
      ])
  Held-Fetched fuel ih m enough r (Fetched.at_end m' h') = held tt m' h'
  Held-Fetched fuel ih m enough r (Fetched.fetched op m' past h') =
      Held-executed fuel m' ih (omega arith) _ ((Keeps-exec c d m'.at op).runs m' (from_here h'))
  Held-Fetched fuel ih m enough r (Fetched.lost e) = failed e

  pub loop-Held :
      (fuel : ℕ) (m : Machine) → I m → length d.script.code < fuel + m.at → Held I (loop c d fuel m)
  unfolding loop
  loop-Held zero m h enough = absurd (omega (arith, h.inside))
  loop-Held (suc fuel) m h enough =
      Held-Fetched fuel (loop-Held fuel) m enough _ (next_op-Fetched c d 0 m h)

  new_Inv : (at : ℕ) → at ≤ length d.script.code → I (record (machine_new d) { at = at })
  new_Inv at h = record {
    after = omega arith;
    inside = h;
    spent = omega int_laws;
    left = λ k. k;
    sound = tt;
    bounded = omega arith;
  }

  Held-define : (op : OpFrame) (m : Machine) → I m → Held I (enter_at d (ok (some op, m)))
  unfolding enter_at
  Held-define (OpFrame.op_define args) m h = (Keeps-load_args args (call_args d.tx)).runs m h
  Held-define _ m h = failed _

  Held-entry :
      (ptr : ℕ) (r : Result Fault (Option OpFrame × ℕ))
      → ptr ≤ length d.script.code
      → Consumed d.script.code ptr r
      → Held I (
          enter_at d (elim r as (λ _. Result Fault (Option OpFrame × Machine)) [
            | ok (op, at) ↦ ok (op, record (machine_new d) { at = at })
            | err e ↦ err e
          ]))
  unfolding enter_at
  Held-entry ptr r h ended = failed _
  Held-entry ptr r h (decoded none at lo hi) = failed _
  Held-entry ptr r h (decoded (some op) at lo hi) = Held-define op _ (new_Inv at hi)
  Held-entry ptr r h (Consumed.failed e) = failed e
  Held-entry ptr r h (Consumed.panicked past) = absurd (omega arith)

  -- The entry of the function table may lie past the end of the script: there the run panics.
  pub data Entered (fn_id : ℕ) : Result Fault (Unit {0} × Machine) → Type 0 where
    inside : (r : Result Fault (Unit {0} × Machine)) → Held I r → Entered fn_id r
    past :
        (ptr : ℕ)
        → get_fn_ptr d.script fn_id ≡ ok (some ptr)
        → length d.script.code < ptr
        → Entered fn_id (err panic)

  Entered-ptr :
      (fn_id : ℕ) (r : Result IoErr (Option ℕ))
      → get_fn_ptr d.script fn_id ≡ r
      → Entered fn_id (elim r [
        | err e ↦ err (new_err 0 EvalErrKind.header_read_err)
        | ok none ↦ err (new_err 0 EvalErrKind.unknown_fn)
        | ok (some ptr) ↦ enter_at d (next_op d.script (record (machine_new d) { at = ptr }))
      ])
  unfolding next_op enter_at
  Entered-ptr fn_id (err e) known = inside _ (failed _)
  Entered-ptr fn_id (ok none) known = inside _ (failed _)
  Entered-ptr fn_id (ok (some ptr)) known = elim (Bool-cases (ltb (length d.script.code) ptr)) [
    | inl over ↦
        rw (next_op, consume_op_past_end d.script.code ptr (ground (arith, over)))
          (past ptr known (ground (arith, over)))
    | inr within ↦
        inside _ (Held-entry ptr _ (ground (arith, within)) (consume_op-Consumed d.script.code ptr))
  ]

  pub enter-Entered : (fn_id : ℕ) → Entered fn_id (enter d fn_id (machine_new d))
  unfolding enter
  enter-Entered fn_id = Entered-ptr fn_id (get_fn_ptr d.script fn_id) refl
