-- ===== src/Engine/Invariant.antt =====
-- The invariant of a script run, and that every operation keeps it
-- (crates/godcoin/src/script/engine.rs).
use godcoin.Base.{
  ℕ, ◌≤◌, ◌<◌, ◌≡◌, arith, Bool, false, List, [], ◌∷◌, ◌++◌, Option, some, none, Result, ok, err,
  length, ltb, Bool-cases, inl, inr, All,
}
use godcoin.Base.Int.{ℤ, pos, ◌+ℤ◌, ◌≤ℤ◌, int_laws}
use godcoin.Crypto.{Crypto}
use godcoin.Script.Op.{AccountId, OpFrame, EvalErr, EvalErrKind}
use godcoin.Script.Stack.{Stack, push}
use godcoin.Script.Consume.{Fault, eval_err, new_err}
use godcoin.Script.Progress.{Consumed, ended, decoded, consume_op-Consumed}
use godcoin.Account.Types.{Account}
use godcoin.Receipt.Types.{LogEntry}
use godcoin.Engine.Machine.{EngineData, Machine, on_stack, push_frame, next_op, total_amt}
use godcoin.Engine.Exec.{set_marker, set_ignore_else}
use godcoin.Engine.Keeps.{Held, held, failed, Keeps, Popped, popped, refused}

-- What a log pays out.
abbrev pub log_sum : List LogEntry → ℤ
log_sum [] = pos 0
log_sum (LogEntry.transfer to amt ∷ log) = amt.amount +ℤ log_sum log
log_sum (LogEntry.destroy to ∷ log) = log_sum log

pub log_sum-append : (xs ys : List LogEntry) → log_sum (xs ++ ys) ≡ log_sum xs +ℤ log_sum ys
log_sum-append [] ys = omega int_laws
log_sum-append (LogEntry.transfer to amt ∷ xs) ys = rw (log_sum-append xs ys) (omega int_laws)
log_sum-append (LogEntry.destroy to ∷ xs) ys = log_sum-append xs ys

-- An account that exists and is not destroyed, as the engine sees the chain.
abbrev pub IsLive : EngineData → AccountId → Type 0
IsLive d id =
    (acc : Account) × (d.chain.get_account id d.additional_receipts ≡ some acc)
    × (acc.destroyed ≡ false)

-- An entry pays no negative amount, and its receiver is live.
abbrev pub IsSound : EngineData → LogEntry → Type 0
IsSound d (LogEntry.transfer to amt) = (pos 0 ≤ℤ amt.amount) × IsLive d to
IsSound d (LogEntry.destroy to) = IsLive d to

pub record Inv (d : EngineData) (lo : ℕ) (m : Machine) : Type 0 where
  pub after : lo ≤ m.at
  pub inside : m.at ≤ length d.script.code
  pub spent : log_sum m.log +ℤ m.remaining_amt.amount ≡ (total_amt d.tx).amount
  pub left : pos 0 ≤ℤ (total_amt d.tx).amount → pos 0 ≤ℤ m.remaining_amt.amount
  pub sound : All (IsSound d) m.log
  pub bounded : length m.stack ≤ 64

module _ (c : Crypto) (d : EngineData) (lo : ℕ) where
  abbrev I : Machine → Type 0
  I = Inv d lo

  with_stack : (m : Machine) (s : Stack) → I m → length s ≤ 64 → I (record m { stack = s })
  with_stack m s h k = record {
    after = h.after;
    inside = h.inside;
    spent = h.spent;
    left = h.left;
    sound = h.sound;
    bounded = k;
  }

  Held-Popped :
      {A : Type 0} (m : Machine)
      → I m
      → (r : Result EvalErrKind (A × Stack)) → Popped m.stack r
      → Held I (elim r [
        | ok (a, stack) ↦ ok (a, record m { stack = stack })
        | err kind ↦ err (new_err m.at kind)
      ])
  Held-Popped m h r (popped a s k) = held a _ (with_stack m s h (omega (arith, h.bounded)))
  Held-Popped m h r (refused kind) = failed _

  pub Keeps-pop :
      {A : Type 0} (f : Stack → Result EvalErrKind (A × Stack))
      → ((s : Stack) → Popped s (f s))
      → Keeps I (on_stack f)
  Keeps-pop f p = record { runs = λ m h. Held-Popped m h (f m.stack) (p m.stack) }

  pub Keeps-push : (op : OpFrame) → Keeps I (push_frame op)
  unfolding push
  Keeps-push op = record {
    runs = λ m h. elim (Bool-cases (ltb (length m.stack) 64)) [
      | inl room ↦
          rw (room, push_frame, push) (held _ _ (with_stack m (op ∷ m.stack) h (ground arith)))
      | inr full ↦ rw (full, push_frame, push) (failed _)
    ];
  }

  -- The two locals of the loop are free.
  pub with_locals :
      (m : Machine) (k : ℤ) (b : Bool) → I m → I (record m { if_marker = k; ignore_else = b })
  with_locals m k b h = record {
    after = h.after;
    inside = h.inside;
    spent = h.spent;
    left = h.left;
    sound = h.sound;
    bounded = h.bounded;
  }

  pub Keeps-set_marker : (f : ℤ → ℤ) → Keeps I (set_marker f)
  unfolding set_marker
  Keeps-set_marker f = record {
    runs = λ m h. held _ _ (with_locals m (f m.if_marker) m.ignore_else h);
  }

  pub Keeps-set_ignore_else : (b : Bool) → Keeps I (set_ignore_else b)
  unfolding set_ignore_else
  Keeps-set_ignore_else b = record { runs = λ m h. held _ _ (with_locals m m.if_marker b h) }

  -- Reading the next operation moves on, or ends at the end of the script.
  pub data Fetched (m : Machine) : Result Fault (Option OpFrame × Machine) → Type 0 where
    at_end : (m' : Machine) → I m' → Fetched m (ok (none, m'))
    fetched : (op : OpFrame) (m' : Machine) → m.at < m'.at → I m' → Fetched m (ok (some op, m'))
    lost : (e : EvalErr) → Fetched m (err (eval_err e))

  moved :
      (m : Machine) (at : ℕ)
      → I m
      → m.at ≤ at
      → at ≤ length d.script.code
      → I (record m { at = at })
  moved m at h lo' hi = record {
    after = omega (arith, h.after);
    inside = hi;
    spent = h.spent;
    left = h.left;
    sound = h.sound;
    bounded = h.bounded;
  }

  Fetched-Consumed :
      (m : Machine)
      → I m
      → (r : Result Fault (Option OpFrame × ℕ)) → Consumed d.script.code m.at r
      → Fetched m (elim r [ ok (op, at) ↦ ok (op, record m { at = at }) | err e ↦ err e ])
  Fetched-Consumed m h r ended = Fetched.at_end m h
  Fetched-Consumed m h r (decoded none at lo' hi) = Fetched.at_end _ (moved m at h (omega arith) hi)
  Fetched-Consumed m h r (decoded (some op) at lo' hi) =
      Fetched.fetched op _ lo' (moved m at h (omega arith) hi)
  Fetched-Consumed m h r (Consumed.failed e) = Fetched.lost e
  Fetched-Consumed m h r (Consumed.panicked past) = absurd (omega (arith, h.inside))

  pub next_op-Fetched : (m : Machine) → I m → Fetched m (next_op d.script m)
  unfolding next_op
  next_op-Fetched m h = Fetched-Consumed m h _ (consume_op-Consumed d.script.code m.at)
