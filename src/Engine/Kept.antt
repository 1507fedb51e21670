-- ===== src/Engine/Kept.antt =====
-- Every operation of a script keeps the invariant of the run
-- (crates/godcoin/src/script/engine.rs).
use godcoin.Base.{
  ℕ, zero, suc, ◌+◌, ◌<◌, ◌≡◌, ◌∙◌, arith, Bool, true, false, ◌||◌, [], ◌∷◌, ◌++◌, Option, some,
  none, Result, ok, err, length, Bool-cases, Option-cases, inl, inr, All-append,
}
use godcoin.Base.Int.{+ℤ_assoc, ℤ, pos, ◌+ℤ◌, ◌≤ℤ◌, ltb_ℤ, int_laws}
use godcoin.Asset.{Asset, checked_sub}
use godcoin.Asset.Arith.{checked_sub_iff}
use godcoin.Crypto.{Crypto}
use godcoin.Script.Op.{AccountId, OpFrame, EvalErr, EvalErrKind}
use godcoin.Script.Consume.{Fault, eval_err, new_err}
use godcoin.Receipt.Types.{LogEntry}
use godcoin.Engine.Machine.{EngineData, Machine, Step, total_amt}
use godcoin.Engine.Exec.{
  next, stop, matcher, skip_until, skip_branch, live_account, require_account, send_funds,
  log_destroy, destroy_for,
}
use godcoin.Engine.Keeps.{Held, held, failed, Keeps, Held-then, Keeps-bind, Keeps-pure}
use godcoin.Engine.Invariant.{
  Inv, IsLive, IsSound, log_sum, log_sum-append, Keeps-push, Keeps-set_marker, with_locals, Fetched,
  next_op-Fetched,
}

module _ (c : Crypto) (d : EngineData) (lo : ℕ) where
  abbrev I : Machine → Type 0
  I = Inv d lo

  -- What a round of `consume_op_until` does once it has its operation.
  Held-round :
      (fuel : ℕ) (req : ℤ)
      → ((m : Machine)
          → I m
          → length d.script.code < fuel + m.at
          → Held I (skip_until d.script fuel req m))
      → (m : Machine) → I m
      → length d.script.code < fuel + m.at
      → (r : Bool × ℤ)
      → Held I (elim r.0 [
        | true ↦ ok (tt, record m { if_marker = r.1 })
        | false ↦ skip_until d.script fuel req (record m { if_marker = r.1 })
      ])
  Held-round fuel req ih m h enough (true, marker) =
      held _ _ (with_locals c d lo m marker m.ignore_else h)
  Held-round fuel req ih m h enough (false, marker) =
      ih _ (with_locals c d lo m marker m.ignore_else h) enough

  Held-fetch :
      (fuel : ℕ) (req : ℤ)
      → ((m : Machine)
          → I m
          → length d.script.code < fuel + m.at
          → Held I (skip_until d.script fuel req m))
      → (m : Machine) → length d.script.code < suc fuel + m.at
      → (r : Result Fault (Option OpFrame × Machine)) → Fetched c d lo m r
      → Held I (elim r [
        | err e ↦ err e
        | ok (none, m') ↦ err (new_err m'.at EvalErrKind.unexpected_eof)
        | ok (some op, m') ↦
            let (done, marker) = matcher req m'.if_marker op in
            elim done [
              | true ↦ ok (tt, record m' { if_marker = marker })
              | false ↦ skip_until d.script fuel req (record m' { if_marker = marker })
            ]
      ])
  Held-fetch fuel req ih m enough r (Fetched.at_end m' h') = failed _
  Held-fetch fuel req ih m enough r (Fetched.fetched op m' past h') =
      Held-round fuel req ih m' h' (omega arith) (matcher req m'.if_marker op)
  Held-fetch fuel req ih m enough r (Fetched.lost e) = failed e

  skip_until-Held :
      (fuel : ℕ) (req : ℤ) (m : Machine)
      → I m
      → length d.script.code < fuel + m.at
      → Held I (skip_until d.script fuel req m)
  unfolding skip_until
  skip_until-Held zero req m h enough = absurd (omega (arith, h.inside))
  skip_until-Held (suc fuel) req m h enough =
      Held-fetch fuel req (skip_until-Held fuel req) m enough _ (next_op-Fetched c d lo m h)

  Held-next :
      (r : Result Fault (Unit {0} × Machine))
      → Held I r
      → Held I (elim r [ ok (_, m') ↦ ok (next, m') | err e ↦ err e ])
  Held-next r (held _ m h) = held next m h
  Held-next r (failed e) = failed e

  pub Keeps-skip_branch : Keeps I (skip_branch d)
  unfolding skip_branch
  Keeps-skip_branch = record {
    runs = λ m h. Held-next _ (skip_until-Held _ m.if_marker m h (omega arith));
  }

  -- An account that passes `require_account` is live.
  data Admits (id : AccountId) (m : Machine) : Result Fault (Unit {0} × Machine) → Type 0 where
    live : IsLive d id → Admits id m (ok (tt, m))
    refused : (e : EvalErr) → Admits id m (err (eval_err e))

  Admits-require_account : (id : AccountId) (m : Machine) → Admits id m (require_account d id m)
  unfolding require_account live_account
  Admits-require_account id m = elim (Option-cases (d.chain.get_account id d.additional_receipts)) [
    | inl e ↦ rw (e, require_account) (refused _)
    | inr (acc, e) ↦ elim (Bool-cases acc.destroyed) [
      | inl gone ↦ rw (e, gone, require_account, live_account) (refused _)
      | inr stays ↦ rw (e, stays, require_account, live_account) (live (acc, e, stays))
    ]
  ]

  Held-Admits :
      {A : Type 0} (id : AccountId) (m : Machine) (f : Unit {0} → Step A)
      → (r : Result Fault (Unit {0} × Machine)) → Admits id m r
      → (IsLive d id → Held I (f tt m))
      → Held I (elim r [ ok (a, m') ↦ f a m' | err e ↦ err e ])
  Held-Admits id m f r (live l) k = k l
  Held-Admits id m f r (refused e) k = failed e

  logged :
      (m : Machine) (entry : LogEntry) (rest : Asset)
      → I m
      → IsSound d entry
      → (log_sum (entry ∷ []) +ℤ rest.amount ≡ m.remaining_amt.amount)
      → (pos 0 ≤ℤ (total_amt d.tx).amount → pos 0 ≤ℤ rest.amount)
      → I (record m { remaining_amt = rest; log = m.log ++ (entry ∷ []) })
  logged m entry rest h good e k = record {
    after = h.after;
    inside = h.inside;
    spent =
        rw (log_sum-append m.log (entry ∷ []))
          (+ℤ_assoc (log_sum m.log) (log_sum (entry ∷ [])) rest.amount ∙ rw (e) h.spent);
    left = k;
    sound = All-append (IsSound d) m.log (entry ∷ []) h.sound (good, tt);
    bounded = h.bounded;
  }

  Inv-sent :
      (m : Machine) (to : AccountId) (amt rest : Asset)
      → I m
      → IsLive d to
      → pos 0 ≤ℤ amt.amount
      → amt.amount ≤ℤ m.remaining_amt.amount
      → checked_sub m.remaining_amt amt ≡ some rest
      → I (record m { remaining_amt = rest; log = m.log ++ (LogEntry.transfer to amt ∷ []) })
  Inv-sent m to amt rest h l nonneg within e =
      logged m (LogEntry.transfer to amt) rest h (nonneg, l)
        (rw (((checked_sub_iff m.remaining_amt amt rest).0 e).0) (omega int_laws))
        (λ _. rw (((checked_sub_iff m.remaining_amt amt rest).0 e).0) (omega int_laws))

  pub Keeps-send_funds : (to : AccountId) (amt : Asset) → Keeps I (send_funds d to amt)
  unfolding send_funds
  Keeps-send_funds to amt = record {
    runs = λ m h.
        elim (Bool-cases (ltb_ℤ amt.amount (pos 0) || ltb_ℤ m.remaining_amt.amount amt.amount)) [
          | inl bad ↦ rw (bad, send_funds) (failed _)
          | inr good ↦
              rw (good, send_funds)
                (Held-Admits to m _ _ (Admits-require_account to m) (λ l.
                  elim (Option-cases (checked_sub m.remaining_amt amt)) [
                    | inl e ↦ rw (e) (failed _)
                    | inr (rest, e) ↦
                        rw (e)
                          (held next _ (Inv-sent m to amt rest h l (ground arith) (ground arith) e))
                  ]))
        ];
  }

  Held-destroyed : (m : Machine) (to : AccountId) → I m → IsLive d to → Held I (log_destroy to m)
  unfolding log_destroy
  Held-destroyed m to h l =
      held tt _ (logged m (LogEntry.destroy to) m.remaining_amt h l (omega int_laws) h.left)

  pub Keeps-destroy_for : (to : AccountId) → Keeps I (destroy_for d to)
  unfolding destroy_for
  Keeps-destroy_for to = record {
    runs = λ m h. Held-Admits to m _ _ (Admits-require_account to m) (λ l.
        Held-then _ _ (Held-destroyed m to h l) (λ _.
          Keeps-bind I _ _ (Keeps-push c d lo OpFrame.push_true) (λ _.
            Keeps-bind I _ _ (Keeps-set_marker c d lo (λ _. pos 0)) (λ _. Keeps-pure I stop))));
  }
