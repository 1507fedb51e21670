-- ===== src/Engine/Settle.antt =====
-- What a script run guarantees to the chain: it ends, it pays out the whole amount, and to live accounts
-- (crates/godcoin/src/script/engine.rs).
use godcoin.Base.{
  ◌+◌, ◌≡◌, ◌≢◌, refl, sym, ◌∙◌, arith, Bool, true, false, List, [], ◌∷◌, Result, ok, err, length,
  if◌then◌else◌, Bool-cases, inl, inr,
}
use godcoin.Base.Int.{+ℤ_zero, ℤ, pos, ◌+ℤ◌, ◌≤ℤ◌, ltb_ℤ, int_laws, eq_of_parts}
use godcoin.Crypto.{Crypto}
use godcoin.Script.Op.{EvalErr, EvalErrKind}
use godcoin.Script.Consume.{Fault, eval_err, panic, out_of_fuel, new_err}
use godcoin.Tx.Types.{
  TxVariant, owner_tx, mint_tx, create_account_tx, update_account_tx, transfer_tx,
}
use godcoin.Receipt.Types.{LogEntry}
use godcoin.Script.Header.{get_fn_ptr}
use godcoin.Base.{ℕ, some, ◌<◌}
use godcoin.Engine.Machine.{EngineData, Machine, total_amt}
use godcoin.Engine.Exec.{sender_of}
use godcoin.Engine.Keeps.{Held, held, failed}
use godcoin.Engine.Invariant.{Inv, log_sum, log_sum-append}
use godcoin.Engine.Run.{
  called_fn, loop, get_last?, remainder_to, send_remainder, finish, call_fn, eval,
}
use godcoin.Engine.Outcome.{loop-Held, Entered, inside, past, enter-Entered}
use godcoin.Engine.Preserve.{Keeps-pop_bool}

unchanged : (x r : ℤ) → pos 0 ≤ℤ r → r ≤ℤ pos 0 → x +ℤ r ≡ x
unchanged x r lo hi = eq_of_parts (x +ℤ r) x (omega int_laws)

drained : (x r t : ℤ) → x +ℤ r ≡ t → pos 0 ≤ℤ r → ltb_ℤ (pos 0) r ≡ false → x ≡ t
drained x r t e nonneg none_left = sym (unchanged x r nonneg (ground (arith, none_left))) ∙ e

pub data Ended (d : EngineData) : Result Fault (List LogEntry) → Type 0 where
  settled :
      (log : List LogEntry)
      → (pos 0 ≤ℤ (total_amt d.tx).amount → log_sum log ≡ (total_amt d.tx).amount)
      → Ended d (ok log)
  lost : (e : EvalErr) → Ended d (err (eval_err e))
  crashed :
      (ptr : ℕ)
      → get_fn_ptr d.script (called_fn d.tx) ≡ ok (some ptr)
      → length d.script.code < ptr
      → Ended d (err panic)

module _ (c : Crypto) (d : EngineData) where
  all_sent :
      (m : Machine) → Inv d 0 m → ltb_ℤ (pos 0) m.remaining_amt.amount ≡ false → Ended d (ok m.log)
  all_sent m h e = settled m.log (λ k.
      drained (log_sum m.log) m.remaining_amt.amount (total_amt d.tx).amount h.spent (h.left k) e)

  remainder_sent :
      (tx : TxVariant) (m : Machine)
      → d.tx ≡ tx
      → Inv d 0 m
      → ltb_ℤ (pos 0) m.remaining_amt.amount ≡ true
      → Ended d (send_remainder tx m)
  unfolding send_remainder sender_of
  remainder_sent (transfer_tx tx) m e h more = settled _ (λ k.
      rw
        (
          log_sum-append m.log
              (LogEntry.transfer (remainder_to tx.from (get_last? m.log)) m.remaining_amt ∷ []),
          +ℤ_zero m.remaining_amt.amount,
        )
        h.spent)
  remainder_sent (owner_tx tx) m e h more = lost _
  remainder_sent (mint_tx tx) m e h more = lost _
  remainder_sent (create_account_tx tx) m e h more = lost _
  remainder_sent (update_account_tx tx) m e h more = lost _

  Ended-popped :
      (r : Result Fault (Bool × Machine))
      → Held (Inv d 0) r
      → Ended d (elim r as (λ _. Result Fault (List LogEntry)) [
        | err e ↦ err e
        | ok (false, m') ↦ err (new_err m'.at EvalErrKind.script_ret_false)
        | ok (true, m') ↦
            if ltb_ℤ (pos 0) m'.remaining_amt.amount then send_remainder d.tx m' else ok m'.log
      ])
  Ended-popped r (failed e) = lost e
  Ended-popped r (held false m h) = lost _
  Ended-popped r (held true m h) = elim (Bool-cases (ltb_ℤ (pos 0) m.remaining_amt.amount)) [
    | inl more ↦ rw (more) (remainder_sent d.tx m refl h more)
    | inr none_left ↦ rw (none_left) (all_sent m h none_left)
  ]

  finish-Ended : (m : Machine) → Inv d 0 m → Ended d (finish d m)
  unfolding finish
  finish-Ended m h = elim (Bool-cases (ltb_ℤ (pos 0) m.if_marker)) [
    | inl unclosed ↦ rw (unclosed, finish) (lost _)
    | inr closed ↦ rw (closed, finish) (Ended-popped _ ((Keeps-pop_bool c d 0).runs m h))
  ]

  Ended-looped :
      (r : Result Fault (Unit {0} × Machine))
      → Held (Inv d 0) r
      → Ended d (elim r as (λ _. Result Fault (List LogEntry)) [
        | err e ↦ err e
        | ok (_, m') ↦ finish d m'
      ])
  Ended-looped r (failed e) = lost e
  Ended-looped r (held _ m h) = finish-Ended m h

  Ended-after_entry :
      (r : Result Fault (Unit {0} × Machine))
      → Entered c d (called_fn d.tx) r
      → Ended d (elim r as (λ _. Result Fault (List LogEntry)) [
        | err e ↦ err e
        | ok (_, m) ↦ elim (loop c d (length d.script.code + 1) m) [
          | err e ↦ err e
          | ok (_, m') ↦ finish d m'
        ]
      ])
  Ended-after_entry _ (past ptr known over) = crashed ptr known over
  Ended-after_entry _ (inside r (failed e)) = lost e
  Ended-after_entry _ (inside r (held _ m h)) = Ended-looped _ (loop-Held c d _ m h (omega arith))

  pub eval-Ended : Ended d (eval c d)
  unfolding eval call_fn
  eval-Ended = Ended-after_entry _ (enter-Entered c d (called_fn d.tx))

not_out_of_fuel :
    (d : EngineData) (r : Result Fault (List LogEntry)) → Ended d r → r ≢ err out_of_fuel
not_out_of_fuel d r (settled log p) = λ e. cc
not_out_of_fuel d r (lost e) = λ e. cc
not_out_of_fuel d r (crashed ptr known over) = λ e. cc

paid_log :
    (d : EngineData) (r : Result Fault (List LogEntry)) (log : List LogEntry)
    → Ended d r
    → r ≡ ok log
    → pos 0 ≤ℤ (total_amt d.tx).amount
    → log_sum log ≡ (total_amt d.tx).amount
paid_log d r log (settled log' p) e k = let same : log ≡ log' = cc in rw (same) (p k)
paid_log d r log (lost e) e' k = absurd cc
paid_log d r log (crashed ptr known over) e k = absurd cc

-- The run of a script ends: for every script and transaction, the fuel that `call_fn` gives its loop
-- and its skips suffices, so `eval` returns a log, an error of the source or a panic.
pub eval_terminates : (c : Crypto) (d : EngineData) → eval c d ≢ err out_of_fuel
eval_terminates c d = not_out_of_fuel d (eval c d) (eval-Ended c d)

-- A run that succeeds pays out the amount of its transaction to the last unit, when that amount is
-- not negative: the entries of its log sum up to it.
pub eval-pays_all :
    (c : Crypto) (d : EngineData) (log : List LogEntry)
    → pos 0 ≤ℤ (total_amt d.tx).amount
    → eval c d ≡ ok log
    → log_sum log ≡ (total_amt d.tx).amount
eval-pays_all c d log nonneg e = paid_log d (eval c d) log (eval-Ended c d) e nonneg
