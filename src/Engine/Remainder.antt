-- ===== src/Engine/Remainder.antt =====
-- What a successful run of a script writes to its log, and who gets the remainder
-- (crates/godcoin/src/script/engine.rs).
use godcoin.Base.{◌⊎◌, ◌+◌, ◌≡◌, true, List, [], ◌∷◌, ◌++◌, Result, ok, err, some, length, All}
use godcoin.Base.Int.{pos, ◌+ℤ◌, ◌≤ℤ◌, ◌<ℤ◌}
use godcoin.Crypto.{Crypto}
use godcoin.Script.Op.{AccountId}
use godcoin.Script.Stack.{Stack, pop_bool}
use godcoin.Script.Consume.{Fault}
use godcoin.Receipt.Types.{LogEntry}
use godcoin.Engine.Machine.{EngineData, Machine, machine_new, total_amt}
use godcoin.Engine.Exec.{sender_of}
use godcoin.Engine.Invariant.{IsSound, log_sum}
use godcoin.Engine.Run.{called_fn, loop, get_last?, remainder_to, enter}

-- The run of the called function up to the end of its loop.
abbrev pub function_run : Crypto → EngineData → Result Fault (Unit {0} × Machine)
function_run c d = elim (enter d (called_fn d.tx) (machine_new d)) [
  | err e ↦ err e
  | ok (_, m) ↦ loop c d (length d.script.code + 1) m
]

-- The log of a run: what the machine has logged when its loop ends, and the remainder it has then.
pub record Settled (c : Crypto) (d : EngineData) (log : List LogEntry) : Type 0 where
  pub machine : Machine
  pub ran : function_run c d ≡ ok (tt, machine)
  pub closed : machine.if_marker ≤ℤ pos 0
  pub stack : Stack
  pub returned : pop_bool machine.stack ≡ ok (true, stack)
  pub sound : All (IsSound d) machine.log
  pub spent : log_sum machine.log +ℤ machine.remaining_amt.amount ≡ (total_amt d.tx).amount
  pub split :
      ((machine.remaining_amt.amount ≤ℤ pos 0) × (log ≡ machine.log))
      ⊎ ((from : AccountId) × (sender_of d.tx ≡ some from)
          × (pos 0 <ℤ machine.remaining_amt.amount)
          × (log
              ≡ machine.log
                ++ (LogEntry.transfer
                      (remainder_to from (get_last? machine.log))
                      machine.remaining_amt
                    ∷ [])))
