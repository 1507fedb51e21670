-- ===== src/Engine/PastEnd.antt =====
-- A function table that points past the end of its script (crates/godcoin/src/script/engine.rs).
use godcoin.Base.{◌<◌, ◌≡◌, ◌↔◌, refl, List, Result, some, ok, err, length, ℕ}
use godcoin.Crypto.{Crypto}
use godcoin.Script.Header.{get_fn_ptr}
use godcoin.Script.Consume.{Fault, panic}
use godcoin.Receipt.Types.{LogEntry}
use godcoin.Engine.Settle.{Ended, settled, lost, crashed, eval-Ended}
use godcoin.Script.Progress.{consume_op_past_end}
use godcoin.Engine.Machine.{EngineData, next_op}
use godcoin.Engine.Run.{called_fn, enter_at, enter, call_fn, eval}

panic_past :
    (c : Crypto) (d : EngineData) (ptr : ℕ)
    → get_fn_ptr d.script (called_fn d.tx) ≡ ok (some ptr)
    → length d.script.code < ptr
    → eval c d ≡ err panic
unfolding eval call_fn enter enter_at next_op
panic_past c d ptr known past =
    rw (eval, call_fn, enter, known, next_op, consume_op_past_end d.script.code ptr past) refl

past_of_panic :
    (d : EngineData) (r : Result Fault (List LogEntry))
    → Ended d r
    → r ≡ err panic
    → (ptr : ℕ) × (get_fn_ptr d.script (called_fn d.tx) ≡ ok (some ptr))
      × (length d.script.code < ptr)
past_of_panic d r (settled log p) e = absurd cc
past_of_panic d r (lost x) e = absurd cc
past_of_panic d r (crashed ptr known over) e = (ptr, known, over)

-- The run of a script panics exactly where the function table of the script has the called function at a
-- position past the end of the script.
pub eval-panic_iff :
    (c : Crypto) (d : EngineData)
    → (eval c d ≡ err panic) ↔ (
        (ptr : ℕ) × (get_fn_ptr d.script (called_fn d.tx) ≡ ok (some ptr))
        × (length d.script.code < ptr))
eval-panic_iff c d = (
  past_of_panic d (eval c d) (eval-Ended c d),
  λ (ptr, known, past). panic_past c d ptr known past,
)
