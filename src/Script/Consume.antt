-- ===== src/Script/Consume.antt =====
-- How a script run ends, and steps over its bytes from a position
-- (crates/godcoin/src/script/engine.rs).
use godcoin.Base.{ℕ, ◌%◌, ◌^◌, Bytes, Result, ok, err}
use godcoin.Script.Op.{EvalErr, EvalErrKind}

-- The ends without a log: an error of the source, a panic, or, in the model alone, too little fuel.
pub data Fault : Type 0 where
  eval_err : EvalErr → Fault
  panic out_of_fuel : Fault

-- `new_err`: the position is cast to a `u32`.
abbrev pub new_err : ℕ → EvalErrKind → Fault
new_err pos kind = eval_err (record { pos = pos % 2 ^ 32; err = kind })

abbrev pub Consume : Type 0 → Type 0
Consume A = Bytes → ℕ → Result Fault (A × ℕ)

abbrev pub pure : {A : Type 0} → A → Consume A
pure a script pos = ok (a, pos)

abbrev pub fail : {A : Type 0} → EvalErrKind → Consume A
fail kind script pos = err (new_err pos kind)

infixl 5 ◌>>=◌
abbrev pub ◌>>=◌ : {A B : Type 0} → Consume A → (A → Consume B) → Consume B
◌>>=◌ m f script pos = elim (m script pos) [ ok (a, pos') ↦ f a script pos' | err e ↦ err e ]
