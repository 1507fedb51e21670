-- ===== src/Engine/Machine.antt =====
-- The state of the script engine and its steps (crates/godcoin/src/script/engine.rs). The engine reads
-- the blockchain through `ChainView`, which godcoin.Chain fills.
use godcoin.Base.{ℕ, Bool, false, List, [], Option, some, none, Result, ok, err}
use godcoin.Base.Int.{ℤ, pos}
use godcoin.Asset.{Asset, asset_default}
use godcoin.Crypto.{Digest}
use godcoin.Script.Op.{AccountId, Script, OpFrame, EvalErrKind}
use godcoin.Script.Stack.{Stack, push}
use godcoin.Script.Consume.{Fault, new_err}
use godcoin.Script.Decode.{consume_op}
use godcoin.Account.Types.{Account}
use godcoin.Tx.Types.{
  TxVariant, owner_tx, mint_tx, create_account_tx, update_account_tx, transfer_tx,
}
use godcoin.Receipt.Types.{LogEntry, Receipt}

-- What the engine asks of the chain: an account as of the receipts of the current block, and the time
-- of the last block.
pub record ChainView : Type 0 where
  pub get_account : AccountId → List Receipt → Option Account
  pub head_timestamp : ℕ

pub record EngineData : Type 0 where
  pub script : Script
  pub tx : TxVariant
  pub txid : Digest
  pub chain : ChainView
  pub additional_receipts : List Receipt

-- What changes during a run; the two flags are locals of `call_fn`.
pub record Machine : Type 0 where
  pub at : ℕ
  pub stack : Stack
  pub log : List LogEntry
  pub remaining_amt : Asset
  pub if_marker : ℤ
  pub ignore_else : Bool

abbrev pub total_amt : TxVariant → Asset
total_amt (transfer_tx tx) = tx.amount
total_amt (owner_tx tx) = asset_default
total_amt (mint_tx tx) = asset_default
total_amt (create_account_tx tx) = asset_default
total_amt (update_account_tx tx) = asset_default

-- `ScriptEngine::new`.
abbrev pub machine_new : EngineData → Machine
machine_new d = record {
  at = 0;
  stack = [];
  log = [];
  remaining_amt = total_amt d.tx;
  if_marker = pos 0;
  ignore_else = false;
}

abbrev pub Step : Type 0 → Type 0
Step A = Machine → Result Fault (A × Machine)

abbrev pub pure : {A : Type 0} → A → Step A
pure a m = ok (a, m)

infixl 5 ◌>>=◌ ◌>>◌
abbrev pub ◌>>=◌ : {A B : Type 0} → Step A → (A → Step B) → Step B
◌>>=◌ s f m = elim (s m) [ ok (a, m') ↦ f a m' | err e ↦ err e ]

abbrev pub ◌>>◌ : {A B : Type 0} → Step A → Step B → Step B
a >> b = a >>= λ _. b

-- `Err(self.new_err(kind))`.
abbrev pub throw : {A : Type 0} → EvalErrKind → Step A
throw kind m = err (new_err m.at kind)

abbrev pub or_throw : {A : Type 0} → Option A → EvalErrKind → Step A
or_throw (some a) kind = pure a
or_throw none kind = throw kind

-- `map_err_type!` on a call of the stack.
abbrev pub on_stack : {A : Type 0} → (Stack → Result EvalErrKind (A × Stack)) → Step A
on_stack f m = elim (f m.stack) [
  | ok (a, stack) ↦ ok (a, record m { stack = stack })
  | err kind ↦ err (new_err m.at kind)
]

abbrev pub push_frame : OpFrame → Step (Unit {0})
push_frame op m = elim (push m.stack op) [
  | ok stack ↦ ok (tt, record m { stack = stack })
  | err kind ↦ err (new_err m.at kind)
]

-- `self.consume_op()`.
unfoldable pub next_op : Script → Step (Option OpFrame)
next_op script m = elim (consume_op script.code m.at) [
  | ok (op, at) ↦ ok (op, record m { at = at })
  | err e ↦ err e
]
