-- ===== src/Engine/Run.antt =====
-- A whole run: `eval` and `call_fn` (crates/godcoin/src/script/engine.rs).
use godcoin.Base.{
  ℕ, zero, suc, ◌+◌, List, [], ◌∷◌, ◌++◌, Bytes, true, false, Option, some, none, Result, ok, err,
  if◌then◌else◌, length,
}
use godcoin.Base.Int.{pos, ltb_ℤ}
use godcoin.Crypto.{Crypto}
use godcoin.Serializer.Read.{take_u64, take_asset}
use godcoin.Script.Op.{AccountId, Arg, OpFrame, EvalErrKind}
use godcoin.Script.Stack.{pop_bool}
use godcoin.Script.Header.{get_fn_ptr}
use godcoin.Script.Consume.{Fault, out_of_fuel, new_err}
use godcoin.Tx.Types.{
  TxVariant, owner_tx, mint_tx, create_account_tx, update_account_tx, transfer_tx,
}
use godcoin.Receipt.Types.{LogEntry}
use godcoin.Engine.Machine.{
  EngineData, Machine, Step, pure, throw, on_stack, push_frame, next_op, machine_new, ◌>>◌,
}
use godcoin.Engine.Exec.{next, stop, exec}

-- The function that a transaction calls, and its arguments.
abbrev pub called_fn : TxVariant → ℕ
called_fn (transfer_tx tx) = tx.call_fn
called_fn (owner_tx tx) = 0
called_fn (mint_tx tx) = 0
called_fn (create_account_tx tx) = 0
called_fn (update_account_tx tx) = 0

abbrev pub call_args : TxVariant → Bytes
call_args (transfer_tx tx) = tx.args
call_args (owner_tx tx) = []
call_args (mint_tx tx) = []
call_args (create_account_tx tx) = []
call_args (update_account_tx tx) = []

-- The loop that puts the arguments on the stack.
unfoldable pub load_args : List Arg → Bytes → Step (Unit {0})
load_args [] cur = pure tt
load_args (Arg.account_id ∷ args) cur = elim (take_u64 cur) [
  | ok (id, cur') ↦ (push_frame (OpFrame.push_account_id id) >> load_args args cur')
  | err e ↦ throw EvalErrKind.arg_deserialization
]
load_args (Arg.asset ∷ args) cur = elim (take_asset cur) [
  | ok (a, cur') ↦ (push_frame (OpFrame.push_asset a) >> load_args args cur')
  | err e ↦ throw EvalErrKind.arg_deserialization
]

-- The `while let` loop; a round takes a byte at least.
unfoldable pub loop : Crypto → EngineData → ℕ → Machine → Result Fault (Unit {0} × Machine)
loop c d zero m = err out_of_fuel
loop c d (suc fuel) m = elim (next_op d.script m) [
  | err e ↦ err e
  | ok (none, m') ↦ ok (tt, m')
  | ok (some op, m') ↦ elim (exec c d op m') [
    | err e ↦ err e
    | ok (stop, m'') ↦ ok (tt, m'')
    | ok (next, m'') ↦ loop c d fuel m''
  ]
]

unfoldable pub get_last? : List LogEntry → Option LogEntry
get_last? [] = none
get_last? (entry ∷ []) = some entry
get_last? (entry ∷ more ∷ log) = get_last? (more ∷ log)

-- Who gets what a transfer has left: the heir of a destroyed account, or else the sender.
unfoldable pub remainder_to : AccountId → Option LogEntry → AccountId
remainder_to from (some (LogEntry.destroy to_acc)) = to_acc
remainder_to from _ = from

unfoldable pub send_remainder : TxVariant → Machine → Result Fault (List LogEntry)
send_remainder (transfer_tx tx) m =
    ok (m.log ++ (LogEntry.transfer (remainder_to tx.from (get_last? m.log)) m.remaining_amt ∷ []))
send_remainder _ m = err (new_err m.at EvalErrKind.invalid_amount)

-- The end of `call_fn`, after the loop.
unfoldable pub finish : EngineData → Machine → Result Fault (List LogEntry)
finish d m =
    if ltb_ℤ (pos 0) m.if_marker
    then err (new_err m.at EvalErrKind.unexpected_eof)
    else elim (on_stack pop_bool m) [
      | err e ↦ err e
      | ok (false, m') ↦ err (new_err m'.at EvalErrKind.script_ret_false)
      | ok (true, m') ↦
          if ltb_ℤ (pos 0) m'.remaining_amt.amount then send_remainder d.tx m' else ok m'.log
    ]

-- The `match` on the operation at the entry point: only `OpDefine` may stand there.
unfoldable pub enter_at :
    EngineData → Result Fault (Option OpFrame × Machine) → Result Fault (Unit {0} × Machine)
enter_at d (err e) = err e
enter_at d (ok (some (OpFrame.op_define args), m)) = load_args args (call_args d.tx) m
enter_at d (ok (_, m)) = err (new_err m.at EvalErrKind.invalid_entry_point)

-- The lookup of the function and its entry point.
unfoldable pub enter : EngineData → ℕ → Step (Unit {0})
enter d fn_id m = elim (get_fn_ptr d.script fn_id) [
  | err e ↦ err (new_err m.at EvalErrKind.header_read_err)
  | ok none ↦ err (new_err m.at EvalErrKind.unknown_fn)
  | ok (some ptr) ↦ enter_at d (next_op d.script (record m { at = ptr }))
]

unfoldable pub call_fn : Crypto → EngineData → ℕ → Result Fault (List LogEntry)
call_fn c d fn_id = elim (enter d fn_id (machine_new d)) [
  | err e ↦ err e
  | ok (_, m) ↦ elim (loop c d (length d.script.code + 1) m) [
    | err e ↦ err e
    | ok (_, m') ↦ finish d m'
  ]
]

unfoldable pub eval : Crypto → EngineData → Result Fault (List LogEntry)
eval c d = call_fn c d (called_fn d.tx)
