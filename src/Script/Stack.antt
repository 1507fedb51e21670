-- ===== src/Script/Stack.antt =====
-- The bounded stack (crates/godcoin/src/script/stack.rs), its top first.
use godcoin.Base.{List, [], ◌∷◌, Bool, true, false, Result, ok, err, ltb, if◌then◌else◌, length}
use godcoin.Asset.{Asset}
use godcoin.Script.Op.{OpFrame, EvalErrKind, AccountId, max_frame_stack}

abbrev pub Stack : Type 0
Stack = List OpFrame

-- `Stack::new`.
abbrev pub empty : Stack
empty = []

unfoldable pub push : Stack → OpFrame → Result EvalErrKind Stack
push stack op =
    if ltb (length stack) max_frame_stack then ok (op ∷ stack) else err EvalErrKind.stack_overflow

unfoldable pub pop : Stack → Result EvalErrKind (OpFrame × Stack)
pop [] = err EvalErrKind.stack_underflow
pop (op ∷ stack) = ok (op, stack)

unfoldable pub pop_bool : Stack → Result EvalErrKind (Bool × Stack)
pop_bool [] = err EvalErrKind.stack_underflow
pop_bool (OpFrame.push_false ∷ stack) = ok (false, stack)
pop_bool (OpFrame.push_true ∷ stack) = ok (true, stack)
pop_bool (_ ∷ stack) = err EvalErrKind.invalid_item_on_stack

unfoldable pub pop_account_id : Stack → Result EvalErrKind (AccountId × Stack)
pop_account_id [] = err EvalErrKind.stack_underflow
pop_account_id (OpFrame.push_account_id id ∷ stack) = ok (id, stack)
pop_account_id (_ ∷ stack) = err EvalErrKind.invalid_item_on_stack

unfoldable pub pop_asset : Stack → Result EvalErrKind (Asset × Stack)
pop_asset [] = err EvalErrKind.stack_underflow
pop_asset (OpFrame.push_asset a ∷ stack) = ok (a, stack)
pop_asset (_ ∷ stack) = err EvalErrKind.invalid_item_on_stack
