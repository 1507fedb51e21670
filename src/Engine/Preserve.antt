-- ===== src/Engine/Preserve.antt =====
-- Every operation of a script keeps the invariant of the run: `exec` by cases
-- (crates/godcoin/src/script/engine.rs).
use godcoin.Base.{
  ℕ, zero, suc, ◌+◌, Bool, true, false, List, [], ◌∷◌, ◌++◌, Option, some, none, Result, ok, err,
  if◌then◌else◌, ◌==◌,
}
use godcoin.Asset.{Asset}
use godcoin.Crypto.{Crypto}
use godcoin.Script.Op.{AccountId, OpFrame, EvalErrKind}
use godcoin.Script.Stack.{pop_bool, pop_account_id, pop_asset}
use godcoin.Script.Consume.{Fault}
use godcoin.Account.Types.{Account, PermsSigVerifyErr, verify}
use godcoin.Tx.Types.{sigs}
use godcoin.Engine.Machine.{EngineData, Machine, Step, on_stack, ◌>>=◌}
use godcoin.Engine.Exec.{
  Flow, next, stop, exec, on_account, on_verify, count_accs, check_acc_perms, pop_accounts,
  arithmetic_op, push_next, fail_unless, transfer_op, sender_of, destroy_op, if_op, else_op,
}
use godcoin.Engine.Keeps.{
  Held, held, Keeps, Keeps-bind, Keeps-pure, Keeps-throw, Keeps-or_throw, Keeps-if, pop_bool-Popped,
  pop_account_id-Popped, pop_asset-Popped,
}
use godcoin.Engine.Invariant.{Inv, Keeps-pop, Keeps-push, Keeps-set_marker, Keeps-set_ignore_else}
use godcoin.Engine.Kept.{Keeps-skip_branch, Keeps-send_funds, Keeps-destroy_for}

module _ (c : Crypto) (d : EngineData) (lo : ℕ) where
  abbrev I : Machine → Type 0
  I = Inv d lo

  Keeps-pop_account_id : Keeps I (on_stack pop_account_id)
  Keeps-pop_account_id = Keeps-pop c d lo _ pop_account_id-Popped

  Keeps-pop_asset : Keeps I (on_stack pop_asset)
  Keeps-pop_asset = Keeps-pop c d lo _ pop_asset-Popped

  pub Keeps-pop_bool : Keeps I (on_stack pop_bool)
  Keeps-pop_bool = Keeps-pop c d lo _ pop_bool-Popped

  Keeps-on_account :
      {A : Type 0} (f : Account → Step A) (o : Option Account)
      → ((acc : Account) → Keeps I (f acc))
      → Keeps I (on_account f o)
  Keeps-on_account f none k = Keeps-throw I _
  Keeps-on_account f (some acc) k = k acc

  Keeps-on_verify :
      (s t : Step (Option ℕ)) (r : Result PermsSigVerifyErr (Unit {0}))
      → Keeps I s
      → Keeps I t
      → Keeps I (on_verify s t r)
  Keeps-on_verify s t (ok _) p q = p
  Keeps-on_verify s t (err PermsSigVerifyErr.insufficient_threshold) p q = Keeps-pure I none
  Keeps-on_verify s t (err PermsSigVerifyErr.invalid_sig) p q = Keeps-pure I none
  Keeps-on_verify s t (err PermsSigVerifyErr.no_matching_sigs) p q = q

  Keeps-count_accs : (accs : List AccountId) (count : ℕ) → Keeps I (count_accs c d accs count)
  unfolding count_accs
  Keeps-count_accs [] count = Keeps-pure I (some count)
  Keeps-count_accs (id ∷ accs) count =
      Keeps-on_account _ (d.chain.get_account id d.additional_receipts) (λ account.
        Keeps-on_verify _ _ (verify c d.txid.bytes account.permissions (sigs d.tx))
          (Keeps-count_accs accs (count + 1)) (Keeps-count_accs accs count))

  Keeps-check_acc_perms :
      (threshold : ℕ) (accs : List AccountId) → Keeps I (check_acc_perms c d threshold accs)
  unfolding check_acc_perms
  Keeps-check_acc_perms threshold accs = Keeps-if I _ _ _ (Keeps-pure I true) (
      Keeps-if I _ _ _ (Keeps-pure I false)
        (Keeps-bind I _ _ (Keeps-count_accs accs 0) (λ count. Keeps-pure I _)))

  Keeps-pop_accounts : (n : ℕ) (accs : List AccountId) → Keeps I (pop_accounts n accs)
  unfolding pop_accounts
  Keeps-pop_accounts zero accs = Keeps-pure I accs
  Keeps-pop_accounts (suc n) accs =
      Keeps-bind I _ _ Keeps-pop_account_id (λ acc. Keeps-pop_accounts n (accs ++ (acc ∷ [])))

  Keeps-push_next : (op : OpFrame) → Keeps I (push_next op)
  unfolding push_next
  Keeps-push_next op = Keeps-bind I _ _ (Keeps-push c d lo op) (λ _. Keeps-pure I next)

  Keeps-arithmetic_op : (f : Asset → Asset → Option Asset) → Keeps I (arithmetic_op f)
  unfolding arithmetic_op
  Keeps-arithmetic_op f = Keeps-bind I _ _ Keeps-pop_asset (λ b.
      Keeps-bind I _ _ Keeps-pop_asset (λ a.
        Keeps-bind I _ _ (Keeps-or_throw I _ _)
          (λ res. Keeps-bind I _ _ (Keeps-push c d lo _) (λ _. Keeps-pure I next))))

  Keeps-fail_unless : (b : Bool) → Keeps I (fail_unless b)
  unfolding fail_unless
  Keeps-fail_unless true = Keeps-pure I next
  Keeps-fail_unless false = Keeps-throw I _

  Keeps-transfer_op : Keeps I (transfer_op d)
  unfolding transfer_op
  Keeps-transfer_op =
      Keeps-bind I _ _ Keeps-pop_asset
        (λ amt. Keeps-bind I _ _ Keeps-pop_account_id (λ to. Keeps-send_funds c d lo to amt))

  Keeps-destroy_op : Keeps I (destroy_op d)
  unfolding destroy_op
  Keeps-destroy_op = Keeps-bind I _ _ Keeps-pop_account_id (λ to.
      Keeps-bind I _ _ (Keeps-or_throw I (sender_of d.tx) EvalErrKind.aborted) (λ from.
        Keeps-if I (to == from) _ _ (Keeps-throw I EvalErrKind.aborted)
          (Keeps-destroy_for c d lo to)))

  Keeps-if_op : Keeps I (if_op d)
  unfolding if_op
  Keeps-if_op = Keeps-bind I _ _ (Keeps-set_marker c d lo _) (λ _.
      Keeps-bind I _ _ Keeps-pop_bool (λ b.
        Keeps-bind I _ _ (Keeps-set_ignore_else c d lo b)
          (λ _. Keeps-if I _ _ _ (Keeps-pure I next) (Keeps-skip_branch c d lo))))

  Held-if :
      {A : Type 0} (b : Bool) (r r' : Result Fault (A × Machine))
      → Held I r
      → Held I r'
      → Held I (if b then r else r')
  Held-if true r r' p q = p
  Held-if false r r' p q = q

  Keeps-else_op : Keeps I (else_op d)
  unfolding else_op
  Keeps-else_op = record {
    runs = λ m h. Held-if m.ignore_else _ _ ((Keeps-skip_branch c d lo).runs m h) (held next m h);
  }

  Keeps-perms :
      (n : ℕ) (accs : List AccountId) (k : Bool → Step Flow)
      → ((b : Bool) → Keeps I (k b))
      → Keeps I (check_acc_perms c d n accs >>= k)
  Keeps-perms n accs k h = Keeps-bind I _ _ (Keeps-check_acc_perms n accs) h

  pub Keeps-exec : (op : OpFrame) → Keeps I (exec c d op)
  unfolding exec
  Keeps-exec (OpFrame.op_define args) = Keeps-pure I stop
  Keeps-exec OpFrame.op_transfer = Keeps-transfer_op
  Keeps-exec OpFrame.op_destroy = Keeps-destroy_op
  Keeps-exec OpFrame.push_false = Keeps-push_next _
  Keeps-exec OpFrame.push_true = Keeps-push_next _
  Keeps-exec (OpFrame.push_account_id id) = Keeps-push_next _
  Keeps-exec (OpFrame.push_asset a) = Keeps-push_next _
  Keeps-exec OpFrame.op_load_amt = Keeps-push_next _
  Keeps-exec OpFrame.op_load_rem_amt = record { runs = λ m h. (Keeps-push_next _).runs m h }
  Keeps-exec OpFrame.op_add = Keeps-arithmetic_op _
  Keeps-exec OpFrame.op_sub = Keeps-arithmetic_op _
  Keeps-exec OpFrame.op_mul = Keeps-arithmetic_op _
  Keeps-exec OpFrame.op_div = Keeps-arithmetic_op _
  Keeps-exec OpFrame.op_not = Keeps-bind I _ _ Keeps-pop_bool (λ b. Keeps-push_next _)
  Keeps-exec OpFrame.op_if = Keeps-if_op
  Keeps-exec OpFrame.op_else = Keeps-else_op
  Keeps-exec OpFrame.op_end_if =
      Keeps-bind I _ _ (Keeps-set_marker c d lo _) (λ _. Keeps-pure I next)
  Keeps-exec OpFrame.op_return =
      Keeps-bind I _ _ (Keeps-set_marker c d lo _) (λ _. Keeps-pure I stop)
  Keeps-exec OpFrame.op_abort = Keeps-throw I _
  Keeps-exec OpFrame.op_check_perms =
      Keeps-bind I _ _ Keeps-pop_account_id (λ acc. Keeps-perms _ _ _ (λ b. Keeps-push_next _))
  Keeps-exec OpFrame.op_check_perms_fast_fail =
      Keeps-bind I _ _ Keeps-pop_account_id (λ acc. Keeps-perms _ _ _ Keeps-fail_unless)
  Keeps-exec (OpFrame.op_check_multi_perms threshold n) =
      Keeps-bind I _ _ (Keeps-pop_accounts n [])
        (λ accs. Keeps-perms _ _ _ (λ b. Keeps-push_next _))
  Keeps-exec (OpFrame.op_check_multi_perms_fast_fail threshold n) =
      Keeps-bind I _ _ (Keeps-pop_accounts n []) (λ accs. Keeps-perms _ _ _ Keeps-fail_unless)
  Keeps-exec (OpFrame.op_check_time time) = Keeps-push_next _
  Keeps-exec (OpFrame.op_check_time_fast_fail time) = Keeps-fail_unless _
