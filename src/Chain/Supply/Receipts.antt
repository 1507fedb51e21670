-- ===== src/Chain/Supply/Receipts.antt =====
-- What indexing a receipt does to the money in the accounts and to the token supply
-- (crates/godcoin/src/blockchain/mod.rs).
use godcoin.Base.{◌≡◌, refl, ap, ◌∙◌, true, false, List, [], ◌∷◌, Option, some, none, ok}
use godcoin.Base.Int.{+ℤ_assoc, ℤ, pos, ◌+ℤ◌, ◌-ℤ◌, int_laws}
use godcoin.Asset.{asset_default}
use godcoin.Asset.Arith.{checked_add_iff, checked_sub_iff}
use godcoin.Script.Op.{AccountId, Script}
use godcoin.Account.Types.{Account, Permissions}
use godcoin.Tx.Types.{
  TxVariant, UpdateAccountTx, TransferTx, owner_tx, mint_tx, create_account_tx, update_account_tx,
  transfer_tx, base,
}
use godcoin.Receipt.Types.{LogEntry}
use godcoin.Engine.Invariant.{log_sum}
use godcoin.Chain.Index.{WriteBatch, put_account, get_account_mut}
use godcoin.Chain.Accounts.{new_script_of, new_permissions_of}
use godcoin.Chain.Execute.{creates}
use godcoin.Chain.Apply.{index_entry, index_log, index_receipt}
use godcoin.Chain.Inversion.{bind_ok-elim, unwrap_ok}
use godcoin.Chain.Supply.Ledger.{Lists, Table, view, total, occurrences}
use godcoin.Chain.Supply.Moves.{
  supply, Effect, Effect-trans, Effect-put, with_change, add_bal-Effect, sub_bal-Effect,
}

-- What a receipt adds to the token supply.
abbrev pub minted : TxVariant → ℤ
minted (owner_tx tx) = pos 0
minted (mint_tx tx) = tx.amount.amount
minted (create_account_tx tx) = pos 0
minted (update_account_tx tx) = pos 0
minted (transfer_tx tx) = pos 0

-- A receipt that keeps the money: the owner's transactions are free, and a transfer's log pays out its
-- amount.
abbrev pub IsSettled : TxVariant → List LogEntry → Type 0
IsSettled (owner_tx tx) log = tx.base.fee.amount ≡ pos 0
IsSettled (mint_tx tx) log = tx.base.fee.amount ≡ pos 0
IsSettled (create_account_tx tx) log = Unit {0}
IsSettled (update_account_tx tx) log = Unit {0}
IsSettled (transfer_tx tx) log = log_sum log ≡ tx.amount.amount

-- An account that a receipt creates is new to the table, and stands in the list once.
abbrev pub IsFresh : List AccountId → Table → TxVariant → Type 0
IsFresh ids f (create_account_tx tx) =
    (f tx.account.id ≡ none) × (occurrences tx.account.id ids ≡ 1)
IsFresh ids f _ = Unit {0}

-- The money goes up by what is minted, and down by the fee, which waits for the block's rewards.
pub record Booked (ids : List AccountId) (b b' : WriteBatch) (tx : TxVariant) : Type 0 where
  pub balanced : total ids (view b') +ℤ (base tx).fee.amount ≡ total ids (view b) +ℤ minted tx
  pub lists : Lists ids (view b')
  pub absent :
      (id : AccountId)
      → creates id (record { tx = tx; log = [] } ∷ []) ≡ false
      → view b id ≡ none
      → view b' id ≡ none
  pub supplied : (supply b').amount ≡ (supply b).amount +ℤ minted tx
  pub index_kept : b'.indexer ≡ b.indexer

log_sum-cons :
    (entry : LogEntry) (log : List LogEntry)
    → log_sum (entry ∷ []) +ℤ log_sum log ≡ log_sum (entry ∷ log)
log_sum-cons (LogEntry.transfer to amount) log = omega int_laws
log_sum-cons (LogEntry.destroy to) log = omega int_laws

Effect-refl : (ids : List AccountId) (b : WriteBatch) → Lists ids (view b) → Effect ids b b (pos 0)
Effect-refl ids b lists = record {
  moved = omega int_laws;
  lists = lists;
  absent = λ id h. h;
  supply_kept = refl;
  index_kept = refl;
}

pays_back : (fee amount : ℤ) → pos 0 -ℤ (fee +ℤ amount) +ℤ amount +ℤ fee ≡ pos 0
pays_back fee amount = omega int_laws

pays_fee : (balance fee : ℤ) → balance -ℤ fee -ℤ balance +ℤ fee ≡ pos 0
pays_fee balance fee = omega int_laws

module _ {E : Type 0} (ids : List AccountId) where
  index_entry-Effect :
      (from : AccountId) (b b' : WriteBatch) (entry : LogEntry)
      → Lists ids (view b)
      → index_entry {E = E} from b entry ≡ ok b'
      → Effect ids b b' (log_sum (entry ∷ []))
  unfolding index_entry get_account_mut
  index_entry-Effect from b b' (LogEntry.transfer to amount) lists e =
      with_change (omega int_laws) (add_bal-Effect ids b b' to amount lists e)
  index_entry-Effect from b b' (LogEntry.destroy to) lists e =
      bind_ok-elim _ _ b' e (λ acc found e1.
        let dead = record acc { destroyed = true; balance = asset_default } in
        let emptied = Effect-put ids b from acc dead lists (unwrap_ok (view b from) acc found) in
        with_change (omega int_laws) (
          Effect-trans ids b (put_account b from dead) b' _ _ emptied
            (add_bal-Effect ids (put_account b from dead) b' to acc.balance emptied.lists e1)))

  index_log-Effect :
      (from : AccountId) (b b' : WriteBatch) (log : List LogEntry)
      → Lists ids (view b)
      → index_log {E = E} from b log ≡ ok b'
      → Effect ids b b' (log_sum log)
  unfolding index_log
  index_log-Effect from b b' [] lists e =
      let same : b' ≡ b = cc in rw same (Effect-refl ids b lists)
  index_log-Effect from b b' (entry ∷ log) lists e =
      bind_ok-elim (index_entry from b entry) (λ b1. index_log from b1 log) b' e
        (λ b1 first rest.
          let one = index_entry-Effect from b b1 entry lists first in
          with_change (log_sum-cons entry log)
            (Effect-trans ids b b1 b' _ _ one (index_log-Effect from b1 b' log one.lists rest)))

-- Where nothing is minted, the change and the fee make up for each other.
pub Effect-Booked :
    (ids : List AccountId) (b b' : WriteBatch) (tx : TxVariant) (change : ℤ)
    → Effect ids b b' change
    → change +ℤ (base tx).fee.amount ≡ pos 0
    → minted tx ≡ pos 0
    → Booked ids b b' tx
Effect-Booked ids b b' tx change h e none_minted = record {
  balanced = rw (h.moved, none_minted) (regroup _ _ _ e);
  lists = h.lists;
  absent = λ id _ k. h.absent id k;
  supplied = rw (h.supply_kept, none_minted) (omega int_laws);
  index_kept = h.index_kept;
}
  where
    regroup : (t d f : ℤ) → d +ℤ f ≡ pos 0 → t +ℤ d +ℤ f ≡ t +ℤ pos 0
    regroup t d f h = +ℤ_assoc t d f ∙ ap (λ (x : ℤ). t +ℤ x) h

kept_balance :
    (acc : Account) (script : Option Script) (perms : Option Permissions)
    → (new_permissions_of perms (new_script_of script acc)).balance ≡ acc.balance
unfolding new_script_of new_permissions_of
kept_balance acc none none = refl
kept_balance acc none (some p) = refl
kept_balance acc (some c) none = refl
kept_balance acc (some c) (some p) = refl

module _ {E : Type 0} (ids : List AccountId) (b b' : WriteBatch) (lists : Lists ids (view b)) where
  pub transfer-Booked :
      (tx : TransferTx) (log : List LogEntry)
      → IsSettled (transfer_tx tx) log
      → index_receipt {E = E} b (record { tx = transfer_tx tx; log = log }) ≡ ok b'
      → Booked ids b b' (transfer_tx tx)
  unfolding index_receipt
  transfer-Booked tx log settled e = bind_ok-elim _ _ b' e (λ cost summed e1.
      bind_ok-elim _ _ b' e1 (λ b1 paid e2.
        let spent = sub_bal-Effect ids b b1 tx.from cost lists paid in
        let sent = index_log-Effect ids tx.from b1 b' log spent.lists e2 in
        let sum = ((checked_add_iff tx.base.fee tx.amount cost).0 (unwrap_ok _ _ summed)).0 in
        Effect-Booked ids b b' (transfer_tx tx) _ (Effect-trans ids b b1 b' _ _ spent sent)
          (rw (settled, sum) (pays_back tx.base.fee.amount tx.amount.amount)) refl))

  pub update-Booked :
      (tx : UpdateAccountTx) (log : List LogEntry)
      → index_receipt {E = E} b (record { tx = update_account_tx tx; log = log }) ≡ ok b'
      → Booked ids b b' (update_account_tx tx)
  unfolding index_receipt get_account_mut
  update-Booked tx log e = bind_ok-elim _ _ b' e (λ acc found e1.
      bind_ok-elim _ _ b' e1 (λ balance summed e2.
        let rest = ((checked_sub_iff acc.balance tx.base.fee balance).0 (unwrap_ok _ _ summed)).0 in
        let acc' =
          new_permissions_of tx.new_permissions
            (new_script_of tx.new_script (record acc { balance = balance })) in
        let same : b' ≡ put_account b tx.account_id acc' = cc in
        rw same (
          Effect-Booked ids b (put_account b tx.account_id acc') (update_account_tx tx) _
            (Effect-put ids b tx.account_id acc acc' lists
              (unwrap_ok (view b tx.account_id) acc found))
            (rw
              (
                kept_balance (record acc { balance = balance }) tx.new_script tx.new_permissions,
                rest,
              )
              (pays_fee acc.balance.amount tx.base.fee.amount))
            refl)))
