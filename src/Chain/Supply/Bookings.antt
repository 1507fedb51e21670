-- ===== src/Chain/Supply/Bookings.antt =====
-- Receipts that are indexed one after the other: the money in the accounts and the token supply
-- (crates/godcoin/src/blockchain/mod.rs).
use godcoin.Base.{
  ◌≡◌, refl, ap, sym, ◌∙◌, arith, false, List, some, none, ok, ◌==◌, Bool-cases, inl, inr,
}
use godcoin.Base.Int.{+ℤ_zero, ℤ, pos, ◌+ℤ◌, ◌-ℤ◌, int_laws}
use godcoin.Asset.Arith.{checked_add_iff}
use godcoin.Script.Op.{AccountId}
use godcoin.Account.Types.{Account}
use godcoin.Tx.Types.{
  TxVariant, OwnerTx, MintTx, CreateAccountTx, owner_tx, mint_tx, create_account_tx,
  update_account_tx, transfer_tx,
}
use godcoin.Receipt.Types.{LogEntry}
use godcoin.Chain.Index.{WriteBatch, insert_or_update_account, add_token_supply, set_owner}
use godcoin.Chain.Execute.{creates}
use godcoin.Chain.Apply.{index_receipt}
use godcoin.Chain.Inversion.{bind_ok-elim, unwrap_ok}
use godcoin.Chain.Supply.Ledger.{
  Lists, Table, view, total, occurrences, write, total-write, view-insert_or_update_account,
}
use godcoin.Chain.Supply.Moves.{supply, add_bal-Effect, sub_bal-Effect}
use mathlib.Core.Path.{subst}
use godcoin.Chain.Supply.Ledger.{Lists-write}
use godcoin.Chain.Supply.Receipts.{IsSettled, IsFresh, Booked, transfer-Booked, update-Booked}

pays_new : (t fee balance : ℤ) → t +ℤ (pos 0 -ℤ (fee +ℤ balance)) +ℤ balance +ℤ fee ≡ t +ℤ pos 0
pays_new t fee balance = omega int_laws

supply-insert_or_update_account :
    (b : WriteBatch) (a : Account) → supply (insert_or_update_account b a) ≡ supply b
unfolding insert_or_update_account
supply-insert_or_update_account b a = refl

index-insert_or_update_account :
    (b : WriteBatch) (a : Account) → (insert_or_update_account b a).indexer ≡ b.indexer
unfolding insert_or_update_account
index-insert_or_update_account b a = refl

total-write_new :
    (ids : List AccountId) (f : Table) (k : AccountId) (a : Account)
    → f k ≡ none
    → occurrences k ids ≡ 1
    → total ids (write f k a) ≡ total ids f +ℤ a.balance.amount
total-write_new ids f k a absent once =
    sym (+ℤ_zero (total ids (write f k a))) ∙ rw absent at (total-write ids f k a once)

write-absent_other :
    (f : Table) (k : AccountId) (a : Account) (id : AccountId)
    → (k == id) ≡ false
    → f id ≡ none
    → write f k a id ≡ none
write-absent_other f k a id other h = elim (Bool-cases (id == k)) [
  | inl same ↦ absurd (ground (arith, same, other))
  | inr differ ↦ rw differ h
]

module _ {E : Type 0} (ids : List AccountId) (b b' : WriteBatch) (lists : Lists ids (view b)) where
  owner-Booked :
      (tx : OwnerTx) (log : List LogEntry)
      → IsSettled (owner_tx tx) log
      → index_receipt {E = E} b (record { tx = owner_tx tx; log = log }) ≡ ok b'
      → Booked ids b b' (owner_tx tx)
  unfolding index_receipt set_owner
  owner-Booked tx log free e =
      let same : b' ≡ record b { owner = some (owner_tx tx) } = cc in
      rw same (record {
        balanced = rw free refl;
        lists = lists;
        absent = λ id _ h. h;
        supplied = omega int_laws;
        index_kept = refl;
      })

  mint-Booked :
      (tx : MintTx) (log : List LogEntry)
      → IsSettled (mint_tx tx) log
      → index_receipt {E = E} b (record { tx = mint_tx tx; log = log }) ≡ ok b'
      → Booked ids b b' (mint_tx tx)
  unfolding index_receipt add_token_supply
  mint-Booked tx log free e = bind_ok-elim _ _ b' e (λ b1 minting e1.
      bind_ok-elim _ _ b1 minting (λ amount summed made.
        let same : b1 ≡ record b { token_supply = some amount } = cc in
        let sum = ((checked_add_iff (supply b) tx.amount amount).0 (unwrap_ok _ _ summed)).0 in
        let paid =
          add_bal-Effect ids (record b { token_supply = some amount }) b' tx.to tx.amount lists
            (rw same at e1) in
        record {
          balanced = rw (paid.moved, free) (+ℤ_zero (total ids (view b) +ℤ tx.amount.amount));
          lists = paid.lists;
          absent = λ id _ h. paid.absent id h;
          supplied = rw (paid.supply_kept) sum;
          index_kept = paid.index_kept;
        }))

  create-Booked :
      (tx : CreateAccountTx) (log : List LogEntry)
      → IsFresh ids (view b) (create_account_tx tx)
      → index_receipt {E = E} b (record { tx = create_account_tx tx; log = log }) ≡ ok b'
      → Booked ids b b' (create_account_tx tx)
  unfolding index_receipt creates
  create-Booked tx log (new, once) e = bind_ok-elim _ _ b' e (λ cost summed e1.
      bind_ok-elim _ _ b' e1 (λ b1 paid e2.
        let spent = sub_bal-Effect ids b b1 tx.creator cost lists paid in
        let sum =
          ((checked_add_iff tx.base.fee tx.account.balance cost).0 (unwrap_ok _ _ summed)).0 in
        let same : b' ≡ insert_or_update_account b1 tx.account = cc in
        rw same (record {
          balanced =
              ap (λ (t : Table). total ids t +ℤ tx.base.fee.amount)
                (view-insert_or_update_account b1 tx.account)
              ∙ rw
                  (
                    total-write_new ids (view b1) tx.account.id tx.account (spent.absent _ new)
                        once,
                    spent.moved,
                    sum,
                  )
                  (pays_new (total ids (view b)) tx.base.fee.amount tx.account.balance.amount);
          lists =
              subst (λ (t : Table). Lists ids t) (sym (view-insert_or_update_account b1 tx.account))
                (Lists-write ids (view b1) tx.account.id tx.account spent.lists once);
          absent = λ id other h.
              ap (λ (t : Table). t id) (view-insert_or_update_account b1 tx.account)
              ∙ write-absent_other (view b1) tx.account.id tx.account id (ground arith)
                  (spent.absent id h);
          supplied =
              rw (supply-insert_or_update_account b1 tx.account, spent.supply_kept)
                (omega int_laws);
          index_kept = index-insert_or_update_account b1 tx.account ∙ spent.index_kept;
        })))

-- A receipt on the tables that a batch shows.
pub index_receipt-Booked :
    {E : Type 0} (ids : List AccountId) (b b' : WriteBatch) (tx : TxVariant) (log : List LogEntry)
    → Lists ids (view b)
    → IsSettled tx log
    → IsFresh ids (view b) tx
    → index_receipt {E = E} b (record { tx = tx; log = log }) ≡ ok b'
    → Booked ids b b' tx
index_receipt-Booked ids b b' (owner_tx tx) log lists settled new e =
    owner-Booked ids b b' lists tx log settled e
index_receipt-Booked ids b b' (mint_tx tx) log lists settled new e =
    mint-Booked ids b b' lists tx log settled e
index_receipt-Booked ids b b' (create_account_tx tx) log lists settled new e =
    create-Booked ids b b' lists tx log new e
index_receipt-Booked ids b b' (update_account_tx tx) log lists settled new e =
    update-Booked ids b b' lists tx log e
index_receipt-Booked ids b b' (transfer_tx tx) log lists settled new e =
    transfer-Booked ids b b' lists tx log settled e
