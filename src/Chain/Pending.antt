-- ===== src/Chain/Pending.antt =====
-- What `get_account` makes of an account update of the current block, and what `index_receipt` makes of it
-- (crates/godcoin/src/blockchain/mod.rs).
use godcoin.Base.{
  ◌≡◌, ◌≢◌, ◌∙◌, refl, sym, true, List, [], ◌∷◌, ◌++◌, some, ok, ne→==, ◌==◌, Option-cases, inl,
  inr, arith, ℕ,
}
use mathlib.Core.Path.{subst}
use godcoin.Asset.{Asset, checked_sub}
use godcoin.Script.Op.{AccountId, Script}
use godcoin.Account.Types.{Account}
use godcoin.Tx.Types.{UpdateAccountTx, update_account_tx}
use godcoin.Receipt.Types.{LogEntry, Receipt}
use godcoin.Chain.Index.{WriteBatch, get_account_mut, put_account}
use godcoin.Chain.Accounts.{
  Blockchain, get_account, pend_receipt, pend_receipts, new_script_of, new_permissions_of,
  with_balance,
}
use godcoin.Chain.Apply.{index_receipt}
use godcoin.Chain.Inversion.{bind_ok-elim, unwrap_ok, ok_inj}
use godcoin.Chain.Supply.Ledger.{view}

one_left :
    (id : AccountId) (acc : Account) (r : Receipt)
    → pend_receipts id acc (r ∷ []) ≡ pend_receipt id acc r
unfolding pend_receipts
one_left id acc r = elim (Option-cases (pend_receipt id acc r)) [
  | inl lost ↦ rw (pend_receipts, lost) refl
  | inr (acc', kept) ↦ rw (pend_receipts, kept) refl
]

pend_receipts-append :
    (id : AccountId) (first acc : Account) (rs : List Receipt) (r : Receipt)
    → pend_receipts id first rs ≡ some acc
    → pend_receipts id first (rs ++ (r ∷ [])) ≡ pend_receipt id acc r
unfolding pend_receipts
pend_receipts-append id first acc [] r e =
    let same : first ≡ acc = cc in rw same (one_left id acc r)
pend_receipts-append id first acc (q ∷ rs) r e = elim (Option-cases (pend_receipt id first q)) [
  | inl lost ↦ absurd (cc (rw (pend_receipts, lost) at e))
  | inr (next, kept) ↦
      rw (pend_receipts, kept)
        (pend_receipts-append id next acc rs r (rw (pend_receipts, kept) at e))
]

-- A further receipt is applied to what the receipts before it make of the account.
get_account-append :
    (ch : Blockchain) (id : AccountId) (acc : Account) (rs : List Receipt) (r : Receipt)
    → get_account ch id rs ≡ some acc
    → get_account ch id (rs ++ (r ∷ [])) ≡ pend_receipt id acc r
unfolding get_account
get_account-append ch id acc rs r e = elim (Option-cases (ch.indexer.accounts id)) [
  | inl missing ↦ absurd (cc (rw (get_account, missing) at e))
  | inr (first, known) ↦
      rw (get_account, known)
        (pend_receipts-append id first acc rs r (rw (get_account, known) at e))
]

-- What an update makes of its account, with its fee paid.
abbrev updated : UpdateAccountTx → Account → Asset → Account
updated tx acc balance =
    new_permissions_of tx.new_permissions (new_script_of tx.new_script (with_balance acc balance))

-- An update that is indexed: its account pays the fee, and no other account changes.
record Indexed (tx : UpdateAccountTx) (b b' : WriteBatch) : Type 0 where
  before : Account
  balance : Asset
  found : view b tx.account_id ≡ some before
  paid : checked_sub before.balance tx.base.fee ≡ some balance
  written : view b' tx.account_id ≡ some (updated tx before balance)
  others : (id : AccountId) → tx.account_id ≢ id → view b' id ≡ view b id

self_test : (n : ℕ) → (n == n) ≡ true
self_test n = ground arith

index_update :
    {E : Type 0} (tx : UpdateAccountTx) (log : List LogEntry) (b b' : WriteBatch)
    → index_receipt {E = E} b (record { tx = update_account_tx tx; log = log }) ≡ ok b'
    → Indexed tx b b'
unfolding index_receipt get_account_mut put_account
index_update tx log b b' e = bind_ok-elim _ _ b' e (λ acc got e1.
    bind_ok-elim _ _ b' e1 (λ balance subtracted e2.
      subst (Indexed tx b) (ok_inj _ _ _ refl e2) (record {
        before = acc;
        balance = balance;
        found = unwrap_ok _ _ got;
        paid = unwrap_ok _ _ subtracted;
        written = rw (self_test tx.account_id) refl;
        others = λ id other. rw (ne→== id tx.account_id (λ e. other (sym e))) refl;
      })))

pend_own :
    (tx : UpdateAccountTx) (log : List LogEntry) (acc : Account) (balance : Asset)
    → checked_sub acc.balance tx.base.fee ≡ some balance
    → pend_receipt tx.account_id acc (record { tx = update_account_tx tx; log = log })
      ≡ some (updated tx acc balance)
unfolding pend_receipt
pend_own tx log acc balance e = rw (self_test tx.account_id, e) refl

pend_other :
    (tx : UpdateAccountTx) (log : List LogEntry) (id : AccountId) (acc : Account) (script : Script)
    → tx.account_id ≢ id
    → tx.new_script ≡ some script
    → pend_receipt id acc (record { tx = update_account_tx tx; log = log })
      ≡ some (new_permissions_of tx.new_permissions (record acc { script = script }))
unfolding pend_receipt new_script_of
pend_other tx log id acc script other e = rw (ne→== tx.account_id id other, e) refl

-- An account update with a new script that the index takes: if the batch and the pending receipts agree on
-- the account that it updates, then they agree on it after the update too. But a different account, which
-- the index leaves as it is, is looked up after the update, whatever receipts came before it, with the new
-- script and the new permissions of the update.
pub get_account-index_update :
    {E : Type 0} (ch : Blockchain) (b b' : WriteBatch) (done : List Receipt) (tx : UpdateAccountTx)
    (log : List LogEntry) (script : Script) (id : AccountId) (acc : Account)
    → index_receipt {E = E} b (record { tx = update_account_tx tx; log = log }) ≡ ok b'
    → get_account ch tx.account_id done ≡ view b tx.account_id
    → tx.new_script ≡ some script
    → tx.account_id ≢ id
    → get_account ch id done ≡ some acc
    → (get_account ch tx.account_id (done ++ (record { tx = update_account_tx tx; log = log } ∷ []))
        ≡ view b' tx.account_id)
      × (view b' id ≡ view b id)
      × (get_account ch id (done ++ (record { tx = update_account_tx tx; log = log } ∷ []))
          ≡ some (new_permissions_of tx.new_permissions (record acc { script = script })))
get_account-index_update ch b b' done tx log script id acc indexed agree news other known =
    let i = index_update tx log b b' indexed in
    (
      get_account-append ch tx.account_id i.before done _ (agree ∙ i.found)
          ∙ (pend_own tx log i.before i.balance i.paid ∙ sym i.written),
      i.others id other,
      get_account-append ch id acc done _ known ∙ pend_other tx log id acc script other news,
    )
