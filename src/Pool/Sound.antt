-- ===== src/Pool/Sound.antt =====
-- What stays true of the pool and its chain while transactions arrive and blocks are produced
-- (crates/godcoin/src/blockchain/receipt.rs, crates/server/src/server/minter.rs).
use godcoin.Base.{
  ℕ, ◌≡◌, refl, arith, sym, false, List, [], ◌∷◌, ◌++◌, append_assoc, append-nil, ok, ◌==◌, All,
  All-append, Bool-cases, inl, inr,
}
use mathlib.Core.Path.{subst}
use godcoin.Crypto.{Crypto}
use godcoin.Script.Op.{AccountId}
use godcoin.Tx.Types.{
  TxVariant, owner_tx, mint_tx, create_account_tx, update_account_tx, transfer_tx,
}
use godcoin.Receipt.Types.{LogEntry, Receipt}
use godcoin.Chain.Accounts.{Blockchain}
use godcoin.Chain.Execute.{creates, execute_tx}
use godcoin.Chain.BlockLaws.{RunInOrder}
use godcoin.Chain.Supply.Ledger.{Lists, Table, occurrences}
use godcoin.Chain.Supply.Receipts.{IsFresh, IsSettled}
use godcoin.Chain.Supply.Blocks.{AreSettled, AreFresh, IsNewAfter, IsBacked}
use godcoin.Pool.Queue.{ReceiptPool, push}
use godcoin.Pool.Pushed.{push-Pushed, IsUnclaimed, execute_tx-IsSettled, execute_tx-IsUnclaimed}

-- The list of accounts has a place for the account that a transaction creates.
abbrev pub IsListed : List AccountId → TxVariant → Type 0
IsListed ids (create_account_tx tx) = occurrences tx.account.id ids ≡ 1
IsListed ids _ = Unit {0}

-- The accounts hold the token supply, and the receipts of the pool ran one after the other, keep the
-- money, and create accounts that are new.
pub record IsSound (c : Crypto) (ids : List AccountId) (pool : ReceiptPool) : Type 0 where
  pub backed : IsBacked ids pool.chain.indexer
  pub lists : Lists ids pool.chain.indexer.accounts
  pub settled : AreSettled pool.receipts
  pub fresh : AreFresh ids pool.chain.indexer.accounts pool.receipts
  pub runs : RunInOrder c pool.chain [] pool.receipts

creates_split :
    (id : AccountId) (tx : TxVariant) (log : List LogEntry) (rs : List Receipt)
    → creates id (record { tx = tx; log = log } ∷ rs) ≡ false
    → (creates id (record { tx = tx; log = log } ∷ []) ≡ false) × (creates id rs ≡ false)
unfolding creates
creates_split id (owner_tx tx) log rs e = (refl, e)
creates_split id (mint_tx tx) log rs e = (refl, e)
creates_split id (create_account_tx tx) log rs e = elim (Bool-cases (tx.account.id == id)) [
  | inl same ↦ absurd (ground (arith, same, e))
  | inr other ↦ (rw other refl, rw other at e)
]
creates_split id (update_account_tx tx) log rs e = (refl, e)
creates_split id (transfer_tx tx) log rs e = (refl, e)

creates_none :
    (id : AccountId) (rs : List Receipt)
    → creates id rs ≡ false
    → All (λ (r : Receipt). creates id (r ∷ []) ≡ false) rs
creates_none id [] e = tt
creates_none id (r ∷ rs) e =
    let (first, rest) = creates_split id r.tx r.log rs e in (first, creates_none id rs rest)

no_claims : (rs : List Receipt) → All (λ (r : Receipt). Unit {0}) rs
no_claims [] = tt
no_claims (r ∷ rs) = (tt, no_claims rs)

-- What the pool's receipts do not claim comes after each of them, and is new to the table.
module _ (ids : List AccountId) (ch : Blockchain) (rs : List Receipt) where
  unclaimed_after :
      (tx : TxVariant) → IsUnclaimed ch.indexer rs tx → All (λ (r : Receipt). IsNewAfter r tx) rs
  unclaimed_after (owner_tx tx) h = no_claims rs
  unclaimed_after (mint_tx tx) h = no_claims rs
  unclaimed_after (create_account_tx tx) (absent, new) = creates_none tx.account.id rs new
  unclaimed_after (update_account_tx tx) h = no_claims rs
  unclaimed_after (transfer_tx tx) h = no_claims rs

  unclaimed-IsFresh :
      (tx : TxVariant)
      → IsUnclaimed ch.indexer rs tx
      → IsListed ids tx
      → IsFresh ids ch.indexer.accounts tx
  unclaimed-IsFresh (owner_tx tx) h listed = tt
  unclaimed-IsFresh (mint_tx tx) h listed = tt
  unclaimed-IsFresh (create_account_tx tx) (absent, new) listed = (absent, listed)
  unclaimed-IsFresh (update_account_tx tx) h listed = tt
  unclaimed-IsFresh (transfer_tx tx) h listed = tt

-- One more receipt at the end.
AreFresh-append :
    (ids : List AccountId) (f : Table) (rs : List Receipt) (r : Receipt)
    → AreFresh ids f rs
    → IsFresh ids f r.tx
    → All (λ (q : Receipt). IsNewAfter q r.tx) rs
    → AreFresh ids f (rs ++ (r ∷ []))
AreFresh-append ids f [] r h fresh new = (fresh, tt, tt)
AreFresh-append ids f (q ∷ rs) r (first, apart, rest) fresh (new, news) = (
  first,
  All-append (λ (later : Receipt). IsNewAfter q later.tx) rs (r ∷ []) apart (new, tt),
  AreFresh-append ids f rs r rest fresh news,
)

RunInOrder-append :
    (c : Crypto) (ch : Blockchain) (done rs : List Receipt) (r : Receipt)
    → RunInOrder c ch done rs
    → (log : List LogEntry) × (execute_tx c ch r.tx (done ++ rs) ≡ ok log)
    → RunInOrder c ch done (rs ++ (r ∷ []))
RunInOrder-append c ch done [] r h (log, ran) = ((log, rw (append-nil done) at ran), tt)
RunInOrder-append c ch done (q ∷ rs) r (first, rest) (log, ran) = (
  first,
  RunInOrder-append c ch (done ++ (q ∷ [])) rs r rest (log, rw (append_assoc done (q ∷ []) rs) ran),
)

-- A transaction that the pool takes keeps it sound.
pub push-IsSound :
    (c : Crypto) (ids : List AccountId) (now : ℕ) (pool pool' : ReceiptPool) (tx : TxVariant)
    → IsSound c ids pool
    → IsListed ids tx
    → push c now pool tx ≡ ok pool'
    → IsSound c ids pool'
push-IsSound c ids now pool pool' tx h listed e =
    let p = push-Pushed c now pool pool' tx e in
    let r : Receipt = record { tx = tx; log = p.log } in
    let new = execute_tx-IsUnclaimed c pool.chain pool.receipts p.log tx p.ran in
    let settled = execute_tx-IsSettled c pool.chain pool.receipts p.log tx p.ran in
    subst (IsSound c ids) (sym p.same) (record {
      backed = h.backed;
      lists = h.lists;
      settled =
          All-append (λ (r : Receipt). IsSettled r.tx r.log) pool.receipts (r ∷ []) h.settled
            (settled, tt);
      fresh =
          AreFresh-append ids pool.chain.indexer.accounts pool.receipts r h.fresh
            (unclaimed-IsFresh ids pool.chain pool.receipts tx new listed)
            (unclaimed_after ids pool.chain pool.receipts tx new);
      runs = RunInOrder-append c pool.chain [] pool.receipts r h.runs (p.log, p.ran);
    })
