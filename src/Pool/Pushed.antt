-- ===== src/Pool/Pushed.antt =====
-- What is known of a transaction that the pool takes (crates/godcoin/src/blockchain/receipt.rs).
use godcoin.Base.{ℕ, ◌≡◌, arith, false, List, [], ◌∷◌, ◌++◌, none, ok, Option-cases, inl, inr}
use godcoin.Base.Int.{pos}
use godcoin.Crypto.{Crypto}
use godcoin.Tx.Types.{
  TxVariant, OwnerTx, CreateAccountTx, owner_tx, mint_tx, create_account_tx, update_account_tx,
  transfer_tx, base,
}
use godcoin.Tx.Format.{calc_txid}
use godcoin.Receipt.Types.{LogEntry, Receipt}
use godcoin.Chain.Index.{Indexer, account_exists}
use godcoin.Chain.Accounts.{Blockchain}
use godcoin.Chain.Execute.{creates, execute_tx, execute_body, execute_owner, execute_create_account}
use godcoin.Chain.Inversion.{bind_ok, bind_ok-elim, reject_if_ok}
use godcoin.Chain.Accepted.{transfer_accepted, mint_accepted, sigs_bounded, zero_of_test}
use godcoin.Chain.Supply.Receipts.{IsSettled}
use godcoin.Script.Op.{AccountId}
use godcoin.Pool.Queue.{ReceiptPool, push, is_expired, has_txid, insert_txid}

pub record Pushed (c : Crypto) (now : ℕ) (pool pool' : ReceiptPool) (tx : TxVariant) : Type 0 where
  pub live : is_expired now (base tx).expiry ≡ false
  pub new : has_txid pool.tx_expiry (calc_txid c tx) ≡ false
  pub log : List LogEntry
  pub ran : execute_tx c pool.chain tx pool.receipts ≡ ok log
  pub same : pool' ≡ record pool {
    tx_expiry = insert_txid pool.tx_expiry (calc_txid c tx) (base tx).expiry;
    receipts = pool.receipts ++ (record { tx = tx; log = log } ∷ []);
  }

pub push-Pushed :
    (c : Crypto) (now : ℕ) (pool pool' : ReceiptPool) (tx : TxVariant)
    → push c now pool tx ≡ ok pool'
    → Pushed c now pool pool' tx
unfolding push
push-Pushed c now pool pool' tx e = bind_ok-elim _ _ pool' e (λ _ live e1.
    bind_ok-elim _ _ pool' e1 (λ _ new e2. bind_ok-elim _ _ pool' e2 (λ log ran e3. record {
      live = reject_if_ok _ _ _ live;
      new = reject_if_ok _ _ _ new;
      log = log;
      ran = ran;
      same = cc;
    })))

-- A transaction whose account is new to the index and to the receipts.
abbrev pub IsUnclaimed : Indexer → List Receipt → TxVariant → Type 0
IsUnclaimed ix receipts (create_account_tx tx) =
    (ix.accounts tx.account.id ≡ none) × (creates tx.account.id receipts ≡ false)
IsUnclaimed ix receipts _ = Unit {0}

module _ (c : Crypto) (ch : Blockchain) (receipts : List Receipt) (log : List LogEntry) where
  owner_free :
      (tx : OwnerTx) → execute_tx c ch (owner_tx tx) receipts ≡ ok log → tx.base.fee.amount ≡ pos 0
  unfolding execute_body execute_owner
  owner_free tx e =
      let (_, e0) = sigs_bounded c ch (owner_tx tx) receipts log e in
      let (_, free, _) = bind_ok _ _ log e0 in
      zero_of_test tx.base.fee.amount (reject_if_ok _ _ _ free)

  pub execute_tx-IsSettled :
      (tx : TxVariant) → execute_tx c ch tx receipts ≡ ok log → IsSettled tx log
  execute_tx-IsSettled (owner_tx tx) e = owner_free tx e
  execute_tx-IsSettled (mint_tx tx) e =
      let (_, free, _, _) = mint_accepted c ch tx receipts log e in free
  execute_tx-IsSettled (create_account_tx tx) e = tt
  execute_tx-IsSettled (update_account_tx tx) e = tt
  execute_tx-IsSettled (transfer_tx tx) e =
      let (_, _, paid) = transfer_accepted c ch tx receipts log e in paid

  absent_of_test :
      (ix : Indexer) (id : AccountId) → account_exists ix id ≡ false → ix.accounts id ≡ none
  absent_of_test ix id h = elim (Option-cases (ix.accounts id)) [
    | inl absent ↦ absent
    | inr (acc, known) ↦ absurd (ground (arith, known, h))
  ]

  create-IsUnclaimed :
      (tx : CreateAccountTx)
      → execute_tx c ch (create_account_tx tx) receipts ≡ ok log
      → IsUnclaimed ch.indexer receipts (create_account_tx tx)
  unfolding execute_body execute_create_account
  create-IsUnclaimed tx e =
      let (_, e0) = sigs_bounded c ch (create_account_tx tx) receipts log e in
      bind_ok-elim _ _ log e0 (λ _ _ e1. bind_ok-elim _ _ log e1 (λ _ _ e2.
        bind_ok-elim _ _ log e2 (λ _ _ e3. bind_ok-elim _ _ log e3 (λ _ unknown e4.
          bind_ok-elim _ _ log e4 (λ _ unclaimed _. (
            absent_of_test ch.indexer tx.account.id (reject_if_ok _ _ _ unknown),
            reject_if_ok _ _ _ unclaimed,
          ))))))

  pub execute_tx-IsUnclaimed :
      (tx : TxVariant) → execute_tx c ch tx receipts ≡ ok log → IsUnclaimed ch.indexer receipts tx
  execute_tx-IsUnclaimed (owner_tx tx) e = tt
  execute_tx-IsUnclaimed (mint_tx tx) e = tt
  execute_tx-IsUnclaimed (create_account_tx tx) e = create-IsUnclaimed tx e
  execute_tx-IsUnclaimed (update_account_tx tx) e = tt
  execute_tx-IsUnclaimed (transfer_tx tx) e = tt
