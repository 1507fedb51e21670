-- ===== src/Pool/Replay.antt =====
-- A transaction is taken once (crates/godcoin/src/blockchain/receipt.rs,
-- crates/godcoin/src/blockchain/index.rs).
use Prim.Native.Nat.{max}
use godcoin.Base.{
  ℕ, ◌+◌, ◌-◌, ◌≤◌, ◌<◌, ◌≡◌, ◌⊎◌, inl, inr, refl, ap, arith, Bool, true, false, List, Bytes, [],
  ◌∷◌, Option, some, ok, ltb, Bool-cases, bytes_eq_self, bytes_eq→eq,
}
use mathlib.Core.Path.{subst}
use godcoin.Crypto.{Crypto, Digest, digest_eq}
use godcoin.Tx.Types.{TxVariant, base}
use godcoin.Tx.Format.{calc_txid}
use godcoin.Receipt.Types.{Receipt}
use godcoin.Chain.Types.{TxErr, reject, ◌>>=◌}
use godcoin.Chain.Execute.{reject_if}
use godcoin.Chain.Inversion.{bind_ok-elim, ok_inj}
use godcoin.Pool.Queue.{
  TxExpiry, ReceiptPool, push, flush, is_expired, has_txid, insert_txid, unexpired,
  purge_expired_txids,
}
use godcoin.Pool.Minter.{
  Minter, Event, push_tx, produce_block, force_block, should_produce, mint_block, produce, handle,
  handle_all,
}
use godcoin.Pool.Pushed.{push-Pushed}
use godcoin.Pool.History.{handled, forced}

abbrev pub event_time : Event → ℕ
event_time (push_tx now tx) = now
event_time (produce_block now) = now
event_time (force_block now force) = now

-- The clock never goes back behind its latest time by more than 30 seconds, up to the time `again`.
abbrev pub IsClock : ℕ → List Event → ℕ → Type 0
IsClock latest [] again = latest ≤ again + 30
IsClock latest (e ∷ es) again =
    (latest ≤ event_time e + 30) × IsClock (max latest (event_time e)) es again

-- The table has the transaction, or its time was over by more than the adjustment.
abbrev IsSpent : Crypto → TxVariant → ℕ → TxExpiry → Type 0
IsSpent c tx latest table =
    (table (calc_txid c tx) ≡ some (base tx).expiry) ⊎ ((base tx).expiry + 30 < latest)

IsSpent-max :
    (c : Crypto) (tx : TxVariant) (latest now : ℕ) (table : TxExpiry)
    → IsSpent c tx latest table
    → IsSpent c tx (max latest now) table
IsSpent-max c tx latest now table (inl known) = inl known
IsSpent-max c tx latest now table (inr over) = inr (omega arith)

has_known :
    (table : TxExpiry) (id : Digest) (expiry : ℕ)
    → table id ≡ some expiry
    → has_txid table id ≡ true
unfolding has_txid
has_known table id expiry e = rw (has_txid, e) refl

-- The entry of a new id is written, and leaves what the table has.
insert_self :
    (table : TxExpiry) (id : Digest) (expiry : ℕ) → insert_txid table id expiry id ≡ some expiry
unfolding insert_txid
insert_self table id expiry = rw (bytes_eq_self id.bytes) refl

digest_of_test : (a b : Digest) → digest_eq a b ≡ true → a ≡ b
digest_of_test a b e = ap (λ (bs : Bytes). record { bytes = bs }) (bytes_eq→eq a.bytes b.bytes e)

insert_other :
    (table : TxExpiry) (id key : Digest) (expiry known : ℕ)
    → has_txid table id ≡ false
    → table key ≡ some known
    → insert_txid table id expiry key ≡ some known
unfolding insert_txid
insert_other table id key expiry known new e = elim (Bool-cases (digest_eq key id)) [
  | inl same ↦
      absurd
        (cc (new, has_known table key known e, ap (has_txid table) (digest_of_test key id same)))
  | inr other ↦ rw other e
]

-- The purge drops what was over by more than the adjustment.
purged_entry :
    (latest now expiry : ℕ) (entry : Option ℕ)
    → ltb now 30 ≡ false
    → entry ≡ some expiry
    → (unexpired (now - 30) entry ≡ some expiry) ⊎ (expiry + 30 < max latest now)
unfolding unexpired
purged_entry latest now expiry entry late e = elim (Bool-cases (ltb expiry (now - 30))) [
  | inl over ↦ inr (ground (arith, over, late))
  | inr kept ↦ inl (rw (e, kept) refl)
]

purged :
    {E : Type 0} (c : Crypto) (tx : TxVariant) (latest now : ℕ) (table table' : TxExpiry)
    → purge_expired_txids {E = E} now table ≡ ok table'
    → IsSpent c tx latest table
    → IsSpent c tx (max latest now) table'
unfolding purge_expired_txids
purged c tx latest now table table' e h = elim (Bool-cases (ltb now 30)) [
  | inl early ↦ absurd (cc (rw early at e))
  | inr late ↦
      subst (IsSpent c tx (max latest now)) (ok_inj _ _ _ refl (rw late at e)) (still late h)
]
  where
    still :
        ltb now 30 ≡ false
        → IsSpent c tx latest table
        → IsSpent c tx (max latest now) (λ key. unexpired (now - 30) (table key))
    still late (inl known) = purged_entry latest now (base tx).expiry _ late known
    still late (inr over) = inr (omega arith)

mint-tx_expiry :
    (c : Crypto) (m : Minter) (now : ℕ) (pool pool' : ReceiptPool) (receipts : List Receipt)
    → mint_block c m now pool receipts ≡ ok pool'
    → pool.tx_expiry ≡ pool'.tx_expiry
unfolding mint_block
mint-tx_expiry c m now pool pool' receipts e = bind_ok-elim _ _ pool' e (λ child made e1.
    bind_ok-elim _ _ pool' e1
      (λ ch inserted e2. ap (λ (p : ReceiptPool). p.tx_expiry) (ok_inj _ _ _ refl e2)))

flush-tx_expiry :
    {E : Type 0} (now : ℕ) (pool : ReceiptPool) (out : List Receipt × ReceiptPool)
    → flush {E = E} now pool ≡ ok out
    → purge_expired_txids {E = E} now pool.tx_expiry ≡ ok out.1.tx_expiry
unfolding flush
flush-tx_expiry now pool out e = bind_ok-elim _ _ out e (λ table cleared e1.
    let same : out ≡ (pool.receipts, record pool { tx_expiry = table; receipts = [] }) = cc in
    rw same cleared)

-- What a spent transaction is after each event.
module _ (c : Crypto) (m : Minter) (tx : TxVariant) (latest : ℕ) where
  push-IsSpent :
      (now : ℕ) (pool pool' : ReceiptPool) (other : TxVariant)
      → push c now pool other ≡ ok pool'
      → IsSpent c tx latest pool.tx_expiry
      → IsSpent c tx latest pool'.tx_expiry
  push-IsSpent now pool pool' other e (inr over) = inr over
  push-IsSpent now pool pool' other e (inl known) =
      let p = push-Pushed c now pool pool' other e in
      inl (
        rw (p.same) (
          insert_other pool.tx_expiry (calc_txid c other) (calc_txid c tx) (base other).expiry
            (base tx).expiry p.new known))

  produce-IsSpent :
      (now : ℕ) (force : Bool) (pool pool' : ReceiptPool)
      → produce c m now force pool ≡ ok pool'
      → IsSpent c tx latest pool.tx_expiry
      → IsSpent c tx (max latest now) pool'.tx_expiry
  unfolding produce
  produce-IsSpent now force pool pool' e h = bind_ok-elim _ _ pool' e (λ out flushed e1.
      let spent =
        purged c tx latest now pool.tx_expiry out.1.tx_expiry (flush-tx_expiry now pool out flushed)
          h in
      elim (Bool-cases (should_produce m force out.0 out.1.chain.head)) [
        | inl due ↦
            subst (IsSpent c tx (max latest now))
              (mint-tx_expiry c m now out.1 pool' out.0 (rw due at e1)) spent
        | inr idle ↦
            subst (λ (p : ReceiptPool). IsSpent c tx (max latest now) p.tx_expiry)
              (ok_inj _ _ _ refl (rw idle at e1)) spent
      ])

  handle-IsSpent :
      (pool pool' : ReceiptPool) (event : Event)
      → handle c m pool event ≡ ok pool'
      → IsSpent c tx latest pool.tx_expiry
      → IsSpent c tx (max latest (event_time event)) pool'.tx_expiry
  unfolding handle
  handle-IsSpent pool pool' (push_tx now other) e h = IsSpent-max c tx latest now pool'.tx_expiry (
      handled pool pool' (push c now pool other) e
        (λ taken. push-IsSpent now pool pool' other taken h)
        (λ same. subst (λ (p : ReceiptPool). IsSpent c tx latest p.tx_expiry) same h))
  handle-IsSpent pool pool' (produce_block now) e h = produce-IsSpent now false pool pool' e h
  handle-IsSpent pool pool' (force_block now force) e h =
      forced now pool pool' (produce c m now force pool) e
        (λ made. produce-IsSpent now force pool pool' made h)
        (λ out flushed same.
          subst (λ (p : ReceiptPool). IsSpent c tx (max latest now) p.tx_expiry) same
            (purged c tx latest now pool.tx_expiry out.1.tx_expiry
              (flush-tx_expiry now pool out flushed) h))

-- A spent transaction is refused.
spent_refused :
    (c : Crypto) (now latest : ℕ) (pool : ReceiptPool) (tx : TxVariant)
    → IsSpent c tx latest pool.tx_expiry
    → latest ≤ now + 30
    → (push c now pool tx ≡ reject TxErr.tx_expired) ⊎ (push c now pool tx ≡ reject TxErr.tx_dupe)
unfolding push reject_if ◌>>=◌
spent_refused c now latest pool tx h near = elim (Bool-cases (is_expired now (base tx).expiry)) [
  | inl expired ↦ inl (rw expired refl)
  | inr live ↦ elim h [
    | inl known ↦ inr (rw (live, has_known pool.tx_expiry (calc_txid c tx) _ known) refl)
    | inr over ↦ absurd (ground (arith, live, over, near))
  ]
]

later_refused :
    (c : Crypto) (m : Minter) (tx : TxVariant) (latest again : ℕ) (events : List Event)
    (pool pool' : ReceiptPool)
    → IsSpent c tx latest pool.tx_expiry
    → IsClock latest events again
    → handle_all c m pool events ≡ ok pool'
    → (push c again pool' tx ≡ reject TxErr.tx_expired)
      ⊎ (push c again pool' tx ≡ reject TxErr.tx_dupe)
unfolding handle_all
later_refused c m tx latest again [] pool pool' h near e =
    spent_refused c again latest pool' tx
      (subst (λ (p : ReceiptPool). IsSpent c tx latest p.tx_expiry) (ok_inj _ _ _ refl e) h) near
later_refused c m tx latest again (event ∷ events) pool pool' h (near, clock) e =
    bind_ok-elim _ _ pool' e (λ next now later.
      later_refused c m tx (max latest (event_time event)) again events next pool'
        (handle-IsSpent c m tx latest pool next event now h) clock later)

-- A transaction that the pool takes is refused, as expired or as known, whenever it comes again after
-- any history of transactions and blocks, where the clock never goes back behind its latest time by more
-- than 30 seconds.
pub taken_once :
    (c : Crypto) (m : Minter) (now again : ℕ) (tx : TxVariant) (events : List Event)
    (pool taken pool' : ReceiptPool)
    → push c now pool tx ≡ ok taken
    → IsClock now events again
    → handle_all c m taken events ≡ ok pool'
    → (push c again pool' tx ≡ reject TxErr.tx_expired)
      ⊎ (push c again pool' tx ≡ reject TxErr.tx_dupe)
taken_once c m now again tx events pool taken pool' e clock run =
    let p = push-Pushed c now pool taken tx e in
    later_refused c m tx now again events taken pool'
      (inl (rw (p.same) (insert_self pool.tx_expiry (calc_txid c tx) (base tx).expiry))) clock run
