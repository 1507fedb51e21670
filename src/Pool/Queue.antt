-- ===== src/Pool/Queue.antt =====
-- The receipt pool (crates/godcoin/src/blockchain/receipt.rs) and the table of transaction ids that
-- it keeps in the index (crates/godcoin/src/blockchain/index.rs). `now` is the clock.
use godcoin.Base.{
  ℕ, ◌-◌, ◌*◌, Bool, true, false, ◌||◌, List, [], ◌∷◌, ◌++◌, Option, some, none, ok, err, ltb, leb,
  if◌then◌else◌,
}
use godcoin.Crypto.{Crypto, Digest, digest_eq}
use godcoin.Script.Op.{AccountId}
use godcoin.Tx.Types.{TxVariant, base}
use godcoin.Tx.Format.{calc_txid}
use godcoin.Receipt.Types.{Receipt}
use godcoin.Chain.Types.{TxErr, AccountInfo, panic, Outcome, ◌>>=◌, ◌>>◌}
use godcoin.Chain.Accounts.{Blockchain, get_account_info}
use godcoin.Chain.Execute.{reject_if, execute_tx}

abbrev pub tx_max_expiry_time : ℕ
tx_max_expiry_time = 60 * 60 * 24 * 30

abbrev pub tx_expiry_adjustment : ℕ
tx_expiry_adjustment = 30

-- The column family `tx_expiry` of the index.
abbrev pub TxExpiry : Type 0
TxExpiry = Digest → Option ℕ

unfoldable pub has_txid : TxExpiry → Digest → Bool
has_txid table id = elim (table id) [ some expiry ↦ true | none ↦ false ]

unfoldable pub insert_txid : TxExpiry → Digest → ℕ → TxExpiry
insert_txid table id expiry key = if digest_eq key id then some expiry else table key

-- What the purge at the time `current_time` leaves of an entry.
unfoldable pub unexpired : ℕ → Option ℕ → Option ℕ
unexpired current_time none = none
unexpired current_time (some expiry) = if ltb expiry current_time then none else some expiry

-- The clock is set back by the adjustment; a clock below it would overflow.
unfoldable pub purge_expired_txids : {E : Type 0} → ℕ → TxExpiry → Outcome E TxExpiry
purge_expired_txids now table =
    if ltb now tx_expiry_adjustment
    then err panic
    else ok (λ key. unexpired (now - tx_expiry_adjustment) (table key))

pub record ReceiptPool : Type 0 where
  pub chain : Blockchain
  pub tx_expiry : TxExpiry
  pub receipts : List Receipt

abbrev pub pool_new : Blockchain → TxExpiry → ReceiptPool
pool_new ch table = record { chain = ch; tx_expiry = table; receipts = [] }

abbrev pub pool_account_info :
    {E : Type 0} → ReceiptPool → AccountId → Outcome E (Option AccountInfo)
pool_account_info pool id = get_account_info pool.chain id pool.receipts

abbrev pub is_expired : ℕ → ℕ → Bool
is_expired now expiry = leb expiry now || ltb tx_max_expiry_time (expiry - now)

-- No check is skipped.
unfoldable pub push : Crypto → ℕ → ReceiptPool → TxVariant → Outcome TxErr ReceiptPool
push c now pool tx = do
  reject_if (is_expired now (base tx).expiry) TxErr.tx_expired
  reject_if (has_txid pool.tx_expiry (calc_txid c tx)) TxErr.tx_dupe
  log ← execute_tx c pool.chain tx pool.receipts
  ok (record pool {
    tx_expiry = insert_txid pool.tx_expiry (calc_txid c tx) (base tx).expiry;
    receipts = pool.receipts ++ (record { tx = tx; log = log } ∷ []);
  })

-- The receipts, and the pool without them.
unfoldable pub flush : {E : Type 0} → ℕ → ReceiptPool → Outcome E (List Receipt × ReceiptPool)
flush now pool = do
  table ← purge_expired_txids now pool.tx_expiry
  ok (pool.receipts, record pool { tx_expiry = table; receipts = [] })
