-- ===== src/Pool/Minter.antt =====
-- The minter (crates/server/src/server/minter.rs) over a pool, and a history of what reaches it. The
-- loop that waits between two productions, the log lines and the broadcast are left out.
use godcoin.Base.{
  ℕ, Bool, true, false, not, ◌||◌, List, [], ◌∷◌, Bytes, some, ok, err, if◌then◌else◌,
}
use godcoin.Crypto.{Crypto, SigPair}
use godcoin.Tx.Types.{TxVariant}
use godcoin.Receipt.Types.{Receipt}
use godcoin.Chain.Types.{
  TxErr, BlockErr, Block, rejected, panic, out_of_fuel, Outcome, unwrap, ◌>>=◌,
}
use godcoin.Chain.Block.{calc_header_hash, new_child}
use godcoin.Chain.Verify.{insert_block}
use godcoin.Pool.Queue.{ReceiptPool, push, flush}

-- The minter's key pair and its setting: `sign` is `KeyPair::sign`, which sodiumoxide computes.
pub record Minter : Type 0 where
  pub sign : Bytes → SigPair
  pub enable_stale_production : Bool

unfoldable pub block_sign : Crypto → Minter → Block → Block
block_sign c m b = record b { signer = some (m.sign (calc_header_hash c b).bytes) }

abbrev pub is_empty : List Receipt → Bool
is_empty [] = true
is_empty (r ∷ rs) = false

-- A block is produced where there are receipts, or where the head has some.
abbrev pub should_produce : Minter → Bool → List Receipt → Block → Bool
should_produce m force receipts head =
    force || m.enable_stale_production || not (is_empty receipts) || not (is_empty head.receipts)

unfoldable pub mint_block :
    Crypto → Minter → ℕ → ReceiptPool → List Receipt → Outcome BlockErr ReceiptPool
mint_block c m now pool receipts = do
  child ← unwrap (new_child c now pool.chain.head receipts)
  chain ← insert_block c pool.chain (block_sign c m child)
  ok (record pool { chain = chain })

-- The receipts are flushed in any case, and the chain stays where no block is produced.
unfoldable pub produce : Crypto → Minter → ℕ → Bool → ReceiptPool → Outcome BlockErr ReceiptPool
produce c m now force pool = do
  flushed ← flush now pool
  if should_produce m force flushed.0 flushed.1.chain.head
      then mint_block c m now flushed.1 flushed.0
      else ok flushed.1

-- What reaches the minter: a transaction, the end of a block's time, or a forced production with its
-- flag, each with the clock.
pub data Event : Type 0 where
  push_tx : ℕ → TxVariant → Event
  produce_block : ℕ → Event
  force_block : ℕ → Bool → Event

-- A transaction that is refused leaves the pool as it is; a block that is refused ends the production
-- loop, as a panic does.
unfoldable pub of_push : ReceiptPool → Outcome TxErr ReceiptPool → Outcome BlockErr ReceiptPool
of_push pool (ok pool') = ok pool'
of_push pool (err (rejected e)) = ok pool
of_push pool (err panic) = err panic
of_push pool (err out_of_fuel) = err out_of_fuel

-- The caller of a forced production gets the error of a block that is refused; the receipts are gone.
unfoldable pub of_force :
    ℕ → ReceiptPool → Outcome BlockErr ReceiptPool → Outcome BlockErr ReceiptPool
of_force now pool (ok pool') = ok pool'
of_force now pool (err (rejected e)) = do flushed ← flush now pool; ok flushed.1
of_force now pool (err panic) = err panic
of_force now pool (err out_of_fuel) = err out_of_fuel

unfoldable pub handle : Crypto → Minter → ReceiptPool → Event → Outcome BlockErr ReceiptPool
handle c m pool (push_tx now tx) = of_push pool (push c now pool tx)
handle c m pool (produce_block now) = produce c m now false pool
handle c m pool (force_block now force) = of_force now pool (produce c m now force pool)

unfoldable pub handle_all :
    Crypto → Minter → ReceiptPool → List Event → Outcome BlockErr ReceiptPool
handle_all c m pool [] = ok pool
handle_all c m pool (e ∷ es) = do pool' ← handle c m pool e; handle_all c m pool' es
