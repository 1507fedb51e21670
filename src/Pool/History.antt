-- ===== src/Pool/History.antt =====
-- A history of transactions and blocks (crates/server/src/server/minter.rs).
use godcoin.Base.{◌≡◌, refl, false, List, [], ◌∷◌, some, ok, err, All, ℕ}
use mathlib.Core.Path.{subst}
use godcoin.Crypto.{Crypto}
use godcoin.Receipt.Types.{Receipt}
use godcoin.Script.Op.{AccountId}
use godcoin.Tx.Types.{OwnerTx}
use godcoin.Chain.Types.{Block, BlockErr, TxErr, Outcome, rejected, panic, out_of_fuel}
use godcoin.Chain.Block.{new_child}
use godcoin.Chain.Accounts.{Blockchain}
use godcoin.Chain.Execute.{get_owner}
use godcoin.Chain.Verify.{verify_block}
use godcoin.Chain.Inversion.{bind_ok-elim, ok_inj}
use godcoin.Chain.Supply.Ledger.{Lists}
use godcoin.Chain.Supply.Blocks.{IsBacked}
use godcoin.Pool.Queue.{ReceiptPool, TxExpiry, pool_new, push, flush}
use godcoin.Pool.Minter.{
  Minter, Event, push_tx, produce_block, force_block, block_sign, of_push, of_force, produce,
  handle, handle_all,
}
use godcoin.Pool.Sound.{IsListed, IsSound, push-IsSound}
use godcoin.Pool.Produced.{Signs, flush-Flushed, empty-IsSound, produce-IsSound, produced_verifies}

abbrev pub IsListedEvent : List AccountId → Event → Type 0
IsListedEvent ids (push_tx now tx) = IsListed ids tx
IsListedEvent ids (produce_block now) = Unit {0}
IsListedEvent ids (force_block now force) = Unit {0}

-- A transaction that is handled is taken, or leaves the pool as it is.
pub handled :
    {G : Type 0} (pool pool' : ReceiptPool) (r : Outcome TxErr ReceiptPool)
    → of_push pool r ≡ ok pool'
    → (r ≡ ok pool' → G)
    → (pool ≡ pool' → G)
    → G
unfolding of_push
handled pool pool' (ok q) e taken left = taken cc
handled pool pool' (err (rejected x)) e taken left = left cc
handled pool pool' (err panic) e taken left = absurd cc
handled pool pool' (err out_of_fuel) e taken left = absurd cc

-- A forced production makes its block, or leaves the pool without its receipts.
pub forced :
    {G : Type 0} (now : ℕ) (pool pool' : ReceiptPool) (r : Outcome BlockErr ReceiptPool)
    → of_force now pool r ≡ ok pool'
    → (r ≡ ok pool' → G)
    → ((out : List Receipt × ReceiptPool)
        → flush {E = BlockErr} now pool ≡ ok out
        → out.1 ≡ pool'
        → G)
    → G
unfolding of_force
forced now pool pool' (ok q) e made flushed = made e
forced now pool pool' (err (rejected x)) e made flushed =
    bind_ok-elim _ _ pool' e (λ out f e1. flushed out f (ok_inj _ _ _ refl e1))
forced now pool pool' (err panic) e made flushed = absurd cc
forced now pool pool' (err out_of_fuel) e made flushed = absurd cc

module _ (c : Crypto) (m : Minter) (ids : List AccountId) where
  handle-IsSound :
      (pool pool' : ReceiptPool) (event : Event)
      → IsSound c ids pool
      → IsListedEvent ids event
      → handle c m pool event ≡ ok pool'
      → IsSound c ids pool'
  unfolding handle
  handle-IsSound pool pool' (push_tx now tx) h listed e =
      handled pool pool' (push c now pool tx) e
        (λ taken. push-IsSound c ids now pool pool' tx h listed taken) (λ same. rw⁻¹ same h)
  handle-IsSound pool pool' (produce_block now) h listed e =
      produce-IsSound c m ids now false pool pool' h e
  handle-IsSound pool pool' (force_block now force) h listed e =
      forced now pool pool' (produce c m now force pool) e
        (λ made. produce-IsSound c m ids now force pool pool' h made)
        (λ out flushed same.
          let f = flush-Flushed now pool out flushed in
          subst (IsSound c ids) same
            (empty-IsSound c ids out.1 (rw f.chain h.backed) (rw f.chain h.lists) f.emptied))

  handle_all-IsSound :
      (pool pool' : ReceiptPool) (events : List Event)
      → IsSound c ids pool
      → All (IsListedEvent ids) events
      → handle_all c m pool events ≡ ok pool'
      → IsSound c ids pool'
  unfolding handle_all
  handle_all-IsSound pool pool' [] h listed e = let same : pool ≡ pool' = cc in rw⁻¹ same h
  handle_all-IsSound pool pool' (event ∷ events) h (first, rest) e =
      bind_ok-elim _ _ pool' e (λ next now later.
        handle_all-IsSound next pool' events (handle-IsSound pool next event h first now) rest
          later)

  -- Starting from a chain whose accounts hold exactly the token supply, and from an empty pool, they do
  -- so after every history of transactions and blocks, where the list of accounts has one place for every
  -- account of the chain and for every account that a transaction creates.
  pub handle_all-IsBacked :
      (ch : Blockchain) (table : TxExpiry) (events : List Event) (pool : ReceiptPool)
      → IsBacked ids ch.indexer
      → Lists ids ch.indexer.accounts
      → All (IsListedEvent ids) events
      → handle_all c m (pool_new ch table) events ≡ ok pool
      → IsBacked ids pool.chain.indexer
  handle_all-IsBacked ch table events pool backed lists listed e =
      (handle_all-IsSound (pool_new ch table) pool events
        (empty-IsSound c ids (pool_new ch table) backed lists refl) listed e).backed

  -- Starting from a chain whose accounts hold exactly the token supply, and from an empty pool, where the
  -- list of accounts has one place for every account of the chain and for every account that a transaction
  -- creates, the next block that the minter makes of its pool after any history of transactions and blocks
  -- passes the checks of the chain, where what the minter signs is verified with the key that the owner of
  -- the chain has set.
  pub next_block_verifies :
      (ch : Blockchain) (table : TxExpiry) (events : List Event) (pool : ReceiptPool) (now : ℕ)
      (child : Block) (owner : OwnerTx)
      → IsBacked ids ch.indexer
      → Lists ids ch.indexer.accounts
      → All (IsListedEvent ids) events
      → handle_all c m (pool_new ch table) events ≡ ok pool
      → get_owner {E = BlockErr} pool.chain ≡ ok owner
      → Signs c m owner.minter
      → new_child c now pool.chain.head pool.receipts ≡ some child
      → verify_block c pool.chain (block_sign c m child) pool.chain.head ≡ ok tt
  next_block_verifies ch table events pool now child owner backed lists listed e owned signs made =
      produced_verifies c m ids now pool child owner
        (handle_all-IsSound (pool_new ch table) pool events
          (empty-IsSound c ids (pool_new ch table) backed lists refl) listed e)
        owned signs made
