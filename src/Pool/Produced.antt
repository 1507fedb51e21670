-- ===== src/Pool/Produced.antt =====
-- The minter's blocks: they pass the checks of their own chain, and the money in the accounts stays
-- the token supply (crates/server/src/server/minter.rs).
use godcoin.Base.{
  ℕ, ◌≡◌, refl, sym, Bool, true, List, [], ◌∷◌, Bytes, some, ok, bytes_eq_self, Bool-cases, inl,
  inr,
}
use mathlib.Core.Path.{subst}
use godcoin.Asset.{asset_default}
use godcoin.Crypto.{Crypto, PublicKey, verify_pair}
use godcoin.Script.Op.{AccountId}
use godcoin.Tx.Types.{OwnerTx}
use godcoin.Receipt.Types.{Receipt}
use godcoin.Chain.Types.{Block, BlockErr}
use godcoin.Chain.Block.{
  new_child, child_of, sum_fees, verify_previous_hash, verify_receipt_root, calc_header_hash,
  calc_receipt_root,
}
use godcoin.Chain.Index.{commit, set_chain_height}
use godcoin.Chain.Accounts.{Blockchain}
use godcoin.Chain.Execute.{get_owner}
use godcoin.Chain.Verify.{of_tx, verify_receipts, verify_block, insert_block}
use godcoin.Chain.Inversion.{bind_ok-elim, bind_to, unwrap_ok, ok_inj}
use godcoin.Chain.Linked.{store_insert_lem}
use godcoin.Chain.BlockLaws.{RunInOrder, child_cases, verify_block_passes}
use godcoin.Chain.Supply.Ledger.{Lists}
use godcoin.Chain.Supply.Blocks.{AreSettled, AreFresh, IsBacked, index_block-IsBacked}
use godcoin.Pool.Queue.{ReceiptPool, flush}
use godcoin.Pool.Minter.{Minter, block_sign, should_produce, mint_block, produce}
use godcoin.Pool.Sound.{IsSound}

-- A key pair of sodiumoxide: what it signs is verified with its public key.
pub record Signs (c : Crypto) (m : Minter) (key : PublicKey) : Type 0 where
  pub named : (msg : Bytes) → (m.sign msg).pub_key ≡ key
  pub holds : (msg : Bytes) → verify_pair c (m.sign msg) msg ≡ true

run_receipts :
    (c : Crypto) (ch : Blockchain) (done rs : List Receipt)
    → RunInOrder c ch done rs
    → verify_receipts c ch done rs ≡ ok tt
unfolding verify_receipts of_tx
run_receipts c ch done [] h = refl
run_receipts c ch done (r ∷ rs) ((log, ran), rest) =
    bind_to _ _ tt tt (rw ran refl) (run_receipts c ch _ rs rest)

-- The block that the minter makes of the receipts of a sound pool, and signs with the owner's key,
-- passes the checks of the chain.
pub produced_verifies :
    (c : Crypto) (m : Minter) (ids : List AccountId) (now : ℕ) (pool : ReceiptPool) (child : Block)
    (owner : OwnerTx)
    → IsSound c ids pool
    → get_owner {E = BlockErr} pool.chain ≡ ok owner
    → Signs c m owner.minter
    → new_child c now pool.chain.head pool.receipts ≡ some child
    → verify_block c pool.chain (block_sign c m child) pool.chain.head ≡ ok tt
unfolding block_sign child_of verify_previous_hash verify_receipt_root calc_header_hash
    calc_receipt_root
produced_verifies c m ids now pool child owner h owned signs e =
    let (rewards, sum, same) = child_cases c now pool.chain.head child pool.receipts e in
    let hash = (calc_header_hash c pool.chain.head).bytes in
    rw same (
      verify_block_passes c pool.chain _ pool.chain.head _ owner refl (bytes_eq_self hash)
        (bytes_eq_self (calc_receipt_root c pool.receipts).bytes) refl owned
        (rw (signs.named _) (bytes_eq_self owner.minter.bytes)) (signs.holds _)
        (run_receipts c pool.chain [] pool.receipts h.runs))

-- The pool after its receipts are flushed.
pub record Flushed (pool : ReceiptPool) (out : List Receipt × ReceiptPool) : Type 0 where
  pub receipts : out.0 ≡ pool.receipts
  pub chain : out.1.chain ≡ pool.chain
  pub emptied : out.1.receipts ≡ []

pub flush-Flushed :
    {E : Type 0} (now : ℕ) (pool : ReceiptPool) (out : List Receipt × ReceiptPool)
    → flush {E = E} now pool ≡ ok out
    → Flushed pool out
unfolding flush
flush-Flushed now pool out e = bind_ok-elim _ _ out e (λ table purged e1.
    let same : out ≡ (pool.receipts, record pool { tx_expiry = table; receipts = [] }) = cc in
    rw same (record { receipts = refl; chain = refl; emptied = refl }))

-- Inserting a block keeps the chain backed.
insert_block-IsBacked :
    (c : Crypto) (ids : List AccountId) (ch ch' : Blockchain) (block : Block)
    → IsBacked ids ch.indexer
    → Lists ids ch.indexer.accounts
    → AreSettled block.receipts
    → AreFresh ids ch.indexer.accounts block.receipts
    → sum_fees block.receipts asset_default ≡ some block.rewards
    → insert_block c ch block ≡ ok ch'
    → IsBacked ids ch'.indexer × Lists ids ch'.indexer.accounts
unfolding insert_block commit set_chain_height
insert_block-IsBacked c ids ch ch' block backed lists settled fresh fees e =
    bind_ok-elim _ _ ch' e (λ _ _ e1. bind_ok-elim _ _ ch' e1 (λ batch indexed e2.
      bind_ok-elim _ _ ch' e2 (λ stored inserted e3.
        let (_, same) = store_insert_lem ch batch stored block inserted in
        subst (λ (ch : Blockchain). IsBacked ids ch.indexer × Lists ids ch.indexer.accounts)
          (ok_inj _ _ _ refl e3)
          (rw⁻¹ same
            (index_block-IsBacked ids ch block batch backed lists settled fresh fees indexed)))))

pub empty-IsSound :
    (c : Crypto) (ids : List AccountId) (pool : ReceiptPool)
    → IsBacked ids pool.chain.indexer
    → Lists ids pool.chain.indexer.accounts
    → pool.receipts ≡ []
    → IsSound c ids pool
empty-IsSound c ids pool backed lists e = record {
  backed = backed;
  lists = lists;
  settled = subst (λ (rs : List Receipt). AreSettled rs) (sym e) tt;
  fresh = subst (λ (rs : List Receipt). AreFresh ids pool.chain.indexer.accounts rs) (sym e) tt;
  runs = subst (λ (rs : List Receipt). RunInOrder c pool.chain [] rs) (sym e) tt;
}

-- The production of a block keeps the pool sound.
module _ (c : Crypto) (m : Minter) (ids : List AccountId) (now : ℕ) where
  mint-IsSound :
      (pool pool' : ReceiptPool) (receipts : List Receipt)
      → IsBacked ids pool.chain.indexer
      → Lists ids pool.chain.indexer.accounts
      → AreSettled receipts
      → AreFresh ids pool.chain.indexer.accounts receipts
      → pool.receipts ≡ []
      → mint_block c m now pool receipts ≡ ok pool'
      → IsSound c ids pool'
  unfolding mint_block block_sign child_of
  mint-IsSound pool pool' receipts backed lists settled fresh none e =
      bind_ok-elim _ _ pool' e (λ child made e1. bind_ok-elim _ _ pool' e1 (λ ch inserted e2.
        let (rewards, sum, same) =
          child_cases c now pool.chain.head child receipts (unwrap_ok _ _ made) in
        let (backed', lists') =
          insert_block-IsBacked c ids pool.chain ch (block_sign c m child) backed lists
            (rw same settled) (rw same fresh) (rw same sum) inserted in
        subst (IsSound c ids) (ok_inj _ _ _ refl e2)
          (empty-IsSound c ids (record pool { chain = ch }) backed' lists' none)))

  pub produce-IsSound :
      (force : Bool) (pool pool' : ReceiptPool)
      → IsSound c ids pool
      → produce c m now force pool ≡ ok pool'
      → IsSound c ids pool'
  unfolding produce
  produce-IsSound force pool pool' h e = bind_ok-elim _ _ pool' e (λ out flushed e1.
      let f = flush-Flushed now pool out flushed in
      elim (Bool-cases (should_produce m force out.0 out.1.chain.head)) [
        | inl due ↦
            mint-IsSound out.1 pool' out.0 (rw f.chain h.backed) (rw f.chain h.lists)
              (rw f.receipts h.settled) (rw (f.chain, f.receipts) h.fresh) f.emptied (rw due at e1)
        | inr idle ↦
            let same : out.1 ≡ pool' = ok_inj _ _ _ refl (rw idle at e1) in
            subst (IsSound c ids) same
              (empty-IsSound c ids out.1 (rw f.chain h.backed) (rw f.chain h.lists) f.emptied)
      ])
