-- ===== src/Chain/Linked.antt =====
-- The blocks of a chain are linked (crates/godcoin/src/blockchain/mod.rs,
-- crates/godcoin/src/blockchain/store.rs).
use mathlib.Core.Path.{subst}
use godcoin.Base.{
  ℕ, ◌+◌, ◌≤◌, ◌<◌, ◌≡◌, ◌==◌, refl, sym, ◌∙◌, ap, arith, true, false, List, [], ◌∷◌, some, ok,
  length, ltb, Bool-cases, inl, inr,
}
use godcoin.Crypto.{Crypto}
use godcoin.Chain.Types.{Block, BlockErr, Outcome, ◌>>=◌}
use godcoin.Chain.Block.{verify_previous_hash, verify_receipt_root}
use godcoin.Chain.Index.{Indexer, WriteBatch, set_chain_height, commit}
use godcoin.Chain.Accounts.{Blockchain, get_block, get_chain_height}
use godcoin.Chain.Verify.{assert_that, store_insert, insert_block}
use godcoin.Chain.Inversion.{bind_ok-elim, ok_inj}
use godcoin.Chain.BlockLaws.{Accepted, verify_block_lem}

-- What the store asserts, and does to the batch.
pub store_insert_lem :
    (ch : Blockchain) (batch stored : WriteBatch) (block : Block)
    → store_insert ch batch block ≡ ok stored
    → (get_chain_height ch + 1 ≡ block.header.height)
      × (set_chain_height batch block.header.height ≡ stored)
unfolding store_insert assert_that godcoin.Chain.Types.◌>>=◌
store_insert_lem ch batch stored block e =
    elim (Bool-cases (get_chain_height ch + 1 == block.header.height)) [
      | inl next ↦ (ground (arith, next), ok_inj _ _ _ refl (rw (store_insert, next) at e))
      | inr other ↦ absurd (cc (rw (store_insert, other) at e))
    ]

-- The blocks at a height and the next one, as the store has them.
pub record Link (c : Crypto) (ch : Blockchain) (height : ℕ) : Type 0 where
  pub prev : Block
  pub next : Block
  pub found : get_block ch height ≡ some prev
  pub followed : get_block ch (height + 1) ≡ some next
  pub placed : prev.header.height ≡ height
  pub one_higher : next.header.height ≡ height + 1
  pub hashed : verify_previous_hash c next prev ≡ true
  pub rooted : verify_receipt_root c next ≡ true

-- The head stands at the height of the chain, and every block below it is linked to the next.
pub record IsLinked (c : Crypto) (ch : Blockchain) : Type 0 where
  pub top : ch.head.header.height ≡ get_chain_height ch
  pub links : (height : ℕ) → height < get_chain_height ch → Link c ch height

abbrev pub insert_all : Crypto → Blockchain → List Block → Outcome BlockErr Blockchain
insert_all c ch [] = ok ch
insert_all c ch (block ∷ blocks) = insert_block c ch block >>= λ next. insert_all c next blocks

-- Each block is accepted by the chain that the blocks before it make.
abbrev pub AllAccepted : Crypto → Blockchain → List Block → Blockchain → Type 0
AllAccepted c ch [] ch' = ch ≡ ch'
AllAccepted c ch (block ∷ blocks) ch' =
    Accepted c ch block ch.head
    × ((next : Blockchain) × (insert_block c ch block ≡ ok next) × AllAccepted c next blocks ch')

-- The chain after one insertion.
pub record Extended (c : Crypto) (ch : Blockchain) (block : Block) (ch' : Blockchain) : Type 0 where
  pub accepted : Accepted c ch block ch.head
  pub height : get_chain_height ch' ≡ get_chain_height ch + 1
  pub placed : block.header.height ≡ get_chain_height ch + 1
  pub head : ch'.head ≡ block
  pub found : get_block ch' (get_chain_height ch + 1) ≡ some block
  pub kept : (h : ℕ) → h ≤ get_chain_height ch → get_block ch' h ≡ get_block ch h

self_test : (n : ℕ) → (n == n) ≡ true
self_test n = ground arith

module _ (ch : Blockchain) (index : Indexer) (block : Block) where
  abbrev after : Blockchain
  after = record { indexer = index; head = block; earlier = λ n. get_block ch n }

  new_found :
      index.chain_height ≡ get_chain_height ch + 1
      → get_block after (get_chain_height ch + 1) ≡ some block
  unfolding get_block
  new_found e = rw (e, self_test (get_chain_height ch + 1)) refl

  old_found :
      (h : ℕ)
      → index.chain_height ≡ get_chain_height ch + 1
      → h ≤ get_chain_height ch
      → get_block after h ≡ get_block ch h
  unfolding get_block
  old_found h e below =
      rw (e, differs h (get_chain_height ch) below, less h (get_chain_height ch) below) refl
    where
      differs : (h top : ℕ) → h ≤ top → (h == top + 1) ≡ false
      differs h top k = ground arith

      less : (h top : ℕ) → h ≤ top → ltb h (top + 1) ≡ true
      less h top k = ground arith

insert_block-Extended :
    (c : Crypto) (ch ch' : Blockchain) (block : Block)
    → insert_block c ch block ≡ ok ch'
    → Extended c ch block ch'
unfolding insert_block commit set_chain_height
insert_block-Extended c ch ch' block e = bind_ok-elim _ _ ch' e (λ u verified e1.
    bind_ok-elim _ _ ch' e1 (λ batch indexed e2. bind_ok-elim _ _ ch' e2 (λ stored inserted e3.
      let (next, same) = store_insert_lem ch batch stored block inserted in
      let height : (commit stored).chain_height ≡ get_chain_height ch + 1 = rw⁻¹ same (sym next) in
      subst (Extended c ch block) (ok_inj _ _ _ refl e3) (record {
        accepted = verify_block_lem c ch block ch.head u verified;
        height = height;
        placed = sym next;
        head = refl;
        found = new_found ch (commit stored) block height;
        kept = λ h below. old_found ch (commit stored) block h height below;
      }))))

-- The head of a chain is the block at its height.
head_found : (ch : Blockchain) → get_block ch (get_chain_height ch) ≡ some ch.head
unfolding get_block
head_found ch = rw (self_test (get_chain_height ch)) refl

Extended-IsLinked :
    (c : Crypto) (ch ch' : Blockchain) (block : Block)
    → IsLinked c ch
    → Extended c ch block ch'
    → IsLinked c ch'
Extended-IsLinked c ch ch' block linked x = record {
  top = ap (λ (b : Block). b.header.height) x.head ∙ (x.placed ∙ sym x.height);
  links = λ h below. elim (Bool-cases (ltb h (get_chain_height ch))) [
    | inl old ↦
        let l = linked.links h (ground (arith, old)) in
        record {
          prev = l.prev;
          next = l.next;
          placed = l.placed;
          one_higher = l.one_higher;
          hashed = l.hashed;
          rooted = l.rooted;
          found = x.kept h (ground (arith, old)) ∙ l.found;
          followed = x.kept (h + 1) (ground (arith, old)) ∙ l.followed;
        }
    | inr new ↦
        let at : h ≡ get_chain_height ch = ground (arith, new, below, x.height) in
        rw at (record {
          prev = ch.head;
          next = block;
          found = x.kept (get_chain_height ch) (omega arith) ∙ head_found ch;
          followed = x.found;
          placed = linked.top;
          one_higher = x.placed;
          hashed = x.accepted.hashed;
          rooted = x.accepted.rooted;
        })
  ];
}

-- Inserting blocks keeps the chain linked: below its height, every block is at its place and the next one
-- is one higher, names its hash and the root of its own receipts. Each block that is inserted was accepted
-- by the chain before it: it extends the head, is signed with the minter's key that the owner has set
-- there, and its receipts run in order. The chain grows by the number of the blocks, and no block that
-- it had is lost or replaced.
pub insert_all-IsLinked :
    (c : Crypto) (ch ch' : Blockchain) (blocks : List Block)
    → IsLinked c ch
    → insert_all c ch blocks ≡ ok ch'
    → IsLinked c ch'
      × AllAccepted c ch blocks ch'
      × (get_chain_height ch' ≡ get_chain_height ch + length blocks)
      × ((h : ℕ) → h ≤ get_chain_height ch → get_block ch' h ≡ get_block ch h)
insert_all-IsLinked c ch ch' [] linked e =
    let same : ch ≡ ch' = ok_inj _ _ _ refl e in
    rw⁻¹ same (linked, refl, omega arith, λ h below. refl)
insert_all-IsLinked c ch ch' (block ∷ blocks) linked e =
    bind_ok-elim _ _ ch' e (λ next inserted rest.
      let x = insert_block-Extended c ch next block inserted in
      let (linked', accepted, height, kept) =
        insert_all-IsLinked c next ch' blocks (Extended-IsLinked c ch next block linked x) rest in
      (
        linked',
        (x.accepted, (next, inserted, accepted)),
        omega (arith, height, x.height),
        λ h below. kept h (omega (arith, x.height)) ∙ x.kept h below,
      ))
