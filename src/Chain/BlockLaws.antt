-- ===== src/Chain/BlockLaws.antt =====
-- New blocks pass the checks of the next one (crates/godcoin/src/blockchain/block.rs).
use godcoin.Base.{
  Bool, false, not, ℕ, ◌+◌, ◌≡◌, refl, arith, true, List, [], ◌∷◌, ◌++◌, Option, some, none, ok,
  err,
}
use godcoin.Asset.{Asset, asset_default}
use godcoin.Crypto.{Crypto, SigPair, key_eq, verify_pair}
use godcoin.Receipt.Types.{LogEntry, Receipt}
use godcoin.Chain.Types.{Block, BlockErr, TxErr, rejected, panic, out_of_fuel, Outcome, ok_or}
use godcoin.Chain.Block.{
  calc_header_hash, verify_previous_hash, verify_receipt_root, sum_fees, new_child, child_of,
}
use godcoin.Chain.Accounts.{Blockchain}
use godcoin.Chain.Execute.{execute_tx, get_owner}
use godcoin.Tx.Types.{OwnerTx}
use godcoin.Chain.Verify.{of_tx, verify_receipts, verify_block}
use godcoin.Chain.Inversion.{
  bind_ok, bind_ok-elim, refuse_if_ok, ok_or_ok, bind_to, refuse_if_passes,
}

pub child_cases :
    (c : Crypto) (now : ℕ) (b child : Block) (receipts : List Receipt)
    → new_child c now b receipts ≡ some child
    → (rewards : Asset) × (sum_fees receipts asset_default ≡ some rewards)
      × (child ≡ child_of c now b receipts rewards)
unfolding new_child
child_cases c now b child receipts = from_sum (sum_fees receipts asset_default)
  where
    from_sum :
        (sum : Option Asset)
        → elim sum [ none ↦ none | some rewards ↦ some (child_of c now b receipts rewards) ]
          ≡ some child
        → (rewards : Asset) × (sum ≡ some rewards) × (child ≡ child_of c now b receipts rewards)
    from_sum none e = absurd cc
    from_sum (some rewards) e = (rewards, refl, cc)

of_not : (b : Bool) → not b ≡ false → b ≡ true
of_not true e = refl
of_not false e = absurd cc

-- The receipts of a block that is verified run one after the other, each after those before it.
abbrev pub RunInOrder : Crypto → Blockchain → List Receipt → List Receipt → Type 0
RunInOrder c ch done [] = Unit {0}
RunInOrder c ch done (r ∷ rs) =
    ((log : List LogEntry) × (execute_tx c ch r.tx done ≡ ok log))
    × RunInOrder c ch (done ++ (r ∷ [])) rs

ran :
    (r : Outcome TxErr (List LogEntry)) (u : Unit {0})
    → of_tx r ≡ ok u
    → (log : List LogEntry) × (r ≡ ok log)
unfolding of_tx
ran (ok log) u e = (log, refl)
ran (err (rejected x)) u e = absurd cc
ran (err panic) u e = absurd cc
ran (err out_of_fuel) u e = absurd cc

verify_receipts-RunInOrder :
    (c : Crypto) (ch : Blockchain) (done receipts : List Receipt) (u : Unit {0})
    → verify_receipts c ch done receipts ≡ ok u
    → RunInOrder c ch done receipts
unfolding verify_receipts
verify_receipts-RunInOrder c ch done [] u e = tt
verify_receipts-RunInOrder c ch done (r ∷ rs) u e =
    let (u', first, rest) = bind_ok (of_tx (execute_tx c ch r.tx done)) _ u e in
    (
      ran (execute_tx c ch r.tx done) u' first,
      verify_receipts-RunInOrder c ch (done ++ (r ∷ [])) rs u rest,
    )

-- What `verify_block` accepts: a block one higher than the previous one, which names the hash of that and
-- the root of its own receipts, is signed with the minter's key that the owner has set, and whose receipts
-- run in order.
pub record Accepted (c : Crypto) (ch : Blockchain) (block prev : Block) : Type 0 where
  pub height : prev.header.height + 1 ≡ block.header.height
  pub hashed : verify_previous_hash c block prev ≡ true
  pub rooted : verify_receipt_root c block ≡ true
  pub signer : SigPair
  pub owner : OwnerTx
  pub signed : block.signer ≡ some signer
  pub owned : get_owner {E = BlockErr} ch ≡ ok owner
  pub minted : key_eq signer.pub_key owner.minter ≡ true
  pub verified : verify_pair c signer (calc_header_hash c block).bytes ≡ true
  pub runs : RunInOrder c ch [] block.receipts

pub verify_block_lem :
    (c : Crypto) (ch : Blockchain) (block prev : Block) (u : Unit {0})
    → verify_block c ch block prev ≡ ok u
    → Accepted c ch block prev
unfolding verify_block ok_or
verify_block_lem c ch block prev u e = bind_ok-elim _ _ u e (λ _ height e1.
    bind_ok-elim _ _ u e1 (λ _ root e2. bind_ok-elim _ _ u e2 (λ _ hash e3.
      bind_ok-elim _ _ u e3 (λ signer signed e4. bind_ok-elim _ _ u e4 (λ owner owned e5.
        bind_ok-elim _ _ u e5 (λ _ minted e6. bind_ok-elim _ _ u e6 (λ _ verified e7. record {
          height = ground (arith, refuse_if_ok _ _ _ height);
          hashed = of_not (verify_previous_hash c block prev) (refuse_if_ok _ _ _ hash);
          rooted = of_not (verify_receipt_root c block) (refuse_if_ok _ _ _ root);
          signer = signer;
          owner = owner;
          signed = ok_or_ok _ _ _ signed;
          owned = owned;
          minted = of_not (key_eq signer.pub_key owner.minter) (refuse_if_ok _ _ _ minted);
          verified =
              of_not (verify_pair c signer (calc_header_hash c block).bytes)
                (refuse_if_ok _ _ _ verified);
          runs = verify_receipts-RunInOrder c ch [] block.receipts u e7;
        })))))))

pub verify_block_passes :
    (c : Crypto) (ch : Blockchain) (block prev : Block) (signer : SigPair) (owner : OwnerTx)
    → prev.header.height + 1 ≡ block.header.height
    → verify_previous_hash c block prev ≡ true
    → verify_receipt_root c block ≡ true
    → block.signer ≡ some signer
    → get_owner {E = BlockErr} ch ≡ ok owner
    → key_eq signer.pub_key owner.minter ≡ true
    → verify_pair c signer (calc_header_hash c block).bytes ≡ true
    → verify_receipts c ch [] block.receipts ≡ ok tt
    → verify_block c ch block prev ≡ ok tt
unfolding verify_block ok_or
verify_block_passes c ch block prev signer owner height hash root signed owned named holds run =
    refuse_if_passes _ _ _ tt (ground (arith, height)) (
      refuse_if_passes _ _ _ tt root (
        refuse_if_passes _ _ _ tt hash (
          bind_to _ _ signer tt (rw signed refl) (
            bind_to _ _ owner tt owned
              (refuse_if_passes _ _ _ tt named (refuse_if_passes _ _ _ tt holds run))))))
