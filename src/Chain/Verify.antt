-- ===== src/Chain/Verify.antt =====
-- The checks of a block, and its insertion (crates/godcoin/src/blockchain/mod.rs).
use godcoin.Base.{◌+◌, not, List, [], ◌∷◌, ◌++◌, Bool, true, false, ok, err, ◌==◌}
use godcoin.Crypto.{Crypto, key_eq, verify_pair}
use godcoin.Receipt.Types.{LogEntry, Receipt}
use godcoin.Chain.Types.{
  Block, BlockErr, TxErr, rejected, panic, out_of_fuel, Outcome, reject, ok_or, ◌>>=◌, ◌>>◌,
}
use godcoin.Chain.Block.{calc_header_hash, verify_previous_hash, verify_receipt_root}
use godcoin.Chain.Index.{WriteBatch, batch_new, set_chain_height, commit}
use godcoin.Chain.Accounts.{Blockchain, get_block, get_chain_height}
use godcoin.Chain.Execute.{execute_tx, get_owner}
use godcoin.Chain.Apply.{index_block}

unfoldable pub refuse_if : Bool → BlockErr → Outcome BlockErr (Unit {0})
refuse_if true e = reject e
refuse_if false e = ok tt

-- The log that a transaction computes is not compared with the receipt's.
unfoldable pub of_tx : Outcome TxErr (List LogEntry) → Outcome BlockErr (Unit {0})
of_tx (ok log) = ok tt
of_tx (err (rejected e)) = reject (BlockErr.tx e)
of_tx (err panic) = err panic
of_tx (err out_of_fuel) = err out_of_fuel

-- Each transaction runs after the receipts before it, `done`.
unfoldable pub verify_receipts :
    Crypto → Blockchain → List Receipt → List Receipt → Outcome BlockErr (Unit {0})
verify_receipts c ch done [] = ok tt
verify_receipts c ch done (r ∷ rs) =
    of_tx (execute_tx c ch r.tx done) >> verify_receipts c ch (done ++ (r ∷ [])) rs

unfoldable pub verify_block : Crypto → Blockchain → Block → Block → Outcome BlockErr (Unit {0})
verify_block c ch block prev_block = do
  refuse_if (not (prev_block.header.height + 1 == block.header.height))
      BlockErr.invalid_block_height
  refuse_if (not (verify_receipt_root c block)) BlockErr.invalid_receipt_root
  refuse_if (not (verify_previous_hash c block prev_block)) BlockErr.invalid_prev_hash
  signer ← ok_or block.signer BlockErr.invalid_signature
  owner ← get_owner ch
  refuse_if (not (key_eq signer.pub_key owner.minter)) BlockErr.invalid_signature
  refuse_if (not (verify_pair c signer (calc_header_hash c block).bytes)) BlockErr.invalid_signature
  verify_receipts c ch [] block.receipts

-- `assert_eq!`.
unfoldable pub assert_that : Bool → Outcome BlockErr (Unit {0})
assert_that true = ok tt
assert_that false = err panic

-- `BlockStore::insert`, over the index: the height of the store is that of the chain.
unfoldable pub store_insert : Blockchain → WriteBatch → Block → Outcome BlockErr WriteBatch
store_insert ch batch block = do
  assert_that (get_chain_height ch + 1 == block.header.height)
  ok (set_chain_height batch block.header.height)

unfoldable pub insert_block : Crypto → Blockchain → Block → Outcome BlockErr Blockchain
insert_block c ch block = do
  verify_block c ch block ch.head
  batch ← index_block ch (batch_new ch.indexer) block
  stored ← store_insert ch batch block
  ok (record { indexer = commit stored; head = block; earlier = λ n. get_block ch n })
