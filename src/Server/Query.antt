-- ===== src/Server/Query.antt =====
-- Blocks through a filter, and the properties of the chain (crates/godcoin/src/blockchain/mod.rs).
use godcoin.Base.{ℕ, Bool, false, ◌||◌, List, [], ◌∷◌, Option, some, none, ok, ◌==◌, if◌then◌else◌}
use godcoin.Script.Op.{AccountId}
use godcoin.Tx.Types.{
  TxVariant, owner_tx, mint_tx, create_account_tx, update_account_tx, transfer_tx,
}
use godcoin.Receipt.Types.{LogEntry, Receipt}
use godcoin.Chain.Types.{Block, Outcome, unwrap, ◌>>=◌}
use godcoin.Chain.Accounts.{Blockchain, get_block, get_chain_height, get_network_fee}
use godcoin.Net.Types.{BlockFilter, FilteredBlock, Properties}

-- `BTreeSet::contains`.
unfoldable pub contains : BlockFilter → AccountId → Bool
contains [] id = false
contains (acc ∷ filter) id = acc == id || contains filter id

-- Whom a log pays.
unfoldable pub log_matches : BlockFilter → List LogEntry → Bool
log_matches filter [] = false
log_matches filter (LogEntry.transfer to_acc amount ∷ log) =
    contains filter to_acc || log_matches filter log
log_matches filter (LogEntry.destroy to_acc ∷ log) =
    contains filter to_acc || log_matches filter log

unfoldable pub receipt_matches : BlockFilter → TxVariant → List LogEntry → Bool
receipt_matches filter (owner_tx tx) log = contains filter tx.wallet
receipt_matches filter (mint_tx tx) log = contains filter tx.to
receipt_matches filter (create_account_tx tx) log =
    contains filter tx.creator || contains filter tx.account.id
receipt_matches filter (update_account_tx tx) log = contains filter tx.account_id
receipt_matches filter (transfer_tx tx) log = contains filter tx.from || log_matches filter log

unfoldable pub any_matches : BlockFilter → List Receipt → Bool
any_matches filter [] = false
any_matches filter (r ∷ rs) = receipt_matches filter r.tx r.log || any_matches filter rs

-- An empty filter matches no block.
abbrev pub filter_matches : BlockFilter → List Receipt → Bool
filter_matches [] rs = false
filter_matches (acc ∷ filter) rs = any_matches (acc ∷ filter) rs

module _ {E : Type 0} where
  -- The panic is that of a block that is not signed.
  unfoldable pub filter_block : BlockFilter → Block → Outcome E FilteredBlock
  filter_block filter block =
      if filter_matches filter block.receipts
      then ok (FilteredBlock.block block)
      else (do signer ← unwrap block.signer; ok (FilteredBlock.header block.header signer))

  unfoldable pub get_filtered_block :
      Blockchain → ℕ → BlockFilter → Outcome E (Option FilteredBlock)
  get_filtered_block ch height filter = elim (get_block ch height) [
    | some block ↦ (do filtered ← filter_block filter block; ok (some filtered))
    | none ↦ ok none
  ]

  unfoldable pub get_properties : Blockchain → Outcome E Properties
  get_properties ch = do
    owner ← unwrap ch.indexer.owner
    fee ← get_network_fee ch
    network_fee ← unwrap fee
    ok (record {
      height = get_chain_height ch;
      owner = owner;
      network_fee = network_fee;
      token_supply = ch.indexer.token_supply;
    })
