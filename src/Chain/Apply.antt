-- ===== src/Chain/Apply.antt =====
-- What a block does to the index: `index_receipt` and `index_block`
-- (crates/godcoin/src/blockchain/mod.rs).
use godcoin.Base.{true, List, [], ◌∷◌, some, none, ok, err}
use godcoin.Asset.{asset_default, checked_add, checked_sub}
use godcoin.Script.Op.{AccountId}
use godcoin.Tx.Types.{OwnerTx, owner_tx, mint_tx, create_account_tx, update_account_tx, transfer_tx}
use godcoin.Receipt.Types.{LogEntry, Receipt}
use godcoin.Chain.Types.{Block, panic, Outcome, unwrap, ◌>>=◌}
use godcoin.Chain.Index.{
  WriteBatch, set_owner, add_token_supply, insert_or_update_account, get_account_mut, put_account,
  add_bal, sub_bal,
}
use godcoin.Chain.Accounts.{Blockchain, new_script_of, new_permissions_of}
use godcoin.Chain.Execute.{get_owner}

module _ {E : Type 0} where
  -- A destroyed account passes its balance on.
  unfoldable pub index_entry : AccountId → WriteBatch → LogEntry → Outcome E WriteBatch
  index_entry from b (LogEntry.transfer to_acc amount) = add_bal b to_acc amount
  index_entry from b (LogEntry.destroy to_acc) = do
    acc ← get_account_mut b from
    add_bal (put_account b from (record acc { destroyed = true; balance = asset_default })) to_acc
        acc.balance

  unfoldable pub index_log : AccountId → WriteBatch → List LogEntry → Outcome E WriteBatch
  index_log from b [] = ok b
  index_log from b (entry ∷ log) = do b' ← index_entry from b entry; index_log from b' log

  unfoldable pub index_receipt : WriteBatch → Receipt → Outcome E WriteBatch
  index_receipt b r = elim (r.tx) [
    | owner_tx tx ↦ set_owner b (owner_tx tx)
    | mint_tx tx ↦ (do b' ← add_token_supply b tx.amount; add_bal b' tx.to tx.amount)
    | create_account_tx tx ↦ (do
      cost ← unwrap (checked_add tx.base.fee tx.account.balance)
      b' ← sub_bal b tx.creator cost
      ok (insert_or_update_account b' tx.account))
    | update_account_tx tx ↦ (do
      acc ← get_account_mut b tx.account_id
      balance ← unwrap (checked_sub acc.balance tx.base.fee)
      ok (
          put_account b tx.account_id (
            new_permissions_of tx.new_permissions
              (new_script_of tx.new_script (record acc { balance = balance })))))
    | transfer_tx tx ↦ (do
      cost ← unwrap (checked_add tx.base.fee tx.amount)
      b' ← sub_bal b tx.from cost
      index_log tx.from b' r.log)
  ]

  unfoldable pub index_receipts : WriteBatch → List Receipt → Outcome E WriteBatch
  index_receipts b [] = ok b
  index_receipts b (r ∷ rs) = do b' ← index_receipt b r; index_receipts b' rs

  -- Who gets the rewards: the owner that the block sets, or else the present one.
  unfoldable pub owner_after : Blockchain → WriteBatch → Outcome E OwnerTx
  owner_after ch b = elim (b.owner) [
    | some (owner_tx tx) ↦ ok tx
    | some _ ↦ err panic
    | none ↦ get_owner ch
  ]

  unfoldable pub index_block : Blockchain → WriteBatch → Block → Outcome E WriteBatch
  index_block ch b block = do
    b' ← index_receipts b block.receipts
    owner ← owner_after ch b'
    add_bal b' owner.wallet block.rewards
