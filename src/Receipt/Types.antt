-- ===== src/Receipt/Types.antt =====
-- Receipts and their logs (crates/godcoin/src/blockchain/receipt.rs).
use godcoin.Base.{List}
use godcoin.Asset.{Asset}
use godcoin.Script.Op.{AccountId}
use godcoin.Tx.Types.{TxVariant}

pub data LogEntry : Type 0 where
  transfer : AccountId → Asset → LogEntry
  destroy : AccountId → LogEntry

pub record Receipt : Type 0 where
  pub tx : TxVariant
  pub log : List LogEntry
