-- ===== src/Receipt/Format.antt =====
-- The byte format of receipts (crates/godcoin/src/blockchain/receipt.rs).
use godcoin.Base.{
  ℕ, zero, suc, ◌%◌, ◌^◌, List, [], ◌∷◌, ◌++◌, Bytes, none, length, ◌==◌, if◌then◌else◌,
}
use godcoin.Serializer.Write.{push_u8, push_u16, push_u64, push_asset}
use godcoin.Serializer.Read.{take_u8, take_u16, take_u64, take_asset}
use godcoin.Tx.Take.{Take, pure, ◌>>=◌, try, lift}
use godcoin.Tx.Format.{tx_serialize, tx_deserialize}
use godcoin.Receipt.Types.{LogEntry, transfer, destroy, Receipt}

unfoldable pub entry_serialize : LogEntry → Bytes → Bytes
entry_serialize (transfer acc amt) buf = push_asset (push_u64 (push_u8 buf 0x00) acc) amt
entry_serialize (destroy acc) buf = push_u64 (push_u8 buf 0x01) acc

unfoldable pub entry_body : ℕ → Take LogEntry
entry_body tag =
    if tag == 0x00
    then (do acc ← try take_u64; amt ← try take_asset; pure (transfer acc amt))
    else if tag == 0x01
    then (do acc ← try take_u64; pure (destroy acc))
    else lift none

unfoldable pub entry_deserialize : Take LogEntry
entry_deserialize = do tag ← try take_u8; entry_body tag

unfoldable pub push_entries : Bytes → List LogEntry → Bytes
push_entries buf [] = buf
push_entries buf (entry ∷ log) = push_entries (entry_serialize entry buf) log

unfoldable pub receipt_serialize : Receipt → Bytes → Bytes
receipt_serialize r buf =
    push_entries (push_u16 (tx_serialize r.tx buf) (length r.log % 2 ^ 16)) r.log

-- The loop over the entries left.
unfoldable pub take_entries : ℕ → List LogEntry → Take (List LogEntry)
take_entries zero log = pure log
take_entries (suc n) log = do entry ← entry_deserialize; take_entries n (log ++ (entry ∷ []))

unfoldable pub receipt_deserialize : Take Receipt
receipt_deserialize = do
  tx ← tx_deserialize
  log_len ← try take_u16
  log ← take_entries log_len []
  pure (record { tx = tx; log = log })
