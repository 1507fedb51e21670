-- ===== src/Receipt/RoundTrip.antt =====
-- Receipts are read back from their bytes (crates/godcoin/src/blockchain/receipt.rs).
use godcoin.Base.{
  ◌%◌, ◌^◌, ◌<◌, ◌≡◌, refl, ap, sym, ◌∙◌, arith, List, [], ◌∷◌, ◌++◌, Bytes, some, length,
  append_assoc, append-nil, All,
}
use godcoin.Base.Int.{InI64}
use godcoin.Serializer.Write.{be_bytes}
use godcoin.Serializer.Read.{take_u8, take_u16, take_u64, take_asset}
use godcoin.Serializer.Decodes.{take_u8-Decodes, take_u16-Decodes, take_u64-Decodes}
use godcoin.Serializer.Varint.{var_bytes}
use godcoin.Serializer.Laws.{pushes, take_asset-Decodes}
use godcoin.Tx.Types.{base}
use godcoin.Tx.Take.{Takes, Takes-bind, Takes-map, Takes-try, try}
use godcoin.Tx.Laws.{IsWireTx, IsWireBody, tx_bytes, tx_serialize_lem}
use godcoin.Tx.RoundTrip.{tx-Takes}
use godcoin.Receipt.Types.{LogEntry, transfer, destroy, Receipt}
use godcoin.Receipt.Format.{
  entry_serialize, entry_body, entry_deserialize, push_entries, receipt_serialize, take_entries,
  receipt_deserialize,
}

-- The sizes that the format holds.
abbrev pub IsWireEntry : LogEntry → Type 0
IsWireEntry (transfer acc amt) = (acc < 2 ^ 64) × InI64 amt.amount
IsWireEntry (destroy acc) = acc < 2 ^ 64

pub record IsWireReceipt (r : Receipt) : Type 0 where
  pub tx_wire : IsWireTx (base r.tx)
  pub body_wire : IsWireBody r.tx
  pub log_count : length r.log < 2 ^ 16
  pub log_wire : All IsWireEntry r.log

entry_bytes : LogEntry → Bytes
entry_bytes (transfer acc amt) = (0x00 ∷ []) ++ (be_bytes 8 acc ++ var_bytes amt.amount)
entry_bytes (destroy acc) = (0x01 ∷ []) ++ be_bytes 8 acc

log_bytes : List LogEntry → Bytes
log_bytes [] = []
log_bytes (entry ∷ log) = entry_bytes entry ++ log_bytes log

pub receipt_bytes : Receipt → Bytes
receipt_bytes r = tx_bytes r.tx ++ (be_bytes 2 (length r.log % 2 ^ 16) ++ log_bytes r.log)

entry_serialize_lem : (e : LogEntry) (buf : Bytes) → entry_serialize e buf ≡ buf ++ entry_bytes e
unfolding entry_serialize entry_bytes
entry_serialize_lem (transfer acc amt) buf = simp pushes
entry_serialize_lem (destroy acc) buf = simp pushes

push_entries_lem : (buf : Bytes) (log : List LogEntry) → push_entries buf log ≡ buf ++ log_bytes log
unfolding push_entries log_bytes
push_entries_lem buf [] = sym (append-nil buf)
push_entries_lem buf (entry ∷ log) =
    push_entries_lem (entry_serialize entry buf) log ∙ simp (entry_serialize_lem, append_assoc)

pub receipt_serialize_lem :
    (r : Receipt) (buf : Bytes) → receipt_serialize r buf ≡ buf ++ receipt_bytes r
unfolding receipt_serialize receipt_bytes
receipt_serialize_lem r buf = simp (push_entries_lem, tx_serialize_lem, pushes)

entry-Takes : (e : LogEntry) → IsWireEntry e → Takes entry_deserialize (entry_bytes e) e
unfolding entry_deserialize entry_body entry_bytes
entry-Takes (transfer acc amt) (id, amount) =
    Takes-bind (try take_u8) _ (0x00 ∷ []) _ 0x00 _ (Takes-try (take_u8-Decodes 0x00)) (
      Takes-bind (try take_u64) _ (be_bytes 8 acc) _ acc _ (Takes-try (take_u64-Decodes acc id)) (
        Takes-map (try take_asset) _ (var_bytes amt.amount) amt _
          (Takes-try (take_asset-Decodes amt amount)) refl))
entry-Takes (destroy acc) id =
    Takes-bind (try take_u8) _ (0x01 ∷ []) _ 0x01 _ (Takes-try (take_u8-Decodes 0x01))
      (Takes-map (try take_u64) _ (be_bytes 8 acc) acc _ (Takes-try (take_u64-Decodes acc id)) refl)

entries-Takes :
    (log acc : List LogEntry)
    → All IsWireEntry log
    → Takes (take_entries (length log) acc) (log_bytes log) (acc ++ log)
unfolding take_entries log_bytes
entries-Takes [] acc h = record {
  runs = λ rest. ap (λ (t : List LogEntry). some (t, rest)) (sym (append-nil acc));
}
entries-Takes (entry ∷ log) acc h =
    Takes-bind entry_deserialize _ (entry_bytes entry) (log_bytes log) entry (acc ++ entry ∷ log)
      (entry-Takes entry h.0)
      (rw (← append_assoc acc (entry ∷ []) log) (entries-Takes log (acc ++ (entry ∷ [])) h.1))

pub receipt-Takes : (r : Receipt) → IsWireReceipt r → Takes receipt_deserialize (receipt_bytes r) r
unfolding receipt_deserialize receipt_bytes
receipt-Takes r h =
    let size : length r.log % 2 ^ 16 ≡ length r.log = omega (arith, h.log_count) in
    Takes-bind _ _ (tx_bytes r.tx) _ r.tx r (tx-Takes r.tx h.tx_wire h.body_wire) (
      Takes-bind (try take_u16) _ (be_bytes 2 (length r.log % 2 ^ 16)) _ (length r.log % 2 ^ 16) r
        (Takes-try (take_u16-Decodes (length r.log % 2 ^ 16) (omega arith)))
        (Takes-map (take_entries (length r.log % 2 ^ 16) []) _ (log_bytes r.log) r.log r
          (rw size (entries-Takes r.log [] h.log_wire)) refl))
