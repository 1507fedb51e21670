-- ===== src/Chain/BlockFormat.antt =====
-- Blocks are read back from their bytes (crates/godcoin/src/blockchain/block.rs).
use godcoin.Base.{
  ◌%◌, ◌^◌, ◌<◌, ◌≡◌, refl, ap, sym, ◌∙◌, arith, List, [], ◌∷◌, ◌++◌, Bytes, some, length,
  append_assoc, append-nil, All,
}
use godcoin.Base.Int.{InI64}
use godcoin.Crypto.{SigPair}
use godcoin.Serializer.Write.{be_bytes}
use godcoin.Serializer.Read.{take_u16, take_u32}
use godcoin.Serializer.Decodes.{take_u16-Decodes, take_u32-Decodes, take_u64-Decodes}
use godcoin.Serializer.Varint.{var_bytes}
use godcoin.Serializer.Laws.{
  pushes, sig_pair_bytes, IsDigest, IsSigPair, take_digest-Decodes, take_sig_pair-Decodes,
  take_asset-Decodes,
}
use godcoin.Tx.Take.{Takes, Takes-bind, Takes-map, Takes-try, try}
use godcoin.Receipt.Types.{Receipt}
use godcoin.Receipt.Format.{receipt_serialize, receipt_deserialize}
use godcoin.Receipt.RoundTrip.{IsWireReceipt, receipt_bytes, receipt_serialize_lem, receipt-Takes}
use godcoin.Chain.Types.{Block, BlockHeader}
use godcoin.Chain.Block.{
  header_serialize, header_v0_deserialize, header_deserialize, push_receipts, block_serialize,
  take_receipts, block_deserialize,
}

-- The sizes that the format holds.
pub record IsWireHeader (h : BlockHeader) : Type 0 where
  pub previous_digest : IsDigest h.previous_hash
  pub height_u64 : h.height < 2 ^ 64
  pub timestamp_u64 : h.timestamp < 2 ^ 64
  pub root_digest : IsDigest h.receipt_root

pub record IsWireBlock (b : Block) (signer : SigPair) : Type 0 where
  pub header_wire : IsWireHeader b.header
  pub signed : b.signer ≡ some signer
  pub signer_wire : IsSigPair signer
  pub rewards_i64 : InI64 b.rewards.amount
  pub receipt_count : length b.receipts < 2 ^ 32
  pub receipts_wire : All IsWireReceipt b.receipts

pub header_bytes : BlockHeader → Bytes
header_bytes h =
    be_bytes 2 0x00
    ++ (h.previous_hash.bytes
        ++ (be_bytes 8 h.height ++ (be_bytes 8 h.timestamp ++ h.receipt_root.bytes)))

receipts_bytes_of : List Receipt → Bytes
receipts_bytes_of [] = []
receipts_bytes_of (r ∷ rs) = receipt_bytes r ++ receipts_bytes_of rs

pub block_bytes : Block → SigPair → Bytes
block_bytes b signer =
    header_bytes b.header
    ++ (sig_pair_bytes signer
        ++ (var_bytes b.rewards.amount
            ++ (be_bytes 4 (length b.receipts % 2 ^ 32) ++ receipts_bytes_of b.receipts)))

pub header_serialize_lem :
    (h : BlockHeader) (buf : Bytes) → header_serialize h buf ≡ buf ++ header_bytes h
unfolding header_serialize header_bytes
header_serialize_lem h buf = simp pushes

push_receipts_lem :
    (buf : Bytes) (rs : List Receipt) → push_receipts buf rs ≡ buf ++ receipts_bytes_of rs
unfolding push_receipts receipts_bytes_of
push_receipts_lem buf [] = sym (append-nil buf)
push_receipts_lem buf (r ∷ rs) =
    push_receipts_lem (receipt_serialize r buf) rs ∙ simp (receipt_serialize_lem, append_assoc)

pub block_serialize_lem :
    (b : Block) (signer : SigPair) (buf : Bytes)
    → b.signer ≡ some signer
    → block_serialize b buf ≡ some (buf ++ block_bytes b signer)
unfolding block_serialize block_bytes
block_serialize_lem b signer buf e =
    rw e (ap some (simp (push_receipts_lem, header_serialize_lem, pushes)))

header_v0-Takes :
    (h : BlockHeader)
    → IsWireHeader h
    → Takes header_v0_deserialize
        (h.previous_hash.bytes
          ++ (be_bytes 8 h.height ++ (be_bytes 8 h.timestamp ++ h.receipt_root.bytes)))
        h
unfolding header_v0_deserialize
header_v0-Takes h w =
    Takes-bind _ _ h.previous_hash.bytes _ h.previous_hash h
      (Takes-try (take_digest-Decodes h.previous_hash w.previous_digest))
      (Takes-bind _ _ (be_bytes 8 h.height) _ h.height h
        (Takes-try (take_u64-Decodes h.height w.height_u64))
        (Takes-bind _ _ (be_bytes 8 h.timestamp) _ h.timestamp h
          (Takes-try (take_u64-Decodes h.timestamp w.timestamp_u64))
          (Takes-map _ _ h.receipt_root.bytes h.receipt_root h
            (Takes-try (take_digest-Decodes h.receipt_root w.root_digest)) refl)))

pub header-Takes : (h : BlockHeader) → IsWireHeader h → Takes header_deserialize (header_bytes h) h
unfolding header_deserialize header_bytes
header-Takes h w =
    Takes-bind (try take_u16) _ (be_bytes 2 0x00) _ 0x00 h
      (Takes-try (take_u16-Decodes 0x00 (omega arith))) (header_v0-Takes h w)

receipts-Takes :
    (rs acc : List Receipt)
    → All IsWireReceipt rs
    → Takes (take_receipts (length rs) acc) (receipts_bytes_of rs) (acc ++ rs)
unfolding take_receipts receipts_bytes_of
receipts-Takes [] acc h = record {
  runs = λ rest. ap (λ (t : List Receipt). some (t, rest)) (sym (append-nil acc));
}
receipts-Takes (r ∷ rs) acc h =
    Takes-bind receipt_deserialize _ (receipt_bytes r) (receipts_bytes_of rs) r (acc ++ r ∷ rs)
      (receipt-Takes r h.0)
      (rw (← append_assoc acc (r ∷ []) rs) (receipts-Takes rs (acc ++ (r ∷ [])) h.1))

pub block-Takes :
    (b : Block) (signer : SigPair)
    → IsWireBlock b signer
    → Takes block_deserialize (block_bytes b signer) b
unfolding block_deserialize block_bytes
block-Takes b signer w =
    let size : length b.receipts % 2 ^ 32 ≡ length b.receipts = omega (arith, w.receipt_count) in
    Takes-bind _ _ (header_bytes b.header) _ b.header b (header-Takes b.header w.header_wire) (
      Takes-bind _ _ (sig_pair_bytes signer) _ signer b
        (Takes-try (take_sig_pair-Decodes signer w.signer_wire))
        (Takes-bind _ _ (var_bytes b.rewards.amount) _ b.rewards b
          (Takes-try (take_asset-Decodes b.rewards w.rewards_i64))
          (Takes-bind (try take_u32) _ (be_bytes 4 (length b.receipts % 2 ^ 32)) _
            (length b.receipts % 2 ^ 32) b
            (Takes-try (take_u32-Decodes (length b.receipts % 2 ^ 32) (omega arith)))
            (Takes-map (take_receipts (length b.receipts % 2 ^ 32) []) _
              (receipts_bytes_of b.receipts) b.receipts b
              (rw size (receipts-Takes b.receipts [] w.receipts_wire)) (rw (← w.signed) refl)))))

-- A signed block whose fields fit the format is read back from what `serialize` appends to a buffer,
-- its header, signer, rewards and receipts, and what follows is left.
pub block_deserialize-serialize :
    (b : Block) (signer : SigPair) (buf rest : Bytes)
    → IsWireBlock b signer
    → (bs : Bytes) × (block_serialize b buf ≡ some (buf ++ bs))
      × (block_deserialize (bs ++ rest) ≡ some (b, rest))
block_deserialize-serialize b signer buf rest w = (
  block_bytes b signer,
  block_serialize_lem b signer buf w.signed,
  (block-Takes b signer w).runs rest,
)
