-- ===== src/Chain/Block.antt =====
-- Block hashes, new blocks and the byte format of blocks (crates/godcoin/src/blockchain/block.rs).
use godcoin.Base.{
  ℕ, zero, suc, ◌+◌, ◌%◌, ◌^◌, Bool, List, [], ◌∷◌, ◌++◌, Bytes, Option, some, none, length, ◌==◌,
  if◌then◌else◌,
}
use godcoin.Asset.{Asset, asset_default, checked_add}
use godcoin.Crypto.{Crypto, Digest, double_sha256, digest_eq}
use godcoin.Serializer.Write.{push_u16, push_u32, push_u64, push_digest, push_sig_pair, push_asset}
use godcoin.Serializer.Read.{take_u16, take_u32, take_u64, take_digest, take_sig_pair, take_asset}
use godcoin.Tx.Types.{base}
use godcoin.Tx.Take.{Take, pure, ◌>>=◌, try, lift}
use godcoin.Receipt.Types.{Receipt}
use godcoin.Receipt.Format.{receipt_serialize, receipt_deserialize}
use godcoin.Chain.Types.{Block, BlockHeader}

unfoldable pub header_serialize : BlockHeader → Bytes → Bytes
header_serialize h buf =
    push_digest
      (push_u64 (push_u64 (push_digest (push_u16 buf 0x00) h.previous_hash) h.height) h.timestamp)
      h.receipt_root

unfoldable pub header_v0_deserialize : Take BlockHeader
header_v0_deserialize = do
  previous_hash ← try take_digest
  height ← try take_u64
  timestamp ← try take_u64
  receipt_root ← try take_digest
  pure (record {
    previous_hash = previous_hash;
    height = height;
    timestamp = timestamp;
    receipt_root = receipt_root;
  })

unfoldable pub header_deserialize : Take BlockHeader
header_deserialize = do
  header_ver ← try take_u16
  if header_ver == 0x00 then header_v0_deserialize else lift none

unfoldable pub calc_header_hash : Crypto → Block → Digest
calc_header_hash c b = double_sha256 c (header_serialize b.header [])

-- What `calc_receipt_root` feeds to its hasher.
unfoldable pub receipts_bytes : List Receipt → Bytes
receipts_bytes [] = []
receipts_bytes (r ∷ rs) = receipt_serialize r [] ++ receipts_bytes rs

unfoldable pub calc_receipt_root : Crypto → List Receipt → Digest
calc_receipt_root c receipts = double_sha256 c (receipts_bytes receipts)

unfoldable pub verify_previous_hash : Crypto → Block → Block → Bool
verify_previous_hash c b prev_block =
    digest_eq b.header.previous_hash (calc_header_hash c prev_block)

unfoldable pub verify_receipt_root : Crypto → Block → Bool
verify_receipt_root c b = digest_eq b.header.receipt_root (calc_receipt_root c b.receipts)

-- The fold over the fees; `none` is the panic of `unwrap`.
unfoldable pub sum_fees : List Receipt → Asset → Option Asset
sum_fees [] acc = some acc
sum_fees (r ∷ rs) acc =
    let sum = sum_fees rs in
    elim (checked_add acc (base r.tx).fee) [ some acc' ↦ sum acc' | none ↦ none ]

unfoldable pub child_of : Crypto → ℕ → Block → List Receipt → Asset → Block
child_of c now b receipts rewards = record {
  header = record {
    previous_hash = calc_header_hash c b;
    height = b.header.height + 1;
    timestamp = now;
    receipt_root = calc_receipt_root c receipts;
  };
  signer = none;
  rewards = rewards;
  receipts = receipts;
}

-- `BlockV0::new_child` at the time `now`.
unfoldable pub new_child : Crypto → ℕ → Block → List Receipt → Option Block
new_child c now b receipts = elim (sum_fees receipts asset_default) [
  | none ↦ none
  | some rewards ↦ some (child_of c now b receipts rewards)
]

unfoldable pub push_receipts : Bytes → List Receipt → Bytes
push_receipts buf [] = buf
push_receipts buf (r ∷ rs) = push_receipts (receipt_serialize r buf) rs

-- `none` is the panic on a block that is not signed.
unfoldable pub block_serialize : Block → Bytes → Option Bytes
block_serialize b buf = elim b.signer [
  | none ↦ none
  | some signer ↦
      let head = push_asset (push_sig_pair (header_serialize b.header buf) signer) b.rewards in
      some (push_receipts (push_u32 head (length b.receipts % 2 ^ 32)) b.receipts)
]

unfoldable pub take_receipts : ℕ → List Receipt → Take (List Receipt)
take_receipts zero receipts = pure receipts
take_receipts (suc n) receipts = do r ← receipt_deserialize; take_receipts n (receipts ++ (r ∷ []))

unfoldable pub block_deserialize : Take Block
block_deserialize = do
  header ← header_deserialize
  signer ← try take_sig_pair
  rewards ← try take_asset
  len ← try take_u32
  receipts ← take_receipts len []
  pure (record { header = header; signer = some signer; rewards = rewards; receipts = receipts })
