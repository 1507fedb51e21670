-- ===== src/Tests/Wire.antt =====
-- Witnesses for the formats of blocks and messages.
use godcoin.Base.{◌≡◌, refl, arith, [], ◌∷◌, ◌++◌, Bytes, some, ok, replicate}
use godcoin.Base.Int.{pos}
use godcoin.Crypto.{SigPair}
use godcoin.Tx.Laws.{IsWireTx}
use godcoin.Receipt.RoundTrip.{IsWireReceipt}
use godcoin.Chain.Types.{Block}
use godcoin.Chain.Block.{block_serialize, block_deserialize}
use godcoin.Chain.BlockFormat.{IsWireBlock, block_deserialize-serialize}
use godcoin.Net.Types.{Body, Msg, FilteredBlock, Response}
use godcoin.Net.Message.{msg_serialize, msg_deserialize}
use godcoin.Net.RoundTrip.{msg_deserialize-serialize}
use godcoin.Tests.Samples.{payment, payment_receipt}

abbrev pub zeros : Bytes
zeros = replicate 32 0

abbrev pub wire_signer : SigPair
wire_signer = record {
  pub_key = record { bytes = zeros };
  signature = record { bytes = replicate 64 7 };
}

abbrev pub wire_block : Block
wire_block = record {
  header = record {
    previous_hash = record { bytes = zeros };
    height = 4;
    timestamp = 99;
    receipt_root = record { bytes = zeros };
  };
  signer = some wire_signer;
  rewards = record { amount = pos 1000 };
  receipts = payment_receipt ∷ [];
}

payment_fits : IsWireTx payment.base
payment_fits = record {
  nonce_u32 = omega arith;
  expiry_u64 = omega arith;
  fee_i64 = omega arith;
  sig_count = omega arith;
  sig_sizes = tt;
}

receipt_fits : IsWireReceipt payment_receipt
receipt_fits = record {
  tx_wire = payment_fits;
  body_wire = (omega arith, omega arith, omega arith, omega arith);
  log_count = omega arith;
  log_wire = ((omega arith, omega arith), ((omega arith, omega arith), tt));
}

block_fits : IsWireBlock wire_block wire_signer
block_fits = record {
  header_wire = record {
    previous_digest = refl;
    height_u64 = omega arith;
    timestamp_u64 = omega arith;
    root_digest = refl;
  };
  signed = refl;
  signer_wire = (refl, refl);
  rewards_i64 = omega arith;
  receipt_count = omega arith;
  receipts_wire = (receipt_fits, tt);
}

block_deserialize-serialize_example :
    (bs : Bytes) × (block_serialize wire_block [] ≡ some ([] ++ bs))
    × (block_deserialize (bs ++ (7 ∷ [])) ≡ some (wire_block, 7 ∷ []))
block_deserialize-serialize_example =
    block_deserialize-serialize wire_block wire_signer [] (7 ∷ []) block_fits

-- A block that a filter has let through, in a response.
abbrev block_msg : Msg
block_msg = record {
  id = 12;
  body = Body.response (Response.get_block (FilteredBlock.block wire_block));
}

msg_deserialize-serialize_example :
    (bs : Bytes) × (msg_serialize block_msg [] ≡ some ([] ++ bs))
    × (msg_deserialize (bs ++ (7 ∷ [])) ≡ ok (block_msg, 7 ∷ []))
msg_deserialize-serialize_example =
    msg_deserialize-serialize block_msg [] (7 ∷ []) (omega arith) (wire_signer, block_fits)
