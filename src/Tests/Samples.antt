-- ===== src/Tests/Samples.antt =====
-- Test data: accounts, transactions, blocks and a chain.
use godcoin.Base.{true, false, List, [], ◌∷◌, some, none}
use godcoin.Base.Int.{pos}
use godcoin.Asset.{asset_default}
use godcoin.Crypto.{Crypto, SigPair}
use godcoin.Script.Op.{Script}
use godcoin.Account.Types.{Account}
use godcoin.Tx.Types.{MintTx, UpdateAccountTx, TransferTx, owner_tx, transfer_tx}
use godcoin.Receipt.Types.{LogEntry, Receipt}
use godcoin.Engine.Machine.{EngineData}
use godcoin.Chain.Types.{Block}
use godcoin.Chain.Index.{Indexer}
use godcoin.Chain.Accounts.{Blockchain}
use godcoin.Chain.Block.{child_of}

-- A stand-in for sodiumoxide: a digest is its message, and every signature holds.
abbrev pub crypto : Crypto
crypto = record { sha256 = λ b. b; verify_detached = λ sig msg key. true }

-- A function 0 that takes an account and an amount, transfers them, and returns true.
abbrev pub pay_script : Script
pay_script = record { code = 1 ∷ 0 ∷ 0 ∷ 0 ∷ 0 ∷ 6 ∷ 0x00 ∷ 2 ∷ 0x00 ∷ 0x01 ∷ 0x10 ∷ 0x21 ∷ [] }

abbrev pub wallet : Account
wallet = record {
  id = 1;
  balance = record { amount = pos 100000 };
  script = pay_script;
  permissions = record { threshold = 0; keys = [] };
  destroyed = false;
}

abbrev pub indexer : Indexer
indexer = record {
  chain_height = 0;
  owner = some (
      owner_tx (record {
        base = record { nonce = 0; expiry = 0; fee = asset_default; signature_pairs = [] };
        minter = record { bytes = [] };
        wallet = 2;
      }));
  token_supply = asset_default;
  accounts = λ id. some (record wallet { id = id });
}

abbrev pub genesis : Block
genesis = record {
  header = record {
    previous_hash = record { bytes = [] };
    height = 0;
    timestamp = 0;
    receipt_root = record { bytes = [] };
  };
  signer = none;
  rewards = asset_default;
  receipts = [];
}

abbrev pub blockchain : Blockchain
blockchain = record { indexer = indexer; head = genesis; earlier = λ n. none }

-- Account 1 sends 40 of 100 to account 2.
abbrev pub payment : TransferTx
payment = record {
  base = record { nonce = 0; expiry = 0; fee = record { amount = pos 1000 }; signature_pairs = [] };
  from = 1;
  call_fn = 0;
  args = 0 ∷ 0 ∷ 0 ∷ 0 ∷ 0 ∷ 0 ∷ 0 ∷ 2 ∷ 80 ∷ [];
  amount = record { amount = pos 100 };
  memo = [];
}

abbrev pub payment_log : List LogEntry
payment_log =
    LogEntry.transfer 2 (record { amount = pos 40 })
    ∷ LogEntry.transfer 1 (record { amount = pos 60 })
    ∷ []

abbrev pub payment_data : EngineData
payment_data = record {
  script = pay_script;
  tx = transfer_tx payment;
  txid = record { bytes = [] };
  chain = record { get_account = λ id receipts. some wallet; head_timestamp = 0 };
  additional_receipts = [];
}

abbrev pub minting : MintTx
minting = record {
  base = record { nonce = 0; expiry = 0; fee = asset_default; signature_pairs = [] };
  to = 2;
  amount = record { amount = pos 500 };
  attachment = [];
  attachment_name = [];
}

-- The owner's script returns true on every call.
abbrev pub free_script : Script
free_script = record { code = 1 ∷ 0 ∷ 0 ∷ 0 ∷ 0 ∷ 6 ∷ 0x00 ∷ 0 ∷ 0x21 ∷ [] }

abbrev pub mint_chain : Blockchain
mint_chain = record {
  indexer = record indexer { accounts = λ id. some (record wallet { script = free_script }) };
  head = genesis;
  earlier = λ n. none;
}

abbrev pub no_log : List LogEntry
no_log = []

abbrev pub signature : SigPair
signature = record { pub_key = record { bytes = [] }; signature = record { bytes = [] } }

abbrev pub payment_receipt : Receipt
payment_receipt = record { tx = transfer_tx payment; log = payment_log }

abbrev pub child : Block
child = child_of crypto 7 genesis (payment_receipt ∷ []) (record { amount = pos 1000 })

abbrev pub signed_child : Block
signed_child = record child { signer = some signature }

abbrev pub update : UpdateAccountTx
update = record {
  base = record { nonce = 0; expiry = 0; fee = asset_default; signature_pairs = [] };
  account_id = 5;
  new_script = some free_script;
  new_permissions = none;
}
