-- ===== src/Chain/Types.antt =====
-- Constants (crates/godcoin/src/constants.rs), errors (blockchain/error.rs), blocks (blockchain/block.rs)
-- and account information (blockchain/mod.rs). As for transactions, the version wrappers of blocks are left out.
use godcoin.Base.{ℕ, List, Option, Result, ok, err, some, none}
use godcoin.Base.Int.{pos}
use godcoin.Asset.{Asset, checked_add}
use godcoin.Crypto.{Digest, SigPair}
use godcoin.Script.Op.{EvalErr}
use godcoin.Account.Types.{Account}
use godcoin.Receipt.Types.{Receipt}

abbrev pub grael_fee_min : Asset
grael_fee_min = record { amount = pos 25 }

abbrev pub grael_fee_mult : Asset
grael_fee_mult = record { amount = pos 200000 }

abbrev pub grael_fee_net_mult : Asset
grael_fee_net_mult = record { amount = pos 101500 }

abbrev pub grael_acc_create_fee_mult : Asset
grael_acc_create_fee_mult = record { amount = pos 200000 }

abbrev pub grael_acc_create_min_bal_mult : Asset
grael_acc_create_min_bal_mult = record { amount = pos 200000 }

abbrev pub network_fee_avg_window : ℕ
network_fee_avg_window = 10

abbrev pub fee_reset_window : ℕ
fee_reset_window = 4

abbrev pub max_memo_byte_size : ℕ
max_memo_byte_size = 1024

abbrev pub max_script_byte_size : ℕ
max_script_byte_size = 2048

abbrev pub max_tx_signatures : ℕ
max_tx_signatures = 8

pub data TxErr : Type 0 where
  script_eval : EvalErr → TxErr
  account_not_found account_already_exists invalid_account_permissions : TxErr
  arithmetic invalid_amount invalid_fee_amount : TxErr
  too_many_signatures tx_too_large tx_prohibited tx_expired tx_dupe : TxErr

pub data BlockErr : Type 0 where
  invalid_block_height invalid_receipt_root invalid_signature invalid_prev_hash : BlockErr
  tx : TxErr → BlockErr

-- How an operation of the chain can stop: by an error, a panic, or, in the model alone, too little fuel.
pub data Stop (E : Type 0) : Type 0 where
  rejected : E → Stop E
  panic out_of_fuel : Stop E

pub record BlockHeader : Type 0 where
  pub previous_hash : Digest
  pub height : ℕ
  pub timestamp : ℕ
  pub receipt_root : Digest

pub record Block : Type 0 where
  pub header : BlockHeader
  pub signer : Option SigPair
  pub rewards : Asset
  pub receipts : List Receipt

pub record AccountInfo : Type 0 where
  pub account : Account
  pub net_fee : Asset
  pub account_fee : Asset

unfoldable pub total_fee : AccountInfo → Option Asset
total_fee info = checked_add info.net_fee info.account_fee

abbrev pub Outcome : Type 0 → Type 0 → Type 0
Outcome E A = Result (Stop E) A

infixl 5 ◌>>=◌ ◌>>◌
unfoldable pub ◌>>=◌ : {E A B : Type 0} → Outcome E A → (A → Outcome E B) → Outcome E B
ok a >>= f = f a
err e >>= f = err e

abbrev pub ◌>>◌ : {E A B : Type 0} → Outcome E A → Outcome E B → Outcome E B
r >> s = r >>= λ _. s

abbrev pub reject : {E A : Type 0} → E → Outcome E A
reject e = err (rejected e)

-- `ok_or`, and `unwrap` or `expect`.
unfoldable pub ok_or : {E A : Type 0} → Option A → E → Outcome E A
ok_or (some a) e = ok a
ok_or none e = reject e

unfoldable pub unwrap : {E A : Type 0} → Option A → Outcome E A
unwrap (some a) = ok a
unwrap none = err panic
