-- ===== src/Tx/Types.antt =====
-- The kinds of transactions (crates/godcoin/src/tx/mod.rs). The version wrapper `TxVariant::V0` is the
-- only one there is, and is left out: a `TxVariant` here is its `TxVariantV0`.
use godcoin.Base.{ℕ, List, Bytes, Option}
use godcoin.Asset.{Asset}
use godcoin.Crypto.{PublicKey, SigPair}
use godcoin.Script.Op.{AccountId, Script}
use godcoin.Account.Types.{Account, Permissions}

pub data TxType : Type 0 where
  owner mint create_account update_account transfer : TxType

abbrev pub type_code : TxType → ℕ
type_code owner = 0x00
type_code mint = 0x01
type_code create_account = 0x02
type_code update_account = 0x03
type_code transfer = 0x04

-- What all transactions share.
pub record Tx : Type 0 where
  pub nonce : ℕ
  pub expiry : ℕ
  pub fee : Asset
  pub signature_pairs : List SigPair

pub record OwnerTx : Type 0 where
  pub base : Tx
  pub minter : PublicKey
  pub wallet : AccountId

pub record MintTx : Type 0 where
  pub base : Tx
  pub to : AccountId
  pub amount : Asset
  pub attachment : Bytes
  pub attachment_name : Bytes

pub record CreateAccountTx : Type 0 where
  pub base : Tx
  pub creator : AccountId
  pub account : Account

pub record UpdateAccountTx : Type 0 where
  pub base : Tx
  pub account_id : AccountId
  pub new_script : Option Script
  pub new_permissions : Option Permissions

pub record TransferTx : Type 0 where
  pub base : Tx
  pub from : AccountId
  pub call_fn : ℕ
  pub args : Bytes
  pub amount : Asset
  pub memo : Bytes

pub data TxVariant : Type 0 where
  owner_tx : OwnerTx → TxVariant
  mint_tx : MintTx → TxVariant
  create_account_tx : CreateAccountTx → TxVariant
  update_account_tx : UpdateAccountTx → TxVariant
  transfer_tx : TransferTx → TxVariant

-- `Deref for TxVariantV0`.
abbrev pub base : TxVariant → Tx
base (owner_tx tx) = tx.base
base (mint_tx tx) = tx.base
base (create_account_tx tx) = tx.base
base (update_account_tx tx) = tx.base
base (transfer_tx tx) = tx.base

abbrev pub expiry : TxVariant → ℕ
expiry tx = (base tx).expiry

abbrev pub sigs : TxVariant → List SigPair
sigs tx = (base tx).signature_pairs

-- An assignment to `signature_pairs` through `DerefMut for TxVariantV0`.
abbrev pub set_sigs : TxVariant → List SigPair → TxVariant
set_sigs (owner_tx tx) s = owner_tx (record tx { base = record (tx.base) { signature_pairs = s } })
set_sigs (mint_tx tx) s = mint_tx (record tx { base = record (tx.base) { signature_pairs = s } })
set_sigs (create_account_tx tx) s =
    create_account_tx (record tx { base = record (tx.base) { signature_pairs = s } })
set_sigs (update_account_tx tx) s =
    update_account_tx (record tx { base = record (tx.base) { signature_pairs = s } })
set_sigs (transfer_tx tx) s =
    transfer_tx (record tx { base = record (tx.base) { signature_pairs = s } })
