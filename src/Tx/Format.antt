-- ===== src/Tx/Format.antt =====
-- The byte format of transactions (crates/godcoin/src/tx/mod.rs), and the transaction id.
use godcoin.Base.{
  ℕ, zero, suc, ◌%◌, ◌^◌, List, [], ◌∷◌, ◌++◌, Bytes, Option, some, none, ◌==◌, if◌then◌else◌,
  length,
}
use godcoin.Crypto.{Crypto, Digest, SigPair}
use godcoin.Serializer.Write.{
  push_u8, push_u16, push_u32, push_u64, push_asset, push_bytes, push_pub_key, push_sig_pair,
}
use godcoin.Serializer.Read.{
  take_u8, take_u16, take_u32, take_u64, take_asset, take_bytes, take_pub_key, take_sig_pair,
}
use godcoin.Script.Op.{Script}
use godcoin.Account.Types.{Permissions}
use godcoin.Account.Format.{
  account_serialize, account_deserialize, permissions_serialize, permissions_deserialize,
}
use godcoin.Tx.Types.{
  TxType, owner, mint, create_account, update_account, transfer, type_code, Tx, OwnerTx, MintTx,
  CreateAccountTx, UpdateAccountTx, TransferTx, TxVariant, owner_tx, mint_tx, create_account_tx,
  update_account_tx, transfer_tx, sigs, set_sigs,
}
use godcoin.Tx.Utf8.{from_utf8}
use godcoin.Tx.Take.{Take, pure, ◌>>=◌, try, lift}

unfoldable pub serialize_header : Tx → Bytes → Bytes
serialize_header tx buf = push_asset (push_u64 (push_u32 buf tx.nonce) tx.expiry) tx.fee

unfoldable pub owner_serialize : OwnerTx → Bytes → Bytes
owner_serialize tx buf =
    push_u64 (push_pub_key (serialize_header tx.base (push_u8 buf (type_code owner))) tx.minter)
      tx.wallet

unfoldable pub mint_serialize : MintTx → Bytes → Bytes
mint_serialize tx buf =
    push_bytes
      (push_bytes
        (push_asset (push_u64 (serialize_header tx.base (push_u8 buf (type_code mint))) tx.to)
          tx.amount)
        tx.attachment)
      tx.attachment_name

unfoldable pub create_account_serialize : CreateAccountTx → Bytes → Bytes
create_account_serialize tx buf =
    account_serialize tx.account
      (push_u64 (serialize_header tx.base (push_u8 buf (type_code create_account))) tx.creator)

unfoldable pub push_script : Bytes → Option Script → Bytes
push_script buf none = push_u8 buf 0x00
push_script buf (some script) = push_bytes (push_u8 buf 0x01) script.code

unfoldable pub push_permissions : Bytes → Option Permissions → Bytes
push_permissions buf none = push_u8 buf 0x00
push_permissions buf (some perms) = permissions_serialize perms (push_u8 buf 0x01)

unfoldable pub update_account_serialize : UpdateAccountTx → Bytes → Bytes
update_account_serialize tx buf =
    push_permissions
      (push_script
        (push_u64 (serialize_header tx.base (push_u8 buf (type_code update_account))) tx.account_id)
        tx.new_script)
      tx.new_permissions

unfoldable pub transfer_serialize : TransferTx → Bytes → Bytes
transfer_serialize tx buf =
    push_bytes
      (push_asset
        (push_bytes
          (push_u8 (push_u64 (serialize_header tx.base (push_u8 buf (type_code transfer))) tx.from)
            tx.call_fn)
          tx.args)
        tx.amount)
      tx.memo

unfoldable pub serialize_without_sigs : TxVariant → Bytes → Bytes
serialize_without_sigs (owner_tx tx) buf = owner_serialize tx (push_u16 buf 0x00)
serialize_without_sigs (mint_tx tx) buf = mint_serialize tx (push_u16 buf 0x00)
serialize_without_sigs (create_account_tx tx) buf = create_account_serialize tx (push_u16 buf 0x00)
serialize_without_sigs (update_account_tx tx) buf = update_account_serialize tx (push_u16 buf 0x00)
serialize_without_sigs (transfer_tx tx) buf = transfer_serialize tx (push_u16 buf 0x00)

unfoldable pub push_sigs : Bytes → List SigPair → Bytes
push_sigs buf [] = buf
push_sigs buf (sig ∷ sigs) = push_sigs (push_sig_pair buf sig) sigs

unfoldable pub tx_serialize : TxVariant → Bytes → Bytes
tx_serialize tx buf =
    push_sigs (push_u8 (serialize_without_sigs tx buf) (length (sigs tx) % 2 ^ 8)) (sigs tx)

-- `CHAIN_ID` of constants.rs, of the main network.
abbrev pub chain_id : Bytes
chain_id = 0x00 ∷ 0x00 ∷ []

-- `DoubleSha256` fed the chain's id and the bytes without the signatures.
unfoldable pub calc_txid : Crypto → TxVariant → Digest
calc_txid c tx = record { bytes = c.sha256 (c.sha256 (chain_id ++ serialize_without_sigs tx [])) }

abbrev pub tx_type_of : ℕ → Option TxType
tx_type_of t =
    if t == type_code owner
    then some owner
    else if t == type_code mint
    then some mint
    else if t == type_code create_account
    then some create_account
    else if t == type_code update_account
    then some update_account
    else if t == type_code transfer
    then some transfer
    else none

unfoldable pub deserialize_header : Take (Tx × TxType)
deserialize_header = do
  tag ← try take_u8
  tx_type ← lift (tx_type_of tag)
  nonce ← try take_u32
  expiry ← try take_u64
  fee ← try take_asset
  pure (record { nonce = nonce; expiry = expiry; fee = fee; signature_pairs = [] }, tx_type)

unfoldable pub owner_deserialize : Tx → Take OwnerTx
owner_deserialize base = do
  minter ← try take_pub_key
  wallet ← try take_u64
  pure (record { base = base; minter = minter; wallet = wallet })

unfoldable pub mint_deserialize : Tx → Take MintTx
mint_deserialize base = do
  to ← try take_u64
  amount ← try take_asset
  attachment ← try take_bytes
  bytes ← try take_bytes
  attachment_name ← lift (from_utf8 bytes)
  pure (record {
    base = base;
    to = to;
    amount = amount;
    attachment = attachment;
    attachment_name = attachment_name;
  })

unfoldable pub create_account_deserialize : Tx → Take CreateAccountTx
create_account_deserialize base = do
  creator ← try take_u64
  account ← try account_deserialize
  pure (record { base = base; creator = creator; account = account })

unfoldable pub take_script : ℕ → Take (Option Script)
take_script tag =
    if tag == 0x01
    then (do code ← try take_bytes; pure (some (record { code = code })))
    else if tag == 0x00
    then pure none
    else lift none

unfoldable pub take_permissions : ℕ → Take (Option Permissions)
take_permissions tag =
    if tag == 0x01
    then (do perms ← try permissions_deserialize; pure (some perms))
    else if tag == 0x00
    then pure none
    else lift none

unfoldable pub update_account_deserialize : Tx → Take UpdateAccountTx
update_account_deserialize base = do
  account_id ← try take_u64
  script_tag ← try take_u8
  new_script ← take_script script_tag
  permissions_tag ← try take_u8
  new_permissions ← take_permissions permissions_tag
  pure (record {
    base = base;
    account_id = account_id;
    new_script = new_script;
    new_permissions = new_permissions;
  })

unfoldable pub transfer_deserialize : Tx → Take TransferTx
transfer_deserialize base = do
  from ← try take_u64
  call_fn ← try take_u8
  args ← try take_bytes
  amount ← try take_asset
  memo ← try take_bytes
  pure (record {
    base = base;
    from = from;
    call_fn = call_fn;
    args = args;
    amount = amount;
    memo = memo;
  })

unfoldable pub body_deserialize : TxType → Tx → Take TxVariant
body_deserialize owner base = do tx ← owner_deserialize base; pure (owner_tx tx)
body_deserialize mint base = do tx ← mint_deserialize base; pure (mint_tx tx)
body_deserialize create_account base = do
  tx ← create_account_deserialize base
  pure (create_account_tx tx)
body_deserialize update_account base = do
  tx ← update_account_deserialize base
  pure (update_account_tx tx)
body_deserialize transfer base = do tx ← transfer_deserialize base; pure (transfer_tx tx)

-- The loop over the signatures left.
unfoldable pub take_sigs : ℕ → List SigPair → Take (List SigPair)
take_sigs zero sigs = pure sigs
take_sigs (suc n) sigs = do sig ← try take_sig_pair; take_sigs n (sigs ++ (sig ∷ []))

unfoldable pub v0_deserialize : Take TxVariant
v0_deserialize = do
  (base, tx_type) ← deserialize_header
  tx ← body_deserialize tx_type base
  len ← try take_u8
  sigs ← take_sigs len []
  pure (set_sigs tx sigs)

unfoldable pub tx_deserialize : Take TxVariant
tx_deserialize = do tx_ver ← try take_u16; if tx_ver == 0x00 then v0_deserialize else lift none
