-- ===== src/Tx/Laws.antt =====
-- Transactions are read back from their bytes (crates/godcoin/src/tx/mod.rs).
use godcoin.Base.{
  ◌%◌, ◌^◌, ◌<◌, ◌≡◌, sym, ◌∙◌, true, List, [], ◌∷◌, ◌++◌, Bytes, Option, some, none, length,
  append-nil, All,
}
use godcoin.Base.Int.{InI64}
use godcoin.Crypto.{SigPair}
use godcoin.Serializer.Write.{be_bytes, push_sig_pair}
use godcoin.Serializer.Varint.{var_bytes}
use godcoin.Serializer.Laws.{pushes, bytes_bytes, sig_pair_bytes, IsKey, IsSigPair, IsShort}
use godcoin.Script.Op.{Script}
use godcoin.Account.Types.{Permissions}
use godcoin.Account.Laws.{
  account_bytes, permissions_bytes, account_serialize_lem, permissions_serialize_lem, IsWireAccount,
  IsWirePermissions,
}
use godcoin.Tx.Types.{
  TxType, owner, mint, create_account, update_account, transfer, type_code, Tx, TxVariant, owner_tx,
  mint_tx, create_account_tx, update_account_tx, transfer_tx, base, sigs,
}
use godcoin.Tx.Utf8.{is_utf8}
use godcoin.Tx.Format.{
  serialize_header, owner_serialize, mint_serialize, create_account_serialize, push_script,
  push_permissions, update_account_serialize, transfer_serialize, serialize_without_sigs, push_sigs,
  tx_serialize,
}

-- The sizes that the format holds.
pub record IsWireTx (tx : Tx) : Type 0 where
  pub nonce_u32 : tx.nonce < 2 ^ 32
  pub expiry_u64 : tx.expiry < 2 ^ 64
  pub fee_i64 : InI64 tx.fee.amount
  pub sig_count : length tx.signature_pairs < 256
  pub sig_sizes : All IsSigPair tx.signature_pairs

abbrev pub IsWireScript : Option Script → Type 0
IsWireScript none = Unit
IsWireScript (some script) = IsShort script.code

abbrev pub IsWireNewPermissions : Option Permissions → Type 0
IsWireNewPermissions none = Unit
IsWireNewPermissions (some perms) = IsWirePermissions perms

abbrev pub IsWireBody : TxVariant → Type 0
IsWireBody (owner_tx tx) = IsKey tx.minter × (tx.wallet < 2 ^ 64)
IsWireBody (mint_tx tx) =
    (tx.to < 2 ^ 64)
    × InI64 tx.amount.amount
    × IsShort tx.attachment
    × IsShort tx.attachment_name
    × (is_utf8 tx.attachment_name ≡ true)
IsWireBody (create_account_tx tx) = (tx.creator < 2 ^ 64) × IsWireAccount tx.account
IsWireBody (update_account_tx tx) =
    (tx.account_id < 2 ^ 64) × IsWireScript tx.new_script × IsWireNewPermissions tx.new_permissions
IsWireBody (transfer_tx tx) =
    (tx.from < 2 ^ 64) × IsShort tx.args × InI64 tx.amount.amount × IsShort tx.memo

-- The bytes of the parts.
unfoldable pub header_bytes : Tx → Bytes
header_bytes tx = be_bytes 4 tx.nonce ++ (be_bytes 8 tx.expiry ++ var_bytes tx.fee.amount)

unfoldable pub script_bytes : Option Script → Bytes
script_bytes none = 0x00 ∷ []
script_bytes (some script) = 0x01 ∷ bytes_bytes script.code

unfoldable pub new_permissions_bytes : Option Permissions → Bytes
new_permissions_bytes none = 0x00 ∷ []
new_permissions_bytes (some perms) = 0x01 ∷ permissions_bytes perms

unfoldable pub tx_type : TxVariant → TxType
tx_type (owner_tx tx) = owner
tx_type (mint_tx tx) = mint
tx_type (create_account_tx tx) = create_account
tx_type (update_account_tx tx) = update_account
tx_type (transfer_tx tx) = transfer

unfoldable pub body_bytes : TxVariant → Bytes
body_bytes (owner_tx tx) = tx.minter.bytes ++ be_bytes 8 tx.wallet
body_bytes (mint_tx tx) =
    be_bytes 8 tx.to
    ++ (var_bytes tx.amount.amount ++ (bytes_bytes tx.attachment ++ bytes_bytes tx.attachment_name))
body_bytes (create_account_tx tx) = be_bytes 8 tx.creator ++ account_bytes tx.account
body_bytes (update_account_tx tx) =
    be_bytes 8 tx.account_id
    ++ (script_bytes tx.new_script ++ new_permissions_bytes tx.new_permissions)
body_bytes (transfer_tx tx) =
    be_bytes 8 tx.from
    ++ ((tx.call_fn ∷ [])
        ++ (bytes_bytes tx.args ++ (var_bytes tx.amount.amount ++ bytes_bytes tx.memo)))

unfoldable pub sigs_bytes : List SigPair → Bytes
sigs_bytes [] = []
sigs_bytes (sig ∷ sigs) = sig_pair_bytes sig ++ sigs_bytes sigs

unfoldable pub tx_bytes : TxVariant → Bytes
tx_bytes tx =
    be_bytes 2 0x00
    ++ ((type_code (tx_type tx) ∷ [])
        ++ (header_bytes (base tx)
            ++ (body_bytes tx ++ ((length (sigs tx) % 2 ^ 8 ∷ []) ++ sigs_bytes (sigs tx)))))

serialize_header_lem : (tx : Tx) (buf : Bytes) → serialize_header tx buf ≡ buf ++ header_bytes tx
unfolding serialize_header header_bytes
serialize_header_lem tx buf = simp pushes

push_script_lem : (buf : Bytes) (s : Option Script) → push_script buf s ≡ buf ++ script_bytes s
unfolding push_script script_bytes
push_script_lem buf none = simp pushes
push_script_lem buf (some script) = simp pushes

push_permissions_lem :
    (buf : Bytes) (p : Option Permissions) → push_permissions buf p ≡ buf ++ new_permissions_bytes p
unfolding push_permissions new_permissions_bytes
push_permissions_lem buf none = simp pushes
push_permissions_lem buf (some perms) = simp (pushes, permissions_serialize_lem)

push_sigs_lem : (buf : Bytes) (sigs : List SigPair) → push_sigs buf sigs ≡ buf ++ sigs_bytes sigs
unfolding push_sigs sigs_bytes
push_sigs_lem buf [] = sym (append-nil buf)
push_sigs_lem buf (sig ∷ sigs) = push_sigs_lem (push_sig_pair buf sig) sigs ∙ simp pushes

ruleset tx_pushes = (
  serialize_header_lem, push_script_lem, push_permissions_lem, push_sigs_lem, account_serialize_lem,
  pushes,
)

without_sigs_lem :
    (tx : TxVariant) (buf : Bytes)
    → serialize_without_sigs tx buf
      ≡ buf
        ++ (be_bytes 2 0x00
            ++ ((type_code (tx_type tx) ∷ []) ++ (header_bytes (base tx) ++ body_bytes tx)))
unfolding serialize_without_sigs tx_type body_bytes owner_serialize mint_serialize
    create_account_serialize update_account_serialize transfer_serialize
without_sigs_lem (owner_tx tx) buf = simp tx_pushes
without_sigs_lem (mint_tx tx) buf = simp tx_pushes
without_sigs_lem (create_account_tx tx) buf = simp tx_pushes
without_sigs_lem (update_account_tx tx) buf = simp tx_pushes
without_sigs_lem (transfer_tx tx) buf = simp tx_pushes

pub tx_serialize_lem : (tx : TxVariant) (buf : Bytes) → tx_serialize tx buf ≡ buf ++ tx_bytes tx
unfolding tx_serialize tx_bytes
tx_serialize_lem tx buf = simp (without_sigs_lem, tx_pushes)
