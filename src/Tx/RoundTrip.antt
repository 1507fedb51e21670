-- ===== src/Tx/RoundTrip.antt =====
-- Every transaction is read back from its bytes (crates/godcoin/src/tx/mod.rs).
use godcoin.Base.{
  ◌%◌, ◌^◌, ◌≡◌, refl, ap, sym, arith, true, List, [], ◌∷◌, ◌++◌, Bytes, Option, some, none, length,
  append_assoc, append-nil, All,
}
use godcoin.Crypto.{SigPair}
use godcoin.Serializer.Write.{be_bytes}
use godcoin.Serializer.Read.{take_u8, take_u16, take_bytes, take_sig_pair}
use godcoin.Serializer.Decodes.{
  take_u8-Decodes, take_u16-Decodes, take_u32-Decodes, take_u64-Decodes,
}
use godcoin.Serializer.Varint.{var_bytes}
use godcoin.Serializer.Laws.{
  bytes_bytes, sig_pair_bytes, IsSigPair, take_pub_key-Decodes, take_bytes-Decodes,
  take_asset-Decodes, take_sig_pair-Decodes,
}
use godcoin.Script.Op.{Script}
use godcoin.Account.Types.{Permissions}
use godcoin.Account.Format.{permissions_deserialize}
use godcoin.Account.Laws.{
  account_bytes, permissions_bytes, account_deserialize-Decodes, permissions_deserialize-Decodes,
}
use godcoin.Tx.Types.{
  TxType, owner, mint, create_account, update_account, transfer, type_code, Tx, OwnerTx, MintTx,
  CreateAccountTx, UpdateAccountTx, TransferTx, TxVariant, owner_tx, mint_tx, create_account_tx,
  update_account_tx, transfer_tx, base, sigs, set_sigs,
}
use godcoin.Tx.Utf8.{is_utf8, from_utf8}
use godcoin.Tx.Take.{
  Takes, Takes-bind, Takes-map, Takes-try, Takes-lift, Take, lift, try, pure, ◌>>=◌,
}
use godcoin.Tx.Format.{
  tx_serialize, tx_type_of, deserialize_header, owner_deserialize, mint_deserialize,
  create_account_deserialize, take_script, take_permissions, update_account_deserialize,
  transfer_deserialize, body_deserialize, take_sigs, v0_deserialize, tx_deserialize,
}
use godcoin.Tx.Laws.{
  IsWireTx, IsWireScript, IsWireNewPermissions, IsWireBody, header_bytes, script_bytes,
  new_permissions_bytes, tx_type, body_bytes, sigs_bytes, tx_bytes, tx_serialize_lem,
}

type_known : (t : TxType) → tx_type_of (type_code t) ≡ some t
type_known owner = refl
type_known mint = refl
type_known create_account = refl
type_known update_account = refl
type_known transfer = refl

abbrev unsigned : Tx → Tx
unsigned tx = record tx { signature_pairs = [] }

header-Takes :
    (tx : Tx) (t : TxType)
    → IsWireTx tx
    → Takes deserialize_header ((type_code t ∷ []) ++ header_bytes tx) (unsigned tx, t)
unfolding deserialize_header header_bytes
header-Takes tx t h =
    Takes-bind _ _ (type_code t ∷ []) _ (type_code t) _ (Takes-try (take_u8-Decodes (type_code t)))
      (Takes-bind _ _ [] _ t _ (Takes-lift (tx_type_of (type_code t)) t (type_known t)) (
        Takes-bind _ _ (be_bytes 4 tx.nonce) _ tx.nonce _
          (Takes-try (take_u32-Decodes tx.nonce h.nonce_u32))
          (Takes-bind _ _ (be_bytes 8 tx.expiry) _ tx.expiry _
            (Takes-try (take_u64-Decodes tx.expiry h.expiry_u64))
            (Takes-map _ _ (var_bytes tx.fee.amount) tx.fee _
              (Takes-try (take_asset-Decodes tx.fee h.fee_i64)) refl))))

owner-Takes :
    (tx : OwnerTx) (b : Tx)
    → IsWireBody (owner_tx tx)
    → Takes (owner_deserialize b) (body_bytes (owner_tx tx)) (record tx { base = b })
unfolding owner_deserialize body_bytes
owner-Takes tx b h =
    Takes-bind _ _ tx.minter.bytes _ tx.minter _ (Takes-try (take_pub_key-Decodes tx.minter h.0)) (
      Takes-map _ _ (be_bytes 8 tx.wallet) tx.wallet _ (Takes-try (take_u64-Decodes tx.wallet h.1))
        refl)

valid_utf8 : (s : Bytes) → is_utf8 s ≡ true → from_utf8 s ≡ some s
unfolding from_utf8
valid_utf8 s e = rw e

mint-Takes :
    (tx : MintTx) (b : Tx)
    → IsWireBody (mint_tx tx)
    → Takes (mint_deserialize b) (body_bytes (mint_tx tx)) (record tx { base = b })
unfolding mint_deserialize body_bytes
mint-Takes tx b (to, amount, attachment, name, utf8) =
    Takes-bind _ _ (be_bytes 8 tx.to) _ tx.to _ (Takes-try (take_u64-Decodes tx.to to)) (
      Takes-bind _ _ (var_bytes tx.amount.amount) _ tx.amount _
        (Takes-try (take_asset-Decodes tx.amount amount))
        (Takes-bind _ _ (bytes_bytes tx.attachment) _ tx.attachment _
          (Takes-try (take_bytes-Decodes tx.attachment attachment))
          (rw (← append-nil (bytes_bytes tx.attachment_name)) (
            Takes-bind (try take_bytes) _ (bytes_bytes tx.attachment_name) [] tx.attachment_name _
              (Takes-try (take_bytes-Decodes tx.attachment_name name))
              (Takes-map (lift (from_utf8 tx.attachment_name)) _ [] tx.attachment_name _
                (Takes-lift _ _ (valid_utf8 tx.attachment_name utf8)) refl)))))

create_account-Takes :
    (tx : CreateAccountTx) (b : Tx)
    → IsWireBody (create_account_tx tx)
    → Takes
        (create_account_deserialize b)
        (body_bytes (create_account_tx tx))
        (record tx { base = b })
unfolding create_account_deserialize body_bytes
create_account-Takes tx b h =
    Takes-bind _ _ (be_bytes 8 tx.creator) _ tx.creator _
      (Takes-try (take_u64-Decodes tx.creator h.0))
      (Takes-map _ _ (account_bytes tx.account) tx.account _
        (Takes-try (account_deserialize-Decodes tx.account h.1)) refl)

-- The optional parts, with what is read after them.
script-Takes :
    {B : Type 0} (s : Option Script) (f : Option Script → Take B) (cs : Bytes) (b : B)
    → IsWireScript s
    → Takes (f s) cs b
    → Takes (try take_u8 >>= λ tag. take_script tag >>= f) (script_bytes s ++ cs) b
unfolding script_bytes
script-Takes none f cs b h k =
    Takes-bind (try take_u8) _ (0x00 ∷ []) cs 0x00 b (Takes-try (take_u8-Decodes 0x00)) (
      Takes-bind (take_script 0x00) f [] cs none b
        (unfold take_script in record { runs = λ rest. refl }) k)
script-Takes (some s) f cs b h k =
    Takes-bind (try take_u8) _ (0x01 ∷ []) (bytes_bytes s.code ++ cs) 0x01 b
      (Takes-try (take_u8-Decodes 0x01))
      (Takes-bind (take_script 0x01) f (bytes_bytes s.code) cs (some s) b
        (unfold take_script in
          Takes-map (try take_bytes) _ (bytes_bytes s.code) s.code (some s)
            (Takes-try (take_bytes-Decodes s.code h)) refl)
        k)

permissions-Takes :
    {B : Type 0} (p : Option Permissions) (f : Option Permissions → Take B) (cs : Bytes) (b : B)
    → IsWireNewPermissions p
    → Takes (f p) cs b
    → Takes (try take_u8 >>= λ tag. take_permissions tag >>= f) (new_permissions_bytes p ++ cs) b
unfolding new_permissions_bytes
permissions-Takes none f cs b h k =
    Takes-bind (try take_u8) _ (0x00 ∷ []) cs 0x00 b (Takes-try (take_u8-Decodes 0x00)) (
      Takes-bind (take_permissions 0x00) f [] cs none b
        (unfold take_permissions in record { runs = λ rest. refl }) k)
permissions-Takes (some p) f cs b h k =
    Takes-bind (try take_u8) _ (0x01 ∷ []) (permissions_bytes p ++ cs) 0x01 b
      (Takes-try (take_u8-Decodes 0x01))
      (Takes-bind (take_permissions 0x01) f (permissions_bytes p) cs (some p) b
        (unfold take_permissions in
          Takes-map (try permissions_deserialize) _ (permissions_bytes p) p (some p)
            (Takes-try (permissions_deserialize-Decodes p h)) refl)
        k)

update_account-Takes :
    (tx : UpdateAccountTx) (b : Tx)
    → IsWireBody (update_account_tx tx)
    → Takes
        (update_account_deserialize b)
        (body_bytes (update_account_tx tx))
        (record tx { base = b })
unfolding update_account_deserialize body_bytes
update_account-Takes tx b (id, script, perms) =
    Takes-bind _ _ (be_bytes 8 tx.account_id) _ tx.account_id _
      (Takes-try (take_u64-Decodes tx.account_id id))
      (script-Takes tx.new_script _ (new_permissions_bytes tx.new_permissions) _ script (
        rw (← append-nil (new_permissions_bytes tx.new_permissions)) (
          permissions-Takes tx.new_permissions
            (λ p. pure (record {
              base = b;
              account_id = tx.account_id;
              new_script = tx.new_script;
              new_permissions = p;
            }))
            [] _ perms (record { runs = λ rest. refl }))))

transfer-Takes :
    (tx : TransferTx) (b : Tx)
    → IsWireBody (transfer_tx tx)
    → Takes (transfer_deserialize b) (body_bytes (transfer_tx tx)) (record tx { base = b })
unfolding transfer_deserialize body_bytes
transfer-Takes tx b (from, args, amount, memo) =
    Takes-bind _ _ (be_bytes 8 tx.from) _ tx.from _ (Takes-try (take_u64-Decodes tx.from from)) (
      Takes-bind _ _ (tx.call_fn ∷ []) _ tx.call_fn _ (Takes-try (take_u8-Decodes tx.call_fn)) (
        Takes-bind _ _ (bytes_bytes tx.args) _ tx.args _
          (Takes-try (take_bytes-Decodes tx.args args))
          (Takes-bind _ _ (var_bytes tx.amount.amount) _ tx.amount _
            (Takes-try (take_asset-Decodes tx.amount amount))
            (Takes-map _ _ (bytes_bytes tx.memo) tx.memo _
              (Takes-try (take_bytes-Decodes tx.memo memo)) refl))))

body-Takes :
    (tx : TxVariant)
    → IsWireBody tx
    → Takes (body_deserialize (tx_type tx) (unsigned (base tx))) (body_bytes tx) (set_sigs tx [])
unfolding body_deserialize tx_type
body-Takes (owner_tx tx) h = Takes-map _ _ _ _ _ (owner-Takes tx (unsigned tx.base) h) refl
body-Takes (mint_tx tx) h = Takes-map _ _ _ _ _ (mint-Takes tx (unsigned tx.base) h) refl
body-Takes (create_account_tx tx) h =
    Takes-map _ _ _ _ _ (create_account-Takes tx (unsigned tx.base) h) refl
body-Takes (update_account_tx tx) h =
    Takes-map _ _ _ _ _ (update_account-Takes tx (unsigned tx.base) h) refl
body-Takes (transfer_tx tx) h = Takes-map _ _ _ _ _ (transfer-Takes tx (unsigned tx.base) h) refl

sigs-Takes :
    (sigs acc : List SigPair)
    → All IsSigPair sigs
    → Takes (take_sigs (length sigs) acc) (sigs_bytes sigs) (acc ++ sigs)
unfolding take_sigs sigs_bytes
sigs-Takes [] acc h = record {
  runs = λ rest. ap (λ (t : List SigPair). some (t, rest)) (sym (append-nil acc));
}
sigs-Takes (sig ∷ sigs) acc h =
    Takes-bind (try take_sig_pair) _ (sig_pair_bytes sig) (sigs_bytes sigs) sig (acc ++ sig ∷ sigs)
      (Takes-try (take_sig_pair-Decodes sig h.0))
      (rw (← append_assoc acc (sig ∷ []) sigs) (sigs-Takes sigs (acc ++ (sig ∷ [])) h.1))

set_sigs_self : (tx : TxVariant) → set_sigs (set_sigs tx []) (sigs tx) ≡ tx
set_sigs_self (owner_tx tx) = refl
set_sigs_self (mint_tx tx) = refl
set_sigs_self (create_account_tx tx) = refl
set_sigs_self (update_account_tx tx) = refl
set_sigs_self (transfer_tx tx) = refl

pub tx-Takes :
    (tx : TxVariant) → IsWireTx (base tx) → IsWireBody tx → Takes tx_deserialize (tx_bytes tx) tx
unfolding tx_deserialize v0_deserialize tx_bytes
tx-Takes tx h k =
    Takes-bind (try take_u16) _ (be_bytes 2 0x00) _ 0x00 tx
      (Takes-try (take_u16-Decodes 0x00 (omega arith)))
      (Takes-bind deserialize_header _ ((type_code (tx_type tx) ∷ []) ++ header_bytes (base tx)) _
        (unsigned (base tx), tx_type tx) tx (header-Takes (base tx) (tx_type tx) h)
        (Takes-bind (body_deserialize (tx_type tx) (unsigned (base tx))) _ (body_bytes tx) _
          (set_sigs tx []) tx (body-Takes tx k)
          (Takes-bind (try take_u8) _ (length (sigs tx) % 2 ^ 8 ∷ []) _ (length (sigs tx) % 2 ^ 8)
            tx (Takes-try (take_u8-Decodes (length (sigs tx) % 2 ^ 8)))
            (Takes-map (take_sigs (length (sigs tx) % 2 ^ 8) []) _ (sigs_bytes (sigs tx)) (sigs tx)
              tx (rw size (sigs-Takes (sigs tx) [] h.sig_sizes)) (set_sigs_self tx)))))
  where
    size : length (sigs tx) % 2 ^ 8 ≡ length (sigs tx)
    size = omega arith

-- A transaction of any kind whose fields fit the format is read back from what `serialize` appends
-- to a buffer, its signatures included, and what follows is left.
pub tx_deserialize-serialize :
    (tx : TxVariant) (buf rest : Bytes)
    → IsWireTx (base tx)
    → IsWireBody tx
    → (bs : Bytes) × (tx_serialize tx buf ≡ buf ++ bs)
      × (tx_deserialize (bs ++ rest) ≡ some (tx, rest))
tx_deserialize-serialize tx buf rest h k =
    (tx_bytes tx, tx_serialize_lem tx buf, (tx-Takes tx h k).runs rest)
