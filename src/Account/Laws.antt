-- ===== src/Account/Laws.antt =====
-- Accounts and permissions are read back from their bytes (crates/godcoin/src/account.rs).
use godcoin.Base.{
  ◌%◌, ◌^◌, ◌<◌, ◌≡◌, refl, ap, sym, ◌∙◌, arith, Bool, true, false, not, List, [], ◌∷◌, ◌++◌, Bytes,
  ok, length, append_assoc, append-nil, All, ◌==◌,
}
use godcoin.Base.Int.{InI64}
use godcoin.Crypto.{PublicKey}
use godcoin.Serializer.Write.{be_bytes, push_pub_key}
use godcoin.Serializer.Decodes.{
  Decodes, Decodes-bind, Decodes-map, take_u8-Decodes, take_u64-Decodes,
}
use godcoin.Serializer.Varint.{var_bytes}
use godcoin.Serializer.Laws.{
  pushes, bytes_bytes, IsKey, IsShort, take_pub_key-Decodes, take_bytes-Decodes, take_asset-Decodes,
}
use godcoin.Account.Types.{Account, Permissions}
use godcoin.Account.Format.{
  bool_u8, push_keys, take_keys, permissions_serialize, permissions_deserialize, account_serialize,
  account_deserialize,
}

keys_bytes : List PublicKey → Bytes
keys_bytes [] = []
keys_bytes (key ∷ keys) = key.bytes ++ keys_bytes keys

pub permissions_bytes : Permissions → Bytes
permissions_bytes p = p.threshold ∷ length p.keys % 2 ^ 8 ∷ keys_bytes p.keys

pub account_bytes : Account → Bytes
account_bytes a =
    be_bytes 8 a.id
    ++ (var_bytes a.balance.amount
        ++ (bytes_bytes a.script.code
            ++ (permissions_bytes a.permissions ++ (bool_u8 a.destroyed ∷ []))))

push_keys_lem : (buf : Bytes) (keys : List PublicKey) → push_keys buf keys ≡ buf ++ keys_bytes keys
unfolding push_keys keys_bytes
push_keys_lem buf [] = sym (append-nil buf)
push_keys_lem buf (key ∷ keys) = push_keys_lem (push_pub_key buf key) keys ∙ simp pushes

pub permissions_serialize_lem :
    (p : Permissions) (buf : Bytes) → permissions_serialize p buf ≡ buf ++ permissions_bytes p
unfolding permissions_serialize permissions_bytes
permissions_serialize_lem p buf = simp (push_keys_lem, pushes)

pub account_serialize_lem :
    (a : Account) (buf : Bytes) → account_serialize a buf ≡ buf ++ account_bytes a
unfolding account_serialize account_bytes
account_serialize_lem a buf = simp (permissions_serialize_lem, pushes)

-- The sizes that the format holds.
pub record IsWirePermissions (p : Permissions) : Type 0 where
  pub key_count : length p.keys < 256
  pub key_sizes : All IsKey p.keys

pub record IsWireAccount (a : Account) : Type 0 where
  pub id_u64 : a.id < 2 ^ 64
  pub balance_i64 : InI64 a.balance.amount
  pub script_short : IsShort a.script.code
  pub permissions_wire : IsWirePermissions a.permissions

take_keys-Decodes :
    (keys acc : List PublicKey)
    → All IsKey keys
    → Decodes (take_keys (length keys) acc) (keys_bytes keys) (acc ++ keys)
unfolding take_keys keys_bytes
take_keys-Decodes [] acc h = record {
  runs = λ rest. ap (λ (t : List PublicKey). ok (t, rest)) (sym (append-nil acc));
}
take_keys-Decodes (key ∷ keys) acc h =
    Decodes-bind _ _ key.bytes (keys_bytes keys) key (acc ++ key ∷ keys)
      (take_pub_key-Decodes key h.0)
      (rw (← append_assoc acc (key ∷ []) keys) (take_keys-Decodes keys (acc ++ (key ∷ [])) h.1))

pub permissions_deserialize-Decodes :
    (p : Permissions)
    → IsWirePermissions p
    → Decodes permissions_deserialize (permissions_bytes p) p
unfolding permissions_deserialize permissions_bytes
permissions_deserialize-Decodes p h =
    let size : length p.keys % 2 ^ 8 ≡ length p.keys = omega arith in
    Decodes-bind _ _ (p.threshold ∷ []) (length p.keys % 2 ^ 8 ∷ keys_bytes p.keys) p.threshold p
      (take_u8-Decodes p.threshold)
      (Decodes-bind _ _ (length p.keys % 2 ^ 8 ∷ []) (keys_bytes p.keys) (length p.keys % 2 ^ 8) p
        (take_u8-Decodes (length p.keys % 2 ^ 8))
        (Decodes-map (take_keys (length p.keys % 2 ^ 8) []) _ (keys_bytes p.keys) p.keys p
          (rw size (take_keys-Decodes p.keys [] h.key_sizes)) refl))

destroyed_flag : (b : Bool) → not (bool_u8 b == 0) ≡ b
destroyed_flag true = refl
destroyed_flag false = refl

pub account_deserialize-Decodes :
    (a : Account) → IsWireAccount a → Decodes account_deserialize (account_bytes a) a
unfolding account_deserialize account_bytes
account_deserialize-Decodes a h =
    Decodes-bind _ _ (be_bytes 8 a.id) _ a.id a (take_u64-Decodes a.id h.id_u64) (
      Decodes-bind _ _ (var_bytes a.balance.amount) _ a.balance a
        (take_asset-Decodes a.balance h.balance_i64)
        (Decodes-bind _ _ (bytes_bytes a.script.code) _ a.script.code a
          (take_bytes-Decodes a.script.code h.script_short)
          (Decodes-bind _ _ (permissions_bytes a.permissions) _ a.permissions a
            (permissions_deserialize-Decodes a.permissions h.permissions_wire)
            (Decodes-map _ _ (bool_u8 a.destroyed ∷ []) (bool_u8 a.destroyed) a
              (take_u8-Decodes (bool_u8 a.destroyed))
              (ap (λ (d : Bool). record a { destroyed = d }) (destroyed_flag a.destroyed))))))

-- An account whose fields fit the format is read back from what `serialize` appends to a buffer, and
-- what follows is left.
pub account_deserialize-serialize :
    (a : Account) (buf rest : Bytes)
    → IsWireAccount a
    → (bs : Bytes) × (account_serialize a buf ≡ buf ++ bs)
      × (account_deserialize (bs ++ rest) ≡ ok (a, rest))
account_deserialize-serialize a buf rest h =
    (account_bytes a, account_serialize_lem a buf, (account_deserialize-Decodes a h).runs rest)
