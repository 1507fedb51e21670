-- ===== src/Account/Format.antt =====
-- The byte format of accounts and permissions (crates/godcoin/src/account.rs).
use godcoin.Base.{
  ℕ, zero, suc, ◌%◌, ◌^◌, Bool, true, false, not, List, [], ◌∷◌, ◌++◌, Bytes, ◌==◌, length,
}
use godcoin.Crypto.{PublicKey}
use godcoin.Serializer.Write.{push_u8, push_u64, push_asset, push_bytes, push_pub_key}
use godcoin.Serializer.Read.{
  Read, pure, ◌>>=◌, take_u8, take_u64, take_asset, take_bytes, take_pub_key,
}
use godcoin.Account.Types.{Account, Permissions}

abbrev pub bool_u8 : Bool → ℕ
bool_u8 true = 1
bool_u8 false = 0

unfoldable pub push_keys : Bytes → List PublicKey → Bytes
push_keys buf [] = buf
push_keys buf (key ∷ keys) = push_keys (push_pub_key buf key) keys

unfoldable pub permissions_serialize : Permissions → Bytes → Bytes
permissions_serialize p buf =
    push_keys (push_u8 (push_u8 buf p.threshold) (length p.keys % 2 ^ 8)) p.keys

-- The loop of `Permissions::deserialize`, on the keys left.
unfoldable pub take_keys : ℕ → List PublicKey → Read (List PublicKey)
take_keys zero keys = pure keys
take_keys (suc n) keys = do key ← take_pub_key; take_keys n (keys ++ (key ∷ []))

unfoldable pub permissions_deserialize : Read Permissions
permissions_deserialize = do
  threshold ← take_u8
  key_len ← take_u8
  keys ← take_keys key_len []
  pure (record { threshold = threshold; keys = keys })

unfoldable pub account_serialize : Account → Bytes → Bytes
account_serialize a buf =
    push_u8
      (permissions_serialize a.permissions
        (push_bytes (push_asset (push_u64 buf a.id) a.balance) a.script.code))
      (bool_u8 a.destroyed)

unfoldable pub account_deserialize : Read Account
account_deserialize = do
  id ← take_u64
  balance ← take_asset
  script ← take_bytes
  permissions ← permissions_deserialize
  destroyed ← take_u8
  pure (record {
    id = id;
    balance = balance;
    script = record { code = script };
    permissions = permissions;
    destroyed = not (destroyed == 0);
  })
