-- ===== src/Account/Types.antt =====
-- Accounts and permissions (crates/godcoin/src/account.rs).
use godcoin.Base.{
  ℕ, ◌+◌, ◌%◌, Bool, true, false, ◌||◌, List, [], ◌∷◌, Bytes, Option, some, none, Result, ok, err,
  ltb, ◌==◌, if◌then◌else◌, length, ◌>>=◌,
}
use godcoin.Asset.{Asset, asset_default}
use godcoin.Crypto.{Crypto, PublicKey, SigPair, key_eq, verify_key}
use godcoin.Script.Op.{AccountId, Script, Arg, OpFrame}
use godcoin.Script.Builder.{builder_new, builder_push, fn_new, fn_push, build}

abbrev pub max_perm_keys : ℕ
max_perm_keys = 8

abbrev pub immutable_account_threshold : ℕ
immutable_account_threshold = 0xFF

pub record Permissions : Type 0 where
  pub threshold : ℕ
  pub keys : List PublicKey

pub record Account : Type 0 where
  pub id : AccountId
  pub balance : Asset
  pub script : Script
  pub permissions : Permissions
  pub destroyed : Bool

pub data PermsSigVerifyErr : Type 0 where
  insufficient_threshold no_matching_sigs invalid_sig : PermsSigVerifyErr

abbrev pub is_empty {ℓ} : {A : Type ℓ} → List A → Bool
is_empty [] = true
is_empty (x ∷ xs) = false

unfoldable pub is_valid : Permissions → Bool
is_valid p =
    if p.threshold == immutable_account_threshold
    then is_empty p.keys
    else if ltb max_perm_keys (length p.keys) || ltb (length p.keys) p.threshold
    then false
    else true

-- The inner loop of `verify` on one pair: the first key that equals the pair's decides.
pub data Match : Type 0 where
  verified rejected unknown : Match

module _ (c : Crypto) (msg : Bytes) where
  unfoldable pub match_key : SigPair → List PublicKey → Match
  match_key pair [] = unknown
  match_key pair (key ∷ keys) =
      if key_eq key pair.pub_key
      then (if verify_key c key msg pair.signature then verified else rejected)
      else match_key pair keys

  -- The outer loop, on the `u8` count of verified pairs, which wraps; `none` is the return of
  -- `InvalidSig`.
  unfoldable pub count_sigs : List PublicKey → List SigPair → ℕ → Option ℕ
  count_sigs keys [] count = some count
  count_sigs keys (pair ∷ sigs) count =
      let matched = count_sigs keys sigs ((count + 1) % 256) in
      let unmatched = count_sigs keys sigs count in
      elim (match_key pair keys) [ verified ↦ matched | rejected ↦ none | unknown ↦ unmatched ]

  unfoldable pub verify : Permissions → List SigPair → Result PermsSigVerifyErr (Unit {0})
  verify p sigs =
      if p.threshold == 0
      then ok tt
      else if ltb (length sigs) p.threshold
      then err PermsSigVerifyErr.insufficient_threshold
      else elim (count_sigs p.keys sigs 0) [
        | none ↦ err PermsSigVerifyErr.invalid_sig
        | some count ↦
            if ltb 0 count
            then (if ltb count p.threshold
                then err PermsSigVerifyErr.insufficient_threshold
                else ok tt)
            else err PermsSigVerifyErr.no_matching_sigs
      ]

-- `Account::create_default`; the `unwrap` and the panics of the builder are `none`.
unfoldable pub create_default : AccountId → Permissions → Option Account
create_default id perms = do
  f ← fn_new 0x00 (OpFrame.op_define (Arg.account_id ∷ Arg.asset ∷ []))
  f ← fn_push f (OpFrame.push_account_id id)
  f ← fn_push f OpFrame.op_check_perms_fast_fail
  f ← fn_push f OpFrame.op_transfer
  f ← fn_push f OpFrame.push_true
  b ← builder_push builder_new f
  script ← elim (build b) [ ok s ↦ some s | err n ↦ none ]
  some (record {
    id = id;
    balance = asset_default;
    script = script;
    permissions = perms;
    destroyed = false;
  })
