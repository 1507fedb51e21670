-- ===== src/Serializer/Laws.antt =====
-- What each writer of crates/godcoin/src/serializer.rs adds to a buffer, and that each reader
-- takes it back.
use godcoin.Base.{
  ℕ, zero, suc, ◌+◌, ◌%◌, ◌^◌, ◌≤◌, ◌<◌, ◌≡◌, refl, ap, sym, ◌∙◌, arith, List, [], ◌∷◌, ◌++◌, Bytes,
  ok, length, append_assoc, append-nil, Option, some, none, ◌==◌, if◌then◌else◌, ==_self, All,
  IsByte,
}
use godcoin.Base.Int.{InI64}
use godcoin.Asset.{Asset}
use godcoin.Crypto.{Digest, PublicKey, SigPair}
use godcoin.Serializer.Write.{
  be_bytes, push_u8, push_u16, push_u32, push_u64, push_bytes, push_digest, push_pub_key,
  push_sig_pair, push_asset,
}
use godcoin.Serializer.Read.{
  Read, pure, ◌>>=◌, read_exact, take_bytes, take_digest, take_pub_key, take_sig_pair, take_asset,
  take_u32, take_var_i64,
}
use godcoin.Serializer.Decodes.{
  Decodes, Decodes-bind, Decodes-map, read_exact-Decodes, take_u32-Decodes,
}
use godcoin.Serializer.Varint.{
  var_bytes, push_var_i64-var_bytes, take_var_i64-Decodes, var_bytes_shape,
}

-- The bytes of each kind of value.
pub bytes_bytes : Bytes → Bytes
bytes_bytes v = be_bytes 4 (length v % 2 ^ 32) ++ v

pub sig_pair_bytes : SigPair → Bytes
sig_pair_bytes v = v.pub_key.bytes ++ v.signature.bytes

pub push_u8_lem : (buf : Bytes) (v : ℕ) → push_u8 buf v ≡ buf ++ (v ∷ [])
unfolding push_u8
push_u8_lem buf v = refl

pub push_u16_lem : (buf : Bytes) (v : ℕ) → push_u16 buf v ≡ buf ++ be_bytes 2 v
unfolding push_u16
push_u16_lem buf v = refl

pub push_u32_lem : (buf : Bytes) (v : ℕ) → push_u32 buf v ≡ buf ++ be_bytes 4 v
unfolding push_u32
push_u32_lem buf v = refl

pub push_u64_lem : (buf : Bytes) (v : ℕ) → push_u64 buf v ≡ buf ++ be_bytes 8 v
unfolding push_u64
push_u64_lem buf v = refl

pub push_bytes_lem : (buf v : Bytes) → push_bytes buf v ≡ buf ++ bytes_bytes v
unfolding push_bytes bytes_bytes push_u32
push_bytes_lem buf [] = rw (append-nil (be_bytes 4 (0 % 2 ^ 32)))
push_bytes_lem buf (x ∷ xs) = append_assoc buf _ (x ∷ xs)

pub push_digest_lem : (buf : Bytes) (v : Digest) → push_digest buf v ≡ buf ++ v.bytes
unfolding push_digest
push_digest_lem buf v = refl

pub push_pub_key_lem : (buf : Bytes) (v : PublicKey) → push_pub_key buf v ≡ buf ++ v.bytes
unfolding push_pub_key
push_pub_key_lem buf v = refl

pub push_sig_pair_lem : (buf : Bytes) (v : SigPair) → push_sig_pair buf v ≡ buf ++ sig_pair_bytes v
unfolding push_sig_pair sig_pair_bytes push_pub_key
push_sig_pair_lem buf v = append_assoc buf v.pub_key.bytes v.signature.bytes

pub push_asset_lem : (buf : Bytes) (v : Asset) → push_asset buf v ≡ buf ++ var_bytes v.amount
unfolding push_asset
push_asset_lem buf v = push_var_i64-var_bytes buf v.amount

pub ruleset pushes = (
  push_u8_lem, push_u16_lem, push_u32_lem, push_u64_lem, push_bytes_lem, push_digest_lem,
  push_pub_key_lem, push_sig_pair_lem, push_asset_lem, append_assoc,
)

-- The lengths that sodiumoxide's types have.
abbrev pub IsDigest : Digest → Type 0
IsDigest v = length v.bytes ≡ 32

abbrev pub IsKey : PublicKey → Type 0
IsKey v = length v.bytes ≡ 32

abbrev pub IsSigPair : SigPair → Type 0
IsSigPair v = IsKey v.pub_key × (length v.signature.bytes ≡ 64)

-- A byte string whose length a `u32` holds.
abbrev pub IsShort : Bytes → Type 0
IsShort v = length v < 2 ^ 32

pub take_bytes-Decodes : (v : Bytes) → IsShort v → Decodes take_bytes (bytes_bytes v) v
unfolding take_bytes bytes_bytes
take_bytes-Decodes v h =
    Decodes-bind take_u32 read_exact (be_bytes 4 (length v % 2 ^ 32)) v (length v % 2 ^ 32) v
      (take_u32-Decodes (length v % 2 ^ 32) (omega arith))
      (read_exact-Decodes (length v % 2 ^ 32) v (omega arith))

-- A fixed number of bytes, checked by a `from_slice`.
slice-Decodes :
    {A : Type 0} (n : ℕ) (bs : Bytes) (m : Bytes → Read A) (a : A)
    → length bs ≡ n
    → m bs ≡ pure a
    → Decodes (read_exact n >>= m) bs a
slice-Decodes n bs m a h e = record {
  runs = λ rest. rw ((read_exact-Decodes n bs h).runs rest, ◌>>=◌) (ap (λ (k : Read _). k rest) e);
}

pub take_digest-Decodes : (v : Digest) → IsDigest v → Decodes take_digest v.bytes v
unfolding take_digest
take_digest-Decodes v h = slice-Decodes 32 v.bytes _ v h (rw h)

pub take_pub_key-Decodes : (v : PublicKey) → IsKey v → Decodes take_pub_key v.bytes v
unfolding take_pub_key
take_pub_key-Decodes v h = slice-Decodes 32 v.bytes _ v h (rw h)

pub take_sig_pair-Decodes : (v : SigPair) → IsSigPair v → Decodes take_sig_pair (sig_pair_bytes v) v
unfolding take_sig_pair sig_pair_bytes
take_sig_pair-Decodes v h =
    Decodes-bind take_pub_key _ v.pub_key.bytes v.signature.bytes v.pub_key v
      (take_pub_key-Decodes v.pub_key h.0) (slice-Decodes 64 v.signature.bytes _ v h.1 (rw h.1))

pub take_asset-Decodes : (v : Asset) → InI64 v.amount → Decodes take_asset (var_bytes v.amount) v
unfolding take_asset
take_asset-Decodes v h =
    Decodes-map take_var_i64 _ (var_bytes v.amount) v.amount v (take_var_i64-Decodes v.amount h)
      refl

-- Writing an amount adds one to ten bytes at the end of the buffer, and reading them with anything
-- behind them returns the amount, for every `i64`.
pub take_asset-push_asset :
    (v : Asset) (buf rest : Bytes)
    → InI64 v.amount
    → (bs : Bytes) × (push_asset buf v ≡ buf ++ bs)
      × (1 ≤ length bs)
      × (length bs ≤ 10)
      × All IsByte bs
      × (take_asset (bs ++ rest) ≡ ok (v, rest))
take_asset-push_asset v buf rest h =
    let (bytes, lo, hi) = var_bytes_shape v.amount h in
    (var_bytes v.amount, push_asset_lem buf v, lo, hi, bytes, (take_asset-Decodes v h).runs rest)
