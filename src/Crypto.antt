-- ===== src/Crypto.antt =====
-- Keys, digests and signatures (crates/godcoin/src/crypto). The types of sodiumoxide are byte
-- strings, of the lengths that its constants give; what it computes is a parameter, `Crypto`.
use godcoin.Base.{ℕ, Bool, Option, some, none, Bytes, length, ◌==◌, if◌then◌else◌, bytes_eq}

-- `DIGESTBYTES`, `PUBLICKEYBYTES` and `SIGNATUREBYTES` of sodiumoxide.
abbrev pub digest_bytes : ℕ
digest_bytes = 32

abbrev pub public_key_bytes : ℕ
public_key_bytes = 32

abbrev pub signature_bytes : ℕ
signature_bytes = 64

pub record Digest : Type 0 where
  pub bytes : Bytes

pub record PublicKey : Type 0 where
  pub bytes : Bytes

pub record Signature : Type 0 where
  pub bytes : Bytes

pub record SigPair : Type 0 where
  pub pub_key : PublicKey
  pub signature : Signature

-- The `from_slice` functions fail on a slice of another length.
abbrev pub digest_from_slice : Bytes → Option Digest
digest_from_slice b = if length b == digest_bytes then some (record { bytes = b }) else none

abbrev pub public_key_from_slice : Bytes → Option PublicKey
public_key_from_slice b = if length b == public_key_bytes then some (record { bytes = b }) else none

abbrev pub signature_from_slice : Bytes → Option Signature
signature_from_slice b = if length b == signature_bytes then some (record { bytes = b }) else none

-- What the program takes from sodiumoxide: SHA-256, whose multi-part form hashes the concatenation
-- of what it was fed, and the check of a detached signature of a message by a key.
pub record Crypto : Type 0 where
  pub sha256 : Bytes → Bytes
  pub verify_detached : Bytes → Bytes → Bytes → Bool

-- `PublicKey::verify` and `SigPair::verify`.
abbrev pub verify_key : Crypto → PublicKey → Bytes → Signature → Bool
verify_key c key msg sig = c.verify_detached sig.bytes msg key.bytes

abbrev pub verify_pair : Crypto → SigPair → Bytes → Bool
verify_pair c pair msg = c.verify_detached pair.signature.bytes msg pair.pub_key.bytes

unfoldable pub double_sha256 : Crypto → Bytes → Digest
double_sha256 c buf = record { bytes = c.sha256 (c.sha256 buf) }

-- The derived `==` of keys and digests.
abbrev pub key_eq : PublicKey → PublicKey → Bool
key_eq a b = bytes_eq a.bytes b.bytes

abbrev pub digest_eq : Digest → Digest → Bool
digest_eq a b = bytes_eq a.bytes b.bytes
