-- ===== src/Wif/Format.antt =====
-- The text form of account ids and public keys (crates/godcoin/src/crypto/wif.rs). A text is the list of
-- its UTF-8 bytes; Base58 is that of the crate bs58, a parameter.
use godcoin.Base.{
  ℕ, ◌-◌, Bool, false, not, ◌&&◌, [], ◌∷◌, ◌++◌, Bytes, Option, some, none, ok, err, length, take,
  drop, get_elem?, bytes_eq, ltb, ◌==◌, if◌then◌else◌,
}
use godcoin.Crypto.{Crypto, PublicKey, double_sha256}
use godcoin.Script.Op.{AccountId}
use godcoin.Serializer.Write.{be_bytes}
use godcoin.Serializer.Read.{from_be}
use godcoin.Chain.Types.{panic, Outcome, reject, ok_or, ◌>>=◌}

pub record Base58 : Type 0 where
  pub encode : Bytes → Bytes
  pub decode : Bytes → Option Bytes

pub data WifErrorKind : Type 0 where
  invalid_len invalid_prefix invalid_checksum invalid_bs58_encoding : WifErrorKind

-- "GOD".
abbrev pub pub_address_prefix : Bytes
pub_address_prefix = 71 ∷ 79 ∷ 68 ∷ []

abbrev pub pub_buf_prefix : ℕ
pub_buf_prefix = 0x02

abbrev pub account_id_buf_prefix : ℕ
account_id_buf_prefix = 0x03

-- A slice of a text that ends inside a character is a panic: its next byte continues the character.
abbrev pub splits_char : Option ℕ → Bool
splits_char none = false
splits_char (some b) = not (ltb b 0x80) && ltb b 0xC0

unfoldable pub strip_prefix : Base58 → Bytes → Outcome WifErrorKind Bytes
strip_prefix b s =
    if ltb (length s) 3
    then reject WifErrorKind.invalid_prefix
    else if splits_char (get_elem? s 3)
    then err panic
    else if not (bytes_eq (take 3 s) pub_address_prefix)
    then reject WifErrorKind.invalid_prefix
    else ok_or (b.decode (drop 3 s)) WifErrorKind.invalid_bs58_encoding

abbrev pub checksum : Crypto → Bytes → Bytes
checksum c buf = take 4 (double_sha256 c buf).bytes

-- The payload of `len` bytes with the prefix and the checksum.
unfoldable pub checked_payload : Crypto → ℕ → ℕ → Bytes → Outcome WifErrorKind Bytes
checked_payload c len prefix raw =
    if not (length raw == len)
    then reject WifErrorKind.invalid_len
    else if not (bytes_eq (take 1 raw) (prefix ∷ []))
    then reject WifErrorKind.invalid_prefix
    else if not (bytes_eq (drop (len - 4) raw) (checksum c (take (len - 4) raw)))
    then reject WifErrorKind.invalid_checksum
    else ok (drop 1 (take (len - 4) raw))

unfoldable pub account_id_from_wif : Crypto → Base58 → Bytes → Outcome WifErrorKind AccountId
account_id_from_wif c b s = do
  raw ← strip_prefix b s
  id ← checked_payload c 13 account_id_buf_prefix raw
  ok (from_be 0 id)

unfoldable pub public_key_from_wif : Crypto → Base58 → Bytes → Outcome WifErrorKind PublicKey
public_key_from_wif c b s = do
  raw ← strip_prefix b s
  key ← checked_payload c 37 pub_buf_prefix raw
  ok (record { bytes = key })

abbrev pub with_checksum : Crypto → Bytes → Bytes
with_checksum c buf = buf ++ checksum c buf

unfoldable pub to_wif : Crypto → Base58 → Bytes → Bytes
to_wif c b buf = pub_address_prefix ++ b.encode (with_checksum c buf)

abbrev pub account_id_to_wif : Crypto → Base58 → AccountId → Bytes
account_id_to_wif c b id = to_wif c b (account_id_buf_prefix ∷ be_bytes 8 id)

abbrev pub public_key_to_wif : Crypto → Base58 → PublicKey → Bytes
public_key_to_wif c b key = to_wif c b (pub_buf_prefix ∷ key.bytes)
