-- ===== src/Wif/Laws.antt =====
-- Account ids and public keys are read back from their text (crates/godcoin/src/crypto/wif.rs).
use godcoin.Base.{
  ℕ, zero, suc, ◌≤◌, ◌+◌, ◌-◌, ◌^◌, ◌<◌, ◌≡◌, refl, ap, arith, true, false, [], ◌∷◌, ◌++◌, Bytes,
  some, ok, bytes_eq, length, length-append, take, drop, get_elem?, bytes_eq_self, ltb, ◌==◌, All,
}
use godcoin.Crypto.{Crypto, PublicKey, double_sha256}
use godcoin.Script.Op.{AccountId}
use godcoin.Serializer.Write.{be_bytes}
use godcoin.Serializer.Decodes.{length-be_bytes, from_be-be_bytes, take-length, drop-length}
use godcoin.Serializer.Laws.{IsKey}
use godcoin.Chain.Types.{ok_or}
use godcoin.Chain.Inversion.{bind_to}
use godcoin.Wif.Format.{
  Base58, pub_address_prefix, splits_char, strip_prefix, checksum, with_checksum, checked_payload,
  to_wif, account_id_from_wif, account_id_to_wif, public_key_from_wif, public_key_to_wif,
}

-- What is known of SHA-256 and of Base58: the size of a digest, that decoding undoes encoding, and that
-- the alphabet is ASCII.
pub record IsText (c : Crypto) (b : Base58) : Type 0 where
  pub digest_size : (bs : Bytes) → length (c.sha256 bs) ≡ 32
  pub decodes : (bs : Bytes) → b.decode (b.encode bs) ≡ some bs
  pub ascii : (bs : Bytes) → All (λ (x : ℕ). x < 128) (b.encode bs)

whole_char : (text : Bytes) → All (λ (x : ℕ). x < 128) text → splits_char (get_elem? text 0) ≡ false
whole_char [] h = refl
whole_char (x ∷ text) (small, rest) = ground (arith, small)

length-take : (n : ℕ) (bs : Bytes) → n ≤ length bs → length (take n bs) ≡ n
length-take zero bs h = refl
length-take (suc n) [] h = absurd (omega arith)
length-take (suc n) (x ∷ bs) h = omega (arith, length-take n bs (omega arith))

-- The payload under its prefix and its checksum is taken out again.
payload_checked :
    (c : Crypto) (b : Base58) (len prefix : ℕ) (payload : Bytes)
    → IsText c b
    → len ≡ length payload + 5
    → checked_payload c len prefix (with_checksum c (prefix ∷ payload)) ≡ ok payload
unfolding checked_payload double_sha256
payload_checked c b len prefix payload text size =
    rw
      (
        checked_payload,
        long,
        bytes_eq_self (prefix ∷ []),
        front,
        back,
        bytes_eq_self (checksum c (prefix ∷ payload)),
      )
      refl
  where
    four : length (checksum c (prefix ∷ payload)) ≡ 4
    four =
        length-take 4 (c.sha256 (c.sha256 (prefix ∷ payload)))
          (omega (arith, text.digest_size (c.sha256 (prefix ∷ payload))))

    long : (length (with_checksum c (prefix ∷ payload)) == len) ≡ true
    long =
        ground (arith, size, four, length-append (prefix ∷ payload) (checksum c (prefix ∷ payload)))

    cut : len - 4 ≡ length (prefix ∷ payload)
    cut = omega (arith, size)

    front : take (len - 4) (with_checksum c (prefix ∷ payload)) ≡ prefix ∷ payload
    front = rw cut (take-length (prefix ∷ payload) (checksum c (prefix ∷ payload)))

    back : drop (len - 4) (with_checksum c (prefix ∷ payload)) ≡ checksum c (prefix ∷ payload)
    back = rw cut (drop-length (prefix ∷ payload) (checksum c (prefix ∷ payload)))

long_enough : (text : Bytes) → ltb (length (pub_address_prefix ++ text)) 3 ≡ false
long_enough text = ground arith

prefix_stripped :
    (c : Crypto) (b : Base58) (buf : Bytes)
    → IsText c b
    → strip_prefix b (to_wif c b buf) ≡ ok (with_checksum c buf)
unfolding strip_prefix to_wif ok_or bytes_eq
prefix_stripped c b buf text =
    rw
      (
        strip_prefix,
        long_enough (b.encode (with_checksum c buf)),
        whole_char _ (text.ascii (with_checksum c buf)),
        text.decodes (with_checksum c buf),
      )
      refl

-- Every account id and every public key is read back from its text.
pub from_wif-to_wif :
    (c : Crypto) (b : Base58) (id : AccountId) (key : PublicKey)
    → IsText c b
    → id < 2 ^ 64
    → IsKey key
    → (account_id_from_wif c b (account_id_to_wif c b id) ≡ ok id)
      × (public_key_from_wif c b (public_key_to_wif c b key) ≡ ok key)
unfolding account_id_from_wif public_key_from_wif
from_wif-to_wif c b id key text small sized = (
  bind_to _ _ _ _ (prefix_stripped c b _ text) (
      bind_to _ _ (be_bytes 8 id) _
        (payload_checked c b 13 3 (be_bytes 8 id) text (omega (arith, length-be_bytes 8 id)))
        (ap (λ (n : ℕ). ok n) (from_be-be_bytes 8 id small))),
  bind_to _ _ _ _ (prefix_stripped c b _ text) (
      bind_to _ _ key.bytes _ (payload_checked c b 37 2 key.bytes text (omega (arith, sized)))
        refl),
)
