-- ===== src/Tests/Text.antt =====
-- Witnesses for the text form of ids and keys.
use godcoin.Base.{
  ℕ, zero, suc, ◌+◌, ◌<◌, ◌≡◌, refl, ap, ◌∙◌, arith, true, [], ◌∷◌, Bytes, some, ok, replicate, All,
}
use godcoin.Crypto.{Crypto, PublicKey}
use godcoin.Wif.Format.{
  Base58, account_id_from_wif, account_id_to_wif, public_key_from_wif, public_key_to_wif,
}
use godcoin.Wif.Laws.{IsText, from_wif-to_wif}

-- A stand-in for sodiumoxide whose digests are constant.
abbrev constant_hash : Crypto
constant_hash = record { sha256 = λ b. replicate 32 7; verify_detached = λ sig msg key. true }

-- A stand-in for Base58: each number in unary, between ones.
abbrev unary : ℕ → Bytes → Bytes
unary zero rest = 1 ∷ rest
unary (suc n) rest = 0 ∷ unary n rest

abbrev encode : Bytes → Bytes
encode [] = []
encode (b ∷ bs) = unary b (encode bs)

abbrev decode_from : ℕ → Bytes → Bytes
decode_from n [] = []
decode_from n (zero ∷ bs) = decode_from (suc n) bs
decode_from n (suc b ∷ bs) = n ∷ decode_from 0 bs

abbrev base58 : Base58
base58 = record { encode = encode; decode = λ b. some (decode_from 0 b) }

decode_from-unary :
    (n m : ℕ) (rest : Bytes) → decode_from m (unary n rest) ≡ (m + n) ∷ decode_from 0 rest
decode_from-unary zero m rest = ap (λ (k : ℕ). k ∷ decode_from 0 rest) (omega arith)
decode_from-unary (suc n) m rest =
    decode_from-unary n (suc m) rest ∙ ap (λ (k : ℕ). k ∷ decode_from 0 rest) (omega arith)

decode_from-encode : (bs : Bytes) → decode_from 0 (encode bs) ≡ bs
decode_from-encode [] = refl
decode_from-encode (b ∷ bs) =
    decode_from-unary b 0 (encode bs)
    ∙ ap (λ (k : ℕ). k ∷ decode_from 0 (encode bs)) (omega arith)
    ∙ ap (λ (t : Bytes). b ∷ t) (decode_from-encode bs)

unary-ascii :
    (n : ℕ) (rest : Bytes) → All (λ (x : ℕ). x < 128) rest → All (λ (x : ℕ). x < 128) (unary n rest)
unary-ascii zero rest h = (omega arith, h)
unary-ascii (suc n) rest h = (omega arith, unary-ascii n rest h)

encode-ascii : (bs : Bytes) → All (λ (x : ℕ). x < 128) (encode bs)
encode-ascii [] = tt
encode-ascii (b ∷ bs) = unary-ascii b (encode bs) (encode-ascii bs)

constant-IsText : IsText constant_hash base58
constant-IsText = record {
  digest_size = λ bs. refl;
  decodes = λ bs. ap some (decode_from-encode bs);
  ascii = encode-ascii;
}

abbrev text_key : PublicKey
text_key = record { bytes = replicate 32 9 }

from_wif-to_wif_example :
    (account_id_from_wif constant_hash base58 (account_id_to_wif constant_hash base58 300) ≡ ok 300)
    × (public_key_from_wif constant_hash base58 (public_key_to_wif constant_hash base58 text_key)
        ≡ ok text_key)
from_wif-to_wif_example =
    from_wif-to_wif constant_hash base58 300 text_key constant-IsText (omega arith) refl
