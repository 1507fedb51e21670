-- ===== src/Tests/Data.antt =====
-- Witnesses for amounts, the byte formats and signatures: the theorems at concrete inputs.
use godcoin.Script.Op.{OpFrame}
use godcoin.Script.Builder.{frame_push}
use godcoin.Script.Decode.{consume_op}
use godcoin.Script.RoundTrip.{consume_op-frame_push}
use godcoin.Serializer.Write.{push_u8, be_bytes}
use godcoin.Base.{
  ◌*◌, ◌-◌, bytes_eq, ◌≡◌, ◌≢◌, ◌↔◌, ◌⊎◌, ◌≤◌, ◌^◌, refl, arith, true, [], ◌∷◌, ◌++◌, some, none,
  ok, length, Bytes, All, IsByte, replicate,
}
use godcoin.Base.Int.{pos, negsuc, ◌*ℤ◌, ◌/ℤ◌, InI64}
use godcoin.Asset.{Asset, checked_mul, checked_div, checked_pow}
use mathlib.Core.Option
use godcoin.Asset.Ops.{to_i64}
use godcoin.Asset.Arith.{
  scaled_product, checked_mul_exact, checked_mul_overflow, checked_mul_underflow, checked_div_iff,
}
use godcoin.Asset.Power.{pow, checked_pow_exact}
use godcoin.Crypto.{Crypto, PublicKey, SigPair}
use godcoin.Serializer.Write.{zigzag_encode, push_asset}
use godcoin.Serializer.Read.{zigzag_decode, take_asset}
use godcoin.Serializer.Zigzag.{zigzag_decode-encode, zigzag_encode-decode}
use godcoin.Serializer.Laws.{take_asset-push_asset}
use godcoin.Account.Types.{Account, Permissions, verify, is_valid}
use godcoin.Account.Format.{account_serialize, account_deserialize}
use godcoin.Account.Laws.{IsWireAccount, account_deserialize-serialize}
use godcoin.Account.Valid.{is_valid-verify_iff}
use godcoin.Account.Verify.{listed, listed_count, IsGood, verify-ok_iff, verify_repeated}
use godcoin.Tx.Types.{TransferTx, transfer_tx}
use godcoin.Tx.Format.{tx_serialize, tx_deserialize}
use godcoin.Tx.Laws.{IsWireTx}
use godcoin.Tx.RoundTrip.{tx_deserialize-serialize}

-- 2.00000, 3.00000, and -90,000,000,000,000.00000.
abbrev two : Asset
two = record { amount = pos 200000 }

abbrev three : Asset
three = record { amount = pos 300000 }

abbrev large : Asset
large = record { amount = pos 9000000000000000000 }

abbrev negative : Asset
negative = record { amount = negsuc 8999999999999999999 }

abbrev five : Asset
five = record { amount = pos 500000 }

checked_mul_exact_example :
    checked_mul two three ≡ some (record { amount = scaled_product two three })
unfolding ◌*ℤ◌ ◌/ℤ◌
checked_mul_exact_example = checked_mul_exact two three (omega arith) (omega arith) (omega arith)

checked_mul_overflow_example : checked_mul large three ≡ none
unfolding ◌*ℤ◌ ◌/ℤ◌
checked_mul_overflow_example =
    checked_mul_overflow large three (omega arith) (omega arith) (omega arith)

checked_mul_underflow_example :
    (c : Asset) × (checked_mul negative three ≡ some c) × (c.amount ≢ scaled_product negative three)
unfolding ◌*ℤ◌ ◌/ℤ◌
checked_mul_underflow_example =
    checked_mul_underflow negative three (omega arith) (omega arith) (omega arith)

checked_div_iff_example : (checked_div five two ≡ some (record { amount = pos 250000 })) ↔ (
    (two.amount ≢ pos 0)
    × InI64 (five.amount *ℤ pos 100000)
    × InI64 (five.amount *ℤ pos 100000 /ℤ two.amount)
    × (pos 250000 ≡ five.amount *ℤ pos 100000 /ℤ two.amount))
checked_div_iff_example = checked_div_iff five two (record { amount = pos 250000 })

checked_pow_exact_example :
    checked_pow two 3
    ≡ Option.map (λ z. record { amount = z }) (to_i64 (pow two.amount 3 /ℤ pos (10 ^ (5 * 3 - 5))))
checked_pow_exact_example = checked_pow_exact two 3 (omega arith) (omega arith)

zigzag_decode-encode_example : zigzag_decode (zigzag_encode (negsuc 6)) ≡ negsuc 6
zigzag_decode-encode_example = zigzag_decode-encode (negsuc 6) (omega arith)

zigzag_encode-decode_example : InI64 (zigzag_decode 13) × (zigzag_encode (zigzag_decode 13) ≡ 13)
zigzag_encode-decode_example = zigzag_encode-decode 13 (omega arith)

take_asset-push_asset_example :
    (bs : Bytes) × (push_asset (1 ∷ []) two ≡ 1 ∷ [] ++ bs)
    × (1 ≤ length bs)
    × (length bs ≤ 10)
    × All IsByte bs
    × (take_asset (bs ++ (7 ∷ [])) ≡ ok (two, 7 ∷ []))
take_asset-push_asset_example = take_asset-push_asset two (1 ∷ []) (7 ∷ []) (omega arith)

abbrev key : PublicKey
key = record { bytes = replicate 32 9 }

abbrev permissions : Permissions
permissions = record { threshold = 1; keys = key ∷ [] }

abbrev account : Account
account = record {
  id = 3;
  balance = two;
  script = record { code = 1 ∷ 2 ∷ [] };
  permissions = permissions;
  destroyed = true;
}

account_fits : IsWireAccount account
account_fits = record {
  id_u64 = omega arith;
  balance_i64 = omega arith;
  script_short = omega arith;
  permissions_wire = record { key_count = omega arith; key_sizes = (refl, tt) };
}

account_deserialize-serialize_example :
    (bs : Bytes) × (account_serialize account [] ≡ [] ++ bs)
    × (account_deserialize (bs ++ (7 ∷ [])) ≡ ok (account, 7 ∷ []))
account_deserialize-serialize_example =
    account_deserialize-serialize account [] (7 ∷ []) account_fits

abbrev crypto : Crypto
crypto = record { sha256 = λ b. b; verify_detached = λ sig msg k. true }

abbrev pair : SigPair
pair = record { pub_key = key; signature = record { bytes = replicate 64 1 } }

verify-ok_iff_example : (verify crypto (5 ∷ []) permissions (pair ∷ []) ≡ ok tt) ↔ (
    (permissions.threshold ≡ 0)
    ⊎ (All (IsGood crypto (5 ∷ []) permissions.keys) (pair ∷ [])
        × (1 ≤ permissions.threshold)
        × (permissions.threshold ≤ listed_count permissions.keys (pair ∷ []))))
verify-ok_iff_example = verify-ok_iff crypto (5 ∷ []) permissions (pair ∷ []) (omega arith)

abbrev two_of_two : Permissions
two_of_two = record { threshold = 2; keys = key ∷ record { bytes = replicate 32 8 } ∷ [] }

listed-key : listed key two_of_two.keys ≡ true
unfolding listed bytes_eq
listed-key = refl

verify_repeated_example : verify crypto (5 ∷ []) two_of_two (pair ∷ pair ∷ []) ≡ ok tt
verify_repeated_example =
    verify_repeated crypto (5 ∷ []) two_of_two pair (omega arith) listed-key refl

abbrev sent : TransferTx
sent = record {
  base = record { nonce = 7; expiry = 9; fee = two; signature_pairs = pair ∷ [] };
  from = 1;
  call_fn = 0;
  args = 1 ∷ [];
  amount = three;
  memo = [];
}

sent_fits : IsWireTx sent.base
sent_fits = record {
  nonce_u32 = omega arith;
  expiry_u64 = omega arith;
  fee_i64 = omega arith;
  sig_count = omega arith;
  sig_sizes = ((refl, refl), tt);
}

tx_deserialize-serialize_example :
    (bs : Bytes) × (tx_serialize (transfer_tx sent) [] ≡ [] ++ bs)
    × (tx_deserialize (bs ++ (7 ∷ [])) ≡ some (transfer_tx sent, 7 ∷ []))
tx_deserialize-serialize_example =
    tx_deserialize-serialize (transfer_tx sent) [] (7 ∷ []) sent_fits
      (omega arith, omega arith, omega arith, omega arith)

abbrev pushed_amount : OpFrame
pushed_amount = OpFrame.push_asset (record { amount = negsuc 4 })

abbrev assembled : Bytes
assembled = 1 ∷ 2 ∷ 0x23 ∷ 255 ∷ 255 ∷ 255 ∷ 255 ∷ 255 ∷ 255 ∷ 255 ∷ 251 ∷ []

amount_pushed : frame_push (1 ∷ 2 ∷ []) pushed_amount ≡ some assembled
unfolding frame_push push_u8 be_bytes
amount_pushed = refl

consume_op-frame_push_example :
    consume_op (assembled ++ (0x21 ∷ [])) 2 ≡ ok (some pushed_amount, 11)
consume_op-frame_push_example =
    consume_op-frame_push pushed_amount (1 ∷ 2 ∷ []) assembled (0x21 ∷ []) (omega arith)
      amount_pushed

two_of_two-valid : is_valid two_of_two ≡ true
unfolding is_valid
two_of_two-valid = refl

abbrev second : SigPair
second = record { pub_key = record { bytes = replicate 32 8 }; signature = pair.signature }

is_valid-verify_iff_example :
    (verify crypto (5 ∷ []) two_of_two (pair ∷ second ∷ []) ≡ ok tt) ↔ (two_of_two.threshold ≢ 255)
is_valid-verify_iff_example =
    is_valid-verify_iff crypto (5 ∷ []) two_of_two (pair ∷ second ∷ []) two_of_two-valid refl
      (refl, (refl, tt))
