-- ===== src/Account/Verify.antt =====
-- Multi-signature checks: `Permissions::verify` and `is_valid` (crates/godcoin/src/account.rs).
use godcoin.Base.{
  ℕ, zero, suc, ◌+◌, ◌%◌, ◌≤◌, ◌<◌, ◌≡◌, ◌↔◌, ◌⊎◌, inl, inr, refl, ap, arith, Bool, true, false,
  ◌||◌, List, [], ◌∷◌, Bytes, some, ok, if◌then◌else◌, length, replicate, length-replicate, All,
  Bool-cases, Option-cases, bytes_eq→eq,
}
use godcoin.Crypto.{Crypto, PublicKey, SigPair, key_eq, verify_pair}
use godcoin.Account.Types.{Permissions, verified, rejected, unknown, match_key, count_sigs, verify}

-- Whether a key is among the keys.
unfoldable pub listed : PublicKey → List PublicKey → Bool
listed k [] = false
listed k (key ∷ keys) = key_eq key k || listed k keys

-- The number of pairs whose key is listed.
unfoldable pub listed_count : List PublicKey → List SigPair → ℕ
listed_count keys [] = 0
listed_count keys (pair ∷ sigs) =
    if listed pair.pub_key keys then suc (listed_count keys sigs) else listed_count keys sigs

pub listed_count-le :
    (keys : List PublicKey) (sigs : List SigPair) → listed_count keys sigs ≤ length sigs
unfolding listed_count
listed_count-le keys [] = omega arith
listed_count-le keys (pair ∷ sigs) = ground (arith, listed_count-le keys sigs)

listed_count-replicate :
    (keys : List PublicKey) (pair : SigPair) (n : ℕ)
    → listed pair.pub_key keys ≡ true
    → listed_count keys (replicate n pair) ≡ n
unfolding listed_count
listed_count-replicate keys pair zero h = refl
listed_count-replicate keys pair (suc n) h = rw h (ap suc (listed_count-replicate keys pair n h))

module _ (c : Crypto) (msg : Bytes) where
  -- A pair has a key that is not listed, or a valid signature.
  abbrev pub IsGood : List PublicKey → SigPair → Type 0
  IsGood keys pair = (listed pair.pub_key keys ≡ false) ⊎ (verify_pair c pair msg ≡ true)

  IsGood-replicate :
      (keys : List PublicKey) (pair : SigPair) (n : ℕ)
      → IsGood keys pair
      → All (IsGood keys) (replicate n pair)
  IsGood-replicate keys pair zero h = tt
  IsGood-replicate keys pair (suc n) h = (h, IsGood-replicate keys pair n h)

  match_key_lem :
      (pair : SigPair) (keys : List PublicKey)
      → match_key c msg pair keys ≡ (
          if listed pair.pub_key keys
          then (if verify_pair c pair msg then verified else rejected)
          else unknown)
  unfolding match_key listed
  match_key_lem pair [] = refl
  match_key_lem pair (key ∷ keys) = elim (Bool-cases (key_eq key pair.pub_key)) [
    | inl same ↦ rw (same, bytes_eq→eq key.bytes pair.pub_key.bytes same)
    | inr other ↦ rw (other) (match_key_lem pair keys)
  ]

  -- What the loops compute, as long as the `u8` does not wrap.
  count_sigs-ok :
      (keys : List PublicKey) (sigs : List SigPair) (count : ℕ)
      → count + length sigs < 256
      → All (IsGood keys) sigs
      → count_sigs c msg keys sigs count ≡ some (count + listed_count keys sigs)
  unfolding count_sigs listed_count
  count_sigs-ok keys [] count h good = ap some (omega arith)
  count_sigs-ok keys (pair ∷ sigs) count h good = ground (
    arith,
    match_key_lem pair keys,
    count_sigs-ok keys sigs count,
    count_sigs-ok keys sigs ((count + 1) % 256),
    good.0,
  )

  count_sigs-IsGood :
      (keys : List PublicKey) (sigs : List SigPair) (count n : ℕ)
      → count_sigs c msg keys sigs count ≡ some n
      → All (IsGood keys) sigs
  unfolding count_sigs
  count_sigs-IsGood keys [] count n e = tt
  count_sigs-IsGood keys (pair ∷ sigs) count n e = ground (
    arith,
    match_key_lem pair keys,
    count_sigs-IsGood keys sigs count n,
    count_sigs-IsGood keys sigs ((count + 1) % 256) n,
  )

  -- With fewer than 256 signatures the check succeeds exactly when the threshold is zero, or every
  -- signature by a listed key is valid and at least as many signatures as the threshold are by
  -- listed keys. Signatures by other keys are passed over; one key's signatures all count.
  pub verify-ok_iff :
      (p : Permissions) (sigs : List SigPair)
      → length sigs < 256
      → (verify c msg p sigs ≡ ok tt) ↔ (
          (p.threshold ≡ 0)
          ⊎ (All (IsGood p.keys) sigs
              × (1 ≤ p.threshold)
              × (p.threshold ≤ listed_count p.keys sigs)))
  unfolding verify
  verify-ok_iff p sigs h = (forwards, backwards)
    where
      forwards :
          verify c msg p sigs ≡ ok tt
          → (p.threshold ≡ 0)
            ⊎ (All (IsGood p.keys) sigs
                × (1 ≤ p.threshold)
                × (p.threshold ≤ listed_count p.keys sigs))
      forwards e = elim (Option-cases (count_sigs c msg p.keys sigs 0)) [
        | inl bad ↦ ground arith
        | inr (n, good) ↦
            let valid = count_sigs-IsGood p.keys sigs 0 n good in
            ground (arith, valid, count_sigs-ok p.keys sigs 0 (omega arith) valid)
      ]

      backwards :
          (p.threshold ≡ 0)
            ⊎ (All (IsGood p.keys) sigs
                × (1 ≤ p.threshold)
                × (p.threshold ≤ listed_count p.keys sigs))
          → verify c msg p sigs ≡ ok tt
      backwards (inl zero_threshold) = ground arith
      backwards (inr (valid, pos, enough)) =
          ground
            (arith, count_sigs-ok p.keys sigs 0 (omega arith) valid, listed_count-le p.keys sigs)

  -- One signer meets any threshold that a valid signature can be repeated to: a pair that is given as
  -- often as the threshold asks is counted each time.
  pub verify_repeated :
      (p : Permissions) (pair : SigPair)
      → p.threshold < 256
      → listed pair.pub_key p.keys ≡ true
      → verify_pair c pair msg ≡ true
      → verify c msg p (replicate p.threshold pair) ≡ ok tt
  verify_repeated p pair h known valid =
      (verify-ok_iff p (replicate p.threshold pair) (rw (length-replicate p.threshold pair) h)).1
        (meets p.threshold refl)
    where
      meets :
          (n : ℕ)
          → p.threshold ≡ n
          → (p.threshold ≡ 0)
            ⊎ (All (IsGood p.keys) (replicate p.threshold pair)
                × (1 ≤ p.threshold)
                × (p.threshold ≤ listed_count p.keys (replicate p.threshold pair)))
      meets zero e = inl e
      meets (suc n) e = inr (
        IsGood-replicate p.keys pair p.threshold (inr valid),
        omega arith,
        omega (arith, listed_count-replicate p.keys pair p.threshold known),
      )
