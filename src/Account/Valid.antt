-- ===== src/Account/Valid.antt =====
-- What the validity of permissions means for signers (crates/godcoin/src/account.rs).
use godcoin.Base.{
  suc, ◌≤◌, ◌≡◌, ◌≢◌, ◌↔◌, ◌⊎◌, inl, inr, refl, ap, arith, Bool, true, false, ◌||◌, List, [], ◌∷◌,
  Bytes, ok, length, All, bytes_eq_self, ℕ,
}
use godcoin.Crypto.{Crypto, PublicKey, SigPair, key_eq, verify_pair}
use godcoin.Account.Types.{Permissions, verify, is_valid, is_empty}
use godcoin.Account.Verify.{listed, listed_count, IsGood, verify-ok_iff}

-- The keys that signed.
abbrev pub keys_of : List SigPair → List PublicKey
keys_of [] = []
keys_of (pair ∷ sigs) = pair.pub_key ∷ keys_of sigs

length-keys_of : (sigs : List SigPair) → length (keys_of sigs) ≡ length sigs
length-keys_of [] = refl
length-keys_of (pair ∷ sigs) = ap suc (length-keys_of sigs)

abbrev AreListed : List PublicKey → List SigPair → Type 0
AreListed keys sigs = All (λ (pair : SigPair). listed pair.pub_key keys ≡ true) sigs

or_true : (b : Bool) → b || true ≡ true
or_true true = refl
or_true false = refl

AreListed-cons :
    (key : PublicKey) (keys : List PublicKey) (sigs : List SigPair)
    → AreListed keys sigs
    → AreListed (key ∷ keys) sigs
unfolding listed
AreListed-cons key keys [] h = tt
AreListed-cons key keys (pair ∷ sigs) (known, rest) =
    (rw known (or_true (key_eq key pair.pub_key)), AreListed-cons key keys sigs rest)

keys_of-AreListed : (sigs : List SigPair) → AreListed (keys_of sigs) sigs
unfolding listed
keys_of-AreListed [] = tt
keys_of-AreListed (pair ∷ sigs) = (
  rw (bytes_eq_self pair.pub_key.bytes) refl,
  AreListed-cons pair.pub_key (keys_of sigs) sigs (keys_of-AreListed sigs),
)

listed_count-AreListed :
    (keys : List PublicKey) (sigs : List SigPair)
    → AreListed keys sigs
    → listed_count keys sigs ≡ length sigs
unfolding listed_count
listed_count-AreListed keys [] h = refl
listed_count-AreListed keys (pair ∷ sigs) (known, rest) =
    rw (listed_count, known) (ap suc (listed_count-AreListed keys sigs rest))

valid_cases :
    (p : Permissions)
    → is_valid p ≡ true
    → ((p.threshold ≡ 255) × (is_empty p.keys ≡ true))
      ⊎ ((p.threshold ≢ 255) × (length p.keys ≤ 8) × (p.threshold ≤ length p.keys))
unfolding is_valid
valid_cases p h = ground arith

module _ (c : Crypto) (msg : Bytes) where
  abbrev AreValid : List SigPair → Type 0
  AreValid sigs = All (λ (pair : SigPair). verify_pair c pair msg ≡ true) sigs

  AreValid-IsGood :
      (keys : List PublicKey) (sigs : List SigPair) → AreValid sigs → All (IsGood c msg keys) sigs
  AreValid-IsGood keys [] h = tt
  AreValid-IsGood keys (pair ∷ sigs) (valid, rest) = (inr valid, AreValid-IsGood keys sigs rest)

  -- With no keys, nothing meets the threshold of an immutable account.
  immutable_refused :
      (p : Permissions) → p.threshold ≡ 255 → verify c msg p [] ≡ ok tt → p.threshold ≢ 255
  unfolding listed_count
  immutable_refused p immutable e = elim ((verify-ok_iff c msg p [] (omega arith)).0 e) [
    | inl free ↦ absurd (omega arith)
    | inr (good, pos, enough) ↦ absurd (omega (arith, enough, pos))
  ]

  all_signed :
      (p : Permissions) (sigs : List SigPair)
      → length p.keys ≤ 8
      → p.threshold ≤ length p.keys
      → p.keys ≡ keys_of sigs
      → AreValid sigs
      → verify c msg p sigs ≡ ok tt
  all_signed p sigs few within same valid =
      let size : length p.keys ≡ length sigs = rw same (length-keys_of sigs) in
      let count : listed_count p.keys sigs ≡ length sigs =
        listed_count-AreListed p.keys sigs (rw same (keys_of-AreListed sigs)) in
      (verify-ok_iff c msg p sigs (omega (arith, size))).1 (meets p.threshold refl size count)
    where
      meets :
          (n : ℕ)
          → p.threshold ≡ n
          → length p.keys ≡ length sigs
          → listed_count p.keys sigs ≡ length sigs
          → (p.threshold ≡ 0)
            ⊎ (All (IsGood c msg p.keys) sigs
                × (1 ≤ p.threshold)
                × (p.threshold ≤ listed_count p.keys sigs))
      meets ℕ.zero e size count = inl e
      meets (suc n) e size count =
          inr (AreValid-IsGood p.keys sigs valid, omega arith, omega (arith, size, count, within))

  -- For valid permissions, one valid signature by each key together are enough, unless the threshold is that
  -- of an immutable account; then they are not.
  pub is_valid-verify_iff :
      (p : Permissions) (sigs : List SigPair)
      → is_valid p ≡ true
      → p.keys ≡ keys_of sigs
      → All (λ (pair : SigPair). verify_pair c pair msg ≡ true) sigs
      → (verify c msg p sigs ≡ ok tt) ↔ (p.threshold ≢ 255)
  is_valid-verify_iff p sigs h same valid = elim (valid_cases p h) [
    | inl (immutable, none_listed) ↦
        (no_signer sigs same immutable none_listed, λ other. absurd (other immutable))
    | inr (other, few, within) ↦ (λ e. other, λ e. all_signed p sigs few within same valid)
  ]
    where
      no_signer :
          (sigs : List SigPair)
          → p.keys ≡ keys_of sigs
          → p.threshold ≡ 255
          → is_empty p.keys ≡ true
          → verify c msg p sigs ≡ ok tt
          → p.threshold ≢ 255
      no_signer [] same immutable none_listed e = immutable_refused p immutable e
      no_signer (pair ∷ sigs) same immutable none_listed e = absurd (cc (rw same at none_listed))
