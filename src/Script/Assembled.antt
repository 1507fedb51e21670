-- ===== src/Script/Assembled.antt =====
-- What the assembler writes is what the machine decodes (crates/godcoin/src/script/builder.rs,
-- crates/godcoin/src/script/engine.rs).
use godcoin.Base.{
  ℕ, ◌+◌, ◌^◌, ◌<◌, ◌≡◌, refl, ap, sym, ◌∙◌, arith, false, [], ◌∷◌, ◌++◌, append_assoc, append-nil,
  Bytes, some, ok, Result, length, length-append, get_elem?, le→leb, ◌==◌,
}
use mathlib.Core.Path.{subst}
use godcoin.Serializer.Write.{be_bytes}
use godcoin.Serializer.Decodes.{take-length, drop-length, length-be_bytes, from_be-be_bytes}
use godcoin.Script.Op.{OpFrame}
use godcoin.Script.Consume.{Consume, Fault, pure, ◌>>=◌}
use godcoin.Script.Decode.{
  read_byte, read_slice, read_u64, read_pair, read_number, decode_op, consume_op,
}

-- The step takes exactly these bytes, wherever they stand, and returns the value.
pub record TakesAt {A : Type 0} (m : Consume A) (bs : Bytes) (a : A) : Type 0 where
  pub runs :
      (pre post : Bytes) → m (pre ++ (bs ++ post)) (length pre) ≡ ok (a, length pre + length bs)

bind_at :
    {A B : Type 0} (m : Consume A) (f : A → Consume B) (script : Bytes) (pos pos' : ℕ) (a : A)
    (r : Result Fault (B × ℕ))
    → m script pos ≡ ok (a, pos')
    → f a script pos' ≡ r
    → (m >>= f) script pos ≡ r
bind_at m f script pos pos' a r e h = rw (e, ◌>>=◌) h

TakesAt-bind :
    {A B : Type 0} (m : Consume A) (f : A → Consume B) (bs cs : Bytes) (a : A) (b : B)
    → TakesAt m bs a
    → TakesAt (f a) cs b
    → TakesAt (m >>= f) (bs ++ cs) b
TakesAt-bind m f bs cs a b p q = record {
  runs = λ pre post.
      subst
        (λ (s : Bytes). (m >>= f) (pre ++ s) (length pre) ≡ ok (b, length pre + length (bs ++ cs)))
        (sym (append_assoc bs cs post))
        (bind_at m f _ _ _ a _ (p.runs pre (cs ++ post)) (moved pre post));
}
  where
    moved :
        (pre post : Bytes)
        → f a (pre ++ (bs ++ (cs ++ post))) (length pre + length bs)
          ≡ ok (b, length pre + length (bs ++ cs))
    moved pre post =
        subst
          (λ (s : Bytes). f a s (length pre + length bs) ≡ ok (b, length pre + length (bs ++ cs)))
          (append_assoc pre bs (cs ++ post))
          (subst
            (λ (n : ℕ).
              f a ((pre ++ bs) ++ (cs ++ post)) n ≡ ok (b, length pre + length (bs ++ cs)))
            (length-append pre bs)
            (q.runs (pre ++ bs) post
              ∙ ap (λ (n : ℕ). ok (b, n))
                  (omega (arith, length-append pre bs, length-append bs cs))))

pub TakesAt-pure : {A : Type 0} (a : A) → TakesAt (pure a) [] a
TakesAt-pure a = record { runs = λ pre post. ap (λ (n : ℕ). ok (a, n)) (omega arith) }

get_elem?-length : (pre post : Bytes) (b : ℕ) → get_elem? (pre ++ (b ∷ post)) (length pre) ≡ some b
get_elem?-length [] post b = refl
get_elem?-length (x ∷ pre) post b = get_elem?-length pre post b

read_byte-TakesAt : (b : ℕ) → TakesAt read_byte (b ∷ []) b
unfolding read_byte
read_byte-TakesAt b = record { runs = λ pre post. rw (read_byte, get_elem?-length pre post b) refl }

read_slice-TakesAt : (bs : Bytes) → TakesAt (read_slice (length bs)) bs bs
unfolding read_slice
read_slice-TakesAt bs = record {
  runs = λ pre post.
      rw
        (
          le→leb (length pre + length bs) (length (pre ++ (bs ++ post)))
              (omega (arith, length-append pre (bs ++ post), length-append bs post)),
          drop-length pre (bs ++ post),
          take-length bs post,
        )
        refl;
}

inside : (pre rest : Bytes) (b : ℕ) → (length pre == length (pre ++ (b ∷ rest))) ≡ false
inside pre rest b = ground (arith, length-append pre (b ∷ rest))

-- The byte of an operation, and what is decoded under it.
pub consume_op-TakesAt :
    (byte : ℕ) (bs : Bytes) (f : OpFrame)
    → TakesAt (decode_op byte) bs (some f)
    → TakesAt consume_op (byte ∷ bs) (some f)
unfolding consume_op
consume_op-TakesAt byte bs f p = record {
  runs = λ pre post.
      rw (consume_op, inside pre (bs ++ post) byte, get_elem?-length pre (bs ++ post) byte)
        (subst
          (λ (s : Bytes).
            decode_op byte s (length pre + 1) ≡ ok (some f, length pre + length (byte ∷ bs)))
          (append_assoc pre (byte ∷ []) (bs ++ post))
          (subst
            (λ (n : ℕ).
              decode_op byte ((pre ++ (byte ∷ [])) ++ (bs ++ post)) n
              ≡ ok (some f, length pre + length (byte ∷ bs)))
            (length-append pre (byte ∷ []))
            (p.runs (pre ++ (byte ∷ [])) post
              ∙ ap (λ (n : ℕ). ok (some f, n)) (omega (arith, length-append pre (byte ∷ []))))));
}

read_u64-TakesAt : (n : ℕ) → n < 2 ^ 64 → TakesAt read_u64 (be_bytes 8 n) n
unfolding read_u64
read_u64-TakesAt n h = rw (← append-nil (be_bytes 8 n)) (
    TakesAt-bind (read_slice 8) _ (be_bytes 8 n) [] (be_bytes 8 n) n
      (rw (length-be_bytes 8 n) at (read_slice-TakesAt (be_bytes 8 n)))
      (rw (from_be-be_bytes 8 n h) (TakesAt-pure n)))

pub read_number-TakesAt :
    (frame : ℕ → OpFrame) (n : ℕ)
    → n < 2 ^ 64
    → TakesAt (read_number frame) (be_bytes 8 n) (some (frame n))
unfolding read_number
read_number-TakesAt frame n h = rw (← append-nil (be_bytes 8 n)) (
    TakesAt-bind read_u64 _ (be_bytes 8 n) [] n (some (frame n)) (read_u64-TakesAt n h)
      (TakesAt-pure (some (frame n))))

pub read_pair-TakesAt :
    (frame : ℕ → ℕ → OpFrame) (a b : ℕ) → TakesAt (read_pair frame) (a ∷ b ∷ []) (some (frame a b))
unfolding read_pair
read_pair-TakesAt frame a b =
    TakesAt-bind read_byte _ (a ∷ []) (b ∷ []) a (some (frame a b)) (read_byte-TakesAt a) (
      TakesAt-bind read_byte _ (b ∷ []) [] b (some (frame a b)) (read_byte-TakesAt b)
        (TakesAt-pure (some (frame a b))))
