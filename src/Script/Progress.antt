-- ===== src/Script/Progress.antt =====
-- Decoding an operation moves forward and stays inside the script (`consume_op` of
-- crates/godcoin/src/script/engine.rs).
use godcoin.Base.{
  ℕ, zero, suc, ◌+◌, ◌≤◌, ◌<◌, ◌≡◌, refl, arith, Bool, true, false, List, [], ◌∷◌, ◌++◌, Bytes,
  Option, some, none, Result, ok, err, leb, leb→le, ◌==◌, if◌then◌else◌, length, get_elem?,
  Bool-cases, Option-cases, inl, inr, ne→==,
}
use godcoin.Script.Op.{Arg, arg_try_from, OpFrame, EvalErr, EvalErrKind}
use godcoin.Script.Consume.{Consume, Fault, eval_err, panic, pure, fail, ◌>>=◌}
use godcoin.Script.Decode.{
  read_byte, read_slice, read_u64, arg_or_fail, read_args, read_define, read_pair, read_number,
  decode_op, consume_op,
}

-- A step from `pos` has ended between `pos` and the end of the script, or in an error of the source.
pub data Ran {A : Type 0} (script : Bytes) (pos : ℕ) : Result Fault (A × ℕ) → Type 0 where
  reached : (a : A) (pos' : ℕ) → pos ≤ pos' → pos' ≤ length script → Ran script pos (ok (a, pos'))
  failed : (e : EvalErr) → Ran script pos (err (eval_err e))

record Advances {A : Type 0} (m : Consume A) : Type 0 where
  runs : (script : Bytes) (pos : ℕ) → pos ≤ length script → Ran script pos (m script pos)

Advances-pure : {A : Type 0} (a : A) → Advances (pure a)
Advances-pure a = record { runs = λ script pos h. reached a pos (omega arith) h }

Advances-fail : {A : Type 0} (kind : EvalErrKind) → Advances (fail {A = A} kind)
Advances-fail kind = record { runs = λ script pos h. failed _ }

Ran-weaken :
    {A : Type 0} {script : Bytes} {pos pos' : ℕ} {r : Result Fault (A × ℕ)}
    → pos ≤ pos'
    → Ran script pos' r
    → Ran script pos r
Ran-weaken lo (reached b pos'' lo' hi') = reached b pos'' (omega arith) hi'
Ran-weaken lo (failed e) = failed e

Ran-then :
    {A B : Type 0} (f : A → Consume B) (script : Bytes) (pos : ℕ) (r : Result Fault (A × ℕ))
    → ((a : A) → Advances (f a))
    → Ran script pos r
    → Ran script pos (elim r [ ok (a, pos') ↦ f a script pos' | err e ↦ err e ])
Ran-then f script pos r h (reached a pos' lo hi) = Ran-weaken lo ((h a).runs script pos' hi)
Ran-then f script pos r h (failed e) = failed e

Advances-bind :
    {A B : Type 0} (m : Consume A) (f : A → Consume B)
    → Advances m
    → ((a : A) → Advances (f a))
    → Advances (m >>= f)
Advances-bind m f p q = record {
  runs = λ script pos h. Ran-then f script pos (m script pos) q (p.runs script pos h);
}

Advances-if :
    {A : Type 0} (b : Bool) (m n : Consume A)
    → Advances m
    → Advances n
    → Advances (if b then m else n)
Advances-if true m n p q = p
Advances-if false m n p q = q

pub get_elem?-lt {ℓ} :
    {A : Type ℓ} (xs : List A) (i : ℕ) (a : A) → get_elem? xs i ≡ some a → i < length xs
get_elem?-lt [] i a e = cc
get_elem?-lt (x ∷ xs) zero a e = omega arith
get_elem?-lt (x ∷ xs) (suc i) a e = omega (arith, get_elem?-lt xs i a e)

Advances-read_byte : Advances read_byte
unfolding read_byte
Advances-read_byte = record {
  runs = λ script pos h. elim (Option-cases (get_elem? script pos)) [
    | inl e ↦ rw (e, read_byte) (failed _)
    | inr (b, e) ↦
        rw (e, read_byte)
          (reached b (pos + 1) (omega arith) (omega (arith, get_elem?-lt script pos b e)))
  ];
}

Advances-read_slice : (len : ℕ) → Advances (read_slice len)
unfolding read_slice
Advances-read_slice len = record {
  runs = λ script pos h. elim (Bool-cases (leb (pos + len) (length script))) [
    | inl e ↦ rw (e, read_slice) (reached _ (pos + len) (omega arith) (leb→le _ _ e))
    | inr e ↦ rw (e, read_slice) (failed _)
  ];
}

Advances-read_u64 : Advances read_u64
unfolding read_u64
Advances-read_u64 = Advances-bind _ _ (Advances-read_slice 8) (λ b. Advances-pure _)

Advances-arg_or_fail : (o : Option Arg) → Advances (arg_or_fail o)
Advances-arg_or_fail none = Advances-fail _
Advances-arg_or_fail (some arg) = Advances-pure arg

Advances-read_args : (n : ℕ) (args : List Arg) → Advances (read_args n args)
unfolding read_args
Advances-read_args zero args = Advances-pure args
Advances-read_args (suc n) args = Advances-bind _ _ Advances-read_byte (λ tag.
    Advances-bind _ _ (Advances-arg_or_fail (arg_try_from tag))
      (λ arg. Advances-read_args n (args ++ (arg ∷ []))))

Advances-read_define : Advances read_define
unfolding read_define
Advances-read_define =
    Advances-bind _ _ Advances-read_byte
      (λ n. Advances-bind _ _ (Advances-read_args n []) (λ args. Advances-pure _))

Advances-read_pair : (frame : ℕ → ℕ → OpFrame) → Advances (read_pair frame)
unfolding read_pair
Advances-read_pair frame =
    Advances-bind _ _ Advances-read_byte
      (λ a. Advances-bind _ _ Advances-read_byte (λ b. Advances-pure _))

Advances-read_number : (frame : ℕ → OpFrame) → Advances (read_number frame)
unfolding read_number
Advances-read_number frame = Advances-bind _ _ Advances-read_u64 (λ n. Advances-pure _)

Advances-decode_op : (byte : ℕ) → Advances (decode_op byte)
unfolding decode_op
Advances-decode_op byte =
    search
      (
        Advances-if, Advances-pure, Advances-fail, Advances-read_define, Advances-read_pair,
        Advances-read_number,
      )
      depth 40

missing_past {ℓ} : {A : Type ℓ} (xs : List A) (i : ℕ) → get_elem? xs i ≡ none → length xs ≤ i
missing_past [] i e = omega arith
missing_past (x ∷ xs) zero e = absurd cc
missing_past (x ∷ xs) (suc i) e = omega (arith, missing_past xs i e)

-- From a position in the script, `consume_op` ends after it, or in an error of the source; only past the
-- end of the script it panics.
pub data Consumed (script : Bytes) (pos : ℕ) : Result Fault (Option OpFrame × ℕ) → Type 0 where
  ended : Consumed script pos (ok (none, pos))
  decoded :
      (op : Option OpFrame) (pos' : ℕ)
      → pos < pos'
      → pos' ≤ length script
      → Consumed script pos (ok (op, pos'))
  failed : (e : EvalErr) → Consumed script pos (err (eval_err e))
  panicked : length script < pos → Consumed script pos (err panic)

Consumed-Ran :
    {script : Bytes} {pos : ℕ} {r : Result Fault (Option OpFrame × ℕ)}
    → Ran script (pos + 1) r
    → Consumed script pos r
Consumed-Ran (reached op pos' lo hi) = decoded op pos' (omega arith) hi
Consumed-Ran (failed e) = Consumed.failed e

-- For every script and position, `consume_op` reports the end without moving, or moves forward to a
-- position inside the script, or ends in an error of the source; it panics from positions past the end only.
pub consume_op-Consumed : (script : Bytes) (pos : ℕ) → Consumed script pos (consume_op script pos)
unfolding consume_op
consume_op-Consumed script pos = elim (Bool-cases (pos == length script)) [
  | inl e ↦ rw (e, consume_op) ended
  | inr e ↦ elim (Option-cases (get_elem? script pos)) [
    | inl g ↦
        let over = missing_past script pos g in
        rw (e, g, consume_op) (Consumed.panicked (ground (arith, e, over)))
    | inr (byte, g) ↦
        rw (e, g, consume_op)
          (Consumed-Ran (
            (Advances-decode_op byte).runs script (pos + 1)
              (omega (arith, get_elem?-lt script pos byte g))))
  ]
]

get_elem?_past {ℓ} : {A : Type ℓ} (xs : List A) (i : ℕ) → length xs ≤ i → get_elem? xs i ≡ none
get_elem?_past [] i h = refl
get_elem?_past (x ∷ xs) zero h = absurd (omega arith)
get_elem?_past (x ∷ xs) (suc i) h = get_elem?_past xs i (omega arith)

-- From a position past the end of the script `consume_op` panics: the index is out of bounds.
pub consume_op_past_end :
    (script : Bytes) (pos : ℕ) → length script < pos → consume_op script pos ≡ err panic
unfolding consume_op
consume_op_past_end script pos h =
    rw (ne→== pos (length script) (λ e. omega arith), get_elem?_past script pos (omega arith))
