-- ===== src/Net/ErrorLaws.antt =====
-- Errors are read back from their bytes (crates/godcoin/src/blockchain/error.rs,
-- crates/godcoin/src/net/mod.rs).
use godcoin.Base.{◌^◌, ◌<◌, ◌≡◌, refl, [], ◌∷◌, ◌++◌, Bytes, some, ok, ℕ}
use godcoin.Serializer.Write.{be_bytes}
use godcoin.Serializer.Read.{Read, IoErr, ◌>>=◌, take_u8, take_u32}
use godcoin.Serializer.Decodes.{
  Decodes, Decodes-bind, Decodes-map, take_u8-Decodes, take_u32-Decodes,
}
use godcoin.Serializer.Laws.{pushes}
use godcoin.Script.Op.{EvalErr, EvalErrKind, err_code, err_try_from}
use godcoin.Tx.Take.{Take, Takes}
use godcoin.Chain.Types.{TxErr}
use godcoin.Net.Types.{ErrorKind}
use godcoin.Net.Errors.{
  or_io, tx_err_serialize, plain_tx_err, script_eval_deserialize, tx_err_deserialize,
  error_kind_serialize, tx_validation_deserialize, error_kind_of, error_kind_deserialize,
}

pub Decodes-or_io :
    {A : Type 0} (m : Take A) (e : IoErr) (bs : Bytes) (a : A)
    → Takes m bs a
    → Decodes (or_io m e) bs a
unfolding or_io
Decodes-or_io m e bs a p = record { runs = λ rest. rw (or_io, p.runs rest) refl }

-- A tag, and what is read under it.
pub Decodes-tag :
    {B : Type 0} (tag : ℕ) (f : ℕ → Read B) (bs : Bytes) (b : B)
    → Decodes (f tag) bs b
    → Decodes (take_u8 >>= f) (tag ∷ bs) b
Decodes-tag tag f bs b p = Decodes-bind take_u8 f (tag ∷ []) bs tag b (take_u8-Decodes tag) p

pub Decodes-pure : {A : Type 0} (a : A) → Decodes (λ cur. ok (a, cur)) [] a
Decodes-pure a = record { runs = λ rest. refl }

abbrev pub IsWireTxErr : TxErr → Type 0
IsWireTxErr (TxErr.script_eval e) = e.pos < 2 ^ 32
IsWireTxErr _ = Unit {0}

abbrev pub IsWireError : ErrorKind → Type 0
IsWireError (ErrorKind.tx_validation e) = IsWireTxErr e
IsWireError _ = Unit {0}

pub tx_err_bytes : TxErr → Bytes
tx_err_bytes (TxErr.script_eval e) = 0x00 ∷ (be_bytes 4 e.pos ++ (err_code e.err ∷ []))
tx_err_bytes TxErr.account_not_found = 0x01 ∷ []
tx_err_bytes TxErr.account_already_exists = 0x02 ∷ []
tx_err_bytes TxErr.invalid_account_permissions = 0x03 ∷ []
tx_err_bytes TxErr.arithmetic = 0x04 ∷ []
tx_err_bytes TxErr.invalid_amount = 0x05 ∷ []
tx_err_bytes TxErr.invalid_fee_amount = 0x06 ∷ []
tx_err_bytes TxErr.too_many_signatures = 0x07 ∷ []
tx_err_bytes TxErr.tx_too_large = 0x08 ∷ []
tx_err_bytes TxErr.tx_prohibited = 0x09 ∷ []
tx_err_bytes TxErr.tx_expired = 0x0A ∷ []
tx_err_bytes TxErr.tx_dupe = 0x0B ∷ []

pub error_kind_bytes : ErrorKind → Bytes
error_kind_bytes ErrorKind.io = 0x00 ∷ []
error_kind_bytes ErrorKind.bytes_remaining = 0x01 ∷ []
error_kind_bytes ErrorKind.invalid_request = 0x02 ∷ []
error_kind_bytes ErrorKind.invalid_height = 0x03 ∷ []
error_kind_bytes (ErrorKind.tx_validation e) = 0x04 ∷ tx_err_bytes e

tx_err_serialize_lem : (e : TxErr) (buf : Bytes) → tx_err_serialize e buf ≡ buf ++ tx_err_bytes e
unfolding tx_err_serialize tx_err_bytes
tx_err_serialize_lem (TxErr.script_eval e) buf = simp pushes
tx_err_serialize_lem TxErr.account_not_found buf = simp pushes
tx_err_serialize_lem TxErr.account_already_exists buf = simp pushes
tx_err_serialize_lem TxErr.invalid_account_permissions buf = simp pushes
tx_err_serialize_lem TxErr.arithmetic buf = simp pushes
tx_err_serialize_lem TxErr.invalid_amount buf = simp pushes
tx_err_serialize_lem TxErr.invalid_fee_amount buf = simp pushes
tx_err_serialize_lem TxErr.too_many_signatures buf = simp pushes
tx_err_serialize_lem TxErr.tx_too_large buf = simp pushes
tx_err_serialize_lem TxErr.tx_prohibited buf = simp pushes
tx_err_serialize_lem TxErr.tx_expired buf = simp pushes
tx_err_serialize_lem TxErr.tx_dupe buf = simp pushes

pub error_kind_serialize_lem :
    (e : ErrorKind) (buf : Bytes) → error_kind_serialize e buf ≡ buf ++ error_kind_bytes e
unfolding error_kind_serialize error_kind_bytes
error_kind_serialize_lem ErrorKind.io buf = simp pushes
error_kind_serialize_lem ErrorKind.bytes_remaining buf = simp pushes
error_kind_serialize_lem ErrorKind.invalid_request buf = simp pushes
error_kind_serialize_lem ErrorKind.invalid_height buf = simp pushes
error_kind_serialize_lem (ErrorKind.tx_validation e) buf = simp (tx_err_serialize_lem, pushes)

kind_known : (k : EvalErrKind) → err_try_from (err_code k) ≡ some k
unfolding err_try_from
kind_known EvalErrKind.script_ret_false = refl
kind_known EvalErrKind.aborted = refl
kind_known EvalErrKind.unexpected_eof = refl
kind_known EvalErrKind.header_read_err = refl
kind_known EvalErrKind.invalid_entry_point = refl
kind_known EvalErrKind.unknown_op = refl
kind_known EvalErrKind.unknown_fn = refl
kind_known EvalErrKind.unknown_arg_type = refl
kind_known EvalErrKind.arg_deserialization = refl
kind_known EvalErrKind.invalid_item_on_stack = refl
kind_known EvalErrKind.stack_overflow = refl
kind_known EvalErrKind.stack_underflow = refl
kind_known EvalErrKind.arithmetic = refl
kind_known EvalErrKind.invalid_amount = refl
kind_known EvalErrKind.account_not_found = refl

script_eval-Decodes :
    (e : EvalErr)
    → e.pos < 2 ^ 32
    → Decodes script_eval_deserialize
        (be_bytes 4 e.pos ++ (err_code e.err ∷ []))
        (TxErr.script_eval e)
unfolding script_eval_deserialize
script_eval-Decodes e h =
    Decodes-bind take_u32 _ (be_bytes 4 e.pos) (err_code e.err ∷ []) e.pos _
      (take_u32-Decodes e.pos h)
      (Decodes-tag (err_code e.err) _ [] (TxErr.script_eval e)
        (rw (kind_known e.err) (Decodes-pure (TxErr.script_eval e))))

tx_err-Decodes : (e : TxErr) → IsWireTxErr e → Decodes tx_err_deserialize (tx_err_bytes e) e
unfolding tx_err_deserialize tx_err_bytes plain_tx_err
tx_err-Decodes (TxErr.script_eval e) h = Decodes-tag 0x00 _ _ _ (script_eval-Decodes e h)
tx_err-Decodes TxErr.account_not_found h = Decodes-tag 0x01 _ [] _ (Decodes-pure _)
tx_err-Decodes TxErr.account_already_exists h = Decodes-tag 0x02 _ [] _ (Decodes-pure _)
tx_err-Decodes TxErr.invalid_account_permissions h = Decodes-tag 0x03 _ [] _ (Decodes-pure _)
tx_err-Decodes TxErr.arithmetic h = Decodes-tag 0x04 _ [] _ (Decodes-pure _)
tx_err-Decodes TxErr.invalid_amount h = Decodes-tag 0x05 _ [] _ (Decodes-pure _)
tx_err-Decodes TxErr.invalid_fee_amount h = Decodes-tag 0x06 _ [] _ (Decodes-pure _)
tx_err-Decodes TxErr.too_many_signatures h = Decodes-tag 0x07 _ [] _ (Decodes-pure _)
tx_err-Decodes TxErr.tx_too_large h = Decodes-tag 0x08 _ [] _ (Decodes-pure _)
tx_err-Decodes TxErr.tx_prohibited h = Decodes-tag 0x09 _ [] _ (Decodes-pure _)
tx_err-Decodes TxErr.tx_expired h = Decodes-tag 0x0A _ [] _ (Decodes-pure _)
tx_err-Decodes TxErr.tx_dupe h = Decodes-tag 0x0B _ [] _ (Decodes-pure _)

pub error_kind-Decodes :
    (e : ErrorKind) → IsWireError e → Decodes error_kind_deserialize (error_kind_bytes e) e
unfolding error_kind_deserialize error_kind_bytes error_kind_of tx_validation_deserialize
error_kind-Decodes ErrorKind.io h = Decodes-tag 0x00 _ [] _ (Decodes-pure _)
error_kind-Decodes ErrorKind.bytes_remaining h = Decodes-tag 0x01 _ [] _ (Decodes-pure _)
error_kind-Decodes ErrorKind.invalid_request h = Decodes-tag 0x02 _ [] _ (Decodes-pure _)
error_kind-Decodes ErrorKind.invalid_height h = Decodes-tag 0x03 _ [] _ (Decodes-pure _)
error_kind-Decodes (ErrorKind.tx_validation e) h = Decodes-tag 0x04 _ (tx_err_bytes e) _ (
    Decodes-map tx_err_deserialize ErrorKind.tx_validation (tx_err_bytes e) e _ (tx_err-Decodes e h)
      refl)
