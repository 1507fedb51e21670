-- ===== src/Net/Errors.antt =====
-- The byte format of errors (crates/godcoin/src/blockchain/error.rs, crates/godcoin/src/net/mod.rs).
use godcoin.Base.{ℕ, Bytes, Option, some, none, err, ok, ◌==◌, if◌then◌else◌}
use godcoin.Serializer.Write.{push_u8, push_u32}
use godcoin.Serializer.Read.{
  Read, IoErr, invalid_data, pure, fail, or_fail, ◌>>=◌, take_u8, take_u32,
}
use godcoin.Script.Op.{err_code, err_try_from}
use godcoin.Tx.Take.{Take}
use godcoin.Chain.Types.{TxErr}
use godcoin.Net.Types.{ErrorKind}

-- `ok_or_else` on a reader that answers with an option.
unfoldable pub or_io : {A : Type 0} → Take A → IoErr → Read A
or_io m e cur = elim (m cur) [ some (a, cur') ↦ ok (a, cur') | none ↦ err e ]

unfoldable pub tx_err_serialize : TxErr → Bytes → Bytes
tx_err_serialize (TxErr.script_eval e) buf =
    push_u8 (push_u32 (push_u8 buf 0x00) e.pos) (err_code e.err)
tx_err_serialize TxErr.account_not_found buf = push_u8 buf 0x01
tx_err_serialize TxErr.account_already_exists buf = push_u8 buf 0x02
tx_err_serialize TxErr.invalid_account_permissions buf = push_u8 buf 0x03
tx_err_serialize TxErr.arithmetic buf = push_u8 buf 0x04
tx_err_serialize TxErr.invalid_amount buf = push_u8 buf 0x05
tx_err_serialize TxErr.invalid_fee_amount buf = push_u8 buf 0x06
tx_err_serialize TxErr.too_many_signatures buf = push_u8 buf 0x07
tx_err_serialize TxErr.tx_too_large buf = push_u8 buf 0x08
tx_err_serialize TxErr.tx_prohibited buf = push_u8 buf 0x09
tx_err_serialize TxErr.tx_expired buf = push_u8 buf 0x0A
tx_err_serialize TxErr.tx_dupe buf = push_u8 buf 0x0B

-- The errors without further bytes.
unfoldable pub plain_tx_err : ℕ → Option TxErr
plain_tx_err tag =
    if tag == 0x01
    then some TxErr.account_not_found
    else if tag == 0x02
    then some TxErr.account_already_exists
    else if tag == 0x03
    then some TxErr.invalid_account_permissions
    else if tag == 0x04
    then some TxErr.arithmetic
    else if tag == 0x05
    then some TxErr.invalid_amount
    else if tag == 0x06
    then some TxErr.invalid_fee_amount
    else if tag == 0x07
    then some TxErr.too_many_signatures
    else if tag == 0x08
    then some TxErr.tx_too_large
    else if tag == 0x09
    then some TxErr.tx_prohibited
    else if tag == 0x0A
    then some TxErr.tx_expired
    else if tag == 0x0B
    then some TxErr.tx_dupe
    else none

unfoldable pub script_eval_deserialize : Read TxErr
script_eval_deserialize = do
  pos ← take_u32
  tag ← take_u8
  kind ← or_fail (err_try_from tag) invalid_data
  pure (TxErr.script_eval (record { pos = pos; err = kind }))

unfoldable pub tx_err_deserialize : Read TxErr
tx_err_deserialize = do
  tag ← take_u8
  if tag == 0x00 then script_eval_deserialize else or_fail (plain_tx_err tag) invalid_data

unfoldable pub error_kind_serialize : ErrorKind → Bytes → Bytes
error_kind_serialize ErrorKind.io buf = push_u8 buf 0x00
error_kind_serialize ErrorKind.bytes_remaining buf = push_u8 buf 0x01
error_kind_serialize ErrorKind.invalid_request buf = push_u8 buf 0x02
error_kind_serialize ErrorKind.invalid_height buf = push_u8 buf 0x03
error_kind_serialize (ErrorKind.tx_validation e) buf = tx_err_serialize e (push_u8 buf 0x04)

unfoldable pub tx_validation_deserialize : Read ErrorKind
tx_validation_deserialize = do e ← tx_err_deserialize; pure (ErrorKind.tx_validation e)

unfoldable pub error_kind_of : ℕ → Read ErrorKind
error_kind_of tag =
    if tag == 0x00
    then pure ErrorKind.io
    else if tag == 0x01
    then pure ErrorKind.bytes_remaining
    else if tag == 0x02
    then pure ErrorKind.invalid_request
    else if tag == 0x03
    then pure ErrorKind.invalid_height
    else if tag == 0x04
    then tx_validation_deserialize
    else fail invalid_data

unfoldable pub error_kind_deserialize : Read ErrorKind
error_kind_deserialize = do tag ← take_u8; error_kind_of tag
