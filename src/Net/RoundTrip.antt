-- ===== src/Net/RoundTrip.antt =====
-- Messages are read back from their bytes (crates/godcoin/src/net/mod.rs).
use godcoin.Base.{ℕ, ◌^◌, ◌<◌, ◌≡◌, refl, ap, ◌∙◌, ◌++◌, Bytes, some, ok, append_assoc}
use godcoin.Serializer.Write.{be_bytes, push_u32, push_u64}
use godcoin.Serializer.Read.{take_u32, take_u64}
use godcoin.Serializer.Decodes.{Decodes-bind, Decodes-map, take_u32-Decodes, take_u64-Decodes}
use godcoin.Serializer.Laws.{push_u32_lem, push_u64_lem}
use godcoin.Net.Types.{ErrorKind, Request, Body, Msg}
use godcoin.Net.Errors.{error_kind_serialize, error_kind_deserialize}
use godcoin.Net.ErrorLaws.{
  IsWireError, error_kind_bytes, error_kind_serialize_lem, error_kind-Decodes,
}
use godcoin.Net.RequestLaws.{IsWireRequest, request_bytes, request_serialize_lem, request-Decodes}
use godcoin.Net.ResponseLaws.{IsWireResponse, IsCoded, IsCoded-tag, response-IsCoded}
use godcoin.Net.Rpc.{
  request_serialize, request_deserialize, response_serialize, response_deserialize,
}
use godcoin.Net.Message.{body_serialize, msg_serialize, body_of, any_body, msg_deserialize}

abbrev pub IsWireMessageBody : Body → Type 0
IsWireMessageBody (Body.error e) = IsWireError e
IsWireMessageBody (Body.request req) = IsWireRequest req
IsWireMessageBody (Body.response res) = IsWireResponse res
IsWireMessageBody (Body.ping nonce) = nonce < 2 ^ 64
IsWireMessageBody (Body.pong nonce) = nonce < 2 ^ 64

error-IsCoded :
    (e : ErrorKind)
    → IsWireError e
    → IsCoded (λ buf. some (error_kind_serialize e buf)) error_kind_deserialize e
error-IsCoded e w = record {
  bytes = error_kind_bytes e;
  written = λ buf. ap some (error_kind_serialize_lem e buf);
  reads = error_kind-Decodes e w;
}

request-IsCoded :
    (req : Request)
    → IsWireRequest req
    → IsCoded (λ buf. some (request_serialize req buf)) request_deserialize req
request-IsCoded req w = record {
  bytes = request_bytes req;
  written = λ buf. ap some (request_serialize_lem req buf);
  reads = request-Decodes req w;
}

nonce-IsCoded : (n : ℕ) → n < 2 ^ 64 → IsCoded (λ buf. some (push_u64 buf n)) take_u64 n
nonce-IsCoded n h = record {
  bytes = be_bytes 8 n;
  written = λ buf. ap some (push_u64_lem buf n);
  reads = take_u64-Decodes n h;
}

body-IsCoded : (body : Body) → IsWireMessageBody body → IsCoded (body_serialize body) any_body body
unfolding body_serialize body_of
body-IsCoded (Body.error e) w =
    IsCoded-tag (λ buf. some (error_kind_serialize e buf)) error_kind_deserialize e 0x00 Body.error
      body_of refl (error-IsCoded e w)
body-IsCoded (Body.request req) w =
    IsCoded-tag (λ buf. some (request_serialize req buf)) request_deserialize req 0x01 Body.request
      body_of refl (request-IsCoded req w)
body-IsCoded (Body.response res) w =
    IsCoded-tag (response_serialize res) response_deserialize res 0x02 Body.response body_of refl
      (response-IsCoded res w)
body-IsCoded (Body.ping nonce) w =
    IsCoded-tag (λ buf. some (push_u64 buf nonce)) take_u64 nonce 0x03 Body.ping body_of refl
      (nonce-IsCoded nonce w)
body-IsCoded (Body.pong nonce) w =
    IsCoded-tag (λ buf. some (push_u64 buf nonce)) take_u64 nonce 0x04 Body.pong body_of refl
      (nonce-IsCoded nonce w)

-- A message with any error, request or response whose fields fit the format, where blocks are signed and
-- the accounts of a filter are at most 255 and stand in increasing order, is read back from what
-- `serialize` appends to a buffer, and what follows is left.
pub msg_deserialize-serialize :
    (msg : Msg) (buf rest : Bytes)
    → msg.id < 2 ^ 32
    → IsWireMessageBody msg.body
    → (bs : Bytes) × (msg_serialize msg buf ≡ some (buf ++ bs))
      × (msg_deserialize (bs ++ rest) ≡ ok (msg, rest))
unfolding msg_serialize msg_deserialize
msg_deserialize-serialize msg buf rest h w =
    let coded = body-IsCoded msg.body w in
    (
      be_bytes 4 msg.id ++ coded.bytes,
      coded.written (push_u32 buf msg.id)
          ∙ ap some
              (rw (push_u32_lem buf msg.id) (append_assoc buf (be_bytes 4 msg.id) coded.bytes)),
      (Decodes-bind take_u32 _ (be_bytes 4 msg.id) coded.bytes msg.id msg
            (take_u32-Decodes msg.id h)
            (Decodes-map any_body _ coded.bytes msg.body msg coded.reads refl)).runs
          rest,
    )
