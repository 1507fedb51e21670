-- ===== src/Net/Message.antt =====
-- The byte format of messages (crates/godcoin/src/net/mod.rs). `none` is the panic of a block that is
-- not signed.
use godcoin.Base.{ℕ, Bytes, Option, some, ◌==◌, if◌then◌else◌}
use godcoin.Serializer.Write.{push_u8, push_u32, push_u64}
use godcoin.Serializer.Read.{Read, invalid_data, pure, fail, ◌>>=◌, take_u8, take_u32, take_u64}
use godcoin.Net.Types.{BodyType, body_code, Body, Msg}
use godcoin.Net.Errors.{error_kind_serialize, error_kind_deserialize}
use godcoin.Net.Rpc.{
  request_serialize, request_deserialize, response_serialize, response_deserialize,
}

unfoldable pub body_serialize : Body → Bytes → Option Bytes
body_serialize (Body.error e) buf =
    some (error_kind_serialize e (push_u8 buf (body_code BodyType.error)))
body_serialize (Body.request req) buf =
    some (request_serialize req (push_u8 buf (body_code BodyType.request)))
body_serialize (Body.response res) buf =
    response_serialize res (push_u8 buf (body_code BodyType.response))
body_serialize (Body.ping nonce) buf = some (push_u64 (push_u8 buf (body_code BodyType.ping)) nonce)
body_serialize (Body.pong nonce) buf = some (push_u64 (push_u8 buf (body_code BodyType.pong)) nonce)

unfoldable pub msg_serialize : Msg → Bytes → Option Bytes
msg_serialize msg buf = body_serialize msg.body (push_u32 buf msg.id)

-- A reader whose value a body holds.
abbrev pub take_body : {A : Type 0} → Read A → (A → Body) → Read Body
take_body m f = do a ← m; pure (f a)

unfoldable pub body_of : ℕ → Read Body
body_of tag =
    if tag == body_code BodyType.error
    then take_body error_kind_deserialize Body.error
    else if tag == body_code BodyType.request
    then take_body request_deserialize Body.request
    else if tag == body_code BodyType.response
    then take_body response_deserialize Body.response
    else if tag == body_code BodyType.ping
    then take_body take_u64 Body.ping
    else if tag == body_code BodyType.pong
    then take_body take_u64 Body.pong
    else fail invalid_data

abbrev pub any_body : Read Body
any_body = do tag ← take_u8; body_of tag

unfoldable pub msg_deserialize : Read Msg
msg_deserialize = do id ← take_u32; body ← any_body; pure (record { id = id; body = body })
