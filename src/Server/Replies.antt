-- ===== src/Server/Replies.antt =====
-- What the server replies (crates/server/src/server/client/mod.rs).
use godcoin.Base.{
  ℕ, ◌^◌, ◌<◌, ◌≡◌, ◌⊎◌, refl, false, List, [], ◌∷◌, append-nil, Bytes, some, none, Result, ok, err,
}
use godcoin.Crypto.{Crypto}
use godcoin.Chain.Types.{unwrap, ◌>>=◌}
use godcoin.Serializer.Read.{IoErr}
use godcoin.Chain.Inversion.{bind_to}
use godcoin.Net.Types.{FilteredBlock, Request, Response, ErrorKind, Body, Msg}
use godcoin.Net.Message.{msg_serialize, msg_deserialize}
use godcoin.Net.RoundTrip.{msg_deserialize-serialize}
use godcoin.Server.Client.{
  WsClient, ServerData, WsMessage, Processed, no_id, range_msgs, send_reply, handle_protocol_msg,
  process_binary, process_ws_msg,
}

-- One message is sent, and none is queued.
abbrev pub Sends : Msg → Processed → Type 0
Sends msg p =
    ((bs : Bytes) × (p.sent ≡ some (WsMessage.binary bs)) × (msg_serialize msg [] ≡ some bs))
    × (p.queued ≡ [])

abbrev pub IsSilent : Processed → Type 0
IsSilent p = (p.sent ≡ none) × (p.queued ≡ [])

abbrev pub SendsError : ℕ → Processed → Type 0
SendsError id p = (e : ErrorKind) × Sends (record { id = id; body = Body.error e }) p

-- A range is answered by an error, or by the messages of its blocks and its end; any other request by one
-- response or error.
abbrev pub RepliesToRequest : ℕ → Request → Processed → Type 0
RepliesToRequest id (Request.get_block_range lo hi) p =
    SendsError id p
    ⊎ ((p.sent ≡ none) × ((blocks : List FilteredBlock) × (p.queued ≡ range_msgs id blocks)))
RepliesToRequest id _ p =
    ((res : Response) × Sends (record { id = id; body = Body.response res }) p) ⊎ SendsError id p

abbrev pub RepliesToBody : ℕ → Body → Processed → Type 0
RepliesToBody id (Body.request req) p = RepliesToRequest id req p
RepliesToBody id (Body.ping nonce) p = Sends (record { id = id; body = Body.pong nonce }) p
RepliesToBody id _ p = IsSilent p

-- By what was read of the bytes of a message.
abbrev pub RepliesTo : Result IoErr (Msg × Bytes) → Processed → Type 0
RepliesTo (err e) p = Sends (record { id = no_id; body = Body.error ErrorKind.io }) p
RepliesTo (ok (msg, [])) p = RepliesToBody msg.id msg.body p
RepliesTo (ok (msg, b ∷ rest)) p =
    Sends (record { id = msg.id; body = Body.error ErrorKind.bytes_remaining }) p

-- What the server makes of a ping.
abbrev pub ponged : ServerData → WsClient → Bytes → Processed
ponged server client reply = record {
  server = server;
  client = record client { needs_pong = false };
  queued = [];
  sent = some (WsMessage.binary reply);
}

-- A ping that a client writes is answered by bytes that the client reads as the pong with the same id and
-- the same nonce, and the server no longer waits for a pong of that client; nothing else changes.
pub ping_answered :
    (c : Crypto) (now : ℕ) (server : ServerData) (client : WsClient) (id nonce : ℕ)
    → id < 2 ^ 32
    → nonce < 2 ^ 64
    → (bs : Bytes) × (reply : Bytes) × (msg_serialize
          (record { id = id; body = Body.ping nonce })
          []
        ≡ some bs)
      × (process_ws_msg c now server client (WsMessage.binary bs) ≡ ok (ponged server client reply))
      × (msg_deserialize reply ≡ ok (record { id = id; body = Body.pong nonce }, []))
unfolding process_ws_msg process_binary handle_protocol_msg send_reply unwrap
ping_answered c now server client id nonce h k =
    let (bs, written, read) =
      msg_deserialize-serialize (record { id = id; body = Body.ping nonce }) [] [] h k in
    let (reply, answered, reads) =
      msg_deserialize-serialize (record { id = id; body = Body.pong nonce }) [] [] h k in
    (
      bs,
      reply,
      written,
      rw (process_binary, rw (append-nil bs) at read)
          (bind_to _ _ _ _ refl (bind_to _ _ reply _ (rw answered refl) refl)),
      rw (append-nil reply) at reads,
    )
