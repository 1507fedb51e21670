-- ===== src/Tests/Server.antt =====
-- Witnesses for the server.
use godcoin.Base.{◌≡◌, refl, arith, false, true, [], ◌∷◌, Bytes, some, none, ok}
use godcoin.Chain.Accounts.{Blockchain}
use godcoin.Pool.Queue.{pool_new, TxExpiry}
use godcoin.Net.Types.{Body, Msg, Request, filter_insert}
use godcoin.Net.Message.{msg_serialize, msg_deserialize, body_serialize, body_of}
use godcoin.Net.Rpc.{
  request_deserialize, request_of, take_set_filter, take_filter, response_serialize,
}
use godcoin.Serializer.Read.{read_exact, from_be, take_u8, take_u32, take_u64}
use godcoin.Serializer.Write.{push_u8, push_u32, be_bytes}
use godcoin.Server.Client.{
  WsClient, ServerData, WsMessage, Processed, process_ws_msg, process_binary, handle_protocol_msg,
  handle_rpc_request, send_reply,
}
use godcoin.Server.Kept.{Kept, process_ws_msg-Kept}
use godcoin.Server.Replies.{ponged, ping_answered}
use godcoin.Chain.Types.{unwrap, ◌>>=◌}
use godcoin.Tests.Samples.{crypto, indexer}
use godcoin.Tests.Wire.{wire_block}

abbrev stored_chain : Blockchain
stored_chain = record { indexer = indexer; head = wire_block; earlier = λ n. none }

abbrev no_expiries : TxExpiry
no_expiries key = none

abbrev server : ServerData
server = record { pool = pool_new stored_chain no_expiries; sub_pool = [] }

abbrev client : WsClient
client = record { filter = none; addr = 9; needs_pong = true }

-- Message 12 sets the filter to account 3.
abbrev filter_bytes : Bytes
filter_bytes = 0 ∷ 0 ∷ 0 ∷ 12 ∷ 0x01 ∷ 0x11 ∷ 1 ∷ 0 ∷ 0 ∷ 0 ∷ 0 ∷ 0 ∷ 0 ∷ 0 ∷ 3 ∷ []

abbrev filter_msg : Msg
filter_msg = record { id = 12; body = Body.request (Request.set_block_filter (3 ∷ [])) }

abbrev filter_processed : Processed
filter_processed = record {
  server = server;
  client = record { filter = some (3 ∷ []); addr = 9; needs_pong = false };
  queued = [];
  sent = some (WsMessage.binary (0 ∷ 0 ∷ 0 ∷ 12 ∷ 0x02 ∷ 0x11 ∷ []));
}

filter_runs :
    process_ws_msg crypto 5 server client (WsMessage.binary filter_bytes) ≡ ok filter_processed
unfolding process_ws_msg process_binary msg_deserialize body_of request_deserialize request_of
    take_set_filter take_filter filter_insert read_exact from_be take_u8 take_u32 take_u64
    handle_protocol_msg handle_rpc_request send_reply msg_serialize body_serialize
    response_serialize push_u32 push_u8 be_bytes unwrap ◌>>=◌
filter_runs = refl

filter_read : msg_deserialize filter_bytes ≡ ok (filter_msg, [])
unfolding msg_deserialize body_of request_deserialize request_of take_set_filter take_filter
    filter_insert read_exact from_be take_u8 take_u32 take_u64
filter_read = refl

process_ws_msg-Kept_example : Kept crypto 5 server server client filter_processed.client
process_ws_msg-Kept_example =
    process_ws_msg-Kept crypto 5 server client (WsMessage.binary filter_bytes) filter_processed
      filter_runs

ping_answered_example :
    (bs : Bytes) × (reply : Bytes) × (msg_serialize (record { id = 3; body = Body.ping 77 }) []
      ≡ some bs)
    × (process_ws_msg crypto 5 server client (WsMessage.binary bs)
        ≡ ok (ponged server client reply))
    × (msg_deserialize reply ≡ ok (record { id = 3; body = Body.pong 77 }, []))
ping_answered_example = ping_answered crypto 5 server client 3 77 (omega arith) (omega arith)

abbrev filtering : WsClient
filtering = record client { filter = some (3 ∷ []) }
