-- ===== src/Server/Client.antt =====
-- How the server handles a message of a client (crates/server/src/server/client/mod.rs), and the pool of
-- subscribed clients (crates/server/src/server/pool.rs). Timers, metrics and log lines are left out.
use godcoin.Base.{
  ℕ, ◌+◌, ◌-◌, ◌^◌, Bool, false, List, [], ◌∷◌, Bytes, Option, some, none, ok, err, ltb, ◌==◌,
  if◌then◌else◌, length,
}
use godcoin.Crypto.{Crypto}
use godcoin.Chain.Types.{TxErr, AccountInfo, rejected, panic, out_of_fuel, Outcome, unwrap, ◌>>=◌}
use godcoin.Chain.Accounts.{get_block}
use godcoin.Pool.Queue.{ReceiptPool, push, pool_account_info}
use godcoin.Net.Types.{BlockFilter, FilteredBlock, Request, Response, ErrorKind, Body, Msg}
use godcoin.Net.Message.{msg_serialize, msg_deserialize}
use godcoin.Server.Query.{contains, get_filtered_block, get_properties}
use godcoin.Server.Range.{try_new, set_filter, drain}

-- Addresses are compared for equality only.
abbrev pub SocketAddr : Type 0
SocketAddr = ℕ

pub record WsClient : Type 0 where
  pub filter : Option BlockFilter
  pub addr : SocketAddr
  pub needs_pong : Bool

-- The keys of the map of `SubscriptionPool`.
abbrev pub SubscriptionPool : Type 0
SubscriptionPool = List SocketAddr

unfoldable pub pool_insert : SubscriptionPool → SocketAddr → SubscriptionPool
pool_insert clients addr = if contains clients addr then clients else addr ∷ clients

unfoldable pub pool_remove : SubscriptionPool → SocketAddr → SubscriptionPool
pool_remove [] addr = []
pool_remove (client ∷ clients) addr =
    let rest = pool_remove clients addr in if client == addr then rest else client ∷ rest

-- The chain is that of the minter's pool.
pub record ServerData : Type 0 where
  pub pool : ReceiptPool
  pub sub_pool : SubscriptionPool

-- What becomes of the server and the client, the messages of a range that is sent, and the reply.
pub record Answer : Type 0 where
  pub server : ServerData
  pub client : WsClient
  pub queued : List Msg
  pub reply : Option Body

abbrev pub Handled : Type 0
Handled = Outcome TxErr Answer

abbrev pub answer : ServerData → WsClient → Option Body → Handled
answer server client reply =
    ok (record { server = server; client = client; queued = []; reply = reply })

abbrev pub respond : ServerData → WsClient → Response → Handled
respond server client res = answer server client (some (Body.response res))

abbrev pub refuse : ServerData → WsClient → ErrorKind → Handled
refuse server client e = answer server client (some (Body.error e))

unfoldable pub answer_broadcast : ServerData → WsClient → Outcome TxErr ReceiptPool → Handled
answer_broadcast server client (ok pool) =
    respond (record server { pool = pool }) client Response.broadcast
answer_broadcast server client (err (rejected e)) = refuse server client (ErrorKind.tx_validation e)
answer_broadcast server client (err panic) = err panic
answer_broadcast server client (err out_of_fuel) = err out_of_fuel

-- A filtered block, which may panic, or the whole block.
unfoldable pub answer_block : ServerData → WsClient → ℕ → Handled
answer_block server client height = elim (client.filter) [
  | some filter ↦ (do
    found ← get_filtered_block server.pool.chain height filter
    elim found [
      | some seen ↦ respond server client (Response.get_block seen)
      | none ↦ refuse server client ErrorKind.invalid_height
    ])
  | none ↦ elim (get_block server.pool.chain height) [
    | some block ↦ respond server client (Response.get_block (FilteredBlock.block block))
    | none ↦ refuse server client ErrorKind.invalid_height
  ]
]

unfoldable pub answer_info : ServerData → WsClient → Option AccountInfo → Handled
answer_info server client (some info) = respond server client (Response.get_account_info info)
answer_info server client none = refuse server client (ErrorKind.tx_validation TxErr.arithmetic)

-- The messages of a range: its blocks, and the end.
unfoldable pub range_msgs : ℕ → List FilteredBlock → List Msg
range_msgs id [] = record { id = id; body = Body.response Response.get_block_range } ∷ []
range_msgs id (seen ∷ blocks) =
    record { id = id; body = Body.response (Response.get_block seen) } ∷ range_msgs id blocks

unfoldable pub send_range : ServerData → WsClient → ℕ → ℕ → ℕ → Handled
send_range server client id min_height max_height =
    elim (try_new server.pool.chain min_height max_height) [
      | none ↦ refuse server client ErrorKind.invalid_height
      | some range ↦ (do
        blocks ← drain (max_height + 2 - min_height) (set_filter range client.filter)
        ok (record {
          server = server;
          client = client;
          queued = range_msgs id blocks;
          reply = none;
        }))
    ]

module _ (c : Crypto) (now : ℕ) where
  unfoldable pub handle_rpc_request : ServerData → WsClient → ℕ → Request → Handled
  handle_rpc_request server client id (Request.broadcast tx) =
      answer_broadcast server client (push c now server.pool tx)
  handle_rpc_request server client id (Request.set_block_filter filter) =
      if ltb 16 (length filter)
      then refuse server client ErrorKind.invalid_request
      else respond server (record client { filter = some filter }) Response.set_block_filter
  handle_rpc_request server client id Request.clear_block_filter =
      respond server (record client { filter = none }) Response.clear_block_filter
  handle_rpc_request server client id Request.subscribe =
      respond (record server { sub_pool = pool_insert server.sub_pool client.addr }) client
        Response.subscribe
  handle_rpc_request server client id Request.unsubscribe =
      respond (record server { sub_pool = pool_remove server.sub_pool client.addr }) client
        Response.unsubscribe
  handle_rpc_request server client id Request.get_properties = do
    props ← get_properties server.pool.chain
    respond server client (Response.get_properties props)
  handle_rpc_request server client id (Request.get_block height) = answer_block server client height
  handle_rpc_request server client id (Request.get_full_block height) =
      elim (get_block server.pool.chain height) [
        | some full ↦ respond server client (Response.get_full_block full)
        | none ↦ refuse server client ErrorKind.invalid_height
      ]
  handle_rpc_request server client id (Request.get_block_range min_height max_height) =
      send_range server client id min_height max_height
  handle_rpc_request server client id (Request.get_account_info acc) = do
    found ← pool_account_info server.pool acc
    answer_info server client found

  unfoldable pub handle_protocol_msg : ServerData → WsClient → Msg → Handled
  handle_protocol_msg server client msg = elim (msg.body) [
    | Body.error e ↦ answer server client none
    | Body.request req ↦ handle_rpc_request server client msg.id req
    | Body.response res ↦ answer server client none
    | Body.ping nonce ↦ answer server client (some (Body.pong nonce))
    | Body.pong nonce ↦ answer server client none
  ]

pub data WsMessage : Type 0 where
  binary text : Bytes → WsMessage
  close_unsupported other : WsMessage

pub record Processed : Type 0 where
  pub server : ServerData
  pub client : WsClient
  pub queued : List Msg
  pub sent : Option WsMessage

-- The reply under an id, in bytes; a panic where it holds a block that is not signed.
unfoldable pub send_reply : ℕ → Answer → Outcome TxErr Processed
send_reply id a = elim (a.reply) [
  | none ↦ ok (record { server = a.server; client = a.client; queued = a.queued; sent = none })
  | some body ↦ (do
    buf ← unwrap (msg_serialize (record { id = id; body = body }) [])
    ok (record {
      server = a.server;
      client = a.client;
      queued = a.queued;
      sent = some (WsMessage.binary buf);
    }))
]

abbrev pub send_error : ServerData → WsClient → ℕ → ErrorKind → Outcome TxErr Processed
send_error server client id e = refuse server client e >>= λ a. send_reply id a

-- The largest `u32`, the id of messages that answer no request.
abbrev pub no_id : ℕ
no_id = 2 ^ 32 - 1

module _ (c : Crypto) (now : ℕ) where
  unfoldable pub process_binary : ServerData → WsClient → Bytes → Outcome TxErr Processed
  process_binary server client buf = elim (msg_deserialize buf) [
    | err e ↦ send_error server client no_id ErrorKind.io
    | ok (msg, []) ↦ (do a ← handle_protocol_msg c now server client msg; send_reply msg.id a)
    | ok (msg, b ∷ rest) ↦ send_error server client msg.id ErrorKind.bytes_remaining
  ]

  unfoldable pub process_ws_msg : ServerData → WsClient → WsMessage → Outcome TxErr Processed
  process_ws_msg server client (WsMessage.binary buf) =
      process_binary server (record client { needs_pong = false }) buf
  process_ws_msg server client (WsMessage.text t) = ok (record {
    server = server;
    client = client;
    queued = [];
    sent = some WsMessage.close_unsupported;
  })
  process_ws_msg server client _ =
      ok (record { server = server; client = client; queued = []; sent = none })
