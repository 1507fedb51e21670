-- ===== src/Server/Kept.antt =====
-- What a message of a client can change (crates/server/src/server/client/mod.rs).
use godcoin.Base.{
  ℕ, ◌≤◌, ◌≡◌, ◌⊎◌, inl, inr, refl, arith, false, [], ◌∷◌, Bytes, Option, some, none, Result, ok,
  err, ltb, length, Bool-cases, Option-cases,
}
use mathlib.Core.Path.{subst}
use godcoin.Crypto.{Crypto}
use godcoin.Tx.Types.{TxVariant}
use godcoin.Chain.Types.{Block, TxErr, AccountInfo, rejected, panic, out_of_fuel, Outcome, ◌>>=◌}
use godcoin.Chain.Accounts.{get_block}
use godcoin.Chain.Inversion.{bind_ok-elim, ok_inj}
use godcoin.Pool.Queue.{ReceiptPool, push}
use godcoin.Net.Types.{BlockFilter, FilteredBlock, Request, Response, ErrorKind, Body, Msg}
use godcoin.Net.Message.{msg_deserialize}
use godcoin.Serializer.Read.{IoErr}
use godcoin.Server.Range.{try_new}
use godcoin.Server.Client.{
  WsClient, ServerData, Answer, Handled, respond, refuse, answer, answer_broadcast, answer_block,
  answer_info, send_range, handle_rpc_request, handle_protocol_msg, WsMessage, Processed,
  send_reply, send_error, no_id, process_binary, process_ws_msg,
}

-- A filter has at most sixteen accounts.
abbrev pub IsSmall : Option BlockFilter → Type 0
IsSmall none = Unit {0}
IsSmall (some filter) = length filter ≤ 16

-- The pool stays, or takes one transaction; a small filter is followed by a small one; the address stays.
pub record Kept (c : Crypto) (now : ℕ) (server server' : ServerData) (client client' : WsClient)
    : Type 0 where
  pub pool_kept :
      (server'.pool ≡ server.pool)
      ⊎ ((tx : TxVariant) × (push c now server.pool tx ≡ ok server'.pool))
  pub filter_kept : IsSmall client.filter → IsSmall client'.filter
  pub addr_kept : client'.addr ≡ client.addr

module _ (c : Crypto) (now : ℕ) (server : ServerData) (client : WsClient) where
  abbrev AnswerKept : Answer → Type 0
  AnswerKept a = Kept c now server a.server client a.client

  still : Kept c now server server client client
  still = record { pool_kept = inl refl; filter_kept = λ h. h; addr_kept = refl }

  -- Nothing but the reply.
  answered : (a : Answer) (reply : Option Body) → answer server client reply ≡ ok a → AnswerKept a
  answered a reply e = subst AnswerKept (ok_inj _ _ _ refl e) still

  broadcast-Kept :
      (tx : TxVariant) (a : Answer) (r : Outcome TxErr ReceiptPool)
      → push c now server.pool tx ≡ r
      → answer_broadcast server client r ≡ ok a
      → AnswerKept a
  unfolding answer_broadcast
  broadcast-Kept tx a (ok pool) pushed e =
      subst AnswerKept (ok_inj _ _ _ refl e)
        (record { pool_kept = inr (tx, pushed); filter_kept = λ h. h; addr_kept = refl })
  broadcast-Kept tx a (err (rejected x)) pushed e = answered a _ e
  broadcast-Kept tx a (err panic) pushed e = absurd cc
  broadcast-Kept tx a (err out_of_fuel) pushed e = absurd cc

  found-Kept :
      (a : Answer) (found : Option FilteredBlock)
      → elim found as (λ _. Handled) [
        | some seen ↦ respond server client (Response.get_block seen)
        | none ↦ refuse server client ErrorKind.invalid_height
      ]
        ≡ ok a
      → AnswerKept a
  found-Kept a none e = answered a _ e
  found-Kept a (some seen) e = answered a _ e

  full-Kept :
      (a : Answer) (found : Option Block)
      → elim found as (λ _. Handled) [
        | some block ↦ respond server client (Response.get_block (FilteredBlock.block block))
        | none ↦ refuse server client ErrorKind.invalid_height
      ]
        ≡ ok a
      → AnswerKept a
  full-Kept a none e = answered a _ e
  full-Kept a (some block) e = answered a _ e

  block-Kept : (height : ℕ) (a : Answer) → answer_block server client height ≡ ok a → AnswerKept a
  unfolding answer_block
  block-Kept height a e = elim (Option-cases (client.filter)) [
    | inl all ↦ full-Kept a (get_block server.pool.chain height) (rw (answer_block, all) at e)
    | inr (filter, set) ↦
        bind_ok-elim _ _ a (rw (answer_block, set) at e) (λ found _ e1. found-Kept a found e1)
  ]

  info-Kept :
      (a : Answer) (found : Option AccountInfo)
      → answer_info server client found ≡ ok a
      → AnswerKept a
  unfolding answer_info
  info-Kept a none e = answered a _ e
  info-Kept a (some info) e = answered a _ e

  range-Kept : (id lo hi : ℕ) (a : Answer) → send_range server client id lo hi ≡ ok a → AnswerKept a
  unfolding send_range
  range-Kept id lo hi a e = elim (Option-cases (try_new server.pool.chain lo hi)) [
    | inl refused ↦ answered a _ (rw (send_range, refused) at e)
    | inr (range, made) ↦
        bind_ok-elim _ _ a (rw (send_range, made) at e)
          (λ blocks _ e1. subst AnswerKept (ok_inj _ _ _ refl e1) still)
  ]

  filter-Kept :
      (id : ℕ) (filter : BlockFilter) (a : Answer)
      → handle_rpc_request c now server client id (Request.set_block_filter filter) ≡ ok a
      → AnswerKept a
  unfolding handle_rpc_request
  filter-Kept id filter a e = elim (Bool-cases (ltb 16 (length filter))) [
    | inl large ↦ answered a _ (rw large at e)
    | inr small ↦ subst AnswerKept (ok_inj _ _ _ refl (rw small at e)) (record {
      pool_kept = inl refl;
      filter_kept = λ _. ground (arith, small);
      addr_kept = refl;
    })
  ]

  request-Kept :
      (id : ℕ) (req : Request) (a : Answer)
      → handle_rpc_request c now server client id req ≡ ok a
      → AnswerKept a
  unfolding handle_rpc_request
  request-Kept id (Request.broadcast tx) a e = broadcast-Kept tx a _ refl e
  request-Kept id (Request.set_block_filter filter) a e = filter-Kept id filter a e
  request-Kept id Request.clear_block_filter a e =
      subst AnswerKept (ok_inj _ _ _ refl e)
        (record { pool_kept = inl refl; filter_kept = λ _. tt; addr_kept = refl })
  request-Kept id Request.subscribe a e =
      subst AnswerKept (ok_inj _ _ _ refl e)
        (record { pool_kept = inl refl; filter_kept = λ h. h; addr_kept = refl })
  request-Kept id Request.unsubscribe a e =
      subst AnswerKept (ok_inj _ _ _ refl e)
        (record { pool_kept = inl refl; filter_kept = λ h. h; addr_kept = refl })
  request-Kept id Request.get_properties a e = bind_ok-elim _ _ a e (λ props _ e1. answered a _ e1)
  request-Kept id (Request.get_block height) a e = block-Kept height a e
  request-Kept id (Request.get_full_block height) a e =
      elim (Option-cases (get_block server.pool.chain height)) [
        | inl missing ↦ answered a _ (rw (handle_rpc_request, missing) at e)
        | inr (full, found) ↦ answered a _ (rw (handle_rpc_request, found) at e)
      ]
  request-Kept id (Request.get_block_range lo hi) a e = range-Kept id lo hi a e
  request-Kept id (Request.get_account_info acc) a e =
      bind_ok-elim _ _ a e (λ found _ e1. info-Kept a found e1)

  msg-Kept :
      (id : ℕ) (body : Body) (a : Answer)
      → handle_protocol_msg c now server client (record { id = id; body = body }) ≡ ok a
      → AnswerKept a
  unfolding handle_protocol_msg
  msg-Kept id (Body.error x) a e = answered a _ e
  msg-Kept id (Body.request req) a e = request-Kept id req a e
  msg-Kept id (Body.response res) a e = answered a _ e
  msg-Kept id (Body.ping nonce) a e = answered a _ e
  msg-Kept id (Body.pong nonce) a e = answered a _ e

  -- The reply is written, if there is one, and changes nothing more.
  reply-Kept :
      (id : ℕ) (a : Answer) (p : Processed)
      → AnswerKept a
      → send_reply id a ≡ ok p
      → Kept c now server p.server client p.client
  unfolding send_reply
  reply-Kept id a p h e = elim (Option-cases (a.reply)) [
    | inl silent ↦
        subst (λ (q : Processed). Kept c now server q.server client q.client)
          (ok_inj _ _ _ refl (rw (send_reply, silent) at e)) h
    | inr (body, replied) ↦ bind_ok-elim _ _ p (rw (send_reply, replied) at e) (λ buf _ e1.
        subst (λ (q : Processed). Kept c now server q.server client q.client) (ok_inj _ _ _ refl e1)
          h)
  ]

  error-Kept :
      (id : ℕ) (x : ErrorKind) (p : Processed)
      → send_error server client id x ≡ ok p
      → Kept c now server p.server client p.client
  error-Kept id x p e =
      bind_ok-elim _ _ p e (λ a refused e1. reply-Kept id a p (answered a _ refused) e1)

  binary-Kept :
      (buf : Bytes) (p : Processed)
      → process_binary c now server client buf ≡ ok p
      → Kept c now server p.server client p.client
  unfolding process_binary
  binary-Kept buf p = read_as (msg_deserialize buf)
    where
      read_as :
          (r : Result IoErr (Msg × Bytes))
          → elim r as (λ _. Outcome TxErr Processed) [
            | err e ↦ send_error server client no_id ErrorKind.io
            | ok (msg, []) ↦ (do
              a ← handle_protocol_msg c now server client msg
              send_reply msg.id a)
            | ok (msg, b ∷ rest) ↦ send_error server client msg.id ErrorKind.bytes_remaining
          ]
            ≡ ok p
          → Kept c now server p.server client p.client
      read_as (err x) e = error-Kept no_id ErrorKind.io p e
      read_as (ok (msg, [])) e =
          bind_ok-elim _ _ p e
            (λ a handled e1. reply-Kept msg.id a p (msg-Kept msg.id msg.body a handled) e1)
      read_as (ok (msg, b ∷ rest)) e = error-Kept msg.id ErrorKind.bytes_remaining p e

-- Whatever a client sends, the pool of the minter stays as it is or takes one transaction by all the checks
-- of `push`, a filter of at most sixteen accounts is followed by such a filter or by none, and the address
-- of the client stays.
pub process_ws_msg-Kept :
    (c : Crypto) (now : ℕ) (server : ServerData) (client : WsClient) (msg : WsMessage)
    (p : Processed)
    → process_ws_msg c now server client msg ≡ ok p
    → Kept c now server p.server client p.client
unfolding process_ws_msg
process_ws_msg-Kept c now server client (WsMessage.binary buf) p e =
    let k = binary-Kept c now server (record client { needs_pong = false }) buf p e in
    record { pool_kept = k.pool_kept; filter_kept = k.filter_kept; addr_kept = k.addr_kept }
process_ws_msg-Kept c now server client (WsMessage.text t) p e =
    subst (λ (q : Processed). Kept c now server q.server client q.client) (ok_inj _ _ _ refl e)
      (still c now server client)
process_ws_msg-Kept c now server client WsMessage.close_unsupported p e =
    subst (λ (q : Processed). Kept c now server q.server client q.client) (ok_inj _ _ _ refl e)
      (still c now server client)
process_ws_msg-Kept c now server client WsMessage.other p e =
    subst (λ (q : Processed). Kept c now server q.server client q.client) (ok_inj _ _ _ refl e)
      (still c now server client)
