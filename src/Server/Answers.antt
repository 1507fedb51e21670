-- ===== src/Server/Answers.antt =====
-- What the handler of a request answers (crates/server/src/server/client/mod.rs).
use godcoin.Base.{
  ℕ, ◌≡◌, ◌⊎◌, inl, inr, refl, List, [], Option, some, none, ok, err, ltb, length, Bool-cases,
  Option-cases,
}
use mathlib.Core.Path.{subst}
use godcoin.Crypto.{Crypto}
use godcoin.Chain.Types.{Block, TxErr, AccountInfo, rejected, panic, out_of_fuel, Outcome}
use godcoin.Chain.Accounts.{get_block}
use godcoin.Chain.Inversion.{bind_ok-elim, ok_inj}
use godcoin.Pool.Queue.{ReceiptPool, push}
use godcoin.Net.Types.{BlockFilter, FilteredBlock, Request, Response, ErrorKind, Body}
use godcoin.Server.Range.{try_new}
use godcoin.Server.Client.{
  WsClient, ServerData, Answer, Handled, respond, refuse, answer_broadcast, answer_block,
  answer_info, range_msgs, send_range, handle_rpc_request,
}

-- A response or an error, and no other message.
abbrev pub IsDone : Answer → Type 0
IsDone a =
    (a.queued ≡ [])
    × (((res : Response) × (a.reply ≡ some (Body.response res)))
        ⊎ ((e : ErrorKind) × (a.reply ≡ some (Body.error e))))

-- An error, or the messages of a range and no reply.
abbrev pub IsRange : ℕ → Answer → Type 0
IsRange id a =
    ((a.queued ≡ []) × ((e : ErrorKind) × (a.reply ≡ some (Body.error e))))
    ⊎ ((a.reply ≡ none) × ((blocks : List FilteredBlock) × (a.queued ≡ range_msgs id blocks)))

abbrev pub IsAnswer : ℕ → Request → Answer → Type 0
IsAnswer id (Request.get_block_range lo hi) a = IsRange id a
IsAnswer id _ a = IsDone a

responded :
    (server : ServerData) (client : WsClient) (res : Response) (a : Answer)
    → respond server client res ≡ ok a
    → IsDone a
responded server client res a e = subst IsDone (ok_inj _ _ _ refl e) (refl, inl (res, refl))

refused :
    (server : ServerData) (client : WsClient) (x : ErrorKind) (a : Answer)
    → refuse server client x ≡ ok a
    → IsDone a
refused server client x a e = subst IsDone (ok_inj _ _ _ refl e) (refl, inr (x, refl))

module _ (c : Crypto) (now : ℕ) (server : ServerData) (client : WsClient) (a : Answer) where
  broadcast-IsDone :
      (r : Outcome TxErr ReceiptPool) → answer_broadcast server client r ≡ ok a → IsDone a
  unfolding answer_broadcast
  broadcast-IsDone (ok pool) e = responded _ client _ a e
  broadcast-IsDone (err (rejected x)) e = refused server client _ a e
  broadcast-IsDone (err panic) e = absurd cc
  broadcast-IsDone (err out_of_fuel) e = absurd cc

  block-IsDone :
      {A : Type 0} (res : A → Response) (found : Option A)
      → elim found as (λ _. Handled) [
        | some x ↦ respond server client (res x)
        | none ↦ refuse server client ErrorKind.invalid_height
      ]
        ≡ ok a
      → IsDone a
  block-IsDone res none e = refused server client _ a e
  block-IsDone res (some x) e = responded server client _ a e

  single-IsDone : (height : ℕ) → answer_block server client height ≡ ok a → IsDone a
  unfolding answer_block
  single-IsDone height e = elim (Option-cases (client.filter)) [
    | inl all ↦
        block-IsDone (λ (b : Block). Response.get_block (FilteredBlock.block b))
          (get_block server.pool.chain height) (rw (answer_block, all) at e)
    | inr (filter, set) ↦
        bind_ok-elim _ _ a (rw (answer_block, set) at e)
          (λ found _ e1. block-IsDone Response.get_block found e1)
  ]

  info-IsDone : (found : Option AccountInfo) → answer_info server client found ≡ ok a → IsDone a
  unfolding answer_info
  info-IsDone none e = refused server client _ a e
  info-IsDone (some info) e = responded server client _ a e

  filter-IsDone :
      (id : ℕ) (filter : BlockFilter)
      → handle_rpc_request c now server client id (Request.set_block_filter filter) ≡ ok a
      → IsDone a
  unfolding handle_rpc_request
  filter-IsDone id filter e = elim (Bool-cases (ltb 16 (length filter))) [
    | inl large ↦ refused server client _ a (rw large at e)
    | inr small ↦ responded server _ _ a (rw small at e)
  ]

  send_range-IsRange : (id lo hi : ℕ) → send_range server client id lo hi ≡ ok a → IsRange id a
  unfolding send_range
  send_range-IsRange id lo hi e = elim (Option-cases (try_new server.pool.chain lo hi)) [
    | inl none_made ↦
        subst (IsRange id) (ok_inj _ _ _ refl (rw (send_range, none_made) at e))
          (inl (refl, (ErrorKind.invalid_height, refl)))
    | inr (range, made) ↦
        bind_ok-elim _ _ a (rw (send_range, made) at e)
          (λ blocks _ e1. subst (IsRange id) (ok_inj _ _ _ refl e1) (inr (refl, (blocks, refl))))
  ]

  pub handle_rpc_request-IsAnswer :
      (id : ℕ) (req : Request)
      → handle_rpc_request c now server client id req ≡ ok a
      → IsAnswer id req a
  unfolding handle_rpc_request
  handle_rpc_request-IsAnswer id (Request.broadcast tx) e =
      broadcast-IsDone (push c now server.pool tx) e
  handle_rpc_request-IsAnswer id (Request.set_block_filter filter) e = filter-IsDone id filter e
  handle_rpc_request-IsAnswer id Request.clear_block_filter e = responded server _ _ a e
  handle_rpc_request-IsAnswer id Request.subscribe e = responded _ client _ a e
  handle_rpc_request-IsAnswer id Request.unsubscribe e = responded _ client _ a e
  handle_rpc_request-IsAnswer id Request.get_properties e =
      bind_ok-elim _ _ a e (λ props _ e1. responded server client _ a e1)
  handle_rpc_request-IsAnswer id (Request.get_block height) e = single-IsDone height e
  handle_rpc_request-IsAnswer id (Request.get_full_block height) e =
      block-IsDone Response.get_full_block (get_block server.pool.chain height) e
  handle_rpc_request-IsAnswer id (Request.get_block_range lo hi) e = send_range-IsRange id lo hi e
  handle_rpc_request-IsAnswer id (Request.get_account_info acc) e =
      bind_ok-elim _ _ a e (λ found _ e1. info-IsDone found e1)
