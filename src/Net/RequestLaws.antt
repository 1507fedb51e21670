-- ===== src/Net/RequestLaws.antt =====
-- Requests are read back from their bytes (crates/godcoin/src/net/rpc.rs).
use godcoin.Base.{
  ℕ, ◌%◌, ◌^◌, ◌<◌, ◌≡◌, refl, ap, sym, ◌∙◌, arith, false, List, [], ◌∷◌, ◌++◌, Bytes, ok, length,
  append_assoc, append-nil, All, All-append, ltb, ◌==◌,
}
use godcoin.Serializer.Write.{be_bytes, push_u64}
use godcoin.Serializer.Read.{invalid_data, take_u64}
use godcoin.Serializer.Decodes.{Decodes, Decodes-bind, Decodes-map, take_u64-Decodes}
use godcoin.Serializer.Laws.{pushes}
use godcoin.Script.Op.{AccountId}
use godcoin.Tx.Types.{base}
use godcoin.Tx.Format.{tx_deserialize}
use godcoin.Tx.Laws.{IsWireTx, IsWireBody, tx_bytes, tx_serialize_lem}
use godcoin.Tx.RoundTrip.{tx-Takes}
use godcoin.Net.Types.{BlockFilter, filter_insert, Request}
use godcoin.Net.Errors.{or_io}
use godcoin.Net.ErrorLaws.{Decodes-or_io, Decodes-tag, Decodes-pure}
use godcoin.Net.Rpc.{
  push_accounts, request_serialize, take_filter, take_set_filter, take_broadcast, take_range,
  take_number, request_of, request_deserialize,
}

-- The accounts of a filter stand in increasing order.
abbrev pub IsOrdered : BlockFilter → Type 0
IsOrdered [] = Unit {0}
IsOrdered (acc ∷ filter) = All (λ (later : AccountId). acc < later) filter × IsOrdered filter

-- The sizes that the format holds.
abbrev pub IsWireRequest : Request → Type 0
IsWireRequest (Request.broadcast tx) = IsWireTx (base tx) × IsWireBody tx
IsWireRequest (Request.set_block_filter filter) =
    (length filter < 256) × IsOrdered filter × All (λ (acc : AccountId). acc < 2 ^ 64) filter
IsWireRequest (Request.get_block height) = height < 2 ^ 64
IsWireRequest (Request.get_full_block height) = height < 2 ^ 64
IsWireRequest (Request.get_block_range min_height max_height) =
    (min_height < 2 ^ 64) × (max_height < 2 ^ 64)
IsWireRequest (Request.get_account_info acc) = acc < 2 ^ 64
IsWireRequest _ = Unit {0}

accounts_bytes : List AccountId → Bytes
accounts_bytes [] = []
accounts_bytes (acc ∷ accs) = be_bytes 8 acc ++ accounts_bytes accs

pub request_bytes : Request → Bytes
request_bytes (Request.broadcast tx) = 0x10 ∷ tx_bytes tx
request_bytes (Request.set_block_filter filter) =
    0x11 ∷ length filter % 2 ^ 8 ∷ accounts_bytes filter
request_bytes Request.clear_block_filter = 0x12 ∷ []
request_bytes Request.subscribe = 0x13 ∷ []
request_bytes Request.unsubscribe = 0x14 ∷ []
request_bytes Request.get_properties = 0x20 ∷ []
request_bytes (Request.get_block height) = 0x21 ∷ be_bytes 8 height
request_bytes (Request.get_full_block height) = 0x22 ∷ be_bytes 8 height
request_bytes (Request.get_block_range min_height max_height) =
    0x23 ∷ (be_bytes 8 min_height ++ be_bytes 8 max_height)
request_bytes (Request.get_account_info acc) = 0x24 ∷ be_bytes 8 acc

push_accounts_lem :
    (buf : Bytes) (accs : List AccountId) → push_accounts buf accs ≡ buf ++ accounts_bytes accs
unfolding push_accounts accounts_bytes
push_accounts_lem buf [] = sym (append-nil buf)
push_accounts_lem buf (acc ∷ accs) = push_accounts_lem (push_u64 buf acc) accs ∙ simp pushes

pub request_serialize_lem :
    (req : Request) (buf : Bytes) → request_serialize req buf ≡ buf ++ request_bytes req
unfolding request_serialize request_bytes
request_serialize_lem (Request.broadcast tx) buf = simp (tx_serialize_lem, pushes)
request_serialize_lem (Request.set_block_filter filter) buf = simp (push_accounts_lem, pushes)
request_serialize_lem Request.clear_block_filter buf = simp pushes
request_serialize_lem Request.subscribe buf = simp pushes
request_serialize_lem Request.unsubscribe buf = simp pushes
request_serialize_lem Request.get_properties buf = simp pushes
request_serialize_lem (Request.get_block height) buf = simp pushes
request_serialize_lem (Request.get_full_block height) buf = simp pushes
request_serialize_lem (Request.get_block_range min_height max_height) buf = simp pushes
request_serialize_lem (Request.get_account_info acc) buf = simp pushes

-- A later account goes to the end of a filter.
filter_insert-last :
    (id : AccountId) (filter : BlockFilter)
    → All (λ (acc : AccountId). acc < id) filter
    → filter_insert id filter ≡ filter ++ (id ∷ [])
unfolding filter_insert
filter_insert-last id [] h = refl
filter_insert-last id (acc ∷ filter) (first, rest) =
    rw (before id acc first, apart id acc first)
      (ap (λ (f : BlockFilter). acc ∷ f) (filter_insert-last id filter rest))
  where
    before : (id acc : AccountId) → acc < id → ltb id acc ≡ false
    before id acc h = ground arith

    apart : (id acc : AccountId) → acc < id → (id == acc) ≡ false
    apart id acc h = ground arith

-- The accounts read so far are before those to come.
abbrev Precede : BlockFilter → List AccountId → Type 0
Precede filter accs = All (λ (acc : AccountId). All (λ (done : AccountId). done < acc) filter) accs

Precede-append :
    (filter : BlockFilter) (acc : AccountId) (accs : List AccountId)
    → Precede filter accs
    → All (λ (later : AccountId). acc < later) accs
    → Precede (filter ++ (acc ∷ [])) accs
Precede-append filter acc [] h k = tt
Precede-append filter acc (later ∷ accs) (first, rest) (next, nexts) = (
  All-append (λ (done : AccountId). done < later) filter (acc ∷ []) first (next, tt),
  Precede-append filter acc accs rest nexts,
)

take_filter-Decodes :
    (accs : List AccountId) (filter : BlockFilter)
    → Precede filter accs
    → IsOrdered accs
    → All (λ (acc : AccountId). acc < 2 ^ 64) accs
    → Decodes (take_filter (length accs) filter) (accounts_bytes accs) (filter ++ accs)
unfolding take_filter accounts_bytes
take_filter-Decodes [] filter h k small = record {
  runs = λ rest. ap (λ (t : BlockFilter). ok (t, rest)) (sym (append-nil filter));
}
take_filter-Decodes (acc ∷ accs) filter (first, rest) (later, ordered) (fits, small) =
    Decodes-bind take_u64 _ (be_bytes 8 acc) (accounts_bytes accs) acc (filter ++ acc ∷ accs)
      (take_u64-Decodes acc fits)
      (rw (filter_insert-last acc filter first, ← append_assoc filter (acc ∷ []) accs)
        (take_filter-Decodes accs (filter ++ (acc ∷ [])) (Precede-append filter acc accs rest later)
          ordered small))

none_before : (accs : List AccountId) → Precede [] accs
none_before [] = tt
none_before (acc ∷ accs) = (tt, none_before accs)

set_filter-Decodes :
    (filter : BlockFilter)
    → IsWireRequest (Request.set_block_filter filter)
    → Decodes take_set_filter
        (length filter % 2 ^ 8 ∷ accounts_bytes filter)
        (Request.set_block_filter filter)
unfolding take_set_filter
set_filter-Decodes filter (few, ordered, small) =
    Decodes-tag (length filter % 2 ^ 8) _ (accounts_bytes filter) _ (
      Decodes-map (take_filter (length filter % 2 ^ 8) []) Request.set_block_filter
        (accounts_bytes filter) filter _ (rw size taken) refl)
  where
    size : length filter % 2 ^ 8 ≡ length filter
    size = omega (arith, few)

    taken : Decodes (take_filter (length filter) []) (accounts_bytes filter) filter
    taken = take_filter-Decodes filter [] (none_before filter) ordered small

number-Decodes :
    (f : ℕ → Request) (n : ℕ) → n < 2 ^ 64 → Decodes (take_number f) (be_bytes 8 n) (f n)
number-Decodes f n h = Decodes-map take_u64 f (be_bytes 8 n) n (f n) (take_u64-Decodes n h) refl

pub request-Decodes :
    (req : Request) → IsWireRequest req → Decodes request_deserialize (request_bytes req) req
unfolding request_deserialize request_of request_bytes take_broadcast take_range
request-Decodes (Request.broadcast tx) (header, body) = Decodes-tag 0x10 _ (tx_bytes tx) _ (
    Decodes-map (or_io tx_deserialize invalid_data) Request.broadcast (tx_bytes tx) tx _
      (Decodes-or_io tx_deserialize invalid_data (tx_bytes tx) tx (tx-Takes tx header body)) refl)
request-Decodes (Request.set_block_filter filter) h =
    Decodes-tag 0x11 _ (length filter % 2 ^ 8 ∷ accounts_bytes filter) _
      (set_filter-Decodes filter h)
request-Decodes Request.clear_block_filter h = Decodes-tag 0x12 _ [] _ (Decodes-pure _)
request-Decodes Request.subscribe h = Decodes-tag 0x13 _ [] _ (Decodes-pure _)
request-Decodes Request.unsubscribe h = Decodes-tag 0x14 _ [] _ (Decodes-pure _)
request-Decodes Request.get_properties h = Decodes-tag 0x20 _ [] _ (Decodes-pure _)
request-Decodes (Request.get_block height) h =
    Decodes-tag 0x21 _ (be_bytes 8 height) _ (number-Decodes Request.get_block height h)
request-Decodes (Request.get_full_block height) h =
    Decodes-tag 0x22 _ (be_bytes 8 height) _ (number-Decodes Request.get_full_block height h)
request-Decodes (Request.get_block_range min_height max_height) (lo, hi) =
    Decodes-tag 0x23 _ (be_bytes 8 min_height ++ be_bytes 8 max_height) _ (
      Decodes-bind take_u64 _ (be_bytes 8 min_height) (be_bytes 8 max_height) min_height _
        (take_u64-Decodes min_height lo)
        (number-Decodes (Request.get_block_range min_height) max_height hi))
request-Decodes (Request.get_account_info acc) h =
    Decodes-tag 0x24 _ (be_bytes 8 acc) _ (number-Decodes Request.get_account_info acc h)
