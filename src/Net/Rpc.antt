-- ===== src/Net/Rpc.antt =====
-- The byte format of requests and responses (crates/godcoin/src/net/rpc.rs). `none` is the panic of a
-- block that is not signed.
use godcoin.Base.{
  ℕ, zero, suc, ◌%◌, ◌^◌, List, [], ◌∷◌, Bytes, Option, some, length, ◌==◌, if◌then◌else◌,
}
use godcoin.Serializer.Write.{push_u8, push_u64, push_sig_pair, push_asset}
use godcoin.Serializer.Read.{
  Read, unexpected_eof, invalid_data, pure, fail, ◌>>=◌, take_u8, take_u64, take_sig_pair,
  take_asset,
}
use godcoin.Script.Op.{AccountId}
use godcoin.Account.Format.{account_serialize, account_deserialize}
use godcoin.Tx.Types.{TxVariant, owner_tx}
use godcoin.Tx.Format.{tx_serialize, tx_deserialize}
use godcoin.Chain.Types.{Block, AccountInfo}
use godcoin.Chain.Block.{header_serialize, header_deserialize, block_serialize, block_deserialize}
use godcoin.Net.Types.{
  BlockFilter, filter_insert, RpcType, rpc_code, Request, Properties, FilteredBlock, Response,
}
use godcoin.Net.Errors.{or_io}

unfoldable pub push_accounts : Bytes → List AccountId → Bytes
push_accounts buf [] = buf
push_accounts buf (acc ∷ accs) = push_accounts (push_u64 buf acc) accs

unfoldable pub request_serialize : Request → Bytes → Bytes
request_serialize (Request.broadcast tx) buf =
    tx_serialize tx (push_u8 buf (rpc_code RpcType.broadcast))
request_serialize (Request.set_block_filter filter) buf =
    push_accounts
      (push_u8 (push_u8 buf (rpc_code RpcType.set_block_filter)) (length filter % 2 ^ 8)) filter
request_serialize Request.clear_block_filter buf = push_u8 buf (rpc_code RpcType.clear_block_filter)
request_serialize Request.subscribe buf = push_u8 buf (rpc_code RpcType.subscribe)
request_serialize Request.unsubscribe buf = push_u8 buf (rpc_code RpcType.unsubscribe)
request_serialize Request.get_properties buf = push_u8 buf (rpc_code RpcType.get_properties)
request_serialize (Request.get_block height) buf =
    push_u64 (push_u8 buf (rpc_code RpcType.get_block)) height
request_serialize (Request.get_full_block height) buf =
    push_u64 (push_u8 buf (rpc_code RpcType.get_full_block)) height
request_serialize (Request.get_block_range min_height max_height) buf =
    push_u64 (push_u64 (push_u8 buf (rpc_code RpcType.get_block_range)) min_height) max_height
request_serialize (Request.get_account_info acc) buf =
    push_u64 (push_u8 buf (rpc_code RpcType.get_account_info)) acc

-- The loop over the accounts left.
unfoldable pub take_filter : ℕ → BlockFilter → Read BlockFilter
take_filter zero filter = pure filter
take_filter (suc n) filter = do acc ← take_u64; take_filter n (filter_insert acc filter)

unfoldable pub take_set_filter : Read Request
take_set_filter = do
  acc_len ← take_u8
  filter ← take_filter acc_len []
  pure (Request.set_block_filter filter)

unfoldable pub take_broadcast : Read Request
take_broadcast = do tx ← or_io tx_deserialize invalid_data; pure (Request.broadcast tx)

unfoldable pub take_range : Read Request
take_range = do
  min_height ← take_u64
  max_height ← take_u64
  pure (Request.get_block_range min_height max_height)

-- A request of one number.
abbrev pub take_number : (ℕ → Request) → Read Request
take_number f = do n ← take_u64; pure (f n)

unfoldable pub request_of : ℕ → Read Request
request_of tag =
    if tag == rpc_code RpcType.broadcast
    then take_broadcast
    else if tag == rpc_code RpcType.set_block_filter
    then take_set_filter
    else if tag == rpc_code RpcType.clear_block_filter
    then pure Request.clear_block_filter
    else if tag == rpc_code RpcType.subscribe
    then pure Request.subscribe
    else if tag == rpc_code RpcType.unsubscribe
    then pure Request.unsubscribe
    else if tag == rpc_code RpcType.get_properties
    then pure Request.get_properties
    else if tag == rpc_code RpcType.get_block
    then take_number Request.get_block
    else if tag == rpc_code RpcType.get_full_block
    then take_number Request.get_full_block
    else if tag == rpc_code RpcType.get_block_range
    then take_range
    else if tag == rpc_code RpcType.get_account_info
    then take_number Request.get_account_info
    else fail invalid_data

unfoldable pub request_deserialize : Read Request
request_deserialize = do tag ← take_u8; request_of tag

unfoldable pub properties_serialize : Properties → Bytes → Bytes
properties_serialize props buf =
    push_asset (push_asset (tx_serialize props.owner (push_u64 buf props.height)) props.network_fee)
      props.token_supply

unfoldable pub filtered_serialize : FilteredBlock → Bytes → Option Bytes
filtered_serialize (FilteredBlock.header header signer) buf =
    some (push_sig_pair (header_serialize header (push_u8 buf 0)) signer)
filtered_serialize (FilteredBlock.block block) buf = block_serialize block (push_u8 buf 1)

unfoldable pub info_serialize : AccountInfo → Bytes → Bytes
info_serialize info buf =
    push_asset (push_asset (account_serialize info.account buf) info.net_fee) info.account_fee

unfoldable pub response_serialize : Response → Bytes → Option Bytes
response_serialize Response.broadcast buf = some (push_u8 buf (rpc_code RpcType.broadcast))
response_serialize Response.set_block_filter buf =
    some (push_u8 buf (rpc_code RpcType.set_block_filter))
response_serialize Response.clear_block_filter buf =
    some (push_u8 buf (rpc_code RpcType.clear_block_filter))
response_serialize Response.subscribe buf = some (push_u8 buf (rpc_code RpcType.subscribe))
response_serialize Response.unsubscribe buf = some (push_u8 buf (rpc_code RpcType.unsubscribe))
response_serialize (Response.get_properties props) buf =
    some (properties_serialize props (push_u8 buf (rpc_code RpcType.get_properties)))
response_serialize (Response.get_block filtered) buf =
    filtered_serialize filtered (push_u8 buf (rpc_code RpcType.get_block))
response_serialize (Response.get_full_block block) buf =
    block_serialize block (push_u8 buf (rpc_code RpcType.get_full_block))
response_serialize Response.get_block_range buf =
    some (push_u8 buf (rpc_code RpcType.get_block_range))
response_serialize (Response.get_account_info info) buf =
    some (info_serialize info (push_u8 buf (rpc_code RpcType.get_account_info)))

unfoldable pub expect_owner : TxVariant → Read TxVariant
expect_owner (owner_tx tx) = pure (owner_tx tx)
expect_owner _ = fail invalid_data

unfoldable pub take_properties : Read Properties
take_properties = do
  height ← take_u64
  tx ← or_io tx_deserialize invalid_data
  owner ← expect_owner tx
  network_fee ← take_asset
  token_supply ← take_asset
  pure (record {
    height = height;
    owner = owner;
    network_fee = network_fee;
    token_supply = token_supply;
  })

unfoldable pub take_filtered_header : Read FilteredBlock
take_filtered_header = do
  header ← or_io header_deserialize unexpected_eof
  signer ← take_sig_pair
  pure (FilteredBlock.header header signer)

unfoldable pub take_block : Read Block
take_block = or_io block_deserialize unexpected_eof

unfoldable pub filtered_of : ℕ → Read FilteredBlock
filtered_of filtered_type =
    if filtered_type == 0
    then take_filtered_header
    else if filtered_type == 1
    then (do block ← take_block; pure (FilteredBlock.block block))
    else fail invalid_data

unfoldable pub take_filtered : Read FilteredBlock
take_filtered = do filtered_type ← take_u8; filtered_of filtered_type

unfoldable pub take_info : Read AccountInfo
take_info = do
  account ← account_deserialize
  net_fee ← take_asset
  account_fee ← take_asset
  pure (record { account = account; net_fee = net_fee; account_fee = account_fee })

-- A reader whose value a response holds.
abbrev pub take_response : {A : Type 0} → Read A → (A → Response) → Read Response
take_response m f = do a ← m; pure (f a)

unfoldable pub response_of : ℕ → Read Response
response_of tag =
    if tag == rpc_code RpcType.broadcast
    then pure Response.broadcast
    else if tag == rpc_code RpcType.set_block_filter
    then pure Response.set_block_filter
    else if tag == rpc_code RpcType.clear_block_filter
    then pure Response.clear_block_filter
    else if tag == rpc_code RpcType.subscribe
    then pure Response.subscribe
    else if tag == rpc_code RpcType.unsubscribe
    then pure Response.unsubscribe
    else if tag == rpc_code RpcType.get_properties
    then take_response take_properties Response.get_properties
    else if tag == rpc_code RpcType.get_block
    then take_response take_filtered Response.get_block
    else if tag == rpc_code RpcType.get_full_block
    then take_response take_block Response.get_full_block
    else if tag == rpc_code RpcType.get_block_range
    then pure Response.get_block_range
    else if tag == rpc_code RpcType.get_account_info
    then take_response take_info Response.get_account_info
    else fail invalid_data

unfoldable pub response_deserialize : Read Response
response_deserialize = do tag ← take_u8; response_of tag
