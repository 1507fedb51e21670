-- ===== src/Net/Types.antt =====
-- Requests, responses and messages (crates/godcoin/src/net/rpc.rs, crates/godcoin/src/net/mod.rs), with
-- the filters of crates/godcoin/src/blockchain/block.rs.
use godcoin.Base.{ℕ, List, [], ◌∷◌, ltb, ◌==◌, if◌then◌else◌}
use godcoin.Asset.{Asset}
use godcoin.Crypto.{SigPair}
use godcoin.Script.Op.{AccountId}
use godcoin.Tx.Types.{TxVariant}
use godcoin.Chain.Types.{Block, BlockHeader, TxErr, AccountInfo}

-- A `BTreeSet` of accounts: the ids in increasing order.
abbrev pub BlockFilter : Type 0
BlockFilter = List AccountId

unfoldable pub filter_insert : AccountId → BlockFilter → BlockFilter
filter_insert id [] = id ∷ []
filter_insert id (acc ∷ filter) =
    let later = filter_insert id filter in
    if ltb id acc then id ∷ acc ∷ filter else if id == acc then acc ∷ filter else acc ∷ later

pub data RpcType : Type 0 where
  broadcast set_block_filter clear_block_filter subscribe unsubscribe : RpcType
  get_properties get_block get_full_block get_block_range get_account_info : RpcType

abbrev pub rpc_code : RpcType → ℕ
rpc_code broadcast = 0x10
rpc_code set_block_filter = 0x11
rpc_code clear_block_filter = 0x12
rpc_code subscribe = 0x13
rpc_code unsubscribe = 0x14
rpc_code get_properties = 0x20
rpc_code get_block = 0x21
rpc_code get_full_block = 0x22
rpc_code get_block_range = 0x23
rpc_code get_account_info = 0x24

pub data Request : Type 0 where
  broadcast : TxVariant → Request
  set_block_filter : BlockFilter → Request
  clear_block_filter subscribe unsubscribe get_properties : Request
  get_block get_full_block : ℕ → Request
  get_block_range : ℕ → ℕ → Request
  get_account_info : AccountId → Request

pub record Properties : Type 0 where
  pub height : ℕ
  pub owner : TxVariant
  pub network_fee : Asset
  pub token_supply : Asset

pub data FilteredBlock : Type 0 where
  header : BlockHeader → SigPair → FilteredBlock
  block : Block → FilteredBlock

pub data Response : Type 0 where
  broadcast set_block_filter clear_block_filter subscribe unsubscribe : Response
  get_properties : Properties → Response
  get_block : FilteredBlock → Response
  get_full_block : Block → Response
  get_block_range : Response
  get_account_info : AccountInfo → Response

pub data ErrorKind : Type 0 where
  io bytes_remaining invalid_request invalid_height : ErrorKind
  tx_validation : TxErr → ErrorKind

pub data BodyType : Type 0 where
  error request response ping pong : BodyType

abbrev pub body_code : BodyType → ℕ
body_code error = 0x00
body_code request = 0x01
body_code response = 0x02
body_code ping = 0x03
body_code pong = 0x04

pub data Body : Type 0 where
  error : ErrorKind → Body
  request : Request → Body
  response : Response → Body
  ping pong : ℕ → Body

pub record Msg : Type 0 where
  pub id : ℕ
  pub body : Body
