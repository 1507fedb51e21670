-- ===== src/Server/Served.antt =====
-- A range of blocks gives what single requests give (crates/server/src/server/client/block_range.rs,
-- crates/server/src/server/client/mod.rs).
use godcoin.Base.{ℕ, ◌+◌, ◌≤◌, ◌≡◌, List, [], ◌∷◌, Option, some, ok}
use godcoin.Crypto.{Crypto, SigPair}
use godcoin.Chain.Types.{Block}
use godcoin.Chain.Accounts.{Blockchain, get_block, get_chain_height}
use godcoin.Net.Types.{BlockFilter, FilteredBlock, Request, Response}
use godcoin.Server.Range.{view_block}
use godcoin.Server.Client.{WsClient, ServerData, respond, handle_rpc_request}

-- The store has every block up to the height of the chain, signed.
pub record Stored (ch : Blockchain) (height : ℕ) : Type 0 where
  pub block : Block
  pub signer : SigPair
  pub found : get_block ch height ≡ some block
  pub signed : block.signer ≡ some signer

abbrev pub IsStored : Blockchain → Type 0
IsStored ch = (height : ℕ) → height ≤ get_chain_height ch → Stored ch height

-- The blocks are those that a client with this filter is to see, from a height on.
abbrev pub Serves : Type 0 → Blockchain → Option BlockFilter → ℕ → List FilteredBlock → Type 0
Serves E ch filter height [] = Unit {0}
Serves E ch filter height (seen ∷ blocks) =
    (view_block {E = E} ch filter height ≡ ok (some seen)) × Serves E ch filter (height + 1) blocks

-- Each block is the answer to a single request for its height, from a height on.
abbrev pub AreAnswers : Crypto → ℕ → ServerData → WsClient → ℕ → ℕ → List FilteredBlock → Type 0
AreAnswers c now server client id height [] = Unit {0}
AreAnswers c now server client id height (seen ∷ blocks) =
    (handle_rpc_request c now server client id (Request.get_block height)
      ≡ respond server client (Response.get_block seen))
    × AreAnswers c now server client id (height + 1) blocks
