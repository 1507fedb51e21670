-- ===== src/Server/Range.antt =====
-- A stream of blocks (crates/server/src/server/client/block_range.rs).
use godcoin.Base.{
  ℕ, zero, suc, ◌+◌, ◌||◌, List, [], ◌∷◌, Option, some, none, ok, err, ltb, leb, if◌then◌else◌,
}
use godcoin.Chain.Types.{Outcome, out_of_fuel, unwrap, ◌>>=◌}
use godcoin.Chain.Accounts.{Blockchain, get_block, get_chain_height}
use godcoin.Net.Types.{BlockFilter, FilteredBlock}
use godcoin.Server.Query.{get_filtered_block}

pub record AsyncBlockRange : Type 0 where
  pub chain : Blockchain
  pub filter : Option BlockFilter
  pub min_height : ℕ
  pub max_height : ℕ

unfoldable pub try_new : Blockchain → ℕ → ℕ → Option AsyncBlockRange
try_new ch min_height max_height =
    if ltb max_height min_height || ltb (get_chain_height ch) max_height
    then none
    else some
        (record { chain = ch; filter = none; min_height = min_height; max_height = max_height })

abbrev pub set_filter : AsyncBlockRange → Option BlockFilter → AsyncBlockRange
set_filter range filter = record range { filter = filter }

module _ {E : Type 0} where
  -- The block of a round, before its `unwrap_or_else`; `none` where there is no such block.
  unfoldable pub view_block : Blockchain → Option BlockFilter → ℕ → Outcome E (Option FilteredBlock)
  view_block ch none height = elim (get_block ch height) [
    | some block ↦ ok (some (FilteredBlock.block block))
    | none ↦ ok none
  ]
  view_block ch (some filter) height = get_filtered_block ch height filter

  -- A height without a block is unreachable code.
  unfoldable pub poll_next : AsyncBlockRange → Outcome E (Option (FilteredBlock × AsyncBlockRange))
  poll_next range =
      if leb range.min_height range.max_height
      then (do
        found ← view_block range.chain range.filter range.min_height
        block ← unwrap found
        ok (some (block, record range { min_height = range.min_height + 1 })))
      else ok none

  -- The loop that takes the blocks of the stream.
  unfoldable pub drain : ℕ → AsyncBlockRange → Outcome E (List FilteredBlock)
  drain zero range = err out_of_fuel
  drain (suc fuel) range = do
    next ← poll_next range
    elim next [
      | none ↦ ok []
      | some (seen, range') ↦ (do blocks ← drain fuel range'; ok (seen ∷ blocks))
    ]
