-- ===== src/Pool.antt =====
-- The pool of receipts for the next block, the table of transaction ids, and the minter
-- (crates/godcoin/src/blockchain/receipt.rs, crates/server/src/server/minter.rs).
pub mod Queue
pub mod Minter
pub mod Pushed
pub mod Sound
pub mod Produced
pub mod History
pub mod Replay
