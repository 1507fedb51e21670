-- ===== src/Chain/Supply.antt =====
-- The money in the accounts (crates/godcoin/src/blockchain/mod.rs and index.rs).
pub mod Ledger
pub mod Moves
pub mod Receipts
pub mod Bookings
pub mod Blocks
