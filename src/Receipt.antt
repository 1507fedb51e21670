-- ===== src/Receipt.antt =====
-- Receipts (crates/godcoin/src/blockchain/receipt.rs).
pub mod Types
pub mod Format
pub mod RoundTrip
