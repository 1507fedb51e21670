-- ===== src/Account.antt =====
-- Accounts and their permissions (crates/godcoin/src/account.rs).
pub mod Types
pub mod Verify
pub mod Valid
pub mod Laws
pub mod Format
