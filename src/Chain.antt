-- ===== src/Chain.antt =====
-- The blockchain (crates/godcoin/src/blockchain).
pub mod Types
pub mod Block
pub mod Index
pub mod Accounts
pub mod Execute
pub mod Apply
pub mod Verify
pub mod Inversion
pub mod Accepted
pub mod BlockFormat
pub mod BlockLaws
pub mod Linked
pub mod Pending
pub mod Supply
