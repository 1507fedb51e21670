-- ===== src/Wif.antt =====
-- The text form of account ids and public keys (crates/godcoin/src/crypto/wif.rs).
pub mod Format
pub mod Laws
