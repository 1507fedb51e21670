-- ===== src/Serializer.antt =====
-- The byte format (crates/godcoin/src/serializer.rs).
pub mod Write
pub mod Read
pub mod Decodes
pub mod Zigzag
pub mod Varint
pub mod Laws
