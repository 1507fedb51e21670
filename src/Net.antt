-- ===== src/Net.antt =====
-- Messages between a server and its clients (crates/godcoin/src/net).
pub mod Types
pub mod Errors
pub mod Rpc
pub mod Message
pub mod ErrorLaws
pub mod RequestLaws
pub mod ResponseLaws
pub mod RoundTrip
