-- ===== src/Server.antt =====
-- What the server answers to its clients (crates/server/src/server).
pub mod Query
pub mod Range
pub mod Client
pub mod Served
pub mod Kept
pub mod Answers
pub mod Replies
