-- ===== src/Tests.antt =====
-- The theorems at concrete inputs.
pub mod Samples
pub mod Machine
pub mod Pool
pub mod Wire
pub mod Text
pub mod Server
pub mod Data
