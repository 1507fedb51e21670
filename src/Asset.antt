-- ===== src/Asset.antt =====
-- Amounts of money (crates/godcoin/src/asset).
pub mod Precision
pub mod Ops
pub mod Arith
pub mod Power
pub use Ops.{Asset, max_precision, asset_default}
unfoldable pub use Ops.{checked_add, checked_sub, checked_mul, checked_div, checked_pow}
