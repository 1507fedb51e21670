-- ===== src/Lib.antt =====
-- GODcoin: a model of the library crates/godcoin of the repository and of the core of its
-- server, crates/server, and what they guarantee.
--
-- The program keeps a chain of blocks. A block holds receipts, a receipt a transaction and the log of
-- its script. A transaction is checked against the accounts as of the receipts before it; a transfer
-- runs a function of its sender's script, whose log says who is paid. A block that is verified is
-- applied to an index of accounts.
--
-- Base: shared names, lists and integers over the native numbers, bit laws, and Rust's Result.
-- Asset: crates/godcoin/src/asset/mod.rs (Ops) and asset/precision.rs (Precision); Arith and Power
--   compare them with exact integers. An i64 is an integer with its range written out; a BigInt is an
--   integer. The loop of checked_pow has sixteen rounds of fuel, as its exponent is a u16.
-- Crypto: crates/godcoin/src/crypto. SHA-256 and signature checks of sodiumoxide are the parameter
--   Crypto; a multi-part hash is the hash of the concatenation.
-- Serializer: crates/godcoin/src/serializer.rs. A buffer and a cursor are lists of bytes; Write appends,
--   Read takes from the front. Variable-length integers have ten rounds of fuel, as they have 64 bits.
-- Script: crates/godcoin/src/script, but for the engine: operations (Op), the stack, the builder, the
--   function table (Header, for Script::get_fn_ptr), and consume_op of engine.rs (Consume, Decode).
--   Assembled and RoundTrip compare the builder with consume_op.
-- Engine: crates/godcoin/src/script/engine.rs. Machine has the state of ScriptEngine with the two
--   locals of call_fn, Exec one operation each, Run call_fn and eval. The chain is the record ChainView.
--   The loop and each skip have one round of fuel more than the script has bytes, and a round takes a
--   byte at least. Invariant, Kept, Preserve and Outcome carry the invariant through a run.
-- Account: crates/godcoin/src/account.rs, the types, Permissions::verify and is_valid, and the format.
-- Tx, Receipt: crates/godcoin/src/tx/mod.rs and blockchain/receipt.rs, types and formats. There is one
--   version of transactions and blocks, so the version wrappers are left out of the types; the formats
--   have them.
-- Chain: crates/godcoin/src/blockchain and constants.rs. Types has constants, errors and blocks; Block is
--   blockchain/block.rs; Index is the batch of blockchain/index.rs; Accounts (get_account, fees), Execute
--   (execute_tx), Apply (index_receipt, index_block) and Verify (verify_block, insert_block) are
--   blockchain/mod.rs. A table of the database is a function from keys; the block store is the head and
--   the blocks before it.
--   BlockLaws says what verify_block accepts, and Linked follows the insertion of blocks; an insertion has
--   the assertion of BlockStore::insert (blockchain/store.rs), where the height of the store is the
--   height of the index. Supply has the money: what each write, receipt and block does to the balances and the supply.
-- Pool: crates/godcoin/src/blockchain/receipt.rs with the expiry table of index.rs (Queue), and
--   crates/server/src/server/minter.rs (Minter). A history is a list of events, each with
--   the clock: a transaction, a block of the production loop, or a forced one, whose error leaves the
--   emptied pool (handle_all folds them, and has no one place in the source);
--   Pushed, Sound and Produced follow the pool and its chain through it, Replay one transaction.
-- Net: crates/godcoin/src/net/mod.rs (Message, and Errors with blockchain/error.rs) and net/rpc.rs
--   (Rpc). A BTreeSet of accounts is their list in increasing order.
-- Wif: crates/godcoin/src/crypto/wif.rs for account ids and public keys. The crate bs58 is the parameter
--   Base58; a text is the list of its bytes.
-- Server: crates/server/src/server: client/block_range.rs (Range, with get_filtered_block and
--   get_properties of blockchain/mod.rs in Query) and client/mod.rs (Client). A client's message is
--   handled from its bytes to the bytes of the reply; what a range sends is a list of messages. The loop
--   over a range has one round of fuel more than the range has blocks.
-- Tests: the theorems at concrete inputs.
--
-- A panic of the source is a value (panic, or none where the result is an Option). Counters that the
-- source keeps in an i32 (if_marker, and count in get_account_fee) are unbounded here: each moves by one
-- for a byte of a script or a receipt.
--
-- Not modelled: the text form of amounts and of private keys, the files of the block store, RocksDB, genesis and
-- reindexing, the sockets, timers, broadcasts and metrics of the server, and the wallet. They are input
-- and output, or build on what is here.
pub mod Base
pub mod Asset
pub mod Crypto
pub mod Serializer
pub mod Script
pub mod Account
pub mod Tx
pub mod Receipt
pub mod Engine
pub mod Chain
pub mod Pool
pub mod Net
pub mod Wif
pub mod Server
pub mod Tests
