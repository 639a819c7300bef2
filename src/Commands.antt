-- ===== src/Commands.antt =====
-- src/commands.rs: the commands on the keyspace.
pub mod Names
pub mod Args
pub mod Reply
pub mod Exec
pub mod Strings
pub mod Keyspace
pub mod Hashes
pub mod Lists
pub mod Sets
pub mod Walk
pub mod Dispatch
mod Tests
