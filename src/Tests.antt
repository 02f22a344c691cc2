-- ===== src/Tests.antt =====
-- A small database with two profiles, a user and a key, and the theorems at it.
pub mod Worlds
pub mod Rows
pub mod Calls
pub mod KeyParams
pub mod Names
pub mod Locks
pub mod Forms
pub mod Requests
pub mod Runs
pub mod Gateway
pub mod Settings
