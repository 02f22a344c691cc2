-- ===== src/Database.antt =====
-- internal/database: the rows, the engine, and the operations of the Store.
pub mod Models
pub mod Errors
pub mod Tables
pub mod Quotas
pub mod Profiles
pub mod Users
pub mod Keys
pub mod KeyMap
pub mod Sessions
pub mod SyncQueries
pub mod Writes
pub mod Atomicity
pub mod Defaults
pub mod Revisions
pub mod Pending
pub mod Missing
