-- ===== src/Handlers.antt =====
-- internal/handlers: what the requests of users do.
pub mod KeyLock
pub mod Flash
pub mod Keys
pub mod Admin
pub mod Login
pub mod Quotas
