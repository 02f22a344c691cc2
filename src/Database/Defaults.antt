-- ===== src/Database/Defaults.antt =====
-- The default profile: there is exactly one, whatever the Store is asked to do. Users without a
-- profile of their own get their keys from it.
pub mod Rows
pub mod Saves
pub mod Seed
pub mod Others
