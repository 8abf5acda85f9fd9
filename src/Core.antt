-- ===== src/Core.antt =====
-- crates/csgdb-core: errors, open flags, keys, open plans, checkpoint reports and values.
pub mod Error
pub mod Connection
pub mod Flags
pub mod Key
pub mod Open
pub mod Value
