-- ===== src/Pool.antt =====
-- crates/csgdb/src/pool.rs: the connection manager, a bounded pool of readers beside one writer.
pub mod Options
pub mod Readers
pub mod Reentry
pub mod Queue
pub mod Runtime
pub mod Group
pub mod Writer
