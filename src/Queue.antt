-- ===== src/Queue.antt =====
-- What a ring buffer promises, in both programs, and the interface that the two fill.
pub mod Defs
pub mod Interface
pub use Defs.{Op, Reply}
