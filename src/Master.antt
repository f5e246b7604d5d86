-- ===== src/Master.antt =====
-- The firmware of the master controller.
pub mod Ring
pub mod Serial
pub mod Twi
pub mod Commands
pub mod Comm
pub mod Operations
pub mod Handler
