-- ===== src/Slave.antt =====
-- The slave controllers' program, in slave/.
pub mod Twi
pub mod Motor
pub mod Command
pub mod Samples
