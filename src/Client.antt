-- ===== src/Client.antt =====
-- The client program.
pub mod Ring
pub mod Comm
pub mod Serial
pub mod Scan
pub mod EchoString
pub mod Commands
pub mod Shell
pub mod Program
