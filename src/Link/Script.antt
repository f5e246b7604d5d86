-- ===== src/Link/Script.antt =====
-- The client program with a script, and the master, with a slave on its bus, at the other end.
pub mod Words
pub mod Speed
pub mod Main
mod Tests
