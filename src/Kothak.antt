-- ===== src/Kothak.antt =====
-- internal/kothak: the connections of the program, by name.
pub mod Sql
pub mod Registry
pub mod Connecting
pub mod Racing
pub mod Registering
mod Tests
