-- ===== src/Servers.antt =====
-- Package servers.
pub mod Server
pub mod Manager
mod Tests
