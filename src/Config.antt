-- ===== src/Config.antt =====
-- Package config.
pub mod File
pub mod Handler
mod Tests
