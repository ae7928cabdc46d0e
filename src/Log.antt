-- ===== src/Log.antt =====
-- Package log.
pub mod Publisher
mod Tests
