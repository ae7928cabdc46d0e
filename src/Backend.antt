-- ===== src/Backend.antt =====
-- Package backend.
pub mod SelectionReporter
mod Tests
