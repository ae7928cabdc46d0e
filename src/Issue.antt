-- ===== src/Issue.antt =====
-- Package issue.
pub mod Archive
mod Tests
