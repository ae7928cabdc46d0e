-- ===== src/Memmon.antt =====
-- The adaptive memory monitor, vpn/memmon.
pub mod Float
pub mod Types
pub mod Engine
pub mod Gate
pub mod Executor
pub mod Monitor
mod Fixed
mod Tests
