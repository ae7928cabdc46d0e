-- ===== src/Kindling.antt =====
-- The DNS tunnels of kindling/dnstt/parser.go: their configurations, and the pool of those that work.
pub mod Config
pub mod Tunnels
mod Tests
