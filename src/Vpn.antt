-- ===== src/Vpn.antt =====
-- The tunnel's own parts, package vpn.
pub mod BufPool
pub mod SplitTunnel
pub mod Status
pub mod SessionHistory
pub mod Client
pub mod Throughput
pub mod BoxOptions
pub mod Clash
pub mod Outbounds
mod Tests
