-- ===== src/Vpn/Status.antt =====
-- VPNStatus of vpn/vpn.go.
pub data VpnStatus : Type 0 where
  connecting connected disconnecting disconnected restarting error_status : VpnStatus
