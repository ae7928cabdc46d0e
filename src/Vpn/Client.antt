-- ===== src/Vpn/Client.antt =====
-- The lifecycle of VPNClient, vpn/vpn.go. Each operation holds the client's lock throughout, but for
-- Restart while the platform interface restarts the service: there the calls that reach the client
-- are an argument. What the tunnel and the option builder answer are arguments too; the offline
-- tests, spans and log lines are left out.
pub mod Lifecycle
pub mod Restart
use radiance.Common.{
  ℕ, zero, suc, ◌+◌, Bool, true, false, not, ◌&&◌, ◌||◌, List, [], ◌∷◌, if◌then◌else◌, String,
}
use radiance.Vpn.Status.{
  VpnStatus, connecting, connected, disconnecting, disconnected, restarting, error_status,
}
use text.Mathlib.Text.{◌==◌ as str_eq}

-- VPNClient: whether there is a tunnel, whether there is a platform interface, the status, the
-- status events emitted so far, newest first, and how often PostServiceClose was called.
pub record Client : Type 0 where
  pub has_tunnel : Bool
  pub has_platform : Bool
  pub status : VpnStatus
  pub emitted : List VpnStatus
  pub post_closes : ℕ

-- What the tunnel and the option builder answer.
pub record Outcome : Type 0 where
  pub builds : Bool
  pub marshals : Bool
  pub starts : Bool
  pub closes : Bool

pub data Reply : Type 0 where
  succeeded already_connected not_connected build_failed marshal_failed start_failed : Reply
  close_failed platform_failed : Reply
  busy : VpnStatus → Reply

unfoldable pub new_vpn_client : Bool → Client
new_vpn_client platform = record {
  has_tunnel = false;
  has_platform = platform;
  status = disconnected;
  emitted = [];
  post_closes = 0;
}

-- The statuses that setStatus lets through during a restart.
abbrev pub ends_restart : VpnStatus → Bool
ends_restart connected = true
ends_restart error_status = true
ends_restart _ = false

abbrev pub is_restarting : VpnStatus → Bool
is_restarting restarting = true
is_restarting _ = false

abbrev pub is_connected : VpnStatus → Bool
is_connected connected = true
is_connected _ = false

unfoldable pub set_status : Client → VpnStatus → Client
set_status c s =
    if is_restarting c.status && not (ends_restart s)
    then c
    else record c { status = s; emitted = s ∷ c.emitted }

unfoldable pub start : Client → Outcome → Client × Reply
start c o =
    let c1 = set_status c connecting in
    if o.starts
    then (set_status (record c1 { has_tunnel = true }) connected, succeeded)
    else (set_status c1 error_status, start_failed)

-- close, where there is a tunnel.
unfoldable pub close : Client → Outcome → Client × Reply
close c o =
    let c1 = set_status (record c { has_tunnel = false }) disconnecting in
    if not o.closes
    then (set_status c1 error_status, close_failed)
    else let c2 = set_status c1 disconnected in
      (if c2.has_platform then record c2 { post_closes = c2.post_closes + 1 } else c2, succeeded)

-- The rest of Connect, where no tunnel stands in the way.
unfoldable pub build_and_start : Client → Outcome → Client × Reply
build_and_start c o =
    if not o.builds
    then (c, build_failed)
    else if not o.marshals
    then (c, marshal_failed)
    else start c o

abbrev pub connect_over : Client → Outcome → VpnStatus → Client × Reply
connect_over c o connected = (c, already_connected)
connect_over c o restarting = (c, busy restarting)
connect_over c o connecting = (c, busy connecting)
connect_over c o disconnecting = (c, busy disconnecting)
connect_over c o disconnected = build_and_start (record c { has_tunnel = false }) o
connect_over c o error_status = build_and_start (record c { has_tunnel = false }) o

unfoldable pub connect : Client → Outcome → Client × Reply
connect c o = if c.has_tunnel then connect_over c o c.status else build_and_start c o

unfoldable pub disconnect : Client → Outcome → Client × Reply
disconnect c o = if c.has_tunnel then close c o else (c, succeeded)

-- A call of the client.
pub data Call : Type 0 where
  connects disconnects : Outcome → Call

abbrev pub call : Client → Call → Client
call c (connects o) = (connect c o).0
call c (disconnects o) = (disconnect c o).0

abbrev pub calls : Client → List Call → Client
calls c [] = c
calls c (k ∷ ks) = calls (call c k) ks

-- Restart through the platform interface: what reaches the client before RestartService returns,
-- and whether it returns without an error.
unfoldable pub platform_restart : Client → List Call → Bool → Client × Reply
platform_restart c ks ok =
    let c1 = calls c ks in
    if ok then (c1, succeeded) else (set_status c1 error_status, platform_failed)

abbrev pub rebuild : Client → Outcome → Client × Reply
rebuild c o =
    if not o.builds
    then (set_status c error_status, build_failed)
    else if not o.marshals
    then (set_status c error_status, marshal_failed)
    else start c o

-- Restart that closes and starts the tunnel itself, under the lock.
unfoldable pub direct_restart : Client → Outcome → Client × Reply
direct_restart c o = if o.closes then rebuild (close c o).0 o else close c o

unfoldable pub restart : Client → Outcome → List Call → Bool → Client × Reply
restart c o ks ok =
    if not c.has_tunnel || not (is_connected c.status)
    then (c, not_connected)
    else let c1 = set_status c restarting in
      if c1.has_platform then platform_restart c1 ks ok else direct_restart c1 o

-- What SelectServer asks of the tunnel.
pub data Selection : Type 0 where
  no_tunnel auto_mode : Selection
  outbound : String → Selection

unfoldable pub select_server : Client → String → Selection
select_server c tag =
    if not c.has_tunnel || not (is_connected c.status)
    then no_tunnel
    else if str_eq tag "auto" || str_eq tag ""
    then auto_mode
    else outbound tag

-- ClearTunnelCache: whether to restart, and whether it left a marker for the next start; the cache
-- file is removed, or a permission or another error stands in the way.
pub data Removal : Type 0 where
  removed no_permission other_error : Removal

pub data Clearing : Type 0 where
  cleared failed : Clearing
  marked : Bool → Clearing

abbrev pub clear_closed : Removal → Clearing
clear_closed removed = cleared
clear_closed no_permission = marked false
clear_closed other_error = failed

unfoldable pub clear_tunnel_cache : Client → Removal → Clearing
clear_tunnel_cache c removal = if c.has_tunnel then marked true else clear_closed removal
