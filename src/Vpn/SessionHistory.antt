-- ===== src/Vpn/SessionHistory.antt =====
-- vpn/session_history.go. Each operation is what it does under its lock. The clock, the live status,
-- the selected server and the byte counters that the callbacks of SessionInfo read are arguments.
-- Instants are nanoseconds, byte counts natural numbers; the int64 counters are taken not to overflow,
-- and the instants that one handler reads are taken to be the same.
pub mod Retention
pub mod Runs
pub mod Bytes
pub mod Active
use radiance.Common.{
  ℕ, zero, suc, ◌+◌, ◌-◌, ◌*◌, Bool, true, false, ◌&&◌, ◌||◌, not, Option, none, some, List, [],
  ◌∷◌, ◌++◌, if◌then◌else◌, ltb, length, take, String,
}
use radiance.Vpn.Status.{
  VpnStatus, connecting, connected, disconnecting, disconnected, restarting, error_status,
}
use text.Mathlib.Text.{◌==◌ as str_eq}

abbrev pub max_sessions : ℕ
max_sessions = 10

abbrev pub session_retention : ℕ
session_retention = 15 * 60 * 1000000000

pub record SessionServer : Type 0 where
  pub tag : String
  pub city : String
  pub country : String

-- DisconnectedAt is zero while the session lasts.
pub record Session : Type 0 where
  pub connected_at : ℕ
  pub disconnected_at : ℕ
  pub server : SessionServer
  pub bytes_up : ℕ
  pub bytes_down : ℕ
  pub error : String

pub record SessionHistory : Type 0 where
  pub start_up : ℕ
  pub start_down : ℕ
  pub baseline_up : ℕ
  pub baseline_down : ℕ
  pub live_polled_up : ℕ
  pub live_polled_down : ℕ
  pub current : Option Session
  pub stored : List Session
  pub polling : Bool

abbrev pub new_session_history : SessionHistory
new_session_history = record {
  start_up = 0;
  start_down = 0;
  baseline_up = 0;
  baseline_down = 0;
  live_polled_up = 0;
  live_polled_down = 0;
  current = none;
  stored = [];
  polling = false;
}

-- A session that ended before the cutoff, now - sessionRetention.
unfoldable pub expired : ℕ → Session → Bool
expired now s = ltb (s.disconnected_at + session_retention) now

unfoldable pub prune_stored : ℕ → List Session → List Session
prune_stored now [] = []
prune_stored now (s ∷ ss) = let rest = prune_stored now ss in if expired now s then [] else s ∷ rest

unfoldable pub prune_locked : SessionHistory → ℕ → SessionHistory
prune_locked h now = record h { stored = prune_stored now h.stored }

unfoldable pub observe_bytes : SessionHistory → ℕ → ℕ → SessionHistory
observe_bytes h up down = record h {
  baseline_up = if ltb up h.live_polled_up then h.baseline_up + h.live_polled_up else h.baseline_up;
  baseline_down =
      if ltb down h.live_polled_down then h.baseline_down + h.live_polled_down else h.baseline_down;
  live_polled_up = up;
  live_polled_down = down;
}

-- A difference below zero is raised to zero, where subtraction stops.
unfoldable pub session_bytes : SessionHistory → ℕ × ℕ
session_bytes h = (
  (h.baseline_up + h.live_polled_up) - h.start_up,
  (h.baseline_down + h.live_polled_down) - h.start_down,
)

-- Bytes() when it has counters, observed; also one tick of poll.
abbrev pub observe_reading : SessionHistory → Option (ℕ × ℕ) → SessionHistory
observe_reading h none = h
observe_reading h (some (up, down)) = observe_bytes h up down

unfoldable pub poll_tick : SessionHistory → Option (ℕ × ℕ) → SessionHistory
poll_tick h reading = if h.polling then observe_reading h reading else h

abbrev pub with_bytes : SessionHistory → Session → ℕ × ℕ → Session
with_bytes h s (up, down) = record s { bytes_up = up; bytes_down = down }

-- sampleBytesLocked, for a current session.
abbrev pub sampled : SessionHistory → Option (ℕ × ℕ) → Session → SessionHistory
sampled h reading s =
    let h1 = observe_reading h reading in
    record h1 { current = some (with_bytes h1 s (session_bytes h1)) }

abbrev pub sample_current : SessionHistory → Option (ℕ × ℕ) → Option Session → SessionHistory
sample_current h reading none = h
sample_current h reading (some s) = sampled h reading s

unfoldable pub sample_bytes_locked : SessionHistory → Option (ℕ × ℕ) → SessionHistory
sample_bytes_locked h reading = sample_current h reading h.current

unfoldable pub snapshot_start_bytes_locked : SessionHistory → Option (ℕ × ℕ) → SessionHistory
snapshot_start_bytes_locked h reading =
    let h1 = observe_reading h reading in
    record h1 {
      start_up = h1.baseline_up + h1.live_polled_up;
      start_down = h1.baseline_down + h1.live_polled_down;
    }

abbrev pub new_session : SessionServer → ℕ → Session
new_session server now = record {
  connected_at = now;
  disconnected_at = 0;
  server = server;
  bytes_up = 0;
  bytes_down = 0;
  error = "";
}

unfoldable pub start_session_locked :
    SessionHistory → SessionServer → Option (ℕ × ℕ) → ℕ → SessionHistory
start_session_locked h server reading now =
    let s = new_session server now in
    record (snapshot_start_bytes_locked (record h { current = some s }) reading) { polling = true }

-- The session as it is stored.
abbrev pub ended : SessionHistory → Session → String → ℕ → Session
ended h s err now =
    let s1 = record (with_bytes h s (session_bytes h)) { disconnected_at = now } in
    if str_eq err "" then s1 else record s1 { error = err }

-- finalizeLocked, for a current session: the poller is stopped first.
abbrev pub finalized : SessionHistory → String → Option (ℕ × ℕ) → ℕ → Session → SessionHistory
finalized h err reading now s =
    let h1 = observe_reading (record h { polling = false }) reading in
    let h2 = record h1 {
      current = none;
      stored = take max_sessions (ended h1 s err now ∷ h1.stored);
    } in
    prune_locked h2 now

abbrev pub finalize_current :
    SessionHistory → String → Option (ℕ × ℕ) → ℕ → Option Session → SessionHistory
finalize_current h err reading now none = h
finalize_current h err reading now (some s) = finalized h err reading now s

unfoldable pub finalize_locked : SessionHistory → String → Option (ℕ × ℕ) → ℕ → SessionHistory
finalize_locked h err reading now = finalize_current h err reading now h.current

abbrev pub is_active : Option Session → Bool
is_active none = false
is_active (some s) = true

abbrev pub is_connected : VpnStatus → Bool
is_connected connected = true
is_connected _ = false

abbrev pub keeps_session : VpnStatus → Bool
keeps_session connected = true
keeps_session restarting = true
keeps_session _ = false

abbrev pub on_connected :
    SessionHistory → VpnStatus → SessionServer → Option (ℕ × ℕ) → ℕ → SessionHistory
on_connected h live server reading now =
    if not (is_connected live) || is_active h.current
    then h
    else start_session_locked h server reading now

abbrev pub on_ended : SessionHistory → VpnStatus → String → Option (ℕ × ℕ) → ℕ → SessionHistory
on_ended h live err reading now =
    if keeps_session live then h else finalize_locked h err reading now

-- handleStatus: the event's status and error, then what the callbacks and the clock say.
unfoldable pub handle_status :
    SessionHistory
    → VpnStatus
    → String
    → VpnStatus
    → SessionServer
    → Option (ℕ × ℕ)
    → ℕ
    → SessionHistory
handle_status h connected err live server reading now = on_connected h live server reading now
handle_status h disconnected err live server reading now = on_ended h live err reading now
handle_status h error_status err live server reading now = on_ended h live err reading now
handle_status h _ err live server reading now = h

abbrev pub change_server :
    SessionHistory
    → SessionServer
    → Option (ℕ × ℕ)
    → Option (ℕ × ℕ)
    → ℕ
    → Option Session
    → SessionHistory
change_server h server last first now none = h
change_server h server last first now (some s) =
    if str_eq s.server.tag server.tag
    then h
    else start_session_locked (finalize_locked h "" last now) server first now

-- HandleServerChange: Bytes() is read once for the session that ends, once for the one that starts.
unfoldable pub handle_server_change :
    SessionHistory → SessionServer → Option (ℕ × ℕ) → Option (ℕ × ℕ) → ℕ → SessionHistory
handle_server_change h server last first now = change_server h server last first now h.current

abbrev pub of_current : Option Session → List Session
of_current none = []
of_current (some s) = s ∷ []

-- Sessions(limit), a limit of 0 being none.
unfoldable pub sessions : SessionHistory → ℕ → Option (ℕ × ℕ) → ℕ → SessionHistory × List Session
sessions h limit reading now =
    let h1 = sample_bytes_locked (prune_locked h now) reading in
    let out = of_current h1.current ++ h1.stored in
    (h1, if ltb 0 limit && ltb limit (length out) then take limit out else out)
