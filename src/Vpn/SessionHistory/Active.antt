-- ===== src/Vpn/SessionHistory/Active.antt =====
-- When vpn/session_history.go has a session in progress, and on which server.
use radiance.Common.{
  ℕ, ◌≡◌, refl, ap, ◌∙◌, arith, false, not, ◌||◌, Option, none, some, if◌then◌else◌, String,
}
use radiance.Vpn.Status.{
  VpnStatus, connecting, connected, disconnecting, disconnected, restarting, error_status,
}
use radiance.Vpn.SessionHistory.{
  SessionServer, Session, SessionHistory, observe_bytes, start_session_locked,
  snapshot_start_bytes_locked, finalize_locked, finalize_current, handle_status, is_active,
  is_connected, keeps_session, prune_locked, new_session, on_connected, on_ended,
}

-- The session in progress after Connected.
abbrev pub started : Option Session → VpnStatus → SessionServer → ℕ → Option Session
started (some s) live server now = some s
started none connected server now = some (record {
  connected_at = now;
  disconnected_at = 0;
  server = server;
  bytes_up = 0;
  bytes_down = 0;
  error = "";
})
started none _ server now = none

-- The session in progress after an event, from the one before it and the live status.
abbrev pub current_after :
    Option Session → VpnStatus → VpnStatus → SessionServer → ℕ → Option Session
current_after o connected live server now = started o live server now
current_after o disconnected live server now = if keeps_session live then o else none
current_after o error_status live server now = if keeps_session live then o else none
current_after o _ live server now = o

start-current :
    (h : SessionHistory) (server : SessionServer) (reading : Option (ℕ × ℕ)) (now : ℕ)
    → (start_session_locked h server reading now).current ≡ some (new_session server now)
unfolding start_session_locked snapshot_start_bytes_locked observe_bytes
start-current h server none now = refl
start-current h server (some (up, down)) now = refl

idle :
    (h : SessionHistory)
    → h.current ≡ none
    → not (is_connected connected) || is_active h.current ≡ false
idle h e = rw e refl

-- Connected, by the session in progress and the live status.
connected-current :
    (h : SessionHistory) (o : Option Session) (live : VpnStatus) (server : SessionServer)
    (reading : Option (ℕ × ℕ)) (now : ℕ)
    → h.current ≡ o
    → (on_connected h live server reading now).current ≡ started o live server now
connected-current h (some s) live server reading now e = rw e (ground arith)
connected-current h none connected server reading now e =
    ap (λ b. (if b then h else start_session_locked h server reading now).current) (idle h e)
    ∙ start-current h server reading now
connected-current h none connecting server reading now e = e
connected-current h none disconnecting server reading now e = e
connected-current h none disconnected server reading now e = e
connected-current h none restarting server reading now e = e
connected-current h none error_status server reading now e = e

finalize-current :
    (h : SessionHistory) (err : String) (reading : Option (ℕ × ℕ)) (now : ℕ) (o : Option Session)
    → h.current ≡ o
    → (finalize_current h err reading now o).current ≡ none
unfolding prune_locked
finalize-current h err reading now none e = e
finalize-current h err reading now (some s) e = refl

ended-current :
    (h : SessionHistory) (live : VpnStatus) (err : String) (reading : Option (ℕ × ℕ)) (now : ℕ)
    → (on_ended h live err reading now).current ≡ (if keeps_session live then h.current else none)
unfolding finalize_locked
ended-current h live err reading now =
    let f = finalize-current h err reading now h.current refl in ground arith

-- A status event, judged by the live status: Connected leaves the session in progress as it is, and
-- starts one if there is none and the client is connected, from now, on the server, with no bytes
-- and no error; Disconnected and Error end the session in progress and leave it as it is where the
-- client is connected or restarting; no other event touches it.
pub handle_status-current :
    (h : SessionHistory) (s : VpnStatus) (err : String) (live : VpnStatus) (server : SessionServer)
    (reading : Option (ℕ × ℕ)) (now : ℕ)
    → (handle_status h s err live server reading now).current
      ≡ current_after h.current s live server now
unfolding handle_status
handle_status-current h connected err live server reading now =
    connected-current h h.current live server reading now refl
handle_status-current h disconnected err live server reading now =
    ended-current h live err reading now
handle_status-current h error_status err live server reading now =
    ended-current h live err reading now
handle_status-current h connecting err live server reading now = refl
handle_status-current h disconnecting err live server reading now = refl
handle_status-current h restarting err live server reading now = refl
