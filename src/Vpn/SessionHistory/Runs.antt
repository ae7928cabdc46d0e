-- ===== src/Vpn/SessionHistory/Runs.antt =====
-- The stored sessions of vpn/session_history.go through any run of its operations.
use text.Mathlib.Text.{◌==◌ as str_eq}
use radiance.Common.{
  ◌||◌, subst, length-append, ℕ, ◌+◌, ◌≤◌, ◌≡◌, refl, ap, ◌∙◌, arith, Bool, true, false, not,
  Option, none, some, List, [], ◌∷◌, ◌++◌, if◌then◌else◌, ltb, length, take, keep, length-take,
  String,
}
use radiance.Vpn.Status.{
  VpnStatus, connecting, connected, disconnecting, disconnected, restarting, error_status,
}
use radiance.Vpn.SessionHistory.{
  SessionServer, Session, SessionHistory, max_sessions, expired, prune_stored, prune_locked,
  observe_bytes, observe_reading, poll_tick, sample_bytes_locked, sample_current, is_active,
  is_connected, keeps_session, on_ended, of_current, finalize_locked, start_session_locked,
  snapshot_start_bytes_locked, finalize_locked, finalize_current, ended, handle_status,
  handle_server_change, change_server, sessions,
}
use radiance.Vpn.SessionHistory.Retention.{
  Descending-later, Descending-take, Descending-prune, length-prune, prune_stored-keep, Kept,
}

observe-stored :
    (h : SessionHistory) (reading : Option (ℕ × ℕ)) → (observe_reading h reading).stored ≡ h.stored
unfolding observe_bytes
observe-stored h none = refl
observe-stored h (some (up, down)) = refl

sample-stored :
    (h : SessionHistory) (reading : Option (ℕ × ℕ)) (o : Option Session)
    → (sample_current h reading o).stored ≡ h.stored
sample-stored h reading none = refl
sample-stored h reading (some s) = observe-stored h reading

start-stored :
    (h : SessionHistory) (server : SessionServer) (reading : Option (ℕ × ℕ)) (now : ℕ)
    → (start_session_locked h server reading now).stored ≡ h.stored
unfolding start_session_locked snapshot_start_bytes_locked observe_bytes
start-stored h server none now = refl
start-stored h server (some (up, down)) now = refl

Kept-same : (t u : ℕ) (h h' : SessionHistory) → t ≤ u → h'.stored ≡ h.stored → Kept t h → Kept u h'
Kept-same t u h h' le e k = record {
  few = rw e k.few;
  in_order = rw e (Descending-later t u h.stored le k.in_order);
}

prune_locked-Kept :
    (t now : ℕ) (h : SessionHistory) → t ≤ now → Kept t h → Kept now (prune_locked h now)
unfolding prune_locked
prune_locked-Kept t now h le k = record {
  few = omega (arith, length-prune now h.stored, k.few);
  in_order = Descending-prune now now h.stored (Descending-later t now h.stored le k.in_order);
}

ended-disconnected_at :
    (h : SessionHistory) (s : Session) (err : String) (now : ℕ)
    → (ended h s err now).disconnected_at ≡ now
ended-disconnected_at h s err now = ground arith

finalize-Kept :
    (t now : ℕ) (h : SessionHistory) (err : String) (reading : Option (ℕ × ℕ)) (o : Option Session)
    → t ≤ now
    → Kept t h
    → Kept now (finalize_current h err reading now o)
finalize-Kept t now h err reading none le k = Kept-same t now h h le refl k
finalize-Kept t now h err reading (some s) le k =
    let h1 = observe_reading (record h { polling = false }) reading in
    let e = ended h1 s err now in
    let same : h1.stored ≡ h.stored = observe-stored (record h { polling = false }) reading in
    let d = ended-disconnected_at h1 s err now in
    prune_locked-Kept now now
      (record h1 { current = none; stored = take max_sessions (e ∷ h1.stored) }) (omega arith)
      (record {
        few = omega (arith, length-take max_sessions (e ∷ h1.stored));
        in_order =
            Descending-take now max_sessions (e ∷ h1.stored)
              (omega (arith, d), rw d (rw same (Descending-later t now h.stored le k.in_order)));
      })

-- What happens to a session history, at an instant.
pub data Event : Type 0 where
  status_event : VpnStatus → String → VpnStatus → SessionServer → Option (ℕ × ℕ) → Event
  server_event : SessionServer → Option (ℕ × ℕ) → Option (ℕ × ℕ) → Event
  polled : Option (ℕ × ℕ) → Event
  pruned : Event
  read : ℕ → Option (ℕ × ℕ) → Event

abbrev pub handle : SessionHistory → Event → ℕ → SessionHistory
handle h (status_event s err live server reading) now =
    handle_status h s err live server reading now
handle h (server_event server last first) now = handle_server_change h server last first now
handle h (polled reading) now = poll_tick h reading
handle h pruned now = prune_locked h now
handle h (read limit reading) now = (sessions h limit reading now).0

if-Kept :
    (now : ℕ) (b : Bool) (h h' : SessionHistory)
    → Kept now h
    → Kept now h'
    → Kept now (if b then h else h')
if-Kept now true h h' k k' = k
if-Kept now false h h' k k' = k'

on_ended-Kept :
    (t now : ℕ) (h : SessionHistory) (live : VpnStatus) (err : String) (reading : Option (ℕ × ℕ))
    → t ≤ now
    → Kept t h
    → Kept now (on_ended h live err reading now)
unfolding finalize_locked
on_ended-Kept t now h live err reading le k =
    if-Kept now (keeps_session live) h (finalize_locked h err reading now)
      (Kept-same t now h h le refl k) (finalize-Kept t now h err reading h.current le k)

status-Kept :
    (t now : ℕ) (h : SessionHistory) (s : VpnStatus) (err : String) (live : VpnStatus)
    (server : SessionServer) (reading : Option (ℕ × ℕ))
    → t ≤ now
    → Kept t h
    → Kept now (handle_status h s err live server reading now)
unfolding handle_status finalize_locked
status-Kept t now h connected err live server reading le k =
    if-Kept now (not (is_connected live) || is_active h.current) h
      (start_session_locked h server reading now) (Kept-same t now h h le refl k)
      (Kept-same t now h (start_session_locked h server reading now) le
        (start-stored h server reading now) k)
status-Kept t now h disconnected err live server reading le k =
    on_ended-Kept t now h live err reading le k
status-Kept t now h error_status err live server reading le k =
    on_ended-Kept t now h live err reading le k
status-Kept t now h connecting err live server reading le k = Kept-same t now h h le refl k
status-Kept t now h disconnecting err live server reading le k = Kept-same t now h h le refl k
status-Kept t now h restarting err live server reading le k = Kept-same t now h h le refl k

change-Kept :
    (t now : ℕ) (h : SessionHistory) (server : SessionServer) (last first : Option (ℕ × ℕ))
    (o : Option Session)
    → t ≤ now
    → Kept t h
    → Kept now (change_server h server last first now o)
unfolding finalize_locked
change-Kept t now h server last first none le k = Kept-same t now h h le refl k
change-Kept t now h server last first (some s) le k =
    let ended = finalize_current h "" last now h.current in
    if-Kept now (str_eq s.server.tag server.tag) h
      (start_session_locked (finalize_locked h "" last now) server first now)
      (Kept-same t now h h le refl k)
      (Kept-same now now ended (start_session_locked ended server first now) (omega arith)
        (start-stored ended server first now) (finalize-Kept t now h "" last h.current le k))

poll-Kept :
    (t now : ℕ) (h : SessionHistory) (reading : Option (ℕ × ℕ))
    → t ≤ now
    → Kept t h
    → Kept now (poll_tick h reading)
unfolding poll_tick
poll-Kept t now h reading le k =
    if-Kept now h.polling (observe_reading h reading) h
      (Kept-same t now h (observe_reading h reading) le (observe-stored h reading) k)
      (Kept-same t now h h le refl k)

handle-Kept :
    (t now : ℕ) (h : SessionHistory) (e : Event) → t ≤ now → Kept t h → Kept now (handle h e now)
unfolding handle_server_change poll_tick sessions sample_bytes_locked
handle-Kept t now h (status_event s err live server reading) le k =
    status-Kept t now h s err live server reading le k
handle-Kept t now h (server_event server last first) le k =
    change-Kept t now h server last first h.current le k
handle-Kept t now h (polled reading) le k = poll-Kept t now h reading le k
handle-Kept t now h pruned le k = prune_locked-Kept t now h le k
handle-Kept t now h (read limit reading) le k =
    let h1 = prune_locked h now in
    Kept-same now now h1 (sample_current h1 reading h1.current) (omega arith)
      (sample-stored h1 reading h1.current) (prune_locked-Kept t now h le k)

-- A run: what happens, each with the time since the last.
unfoldable pub run : ℕ → SessionHistory → List (Event × ℕ) → SessionHistory
run t h [] = h
run t h ((e, dt) ∷ es) = run (t + dt) (handle h e (t + dt)) es

unfoldable pub elapsed : List (Event × ℕ) → ℕ
elapsed [] = 0
elapsed ((e, dt) ∷ es) = dt + elapsed es

-- Through status events, server changes, polls, prunes and reads, in any order and at any instants
-- of a clock that does not go back, at most ten sessions are stored, the newest first, and none has
-- ended after the present.
pub run-Kept :
    (t : ℕ) (h : SessionHistory) (es : List (Event × ℕ))
    → Kept t h
    → Kept (t + elapsed es) (run t h es)
unfolding run elapsed
run-Kept t h [] k = Kept-same t (t + 0) h h (omega arith) refl k
run-Kept t h ((e, dt) ∷ es) k =
    subst (λ (u : ℕ). Kept u (run (t + dt) (handle h e (t + dt)) es)) (omega arith)
      (run-Kept (t + dt) (handle h e (t + dt)) es (handle-Kept t (t + dt) h e (omega arith) k))

length-of_current : (o : Option Session) → length (of_current o) ≤ 1
length-of_current o = ground arith

-- Sessions(limit) leaves stored exactly the sessions that ended within the retention; it returns at
-- most eleven sessions, and at most limit when that is not 0.
pub sessions-recent :
    (t : ℕ) (h : SessionHistory) (limit : ℕ) (reading : Option (ℕ × ℕ)) (now : ℕ)
    → t ≤ now
    → Kept t h
    → let r = sessions h limit reading now in
      (r.0.stored ≡ keep (λ s. not (expired now s)) h.stored)
      × (length r.1 ≤ max_sessions + 1)
      × (length r.1 ≤ (if ltb 0 limit then limit else max_sessions + 1))
unfolding sessions sample_bytes_locked prune_locked
sessions-recent t h limit reading now le k =
    let h1 = prune_locked h now in
    let h2 = sample_current h1 reading h1.current in
    let same : h2.stored ≡ prune_stored now h.stored = sample-stored h1 reading h1.current in
    let out = of_current h2.current ++ h2.stored in
    let few : length out ≤ max_sessions + 1 = omega (
      arith,
      length-append (of_current h2.current) h2.stored,
      ap length same,
      length-prune now h.stored,
      k.few,
      length-of_current h2.current,
    ) in
    (
      same ∙ prune_stored-keep t now h.stored k.in_order,
      ground (arith, few, length-take limit out),
      ground (arith, few, length-take limit out),
    )
