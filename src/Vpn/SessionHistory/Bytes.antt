-- ===== src/Vpn/SessionHistory/Bytes.antt =====
-- The byte counters of vpn/session_history.go across tunnel restarts.
use radiance.Common.{
  ℕ, ◌+◌, ◌-◌, ◌≤◌, ◌≡◌, refl, ap₂, ◌∙◌, arith, true, some, List, [], ◌∷◌, if◌then◌else◌, ltb, map,
}
use radiance.Vpn.SessionHistory.{
  SessionServer, SessionHistory, observe_bytes, session_bytes, poll_tick,
  snapshot_start_bytes_locked, start_session_locked,
}

-- A run of polls.
unfoldable pub polls : SessionHistory → List (ℕ × ℕ) → SessionHistory
polls h [] = h
polls h (r ∷ rs) = polls (poll_tick h (some r)) rs

-- What a counter that may start over has counted between the reading `prev` and the last of rs: a
-- reading below the one before it counts from zero.
unfoldable pub counted : ℕ → List ℕ → ℕ
counted prev [] = 0
counted prev (r ∷ rs) = (if ltb r prev then r else r - prev) + counted r rs

observed_up :
    (h : SessionHistory) (up down : ℕ)
    → h.start_up ≤ h.baseline_up + h.live_polled_up
    → (observe_bytes h up down).start_up
      ≤ (observe_bytes h up down).baseline_up + (observe_bytes h up down).live_polled_up
unfolding observe_bytes
observed_up h up down u = ground arith

observed_down :
    (h : SessionHistory) (up down : ℕ)
    → h.start_down ≤ h.baseline_down + h.live_polled_down
    → (observe_bytes h up down).start_down
      ≤ (observe_bytes h up down).baseline_down + (observe_bytes h up down).live_polled_down
unfolding observe_bytes
observed_down h up down u = ground arith

add_assoc_lem : (a b c : ℕ) → a + b + c ≡ a + (b + c)
add_assoc_lem a b c = omega arith

zero_add_lem : (c : ℕ) → 0 + c ≡ c
zero_add_lem c = omega arith

-- One poll counts the difference, or the whole reading where it is below the last one.
observed-bytes :
    (h : SessionHistory) (up down : ℕ)
    → h.start_up ≤ h.baseline_up + h.live_polled_up
    → h.start_down ≤ h.baseline_down + h.live_polled_down
    → ((session_bytes (observe_bytes h up down)).0
        ≡ (session_bytes h).0 + (if ltb up h.live_polled_up then up else up - h.live_polled_up))
      × ((session_bytes (observe_bytes h up down)).1
          ≡ (session_bytes h).1
            + (if ltb down h.live_polled_down then down else down - h.live_polled_down))
      × ((observe_bytes h up down).live_polled_up ≡ up)
      × ((observe_bytes h up down).live_polled_down ≡ down)
      × ((observe_bytes h up down).polling ≡ h.polling)
unfolding observe_bytes session_bytes
observed-bytes h up down u d = ground arith

poll_tick-polling :
    (h : SessionHistory) (up down : ℕ)
    → h.polling ≡ true
    → poll_tick h (some (up, down)) ≡ observe_bytes h up down
unfolding poll_tick
poll_tick-polling h up down p = rw p refl

polls-bytes :
    (h : SessionHistory) (rs : List (ℕ × ℕ))
    → h.polling ≡ true
    → h.start_up ≤ h.baseline_up + h.live_polled_up
    → h.start_down ≤ h.baseline_down + h.live_polled_down
    → ((session_bytes (polls h rs)).0
        ≡ (session_bytes h).0 + counted h.live_polled_up (map (λ r. r.0) rs))
      × ((session_bytes (polls h rs)).1
          ≡ (session_bytes h).1 + counted h.live_polled_down (map (λ r. r.1) rs))
unfolding polls counted
polls-bytes h [] p u d = ground arith
polls-bytes h ((up, down) ∷ rs) p u d =
    let (b1, b2, l1, l2, p1) = observed-bytes h up down u d in
    let (i1, i2) =
      polls-bytes (observe_bytes h up down) rs (p1 ∙ p) (observed_up h up down u)
        (observed_down h up down d) in
    rw (poll_tick-polling h up down p) (
      i1
          ∙ ap₂ (λ a l. a + counted l (map (λ r. r.0) rs)) b1 l1
          ∙ add_assoc_lem (session_bytes h).0
              (if ltb up h.live_polled_up then up else up - h.live_polled_up)
              (counted up (map (λ r. r.0) rs)),
      i2
          ∙ ap₂ (λ a l. a + counted l (map (λ r. r.1) rs)) b2 l2
          ∙ add_assoc_lem (session_bytes h).1
              (if ltb down h.live_polled_down then down else down - h.live_polled_down)
              (counted down (map (λ r. r.1) rs)),
    )

started :
    (h : SessionHistory) (server : SessionServer) (up down now : ℕ)
    → let h1 = start_session_locked h server (some (up, down)) now in
      ((session_bytes h1).0 ≡ 0)
      × ((session_bytes h1).1 ≡ 0)
      × (h1.live_polled_up ≡ up)
      × (h1.live_polled_down ≡ down)
      × (h1.polling ≡ true)
      × (h1.start_up ≤ h1.baseline_up + h1.live_polled_up)
      × (h1.start_down ≤ h1.baseline_down + h1.live_polled_down)
unfolding start_session_locked snapshot_start_bytes_locked observe_bytes session_bytes
started h server up down now = ground arith

-- A session that starts at one reading and polls others has counted, in each direction, what the
-- counter went up by from reading to reading, where a reading below the last one (a restarted
-- tunnel) counts from zero.
pub start-polls-bytes :
    (h : SessionHistory) (server : SessionServer) (up down now : ℕ) (rs : List (ℕ × ℕ))
    → let h1 = start_session_locked h server (some (up, down)) now in
      ((session_bytes (polls h1 rs)).0 ≡ counted up (map (λ r. r.0) rs))
      × ((session_bytes (polls h1 rs)).1 ≡ counted down (map (λ r. r.1) rs))
start-polls-bytes h server up down now rs =
    let h1 = start_session_locked h server (some (up, down)) now in
    let (z1, z2, l1, l2, p, u, d) = started h server up down now in
    let (b1, b2) = polls-bytes h1 rs p u d in
    (
      b1
          ∙ ap₂ (λ a l. a + counted l (map (λ r. r.0) rs)) z1 l1
          ∙ zero_add_lem (counted up (map (λ r. r.0) rs)),
      b2
          ∙ ap₂ (λ a l. a + counted l (map (λ r. r.1) rs)) z2 l2
          ∙ zero_add_lem (counted down (map (λ r. r.1) rs)),
    )
