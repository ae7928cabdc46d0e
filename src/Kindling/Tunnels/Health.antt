-- ===== src/Kindling/Tunnels/Health.antt =====
-- When a tunnel of kindling/dnstt/parser.go counts as working.
use radiance.Common.{
  ℕ, suc, ◌≡◌, ◌≤◌, ◌⊎◌, inr, refl, arith, Bool, true, List, [], ◌∷◌, if◌then◌else◌, ltb,
}
use radiance.Kindling.Tunnels.{
  DnsTunnel, mark_succeeded, record_failure, is_succeeding, Response, failed, status,
  is_gateway_error, round_trip,
}

-- The requests over a tunnel, the latest first, each with the time at which it ends.
unfoldable pub after_trips : DnsTunnel → List (ℕ × Response) → DnsTunnel
after_trips t [] = t
after_trips t (r ∷ rs) = round_trip r.0 r.1 (after_trips t rs)

abbrev pub counts_as_failure : Response → Bool
counts_as_failure failed = true
counts_as_failure (status code) = is_gateway_error code

-- The failures since the last success.
unfoldable pub trailing_failures : List (ℕ × Response) → ℕ
trailing_failures [] = 0
trailing_failures (r ∷ rs) =
    let rest = trailing_failures rs in if counts_as_failure r.1 then suc rest else 0

-- The clock is past the zero time.
unfoldable pub Timed : List (ℕ × Response) → Type 0
Timed [] = Unit
Timed (r ∷ rs) = (1 ≤ r.0) × Timed rs

Healthy : DnsTunnel → ℕ → Type 0
Healthy t n = (t.consecutive_failures ≡ n) × ((5 ≤ n) ⊎ (1 ≤ t.last_succeeded))

round_trip-Healthy :
    (now : ℕ) (r : Response) (t : DnsTunnel) (n : ℕ)
    → 1 ≤ now
    → Healthy t n
    → Healthy (round_trip now r t) (if counts_as_failure r then suc n else 0)
unfolding Healthy round_trip record_failure mark_succeeded
round_trip-Healthy now failed t n p h = ground arith
round_trip-Healthy now (status code) t n p h = ground arith

after_trips-Healthy :
    (now : ℕ) (t : DnsTunnel) (rs : List (ℕ × Response))
    → 1 ≤ now
    → Timed rs
    → Healthy (after_trips (mark_succeeded now t) rs) (trailing_failures rs)
unfolding after_trips trailing_failures Timed Healthy mark_succeeded
after_trips-Healthy now t [] p h = (refl, inr p)
after_trips-Healthy now t (r ∷ rs) p h =
    round_trip-Healthy r.0 r.1 (after_trips (mark_succeeded now t) rs) (trailing_failures rs) h.0
      (after_trips-Healthy now t rs p h.1)

Healthy-succeeding : (t : DnsTunnel) (n : ℕ) → Healthy t n → is_succeeding t ≡ ltb n 5
unfolding Healthy is_succeeding
Healthy-succeeding t n (e, h) = ground arith

-- When a probe has marked a tunnel, at a time past the zero time as are those of its requests, then
-- after any requests it counts as working exactly when fewer than five requests failed since its
-- last success; an error and a response with status 502, 503 or 504 are failures, any other a
-- success.
pub after_trips-succeeding :
    (now : ℕ) (t : DnsTunnel) (rs : List (ℕ × Response))
    → 1 ≤ now
    → Timed rs
    → is_succeeding (after_trips (mark_succeeded now t) rs) ≡ ltb (trailing_failures rs) 5
after_trips-succeeding now t rs p h =
    Healthy-succeeding (after_trips (mark_succeeded now t) rs) (trailing_failures rs)
      (after_trips-Healthy now t rs p h)
