-- ===== src/Kindling/Tunnels/Places.antt =====
-- Where the tunnels of kindling/dnstt/parser.go are.
use radiance.Common.{
  ℕ, suc, ◌+◌, ◌≡◌, ◌≤◌, inl, inr, refl, ap, arith, Bool, true, false, List, [], ◌∷◌, ◌||◌,
  if◌then◌else◌, ◌==◌, length, ltb, leb, Bool-cases, occurrences, occurrences-append, length-append,
}
use radiance.Kindling.Tunnels.{
  Response, failed, status, Transport, set_tunnel, close_tunnel, offer, end_probe, keep_or_close,
  is_succeeding, mark_succeeded,
}
use radiance.Kindling.Tunnels.Pool.{
  World, Event, begins, submits, ends, works, probed, draws, tries, trips, closes, drains,
  remove_one, holds, begin_cycle, submit, end_cycle, start_worker, end_worker, draw_tunnel,
  put_back, try_drawn, mark_closed, drain, step, run, fresh,
}

-- How often a tunnel is with a worker, in the pool, drawn by a caller, closed, or lost.
abbrev pub places : ℕ → Transport → List ℕ → List ℕ → List ℕ → ℕ
places id m probes drawn lost =
    occurrences id probes
    + occurrences id m.tun_chan
    + occurrences id drawn
    + occurrences id m.closes
    + occurrences id lost

abbrev pub expected : ℕ → ℕ → ℕ
expected id opened = if ltb id opened then 1 else 0

-- An opened tunnel is in one place, once; the others are nowhere; the pool is within its bound.
abbrev pub Placed : ℕ → World → Type 0
Placed id w =
    (places id w.transport w.probes w.drawn w.lost ≡ expected id w.opened)
    × (length w.transport.tun_chan ≤ 5)

occurrences-remove_one :
    (x j : ℕ) (ids : List ℕ)
    → holds j ids ≡ true
    → occurrences x ids ≡ occurrences x (remove_one j ids) + (if j == x then 1 else 0)
unfolding remove_one
occurrences-remove_one x j [] h = absurd (ground arith)
occurrences-remove_one x j (i ∷ ids) h = ground (arith, occurrences-remove_one x j ids)

-- What an offer, and the end of a probe, add to the pool and to the closed.
offer-places :
    (x id : ℕ) (m : Transport) (probes drawn lost : List ℕ)
    → length m.tun_chan ≤ 5
    → let r = offer id m in
      (places x r.0 probes drawn lost
        ≡ places x m probes drawn lost + (if id == x then (if r.1 then 1 else 0) else 0))
      × (length r.0.tun_chan ≤ 5)
unfolding offer
offer-places x id m probes drawn lost h =
    ground (arith, occurrences-append x m.tun_chan id, length-append m.tun_chan (id ∷ []))

kept-places :
    (x id : ℕ) (m : Transport) (probes drawn lost : List ℕ)
    → length m.tun_chan ≤ 5
    → let m1 = keep_or_close id (offer id m) in
      (places x m1 probes drawn lost ≡ places x m probes drawn lost + (if id == x then 1 else 0))
      × (length m1.tun_chan ≤ 5)
unfolding close_tunnel
kept-places x id m probes drawn lost h = ground (arith, offer-places x id m probes drawn lost h)

end_probe-places :
    (now x id : ℕ) (r : Response) (m : Transport) (probes drawn lost : List ℕ)
    → length m.tun_chan ≤ 5
    → let m1 = end_probe now r id m in
      (places x m1 probes drawn lost ≡ places x m probes drawn lost + (if id == x then 1 else 0))
      × (length m1.tun_chan ≤ 5)
unfolding end_probe close_tunnel set_tunnel
end_probe-places now x id failed m probes drawn lost h = ground arith
end_probe-places now x id (status code) m probes drawn lost h =
    let m1 = set_tunnel id (mark_succeeded now (m.tunnels id)) m in
    elim (Bool-cases (ltb code 200 || leb 300 code)) [
      | inl t ↦ rw t (ground arith)
      | inr t ↦ rw t (kept-places x id m1 probes drawn lost h)
    ]

begin_cycle-Placed : (x configs : ℕ) (w : World) → Placed x w → Placed x (begin_cycle configs w)
unfolding begin_cycle
begin_cycle-Placed x configs w p = ground arith

submit-Placed :
    (x configs : ℕ) (w : World) (is : List ℕ) → Placed x w → Placed x (submit configs w is)
submit-Placed x configs w [] p = p
submit-Placed x configs w (i ∷ is) p = ground arith

end_cycle-Placed :
    (x configs : ℕ) (w : World) (is : List ℕ) → Placed x w → Placed x (end_cycle configs w is)
end_cycle-Placed x configs w [] p = p
end_cycle-Placed x configs w (i ∷ is) p = ground arith

start_worker-Placed :
    (x : ℕ) (made : Bool) (w : World) (cfgs : List ℕ)
    → Placed x w
    → Placed x (start_worker made w cfgs)
start_worker-Placed x made w [] p = p
start_worker-Placed x made w (cfg ∷ cfgs) p = ground arith

end_worker-Placed :
    (x now id : ℕ) (r : Response) (w : World) (b : Bool)
    → holds id w.probes ≡ b
    → Placed x w
    → Placed x (end_worker now r id w b)
end_worker-Placed x now id r w false e p = p
end_worker-Placed x now id r w true e p =
    let k = end_probe-places now x id r w.transport (remove_one id w.probes) w.drawn w.lost p.1 in
    (omega (arith, k.0, p.0, occurrences-remove_one x id w.probes e), k.1)

draw_tunnel-Placed :
    (x : ℕ) (w : World) (ids : List ℕ)
    → w.transport.tun_chan ≡ ids
    → Placed x w
    → Placed x (draw_tunnel w ids)
draw_tunnel-Placed x w [] e p = p
draw_tunnel-Placed x w (id ∷ ids) e p =
    let o : occurrences x w.transport.tun_chan ≡ occurrences x (id ∷ ids) = ap (occurrences x) e in
    let l : length w.transport.tun_chan ≡ suc (length ids) = ap length e in ground arith

drain-Placed :
    (x : ℕ) (w : World) (ids : List ℕ)
    → w.transport.tun_chan ≡ ids
    → Placed x w
    → Placed x (drain w ids)
unfolding close_tunnel
drain-Placed x w [] e p = p
drain-Placed x w (id ∷ ids) e p =
    let o : occurrences x w.transport.tun_chan ≡ occurrences x (id ∷ ids) = ap (occurrences x) e in
    let l : length w.transport.tun_chan ≡ suc (length ids) = ap length e in ground arith

put_back-Placed :
    (x id : ℕ) (w : World)
    → holds id w.drawn ≡ true
    → Placed x w
    → Placed x (put_back id w (offer id w.transport))
put_back-Placed x id w e p =
    let k = offer-places x id w.transport w.probes (remove_one id w.drawn) w.lost p.1 in
    let o = occurrences-remove_one x id w.drawn e in ground arith

try_drawn-Placed :
    (x id : ℕ) (gives : Bool) (w : World) (b : Bool)
    → holds id w.drawn ≡ b
    → Placed x w
    → Placed x (try_drawn gives id w b)
unfolding close_tunnel
try_drawn-Placed x id gives w false e p = p
try_drawn-Placed x id gives w true e p =
    let o = occurrences-remove_one x id w.drawn e in
    elim (Bool-cases (is_succeeding (w.transport.tunnels id))) [
      | inr t ↦ rw t (ground arith)
      | inl t ↦ rw t (elim (Bool-cases gives) [
        | inl g ↦ rw g (put_back-Placed x id w e p)
        | inr g ↦ rw g (ground arith)
      ])
    ]

step-Placed : (x configs : ℕ) (w : World) (e : Event) → Placed x w → Placed x (step configs w e)
unfolding step mark_closed set_tunnel
step-Placed x configs w begins p = begin_cycle-Placed x configs w p
step-Placed x configs w submits p = submit-Placed x configs w w.cycles p
step-Placed x configs w ends p = end_cycle-Placed x configs w w.cycles p
step-Placed x configs w (works made) p = start_worker-Placed x made w w.submitted p
step-Placed x configs w (probed now r id) p =
    end_worker-Placed x now id r w (holds id w.probes) refl p
step-Placed x configs w draws p = draw_tunnel-Placed x w w.transport.tun_chan refl p
step-Placed x configs w (tries gives id) p = try_drawn-Placed x id gives w (holds id w.drawn) refl p
step-Placed x configs w (trips now r id) p = p
step-Placed x configs w closes p = p
step-Placed x configs w drains p = drain-Placed x w w.transport.tun_chan refl p

run-from-Placed :
    (x configs : ℕ) (w : World) (es : List Event) → Placed x w → Placed x (run configs w es)
unfolding run
run-from-Placed x configs w [] p = p
run-from-Placed x configs w (e ∷ es) p =
    run-from-Placed x configs (step configs w e) es (step-Placed x configs w e p)

-- Whatever the order in which probe cycles, their workers, callers of NewRoundTripper and Close take
-- their steps, the pool never holds more than five tunnels, and each tunnel that was opened is in
-- exactly one place, once: with its worker, in the pool, drawn by one caller, closed, or let go
-- unclosed by a caller. So no tunnel is drawn by two callers at a time, closed twice, or in the pool
-- when it is closed.
pub run-Placed : (x configs : ℕ) (es : List Event) → Placed x (run configs fresh es)
run-Placed x configs es = run-from-Placed x configs fresh es (ground arith)
