-- ===== src/Kindling/Tunnels/Calls.antt =====
-- What NewRoundTripper of kindling/dnstt/parser.go answers while no other goroutine acts.
use radiance.Common.{
  ℕ, zero, suc, ◌≡◌, ◌≤◌, ◌≢◌, refl, arith, Bool, true, false, List, [], ◌∷◌, ◌++◌, if◌then◌else◌,
  length,
}
use radiance.Kindling.Tunnels.{
  DnsTunnel, is_succeeding, Transport, close_tunnel, offer, try_tunnel, Pick, context_done,
  told_to_stop, draws, Answer, gave, cancelled, stopped_already, no_working, waits, answer_or, draw,
  new_round_tripper,
}

-- The tunnel that is handed out works, and is the last in the pool.
abbrev pub Handed : (ℕ → DnsTunnel) → List ℕ → Answer → Type 0
Handed tunnels ids (gave id) =
    (is_succeeding (tunnels id) ≡ true) × ((before : List ℕ) × (ids ≡ before ++ id ∷ []))
Handed tunnels ids cancelled = Unit
Handed tunnels ids stopped_already = Unit
Handed tunnels ids no_working = Unit
Handed tunnels ids waits = Unit

abbrev pub Answered : Transport → Transport × Answer → Type 0
Answered m r = (r.1 ≢ no_working) × (r.0.probe_ch ≡ m.probe_ch) × Handed m.tunnels r.0.tun_chan r.1

offered :
    (m : Transport) (id : ℕ)
    → length m.tun_chan ≤ 4
    → (offer id m).0.tun_chan ≡ m.tun_chan ++ id ∷ []
unfolding offer
offered m id h = ground arith

offered-probe_ch : (m : Transport) (id : ℕ) → (offer id m).0.probe_ch ≡ m.probe_ch
unfolding offer
offered-probe_ch m id = ground arith

-- A tunnel is drawn, and the other rounds go as `continue` does with one tunnel fewer.
drawn-Answered :
    (continue : Transport → Transport × Answer) (gives works : Bool) (id : ℕ) (ids : List ℕ)
    (m : Transport)
    → is_succeeding (m.tunnels id) ≡ works
    → length ids ≤ 4
    → ((m1 : Transport)
        → m1.tun_chan ≡ ids
        → m1.tunnels ≡ m.tunnels
        → m1.probe_ch ≡ m.probe_ch
        → Answered m1 (continue m1))
    → Answered m (answer_or continue (try_tunnel gives id (record m { tun_chan = ids })))
unfolding try_tunnel close_tunnel
drawn-Answered continue gives false id ids m e h next =
    rw e (next (close_tunnel id (record m { tun_chan = ids })) refl refl refl)
drawn-Answered continue true true id ids m e h next =
    let base = record m { tun_chan = ids } in
    rw e ((λ q. absurd (ground arith)), offered-probe_ch base id, (e, (ids, offered base id h)))
drawn-Answered continue false true id ids m e h next =
    rw e (next (record m { tun_chan = ids }) refl refl refl)

draw-Answered :
    (continue : Transport → Transport × Answer) (gives : Bool) (ids : List ℕ) (m : Transport)
    → length ids ≤ 5
    → ((m1 : Transport)
        → suc (length m1.tun_chan) ≤ length ids
        → m1.tunnels ≡ m.tunnels
        → m1.probe_ch ≡ m.probe_ch
        → Answered m1 (continue m1))
    → Answered m (draw continue gives ids m)
draw-Answered continue gives [] m h next = ((λ q. absurd (ground arith)), refl, tt)
draw-Answered continue gives (id ∷ ids) m h next =
    drawn-Answered continue gives (is_succeeding (m.tunnels id)) id ids m refl (omega arith)
      (λ m1 e f g. next m1 (rw e (omega arith)) f g)

told-Answered : (m : Transport) (b : Bool) → Answered m (m, if b then stopped_already else waits)
told-Answered m true = ((λ q. absurd (ground arith)), refl, tt)
told-Answered m false = ((λ q. absurd (ground arith)), refl, tt)

rounds-Answered :
    (n : ℕ) (picks : List Pick) (m : Transport)
    → suc (length m.tun_chan) ≤ n
    → length m.tun_chan ≤ 5
    → Answered m (new_round_tripper n picks m)
unfolding new_round_tripper
rounds-Answered zero picks m h k = absurd (omega arith)
rounds-Answered (suc n) [] m h k = ((λ q. absurd (ground arith)), refl, tt)
rounds-Answered (suc n) (context_done ∷ picks) m h k = ((λ q. absurd (ground arith)), refl, tt)
rounds-Answered (suc n) (told_to_stop ∷ picks) m h k = told-Answered m m.stopped
rounds-Answered (suc n) (draws gives ∷ picks) m h k =
    draw-Answered (new_round_tripper n picks) gives m.tun_chan m k
      (λ m1 less f g. rounds-Answered n picks m1 (omega arith) (omega arith))

-- From a pool of at most five tunnels, whatever the select of NewRoundTripper takes in its six rounds
-- while no other goroutine acts: the call does not come to its last lines, so it neither answers
-- that no tunnel works nor asks for a probe; and where it hands out a tunnel, the tunnel counts as
-- working and is the last in the pool.
pub new_round_tripper-Answered :
    (picks : List Pick) (m : Transport)
    → length m.tun_chan ≤ 5
    → Answered m (new_round_tripper 6 picks m)
new_round_tripper-Answered picks m h = rounds-Answered 6 picks m (omega arith) h
