-- ===== src/Vpn/Throughput/Drained.antt =====
-- What the end of a sample of vpn/throughput_tracker.go makes of a connection.
use radiance.Common.{
  ℕ, ◌≤◌, ◌≡◌, inl, inr, refl, sym, ap, subst, Bool, Option, none, some, List, [], ◌∷◌,
}
use radiance.Vpn.Throughput.{
  ByteTotals, Conn, ClosedDelta, Sampler, Leaving, not_yet, totals_read, handed_over, removed,
}
use radiance.Vpn.Throughput.Phases.{finish_sample}
use radiance.Vpn.Throughput.Account.{
  Direction, bytes, Account, account, after_closed, own, account-closed_none, account-closed_one,
}
use radiance.Vpn.Throughput.Standing.{Standing, Inv, Open, Even, Settled, Waiting, Taken, Handed}
use radiance.Vpn.Throughput.Moves.{
  rotate, draining, taking, Handed-rotate, Taken-Handed, Taken-Settled,
}

-- The closes are taken and the maps swap.
drained_open :
    (d : Direction) (x : ℕ) (s : Sampler) (cs : List ClosedDelta) (total : ByteTotals)
    → own x cs ≡ []
    → account d x (finish_sample s cs total) ≡ rotate (account d x s)
unfolding finish_sample
drained_open d x s cs total h = ap rotate (account-closed_none d x s cs h)

drained_waiting :
    (d : Direction) (x : ℕ) (s : Sampler) (cs : List ClosedDelta) (total : ByteTotals)
    (p : ClosedDelta)
    → own x cs ≡ p ∷ []
    → account d x (finish_sample s cs total)
      ≡ rotate (after_closed d (s.next_seen x) (account d x s) p.totals)
unfolding finish_sample
drained_waiting d x s cs total p h = ap rotate (account-closed_one d x s cs p h)

finish_sample-Open :
    (d : Direction) (x : ℕ) (s : Sampler) (cs : List ClosedDelta) (total : ByteTotals) (n : ℕ)
    (now : ByteTotals)
    → own x cs ≡ []
    → Open d 0 now n (account d x s) (some 0)
    → Open d 0 now n (account d x (finish_sample s cs total)) none
finish_sample-Open d x s cs total n now e o =
    subst (λ (a : Account). Open d 0 now n a none) (sym (drained_open d x s cs total e))
      (draining d 0 now n (account d x s) o)

finish_sample-Handed :
    (d : Direction) (b : Bool) (x : ℕ) (s : Sampler) (cs : List ClosedDelta) (total : ByteTotals)
    (n : ℕ) (last now : ByteTotals)
    → Handed d b last now n (account d x s) (own x cs) (some 0)
    → Handed d b last now n (account d x (finish_sample s cs total)) [] none
finish_sample-Handed d b x s cs total n last now k =
    subst (λ (a : Account). Handed d b last now n a [] none) (sym (drained_open d x s cs total k.0))
      (Handed-rotate d b last now n (account d x s) (own x cs) k)

finish_sample-Settled :
    (d : Direction) (b : Bool) (x : ℕ) (s : Sampler) (cs : List ClosedDelta)
    (total last now : ByteTotals)
    → Settled d b last now (account d x s) (own x cs)
    → Settled d b last now (account d x (finish_sample s cs total)) []
finish_sample-Settled d b x s cs total last now (e, k) =
    subst (λ (a : Account). Settled d b last now a []) (sym (drained_open d x s cs total e))
      (refl, k)

finish_sample-Taken :
    (d : Direction) (x : ℕ) (s : Sampler) (cs : List ClosedDelta) (total last now : ByteTotals)
    → bytes d last ≤ bytes d now
    → Waiting last (own x cs)
    → Even d 0 (account d x s) now
    → Taken d last now (account d x (finish_sample s cs total))
finish_sample-Taken d x s cs total last now le (p, q, t) e =
    subst (λ (a : Account). Taken d last now a) (sym (drained_waiting d x s cs total p q))
      (taking d (s.next_seen x) last now p (account d x s) refl t le e)

drained_by :
    (d : Direction) (b : Bool) (x : ℕ) (s : Sampler) (cs : List ClosedDelta) (total : ByteTotals)
    (n : ℕ) (stage : Leaving) (last now : ByteTotals)
    → Standing d b stage last now n (own x cs) (account d x s) (some 0)
    → Standing d b stage last now n [] (account d x (finish_sample s cs total)) none
drained_by d b x s cs total n not_yet last now (e, o) =
    (refl, finish_sample-Open d x s cs total n now e o)
drained_by d b x s cs total n totals_read last now (le, e, o) =
    (le, refl, finish_sample-Open d x s cs total n now e o)
drained_by d b x s cs total n handed_over last now (le, inl (w, o)) =
    let k = finish_sample-Taken d x s cs total last now le w o.1 in
    (le, inr (Taken-Handed d b last now n (account d x (finish_sample s cs total)) o.0 k))
drained_by d b x s cs total n handed_over last now (le, inr k) =
    (le, inr (finish_sample-Handed d b x s cs total n last now k))
drained_by d b x s cs total n removed last now (le, e1, inl (w, e2, e3)) =
    let k = finish_sample-Taken d x s cs total last now le w e2 in
    (le, e1, inr (Taken-Settled d b last now (account d x (finish_sample s cs total)) k))
drained_by d b x s cs total n removed last now (le, e1, inr k) =
    (le, e1, inr (finish_sample-Settled d b x s cs total last now k))

pub drained-Inv :
    (d : Direction) (b : Bool) (x : ℕ) (s : Sampler) (cs : List ClosedDelta) (total : ByteTotals)
    (n : ℕ) (r : Option Conn)
    → Inv d b r n (own x cs) (account d x s) (some 0)
    → Inv d b r n [] (account d x (finish_sample s cs total)) none
drained-Inv d b x s cs total n none (e1, e2, e3, e4, e5, e6) =
    subst (λ (a : Account). Inv d b none n [] a none) (sym (drained_open d x s cs total e3))
      (e1, tt, refl, e4, refl, e5)
drained-Inv d b x s cs total n (some c) i =
    drained_by d b x s cs total n c.leaving c.left_with c.totals i
