-- ===== src/Kindling/Tunnels/Cursor.antt =====
-- Which configurations the probe cycles of kindling/dnstt/parser.go test.
use radiance.Common.{
  ℕ, zero, suc, ◌+◌, ◌%◌, ◌≡◌, inl, inr, refl, sym, ◌∙◌, ap, subst, arith, Bool, true, false, List,
  [], ◌∷◌, ◌++◌, ◌||◌, ◌==◌, length, ltb, leb, Bool-cases, length-append,
}
use native.Mathlib.Nat.{suc-mod, mod-mod}
use radiance.Kindling.Tunnels.{
  is_succeeding, mark_succeeded, failed, status, Response, Transport, set_tunnel, close_tunnel,
  offer, end_probe,
}
use radiance.Kindling.Tunnels.Pool.{
  World, Event, begins, submits, ends, works, probed, draws, tries, trips, closes, drains, full,
  holds, begin_cycle, submit, end_cycle, start_worker, end_worker, draw_tunnel, put_back, try_drawn,
  mark_closed, drain, step, run, fresh,
}

-- So many turns round `configs` configurations, from the one at `start`.
unfoldable pub round_robin : ℕ → ℕ → ℕ → List ℕ
round_robin configs start zero = []
round_robin configs start (suc n) = start % configs ∷ round_robin configs (suc start) n

round_robin-append :
    (configs start n : ℕ)
    → round_robin configs start (suc n) ≡ round_robin configs start n ++ (start + n) % configs ∷ []
unfolding round_robin
round_robin-append configs start zero = ap (λ k. k % configs ∷ []) (omega arith)
round_robin-append configs start (suc n) = ap (◌∷◌ (start % configs)) (
    round_robin-append configs (suc start) n
    ∙ ap (λ k. round_robin configs (suc start) n ++ k % configs ∷ []) (omega arith))

-- At most one cycle runs, while the flag is set; where it is comes after all the turns taken.
abbrev pub Turning : ℕ → Bool → ℕ → ℕ → List ℕ → Type 0
Turning configs probing cursor total [] = (probing ≡ false) × (cursor % configs ≡ total % configs)
Turning configs probing cursor total (i ∷ []) =
    (probing ≡ true) × ((cursor + i) % configs ≡ total % configs)
Turning configs probing cursor total (i ∷ j ∷ is) = true ≡ false

abbrev pub InTurn : ℕ → World → Type 0
InTurn configs w =
    (w.tested ≡ round_robin configs 0 (length w.tested))
    × Turning configs w.transport.probing w.transport.probe_cursor (length w.tested) w.cycles

begun :
    (configs cursor total : ℕ) (is : List ℕ)
    → Turning configs false cursor total is
    → Turning configs true cursor total (0 ∷ is)
begun configs cursor total [] (e, f) = (refl, ap (λ k. k % configs) (omega arith) ∙ f)
begun configs cursor total (i ∷ []) (e, f) = absurd (ground arith)
begun configs cursor total (i ∷ j ∷ is) t = t

ended :
    (configs cursor total i : ℕ) (probing : Bool) (is : List ℕ)
    → Turning configs probing cursor total (i ∷ is)
    → Turning configs false ((cursor + i) % configs) total is
ended configs cursor total i probing [] (e, f) = (refl, mod-mod (cursor + i) configs ∙ f)
ended configs cursor total i probing (j ∷ is) t = absurd (ground arith)

next_turn :
    (configs cursor total i : ℕ)
    → (cursor + i) % configs ≡ total % configs
    → (cursor + suc i) % configs ≡ suc total % configs
next_turn configs cursor total i e =
    ap (λ k. k % configs) (omega arith)
    ∙ suc-mod (cursor + i) configs
    ∙ ap (λ k. suc k % configs) e
    ∙ sym (suc-mod total configs)

submitted_one :
    (configs cursor i : ℕ) (probing : Bool) (is tested : List ℕ)
    → tested ≡ round_robin configs 0 (length tested)
    → Turning configs probing cursor (length tested) (i ∷ is)
    → let tested1 = tested ++ (cursor + i) % configs ∷ [] in
      (tested1 ≡ round_robin configs 0 (length tested1))
      × Turning configs probing cursor (length tested1) (suc i ∷ is)
submitted_one configs cursor i probing [] tested e (f, g) =
    let n = length tested in
    let l : length (tested ++ (cursor + i) % configs ∷ []) ≡ suc n =
      length-append tested ((cursor + i) % configs ∷ []) ∙ omega arith in
    let turns : tested ++ (cursor + i) % configs ∷ [] ≡ round_robin configs 0 (suc n) =
      ap (λ c. tested ++ c ∷ []) g
      ∙ ap (λ t. t ++ n % configs ∷ []) e
      ∙ ap (λ k. round_robin configs 0 n ++ k % configs ∷ []) (omega arith)
      ∙ sym (round_robin-append configs 0 n) in
    let at : (cursor + suc i) % configs ≡ length (tested ++ (cursor + i) % configs ∷ []) % configs =
      next_turn configs cursor n i g ∙ ap (λ k. k % configs) (sym l) in
    (turns ∙ ap (round_robin configs 0) (sym l), (f, at))
submitted_one configs cursor i probing (j ∷ is) tested e t = absurd (ground arith)

-- The steps of workers, callers and Close are not about the cycles.
abbrev SameTransport : Transport → Transport → Type 0
SameTransport m m1 = (m1.probing ≡ m.probing) × (m1.probe_cursor ≡ m.probe_cursor)

abbrev Same : World → World → Type 0
Same w w1 = SameTransport w.transport w1.transport × (w1.tested ≡ w.tested) × (w1.cycles ≡ w.cycles)

Same-InTurn : (configs : ℕ) (w w1 : World) → Same w w1 → InTurn configs w → InTurn configs w1
Same-InTurn configs w w1 ((e1, e2), e3, e4) i = rw (e1, e2, e3, e4) i

offer-same : (id : ℕ) (m : Transport) → SameTransport m (offer id m).0
unfolding offer
offer-same id m = ground arith

end_probe-same :
    (now id : ℕ) (r : Response) (m : Transport) → SameTransport m (end_probe now r id m)
unfolding end_probe close_tunnel set_tunnel
end_probe-same now id failed m = (refl, refl)
end_probe-same now id (status code) m =
    let o = offer-same id (set_tunnel id (mark_succeeded now (m.tunnels id)) m) in
    elim (Bool-cases (ltb code 200 || leb 300 code)) [
      | inl t ↦ rw t (refl, refl)
      | inr t ↦ rw t (ground arith)
    ]

start_worker-Same : (made : Bool) (w : World) (cfgs : List ℕ) → Same w (start_worker made w cfgs)
start_worker-Same made w [] = ((refl, refl), refl, refl)
start_worker-Same made w (cfg ∷ cfgs) = ground arith

end_worker-Same :
    (now id : ℕ) (r : Response) (w : World) (b : Bool) → Same w (end_worker now r id w b)
end_worker-Same now id r w false = ((refl, refl), refl, refl)
end_worker-Same now id r w true = (end_probe-same now id r w.transport, refl, refl)

draw_tunnel-Same : (w : World) (ids : List ℕ) → Same w (draw_tunnel w ids)
draw_tunnel-Same w [] = ((refl, refl), refl, refl)
draw_tunnel-Same w (id ∷ ids) = ((refl, refl), refl, refl)

drain-Same : (w : World) (ids : List ℕ) → Same w (drain w ids)
unfolding close_tunnel
drain-Same w [] = ((refl, refl), refl, refl)
drain-Same w (id ∷ ids) = ((refl, refl), refl, refl)

put_back-Same : (id : ℕ) (w : World) → Same w (put_back id w (offer id w.transport))
put_back-Same id w = let o = offer-same id w.transport in ground arith

try_drawn-Same : (gives : Bool) (id : ℕ) (w : World) (b : Bool) → Same w (try_drawn gives id w b)
unfolding close_tunnel
try_drawn-Same gives id w false = ((refl, refl), refl, refl)
try_drawn-Same gives id w true = elim (Bool-cases (is_succeeding (w.transport.tunnels id))) [
  | inr t ↦ rw t ((refl, refl), refl, refl)
  | inl t ↦ rw t (elim (Bool-cases gives) [
    | inl g ↦ rw g (put_back-Same id w)
    | inr g ↦ rw g ((refl, refl), refl, refl)
  ])
]

begin_cycle-InTurn :
    (configs : ℕ) (w : World) → InTurn configs w → InTurn configs (begin_cycle configs w)
unfolding begin_cycle
begin_cycle-InTurn configs w (e, t) =
    let at = λ (b : Bool). Turning configs b w.transport.probe_cursor (length w.tested) w.cycles in
    elim (Bool-cases w.transport.probing) [
      | inl p ↦ rw p (e, subst at p t)
      | inr p ↦ elim (Bool-cases (configs == 0 || full w)) [
        | inl q ↦ rw (p, q) (e, subst at p t)
        | inr q ↦
            rw (p, q)
              (e, begun configs w.transport.probe_cursor (length w.tested) w.cycles (subst at p t))
      ]
    ]

submit-InTurn :
    (configs : ℕ) (w : World) (is : List ℕ)
    → w.cycles ≡ is
    → InTurn configs w
    → InTurn configs (submit configs w is)
submit-InTurn configs w [] c i = i
submit-InTurn configs w (i ∷ is) c (e, t) = elim (Bool-cases (leb configs i || full w)) [
  | inl p ↦ rw p (e, t)
  | inr p ↦ rw p (
      submitted_one configs w.transport.probe_cursor i w.transport.probing is w.tested e (
        subst (Turning configs w.transport.probing w.transport.probe_cursor (length w.tested)) c t))
]

end_cycle-InTurn :
    (configs : ℕ) (w : World) (is : List ℕ)
    → w.cycles ≡ is
    → InTurn configs w
    → InTurn configs (end_cycle configs w is)
end_cycle-InTurn configs w [] c i = i
end_cycle-InTurn configs w (i ∷ is) c (e, t) = elim (Bool-cases (leb configs i || full w)) [
  | inr p ↦ rw p (e, t)
  | inl p ↦ rw p (
    e,
    ended configs w.transport.probe_cursor (length w.tested) i w.transport.probing is (
        subst (Turning configs w.transport.probing w.transport.probe_cursor (length w.tested)) c t),
  )
]

step-InTurn :
    (configs : ℕ) (w : World) (e : Event) → InTurn configs w → InTurn configs (step configs w e)
unfolding step mark_closed set_tunnel
step-InTurn configs w begins i = begin_cycle-InTurn configs w i
step-InTurn configs w submits i = submit-InTurn configs w w.cycles refl i
step-InTurn configs w ends i = end_cycle-InTurn configs w w.cycles refl i
step-InTurn configs w (works made) i =
    Same-InTurn configs w (start_worker made w w.submitted) (start_worker-Same made w w.submitted) i
step-InTurn configs w (probed now r id) i =
    Same-InTurn configs w (end_worker now r id w (holds id w.probes))
      (end_worker-Same now id r w (holds id w.probes)) i
step-InTurn configs w draws i =
    Same-InTurn configs w (draw_tunnel w w.transport.tun_chan)
      (draw_tunnel-Same w w.transport.tun_chan) i
step-InTurn configs w (tries gives id) i =
    Same-InTurn configs w (try_drawn gives id w (holds id w.drawn))
      (try_drawn-Same gives id w (holds id w.drawn)) i
step-InTurn configs w (trips now r id) i = i
step-InTurn configs w closes i = i
step-InTurn configs w drains i =
    Same-InTurn configs w (drain w w.transport.tun_chan) (drain-Same w w.transport.tun_chan) i

run-from-InTurn :
    (configs : ℕ) (w : World) (es : List Event)
    → InTurn configs w
    → InTurn configs (run configs w es)
unfolding run
run-from-InTurn configs w [] i = i
run-from-InTurn configs w (e ∷ es) i =
    run-from-InTurn configs (step configs w e) es (step-InTurn configs w e i)

-- Whatever the order in which probe cycles, their workers, callers of NewRoundTripper and Close take
-- their steps: at most one cycle runs at a time, and exactly while the flag `probing` is set; and
-- over all the cycles together, the configurations are submitted to the workers in turn, round and
-- round from the first, wherever the cycles end.
pub run-InTurn : (configs : ℕ) (es : List Event) → InTurn configs (run configs fresh es)
unfolding round_robin
run-InTurn configs es = run-from-InTurn configs fresh es (refl, (refl, refl))
