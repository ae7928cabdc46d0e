-- ===== src/Config/Handler/Single.antt =====
-- The calls of fetchConfig of config/config.go in any interleaving: one fetch at a time, and a fetch
-- after every call.
use radiance.Common.{
  ◌≡◌, ◌⊎◌, inl, inr, refl, sym, subst, ◌∙◌, arith, Bool, true, false, not, ◌&&◌, List, [], ◌∷◌,
  if◌then◌else◌, Bool-cases,
}
use radiance.Config.Handler.{
  FetchState, Entry, skipped, closed, scheduled, fetches, enter, fetch_over,
}

-- A call of fetchConfig, with whether fetching is disabled and the handler closed; or the end of the
-- fetch in flight.
pub data Action : Type 0 where
  calls : Bool → Bool → Action
  ends : Action

-- A call that was accepted, and the start and the end of a doFetchConfig.
pub data Mark : Type 0 where
  called started ended : Mark

-- A state, and the marks so far, the last first.
pub record Traced : Type 0 where
  pub state : FetchState
  pub marks : List Mark

abbrev pub mark_entry : Entry → List Mark → List Mark
mark_entry skipped ms = ms
mark_entry closed ms = ms
mark_entry scheduled ms = called ∷ ms
mark_entry fetches ms = started ∷ called ∷ ms

abbrev pub mark_over : Bool → List Mark → List Mark
mark_over true ms = started ∷ ended ∷ ms
mark_over false ms = ended ∷ ms

unfoldable pub step : Traced → Action → Traced
step r (calls fetch_disabled is_closed) = record {
  state = (enter r.state fetch_disabled is_closed).0;
  marks = mark_entry (enter r.state fetch_disabled is_closed).1 r.marks;
}
step r ends =
    if r.state.fetching
    then record { state = (fetch_over r.state).0; marks = mark_over (fetch_over r.state).1 r.marks }
    else r

unfoldable pub run : Traced → List Action → Traced
run r [] = r
run r (a ∷ acts) = run (step r a) acts

abbrev pub idle : Traced
idle = record { state = record { fetching = false; pending = false }; marks = [] }

abbrev pub in_flight : List Mark → Bool
in_flight [] = false
in_flight (called ∷ ms) = in_flight ms
in_flight (started ∷ ms) = true
in_flight (ended ∷ ms) = false

-- No fetch starts before the one before it has ended, and none ends that has not started.
abbrev pub one_at_a_time : List Mark → Bool
one_at_a_time [] = true
one_at_a_time (called ∷ ms) = one_at_a_time ms
one_at_a_time (started ∷ ms) = not (in_flight ms) && one_at_a_time ms
one_at_a_time (ended ∷ ms) = in_flight ms && one_at_a_time ms

-- Every call is followed by the start of a fetch.
abbrev pub all_followed : List Mark → Bool
all_followed [] = true
all_followed (called ∷ ms) = false
all_followed (started ∷ ms) = true
all_followed (ended ∷ ms) = all_followed ms

record Fine (r : Traced) : Type 0 where
  flight : in_flight r.marks ≡ r.state.fetching
  single : one_at_a_time r.marks ≡ true
  followed : (all_followed r.marks ≡ true) ⊎ (r.state.pending ≡ true)
  waiting : (r.state.pending ≡ false) ⊎ (r.state.fetching ≡ true)

step-ends_idle : (r : Traced) → r.state.fetching ≡ false → step r ends ≡ r
unfolding step
step-ends_idle r t = ground arith

step-Fine : (r : Traced) (a : Action) → Fine r → Fine (step r a)
unfolding step enter fetch_over
step-Fine r (calls true is_closed) f = f
step-Fine r (calls false true) f = f
step-Fine r (calls false false) f = elim (Bool-cases r.state.fetching) [
  | inl t ↦
      rw t (record {
        flight = f.flight ∙ t;
        single = f.single;
        followed = inr refl;
        waiting = inr refl;
      })
  | inr t ↦ rw t (record {
    flight = refl;
    single = ground (arith, f.flight, t, f.single);
    followed = inl refl;
    waiting = inr refl;
  })
]
step-Fine r ends f = elim (Bool-cases r.state.fetching) [
  | inl t ↦ elim (Bool-cases r.state.pending) [
    | inl p ↦
        rw (t, p)
          (record {
            flight = refl;
            single = ground (arith, f.flight, t, f.single);
            followed = inl refl;
            waiting = inl refl;
          })
    | inr p ↦
        rw (t, p)
          (record {
            flight = refl;
            single = ground (arith, f.flight, t, f.single);
            followed = inl (ground (arith, f.followed, p));
            waiting = inl refl;
          })
  ]
  | inr t ↦ subst Fine (sym (step-ends_idle r t)) f
]

run-Fine : (r : Traced) (acts : List Action) → Fine r → Fine (run r acts)
unfolding run
run-Fine r [] f = f
run-Fine r (a ∷ acts) f = run-Fine (step r a) acts (step-Fine r a f)

idle-Fine : Fine idle
idle-Fine = record { flight = refl; single = refl; followed = inl refl; waiting = inl refl }

-- After two ends nothing is in flight and nothing is due.
ends-idle : (r : Traced) → ((step (step r ends) ends).state.fetching ≡ false)
unfolding step fetch_over
ends-idle r = ground arith

quiet-followed : (r : Traced) → Fine r → r.state.fetching ≡ false → all_followed r.marks ≡ true
quiet-followed r f e = ground (arith, f.followed, f.waiting)

-- Whatever calls and ends of fetches come in whatever order, there is one fetch at a time, and while
-- nothing is in flight every accepted call has been followed by the start of a fetch.
pub run-single :
    (acts : List Action)
    → (one_at_a_time (run idle acts).marks ≡ true)
      × (((run idle acts).state.fetching ≡ true) ⊎ (all_followed (run idle acts).marks ≡ true))
run-single acts =
    let f = run-Fine idle acts idle-Fine in
    (
      f.single,
      elim (Bool-cases (run idle acts).state.fetching) [
        | inl t ↦ inl t
        | inr t ↦ inr (quiet-followed (run idle acts) f t)
      ],
    )

-- Whatever calls and ends of fetches have come, once no more calls come, at most two ends of fetches
-- later nothing is in flight, and every accepted call has been followed by the start of a fetch.
pub run-settles :
    (acts : List Action)
    → let r = step (step (run idle acts) ends) ends in
      (r.state.fetching ≡ false) × (all_followed r.marks ≡ true)
run-settles acts =
    let f = run-Fine idle acts idle-Fine in
    let r = step (step (run idle acts) ends) ends in
    let quiet = ends-idle (run idle acts) in
    (quiet, quiet-followed r (step-Fine _ ends (step-Fine _ ends f)) quiet)
