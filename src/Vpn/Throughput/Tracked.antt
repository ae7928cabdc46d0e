-- ===== src/Vpn/Throughput/Tracked.antt =====
-- How the calls of vpn/conntrack.go keep a connection's standing with the sampler.
use radiance.Common.{
  ℕ, ◌≡◌, inl, inr, refl, sym, ap, ◌∙◌, subst, arith, Bool, Option, none, some, [], ◌∷◌, ◌++◌, ◌==◌,
  Bool-cases, String, occurrences, occurrences-append,
}
use radiance.Vpn.Throughput.{
  ByteTotals, no_bytes, Conn, ClosedDelta, Tracker, Leaving, not_yet, totals_read, handed_over,
  removed, without, join, count_bytes, close_record, close_once, hand_over_record, hand_over_read,
  remove_record, remove_handed,
}
use radiance.Vpn.Throughput.Phases.{counted, joined, closed, handed, left}
use radiance.Vpn.Throughput.Account.{Direction, Account, own, own-append_other, own-append_self}
use radiance.Vpn.Throughput.Standing.{occurrences-without, Standing, Inv, Inv-subst, opened}
use radiance.Vpn.Throughput.Moves.{grown, closing, handing, removing}

-- The tracker's part of the invariant, with an account and a walk that stay.
abbrev TrackerFine : Direction → Bool → ℕ → Tracker → Account → Option ℕ → Type 0
TrackerFine d b x t a u = Inv d b (t.records x) (occurrences x t.conns) (own x t.pending) a u

join-TrackerFine :
    (d : Direction) (b : Bool) (x j : ℕ) (outbound : String) (t : Tracker) (a : Account)
    (u : Option ℕ)
    → t.records j ≡ none
    → TrackerFine d b x t a u
    → TrackerFine d b x (join t j outbound) a u
unfolding join
join-TrackerFine d b x j outbound t a u new i = elim (Bool-cases (x == j)) [
  | inl e ↦
      let same : x ≡ j = ground arith in
      let i1 : Inv d b none (occurrences x t.conns) (own x t.pending) a u =
        subst (λ (r : Option Conn). Inv d b r (occurrences x t.conns) (own x t.pending) a u)
          (ap t.records same ∙ new) i in
      Inv-subst d b ((join t j outbound).records x)
        (some (record {
          outbound = outbound;
          totals = no_bytes;
          leaving = not_yet;
          left_with = no_bytes;
        }))
        (occurrences x (join t j outbound).conns) 1 (own x t.pending) (own x t.pending) a a u u
        (rw e refl)
        (ground
          (arith, occurrences-append x (without j t.conns) j, occurrences-without x j t.conns))
        refl refl refl (opened d b outbound (occurrences x t.conns) (own x t.pending) a u i1)
  | inr e ↦
      Inv-subst d b ((join t j outbound).records x) (t.records x)
        (occurrences x (join t j outbound).conns) (occurrences x t.conns) (own x t.pending)
        (own x t.pending) a a u u (rw e refl)
        (ground
          (arith, occurrences-append x (without j t.conns) j, occurrences-without x j t.conns))
        refl refl refl i
]

count-TrackerFine :
    (d : Direction) (b : Bool) (x j : ℕ) (t : Tracker) (c : Conn) (more : ByteTotals) (a : Account)
    (u : Option ℕ)
    → t.records j ≡ some c
    → TrackerFine d b x t a u
    → TrackerFine d b x (count_bytes t j c more) a u
unfolding count_bytes
count-TrackerFine d b x j t c more a u known i = elim (Bool-cases (x == j)) [
  | inl e ↦
      let same : x ≡ j = ground arith in
      let i1 : Inv d b (some c) (occurrences x t.conns) (own x t.pending) a u =
        subst (λ (r : Option Conn). Inv d b r (occurrences x t.conns) (own x t.pending) a u)
          (ap t.records same ∙ known) i in
      rw e (
        grown d b c.leaving c.left_with c.totals more (occurrences x t.conns) (own x t.pending) a u
          i1)
  | inr e ↦ rw e i
]

-- What is known of the connection that a step of leave is about, which stands at a stage.
at_stage :
    (d : Direction) (b : Bool) (x j : ℕ) (t : Tracker) (c : Conn) (stage : Leaving) (a : Account)
    (u : Option ℕ)
    → t.records j ≡ some c
    → c.leaving ≡ stage
    → j ≡ x
    → TrackerFine d b x t a u
    → Standing d b stage c.left_with c.totals (occurrences x t.conns) (own x t.pending) a u
at_stage d b x j t c stage a u known at same i =
    let i1 : Inv d b (some c) (occurrences x t.conns) (own x t.pending) a u =
      subst (λ (r : Option Conn). Inv d b r (occurrences x t.conns) (own x t.pending) a u)
        (sym (ap t.records same) ∙ known) i in
    subst
      (λ (g : Leaving).
        Standing d b g c.left_with c.totals (occurrences x t.conns) (own x t.pending) a u)
      at i1

close_once-TrackerFine :
    (d : Direction) (b : Bool) (x j : ℕ) (t : Tracker) (c : Conn) (stage : Leaving) (a : Account)
    (u : Option ℕ)
    → t.records j ≡ some c
    → c.leaving ≡ stage
    → TrackerFine d b x t a u
    → TrackerFine d b x (close_once t j c stage) a u
close_once-TrackerFine d b x j t c not_yet a u known at i = elim (Bool-cases (x == j)) [
  | inl e ↦
      let same : j ≡ x = ground arith in
      rw e (
        closing d b c.left_with c.totals (occurrences x t.conns) (own x t.pending) a u
          (at_stage d b x j t c not_yet a u known at same i))
  | inr e ↦ rw e i
]
close_once-TrackerFine d b x j t c totals_read a u known at i = i
close_once-TrackerFine d b x j t c handed_over a u known at i = i
close_once-TrackerFine d b x j t c removed a u known at i = i

hand_over_read-TrackerFine :
    (d : Direction) (b : Bool) (x j : ℕ) (t : Tracker) (c : Conn) (stage : Leaving) (a : Account)
    (u : Option ℕ)
    → t.records j ≡ some c
    → c.leaving ≡ stage
    → TrackerFine d b x t a u
    → TrackerFine d b x (hand_over_read t j c stage) a u
hand_over_read-TrackerFine d b x j t c totals_read a u known at i =
    let p : ClosedDelta = record { id = j; outbound = c.outbound; totals = c.left_with } in
    let t1 = hand_over_read t j c totals_read in
    elim (Bool-cases (x == j)) [
      | inl e ↦
          let same : j ≡ x = ground arith in
          Inv-subst d b (t1.records x) (some (record c { leaving = handed_over }))
            (occurrences x t.conns) (occurrences x t.conns) (own x t1.pending)
            (own x t.pending ++ p ∷ []) a a u u (rw e refl) refl
            (subst (λ (y : ℕ). own y (t.pending ++ p ∷ []) ≡ own y t.pending ++ p ∷ []) same
              (own-append_self t.pending p))
            refl refl
            (handing d b c.left_with c.totals (occurrences x t.conns) (own x t.pending) p a u refl
              (at_stage d b x j t c totals_read a u known at same i))
      | inr e ↦
          Inv-subst d b (t1.records x) (t.records x) (occurrences x t.conns) (occurrences x t.conns)
            (own x t1.pending) (own x t.pending) a a u u (rw e refl) refl
            (own-append_other x t.pending p (ground arith)) refl refl i
    ]
hand_over_read-TrackerFine d b x j t c not_yet a u known at i = i
hand_over_read-TrackerFine d b x j t c handed_over a u known at i = i
hand_over_read-TrackerFine d b x j t c removed a u known at i = i

remove_handed-TrackerFine :
    (d : Direction) (b : Bool) (x j : ℕ) (t : Tracker) (c : Conn) (stage : Leaving) (a : Account)
    (u : Option ℕ)
    → t.records j ≡ some c
    → c.leaving ≡ stage
    → TrackerFine d b x t a u
    → TrackerFine d b x (remove_handed t j c stage) a u
remove_handed-TrackerFine d b x j t c handed_over a u known at i =
    let t1 = remove_handed t j c handed_over in
    elim (Bool-cases (x == j)) [
      | inl e ↦
          let same : j ≡ x = ground arith in
          Inv-subst d b (t1.records x) (some (record c { leaving = removed }))
            (occurrences x t1.conns) 0 (own x t.pending) (own x t.pending) a a u u (rw e refl)
            (ground (arith, occurrences-without x j t.conns)) refl refl refl
            (removing d b c.left_with c.totals (occurrences x t.conns) (own x t.pending) a u
              (at_stage d b x j t c handed_over a u known at same i))
      | inr e ↦
          Inv-subst d b (t1.records x) (t.records x) (occurrences x t1.conns)
            (occurrences x t.conns) (own x t.pending) (own x t.pending) a a u u (rw e refl)
            (ground (arith, occurrences-without x j t.conns)) refl refl refl i
    ]
remove_handed-TrackerFine d b x j t c not_yet a u known at i = i
remove_handed-TrackerFine d b x j t c totals_read a u known at i = i
remove_handed-TrackerFine d b x j t c removed a u known at i = i

pub counted-TrackerFine :
    (d : Direction) (b : Bool) (x j : ℕ) (t : Tracker) (more : ByteTotals) (a : Account)
    (u : Option ℕ) (r : Option Conn)
    → t.records j ≡ r
    → TrackerFine d b x t a u
    → TrackerFine d b x (counted t j more r) a u
counted-TrackerFine d b x j t more a u none known i = i
counted-TrackerFine d b x j t more a u (some c) known i =
    count-TrackerFine d b x j t c more a u known i

pub joined-TrackerFine :
    (d : Direction) (b : Bool) (x j : ℕ) (t : Tracker) (outbound : String) (a : Account)
    (u : Option ℕ) (r : Option Conn)
    → t.records j ≡ r
    → TrackerFine d b x t a u
    → TrackerFine d b x (joined t j outbound r) a u
joined-TrackerFine d b x j t outbound a u none known i =
    join-TrackerFine d b x j outbound t a u known i
joined-TrackerFine d b x j t outbound a u (some c) known i = i

pub closed-TrackerFine :
    (d : Direction) (b : Bool) (x j : ℕ) (t : Tracker) (a : Account) (u : Option ℕ)
    (r : Option Conn)
    → t.records j ≡ r
    → TrackerFine d b x t a u
    → TrackerFine d b x (closed t j r) a u
unfolding close_record
closed-TrackerFine d b x j t a u none known i = i
closed-TrackerFine d b x j t a u (some c) known i =
    close_once-TrackerFine d b x j t c c.leaving a u known refl i

pub handed-TrackerFine :
    (d : Direction) (b : Bool) (x j : ℕ) (t : Tracker) (a : Account) (u : Option ℕ)
    (r : Option Conn)
    → t.records j ≡ r
    → TrackerFine d b x t a u
    → TrackerFine d b x (handed t j r) a u
unfolding hand_over_record
handed-TrackerFine d b x j t a u none known i = i
handed-TrackerFine d b x j t a u (some c) known i =
    hand_over_read-TrackerFine d b x j t c c.leaving a u known refl i

pub left-TrackerFine :
    (d : Direction) (b : Bool) (x j : ℕ) (t : Tracker) (a : Account) (u : Option ℕ)
    (r : Option Conn)
    → t.records j ≡ r
    → TrackerFine d b x t a u
    → TrackerFine d b x (left t j r) a u
unfolding remove_record
left-TrackerFine d b x j t a u none known i = i
left-TrackerFine d b x j t a u (some c) known i =
    remove_handed-TrackerFine d b x j t c c.leaving a u known refl i
