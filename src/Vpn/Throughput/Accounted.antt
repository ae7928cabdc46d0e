-- ===== src/Vpn/Throughput/Accounted.antt =====
-- The bytes of each connection through the samples of vpn/throughput_tracker.go.
use radiance.Common.{
  ℕ, suc, ◌+◌, ◌≤◌, ◌≡◌, ◌≢◌, ◌⊎◌, inl, inr, refl, sym, ap, subst, arith, Bool, true, false, Option,
  none, some, List, [], ◌∷◌, ◌==◌, ◌&&◌, ◌||◌, Bool-cases, ltb, occurrences,
}
use radiance.Common.Int.{ℤ, pos}
use radiance.Vpn.Throughput.{
  ByteTotals, Conn, ClosedDelta, Leaving, not_yet, totals_read, handed_over, removed,
}
use radiance.Vpn.Throughput.Phases.{
  Walk, resting, walking, World, Event, joins, counts, closes, hands_over, removes, starts, visits,
  drains, is_active, visited, start_sample, finish_sample, started, visited_next, drained, step,
  run, fresh,
}
use radiance.Vpn.Throughput.Account.{Direction, bytes, credit, Account, account, own, own-nil}
use radiance.Vpn.Throughput.Standing.{baseline, due_of, Standing, Inv, Fine, Even, Waiting}
use radiance.Vpn.Throughput.Moves.{starting}
use radiance.Vpn.Throughput.Tracked.{
  counted-TrackerFine, joined-TrackerFine, closed-TrackerFine, handed-TrackerFine, left-TrackerFine,
}
use radiance.Vpn.Throughput.Walked.{Inv-walk_other, account-visited_other, taken_of, visited_self}
use radiance.Vpn.Throughput.Drained.{drained-Inv}

started-Fine :
    (d : Direction) (b : Bool) (x : ℕ) (w : World) (now : ℕ) (k : Walk)
    → w.walk ≡ k
    → Fine d b x w
    → Fine d b x (started w now k)
unfolding start_sample
started-Fine d b x w now (walking ids) e f = f
started-Fine d b x w now resting e f = elim (Bool-cases (ltb w.sampler.last_tick_at now)) [
  | inl t ↦ rw t (
      starting d b (w.tracker.records x) (occurrences x w.tracker.conns) (own x w.tracker.pending)
        (account d x w.sampler)
        (subst
          (λ (z : Walk).
            Inv d b (w.tracker.records x) (occurrences x w.tracker.conns) (own x w.tracker.pending)
              (account d x w.sampler) (due_of x z))
          e f))
  | inr t ↦ rw t f
]

-- A sample looks at x when it is still in the map but its close was taken before.
abbrev pub looks_at : ℕ → Walk → Bool
looks_at x resting = false
looks_at x (walking []) = false
looks_at x (walking (j ∷ ids)) = j == x

abbrev pub counts_again : ℕ → World → Event → Bool
counts_again x w visits =
    looks_at x w.walk && taken_of (w.tracker.records x) (own x w.tracker.pending)
counts_again x w _ = false

-- Whether it was before, or is in the run.
unfoldable pub counted_again : ℕ → Bool → World → List Event → Bool
counted_again x before w [] = before
counted_again x before w (e ∷ es) = counted_again x (counts_again x w e || before) (step w e) es

visited_next-Fine :
    (d : Direction) (b : Bool) (x : ℕ) (w : World) (k : Walk)
    → w.walk ≡ k
    → Fine d b x w
    → Fine d
        (looks_at x k && taken_of (w.tracker.records x) (own x w.tracker.pending) || b)
        x
        (visited_next w k)
visited_next-Fine d b x w resting e f = f
visited_next-Fine d b x w (walking []) e f = f
visited_next-Fine d b x w (walking (j ∷ ids)) e f =
    let t = w.tracker in
    let f1 : Inv d b (w.tracker.records x) (occurrences x w.tracker.conns) (own x w.tracker.pending)
        (account d x w.sampler) (some (occurrences x (j ∷ ids))) =
      subst
        (λ (z : Walk).
          Inv d b (w.tracker.records x) (occurrences x w.tracker.conns) (own x w.tracker.pending)
            (account d x w.sampler) (due_of x z))
        e f in
    elim (Bool-cases (j == x)) [
      | inl q ↦
          let same : j ≡ x = ground arith in
          let f2 : Inv d b (t.records x) (occurrences x t.conns) (own x t.pending)
              (account d x w.sampler) (some (suc (occurrences x ids))) =
            subst
              (λ (m : ℕ).
                Inv d b (t.records x) (occurrences x t.conns) (own x t.pending)
                  (account d x w.sampler) (some m))
              (ground arith) f1 in
          let flag : (j == x) && taken_of (t.records x) (own x t.pending) || b
              ≡ taken_of (t.records x) (own x t.pending) || b =
            ap (λ g. g && taken_of (t.records x) (own x t.pending) || b) q in
          subst
            (λ (g : Bool).
              Inv d g (t.records x) (occurrences x t.conns) (own x t.pending)
                (account d x (visited w.sampler j (is_active j t.conns) (t.records j)))
                (some (occurrences x ids)))
            (sym flag)
            (subst
              (λ (y : ℕ).
                Inv d (taken_of (t.records x) (own x t.pending) || b) (t.records x)
                  (occurrences x t.conns) (own x t.pending)
                  (account d x (visited w.sampler y (is_active y t.conns) (t.records y)))
                  (some (occurrences x ids)))
              (sym same)
              (visited_self d b x ids w.sampler t.conns (t.records x) (own x t.pending) f2))
      | inr q ↦
          let flag : (j == x) && taken_of (t.records x) (own x t.pending) || b ≡ b =
            ap (λ g. g && taken_of (t.records x) (own x t.pending) || b) q in
          subst
            (λ (g : Bool).
              Inv d g (t.records x) (occurrences x t.conns) (own x t.pending)
                (account d x (visited w.sampler j (is_active j t.conns) (t.records j)))
                (some (occurrences x ids)))
            (sym flag)
            (subst
              (λ (a : Account).
                Inv d b (t.records x) (occurrences x t.conns) (own x t.pending) a
                  (some (occurrences x ids)))
              (sym (
                account-visited_other d x j w.sampler (is_active j t.conns) (t.records j)
                  (ground arith)))
              (Inv-walk_other d b x j ids (t.records x) (occurrences x t.conns) (own x t.pending)
                (account d x w.sampler) (ground arith) f1))
    ]

drained-Fine :
    (d : Direction) (b : Bool) (x : ℕ) (w : World) (k : Walk)
    → w.walk ≡ k
    → Fine d b x w
    → Fine d b x (drained w k)
drained-Fine d b x w resting e f = f
drained-Fine d b x w (walking (j ∷ ids)) e f = f
drained-Fine d b x w (walking []) e f =
    let t = w.tracker in
    let f1 : Inv d b (t.records x) (occurrences x t.conns) (own x t.pending) (account d x w.sampler)
        (some 0) =
      subst
        (λ (z : Walk).
          Inv d b (t.records x) (occurrences x t.conns) (own x t.pending) (account d x w.sampler)
            (due_of x z))
        e f in
    subst
      (λ (l : List ClosedDelta).
        Inv d b (t.records x) (occurrences x t.conns) l
          (account d x (finish_sample w.sampler t.pending t.total)) none)
      (sym (own-nil x))
      (drained-Inv d b x w.sampler t.pending t.total (occurrences x t.conns) (t.records x) f1)

step-Fine :
    (d : Direction) (b : Bool) (x : ℕ) (w : World) (e : Event)
    → Fine d b x w
    → Fine d (counts_again x w e || b) x (step w e)
unfolding step
step-Fine d b x w (joins j outbound) f =
    joined-TrackerFine d b x j w.tracker outbound (account d x w.sampler) (due_of x w.walk)
      (w.tracker.records j) refl f
step-Fine d b x w (counts j n) f =
    counted-TrackerFine d b x j w.tracker n (account d x w.sampler) (due_of x w.walk)
      (w.tracker.records j) refl f
step-Fine d b x w (closes j) f =
    closed-TrackerFine d b x j w.tracker (account d x w.sampler) (due_of x w.walk)
      (w.tracker.records j) refl f
step-Fine d b x w (hands_over j) f =
    handed-TrackerFine d b x j w.tracker (account d x w.sampler) (due_of x w.walk)
      (w.tracker.records j) refl f
step-Fine d b x w (removes j) f =
    left-TrackerFine d b x j w.tracker (account d x w.sampler) (due_of x w.walk)
      (w.tracker.records j) refl f
step-Fine d b x w (starts now) f = started-Fine d b x w now w.walk refl f
step-Fine d b x w visits f = visited_next-Fine d b x w w.walk refl f
step-Fine d b x w drains f = drained-Fine d b x w w.walk refl f

run-Fine :
    (d : Direction) (b : Bool) (x : ℕ) (w : World) (es : List Event)
    → Fine d b x w
    → Fine d (counted_again x b w es) x (run w es)
unfolding run counted_again
run-Fine d b x w [] f = f
run-Fine d b x w (e ∷ es) f =
    run-Fine d (counts_again x w e || b) x (step w e) es (step-Fine d b x w e f)

fresh-Fine : (d : Direction) (x : ℕ) → Fine d false x fresh
unfolding credit
fresh-Fine d x = (refl, tt, own-nil x, refl, refl, refl)

-- What the samples have handed out on the account of a connection.
abbrev pub credited : Direction → ℕ → World → ℤ
credited d x w = credit d x w.sampler.log

-- Once the close is handed over and no longer pends, the bytes that leave read are accounted for.
abbrev pub Enough : Direction → Leaving → ByteTotals → List ClosedDelta → ℕ → Type 0
Enough d not_yet last pend n = Unit
Enough d totals_read last pend n = Unit
Enough d handed_over last pend n = (pend ≢ []) ⊎ (bytes d last ≤ n)
Enough d removed last pend n = (pend ≢ []) ⊎ (bytes d last ≤ n)

-- A connection that never came has nothing on its account; another at most the bytes it has counted,
-- or twice as many if it was counted again.
abbrev pub AtMost : Direction → Bool → ByteTotals → ℕ → Type 0
AtMost d again totals n =
    (n ≤ bytes d totals) ⊎ ((again ≡ true) × (n ≤ bytes d totals + bytes d totals))

abbrev pub Accounted : Direction → Bool → ℤ → List ClosedDelta → Option Conn → Type 0
Accounted d again sum pend none = sum ≡ pos 0
Accounted d again sum pend (some c) =
    (n : ℕ) × (sum ≡ pos n) × AtMost d again c.totals n × Enough d c.leaving c.left_with pend n

Waiting-pending : (last : ByteTotals) (p : List ClosedDelta) → Waiting last p → p ≢ []
Waiting-pending last p (q, e, t) none_left = ground arith

Even-AtMost :
    (d : Direction) (b : Bool) (now : ByteTotals) (a : Account)
    → Even d 0 a now
    → (k : ℕ) × (a.credited ≡ pos k) × AtMost d b now k
Even-AtMost d b now a (e, le) = (0 + bytes d (baseline a), e, inl (omega arith))

or-AtMost :
    (d : Direction) (b : Bool) (now : ByteTotals) (k : ℕ)
    → k ≤ bytes d now + bytes d now
    → (b ≡ true) ⊎ (k ≤ bytes d now)
    → AtMost d b now k
or-AtMost d b now k le (inl t) = inr (t, le)
or-AtMost d b now k le (inr m) = inl m

Standing-Accounted :
    (d : Direction) (b : Bool) (stage : Leaving) (last now : ByteTotals) (n : ℕ)
    (p : List ClosedDelta) (a : Account) (u : Option ℕ)
    → Standing d b stage last now n p a u
    → (k : ℕ) × (a.credited ≡ pos k) × AtMost d b now k × Enough d stage last p k
Standing-Accounted d b not_yet last now n p a u (e, (e1, e2, e3)) =
    let (k, c, m) = Even-AtMost d b now a e2 in (k, c, m, tt)
Standing-Accounted d b totals_read last now n p a u (less, e, (e1, e2, e3)) =
    let (k, c, m) = Even-AtMost d b now a e2 in (k, c, m, tt)
Standing-Accounted d b handed_over last now n p a u (less, inl (w, (e1, e2, e3))) =
    let (k, c, m) = Even-AtMost d b now a e2 in (k, c, m, inl (Waiting-pending last p w))
Standing-Accounted d b handed_over last now n p a u
      (less, inr (e, (c, l, m, (e1, (e2, le), e3)), f)) =
    (
      c + bytes d (baseline a),
      e2,
      or-AtMost d b now (c + bytes d (baseline a)) (omega arith)
          (elim f [ inl t ↦ inl t | inr z ↦ inr (omega arith) ]),
      inr (omega arith),
    )
Standing-Accounted d b removed last now n p a u (less, e1, inl (w, e2, e3)) =
    let (k, c, m) = Even-AtMost d b now a e2 in (k, c, m, inl (Waiting-pending last p w))
Standing-Accounted d b removed last now n p a u (less, e1, inr (e, (k, c, l, m, f))) =
    (k, c, or-AtMost d b now k m f, inr l)

Inv-Accounted :
    (d : Direction) (b : Bool) (r : Option Conn) (n : ℕ) (p : List ClosedDelta) (a : Account)
    (u : Option ℕ)
    → Inv d b r n p a u
    → Accounted d b a.credited p r
Inv-Accounted d b none n p a u (e1, e2, e3, e4, e5, e6) = e4
Inv-Accounted d b (some c) n p a u i =
    Standing-Accounted d b c.leaving c.left_with c.totals n p a u i

-- Whatever the order in which connections come, count bytes and leave, each leave in its three steps,
-- and samples start, look at the connections one after another and take the pending closes, what all
-- the samples have handed out on the account of a connection is, in each direction: 0 when the
-- connection never came; once leave has handed its close over and that is no longer pending, not less
-- than the bytes that leave read; and never more than the bytes that it has counted, unless a sample
-- looked at it after its close was taken and before it was removed, and then not more than twice
-- these.
pub run-Accounted :
    (d : Direction) (x : ℕ) (es : List Event)
    → let w = run fresh es in
      Accounted d
        (counted_again x false fresh es)
        (credited d x w)
        (own x w.tracker.pending)
        (w.tracker.records x)
run-Accounted d x es =
    let w = run fresh es in
    Inv-Accounted d (counted_again x false fresh es) (w.tracker.records x)
      (occurrences x w.tracker.conns) (own x w.tracker.pending) (account d x w.sampler)
      (due_of x w.walk) (run-Fine d false x fresh es (fresh-Fine d x))
