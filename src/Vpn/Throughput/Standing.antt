-- ===== src/Vpn/Throughput/Standing.antt =====
-- How a connection of vpn/conntrack.go stands with the sampler of vpn/throughput_tracker.go, and what
-- each event makes of that.
use radiance.Common.{
  ℕ, suc, zero, ◌+◌, ◌≤◌, ◌≡◌, ◌≢◌, ◌⊎◌, inr, refl, sym, subst, arith, Bool, true, false, Option,
  none, some, List, [], ◌∷◌, if◌then◌else◌, ◌==◌, String, occurrences,
}
use radiance.Common.Int.{pos}
use radiance.Vpn.Throughput.{
  ByteTotals, no_bytes, add_bytes, Conn, ClosedDelta, without, or_zero, Leaving, not_yet,
  totals_read, handed_over, removed,
}
use radiance.Vpn.Throughput.Phases.{Walk, resting, walking, World, is_active}
use radiance.Vpn.Throughput.Account.{Direction, uplink, downlink, bytes, Account, account, own}

pub occurrences-without :
    (x j : ℕ) (ids : List ℕ)
    → occurrences x (without j ids) ≡ (if j == x then 0 else occurrences x ids)
unfolding without
occurrences-without x j [] = ground arith
occurrences-without x j (i ∷ ids) = ground (arith, occurrences-without x j ids)

pub is_active-occurrences : (x : ℕ) (ids : List ℕ) → occurrences x ids ≡ 1 → is_active x ids ≡ true
is_active-occurrences x [] h = ground arith
is_active-occurrences x (i ∷ ids) h = ground (arith, is_active-occurrences x ids)

pub not-active : (x : ℕ) (ids : List ℕ) → occurrences x ids ≡ 0 → is_active x ids ≡ false
not-active x [] h = refl
not-active x (i ∷ ids) h = ground (arith, not-active x ids)

-- The bytes that the account stands at: those of the last look at the connection.
abbrev pub baseline : Account → ByteTotals
baseline a = elim a.next [ none ↦ or_zero a.seen | some v ↦ v ]

-- How often the walk has still to look at a connection, if a sample is under way.
abbrev pub due_of : ℕ → Walk → Option ℕ
due_of x resting = none
due_of x (walking ids) = some (occurrences x ids)

-- So much from before and the baseline.
abbrev pub Even : Direction → ℕ → Account → ByteTotals → Type 0
Even d c a now =
    (a.credited ≡ pos (c + bytes d (baseline a))) × (bytes d (baseline a) ≤ bytes d now)

abbrev pub WalkOpen : Account → Option ℕ → Type 0
WalkOpen a none = a.next ≡ none
WalkOpen a (some zero) = (a.next ≢ none) ⊎ (a.seen ≡ none)
WalkOpen a (some (suc n)) = (a.next ≡ none) × (n ≡ 0)

abbrev pub AtRest : Account → Option ℕ → Type 0
AtRest a none = a.next ≡ none
AtRest a (some n) = Unit

abbrev NotDue : Option ℕ → Type 0
NotDue none = Unit
NotDue (some n) = n ≡ 0

-- A connection whose look is to come or was taken into account.
abbrev pub Open : Direction → ℕ → ByteTotals → ℕ → Account → Option ℕ → Type 0
Open d c now active a due = (active ≡ 1) × Even d c a now × WalkOpen a due

-- A close is taken: no baseline is kept, and the account is between the bytes that leave read and all
-- of them.
abbrev pub Taken : Direction → ByteTotals → ByteTotals → Account → Type 0
Taken d last now a =
    ((k : ℕ) × (a.credited ≡ pos k) × (bytes d last ≤ k) × (k ≤ bytes d now))
    × (a.next ≡ none)
    × (a.seen ≡ none)

-- A connection that is still in the map with its close taken: what the looks since give comes on top,
-- and there is none if it was not counted again.
abbrev pub Handed :
    Direction → Bool → ByteTotals → ByteTotals → ℕ → Account → List ClosedDelta → Option ℕ → Type 0
Handed d again last now active a pend due =
    (pend ≡ [])
    × ((c : ℕ) × (bytes d last ≤ c) × (c ≤ bytes d now) × Open d c now active a due)
    × ((again ≡ true) ⊎ (bytes d (baseline a) ≡ 0))

-- One that is removed with its close taken.
abbrev pub Settled :
    Direction → Bool → ByteTotals → ByteTotals → Account → List ClosedDelta → Type 0
Settled d again last now a pend =
    (pend ≡ [])
    × ((k : ℕ) × (a.credited ≡ pos k)
        × (bytes d last ≤ k)
        × (k ≤ bytes d now + bytes d now)
        × ((again ≡ true) ⊎ (k ≤ bytes d now)))

abbrev pub Waiting : ByteTotals → List ClosedDelta → Type 0
Waiting last pend = (p : ClosedDelta) × (pend ≡ p ∷ []) × (p.totals ≡ last)

-- A connection by how far it has left, whether it was counted again, what leave read and what it has
-- counted, how often it is in the map, its pending closes and the walk.
abbrev pub Standing :
    Direction
    → Bool
    → Leaving
    → ByteTotals
    → ByteTotals
    → ℕ
    → List ClosedDelta
    → Account
    → Option ℕ
    → Type 0
Standing d again not_yet last now active pend a due = (pend ≡ []) × Open d 0 now active a due
Standing d again totals_read last now active pend a due =
    (bytes d last ≤ bytes d now) × (pend ≡ []) × Open d 0 now active a due
Standing d again handed_over last now active pend a due =
    (bytes d last ≤ bytes d now)
    × ((Waiting last pend × Open d 0 now active a due) ⊎ Handed d again last now active a pend due)
Standing d again removed last now active pend a due =
    (bytes d last ≤ bytes d now)
    × (active ≡ 0)
    × ((Waiting last pend × Even d 0 a now × AtRest a due) ⊎ Settled d again last now a pend)

abbrev pub Inv : Direction → Bool → Option Conn → ℕ → List ClosedDelta → Account → Option ℕ → Type 0
Inv d again none active pend a due =
    (active ≡ 0)
    × NotDue due
    × (pend ≡ [])
    × (a.credited ≡ pos 0)
    × (a.next ≡ none)
    × (a.seen ≡ none)
Inv d again (some c) active pend a due =
    Standing d again c.leaving c.left_with c.totals active pend a due

abbrev pub Fine : Direction → Bool → ℕ → World → Type 0
Fine d again x w =
    Inv d again (w.tracker.records x) (occurrences x w.tracker.conns) (own x w.tracker.pending)
      (account d x w.sampler) (due_of x w.walk)

pub Inv-subst :
    (d : Direction) (b : Bool) (r r1 : Option Conn) (n n1 : ℕ) (p p1 : List ClosedDelta)
    (a a1 : Account) (u u1 : Option ℕ)
    → r ≡ r1
    → n ≡ n1
    → p ≡ p1
    → a ≡ a1
    → u ≡ u1
    → Inv d b r1 n1 p1 a1 u1
    → Inv d b r n p a u
Inv-subst d b r r1 n n1 p p1 a a1 u u1 er en ep ea eu i =
    subst (λ (z : Option Conn). Inv d b z n p a u) (sym er)
      (subst (λ (z : ℕ). Inv d b r1 z p a u) (sym en)
        (subst (λ (z : List ClosedDelta). Inv d b r1 n1 z a u) (sym ep)
          (subst (λ (z : Account). Inv d b r1 n1 p1 z u) (sym ea)
            (subst (λ (z : Option ℕ). Inv d b r1 n1 p1 a1 z) (sym eu) i))))

Even-zero :
    (d : Direction) (a : Account)
    → a.credited ≡ pos 0
    → a.next ≡ none
    → a.seen ≡ none
    → Even d 0 a no_bytes
Even-zero uplink a e f g = rw (f, g) (e, omega arith)
Even-zero downlink a e f g = rw (f, g) (e, omega arith)

pub add_bytes-le : (d : Direction) (a b : ByteTotals) → bytes d a ≤ bytes d (add_bytes a b)
add_bytes-le uplink a b = omega arith
add_bytes-le downlink a b = omega arith

-- What each event makes of the connection that it is about.
pub opened :
    (d : Direction) (b : Bool) (outbound : String) (n : ℕ) (p : List ClosedDelta) (a : Account)
    (u : Option ℕ)
    → Inv d b none n p a u
    → Inv d b
        (some (record {
          outbound = outbound;
          totals = no_bytes;
          leaving = not_yet;
          left_with = no_bytes;
        }))
        1
        p
        a
        u
opened d b outbound n p a none (e1, e2, e3, e4, e5, e6) = (e3, (refl, Even-zero d a e4 e5 e6, e5))
opened d b outbound n p a (some zero) (e1, e2, e3, e4, e5, e6) =
    (e3, (refl, Even-zero d a e4 e5 e6, inr e6))
opened d b outbound n p a (some (suc k)) (e1, e2, e3, e4, e5, e6) = absurd (ground arith)
