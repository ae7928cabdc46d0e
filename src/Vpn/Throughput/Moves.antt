-- ===== src/Vpn/Throughput/Moves.antt =====
-- What bytes, the steps of leave and the parts of a sample make of a connection's standing.
use radiance.Common.{
  ℕ, suc, zero, ◌+◌, ◌-◌, ◌≤◌, ◌≡◌, ◌≢◌, ◌⊎◌, inl, inr, refl, sym, ap, ◌∙◌, subst, arith, Bool,
  true, Option, none, some, List, [], ◌∷◌, ◌++◌, Option-cases,
}
use radiance.Common.Int.{ℤ, pos, ◌+ℤ◌, ◌-ℤ◌, max_ℤ}
use radiance.Vpn.Throughput.{
  ByteTotals, no_bytes, add_bytes, Conn, ClosedDelta, or_zero, Leaving, not_yet, totals_read,
  handed_over, removed,
}
use radiance.Vpn.Throughput.Account.{
  Direction, uplink, downlink, bytes, Account, after_visit, after_closed,
}
use radiance.Vpn.Throughput.Standing.{
  baseline, Even, WalkOpen, AtRest, Open, Taken, Handed, Settled, Standing, Inv, add_bytes-le,
}

Even-grown :
    (d : Direction) (c : ℕ) (now more : ByteTotals) (a : Account)
    → Even d c a now
    → Even d c a (add_bytes now more)
Even-grown d c now more a (e, le) = (e, omega (arith, add_bytes-le d now more))

Open-grown :
    (d : Direction) (c : ℕ) (now more : ByteTotals) (n : ℕ) (a : Account) (u : Option ℕ)
    → Open d c now n a u
    → Open d c (add_bytes now more) n a u
Open-grown d c now more n a u (e1, e2, e3) = (e1, Even-grown d c now more a e2, e3)

or-grown :
    (d : Direction) (b : Bool) (k : ℕ) (now more : ByteTotals)
    → (b ≡ true) ⊎ (k ≤ bytes d now)
    → (b ≡ true) ⊎ (k ≤ bytes d (add_bytes now more))
or-grown d b k now more (inl t) = inl t
or-grown d b k now more (inr le) = inr (omega (arith, add_bytes-le d now more))

last-grown :
    (d : Direction) (last now more : ByteTotals)
    → bytes d last ≤ bytes d now
    → bytes d last ≤ bytes d (add_bytes now more)
last-grown d last now more le = omega (arith, add_bytes-le d now more)

pub grown :
    (d : Direction) (b : Bool) (stage : Leaving) (last now more : ByteTotals) (n : ℕ)
    (p : List ClosedDelta) (a : Account) (u : Option ℕ)
    → Standing d b stage last now n p a u
    → Standing d b stage last (add_bytes now more) n p a u
grown d b not_yet last now more n p a u (e, o) = (e, Open-grown d 0 now more n a u o)
grown d b totals_read last now more n p a u (le, e, o) =
    (last-grown d last now more le, e, Open-grown d 0 now more n a u o)
grown d b handed_over last now more n p a u (le, inl (w, o)) =
    (last-grown d last now more le, inl (w, Open-grown d 0 now more n a u o))
grown d b handed_over last now more n p a u (le, inr (e, (c, l, m, o), f)) = (
  last-grown d last now more le,
  inr (e, (c, l, omega (arith, add_bytes-le d now more), Open-grown d c now more n a u o), f),
)
grown d b removed last now more n p a u (le, e1, inl (w, e2, e3)) =
    (last-grown d last now more le, e1, inl (w, Even-grown d 0 now more a e2, e3))
grown d b removed last now more n p a u (le, e1, inr (e, (k, c, l, m, f))) = (
  last-grown d last now more le,
  e1,
  inr (e, (k, c, l, omega (arith, add_bytes-le d now more), or-grown d b k now more f)),
)

open-AtRest : (a : Account) (u : Option ℕ) → WalkOpen a u → AtRest a u
open-AtRest a none w = w
open-AtRest a (some n) w = tt

-- The three steps of leave.
pub closing :
    (d : Direction) (b : Bool) (last now : ByteTotals) (n : ℕ) (p : List ClosedDelta) (a : Account)
    (u : Option ℕ)
    → Standing d b not_yet last now n p a u
    → Standing d b totals_read now now n p a u
closing d b last now n p a u (e, o) = (omega arith, e, o)

pub handing :
    (d : Direction) (b : Bool) (last now : ByteTotals) (n : ℕ) (p : List ClosedDelta)
    (c : ClosedDelta) (a : Account) (u : Option ℕ)
    → c.totals ≡ last
    → Standing d b totals_read last now n p a u
    → Standing d b handed_over last now n (p ++ c ∷ []) a u
handing d b last now n p c a u t (le, e, o) = (le, inl ((c, ap (λ l. l ++ c ∷ []) e, t), o))

pub removing :
    (d : Direction) (b : Bool) (last now : ByteTotals) (n : ℕ) (p : List ClosedDelta) (a : Account)
    (u : Option ℕ)
    → Standing d b handed_over last now n p a u
    → Standing d b removed last now 0 p a u
removing d b last now n p a u (le, inl (w, (e1, e2, e3))) =
    (le, refl, inl (w, e2, open-AtRest a u e3))
removing d b last now n p a u (le, inr (e, (c, l, m, (e1, (e2, most), e3)), f)) = (
  le,
  refl,
  inr (
    e,
    (
      c + bytes d (baseline a),
      e2,
      omega arith,
      omega arith,
      elim f [ inl t ↦ inl t | inr none_since ↦ inr (omega arith) ],
    ),
  ),
)

cleared : (a : Account) → a.next ≡ none → a ≡ record a { next = none }
cleared a e = ap (λ o. record a { next = o }) e

-- A sample starts with cleared scratch, which was clear; the walk is over the map.
Open-start :
    (d : Direction) (c : ℕ) (now : ByteTotals) (n : ℕ) (a : Account)
    → Open d c now n a none
    → Open d c now n (record a { next = none }) (some n)
Open-start d c now n a (e1, e2, e3) = (
  e1,
  subst (λ (z : Account). Even d c z now) (cleared a e3) e2,
  subst (λ (m : ℕ). WalkOpen (record a { next = none }) (some m)) (sym e1) (refl, refl),
)

Standing-start :
    (d : Direction) (b : Bool) (stage : Leaving) (last now : ByteTotals) (n : ℕ)
    (p : List ClosedDelta) (a : Account)
    → Standing d b stage last now n p a none
    → Standing d b stage last now n p (record a { next = none }) (some n)
Standing-start d b not_yet last now n p a (e, o) = (e, Open-start d 0 now n a o)
Standing-start d b totals_read last now n p a (le, e, o) = (le, e, Open-start d 0 now n a o)
Standing-start d b handed_over last now n p a (le, inl (w, o)) =
    (le, inl (w, Open-start d 0 now n a o))
Standing-start d b handed_over last now n p a (le, inr (e, (c, l, m, (e1, e2, e3)), f)) = (
  le,
  inr (
    e,
    (c, l, m, Open-start d c now n a (e1, e2, e3)),
    subst (λ (z : Account). (b ≡ true) ⊎ (bytes d (baseline z) ≡ 0)) (cleared a e3) f,
  ),
)
Standing-start d b removed last now n p a (le, e1, inl (w, e2, e3)) =
    (le, e1, inl (w, subst (λ (z : Account). Even d 0 z now) (cleared a e3) e2, tt))
Standing-start d b removed last now n p a (le, e1, inr k) = (le, e1, inr k)

pub starting :
    (d : Direction) (b : Bool) (r : Option Conn) (n : ℕ) (p : List ClosedDelta) (a : Account)
    → Inv d b r n p a none
    → Inv d b r n p (record a { next = none }) (some n)
starting d b none n p a (e1, e2, e3, e4, e5, e6) = (e1, e1, e3, e4, refl, e6)
starting d b (some c) n p a i = Standing-start d b c.leaving c.left_with c.totals n p a i

sum-back : (c m n : ℕ) (z : ℤ) → z ≡ pos (c + n) → (pos m -ℤ pos n) +ℤ z ≡ pos (c + m)
unfolding ◌-ℤ◌ ◌+ℤ◌
sum-back c m n z e = rw e (ground arith)

sum-back_max :
    (m n : ℕ) (z : ℤ) → z ≡ pos (0 + n) → max_ℤ (pos 0) (pos m -ℤ pos n) +ℤ z ≡ pos (n + (m - n))
unfolding ◌-ℤ◌ ◌+ℤ◌
sum-back_max m n z e = rw e (ground arith)

-- The walk looks at the connection while it is in the map.
pub visiting :
    (d : Direction) (c : ℕ) (now : ByteTotals) (n : ℕ) (a : Account) (k : ℕ)
    → Open d c now n a (some (suc k))
    → Open d c now n (after_visit d a now) (some k)
visiting d c now n a zero (e1, (e3, le), (e4, e5)) = (
  e1,
  (
    sum-back c (bytes d now) (bytes d (or_zero a.seen)) a.credited
        (e3 ∙ ap (λ o. pos (c + bytes d (baseline (record a { next = o })))) e4),
    omega arith,
  ),
  inl (λ e. ground arith),
)
visiting d c now n a (suc k) (e1, (e3, le), (e4, e5)) = absurd (ground arith)

-- The maps of baselines swap.
abbrev pub rotate : Account → Account
rotate a = record { next = none; seen = a.next; credited = a.credited }

rotate-baseline :
    (a : Account) → (a.next ≢ none) ⊎ (a.seen ≡ none) → baseline (rotate a) ≡ baseline a
rotate-baseline a w = elim (Option-cases a.next) [
  | inl e ↦ elim w [ inl n ↦ absurd (n e) | inr z ↦ rw (e, z) refl ]
  | inr (v, e) ↦ rw e refl
]

pub draining :
    (d : Direction) (c : ℕ) (now : ByteTotals) (n : ℕ) (a : Account)
    → Open d c now n a (some 0)
    → Open d c now n (rotate a) none
draining d c now n a (e1, (e3, le), w) =
    let b = rotate-baseline a w in (e1, (e3 ∙ ap (λ t. pos (c + bytes d t)) (sym b), rw b le), refl)

pub Handed-rotate :
    (d : Direction) (b : Bool) (last now : ByteTotals) (n : ℕ) (a : Account) (p : List ClosedDelta)
    → Handed d b last now n a p (some 0)
    → Handed d b last now n (rotate a) [] none
Handed-rotate d b last now n a p (e, (c, l, m, (e1, e2, w)), f) = (
  refl,
  (c, l, m, draining d c now n a (e1, e2, w)),
  subst (λ (v : ByteTotals). (b ≡ true) ⊎ (bytes d v ≡ 0)) (sym (rotate-baseline a w)) f,
)

zero_bytes : (d : Direction) → bytes d no_bytes ≡ 0
zero_bytes uplink = refl
zero_bytes downlink = refl

pub Taken-Handed :
    (d : Direction) (b : Bool) (last now : ByteTotals) (n : ℕ) (a : Account)
    → n ≡ 1
    → Taken d last now a
    → Handed d b last now n a [] none
Taken-Handed d b last now n a one ((k, c, l, m), f, g) =
    let z : bytes d (baseline a) ≡ 0 = rw (f, g) (zero_bytes d) in
    (refl, (k, l, m, (one, (c ∙ ap pos (omega (arith, z)), omega (arith, z)), f)), inr z)

pub Taken-Settled :
    (d : Direction) (b : Bool) (last now : ByteTotals) (a : Account)
    → Taken d last now a
    → Settled d b last now a []
Taken-Settled d b last now a ((k, c, l, m), f, g) = (refl, (k, c, l, omega arith, inr m))

-- A close is taken.
pub taking :
    (d : Direction) (next : Option ByteTotals) (last now : ByteTotals) (c : ClosedDelta)
    (a : Account)
    → a.next ≡ next
    → c.totals ≡ last
    → bytes d last ≤ bytes d now
    → Even d 0 a now
    → Taken d last now (rotate (after_closed d next a c.totals))
taking d none last now c a x t less (e, le) =
    let zero_left : 0 + bytes d last ≡ bytes d last = omega arith in
    let at = e ∙ ap (λ o. pos (0 + bytes d (baseline (record a { next = o })))) x in
    (
      (
        bytes d last,
        sum-back 0 (bytes d c.totals) (bytes d (or_zero a.seen)) a.credited at
            ∙ ap (λ q. pos (0 + bytes d q)) t
            ∙ ap pos zero_left,
        omega arith,
        less,
      ),
      refl,
      x,
    )
taking d (some v) last now c a x t less (e, le) =
    let b = ap (λ o. bytes d (baseline (record a { next = o }))) x in
    let same = ap (bytes d) t in
    (
      (
        bytes d v + (bytes d c.totals - bytes d v),
        sum-back_max (bytes d c.totals) (bytes d v) a.credited (e ∙ ap (λ q. pos (0 + q)) b),
        omega (arith, same),
        omega (arith, same, b, le),
      ),
      refl,
      refl,
    )
