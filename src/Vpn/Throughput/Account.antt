-- ===== src/Vpn/Throughput/Account.antt =====
-- What the sampler of vpn/throughput_tracker.go has on the account of one connection, in one
-- direction, and how the loops of a sample change it.
use radiance.Common.{
  ℕ, ◌≡◌, ◌≢◌, inl, inr, refl, sym, ap, ◌∙◌, arith, true, false, Option, none, some, List, [], ◌∷◌,
  ◌++◌, keep, keep_kept, keep_dropped, keep_nil, keep-append, append-nil, subst, if◌then◌else◌,
  ◌==◌, Bool-cases, String,
}
use radiance.Common.Int.{ℤ, pos, ◌+ℤ◌, ◌-ℤ◌, max_ℤ}
use radiance.Vpn.Throughput.{
  ByteTotals, Conn, ClosedDelta, Addition, Sampler, or_zero, add_delta, sub_bytes, sub_bytes_max,
  apply_delta, apply_counted, apply_closed_delta, apply_closed_deltas, visit,
}

pub data Direction : Type 0 where
  uplink downlink : Direction

abbrev pub bytes : Direction → ByteTotals → ℕ
bytes uplink t = t.up
bytes downlink t = t.down

abbrev pub amount : Direction → Addition → ℤ
amount uplink a = a.up
amount downlink a = a.down

-- All that addDelta was given on the account of a connection.
unfoldable pub credit : Direction → ℕ → List Addition → ℤ
credit d x [] = pos 0
credit d x (a ∷ log) = let rest = credit d x log in if a.id == x then amount d a +ℤ rest else rest

pub record Account : Type 0 where
  pub next : Option ByteTotals
  pub seen : Option ByteTotals
  pub credited : ℤ

abbrev pub account : Direction → ℕ → Sampler → Account
account d x s = record { next = s.next_seen x; seen = s.seen x; credited = credit d x s.log }

-- A difference with a baseline, and one that stops at 0, on an account.
abbrev pub gain : Direction → ByteTotals → ByteTotals → ℤ
gain d now before = pos (bytes d now) -ℤ pos (bytes d before)

amount-sub_bytes :
    (d : Direction) (x : ℕ) (tag : String) (now before : ByteTotals)
    → amount d (sub_bytes x tag now before) ≡ gain d now before
amount-sub_bytes uplink x tag now before = refl
amount-sub_bytes downlink x tag now before = refl

amount-sub_bytes_max :
    (d : Direction) (x : ℕ) (tag : String) (now before : ByteTotals)
    → amount d (sub_bytes_max x tag now before) ≡ max_ℤ (pos 0) (gain d now before)
amount-sub_bytes_max uplink x tag now before = refl
amount-sub_bytes_max downlink x tag now before = refl

abbrev pub after_visit : Direction → Account → ByteTotals → Account
after_visit d a now = record a {
  next = some now;
  credited = gain d now (or_zero a.seen) +ℤ a.credited;
}

abbrev pub after_closed : Direction → Option ByteTotals → Account → ByteTotals → Account
after_closed d none a now = record a { credited = gain d now (or_zero a.seen) +ℤ a.credited }
after_closed d (some v) a now = record a {
  next = none;
  credited = max_ℤ (pos 0) (gain d now v) +ℤ a.credited;
}

pub account-visit_other :
    (d : Direction) (x j : ℕ) (s : Sampler) (c : Conn)
    → j ≢ x
    → account d x (visit s j c) ≡ account d x s
unfolding visit apply_delta add_delta credit
account-visit_other d x j s c h =
    let e : (x == j) ≡ false = ground arith in
    let f : (j == x) ≡ false = ground arith in rw (e, f) refl

pub account-visit_self :
    (d : Direction) (x : ℕ) (s : Sampler) (c : Conn)
    → account d x (visit s x c) ≡ after_visit d (account d x s) c.totals
unfolding visit apply_delta add_delta credit
account-visit_self d x s c =
    let e : (x == x) ≡ true = ground arith in
    rw (e, amount-sub_bytes d x c.outbound c.totals (or_zero (s.seen x))) refl

counted_other :
    (d : Direction) (x : ℕ) (s : Sampler) (c : ClosedDelta) (o : Option ByteTotals)
    → c.id ≢ x
    → account d x (apply_counted s c o) ≡ account d x s
unfolding apply_delta add_delta credit
counted_other d x s c none h = let f : (c.id == x) ≡ false = ground arith in rw f refl
counted_other d x s c (some v) h =
    let e : (x == c.id) ≡ false = ground arith in
    let f : (c.id == x) ≡ false = ground arith in rw (e, f) refl

counted_self :
    (d : Direction) (s : Sampler) (c : ClosedDelta) (o : Option ByteTotals)
    → s.next_seen c.id ≡ o
    → account d c.id (apply_counted s c o) ≡ after_closed d o (account d c.id s) c.totals
unfolding apply_delta add_delta credit
counted_self d s c none h =
    let f : (c.id == c.id) ≡ true = ground arith in
    rw (f, amount-sub_bytes d c.id c.outbound c.totals (or_zero (s.seen c.id))) refl
counted_self d s c (some v) h =
    let f : (c.id == c.id) ≡ true = ground arith in
    rw (f, amount-sub_bytes_max d c.id c.outbound c.totals v) refl

-- The pending closes of one connection.
unfoldable pub own : ℕ → List ClosedDelta → List ClosedDelta
own x cs = keep (λ c. c.id == x) cs

pub own-append_other :
    (x : ℕ) (cs : List ClosedDelta) (c : ClosedDelta) → c.id ≢ x → own x (cs ++ c ∷ []) ≡ own x cs
unfolding own
own-append_other x cs c h =
    let f : (c.id == x) ≡ false = ground arith in
    keep-append (λ c. c.id == x) cs (c ∷ [])
    ∙ ap (λ l. keep (λ c. c.id == x) cs ++ l)
        (keep_dropped (λ c. c.id == x) c [] f ∙ keep_nil (λ c. c.id == x))
    ∙ append-nil (keep (λ c. c.id == x) cs)

pub own-append_self :
    (cs : List ClosedDelta) (c : ClosedDelta) → own c.id (cs ++ c ∷ []) ≡ own c.id cs ++ c ∷ []
unfolding own
own-append_self cs c =
    let x = c.id in
    let f : (c.id == c.id) ≡ true = ground arith in
    keep-append (λ c. c.id == x) cs (c ∷ [])
    ∙ ap (λ l. keep (λ c. c.id == x) cs ++ l)
        (keep_kept (λ c. c.id == x) c [] f ∙ ap (◌∷◌ c) (keep_nil (λ c. c.id == x)))

pub own-nil : (x : ℕ) → own x [] ≡ []
unfolding own
own-nil x = keep_nil (λ c. c.id == x)

-- The closes of other connections leave an account as it is.
pub account-closed_none :
    (d : Direction) (x : ℕ) (s : Sampler) (cs : List ClosedDelta)
    → own x cs ≡ []
    → account d x (apply_closed_deltas s cs) ≡ account d x s
unfolding apply_closed_deltas apply_closed_delta own
account-closed_none d x s [] h = refl
account-closed_none d x s (c ∷ cs) h = elim (Bool-cases (c.id == x)) [
  | inl t ↦
      let no : c ∷ keep (λ c. c.id == x) cs ≡ [] = sym (keep_kept (λ c. c.id == x) c cs t) ∙ h in
      absurd (ground arith)
  | inr t ↦
      account-closed_none d x (apply_closed_delta s c) cs
        (sym (keep_dropped (λ c. c.id == x) c cs t) ∙ h)
      ∙ counted_other d x s c (s.next_seen c.id) (ground arith)
]

-- Of the closes, one is on the account.
pub account-closed_one :
    (d : Direction) (x : ℕ) (s : Sampler) (cs : List ClosedDelta) (p : ClosedDelta)
    → own x cs ≡ p ∷ []
    → account d x (apply_closed_deltas s cs)
      ≡ after_closed d (s.next_seen x) (account d x s) p.totals
unfolding apply_closed_deltas apply_closed_delta own
account-closed_one d x s [] p h = ground (arith, keep_nil (λ (c : ClosedDelta). c.id == x))
account-closed_one d x s (c ∷ cs) p h = elim (Bool-cases (c.id == x)) [
  | inl t ↦
      let both : c ∷ keep (λ c. c.id == x) cs ≡ p ∷ [] =
        sym (keep_kept (λ c. c.id == x) c cs t) ∙ h in
      let same : c ≡ p = ground arith in
      let rest : keep (λ c. c.id == x) cs ≡ [] = ground arith in
      let own_id : c.id ≡ x = ground arith in
      account-closed_none d x (apply_closed_delta s c) cs rest
      ∙ subst
          (λ (y : ℕ).
            account d y (apply_closed_delta s c)
            ≡ after_closed d (s.next_seen y) (account d y s) p.totals)
          own_id
          (counted_self d s c (s.next_seen c.id) refl
            ∙ ap (λ q. after_closed d (s.next_seen c.id) (account d c.id s) q.totals) same)
  | inr t ↦
      account-closed_one d x (apply_closed_delta s c) cs p
        (sym (keep_dropped (λ c. c.id == x) c cs t) ∙ h)
      ∙ ap (λ (a : Account). after_closed d a.next a p.totals)
          (counted_other d x s c (s.next_seen c.id) (ground arith))
]
