-- ===== src/Vpn/Throughput/Walked.antt =====
-- What the walk of a sample of vpn/throughput_tracker.go makes of a connection.
use radiance.Common.{
  ℕ, suc, ◌≡◌, ◌≢◌, inl, inr, refl, sym, subst, arith, Bool, true, false, Option, none, some, List,
  [], ◌∷◌, ◌||◌, occurrences,
}
use radiance.Vpn.Throughput.{
  ByteTotals, Conn, ClosedDelta, Sampler, Leaving, not_yet, totals_read, handed_over, removed,
}
use radiance.Vpn.Throughput.Phases.{is_active, visited}
use radiance.Vpn.Throughput.Account.{
  Direction, Account, account, account-visit_other, account-visit_self,
}
use radiance.Vpn.Throughput.Standing.{is_active-occurrences, not-active, Standing, Inv, Open}
use radiance.Vpn.Throughput.Moves.{visiting}

-- The look at a connection other than x, or at one that has left.
pub Inv-walk_other :
    (d : Direction) (b : Bool) (x j : ℕ) (ids : List ℕ) (r : Option Conn) (n : ℕ)
    (p : List ClosedDelta) (a : Account)
    → j ≢ x
    → Inv d b r n p a (some (occurrences x (j ∷ ids)))
    → Inv d b r n p a (some (occurrences x ids))
Inv-walk_other d b x j ids r n p a ne i =
    subst (λ (m : ℕ). Inv d b r n p a (some m)) (ground arith) i

pub account-visited_other :
    (d : Direction) (x j : ℕ) (s : Sampler) (active : Bool) (r : Option Conn)
    → j ≢ x
    → account d x (visited s j active r) ≡ account d x s
account-visited_other d x j s false r ne = refl
account-visited_other d x j s true none ne = refl
account-visited_other d x j s true (some c) ne = account-visit_other d x j s c ne

-- A connection whose close was taken although it is still to be removed.
abbrev pub taken : Leaving → List ClosedDelta → Bool
taken handed_over [] = true
taken _ _ = false

abbrev pub taken_of : Option Conn → List ClosedDelta → Bool
taken_of none p = false
taken_of (some c) p = taken c.leaving p

taken_handed : (p : List ClosedDelta) (b : Bool) → p ≡ [] → taken handed_over p || b ≡ true
taken_handed [] b e = refl
taken_handed (c ∷ p) b e = absurd (ground arith)

-- The look at x.
pub look :
    (d : Direction) (x : ℕ) (ids : List ℕ) (s : Sampler) (conns : List ℕ) (c : Conn) (k : ℕ)
    → Open d k c.totals (occurrences x conns) (account d x s) (some (suc (occurrences x ids)))
    → Open d k c.totals
        (occurrences x conns)
        (account d x (visited s x (is_active x conns) (some c)))
        (some (occurrences x ids))
look d x ids s conns c k o = rw (is_active-occurrences x conns o.0) (
    subst (λ (a : Account). Open d k c.totals (occurrences x conns) a (some (occurrences x ids)))
      (sym (account-visit_self d x s c))
      (visiting d k c.totals (occurrences x conns) (account d x s) (occurrences x ids) o))

visited_by :
    (d : Direction) (b : Bool) (x : ℕ) (ids : List ℕ) (s : Sampler) (conns : List ℕ) (c : Conn)
    (stage : Leaving) (last : ByteTotals) (p : List ClosedDelta)
    → Standing d b stage last c.totals
        (occurrences x conns)
        p
        (account d x s)
        (some (suc (occurrences x ids)))
    → Standing d
        (taken stage p || b)
        stage
        last
        c.totals
        (occurrences x conns)
        p
        (account d x (visited s x (is_active x conns) (some c)))
        (some (occurrences x ids))
visited_by d b x ids s conns c not_yet last p (e, o) = (e, look d x ids s conns c 0 o)
visited_by d b x ids s conns c totals_read last p (le, e, o) = (le, e, look d x ids s conns c 0 o)
visited_by d b x ids s conns c handed_over last p (le, inl (w, o)) =
    (le, inl (w, look d x ids s conns c 0 o))
visited_by d b x ids s conns c handed_over last p (le, inr (e, (k, l, m, o), f)) =
    (le, inr (e, (k, l, m, look d x ids s conns c k o), inl (taken_handed p b e)))
visited_by d b x ids s conns c removed last p (le, e1, inl (w, e2, e3)) =
    rw (not-active x conns e1) (le, e1, inl (w, e2, tt))
visited_by d b x ids s conns c removed last p (le, e1, inr k) =
    rw (not-active x conns e1) (le, e1, inr k)

pub visited_self :
    (d : Direction) (b : Bool) (x : ℕ) (ids : List ℕ) (s : Sampler) (conns : List ℕ)
    (r : Option Conn) (p : List ClosedDelta)
    → Inv d b r (occurrences x conns) p (account d x s) (some (suc (occurrences x ids)))
    → Inv d
        (taken_of r p || b)
        r
        (occurrences x conns)
        p
        (account d x (visited s x (is_active x conns) r))
        (some (occurrences x ids))
visited_self d b x ids s conns none p (e1, e2, e3, e4, e5, e6) = absurd (ground arith)
visited_self d b x ids s conns (some c) p i =
    visited_by d b x ids s conns c c.leaving c.left_with p i
