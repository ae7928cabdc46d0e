-- ===== src/Vpn/SessionHistory/Retention.antt =====
-- Which sessions vpn/session_history.go retains.
use radiance.Common.{
  ℕ, zero, suc, ◌+◌, ◌≤◌, ◌<◌, ◌≡◌, refl, ap, ◌∙◌, arith, true, not, List, [], ◌∷◌, length, take,
  keep, keep_kept, keep_dropped, keep_nil, Bool-cases, inl, inr, sym, ltb→lt,
}
use radiance.Vpn.SessionHistory.{
  Session, SessionHistory, max_sessions, session_retention, expired, prune_stored,
}

-- Stored sessions ended in this order, the newest first, and none after the instant t.
abbrev Descending : ℕ → List Session → Type 0
Descending t [] = Unit
Descending t (s ∷ ss) = (s.disconnected_at ≤ t) × Descending s.disconnected_at ss

pub Descending-later : (t u : ℕ) (ss : List Session) → t ≤ u → Descending t ss → Descending u ss
Descending-later t u [] le d = d
Descending-later t u (s ∷ ss) le (h, d) = (omega arith, d)

pub Descending-take : (t n : ℕ) (ss : List Session) → Descending t ss → Descending t (take n ss)
Descending-take t zero ss d = tt
Descending-take t (suc n) [] d = tt
Descending-take t (suc n) (s ∷ ss) (h, d) = (h, Descending-take s.disconnected_at n ss d)

pub Descending-prune :
    (t now : ℕ) (ss : List Session) → Descending t ss → Descending t (prune_stored now ss)
unfolding prune_stored
Descending-prune t now [] d = d
Descending-prune t now (s ∷ ss) (h, d) = elim (Bool-cases (expired now s)) [
  | inl e ↦ rw e tt
  | inr e ↦ rw e (h, Descending-prune s.disconnected_at now ss d)
]

pub length-prune : (now : ℕ) (ss : List Session) → length (prune_stored now ss) ≤ length ss
unfolding prune_stored
length-prune now [] = omega arith
length-prune now (s ∷ ss) = ground (arith, length-prune now ss)

keep-expired :
    (t now : ℕ) (ss : List Session)
    → Descending t ss
    → t + session_retention < now
    → keep (λ s. not (expired now s)) ss ≡ []
unfolding expired
keep-expired t now [] d lt = keep_nil (λ s. not (expired now s))
keep-expired t now (s ∷ ss) (h, d) lt =
    keep_dropped (λ x. not (expired now x)) s ss (ground arith)
    ∙ keep-expired s.disconnected_at now ss d (omega arith)

expired_lt :
    (now : ℕ) (s : Session) → expired now s ≡ true → s.disconnected_at + session_retention < now
unfolding expired
expired_lt now s e = ltb→lt (s.disconnected_at + session_retention) now e

-- On stored sessions in order, cutting at the first expired one is dropping every expired one.
pub prune_stored-keep :
    (t now : ℕ) (ss : List Session)
    → Descending t ss
    → prune_stored now ss ≡ keep (λ s. not (expired now s)) ss
unfolding prune_stored
prune_stored-keep t now [] d = sym (keep_nil (λ s. not (expired now s)))
prune_stored-keep t now (s ∷ ss) (h, d) = elim (Bool-cases (expired now s)) [
  | inl e ↦ rw e (
      sym (
        keep_dropped (λ x. not (expired now x)) s ss (rw e refl)
        ∙ keep-expired s.disconnected_at now ss d (expired_lt now s e)))
  | inr e ↦ rw e (
      ap (◌∷◌ s) (prune_stored-keep s.disconnected_at now ss d)
      ∙ sym (keep_kept (λ x. not (expired now x)) s ss (rw e refl)))
]

-- What holds of the stored sessions at an instant: at most ten, the newest first.
pub record Kept (t : ℕ) (h : SessionHistory) : Type 0 where
  pub few : length h.stored ≤ max_sessions
  pub in_order : Descending t h.stored
