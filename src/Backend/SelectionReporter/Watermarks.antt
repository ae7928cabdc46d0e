-- ===== src/Backend/SelectionReporter/Watermarks.antt =====
-- The watermarks of backend/selection_reporter.go by tag: what a mark and a reset make of them.
use radiance.Common.{
  ◌≢◌, ℕ, ◌≤◌, ◌<◌, ◌≡◌, refl, arith, Bool, true, false, List, [], ◌∷◌, if◌then◌else◌, ◌==◌, String,
  Bool-cases, inl, inr, ◌⊎◌,
}
use radiance.Common.Dict.{lookup, insert, lookup-insert}
use text.Mathlib.Text.{◌==◌ as str_eq}
use radiance.Backend.SelectionReporter.{
  Reporter, new_selection_reporter, reset, or_zero, since, put_all, mark_reported,
}

-- The watermark of a tag in a map, over a baseline.
abbrev mark_of : ℕ → List (String × ℕ) → String → ℕ
mark_of base m tag = let last = or_zero (lookup tag m) in if last == 0 then base else last

mark_of-insert :
    (base t : ℕ) (m : List (String × ℕ)) (k tag : String)
    → 0 < t
    → mark_of base (insert k t m) tag ≡ (if str_eq k tag then t else mark_of base m tag)
mark_of-insert base t m k tag pos = elim (Bool-cases (str_eq k tag)) [
  | inl e ↦ rw (lookup-insert k tag t m, e) (ground arith)
  | inr e ↦ rw (lookup-insert k tag t m, e) refl
]

mark_of-put_all :
    (base t : ℕ) (tags : List String) (m : List (String × ℕ)) (tag : String)
    → 0 < t
    → (mark_of base (put_all tags t m) tag ≡ mark_of base m tag)
      ⊎ (mark_of base (put_all tags t m) tag ≡ t)
unfolding put_all
mark_of-put_all base t [] m tag pos = inl refl
mark_of-put_all base t (k ∷ ks) m tag pos =
    ground (arith, mark_of-put_all base t ks (insert k t m) tag, mark_of-insert base t m k tag)

unfoldable pub listed : String → List String → Bool
listed tag [] = false
listed tag (k ∷ ks) = if str_eq k tag then true else listed tag ks

mark_of-listed :
    (base t : ℕ) (tags : List String) (m : List (String × ℕ)) (tag : String)
    → 0 < t
    → (listed tag tags ≡ true) ⊎ (mark_of base m tag ≡ t)
    → mark_of base (put_all tags t m) tag ≡ t
unfolding put_all listed
mark_of-listed base t [] m tag pos h = ground arith
mark_of-listed base t (k ∷ ks) m tag pos h =
    ground (arith, mark_of-listed base t ks (insert k t m) tag, mark_of-insert base t m k tag)

abbrev pub WithinTime : ℕ → Reporter → Type 0
WithinTime t r = (tag : String) → since r tag ≤ t

pub since-reset : (r : Reporter) (t : ℕ) (tag : String) → since (reset r t) tag ≡ t
unfolding since reset lookup
since-reset r t tag = refl

-- A mark leaves a watermark as it was or sets it.
pub since-mark_reported :
    (r : Reporter) (epoch now : ℕ) (tags : List String) (tag : String)
    → 0 < now
    → (since (mark_reported r epoch now tags) tag ≡ since r tag)
      ⊎ (since (mark_reported r epoch now tags) tag ≡ now)
unfolding since mark_reported
since-mark_reported r epoch now tags tag pos = elim (Bool-cases (r.epoch == epoch)) [
  | inl e ↦ rw e (mark_of-put_all r.baseline now tags r.last_reported tag pos)
  | inr e ↦ rw e (inl refl)
]

pub since-mark_reported-listed :
    (r : Reporter) (now : ℕ) (tags : List String) (tag : String)
    → 0 < now
    → listed tag tags ≡ true
    → since (mark_reported r r.epoch now tags) tag ≡ now
unfolding since mark_reported
since-mark_reported-listed r now tags tag pos h =
    let e : (r.epoch == r.epoch) ≡ true = ground arith in
    rw e (mark_of-listed r.baseline now tags r.last_reported tag pos (inl h))

pub epoch-mark_reported :
    (r : Reporter) (epoch now : ℕ) (tags : List String)
    → (mark_reported r epoch now tags).epoch ≡ r.epoch
unfolding mark_reported
epoch-mark_reported r epoch now tags = ground arith

pub mark_reported_stale :
    (r : Reporter) (epoch now : ℕ) (tags : List String)
    → r.epoch ≢ epoch
    → mark_reported r epoch now tags ≡ r
unfolding mark_reported
mark_reported_stale r epoch now tags h =
    let e : (r.epoch == epoch) ≡ false = ground arith in rw e refl

pub reset-epoch_ne : (r : Reporter) (t : ℕ) → (reset r t).epoch ≢ r.epoch
unfolding reset
reset-epoch_ne r t e = absurd (omega arith)

pub reset-epoch_lt : (r : Reporter) (t : ℕ) → r.epoch < (reset r t).epoch
unfolding reset
reset-epoch_lt r t = omega arith

pub new-within : (t : ℕ) (tag : String) → since new_selection_reporter tag ≤ t
unfolding since lookup
new-within t tag = omega arith
