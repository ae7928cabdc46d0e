-- ===== src/Backend/SelectionReporter.antt =====
-- backend/selection_reporter.go. A failure is a value of lantern-box, of which the code reads the
-- instant. Instants are nanoseconds, 0 being the zero time. A snapshot lists its tags in order. The
-- clock, whether the POST succeeds and a reset while it is under way are arguments.
pub mod Watermarks
pub mod Newer
use radiance.Common.{
  ℕ, zero, suc, ◌+◌, ◌-◌, ◌*◌, ◌/◌, max, Bool, true, false, Option, none, some, List, [], ◌∷◌, ◌++◌,
  if◌then◌else◌, ltb, ◌==◌, keep, String,
}
use radiance.Common.Dict.{lookup, insert}
use text.Mathlib.Text.{◌==◌ as str_eq}

pub record Reporter : Type 0 where
  pub epoch : ℕ
  pub baseline : ℕ
  pub last_reported : List (String × ℕ)

abbrev pub new_selection_reporter : Reporter
new_selection_reporter = record { epoch = 0; baseline = 0; last_reported = [] }

unfoldable pub reset : Reporter → ℕ → Reporter
reset r now = record { epoch = r.epoch + 1; baseline = now; last_reported = [] }

abbrev pub or_zero : Option ℕ → ℕ
or_zero none = 0
or_zero (some t) = t

abbrev pub or_no_text : Option String → String
or_no_text none = ""
or_no_text (some s) = s

-- The instant after which a tag's failures have not been reported.
unfoldable pub since : Reporter → String → ℕ
since r tag =
    let last = or_zero (lookup tag r.last_reported) in if last == 0 then r.baseline else last

unfoldable pub report_window_seconds : ℕ → ℕ → ℕ
report_window_seconds now from = max 1 ((now - from) / 1000000000)

unfoldable pub put_all : List String → ℕ → List (String × ℕ) → List (String × ℕ)
put_all [] t m = m
put_all (tag ∷ tags) t m = put_all tags t (insert tag t m)

unfoldable pub mark_reported : Reporter → ℕ → ℕ → List String → Reporter
mark_reported r epoch reported_at tags =
    if r.epoch == epoch
    then record r { last_reported = put_all tags reported_at r.last_reported }
    else r

abbrev pub reset_at : Reporter → Option ℕ → Reporter
reset_at r none = r
reset_at r (some t) = reset r t

abbrev pub is_nil {ℓ} : {A : Type ℓ} → List A → Bool
is_nil [] = true
is_nil (x ∷ xs) = false

pub record Entry (F : Type 0) : Type 0 where
  pub report_token : String
  pub failures : List F
  pub window_seconds : ℕ

pub record Payload (F : Type 0) : Type 0 where
  pub epoch : ℕ
  pub entries : List (Entry F)
  pub reported_tags : List String
  pub skipped_no_token : ℕ

module _ {F : Type 0} (at : F → ℕ) where
  unfoldable pub failures_since : List F → ℕ → List F
  failures_since fs from = keep (λ f. ltb from (at f)) fs

  -- The loop of prepareReport over the tags of a snapshot.
  unfoldable pub prepare_tags :
      Reporter → ℕ → List (String × List F) → List (String × String) → Payload F
  prepare_tags r now [] tokens = record {
    epoch = r.epoch;
    entries = [];
    reported_tags = [];
    skipped_no_token = 0;
  }
  prepare_tags r now ((tag, fs) ∷ more) tokens =
      let rest = prepare_tags r now more tokens in
      let token = or_no_text (lookup tag tokens) in
      let new = failures_since fs (since r tag) in
      if str_eq token ""
      then record rest { skipped_no_token = rest.skipped_no_token + 1 }
      else if is_nil new
      then rest
      else record rest {
        entries =
            record {
              report_token = token;
              failures = new;
              window_seconds = report_window_seconds now (since r tag);
            }
            ∷ rest.entries;
        reported_tags = tag ∷ rest.reported_tags;
      }

  unfoldable pub prepare_report :
      Reporter → ℕ → List (String × List F) → List (String × String) → Payload F
  prepare_report r now snapshot tokens = prepare_tags r now snapshot tokens

  -- report: the reporter after it, and whether a POST was confirmed.
  unfoldable pub report :
      Reporter
      → ℕ
      → List (String × List F)
      → List (String × String)
      → Option ℕ
      → Bool
      → Reporter × Bool
  report r now snapshot tokens reset_during posts =
      let prepared = prepare_report r now snapshot tokens in
      let r1 = reset_at r reset_during in
      if is_nil prepared.entries
      then (r1, false)
      else if posts
      then (mark_reported r1 prepared.epoch now prepared.reported_tags, true)
      else (r1, false)
