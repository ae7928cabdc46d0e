-- ===== src/Backend/SelectionReporter/Newer.antt =====
-- What backend/selection_reporter.go reports for a tag is, in a connection, newer than each earlier
-- report that was confirmed.
use radiance.Common.{
  ◌≢◌, ℕ, ◌+◌, ◌≤◌, ◌<◌, ◌≡◌, Bool, false, Option, none, some, List, [], ◌∷◌, if◌then◌else◌, All,
  String, ◌⊎◌,
}
use text.Mathlib.Text.{◌==◌ as str_eq}
use radiance.Backend.SelectionReporter.{Reporter, Entry, reset, since, prepare_report, report}
use radiance.Backend.SelectionReporter.Watermarks.{listed, WithinTime}

module _ {F : Type 0} (at : F → ℕ) where
  -- A confirmed report.
  pub record Sent : Type 0 where
    pub epoch : ℕ
    pub now : ℕ
    pub tags : List String
    pub entries : List (Entry F)

  -- The failures of a report's entries that are for a tag of an earlier report are all newer than it.
  abbrev pub Newer : Sent → List String → List (Entry F) → Type 0
  Newer p [] es = Unit
  Newer p (tag ∷ tags) [] = Unit
  Newer p (tag ∷ tags) (e ∷ es) =
      ((listed tag p.tags ≡ false) ⊎ All (λ f. p.now < at f) e.failures) × Newer p tags es

  -- Of the confirmed reports, the last first, each is newer than those before it in its connection.
  abbrev pub EachNewer : List Sent → Type 0
  EachNewer [] = Unit
  EachNewer (s ∷ past) =
      All (λ p. (p.epoch ≢ s.epoch) ⊎ Newer p s.tags s.entries) past × EachNewer past

  -- What the reporter remembers of an earlier report.
  abbrev Marked : Reporter → Sent → Type 0
  Marked r p =
      (p.epoch < r.epoch)
      ⊎ ((p.epoch ≡ r.epoch)
          × ((tag : String) → (listed tag p.tags ≡ false) ⊎ (p.now ≤ since r tag)))

  -- The reporter, its clock, and the reports confirmed so far, the last first.
  pub record History : Type 0 where
    pub clock : ℕ
    pub reporter : Reporter
    pub sent : List Sent

  -- A reset, or a report, so long after the last; a report may meet a reset during its POST.
  pub data Event : Type 0 where
    resets : ℕ → Event
    reports : ℕ → List (String × List F) → List (String × String) → Option ℕ → Bool → Event

  abbrev pub plus : ℕ → Option ℕ → Option ℕ
  plus t none = none
  plus t (some d) = some (t + d)

  abbrev pub later : ℕ → Option ℕ → ℕ
  later t none = t
  later t (some d) = t + d

  abbrev pub after : History → Event → History
  after h (resets d) = record h { clock = h.clock + d; reporter = reset h.reporter (h.clock + d) }
  after h (reports d snapshot tokens reset_during posts) =
      let now = h.clock + d in
      let prepared = prepare_report at h.reporter now snapshot tokens in
      let (r, confirmed) = report at h.reporter now snapshot tokens (plus now reset_during) posts in
      record {
        clock = later now reset_during;
        reporter = r;
        sent =
            if confirmed
            then record {
              epoch = prepared.epoch;
              now = now;
              tags = prepared.reported_tags;
              entries = prepared.entries;
            }
              ∷ h.sent
            else h.sent;
      }

  record Good (h : History) : Type 0 where
    started : 0 < h.clock
    within : WithinTime h.clock h.reporter
    marked : All (Marked h.reporter) h.sent
    newer : EachNewer h.sent

  unfoldable pub run : History → List Event → History
  run h [] = h
  run h (e ∷ es) = run (after h e) es
