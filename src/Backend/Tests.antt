-- ===== src/Backend/Tests.antt =====
-- Runs of the model of package backend, and examples.
use radiance.Common.{ℕ, true, false, some, none, List, [], ◌∷◌}
use radiance.Backend.SelectionReporter.{new_selection_reporter}
use radiance.Backend.SelectionReporter.Newer.{History, Event, resets, reports}

-- A failure is its instant.
abbrev instant : ℕ → ℕ
instant t = t

abbrev first : History instant
first = record { clock = 10; reporter = new_selection_reporter; sent = [] }

-- Two reports of a tag, one whose POST fails, and one with a reset during it.
abbrev reporting : List (Event instant)
reporting =
    resets 1
    ∷ reports 10 (("a", 5 ∷ 15 ∷ []) ∷ []) (("a", "token") ∷ []) none true
    ∷ reports 10 (("a", 15 ∷ 25 ∷ []) ∷ []) (("a", "token") ∷ []) none false
    ∷ reports 10 (("a", 15 ∷ 25 ∷ []) ∷ []) (("a", "token") ∷ []) none true
    ∷ reports 10 (("a", 25 ∷ 45 ∷ []) ∷ []) (("a", "token") ∷ []) (some 3) true
    ∷ []
