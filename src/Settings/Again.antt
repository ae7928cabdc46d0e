-- ===== src/Settings/Again.antt =====
-- What InitSettings of common/settings/settings.go comes to, and comes to again at the next start.
use radiance.Common.{
  ◌≡◌, ◌⊎◌, inl, inr, refl, sym, ap, ◌∙◌, subst, arith, Bool, true, false, not, ◌||◌, Option, none,
  some, List, [], ◌∷◌, ◌++◌, if◌then◌else◌, any_of, String, Bool-cases,
}
use radiance.Settings.Migration.{
  Value, json, invalid, FileRead, contents, missing, unreadable, Disk, CandidateSource, candidate,
  older_candidates, candidates, is_pro, first_pro, pick, write_migrated, is_unreadable,
  migrate_legacy_settings_if_needed,
}
use radiance.Settings.{
  Settings, World, save, quarantine_invalid_settings, load_settings, after_migration, init_settings,
}
use radiance.Settings.Picked.{level_is_pro, picked, write_migrated-canonical}
use radiance.Settings.Recovered.{all_well, Recovered, init_settings-Recovered}

-- The other candidates stay as they are.
older-write_migrated :
    (d : Disk) (o : Option CandidateSource)
    → older_candidates (write_migrated true d o) ≡ older_candidates d
unfolding older_candidates
older-write_migrated d none = refl
older-write_migrated d (some c) = elim (Bool-cases (c.is_canonical || not true)) [
  | inl e ↦ rw e refl
  | inr e ↦ rw e refl
]

older-migrate :
    (d : Disk) → older_candidates (migrate_legacy_settings_if_needed true d) ≡ older_candidates d
unfolding migrate_legacy_settings_if_needed
older-migrate d = elim (Bool-cases (is_unreadable d.canonical)) [
  | inl e ↦ rw e refl
  | inr e ↦ rw e (older-write_migrated d (pick (candidates d)))
]

older-load :
    (w : World) (f : FileRead)
    → older_candidates (load_settings all_well w f).0.disk ≡ older_candidates w.disk
unfolding older_candidates save quarantine_invalid_settings
older-load w missing = refl
older-load w unreadable = refl
older-load w (contents (json v)) = refl
older-load w (contents (invalid n)) = refl

older-init_settings :
    (w : World)
    → w.settings.initialized ≡ false
    → older_candidates (init_settings all_well w).0.disk ≡ older_candidates w.disk
unfolding init_settings
older-init_settings w n =
    let w1 = record w { disk = migrate_legacy_settings_if_needed true w.disk } in
    subst
      (λ (b : Bool).
        older_candidates (if b then (w, true) else after_migration all_well w1).0.disk
        ≡ older_candidates w.disk)
      (sym n) (older-load w1 w1.disk.canonical ∙ older-migrate w.disk)

not_pro-older :
    (d : Disk) → any_of is_pro (candidates d) ≡ false → any_of is_pro (older_candidates d) ≡ false
unfolding candidates
not_pro-older d h = of_file d.canonical h
  where
    of_file :
        (f : FileRead)
        → any_of is_pro (candidate true f ++ older_candidates d) ≡ false
        → any_of is_pro (older_candidates d) ≡ false
    of_file missing e = e
    of_file unreadable e = e
    of_file (contents b) e = ground arith

first_pro-of_none : (cs : List CandidateSource) → any_of is_pro cs ≡ false → first_pro cs ≡ none
unfolding first_pro
first_pro-of_none [] h = refl
first_pro-of_none (c ∷ cs) h = ground (arith, first_pro-of_none cs)

-- A canonical file that is pro, or has no pro candidate behind it, stays.
stays :
    (v : List (String × Value)) (cs : List CandidateSource)
    → (any_of is_pro cs ≡ false) ⊎ (level_is_pro (json v) ≡ true)
    → picked (pick (candidate true (contents (json v)) ++ cs)) (contents (json v))
      ≡ contents (json v)
unfolding pick first_pro
stays v cs (inr p) = rw p refl
stays v cs (inl h) = elim (Bool-cases (level_is_pro (json v))) [
  | inl p ↦ rw p refl
  | inr p ↦ rw (p, first_pro-of_none cs h) refl
]

migrate-stays :
    (d : Disk) (v : List (String × Value))
    → d.canonical ≡ contents (json v)
    → (any_of is_pro (older_candidates d) ≡ false) ⊎ (level_is_pro (json v) ≡ true)
    → (migrate_legacy_settings_if_needed true d).canonical ≡ contents (json v)
unfolding migrate_legacy_settings_if_needed candidates
migrate-stays d v e h =
    let cs = older_candidates d in
    subst
      (λ (b : Bool).
        (if b then d else write_migrated true d (pick (candidate true d.canonical ++ cs))).canonical
        ≡ contents (json v))
      (sym (ap is_unreadable e))
      (write_migrated-canonical d (pick (candidate true d.canonical ++ cs))
        ∙ ap (λ (f : FileRead). picked (pick (candidate true f ++ cs)) f) e
        ∙ stays v cs h)

load-json :
    (w : World) (f : FileRead) (v : List (String × Value))
    → f ≡ contents (json v)
    → (load_settings all_well w f).0.settings.k ≡ v
load-json w f v e =
    subst (λ (g : FileRead). (load_settings all_well w g).0.settings.k ≡ v) (sym e) refl

init_settings-json :
    (w : World) (v : List (String × Value))
    → w.settings.initialized ≡ false
    → w.disk.canonical ≡ contents (json v)
    → (any_of is_pro (older_candidates w.disk) ≡ false) ⊎ (level_is_pro (json v) ≡ true)
    → (init_settings all_well w).0.settings.k ≡ v
unfolding init_settings
init_settings-json w v n e h =
    let w1 = record w { disk = migrate_legacy_settings_if_needed true w.disk } in
    subst (λ (b : Bool). (if b then (w, true) else after_migration all_well w1).0.settings.k ≡ v)
      (sym n) (load-json w1 w1.disk.canonical v (migrate-stays w.disk v e h))

settled_or_pro :
    (w : World) (v : List (String × Value))
    → w.settings.initialized ≡ false
    → (any_of is_pro (candidates w.disk) ≡ false) ⊎ (level_is_pro (json v) ≡ true)
    → (any_of is_pro (older_candidates (init_settings all_well w).0.disk) ≡ false)
      ⊎ (level_is_pro (json v) ≡ true)
settled_or_pro w v n (inl h) =
    inl (ap (any_of is_pro) (older-init_settings w n) ∙ not_pro-older w.disk h)
settled_or_pro w v n (inr p) = inr p

-- At a start whose writes succeed and at which the settings file, if it is there, can be read,
-- InitSettings succeeds, and the settings file then holds the settings. If any candidate, the
-- settings file or one that an older version left, says that the user is pro, the settings do;
-- otherwise the settings are those of the first candidate in the order of priority, or, when there is
-- none or that one is no JSON, those of before the start. And the next start, with whatever settings
-- in memory, comes to the same settings.
pub init_settings-again :
    (w : World) (other : Settings)
    → w.settings.initialized ≡ false
    → other.initialized ≡ false
    → is_unreadable w.disk.canonical ≡ false
    → let r = init_settings all_well w in
      Recovered (candidates w.disk) w.settings.k r
      × ((init_settings all_well (record { settings = other; disk = r.0.disk })).0.settings.k
          ≡ r.0.settings.k)
init_settings-again w other n m h =
    let r = init_settings all_well w in
    let found = init_settings-Recovered w n h in
    (
      found,
      init_settings-json (record { settings = other; disk = r.0.disk }) r.0.settings.k m found.1
          (settled_or_pro w r.0.settings.k n found.2),
    )
