-- ===== src/Settings/Recovered.antt =====
-- What InitSettings of common/settings/settings.go recovers, when its writes succeed.
use radiance.Common.{
  ℕ, ◌≡◌, ◌⊎◌, inl, inr, refl, sym, ap, subst, arith, Bool, true, false, List, [], ◌∷◌,
  if◌then◌else◌, any_of, String,
}
use radiance.Settings.Migration.{
  Value, Blob, json, invalid, FileRead, contents, missing, unreadable, CandidateSource, candidates,
  is_pro, user_level_in_json, is_unreadable, migrate_legacy_settings_if_needed,
}
use radiance.Settings.{
  World, save, Writes, quarantine_invalid_settings, load_settings, after_migration, init_settings,
}
use radiance.Settings.Picked.{Heads, level_is_pro, Migrated, migrate-Migrated}

abbrev pub all_well : Writes
all_well = record { makes_dir = true; migrates = true; quarantines = true; saves = true }

-- What the values are when no candidate is pro: the first candidate's, or as before where there is
-- none or where it is no JSON.
abbrev pub FromBlob : Blob → List (String × Value) → List (String × Value) → Type 0
FromBlob (json values) old new = new ≡ values
FromBlob (invalid n) old new = new ≡ old

abbrev pub FromFirst : List CandidateSource → List (String × Value) → List (String × Value) → Type 0
FromFirst [] old new = new ≡ old
FromFirst (c ∷ cs) old new = FromBlob c.blob old new

abbrev pub Recovered : List CandidateSource → List (String × Value) → World × Bool → Type 0
Recovered cs old r =
    (r.1 ≡ true)
    × (r.0.disk.canonical ≡ contents (json r.0.settings.k))
    × ((any_of is_pro cs ≡ false) ⊎ (level_is_pro (json r.0.settings.k) ≡ true))
    × ((any_of is_pro cs ≡ true) ⊎ FromFirst cs old r.0.settings.k)

not_pro_of_none : (cs : List CandidateSource) → cs ≡ [] → any_of is_pro cs ≡ false
not_pro_of_none cs e = ap (any_of is_pro) e

first_of_none :
    (cs : List CandidateSource) (old : List (String × Value)) → cs ≡ [] → FromFirst cs old old
first_of_none [] old e = refl
first_of_none (c ∷ cs) old e = absurd (ground arith)

Heads-from :
    (cs : List CandidateSource) (b : Blob) (old new : List (String × Value))
    → Heads cs b
    → FromBlob b old new
    → FromFirst cs old new
Heads-from [] b old new h f = absurd (ground arith)
Heads-from (c ∷ cs) b old new h f = subst (λ (z : Blob). FromBlob z old new) (sym h) f

first_from :
    (cs : List CandidateSource) (b : Blob) (old new : List (String × Value))
    → FromBlob b old new
    → (any_of is_pro cs ≡ true) ⊎ Heads cs b
    → (any_of is_pro cs ≡ true) ⊎ FromFirst cs old new
first_from cs b old new f (inl p) = inl p
first_from cs b old new f (inr h) = inr (Heads-from cs b old new h f)

not_pro_of_invalid :
    (cs : List CandidateSource) (n : ℕ) {A : Type 0}
    → (any_of is_pro cs ≡ false) ⊎ (level_is_pro (invalid n) ≡ true)
    → (any_of is_pro cs ≡ false) ⊎ A
unfolding user_level_in_json
not_pro_of_invalid cs n (inl e) = inl e
not_pro_of_invalid cs n (inr e) = absurd (ground arith)

load-Recovered :
    (cs : List CandidateSource) (w : World) (f : FileRead)
    → w.disk.canonical ≡ f
    → Migrated cs f
    → Recovered cs w.settings.k (load_settings all_well w f)
unfolding save quarantine_invalid_settings user_level_in_json
load-Recovered cs w missing e m =
    (refl, refl, inl (not_pro_of_none cs m), inr (first_of_none cs w.settings.k m))
load-Recovered cs w unreadable e m = absurd (ground arith)
load-Recovered cs w (contents (json v)) e m =
    (refl, e, m.0, first_from cs (json v) w.settings.k v refl m.1)
load-Recovered cs w (contents (invalid n)) e m = (
  refl,
  refl,
  not_pro_of_invalid cs n m.0,
  first_from cs (invalid n) w.settings.k w.settings.k refl m.1,
)

pub init_settings-Recovered :
    (w : World)
    → w.settings.initialized ≡ false
    → is_unreadable w.disk.canonical ≡ false
    → Recovered (candidates w.disk) w.settings.k (init_settings all_well w)
unfolding init_settings
init_settings-Recovered w n h =
    let w1 = record w { disk = migrate_legacy_settings_if_needed true w.disk } in
    subst
      (λ (b : Bool).
        Recovered (candidates w.disk) w.settings.k
          (if b then (w, true) else after_migration all_well w1))
      (sym n)
      (load-Recovered (candidates w.disk) w1 w1.disk.canonical refl (migrate-Migrated w.disk h))
