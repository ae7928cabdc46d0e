-- ===== src/Settings.antt =====
-- The settings of common/settings: settings.go with legacy_yaml.go and legacy_crossdir.go. A value is
-- a text or of another kind; a file holds the JSON form of some values, or is no JSON. The keys have
-- no dots, which the map of settings would take for paths. Whether a write succeeds is an argument.
pub mod Migration
pub mod Picked
pub mod Recovered
pub mod Again
mod Tests
use radiance.Common.{
  ℕ, Bool, true, false, not, Option, none, some, List, [], ◌∷◌, ◌++◌, if◌then◌else◌, ◌==◌, String,
}
use radiance.Common.Dict.{lookup, insert, delete}
use radiance.Settings.Migration.{
  Value, string, Blob, json, invalid, FileRead, contents, missing, unreadable, Disk,
  migrate_legacy_settings_if_needed,
}

pub record Settings : Type 0 where
  pub k : List (String × Value)
  pub initialized : Bool

pub record World : Type 0 where
  pub settings : Settings
  pub disk : Disk

abbrev pub default_values : List (String × Value)
default_values = ("locale", string "fa-IR") ∷ ("user_level", string "free") ∷ []

abbrev pub at_start : Settings
at_start = record { k = default_values; initialized = false }

unfoldable pub save : Bool → World → World × Bool
save written w =
    if written
    then (record w { disk = record w.disk { canonical = contents (json w.settings.k) } }, true)
    else (w, false)

-- What InitSettings meets: the directory, and each of its writes.
pub record Writes : Type 0 where
  pub makes_dir : Bool
  pub migrates : Bool
  pub quarantines : Bool
  pub saves : Bool

unfoldable pub quarantine_invalid_settings : Bool → Disk → Blob → Disk
quarantine_invalid_settings written d b = if written then record d { quarantined = some b } else d

abbrev pub set_initialized : World → World
set_initialized w = record w { settings = record w.settings { initialized = true } }

abbrev pub after_save : World × Bool → World × Bool
after_save r = if r.1 then (set_initialized r.0, true) else r

-- What follows the read of the settings file.
abbrev pub load_settings : Writes → World → FileRead → World × Bool
load_settings o w missing = after_save (save o.saves w)
load_settings o w unreadable = (w, false)
load_settings o w (contents (json values)) =
    (set_initialized (record w { settings = record w.settings { k = values } }), true)
load_settings o w (contents (invalid n)) =
    let d = quarantine_invalid_settings o.quarantines w.disk (invalid n) in
    after_save (save o.saves (record w { disk = d }))

abbrev pub after_migration : Writes → World → World × Bool
after_migration o w = load_settings o w w.disk.canonical

-- InitSettings: whether it succeeds.
unfoldable pub init_settings : Writes → World → World × Bool
init_settings o w =
    if w.settings.initialized
    then (w, true)
    else if not o.makes_dir
    then (w, false)
    else after_migration o (record w { disk = migrate_legacy_settings_if_needed o.migrates w.disk })

unfoldable pub set_value : Bool → String → Value → World → World × Bool
set_value written key value w =
    save written (record w { settings = record w.settings { k = insert key value w.settings.k } })

unfoldable pub delete_all : List String → List (String × Value) → List (String × Value)
delete_all [] k = k
delete_all (key ∷ keys) k = delete_all keys (delete key k)

unfoldable pub clear : Bool → List String → World → World × Bool
clear written keys w =
    save written (record w { settings = record w.settings { k = delete_all keys w.settings.k } })

unfoldable pub insert_all : List (String × Value) → List (String × Value) → List (String × Value)
insert_all [] k = k
insert_all (u ∷ updates) k = insert_all updates (insert u.0 u.1 k)

unfoldable pub patch : Bool → List (String × Value) → World → World × Bool
patch written updates w =
    save written (record w { settings = record w.settings { k = insert_all updates w.settings.k } })
