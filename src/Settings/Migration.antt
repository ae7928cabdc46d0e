-- ===== src/Settings/Migration.antt =====
-- The recovery of settings that older versions of the app left, of common/settings/settings.go,
-- legacy_yaml.go and legacy_crossdir.go.
use radiance.Common.{
  ℕ, Bool, true, false, not, ◌||◌, Option, none, some, List, [], ◌∷◌, ◌++◌, if◌then◌else◌, ◌==◌,
  String,
}
use radiance.Common.Dict.{lookup}
use text.Mathlib.Text.{◌==◌ as str_eq}

pub data Value : Type 0 where
  string : String → Value
  number : ℕ → Value
  other : ℕ → Value

pub data Blob : Type 0 where
  json : List (String × Value) → Blob
  invalid : ℕ → Blob

pub data FileRead : Type 0 where
  contents : Blob → FileRead
  missing unreadable : FileRead

-- The YAML of a version before 9, as decoded by its layout; a number that is absent is 0, a text "".
pub record DesktopYaml : Type 0 where
  pub user_id : ℕ
  pub device_id : String
  pub user_pro : Bool
  pub user_token : String
  pub email_address : String

pub record IosYaml : Type 0 where
  pub user_id : ℕ
  pub device_id : String
  pub token : String

pub data Legacy : Type 0 where
  desktop : DesktopYaml → Legacy
  ios : IosYaml → Legacy

-- `cross_dir` are the reads of the two files of a Windows v9.0.x, none elsewhere; `yaml` is absent
-- also where it cannot be read or decoded.
pub record Disk : Type 0 where
  pub canonical : FileRead
  pub local_json : FileRead
  pub cross_dir : List FileRead
  pub yaml : Option Legacy
  pub nested : FileRead
  pub quarantined : Option Blob

abbrev pub text_unless_empty : String → String → List (String × Value)
text_unless_empty key s = if str_eq s "" then [] else (key, string s) ∷ []

abbrev pub number_unless_zero : String → ℕ → List (String × Value)
number_unless_zero key n = if n == 0 then [] else (key, number n) ∷ []

abbrev pub desktop_level : DesktopYaml → String
desktop_level d = if d.user_pro then "pro" else if d.user_id == 0 then "" else "free"

unfoldable pub translate_legacy_yaml : Legacy → List (String × Value)
translate_legacy_yaml (desktop d) =
    number_unless_zero "user_id" d.user_id
    ++ (text_unless_empty "device_id" d.device_id
        ++ (text_unless_empty "user_level" (desktop_level d)
            ++ (text_unless_empty "token" d.user_token
                ++ text_unless_empty "email" d.email_address)))
translate_legacy_yaml (ios i) =
    number_unless_zero "user_id" i.user_id
    ++ (text_unless_empty "device_id" i.device_id ++ text_unless_empty "token" i.token)

abbrev pub level_text : Option Value → String
level_text none = ""
level_text (some (string s)) = s
level_text (some (number n)) = ""
level_text (some (other n)) = ""

unfoldable pub user_level_in_json : Blob → String
user_level_in_json (json values) = level_text (lookup "user_level" values)
user_level_in_json (invalid n) = ""

-- A candidate that exists: its contents, and whether its path is the canonical one.
pub record CandidateSource : Type 0 where
  pub blob : Blob
  pub is_canonical : Bool

abbrev pub candidate : Bool → FileRead → List CandidateSource
candidate c (contents b) = record { blob = b; is_canonical = c } ∷ []
candidate c missing = []
candidate c unreadable = []

abbrev pub yaml_candidate : Option Legacy → List CandidateSource
yaml_candidate none = []
yaml_candidate (some y) =
    record { blob = json (translate_legacy_yaml y); is_canonical = false } ∷ []

unfoldable pub cross_dir_candidates : List FileRead → List CandidateSource
cross_dir_candidates [] = []
cross_dir_candidates (f ∷ files) = candidate false f ++ cross_dir_candidates files

-- Those that exist, by falling priority; those other than the canonical file first.
unfoldable pub older_candidates : Disk → List CandidateSource
older_candidates d =
    candidate false d.local_json
    ++ (cross_dir_candidates d.cross_dir ++ (yaml_candidate d.yaml ++ candidate false d.nested))

unfoldable pub candidates : Disk → List CandidateSource
candidates d = candidate true d.canonical ++ older_candidates d

abbrev pub is_pro : CandidateSource → Bool
is_pro c = str_eq (user_level_in_json c.blob) "pro"

unfoldable pub first_pro : List CandidateSource → Option CandidateSource
first_pro [] = none
first_pro (c ∷ cs) = let rest = first_pro cs in if is_pro c then some c else rest

abbrev pub first_of : List CandidateSource → Option CandidateSource
first_of [] = none
first_of (c ∷ cs) = some c

abbrev pub or_first : Option CandidateSource → Option CandidateSource → Option CandidateSource
or_first (some c) first = some c
or_first none first = first

unfoldable pub pick : List CandidateSource → Option CandidateSource
pick cs = or_first (first_pro cs) (first_of cs)

abbrev pub write_migrated : Bool → Disk → Option CandidateSource → Disk
write_migrated written d none = d
write_migrated written d (some c) =
    if c.is_canonical || not written then d else record d { canonical = contents c.blob }

abbrev pub is_unreadable : FileRead → Bool
is_unreadable unreadable = true
is_unreadable missing = false
is_unreadable (contents b) = false

unfoldable pub migrate_legacy_settings_if_needed : Bool → Disk → Disk
migrate_legacy_settings_if_needed written d =
    if is_unreadable d.canonical then d else write_migrated written d (pick (candidates d))
