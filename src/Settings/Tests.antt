-- ===== src/Settings/Tests.antt =====
-- Starts of common/settings on concrete files.
use radiance.Common.{◌≡◌, refl, true, none, some, [], ◌∷◌}
use radiance.Common.Dict.{lookup}
use radiance.Settings.Migration.{
  string, json, invalid, contents, missing, desktop, Disk, candidates, older_candidates,
  cross_dir_candidates, first_pro, pick, user_level_in_json, translate_legacy_yaml,
  migrate_legacy_settings_if_needed,
}
use radiance.Settings.{World, at_start, init_settings}
use radiance.Settings.Recovered.{all_well, Recovered}
use radiance.Settings.Again.{init_settings-again}

-- After an upgrade: the settings file is of a free user, that of version 8 of a pro user.
abbrev upgraded : Disk
upgraded = record {
  canonical = contents (json (("user_level", string "free") ∷ []));
  local_json = missing;
  cross_dir = [];
  yaml = some (
      desktop (record {
        user_id = 42;
        device_id = "d1";
        user_pro = true;
        user_token = "t";
        email_address = "";
      }));
  nested = contents (invalid 0);
  quarantined = none;
}

abbrev upgrade : World
upgrade = record { settings = at_start; disk = upgraded }

init_settings-again_example :
    let r = init_settings all_well upgrade in
    Recovered (candidates upgraded) at_start.k r
    × ((init_settings all_well (record { settings = at_start; disk = r.0.disk })).0.settings.k
        ≡ r.0.settings.k)
init_settings-again_example = init_settings-again upgrade at_start refl refl refl

level_after_upgrade :
    lookup "user_level" (init_settings all_well upgrade).0.settings.k ≡ some (string "pro")
unfolding lookup init_settings migrate_legacy_settings_if_needed candidates older_candidates
    cross_dir_candidates first_pro pick user_level_in_json translate_legacy_yaml
level_after_upgrade = refl
