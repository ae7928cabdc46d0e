-- ===== src/Config/Handler/Failures.antt =====
-- What a fetch of config/config.go leaves when it fails, and when it does not.
use radiance.Common.{◌≡◌, refl, ◌∙◌, Bool, true, false, Option, none, some}
use radiance.Config.Handler.{
  Config, Platform, Handler, KeyRead, readable, unreadable, Answers, FetchResult, fetched_config,
  no_news, key_failed, fetch_failed, parse_failed, save_failed, clean_tags,
  set_wire_guard_key_in_options, set_custom_protocol_options, set_config, use_parsed, save_raw,
  use_response, with_new_key, with_key, do_fetch_config,
}

module _ {K R O L : Type 0} (p : Platform K O L) where
  -- What is held is the configuration that was parsed, cleaned, with the key that is held and with
  -- the options of the custom protocols.
  abbrev pub HoldsNew : Answers K R O L → Handler K R O L → Type 0
  HoldsNew a g =
      (key : K) × (cfg : Config K O L) × (a.parsed ≡ some cfg)
      × (g.wg_key ≡ some key)
      × (g.config
          ≡ some (
              set_custom_protocol_options p.water_path
                (set_wire_guard_key_in_options p.system key (clean_tags p.trim cfg))))

  -- What a fetch leaves: all but the key and the raw copy as it was, or a new configuration that
  -- could not be written, or one that was.
  abbrev pub Leaves : Answers K R O L → Handler K R O L → Handler K R O L → FetchResult → Type 0
  Leaves a h g fetched_config = HoldsNew a g × (g.config_file ≡ g.config)
  Leaves a h g save_failed =
      HoldsNew a g × (g.config_file ≡ h.config_file) × (g.emitted ≡ h.emitted)
  Leaves a h g _ = (g.config_file ≡ h.config_file) × (g.emitted ≡ h.emitted) × (g.config ≡ h.config)

  use_some-Leaves :
      (h : Handler K R O L) (key : K) (cfg : Config K O L) (a : Answers K R O L) (writes : Bool)
      → h.wg_key ≡ some key
      → a.parsed ≡ some cfg
      → let new =
          set_custom_protocol_options p.water_path
            (set_wire_guard_key_in_options p.system key (clean_tags p.trim cfg)) in
        let (g, r) = set_config p h new writes a.closed_by_then in Leaves a h g r
  unfolding set_config
  use_some-Leaves h key cfg a true k e = ((key, cfg, e, k, refl), refl)
  use_some-Leaves h key cfg a false k e = ((key, cfg, e, k, refl), refl, refl)

  use_parsed-Leaves :
      (h : Handler K R O L) (key : K) (parsed : Option (Config K O L)) (a : Answers K R O L)
      → h.wg_key ≡ some key
      → a.parsed ≡ parsed
      → Leaves a h (use_parsed p h key parsed a).0 (use_parsed p h key parsed a).1
  use_parsed-Leaves h key none a k e = (refl, refl, refl)
  use_parsed-Leaves h key (some cfg) a k e = use_some-Leaves h key cfg a a.writes_config k e

  -- The key and the raw copy are not among what Leaves compares.
  Leaves-beside :
      (a : Answers K R O L) (h h1 g : Handler K R O L) (r : FetchResult)
      → h1.config_file ≡ h.config_file
      → h1.emitted ≡ h.emitted
      → h1.config ≡ h.config
      → Leaves a h1 g r
      → Leaves a h g r
  Leaves-beside a h h1 g fetched_config e1 e2 e3 l = l
  Leaves-beside a h h1 g save_failed e1 e2 e3 (new, b, c) = (new, b ∙ e1, c ∙ e2)
  Leaves-beside a h h1 g no_news e1 e2 e3 (b, c, d) = (b ∙ e1, c ∙ e2, d ∙ e3)
  Leaves-beside a h h1 g key_failed e1 e2 e3 (b, c, d) = (b ∙ e1, c ∙ e2, d ∙ e3)
  Leaves-beside a h h1 g fetch_failed e1 e2 e3 (b, c, d) = (b ∙ e1, c ∙ e2, d ∙ e3)
  Leaves-beside a h h1 g parse_failed e1 e2 e3 (b, c, d) = (b ∙ e1, c ∙ e2, d ∙ e3)

  use_saved-Leaves :
      (h : Handler K R O L) (key : K) (resp : R) (parsed : Option (Config K O L)) (writes : Bool)
      (a : Answers K R O L)
      → h.wg_key ≡ some key
      → a.parsed ≡ parsed
      → Leaves a h
          (use_parsed p (save_raw h resp writes) key parsed a).0
          (use_parsed p (save_raw h resp writes) key parsed a).1
  use_saved-Leaves h key resp parsed true a k e =
      let h1 = record h { raw_file = some resp } in
      Leaves-beside a h h1 (use_parsed p h1 key parsed a).0 (use_parsed p h1 key parsed a).1 refl
        refl refl (use_parsed-Leaves h1 key parsed a k e)
  use_saved-Leaves h key resp parsed false a k e = use_parsed-Leaves h key parsed a k e

  use_response-Leaves :
      (h : Handler K R O L) (key : K) (fetched : Option (Option R)) (a : Answers K R O L)
      → h.wg_key ≡ some key
      → Leaves a h (use_response p h key fetched a).0 (use_response p h key fetched a).1
  use_response-Leaves h key none a k = (refl, refl, refl)
  use_response-Leaves h key (some none) a k = (refl, refl, refl)
  use_response-Leaves h key (some (some resp)) a k =
      use_saved-Leaves h key resp a.parsed a.writes_raw a k refl

  with_new_key-Leaves :
      (h : Handler K R O L) (generated : Option K) (writes : Bool) (a : Answers K R O L)
      → Leaves a h (with_new_key p h generated writes a).0 (with_new_key p h generated writes a).1
  with_new_key-Leaves h none writes a = (refl, refl, refl)
  with_new_key-Leaves h (some key) false a = (refl, refl, refl)
  with_new_key-Leaves h (some key) true a =
      let h1 = record h { wg_key = some key } in
      Leaves-beside a h h1 (use_response p h1 key a.fetched a).0
        (use_response p h1 key a.fetched a).1 refl refl refl
        (use_response-Leaves h1 key a.fetched a refl)

  with_key-Leaves :
      (h : Handler K R O L) (stored : Option K) (read : KeyRead) (a : Answers K R O L)
      → h.wg_key ≡ stored
      → Leaves a h (with_key p h stored read a).0 (with_key p h stored read a).1
  with_key-Leaves h none unreadable a k = (refl, refl, refl)
  with_key-Leaves h none readable a k = with_new_key-Leaves h a.generated a.writes_key a
  with_key-Leaves h (some key) readable a k = use_response-Leaves h key a.fetched a k
  with_key-Leaves h (some key) unreadable a k = (refl, refl, refl)

  -- Through every error of the key, the fetch and the parser, and when there is no news, the
  -- configuration, its file and the announced changes stay; after a success, and also when the new
  -- configuration cannot be written, what is held is the parsed configuration, cleaned, with the key
  -- that is held and the options of the custom protocols; a success leaves it in the file too, and a
  -- failed write leaves the file and the announced changes as they were.
  pub do_fetch_config-Leaves :
      (h : Handler K R O L) (a : Answers K R O L)
      → Leaves a h (do_fetch_config p h a).0 (do_fetch_config p h a).1
  unfolding do_fetch_config
  do_fetch_config-Leaves h a = with_key-Leaves h h.wg_key a.key_read a refl
