-- ===== src/Config/Handler/Keys.antt =====
-- The WireGuard key of config/config.go through any fetches, and what a failed fetch leaves.
use radiance.Common.{
  ◌≡◌, ◌⊎◌, inl, inr, refl, subst, ◌∙◌, arith, Bool, true, false, Option, none, some, List, [], ◌∷◌,
  All, map, String,
}
use radiance.Config.Handler.{
  ProxyOptions, wire_guard, amnezia, water, other, Config, Platform, Handler, KeyRead, readable,
  unreadable, Answers, clean_tags, set_key, set_wire_guard_key_in_options,
  set_custom_protocol_options, set_config, use_parsed, save_raw, use_response, with_new_key,
  with_key, do_fetch_config,
}

-- An endpoint of WireGuard or AmneziaWG has the key, and makes a system interface only where the
-- platform lets it.
abbrev pub HasKey : {K O : Type 0} → Bool → K → String × ProxyOptions K O → Type 0
HasKey system key (tag, wire_guard w) =
    (w.private_key ≡ key) × ((system ≡ true) ⊎ (w.system ≡ false))
HasKey system key (tag, amnezia w) = (w.private_key ≡ key) × ((system ≡ true) ⊎ (w.system ≡ false))
HasKey system key (tag, _) = Unit

set_key-HasKey :
    {K O : Type 0} (system : Bool) (key : K) (e : String × ProxyOptions K O)
    → HasKey system key (set_key system key e)
unfolding set_key
set_key-HasKey true key (tag, wire_guard w) = (refl, inl refl)
set_key-HasKey false key (tag, wire_guard w) = (refl, inr (ground arith))
set_key-HasKey true key (tag, amnezia w) = (refl, inl refl)
set_key-HasKey false key (tag, amnezia w) = (refl, inr (ground arith))
set_key-HasKey system key (tag, water dir rest) = tt
set_key-HasKey system key (tag, other rest) = tt

map-set_key :
    {K O : Type 0} (system : Bool) (key : K) (es : List (String × ProxyOptions K O))
    → All (HasKey system key) (map (set_key system key) es)
map-set_key system key [] = tt
map-set_key system key (e ∷ es) = (set_key-HasKey system key e, map-set_key system key es)

module _ {K O L : Type 0} (p : Platform K O L) where
  -- A configuration whose endpoints have the key that is stored.
  abbrev pub Keyed : Option K → Option (Config K O L) → Type 0
  Keyed key none = Unit
  Keyed none (some cfg) = ⊥
  Keyed (some key) (some cfg) = All (HasKey p.system key) cfg.endpoints

  none-Keyed : (cfg : Option (Config K O L)) (key : Option K) → Keyed none cfg → Keyed key cfg
  none-Keyed none key k = tt
  none-Keyed (some cfg) key k = absurd k

module _ {K : Type 0} where
  -- The key that is stored, if one is, stays.
  abbrev pub Stays : Option K → Option K → Type 0
  Stays none key = Unit
  Stays (some k) key = key ≡ some k

  Stays-trans : (a b c : Option K) → Stays a b → Stays b c → Stays a c
  Stays-trans none b c s t = tt
  Stays-trans (some k) none c s t = ground arith
  Stays-trans (some k) (some l) c s t = t ∙ s

  Stays-refl : (a : Option K) → Stays a a
  Stays-refl none = tt
  Stays-refl (some k) = refl

module _ {K R O L : Type 0} (p : Platform K O L) where
  abbrev pub BothKeyed : Handler K R O L → Type 0
  BothKeyed h = Keyed p h.wg_key h.config × Keyed p h.wg_key h.config_file

  set_config-Keyed :
      (h : Handler K R O L) (key : K) (cfg : Config K O L) (writes closed : Bool)
      → h.wg_key ≡ some key
      → All (HasKey p.system key) cfg.endpoints
      → BothKeyed h
      → BothKeyed (set_config p h cfg writes closed).0
        × ((set_config p h cfg writes closed).0.wg_key ≡ some key)
  unfolding set_config
  set_config-Keyed h key cfg true closed e k b = ((rw e k, rw e k), e)
  set_config-Keyed h key cfg false closed e k b = ((rw e k, b.1), e)

  use_parsed-Keyed :
      (h : Handler K R O L) (key : K) (parsed : Option (Config K O L)) (a : Answers K R O L)
      → h.wg_key ≡ some key
      → BothKeyed h
      → BothKeyed (use_parsed p h key parsed a).0
        × ((use_parsed p h key parsed a).0.wg_key ≡ some key)
  unfolding set_wire_guard_key_in_options set_custom_protocol_options
  use_parsed-Keyed h key none a e b = (b, e)
  use_parsed-Keyed h key (some cfg) a e b =
      set_config-Keyed h key
        (set_custom_protocol_options p.water_path
          (set_wire_guard_key_in_options p.system key (clean_tags p.trim cfg)))
        a.writes_config a.closed_by_then e
        (map-set_key p.system key (clean_tags p.trim cfg).endpoints) b

  use_saved-Keyed :
      (h : Handler K R O L) (key : K) (resp : R) (writes : Bool) (a : Answers K R O L)
      → h.wg_key ≡ some key
      → BothKeyed h
      → BothKeyed (use_parsed p (save_raw h resp writes) key a.parsed a).0
        × ((use_parsed p (save_raw h resp writes) key a.parsed a).0.wg_key ≡ some key)
  use_saved-Keyed h key resp true a e b =
      use_parsed-Keyed (record h { raw_file = some resp }) key a.parsed a e b
  use_saved-Keyed h key resp false a e b = use_parsed-Keyed h key a.parsed a e b

  use_response-Keyed :
      (h : Handler K R O L) (key : K) (fetched : Option (Option R)) (a : Answers K R O L)
      → h.wg_key ≡ some key
      → BothKeyed h
      → BothKeyed (use_response p h key fetched a).0
        × ((use_response p h key fetched a).0.wg_key ≡ some key)
  use_response-Keyed h key none a e b = (b, e)
  use_response-Keyed h key (some none) a e b = (b, e)
  use_response-Keyed h key (some (some resp)) a e b = use_saved-Keyed h key resp a.writes_raw a e b

  with_new_key-Keyed :
      (h : Handler K R O L) (generated : Option K) (writes : Bool) (a : Answers K R O L)
      → h.wg_key ≡ none
      → BothKeyed h
      → BothKeyed (with_new_key p h generated writes a).0
  with_new_key-Keyed h none writes a e b = b
  with_new_key-Keyed h (some key) false a e b = b
  with_new_key-Keyed h (some key) true a e b =
      let both = subst (λ (k : Option K). Keyed p k h.config × Keyed p k h.config_file) e b in
      (use_response-Keyed (record h { wg_key = some key }) key a.fetched a refl
        (none-Keyed p h.config (some key) both.0, none-Keyed p h.config_file (some key) both.1)).0

  with_key-Keyed :
      (h : Handler K R O L) (stored : Option K) (read : KeyRead) (a : Answers K R O L)
      → h.wg_key ≡ stored
      → BothKeyed h
      → BothKeyed (with_key p h stored read a).0
        × Stays stored (with_key p h stored read a).0.wg_key
  with_key-Keyed h none unreadable a e b = (b, tt)
  with_key-Keyed h none readable a e b = (with_new_key-Keyed h a.generated a.writes_key a e b, tt)
  with_key-Keyed h (some key) readable a e b = use_response-Keyed h key a.fetched a e b
  with_key-Keyed h (some key) unreadable a e b = (b, e)

  unfoldable pub fetch_each : Handler K R O L → List (Answers K R O L) → Handler K R O L
  fetch_each h [] = h
  fetch_each h (a ∷ as_) = fetch_each (do_fetch_config p h a).0 as_

  -- Through any fetches, whatever they are answered, from a handler whose configuration and its file
  -- have the stored key (as one without key and configuration does): a stored key stays, and every
  -- WireGuard and AmneziaWG endpoint of the configuration held, and of the one in the file, has the
  -- stored key and makes no system interface where the platform does not let it.
  pub fetch_each-BothKeyed :
      (h : Handler K R O L) (answers : List (Answers K R O L))
      → BothKeyed h
      → BothKeyed (fetch_each h answers) × Stays h.wg_key (fetch_each h answers).wg_key
  unfolding fetch_each do_fetch_config
  fetch_each-BothKeyed h [] b = (b, Stays-refl h.wg_key)
  fetch_each-BothKeyed h (a ∷ rest) b =
      let (b1, s1) = with_key-Keyed h h.wg_key a.key_read a refl b in
      let (b2, s2) = fetch_each-BothKeyed (do_fetch_config p h a).0 rest b1 in
      (
        b2,
        Stays-trans h.wg_key (do_fetch_config p h a).0.wg_key
            (fetch_each (do_fetch_config p h a).0 rest).wg_key s1 s2,
      )
