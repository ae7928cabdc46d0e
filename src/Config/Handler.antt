-- ===== src/Config/Handler.antt =====
-- The fetching of config/config.go. fetchConfig is made of the parts that run under fetchMu: what a
-- caller does on entry, and what the one that fetches does after each doFetchConfig. Whether
-- fetching is disabled and whether the handler is closed are arguments, and so are the answers of
-- the file system, the key generator, the fetcher and the parser.
pub mod Single
pub mod Keys
pub mod Failures
use radiance.Common.{
  ℕ, Bool, true, false, Option, none, some, List, [], ◌∷◌, ◌&&◌, if◌then◌else◌, ltb, map, String,
}
use radiance.Common.Dict.{lookup, insert}

pub record FetchState : Type 0 where
  pub fetching : Bool
  pub pending : Bool

-- What a call of fetchConfig meets: it returns nil, an error, or nil having left a mark, or fetches.
pub data Entry : Type 0 where
  skipped closed scheduled fetches : Entry

unfoldable pub enter : FetchState → Bool → Bool → FetchState × Entry
enter f fetch_disabled is_closed =
    if fetch_disabled
    then (f, skipped)
    else if is_closed
    then (f, closed)
    else if f.fetching
    then (record f { pending = true }, scheduled)
    else (record f { fetching = true }, fetches)

-- After doFetchConfig: whether it is called again.
unfoldable pub fetch_over : FetchState → FetchState × Bool
fetch_over f =
    if f.pending
    then (record f { pending = false }, true)
    else (record f { fetching = false }, false)

-- The interval to the next poll, in seconds, by the server's where there is a config.
unfoldable pub poll_interval : ℕ → Option ℕ → ℕ
poll_interval default_interval none = default_interval
poll_interval default_interval (some seconds) =
    if ltb 0 seconds then (if ltb seconds 10 then 10 else seconds) else default_interval

-- What the code sets of the options of a proxy: those of a WireGuard or AmneziaWG endpoint and those
-- of a WATER outbound; the rest of them is of sing-box.
pub record WireGuard (K O : Type 0) : Type 0 where
  pub private_key : K
  pub system : Bool
  pub rest : O

pub data ProxyOptions (K O : Type 0) : Type 0 where
  wire_guard amnezia : WireGuard K O → ProxyOptions K O
  water : String → O → ProxyOptions K O
  other : O → ProxyOptions K O

-- The configuration's proxies, by tag and options, and where they are.
pub record Config (K O L : Type 0) : Type 0 where
  pub outbounds : List (String × ProxyOptions K O)
  pub endpoints : List (String × ProxyOptions K O)
  pub locations : List (String × Option L)

abbrev pub or_nil : {L : Type 0} → Option (Option L) → Option L
or_nil none = none
or_nil (some l) = l

abbrev pub retag : {P : Type 0} → (String → String) → String × P → String × P
retag trim (tag, p) = (trim tag, p)

-- A loop of cleanTags; `trim` takes the prefix off a tag.
unfoldable pub clean_locations :
    {P L : Type 0}
    → (String → String)
    → List (String × Option L)
    → List (String × P)
    → List (String × Option L)
    → List (String × Option L)
clean_locations trim locs [] nlocs = nlocs
clean_locations trim locs ((tag, p) ∷ ps) nlocs =
    clean_locations trim locs ps (insert (trim tag) (or_nil (lookup tag locs)) nlocs)

module _ {K O : Type 0} where
  unfoldable pub set_key : Bool → K → String × ProxyOptions K O → String × ProxyOptions K O
  set_key system key (tag, wire_guard w) =
      (tag, wire_guard (record w { private_key = key; system = w.system && system }))
  set_key system key (tag, amnezia w) =
      (tag, amnezia (record w { private_key = key; system = w.system && system }))
  set_key system key (tag, water dir rest) = (tag, water dir rest)
  set_key system key (tag, other rest) = (tag, other rest)

  unfoldable pub set_directory : String → String × ProxyOptions K O → String × ProxyOptions K O
  set_directory path (tag, wire_guard w) = (tag, wire_guard w)
  set_directory path (tag, amnezia w) = (tag, amnezia w)
  set_directory path (tag, water dir rest) = (tag, water path rest)
  set_directory path (tag, other rest) = (tag, other rest)

module _ {K O L : Type 0} where
  unfoldable pub clean_tags : (String → String) → Config K O L → Config K O L
  clean_tags trim cfg = record {
    outbounds = map (retag trim) cfg.outbounds;
    endpoints = map (retag trim) cfg.endpoints;
    locations =
        clean_locations trim cfg.locations cfg.endpoints
          (clean_locations trim cfg.locations cfg.outbounds []);
  }

  unfoldable pub set_wire_guard_key_in_options : Bool → K → Config K O L → Config K O L
  set_wire_guard_key_in_options system key cfg = record cfg {
    endpoints = map (set_key system key) cfg.endpoints;
  }

  unfoldable pub set_custom_protocol_options : String → Config K O L → Config K O L
  set_custom_protocol_options path cfg = record cfg {
    outbounds = map (set_directory path) cfg.outbounds;
  }

-- The handler as doFetchConfig changes it: the key file, the raw copy of the last response, the
-- configuration and its file, and the changes announced, the last first.
pub record Handler (K R O L : Type 0) : Type 0 where
  pub wg_key : Option K
  pub raw_file : Option R
  pub config : Option (Config K O L)
  pub config_file : Option (Config K O L)
  pub emitted : List (Option (Config K O L) × Config K O L)

-- What reading the key file gives besides its key, if it is there: nothing, or an error of reading
-- or parsing it.
pub data KeyRead : Type 0 where
  readable unreadable : KeyRead

-- What doFetchConfig is answered: on the key file, by the key generator, on writing the key, by the
-- fetcher (an error, no news, or a response), on writing the raw copy, by the parser, on writing the
-- configuration, and whether the handler is closed by then.
pub record Answers (K R O L : Type 0) : Type 0 where
  pub key_read : KeyRead
  pub generated : Option K
  pub writes_key : Bool
  pub fetched : Option (Option R)
  pub writes_raw : Bool
  pub parsed : Option (Config K O L)
  pub writes_config : Bool
  pub closed_by_then : Bool

pub data FetchResult : Type 0 where
  fetched_config no_news : FetchResult
  key_failed fetch_failed parse_failed save_failed : FetchResult

-- What does not change between fetches: the prefix of tags, whether the platform lets an endpoint
-- make a system interface, the directory for WATER, and the equality of configurations.
pub record Platform (K O L : Type 0) : Type 0 where
  pub trim : String → String
  pub system : Bool
  pub water_path : String
  pub same : Config K O L → Config K O L → Bool

module _ {K O L : Type 0} (p : Platform K O L) where
  abbrev pub differs : Option (Config K O L) → Config K O L → Bool
  differs none new = true
  differs (some old) new = if p.same old new then false else true

abbrev pub save_raw : {K R O L : Type 0} → Handler K R O L → R → Bool → Handler K R O L
save_raw h resp true = record h { raw_file = some resp }
save_raw h resp false = h

module _ {K R O L : Type 0} (p : Platform K O L) where
  unfoldable pub set_config :
      Handler K R O L → Config K O L → Bool → Bool → Handler K R O L × FetchResult
  set_config h cfg writes closed_by_then =
      let h1 = record h { config = some cfg } in
      if writes
      then (
        record h1 {
          config_file = some cfg;
          emitted =
              if closed_by_then
              then h.emitted
              else if differs p h.config cfg
              then (h.config, cfg) ∷ h.emitted
              else h.emitted;
        },
        fetched_config,
      )
      else (h1, save_failed)

  abbrev pub use_parsed :
      Handler K R O L → K → Option (Config K O L) → Answers K R O L → Handler K R O L × FetchResult
  use_parsed h key none a = (h, parse_failed)
  use_parsed h key (some cfg) a =
      set_config h
        (set_custom_protocol_options p.water_path
          (set_wire_guard_key_in_options p.system key (clean_tags p.trim cfg)))
        a.writes_config a.closed_by_then

  abbrev pub use_response :
      Handler K R O L → K → Option (Option R) → Answers K R O L → Handler K R O L × FetchResult
  use_response h key none a = (h, fetch_failed)
  use_response h key (some none) a = (h, no_news)
  use_response h key (some (some resp)) a = use_parsed (save_raw h resp a.writes_raw) key a.parsed a

  abbrev pub with_new_key :
      Handler K R O L → Option K → Bool → Answers K R O L → Handler K R O L × FetchResult
  with_new_key h none writes a = (h, key_failed)
  with_new_key h (some key) true a = use_response (record h { wg_key = some key }) key a.fetched a
  with_new_key h (some key) false a = (h, key_failed)

  abbrev pub with_key :
      Handler K R O L → Option K → KeyRead → Answers K R O L → Handler K R O L × FetchResult
  with_key h none readable a = with_new_key h a.generated a.writes_key a
  with_key h none unreadable a = (h, key_failed)
  with_key h (some key) readable a = use_response h key a.fetched a
  with_key h (some key) unreadable a = (h, key_failed)

  unfoldable pub do_fetch_config : Handler K R O L → Answers K R O L → Handler K R O L × FetchResult
  do_fetch_config h a = with_key h h.wg_key a.key_read a
