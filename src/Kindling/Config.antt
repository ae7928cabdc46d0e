-- ===== src/Kindling/Config.antt =====
-- The configurations of DNS tunnels, of kindling/dnstt/parser.go. The decoding of a file, gunzip and
-- YAML, is an argument; what the options do is the library's.
pub mod Complete
use radiance.Common.{
  ◌≡◌, ◌⊎◌, inl, inr, refl, arith, Bool, true, false, Option, none, some, List, [], ◌∷◌, ◌++◌,
  String, ◌&&◌, ◌||◌, not, if◌then◌else◌,
}
use text.Mathlib.Text.{◌==◌ as str_eq}

pub record DnsttConfig : Type 0 where
  pub domain : String
  pub public_key : String
  pub doh_resolver : Option String
  pub dot_resolver : Option String
  pub utls_distribution : Option String

pub data ConfigError : Type 0 where
  undecoded missing_parameters missing_resolver two_resolvers : ConfigError

pub data Parsed : Type 0 where
  parsed : List DnsttConfig → Parsed
  refused : ConfigError → Parsed

abbrev pub is_some : Option String → Bool
is_some none = false
is_some (some s) = true

-- A round of the loop of parseDNSTTConfigs: the error that it returns, if any.
unfoldable pub check_config : DnsttConfig → Option ConfigError
check_config cfg =
    if str_eq cfg.domain "" || str_eq cfg.public_key ""
    then some missing_parameters
    else (if not (is_some cfg.doh_resolver) && not (is_some cfg.dot_resolver)
        then some missing_resolver
        else (if is_some cfg.doh_resolver && is_some cfg.dot_resolver
            then some two_resolvers
            else none))

unfoldable pub check_configs : List DnsttConfig → Option ConfigError
check_configs [] = none
check_configs (cfg ∷ cfgs) =
    let rest = check_configs cfgs in elim (check_config cfg) [ none ↦ rest | some e ↦ some e ]

-- The argument is what processYaml returns.
unfoldable pub parse_dnstt_configs : Option (List DnsttConfig) → Parsed
parse_dnstt_configs none = refused undecoded
parse_dnstt_configs (some cfgs) = elim (check_configs cfgs) [
  | none ↦ parsed cfgs
  | some e ↦ refused e
]

-- The local configuration file, which replaces the embedded one.
pub data LocalFile : Type 0 where
  not_set : LocalFile
  unreadable : LocalFile
  contents : Option (List DnsttConfig) → LocalFile

abbrev pub replace_by : List DnsttConfig → Parsed → List DnsttConfig
replace_by options (parsed cfgs) = cfgs
replace_by options (refused e) = options

unfoldable pub choose_options : List DnsttConfig → LocalFile → List DnsttConfig
choose_options options not_set = options
choose_options options unreadable = options
choose_options options (contents file) = replace_by options (parse_dnstt_configs file)

-- DNSTTOptions up to the transport that it makes with these configurations.
abbrev pub after_embedded : Parsed → LocalFile → Parsed
after_embedded (refused e) local_file = refused e
after_embedded (parsed options) local_file = parsed (choose_options options local_file)

unfoldable pub dnstt_options : Option (List DnsttConfig) → LocalFile → Parsed
dnstt_options embedded local_file = after_embedded (parse_dnstt_configs embedded) local_file

unfoldable pub cfg_resolver : DnsttConfig → String
cfg_resolver cfg = elim cfg.doh_resolver [
  | some r ↦ r
  | none ↦ elim cfg.dot_resolver [ some r ↦ r | none ↦ "" ]
]

pub data DnsttOption : Type 0 where
  with_tunnel_domain with_public_key with_doh with_dot with_utls_distribution : String → DnsttOption
  with_dialer : DnsttOption

abbrev pub option_of : (String → DnsttOption) → Option String → List DnsttOption
option_of f none = []
option_of f (some s) = f s ∷ []

abbrev pub option_unless_empty : (String → DnsttOption) → String → List DnsttOption
option_unless_empty f s = if str_eq s "" then [] else f s ∷ []

-- The options that newDNSTT passes to the library.
unfoldable pub new_dnstt : DnsttConfig → List DnsttOption
new_dnstt cfg =
    option_unless_empty with_tunnel_domain cfg.domain
    ++ option_unless_empty with_public_key cfg.public_key
    ++ option_of with_doh cfg.doh_resolver
    ++ option_of with_dot cfg.dot_resolver
    ++ option_of with_utls_distribution cfg.utls_distribution
    ++ with_dialer ∷ []
