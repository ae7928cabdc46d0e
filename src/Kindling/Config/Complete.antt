-- ===== src/Kindling/Config/Complete.antt =====
-- Which configurations the transport of kindling/dnstt/parser.go can come to hold.
use radiance.Common.{
  ◌≡◌, ◌⊎◌, inl, inr, refl, subst, arith, false, Option, none, some, List, [], ◌∷◌, ◌++◌, String,
  All, Option-cases,
}
use radiance.Kindling.Config.{
  DnsttConfig, ConfigError, Parsed, parsed, refused, check_config, check_configs,
  parse_dnstt_configs, LocalFile, not_set, unreadable, contents, after_embedded, choose_options,
  replace_by, dnstt_options, cfg_resolver, DnsttOption, with_tunnel_domain, with_public_key,
  with_doh, with_dot, with_utls_distribution, with_dialer, option_of, new_dnstt,
}
use text.Mathlib.Text.{◌==◌ as str_eq}

-- The options that a complete configuration gives, by the option for its resolver.
abbrev options_with : DnsttConfig → DnsttOption → List DnsttOption
options_with cfg resolver =
    with_tunnel_domain cfg.domain
      ∷ with_public_key cfg.public_key
      ∷ resolver
      ∷ option_of with_utls_distribution cfg.utls_distribution
    ++ with_dialer ∷ []

-- A domain, a key and exactly one resolver, the one that cfgResolver names.
abbrev pub Complete : DnsttConfig → Type 0
Complete cfg =
    (str_eq cfg.domain "" ≡ false)
    × (str_eq cfg.public_key "" ≡ false)
    × ((new_dnstt cfg ≡ options_with cfg (with_doh (cfg_resolver cfg)))
        ⊎ (new_dnstt cfg ≡ options_with cfg (with_dot (cfg_resolver cfg))))

with_resolver :
    (cfg : DnsttConfig) (doh dot : Option String)
    → cfg.doh_resolver ≡ doh
    → cfg.dot_resolver ≡ dot
    → str_eq cfg.domain "" ≡ false
    → str_eq cfg.public_key "" ≡ false
    → check_config cfg ≡ none
    → (new_dnstt cfg ≡ options_with cfg (with_doh (cfg_resolver cfg)))
      ⊎ (new_dnstt cfg ≡ options_with cfg (with_dot (cfg_resolver cfg)))
unfolding check_config new_dnstt cfg_resolver
with_resolver cfg none none e f d k h = absurd (ground arith)
with_resolver cfg (some r) (some s) e f d k h = absurd (ground arith)
with_resolver cfg (some r) none e f d k h = inl (rw (e, f, d, k) refl)
with_resolver cfg none (some s) e f d k h = inr (rw (e, f, d, k) refl)

check_config-Complete : (cfg : DnsttConfig) → check_config cfg ≡ none → Complete cfg
unfolding check_config
check_config-Complete cfg h =
    let d : str_eq cfg.domain "" ≡ false = ground arith in
    let k : str_eq cfg.public_key "" ≡ false = ground arith in
    (d, k, with_resolver cfg cfg.doh_resolver cfg.dot_resolver refl refl d k h)

check_configs-Complete : (cfgs : List DnsttConfig) → check_configs cfgs ≡ none → All Complete cfgs
unfolding check_configs
check_configs-Complete [] h = tt
check_configs-Complete (cfg ∷ cfgs) h = elim (Option-cases (check_config cfg)) [
  | inl e ↦ (check_config-Complete cfg e, check_configs-Complete cfgs (ground arith))
  | inr (err, e) ↦ absurd (ground arith)
]

parsed-Complete :
    (file : Option (List DnsttConfig)) (cfgs : List DnsttConfig)
    → parse_dnstt_configs file ≡ parsed cfgs
    → All Complete cfgs
unfolding parse_dnstt_configs
parsed-Complete none cfgs h = absurd (ground arith)
parsed-Complete (some l) cfgs h = elim (Option-cases (check_configs l)) [
  | inl e ↦
      let same : l ≡ cfgs = ground arith in
      subst (λ (z : List DnsttConfig). All Complete z) same (check_configs-Complete l e)
  | inr (err, e) ↦ absurd (ground arith)
]

abbrev pub NoneLocal : LocalFile → Type 0
NoneLocal not_set = Unit
NoneLocal unreadable = Unit
NoneLocal (contents file) = (e : ConfigError) × (parse_dnstt_configs file ≡ refused e)

-- The source of the configurations that the transport gets.
abbrev pub From : Option (List DnsttConfig) → LocalFile → List DnsttConfig → Type 0
From embedded local_file cfgs =
    ((parse_dnstt_configs embedded ≡ parsed cfgs) × NoneLocal local_file)
    ⊎ ((file : Option (List DnsttConfig)) × (local_file ≡ contents file)
        × (parse_dnstt_configs file ≡ parsed cfgs))

abbrev pub Outcome : Option (List DnsttConfig) → LocalFile → Parsed → Type 0
Outcome embedded local_file (refused e) = parse_dnstt_configs embedded ≡ refused e
Outcome embedded local_file (parsed cfgs) = From embedded local_file cfgs × All Complete cfgs

of_embedded :
    (embedded : Option (List DnsttConfig)) (local_file : LocalFile) (options : List DnsttConfig)
    → parse_dnstt_configs embedded ≡ parsed options
    → NoneLocal local_file
    → Outcome embedded local_file (parsed options)
of_embedded embedded local_file options h n = (inl (h, n), parsed-Complete embedded options h)

of_local :
    (embedded file : Option (List DnsttConfig)) (options : List DnsttConfig) (p : Parsed)
    → parse_dnstt_configs embedded ≡ parsed options
    → parse_dnstt_configs file ≡ p
    → Outcome embedded (contents file) (parsed (replace_by options p))
of_local embedded file options (parsed cfgs) h e =
    (inr (file, refl, e), parsed-Complete file cfgs e)
of_local embedded file options (refused err) h e =
    of_embedded embedded (contents file) options h (err, e)

chosen :
    (embedded : Option (List DnsttConfig)) (local_file : LocalFile) (p : Parsed)
    → parse_dnstt_configs embedded ≡ p
    → Outcome embedded local_file (after_embedded p local_file)
unfolding choose_options
chosen embedded local_file (refused e) h = h
chosen embedded not_set (parsed options) h = of_embedded embedded not_set options h tt
chosen embedded unreadable (parsed options) h = of_embedded embedded unreadable options h tt
chosen embedded (contents file) (parsed options) h =
    of_local embedded file options (parse_dnstt_configs file) h refl

-- Whatever the embedded and the local file hold: DNSTTOptions fails only with the error that the
-- embedded configurations give; otherwise its configurations are all those of the local file when that
-- is set, can be read and is accepted, and else all those of the embedded file, and each has a domain, a key and one resolver, so that newDNSTT
-- passes on the domain, the key, and DoH or DoT to the resolver that cfgResolver names, not both,
-- before the fingerprints and the dialer.
pub dnstt_options-Outcome :
    (embedded : Option (List DnsttConfig)) (local_file : LocalFile)
    → Outcome embedded local_file (dnstt_options embedded local_file)
unfolding dnstt_options
dnstt_options-Outcome embedded local_file =
    chosen embedded local_file (parse_dnstt_configs embedded) refl
