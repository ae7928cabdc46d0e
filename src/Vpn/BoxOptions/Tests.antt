-- ===== src/Vpn/BoxOptions/Tests.antt =====
-- Options of vpn/boxoptions.go on a concrete configuration.
use radiance.Common.{◌≡◌, refl, Bool, true, false, none, List, [], ◌∷◌, String}
use text.Mathlib.Text.{◌==◌ as str_eq}
use radiance.Vpn.BoxOptions.Rules.{
  Match, all_traffic, udp_443, in_clash_mode, Rule, catch_all_blocker_rule,
}
use radiance.Vpn.BoxOptions.{
  Platform, Outbound, other, water, FullOptions, BoxOptions, SmartRoutingRule, Built, built,
  no_servers, initial_not_found, build_options, base_opts, select_initial, has_global_ipv6,
}
use radiance.Vpn.BoxOptions.Routing.{
  first_match, added_rules, at_first, at_last, or_else, build_options-routes,
}
use radiance.Vpn.BoxOptions.Members.{Outcome, build_options-Outcome}

abbrev keep_text : String → String
keep_text s = s

abbrev no_smart_rules : List SmartRoutingRule → (List Outbound × List Rule) × List String
no_smart_rules rules = (([], []), [])

abbrev block_rule : List String → Rule × List String
block_rule tags = (catch_all_blocker_rule, tags)

abbrev phone : Platform
phone = record { ios = true; android = false; interfaces = none }

abbrev two_servers : BoxOptions
two_servers = record {
  options = record {
    outbounds =
        record { type = other; tag = "fra"; members = []; dir = "" }
        ∷ record { type = water; tag = "nyc"; members = []; dir = "/tmp" }
        ∷ [];
    endpoints = "wg" ∷ [];
    route = none;
    dns = none;
  };
  smart_routing = [];
  ad_block = [];
  non_selectable_outbounds = "fra" ∷ [];
  initial_server = "wg";
}

abbrev result : Built
result = build_options keep_text no_smart_rules block_rule phone "/data/water" two_servers

build_options-Outcome_example : Outcome two_servers result
build_options-Outcome_example =
    build_options-Outcome keep_text no_smart_rules block_rule phone "/data/water" two_servers

abbrev auto_servers : BoxOptions
auto_servers = record two_servers { initial_server = "" }

abbrev auto_result : Built
auto_result = build_options keep_text no_smart_rules block_rule phone "/data/water" auto_servers

abbrev options_of : Built → FullOptions
options_of (built o) = o
options_of no_servers = base_opts phone
options_of initial_not_found = base_opts phone

-- A QUIC connection in manual mode.
abbrev quic : Match → Bool
quic all_traffic = true
quic udp_443 = true
quic (in_clash_mode m) = str_eq m "manual"
quic m = false

result_built : auto_result ≡ built (options_of auto_result)
unfolding build_options select_initial
result_built = refl

build_options-routes_example :
    first_match quic (options_of auto_result).route.rules
    ≡ or_else (at_first true quic) (
        or_else
          (first_match quic (added_rules keep_text no_smart_rules block_rule auto_servers))
          (at_last false quic))
unfolding has_global_ipv6
build_options-routes_example =
    build_options-routes keep_text no_smart_rules block_rule phone "/data/water" auto_servers
      (options_of auto_result) quic result_built refl
