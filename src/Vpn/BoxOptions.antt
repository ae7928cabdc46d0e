-- ===== src/Vpn/BoxOptions.antt =====
-- The options of the box, of vpn/boxoptions.go with vpn/boxoptions_default.go and vpn/dnsoptions.go.
-- The option types of sing-box are cut to what routes a connection, and to what the code merges; the
-- expansions of smart-routing and ad-block rules, a library's, are arguments, as is the test of a
-- rule's match.
pub mod Rules
pub mod Routing
pub mod Members
mod Tests
use radiance.Common.{
  ℕ, zero, suc, ◌+◌, ◌/◌, Bool, true, false, not, ◌&&◌, ◌||◌, Option, none, some, List, [], ◌∷◌,
  ◌++◌, map, keep, if◌then◌else◌, ◌==◌, ltb, any_of, String, get_or, set,
}
use text.Mathlib.Text.{◌==◌ as str_eq}
use radiance.Vpn.BoxOptions.Rules.{
  Rule, base_routing_rules, high_memory_reject_rule, reject_quic_rule, reject_ipv6_rule,
  select_mode_rule, catch_all_blocker_rule, auto_select_tag, manual_select_tag, reserved_tags,
  split_tunnel_tag, inbound_tag, bypass_inbound_tag,
}

-- An address of an interface: of neither kind that the code reads, or an IP address by whether it is
-- a v4 one and by its first byte.
pub data Addr : Type 0 where
  not_ip ipv4 invalid : Addr
  ipv6 : ℕ → Addr

pub record IfaceSnapshot : Type 0 where
  pub up : Bool
  pub loopback : Bool
  pub addrs : List Addr

-- In 2000::/3.
unfoldable pub is_global_ipv6 : Addr → Bool
is_global_ipv6 not_ip = false
is_global_ipv6 ipv4 = false
is_global_ipv6 invalid = false
is_global_ipv6 (ipv6 first) = first / 32 == 1

unfoldable pub has_global_ipv6 : Option (List IfaceSnapshot) → Bool
has_global_ipv6 none = false
has_global_ipv6 (some snaps) =
    any_of (λ s. (s.up && not s.loopback) && any_of is_global_ipv6 s.addrs) snaps

-- What the platform answers.
pub record Platform : Type 0 where
  pub ios : Bool
  pub android : Bool
  pub interfaces : Option (List IfaceSnapshot)

pub data InboundType : Type 0 where
  tun mixed : InboundType

-- An inbound, by whether each of its addresses is of IPv6.
pub record Inbound : Type 0 where
  pub type : InboundType
  pub tag : String
  pub address_is_6 : List Bool

pub data OutboundType : Type 0 where
  direct block water mutable_auto_select mutable_selector other : OutboundType

pub record Outbound : Type 0 where
  pub type : OutboundType
  pub tag : String
  pub members : List String
  pub dir : String

pub data DnsRule : Type 0 where
  suppress_aaaa fakeip : DnsRule
  given : ℕ → DnsRule

pub record DnsOptions : Type 0 where
  pub servers : List String
  pub rules : List DnsRule

pub record RouteOptions : Type 0 where
  pub rules : List Rule
  pub rule_set : List String
  pub default_domain_resolver : String

-- The options of the configuration.
pub record Options : Type 0 where
  pub outbounds : List Outbound
  pub endpoints : List String
  pub route : Option RouteOptions
  pub dns : Option DnsOptions

-- The options of the box.
pub record FullOptions : Type 0 where
  pub inbounds : List Inbound
  pub outbounds : List Outbound
  pub endpoints : List String
  pub route : RouteOptions
  pub dns : DnsOptions
  pub override_android_vpn : Bool
  pub default_mode : String
  pub mode_list : List String

pub record SmartRoutingRule : Type 0 where
  pub category : String
  pub outbounds : List String

-- The fields of BoxOptions that are read here; an ad-block rule is its tag.
pub record BoxOptions : Type 0 where
  pub options : Options
  pub smart_routing : List SmartRoutingRule
  pub ad_block : List String
  pub non_selectable_outbounds : List String
  pub initial_server : String

unfoldable pub base_inbounds : Platform → List Inbound
base_inbounds p =
    record {
      type = tun;
      tag = inbound_tag;
      address_is_6 = false ∷ (if has_global_ipv6 p.interfaces then true ∷ [] else []);
    }
    ∷ record { type = mixed; tag = bypass_inbound_tag; address_is_6 = [] }
    ∷ []

abbrev is_tun : InboundType → Bool
is_tun tun = true
is_tun mixed = false

unfoldable pub has_tun_inbound : List Inbound → Bool
has_tun_inbound inbounds = any_of (λ i. is_tun i.type) inbounds

unfoldable pub base_opts : Platform → FullOptions
base_opts p =
    let inbounds = base_inbounds p in
    record {
      inbounds = inbounds;
      outbounds =
          record { type = direct; tag = "direct"; members = []; dir = "" }
          ∷ record { type = block; tag = "block"; members = []; dir = "" }
          ∷ [];
      endpoints = [];
      route = record {
        rules = if p.ios then high_memory_reject_rule ∷ base_routing_rules else base_routing_rules;
        rule_set = split_tunnel_tag ∷ [];
        default_domain_resolver = "dns_local";
      };
      dns = record {
        servers = "dns_remote" ∷ "dns_local" ∷ "dns_fakeip" ∷ [];
        rules = suppress_aaaa ∷ fakeip ∷ [];
      };
      override_android_vpn = p.android && has_tun_inbound inbounds;
      default_mode = auto_select_tag;
      mode_list = manual_select_tag ∷ auto_select_tag ∷ [];
    }

unfoldable pub tun_has_ipv6 : List Inbound → Bool
tun_has_ipv6 inbounds = any_of (λ i. is_tun i.type && any_of (λ b. b) i.address_is_6) inbounds

abbrev pub listed : String → List String → Bool
listed tag tags = any_of (λ t. str_eq t tag) tags

abbrev pub skips : List String → String → Bool
skips non_selectable tag = listed tag reserved_tags || listed tag non_selectable

unfoldable pub collect_tags : Options → List String → List String
collect_tags src non_selectable =
    keep (λ tag. not (skips non_selectable tag)) (map (λ (o : Outbound). o.tag) src.outbounds)
    ++ keep (λ tag. not (skips non_selectable tag)) src.endpoints

abbrev pub merge_route : FullOptions → Option RouteOptions → FullOptions
merge_route dst none = dst
merge_route dst (some r) = record dst {
  route = record {
    rules = dst.route.rules ++ r.rules;
    rule_set = dst.route.rule_set ++ r.rule_set;
    default_domain_resolver = r.default_domain_resolver;
  };
}

abbrev pub override_dns : FullOptions → Option DnsOptions → FullOptions
override_dns dst none = dst
override_dns dst (some d) = record dst { dns = record d { rules = suppress_aaaa ∷ d.rules } }

-- mergeAndCollectTags, in what it does to `dst`; the tags are those of collect_tags.
unfoldable pub merge : FullOptions → Options → FullOptions
merge dst src =
    let d1 = record dst {
      outbounds = dst.outbounds ++ src.outbounds;
      endpoints = dst.endpoints ++ src.endpoints;
    } in
    override_dns (merge_route d1 src.route) src.dns

abbrev set_dir : String → OutboundType → Outbound → Outbound
set_dir dir water o = record o { dir = dir }
set_dir dir direct o = o
set_dir dir block o = o
set_dir dir mutable_auto_select o = o
set_dir dir mutable_selector o = o
set_dir dir other o = o

-- A WATER outbound keeps its files in the directory of the app.
unfoldable pub set_water_dirs : String → List Outbound → List Outbound
set_water_dirs dir outbounds = map (λ o. set_dir dir o.type o) outbounds

unfoldable pub index : List String → String → Option ℕ
index [] tag = none
index (t ∷ tags) tag =
    let rest = index tags tag in
    if str_eq t tag then some 0 else elim rest [ none ↦ none | some i ↦ some (suc i) ]

-- tags[0], tags[i] = tags[i], tags[0]
unfoldable pub swap_first : List String → ℕ → List String
swap_first tags i = set (set tags 0 (get_or tags i "")) i (get_or tags 0 "")

pub data Built : Type 0 where
  built : FullOptions → Built
  no_servers initial_not_found : Built

abbrev pub add_ipv6_rule : FullOptions → List Rule
add_ipv6_rule opts = if tun_has_ipv6 opts.inbounds then reject_ipv6_rule ∷ [] else []

-- The end of buildOptions, from the QUIC rule on.
unfoldable pub add_selectors : FullOptions → String → List String → FullOptions
add_selectors opts mode tags = record opts {
  outbounds =
      opts.outbounds
      ++ record { type = mutable_auto_select; tag = auto_select_tag; members = tags; dir = "" }
        ∷ record { type = mutable_selector; tag = manual_select_tag; members = tags; dir = "" }
        ∷ [];
  route = record opts.route {
    rules =
        opts.route.rules
        ++ ((reject_quic_rule ∷ add_ipv6_rule opts)
            ++ (select_mode_rule auto_select_tag
                ∷ select_mode_rule manual_select_tag
                ∷ catch_all_blocker_rule
                ∷ []));
  };
  default_mode = mode;
}

abbrev pub with_initial : FullOptions → List String → Option ℕ → Built
with_initial opts tags none = initial_not_found
with_initial opts tags (some i) = built (add_selectors opts manual_select_tag (swap_first tags i))

unfoldable pub select_initial : FullOptions → List String → String → Built
select_initial opts tags initial =
    if str_eq initial "" || str_eq initial auto_select_tag
    then built (add_selectors opts auto_select_tag tags)
    else with_initial opts tags (index tags initial)

abbrev pub is_empty {ℓ} : {A : Type ℓ} → List A → Bool
is_empty [] = true
is_empty (x ∷ xs) = false

module _ (trim_space : String → String)
    (smart_to_options : List SmartRoutingRule → (List Outbound × List Rule) × List String)
    (ad_block_to_options : List String → Rule × List String) where
  unfoldable pub clean_outbounds : List String → List String
  clean_outbounds [] = []
  clean_outbounds (o ∷ os) =
      let rest = clean_outbounds os in
      let tag = trim_space o in if str_eq tag "" then rest else tag ∷ rest

  unfoldable pub normalize_smart_routing_rules : List SmartRoutingRule → List SmartRoutingRule
  normalize_smart_routing_rules [] = []
  normalize_smart_routing_rules (sr ∷ rules) =
      let rest = normalize_smart_routing_rules rules in
      let cleaned = clean_outbounds sr.outbounds in
      if is_empty cleaned then rest else record sr { outbounds = cleaned } ∷ rest

  unfoldable pub normalize_ad_block_rules : List String → List String
  normalize_ad_block_rules [] = []
  normalize_ad_block_rules (rule ∷ rules) =
      let rest = normalize_ad_block_rules rules in
      let tag = trim_space rule in if str_eq tag "" then rest else tag ∷ rest

  unfoldable pub add_smart_routing : List SmartRoutingRule → FullOptions → FullOptions
  add_smart_routing rules opts =
      let added = smart_to_options rules in
      if is_empty rules then opts else record opts {
        outbounds = opts.outbounds ++ added.0.0;
        route = record opts.route {
          rules = opts.route.rules ++ added.0.1;
          rule_set = opts.route.rule_set ++ added.1;
        };
      }

  -- The normalized rules decide whether there are any; it is the others that are expanded.
  unfoldable pub add_ad_block : List String → FullOptions → FullOptions
  add_ad_block rules opts =
      let added = ad_block_to_options rules in
      if is_empty (normalize_ad_block_rules rules) then opts else record opts {
        route = record opts.route {
          rules = opts.route.rules ++ added.0 ∷ [];
          rule_set = opts.route.rule_set ++ added.1;
        };
      }

  -- buildOptions up to the choice of the initial server.
  unfoldable pub merged_options : Platform → String → BoxOptions → FullOptions
  merged_options p water_dir b =
      let o1 = add_smart_routing (normalize_smart_routing_rules b.smart_routing) (base_opts p) in
      let o2 = merge (add_ad_block b.ad_block o1) b.options in
      record o2 { outbounds = set_water_dirs water_dir o2.outbounds }

  unfoldable pub build_options : Platform → String → BoxOptions → Built
  build_options p water_dir b =
      if is_empty b.options.outbounds && is_empty b.options.endpoints
      then no_servers
      else select_initial (merged_options p water_dir b)
          (collect_tags b.options b.non_selectable_outbounds) b.initial_server
