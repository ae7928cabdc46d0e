-- ===== src/Vpn/BoxOptions/Routing.antt =====
-- Where the rules of vpn/boxoptions.go send a connection.
use radiance.Common.{
  ◌≡◌, inl, inr, refl, sym, ap, ◌∙◌, arith, Bool, true, false, ◌&&◌, ◌||◌, Option, none, some, List,
  [], ◌∷◌, ◌++◌, append-nil, append_assoc, ap₂, if◌then◌else◌, String, Bool-cases, Option-cases,
}
use text.Mathlib.Text.{◌==◌ as str_eq}
use radiance.Vpn.BoxOptions.Rules.{
  Match, all_traffic, private_ip, udp_443, all_ipv6, on_inbound, with_protocol, in_rule_set,
  in_clash_mode, Action, sniff, hijack_dns, reject, route_to, passes, Rule, base_routing_rules,
  reject_quic_rule, reject_ipv6_rule, select_mode_rule, catch_all_blocker_rule,
  high_memory_reject_rule, auto_select_tag, manual_select_tag, bypass_inbound_tag, split_tunnel_tag,
  reject_mode,
}
use radiance.Vpn.BoxOptions.{
  Platform, Outbound, RouteOptions, DnsOptions, Options, FullOptions, BoxOptions, SmartRoutingRule,
  base_inbounds, has_global_ipv6, base_opts, tun_has_ipv6, merge, merge_route, override_dns, built,
  add_selectors, select_initial, index, swap_first, is_empty, collect_tags,
  normalize_smart_routing_rules, normalize_ad_block_rules, add_smart_routing, add_ad_block,
  merged_options, build_options,
}

abbrev pub or_else : Option Action → Option Action → Option Action
or_else none other = other
or_else (some a) other = some a

abbrev pub unless_passes : Action → Option Action → Option Action
unless_passes sniff rest = rest
unless_passes (passes n) rest = rest
unless_passes hijack_dns rest = some hijack_dns
unless_passes reject rest = some reject
unless_passes (route_to tag) rest = some (route_to tag)

-- The rules are looked at in their order, and the first match decides, unless its action is one after
-- which the next are looked at.
unfoldable pub first_match : (Match → Bool) → List Rule → Option Action
first_match matches [] = none
first_match matches (r ∷ rules) =
    let rest = first_match matches rules in
    if matches r.match then unless_passes r.action rest else rest

first_match-append :
    (matches : Match → Bool) (xs ys : List Rule)
    → first_match matches (xs ++ ys) ≡ or_else (first_match matches xs) (first_match matches ys)
unfolding first_match
first_match-append matches [] ys = refl
first_match-append matches (r ∷ xs) ys =
    passed (matches r.match) r.action (first_match matches xs) (first_match matches (xs ++ ys))
      (first_match matches ys) (first_match-append matches xs ys)
  where
    passed :
        (b : Bool) (a : Action) (one both other : Option Action)
        → both ≡ or_else one other
        → (if b then unless_passes a both else both)
          ≡ or_else (if b then unless_passes a one else one) other
    passed false a one both other e = e
    passed true sniff one both other e = e
    passed true (passes n) one both other e = e
    passed true hijack_dns one both other e = refl
    passed true reject one both other e = refl
    passed true (route_to tag) one both other e = refl

-- The rules of the configuration.
abbrev rules_of : Option RouteOptions → List Rule
rules_of none = []
rules_of (some r) = r.rules

abbrev last_rules : Bool → List Rule
last_rules captures_ipv6 =
    (reject_quic_rule ∷ (if captures_ipv6 then reject_ipv6_rule ∷ [] else []))
    ++ select_mode_rule auto_select_tag
      ∷ select_mode_rule manual_select_tag
      ∷ catch_all_blocker_rule
      ∷ []

abbrev first_rules : Bool → List Rule
first_rules ios = if ios then high_memory_reject_rule ∷ base_routing_rules else base_routing_rules

-- What the fixed rules do with a connection.
abbrev pub at_first : Bool → (Match → Bool) → Option Action
at_first ios matches =
    if ios && matches (in_clash_mode reject_mode)
    then some reject
    else if matches (with_protocol "dns")
    then some hijack_dns
    else if matches (on_inbound bypass_inbound_tag)
        || (matches private_ip || matches (in_rule_set split_tunnel_tag))
    then some (route_to "direct")
    else none

abbrev pub at_last : Bool → (Match → Bool) → Option Action
at_last captures_ipv6 matches =
    if matches udp_443 || (captures_ipv6 && matches all_ipv6)
    then some reject
    else if matches (in_clash_mode auto_select_tag)
    then some (route_to auto_select_tag)
    else if matches (in_clash_mode manual_select_tag)
    then some (route_to manual_select_tag)
    else some reject

first_rules-match :
    (ios : Bool) (matches : Match → Bool)
    → first_match matches (first_rules ios) ≡ at_first ios matches
unfolding first_match base_routing_rules
first_rules-match true matches = ground arith
first_rules-match false matches = ground arith

last_rules-match :
    (captures_ipv6 : Bool) (matches : Match → Bool)
    → matches all_traffic ≡ true
    → first_match matches (last_rules captures_ipv6) ≡ at_last captures_ipv6 matches
unfolding first_match
last_rules-match true matches h = ground arith
last_rules-match false matches h = ground arith

merge-rules :
    (dst : FullOptions) (src : Options)
    → (merge dst src).route.rules ≡ dst.route.rules ++ rules_of src.route
unfolding merge
merge-rules dst src = merged_by src.route src.dns
  where
    merged_by :
        (r : Option RouteOptions) (n : Option DnsOptions)
        → (override_dns
            (merge_route
              (record dst {
                outbounds = dst.outbounds ++ src.outbounds;
                endpoints = dst.endpoints ++ src.endpoints;
              })
              r)
            n).route.rules
          ≡ dst.route.rules ++ rules_of r
    merged_by none none = sym (append-nil dst.route.rules)
    merged_by none (some n) = sym (append-nil dst.route.rules)
    merged_by (some r) none = refl
    merged_by (some r) (some n) = refl

merge-inbounds : (dst : FullOptions) (src : Options) → (merge dst src).inbounds ≡ dst.inbounds
unfolding merge
merge-inbounds dst src = merged_by src.route src.dns
  where
    merged_by :
        (r : Option RouteOptions) (n : Option DnsOptions)
        → (override_dns
            (merge_route
              (record dst {
                outbounds = dst.outbounds ++ src.outbounds;
                endpoints = dst.endpoints ++ src.endpoints;
              })
              r)
            n).inbounds
          ≡ dst.inbounds
    merged_by none none = refl
    merged_by none (some n) = refl
    merged_by (some r) none = refl
    merged_by (some r) (some n) = refl

base_opts-ipv6 : (p : Platform) → tun_has_ipv6 (base_opts p).inbounds ≡ has_global_ipv6 p.interfaces
unfolding base_opts base_inbounds tun_has_ipv6
base_opts-ipv6 p = ground arith

add_selectors-rules :
    (opts : FullOptions) (mode : String) (tags : List String)
    → (add_selectors opts mode tags).route.rules
      ≡ opts.route.rules ++ last_rules (tun_has_ipv6 opts.inbounds)
unfolding add_selectors
add_selectors-rules opts mode tags = refl

select_initial-rules :
    (opts full : FullOptions) (tags : List String) (initial : String)
    → select_initial opts tags initial ≡ built full
    → full.route.rules ≡ opts.route.rules ++ last_rules (tun_has_ipv6 opts.inbounds)
unfolding select_initial
select_initial-rules opts full tags initial h =
    elim (Bool-cases (str_eq initial "" || str_eq initial auto_select_tag)) [
      | inl e ↦
          let same : add_selectors opts auto_select_tag tags ≡ full = ground arith in
          ap (λ (f : FullOptions). f.route.rules) (sym same)
          ∙ add_selectors-rules opts auto_select_tag tags
      | inr e ↦ elim (Option-cases (index tags initial)) [
        | inl n ↦ absurd (ground arith)
        | inr (i, n) ↦
            let same : add_selectors opts manual_select_tag (swap_first tags i) ≡ full =
              ground arith in
            ap (λ (f : FullOptions). f.route.rules) (sym same)
            ∙ add_selectors-rules opts manual_select_tag (swap_first tags i)
      ]
    ]

module _ (trim_space : String → String)
    (smart_to_options : List SmartRoutingRule → (List Outbound × List Rule) × List String)
    (ad_block_to_options : List String → Rule × List String) where
  abbrev smart_of : List SmartRoutingRule → List Rule
  smart_of rules = if is_empty rules then [] else (smart_to_options rules).0.1

  abbrev ads_of : List String → List Rule
  ads_of rules =
      if is_empty (normalize_ad_block_rules trim_space smart_to_options ad_block_to_options rules)
      then []
      else (ad_block_to_options rules).0 ∷ []

  -- The rules from elsewhere: smart routing, ad blocking, the configuration.
  abbrev pub added_rules : BoxOptions → List Rule
  added_rules b =
      smart_of (
        normalize_smart_routing_rules trim_space smart_to_options ad_block_to_options
          b.smart_routing)
      ++ (ads_of b.ad_block ++ rules_of b.options.route)

  smart-rules :
      (rules : List SmartRoutingRule) (opts : FullOptions)
      → (add_smart_routing trim_space smart_to_options ad_block_to_options rules opts).route.rules
        ≡ opts.route.rules ++ smart_of rules
  unfolding add_smart_routing
  smart-rules [] opts = sym (append-nil opts.route.rules)
  smart-rules (r ∷ rules) opts = refl

  ads-rules :
      (rules : List String) (opts : FullOptions)
      → (add_ad_block trim_space smart_to_options ad_block_to_options rules opts).route.rules
        ≡ opts.route.rules ++ ads_of rules
  unfolding add_ad_block
  ads-rules rules opts =
      elim (Bool-cases (
        is_empty
          (normalize_ad_block_rules trim_space smart_to_options ad_block_to_options rules))) [
            | inl e ↦ rw e (sym (append-nil opts.route.rules))
            | inr e ↦ rw e refl
          ]

  smart-inbounds :
      (rules : List SmartRoutingRule) (opts : FullOptions)
      → (add_smart_routing trim_space smart_to_options ad_block_to_options rules opts).inbounds
        ≡ opts.inbounds
  unfolding add_smart_routing
  smart-inbounds [] opts = refl
  smart-inbounds (r ∷ rules) opts = refl

  ads-inbounds :
      (rules : List String) (opts : FullOptions)
      → (add_ad_block trim_space smart_to_options ad_block_to_options rules opts).inbounds
        ≡ opts.inbounds
  unfolding add_ad_block
  ads-inbounds rules opts = ground arith

  merged-inbounds :
      (p : Platform) (dir : String) (b : BoxOptions)
      → (merged_options trim_space smart_to_options ad_block_to_options p dir b).inbounds
        ≡ (base_opts p).inbounds
  unfolding merged_options
  merged-inbounds p dir b =
      let smart =
        normalize_smart_routing_rules trim_space smart_to_options ad_block_to_options
          b.smart_routing in
      let o1 =
        add_smart_routing trim_space smart_to_options ad_block_to_options smart (base_opts p) in
      let o2 = add_ad_block trim_space smart_to_options ad_block_to_options b.ad_block o1 in
      merge-inbounds o2 b.options ∙ ads-inbounds b.ad_block o1 ∙ smart-inbounds smart (base_opts p)

  merged-rules :
      (p : Platform) (dir : String) (b : BoxOptions)
      → (merged_options trim_space smart_to_options ad_block_to_options p dir b).route.rules
        ≡ first_rules p.ios ++ added_rules b
  unfolding merged_options base_opts
  merged-rules p dir b =
      let smart =
        normalize_smart_routing_rules trim_space smart_to_options ad_block_to_options
          b.smart_routing in
      let o1 =
        add_smart_routing trim_space smart_to_options ad_block_to_options smart (base_opts p) in
      let o2 = add_ad_block trim_space smart_to_options ad_block_to_options b.ad_block o1 in
      let last = rules_of b.options.route in
      let base = first_rules p.ios in
      merge-rules o2 b.options
      ∙ ap (λ l. l ++ last) (ads-rules b.ad_block o1)
      ∙ ap (λ l. (l ++ ads_of b.ad_block) ++ last) (smart-rules smart (base_opts p))
      ∙ ap (λ l. l ++ last) (append_assoc base (smart_of smart) (ads_of b.ad_block))
      ∙ append_assoc base (smart_of smart ++ ads_of b.ad_block) last
      ∙ ap (λ l. base ++ l) (append_assoc (smart_of smart) (ads_of b.ad_block) last)

  -- When buildOptions succeeds, for any connection, given by the matches that are true of it, of which
  -- a rule without conditions is one: what the first matching rule does with it is, in this order, to
  -- reject it on iOS in the mode in which memory is reclaimed; to take over DNS; to go direct for the
  -- bypass inbound, a private address or a match of split tunneling; to do what the first matching rule
  -- of smart routing, ad blocking and the configuration says; to reject UDP to port 443, and IPv6 when
  -- the tunnel captures it, which it does when an interface that is up has a global IPv6 address; to go
  -- to the outbound of the mode, automatic or manual; and otherwise to reject it. So no connection is
  -- left to the default outbound.
  pub build_options-routes :
      (p : Platform) (dir : String) (b : BoxOptions) (full : FullOptions) (matches : Match → Bool)
      → build_options trim_space smart_to_options ad_block_to_options p dir b ≡ built full
      → matches all_traffic ≡ true
      → first_match matches full.route.rules
        ≡ or_else (at_first p.ios matches) (
            or_else
              (first_match matches (added_rules b))
              (at_last (has_global_ipv6 p.interfaces) matches))
  unfolding build_options
  build_options-routes p dir b full matches h all =
      elim (Bool-cases (is_empty b.options.outbounds && is_empty b.options.endpoints)) [
        | inl e ↦ absurd (ground arith)
        | inr e ↦
            let opts = merged_options trim_space smart_to_options ad_block_to_options p dir b in
            let tags = collect_tags b.options b.non_selectable_outbounds in
            let v6 : tun_has_ipv6 opts.inbounds ≡ has_global_ipv6 p.interfaces =
              ap tun_has_ipv6 (merged-inbounds p dir b) ∙ base_opts-ipv6 p in
            let chosen : select_initial opts tags b.initial_server ≡ built full = ground arith in
            let rules : full.route.rules
                ≡ (first_rules p.ios ++ added_rules b)
                  ++ last_rules (has_global_ipv6 p.interfaces) =
              select_initial-rules opts full tags b.initial_server chosen
              ∙ ap (λ l. l ++ last_rules (tun_has_ipv6 opts.inbounds)) (merged-rules p dir b)
              ∙ ap (λ v. (first_rules p.ios ++ added_rules b) ++ last_rules v) v6 in
            ap (first_match matches) (
              rules
              ∙ append_assoc (first_rules p.ios) (added_rules b)
                  (last_rules (has_global_ipv6 p.interfaces)))
            ∙ first_match-append matches (first_rules p.ios)
                (added_rules b ++ last_rules (has_global_ipv6 p.interfaces))
            ∙ ap₂ or_else (first_rules-match p.ios matches) (
                first_match-append matches (added_rules b)
                  (last_rules (has_global_ipv6 p.interfaces))
                ∙ ap (or_else (first_match matches (added_rules b)))
                    (last_rules-match (has_global_ipv6 p.interfaces) matches all))
      ]
