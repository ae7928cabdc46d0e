-- ===== src/Vpn/BoxOptions/Rules.antt =====
-- The routing rules of vpn/boxoptions.go and vpn/boxoptions_default.go.
use radiance.Common.{ℕ, List, [], ◌∷◌, ◌++◌, String}

-- What a rule asks of a connection; `given` are the matches of rules from elsewhere.
pub data Match : Type 0 where
  all_traffic private_ip udp_443 all_ipv6 : Match
  on_inbound with_protocol in_rule_set in_clash_mode : String → Match
  given : ℕ → Match

-- What it then does; `passes` are further actions after which the next rules are looked at.
pub data Action : Type 0 where
  sniff hijack_dns reject : Action
  route_to : String → Action
  passes : ℕ → Action

pub record Rule : Type 0 where
  pub match : Match
  pub action : Action

abbrev pub auto_select_tag : String
auto_select_tag = "auto"

abbrev pub manual_select_tag : String
manual_select_tag = "manual"

abbrev pub reserved_tags : List String
reserved_tags = auto_select_tag ∷ manual_select_tag ∷ "direct" ∷ "block" ∷ []

abbrev pub inbound_tag : String
inbound_tag = "tun-in"

abbrev pub reject_mode : String
reject_mode = "reject"

abbrev pub bypass_inbound_tag : String
bypass_inbound_tag = "bypass-in"

abbrev pub split_tunnel_tag : String
split_tunnel_tag = "split-tunnel"

abbrev pub bypass_routing_rules : List Rule
bypass_routing_rules =
    record { match = on_inbound bypass_inbound_tag; action = route_to "direct" } ∷ []

abbrev pub split_tunnel_routing_rules : List Rule
split_tunnel_routing_rules =
    record { match = in_rule_set split_tunnel_tag; action = route_to "direct" } ∷ []

unfoldable pub base_routing_rules : List Rule
base_routing_rules =
    record { match = on_inbound inbound_tag; action = sniff }
      ∷ record { match = with_protocol "dns"; action = hijack_dns }
      ∷ bypass_routing_rules
    ++ record { match = private_ip; action = route_to "direct" } ∷ split_tunnel_routing_rules

abbrev pub reject_quic_rule : Rule
reject_quic_rule = record { match = udp_443; action = reject }

abbrev pub reject_ipv6_rule : Rule
reject_ipv6_rule = record { match = all_ipv6; action = reject }

abbrev pub select_mode_rule : String → Rule
select_mode_rule mode = record { match = in_clash_mode mode; action = route_to mode }

abbrev pub catch_all_blocker_rule : Rule
catch_all_blocker_rule = record { match = all_traffic; action = reject }

abbrev pub high_memory_reject_rule : Rule
high_memory_reject_rule = record catch_all_blocker_rule { match = in_clash_mode reject_mode }
