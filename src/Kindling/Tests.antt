-- ===== src/Kindling/Tests.antt =====
-- Runs of kindling/dnstt/parser.go on concrete configurations and tunnels.
use radiance.Common.{◌≡◌, refl, true, false, none, some, if◌then◌else◌, ◌==◌, List, [], ◌∷◌, arith}
use radiance.Kindling.Config.{
  DnsttConfig, refused, missing_resolver, contents, dnstt_options, parse_dnstt_configs,
  check_configs, check_config,
}
use radiance.Kindling.Config.Complete.{Outcome, dnstt_options-Outcome}
use radiance.Kindling.Tunnels.{
  DnsTunnel, Transport, failed, status, is_succeeding, mark_succeeded, is_gateway_error, draws,
  new_round_tripper,
}
use radiance.Kindling.Tunnels.Health.{after_trips, after_trips-succeeding, trailing_failures, Timed}
use radiance.Kindling.Tunnels.Calls.{Answered, new_round_tripper-Answered}
use radiance.Kindling.Tunnels.Pool as Pool
use radiance.Kindling.Tunnels.Pool.{run, step, fresh}
use radiance.Kindling.Tunnels.Places.{Placed, run-Placed}
use radiance.Kindling.Tunnels.Cursor.{InTurn, run-InTurn}

abbrev doh_config : DnsttConfig
doh_config = record {
  domain = "t.example.org";
  public_key = "ab12";
  doh_resolver = some "https://dns.example";
  dot_resolver = none;
  utls_distribution = none;
}

abbrev without_resolver : DnsttConfig
without_resolver = record doh_config { doh_resolver = none }

dnstt_options-Outcome_example :
    Outcome
      (some (doh_config ∷ []))
      (contents (some (without_resolver ∷ [])))
      (dnstt_options (some (doh_config ∷ [])) (contents (some (without_resolver ∷ []))))
dnstt_options-Outcome_example =
    dnstt_options-Outcome (some (doh_config ∷ [])) (contents (some (without_resolver ∷ [])))

local_refused : parse_dnstt_configs (some (without_resolver ∷ [])) ≡ refused missing_resolver
unfolding parse_dnstt_configs check_configs check_config
local_refused = refl

abbrev new_tunnel : DnsTunnel
new_tunnel = record { last_succeeded = 0; consecutive_failures = 0 }

after_trips-succeeding_example :
    is_succeeding (after_trips (mark_succeeded 3 new_tunnel) ((9, status 503) ∷ (8, failed) ∷ []))
    ≡ true
unfolding trailing_failures is_gateway_error Timed
after_trips-succeeding_example =
    after_trips-succeeding 3 new_tunnel ((9, status 503) ∷ (8, failed) ∷ []) (omega arith)
      (omega arith, (omega arith, tt))

-- Two tunnels are in the pool, of which the first has failed too often.
abbrev two_tunnels : Transport
two_tunnels = record {
  tunnels =
      λ id. if id == 4 then record { last_succeeded = 7; consecutive_failures = 1 } else new_tunnel;
  tun_chan = 2 ∷ 4 ∷ [];
  stopped = false;
  probe_ch = false;
  probing = false;
  probe_cursor = 0;
  closes = [];
}

new_round_tripper-Answered_example :
    Answered two_tunnels (new_round_tripper 6 (draws true ∷ draws true ∷ []) two_tunnels)
new_round_tripper-Answered_example =
    new_round_tripper-Answered (draws true ∷ draws true ∷ []) two_tunnels (omega arith)

-- A cycle over two configurations: one tunnel fails its probe, the other comes into the pool, is
-- drawn and put back, and Close drains it.
abbrev two_probes : List Pool.Event
two_probes =
    Pool.begins
    ∷ Pool.submits
    ∷ Pool.submits
    ∷ Pool.begins
    ∷ Pool.works true
    ∷ Pool.works true
    ∷ Pool.ends
    ∷ Pool.probed 5 (status 204) 1
    ∷ Pool.probed 6 (status 502) 0
    ∷ Pool.draws
    ∷ Pool.tries true 1
    ∷ Pool.closes
    ∷ Pool.drains
    ∷ []

run-Placed_example : Placed 1 (run 2 fresh two_probes)
run-Placed_example = run-Placed 1 2 two_probes

run-InTurn_example : InTurn 2 (run 2 fresh two_probes)
run-InTurn_example = run-InTurn 2 two_probes
