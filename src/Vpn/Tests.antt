-- ===== src/Vpn/Tests.antt =====
-- Runs of the models of package vpn, and examples.
use radiance.Common.{
  keep, not, ℕ, ◌+◌, ◌<◌, ◌≡◌, refl, arith, ◌⊎◌, length, Bool, true, false, none, some, List, [],
  ◌∷◌,
}
use radiance.Vpn.Status.{connecting, connected, disconnected}
use radiance.Vpn.BufPool.{Buffer, Chan, BufAlloc, relay_class_for_cap, len32, bit_len}
use radiance.Vpn.BufPool.Budget.{Conf, put_reserve, here, next, reserves, Within, Reach-Within}
use radiance.Vpn.SplitTunnel.{
  Rule, Filter, SplitTunnel, absent, FilterLists, type_domain, empty_rule, mode_or, default_type,
  remove, contains, entry, Mode, parsed,
}
use radiance.Vpn.SplitTunnel.Remove.{remove-keep}
use radiance.Vpn.SplitTunnel.Update.{Ready}
use radiance.Vpn.SplitTunnel.Save.{saved}
use radiance.Vpn.SplitTunnel.Reload.{LoadsAs, contents, load_file-saved}
use radiance.Vpn.SplitTunnel.Load.{
  load_file, init_rule_map, initial, initial_rules, new_split_tunnel_handler, out_of_range,
}
use radiance.Vpn.SplitTunnel.Entries.{init_rule_map-Ready}
use radiance.Vpn.SplitTunnel.Handler.{new_split_tunnel_handler-Usable, Usable}
use radiance.Vpn.SessionHistory.{
  SessionServer, new_session_history, session_bytes, Session, start_session_locked,
}
use radiance.Vpn.SessionHistory.Bytes.{polls, counted, start-polls-bytes}
use radiance.Vpn.SessionHistory.Retention.{Kept}
use radiance.Vpn.SessionHistory.{handle_status, new_session}
use radiance.Vpn.SessionHistory.Active.{handle_status-current}
use radiance.Vpn.Client.Restart.{restart_reconnected}
use radiance.Vpn.SessionHistory.Runs.{Event, status_event, polled, run, elapsed, run-Kept}
use radiance.Vpn.Client.{Client, Outcome, restart, connects, disconnects, calls}
use radiance.Vpn.Client.Lifecycle.{Settled, calls-Settled}
use radiance.Vpn.Client.Restart.{restart-emitted}

abbrev two_chans : List Chan
two_chans = record { depth = 2; queue = [] } ∷ record { depth = 2; queue = [] } ∷ []

abbrev small_pool : BufAlloc
small_pool = record { budget = 100; pools = two_chans; retained_bytes = 0 }

abbrev quiet_conf : Conf
quiet_conf = record { alloc = small_pool; approved = []; owed = [] }

abbrev small_buffer : Buffer
small_buffer = record { len = 10; cap = 64 }

Reach-Within_example : Within (put_reserve quiet_conf small_buffer)
unfolding relay_class_for_cap len32 bit_len
Reach-Within_example =
    Reach-Within {lo = 0} {hi = 1} {c = quiet_conf} {d = put_reserve quiet_conf small_buffer}
      (record { accounted = refl; bounded = omega arith })
      (next here (reserves small_buffer 0 refl))

remove-keep_example :
    remove ("a" ∷ "b" ∷ "a" ∷ "c" ∷ []) ("a" ∷ [])
    ≡ keep (λ v. not (contains ("a" ∷ []) v)) ("a" ∷ "b" ∷ "a" ∷ "c" ∷ [])
remove-keep_example = remove-keep ("a" ∷ "b" ∷ "a" ∷ "c" ∷ []) ("a" ∷ [])

-- The handler that starts without a rule file.
abbrev fresh : SplitTunnel
fresh = initial absent

fresh-Ready : Ready fresh
fresh-Ready t = init_rule_map-Ready (initial_rules absent) t

abbrev lantern_items : FilterLists
lantern_items = record {
  domain = "lantern.io" ∷ [];
  domain_suffix = [];
  domain_keyword = [];
  domain_regex = [];
  process_name = "chrome" ∷ [];
  process_path = [];
  process_path_regex = [];
  package_name = [];
}

init_rule_map-Ready_example :
    (i : ℕ) × (entry fresh.rule_map type_domain ≡ some i)
    × (i < length fresh.second.logical_options.rules)
init_rule_map-Ready_example = init_rule_map-Ready (initial_rules absent) type_domain

new_split_tunnel_handler-Usable_example :
    ((m : Mode) × (absent ≡ parsed (record { mode = m; rules = [] }))
      × (new_split_tunnel_handler true absent ≡ out_of_range))
    ⊎ Usable (new_split_tunnel_handler true absent)
new_split_tunnel_handler-Usable_example = new_split_tunnel_handler-Usable true absent

abbrev berlin : SessionServer
berlin = record { tag = "de-1"; city = "Berlin"; country = "DE" }

-- The counter starts over at the second poll.
start-polls-bytes_example :
    (session_bytes (
      polls
        (start_session_locked new_session_history berlin (some (10, 0)) 5)
        ((15, 1) ∷ (3, 2) ∷ []))).0
    ≡ 8
unfolding counted
start-polls-bytes_example =
    (start-polls-bytes new_session_history berlin 10 0 5 ((15, 1) ∷ (3, 2) ∷ [])).0

new_Kept : Kept 0 new_session_history
new_Kept = record { few = omega arith; in_order = tt }

abbrev session_events : List (Event × ℕ)
session_events =
    (status_event connected "" connected berlin (some (0, 0)), 7)
    ∷ (polled (some (5, 5)), 1)
    ∷ (status_event disconnected "" disconnected berlin none, 2)
    ∷ []

run-Kept_example : Kept (0 + elapsed session_events) (run 0 new_session_history session_events)
run-Kept_example = run-Kept 0 new_session_history session_events new_Kept

abbrev session_ended_at : ℕ → Session
session_ended_at t = record {
  connected_at = 0;
  disconnected_at = t;
  server = berlin;
  bytes_up = 1;
  bytes_down = 2;
  error = "";
}

abbrev all_well : Outcome
all_well = record { builds = true; marshals = true; starts = true; closes = true }

abbrev new_client : Client
new_client = record {
  has_tunnel = false;
  has_platform = false;
  status = disconnected;
  emitted = [];
  post_closes = 0;
}

abbrev live_client : Bool → Client
live_client platform = record {
  has_tunnel = true;
  has_platform = platform;
  status = connected;
  emitted = connected ∷ connecting ∷ [];
  post_closes = 0;
}

calls-Settled_example : Settled (calls new_client (connects all_well ∷ disconnects all_well ∷ []))
calls-Settled_example =
    calls-Settled new_client (connects all_well ∷ disconnects all_well ∷ [])
      (record { fits = refl })

restart-emitted_example : (restart (live_client false) all_well [] true).0.has_tunnel ≡ true
restart-emitted_example = (restart-emitted (live_client false) all_well [] true refl refl refl).0

handle_status-current_example :
    (handle_status new_session_history connected "" connected berlin (some (10, 20)) 5).current
    ≡ some (new_session berlin 5)
handle_status-current_example =
    handle_status-current new_session_history connected "" connected berlin (some (10, 20)) 5

restart_reconnected_example :
    (restart
      (live_client true)
      all_well
      (disconnects all_well ∷ connects all_well ∷ [])
      true).0.has_tunnel
    ≡ true
restart_reconnected_example =
    (restart_reconnected (live_client true) all_well all_well all_well refl refl refl refl refl refl
      refl).0

-- The fresh handler with an item, and with an empty rule beside it.
abbrev one_item : SplitTunnel
one_item =
    let with_domain : Rule = record empty_rule { domain = "lantern.io" ∷ [] } in
    let f : Filter = record {
      mode = mode_or;
      rules =
          record { rule_type = default_type; default_options = empty_rule }
          ∷ record { rule_type = default_type; default_options = with_domain }
          ∷ [];
    } in
    record fresh { second = record fresh.second { logical_options = f } }

load_file-saved_example :
    LoadsAs
      (load_file fresh (parsed (saved one_item)))
      (saved one_item)
      (contents one_item.second.logical_options.rules)
unfolding init_rule_map
load_file-saved_example = load_file-saved one_item fresh refl
