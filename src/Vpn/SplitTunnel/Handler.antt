-- ===== src/Vpn/SplitTunnel/Handler.antt =====
-- What NewSplitTunnelHandler of vpn/split_tunnel.go returns for each rule file.
use radiance.Common.{◌≡◌, refl, arith, Bool, true, false, not, List, [], ◌∷◌, keep, inl, inr, ◌⊎◌}
use radiance.Vpn.SplitTunnel.{FilterRule, SplitTunnel}
use radiance.Vpn.SplitTunnel.Update.{Ready}
use radiance.Common.{◌≢◌}
use radiance.Vpn.SplitTunnel.{
  Mode, HeadlessRule, is_empty_rule, File, absent, unreadable, unparseable, no_rules, parsed,
}
use radiance.Vpn.SplitTunnel.Save.{save_to_file, saved, outer_rules}
use radiance.Vpn.SplitTunnel.Load.{
  Loaded, loaded, failed, out_of_range, activate, load_rules, logical_rule, empty_filter, migrate,
  new_split_tunnel, new_split_tunnel_handler, initial, initial_rules, load_rule, load_file,
  init_rule_map,
}
use radiance.Vpn.SplitTunnel.Entries.{init_rule_map-Ready}

-- A handler that the constructor returns, with an error or without.
abbrev pub Usable : Loaded → Type 0
Usable (loaded s) = Ready s
Usable (failed s) = Ready s
Usable out_of_range = ⊥

activate-Ready :
    (s : SplitTunnel) (mode : Mode) (first second : HeadlessRule) (others : List HeadlessRule)
    → Ready (activate s mode first second others)
unfolding activate
activate-Ready s mode first second others t =
    init_rule_map-Ready (record s { mode = mode; first = first; second = second; others = others })
      t

load_rules-Usable :
    (s : SplitTunnel) (mode : Mode) (rules : List HeadlessRule)
    → rules ≢ []
    → Usable (load_rules s mode rules)
load_rules-Usable s mode [] h = elim (h refl) [ ]
load_rules-Usable s mode (first ∷ []) h = activate-Ready s mode first (logical_rule empty_filter) []
load_rules-Usable s mode (first ∷ second ∷ others) h =
    activate-Ready s mode first (migrate second second.rule_type) others

outer_rules-nonempty :
    (first second : HeadlessRule) (rules : List FilterRule) → outer_rules first second rules ≢ []
outer_rules-nonempty first second [] e = ground arith
outer_rules-nonempty first second (r ∷ rs) e = ground arith

load-saved-Usable : (s s0 : SplitTunnel) → Usable (load_file s (parsed (saved s0)))
unfolding saved
load-saved-Usable s s0 =
    let kept = keep (λ r. not (is_empty_rule r.default_options)) s0.second.logical_options.rules in
    load_rules-Usable s s0.mode (outer_rules s0.first s0.second kept)
      (outer_rules-nonempty s0.first s0.second kept)

initial-Ready : (file : File) → Ready (initial file)
initial-Ready file t = init_rule_map-Ready (initial_rules file) t

-- The file is as in the theorem below, by its inner rules.
handler-rules :
    (s : SplitTunnel) (mode : Mode) (rules : List HeadlessRule)
    → ((m : Mode) × (parsed (record { mode = mode; rules = rules })
          ≡ parsed (record { mode = m; rules = [] }))
        × (load_rules s mode rules ≡ out_of_range))
      ⊎ Usable (load_rules s mode rules)
handler-rules s mode [] = inl (mode, refl, refl)
handler-rules s mode (first ∷ rest) =
    inr (load_rules-Usable s mode (first ∷ rest) (λ e. ground arith))

-- Whatever the rule file holds and whether or not a write succeeds, NewSplitTunnelHandler returns a
-- handler that has a rule for every filter type, with an error or without one, or the file is a rule
-- set whose first rule has no inner rules, and then loadRule indexes out of range.
pub new_split_tunnel_handler-Usable :
    (writes : Bool) (file : File)
    → ((m : Mode) × (file ≡ parsed (record { mode = m; rules = [] }))
        × (new_split_tunnel_handler writes file ≡ out_of_range))
      ⊎ Usable (new_split_tunnel_handler writes file)
unfolding new_split_tunnel_handler new_split_tunnel load_rule save_to_file init_rule_map
new_split_tunnel_handler-Usable true absent = inr (
    load-saved-Usable (record (initial absent) { file = parsed (saved (initial absent)) })
      (initial absent))
new_split_tunnel_handler-Usable false absent = inr (initial-Ready absent)
new_split_tunnel_handler-Usable writes unreadable = inr (initial-Ready unreadable)
new_split_tunnel_handler-Usable writes unparseable = inr (initial-Ready unparseable)
new_split_tunnel_handler-Usable writes no_rules = inr (initial-Ready no_rules)
new_split_tunnel_handler-Usable writes (parsed rs) =
    handler-rules (initial (parsed rs)) rs.mode rs.rules
