-- ===== src/Vpn/SplitTunnel/Load.antt =====
-- defaultRule, newSplitTunnel, initRuleMap and loadRule of vpn/split_tunnel.go.
use radiance.Common.{
  ℕ, suc, Bool, true, false, not, ◌||◌, Option, none, some, List, [], ◌∷◌, ◌++◌, if◌then◌else◌,
  keep, any_of,
}
use radiance.Vpn.SplitTunnel.{
  Rule, Mode, mode_and, mode_or, RuleType, default_type, logical_type, FilterRule, Filter,
  HeadlessRule, RuleSet, RuleMap, File, absent, unreadable, unparseable, no_rules, parsed,
  SplitTunnel, empty_rule, is_nil,
}
use radiance.Vpn.SplitTunnel.Save.{save_to_file}

abbrev pub default_filter_rule : Rule → FilterRule
default_filter_rule r = record { rule_type = default_type; default_options = r }

abbrev pub empty_filter : Filter
empty_filter = record { mode = mode_or; rules = [] }

-- A logical rule, and the one with no inner rules.
abbrev pub logical_rule : Filter → HeadlessRule
logical_rule f = record {
  rule_type = logical_type;
  default_options = empty_rule;
  logical_options = f;
}

abbrev pub disable_rule : HeadlessRule
disable_rule =
    let off = record empty_rule { domain = "disable.rule" ∷ [] } in
    logical_rule (record {
      mode = mode_and;
      rules = default_filter_rule off ∷ default_filter_rule (record off { invert = true }) ∷ [];
    })

abbrev pub default_rule : RuleSet
default_rule = record { mode = mode_and; rules = disable_rule ∷ logical_rule empty_filter ∷ [] }

pub data Category : Type 0 where
  cat_domain cat_process_name cat_process_path cat_process_path_regex cat_package_name : Category

abbrev pub categories : List Category
categories =
    cat_domain ∷ cat_process_name ∷ cat_process_path ∷ cat_process_path_regex ∷ cat_package_name
    ∷ []

abbrev pub has_category : Category → Rule → Bool
has_category cat_domain r =
    not (is_nil r.domain)
    || not (is_nil r.domain_suffix)
    || not (is_nil r.domain_keyword)
    || not (is_nil r.domain_regex)
has_category cat_process_name r = not (is_nil r.process_name)
has_category cat_process_path r = not (is_nil r.process_path)
has_category cat_process_path_regex r = not (is_nil r.process_path_regex)
has_category cat_package_name r = not (is_nil r.package_name)

unfoldable pub found : List FilterRule → Category → Bool
found rules c = any_of (λ r. has_category c r.default_options) rules

unfoldable pub missing : List FilterRule → List Category
missing rules = keep (λ c. not (found rules c)) categories

-- One empty rule for each missing category.
abbrev pub empty_rules : List Category → List FilterRule
empty_rules [] = []
empty_rules (c ∷ cs) = default_filter_rule empty_rule ∷ empty_rules cs

abbrev pub no_entries : RuleMap
no_entries = record {
  domain = none;
  process_name = none;
  process_path = none;
  process_path_regex = none;
  package_name = none;
}

abbrev pub put_entry : Category → ℕ → RuleMap → RuleMap
put_entry cat_domain i m = record m { domain = some i }
put_entry cat_process_name i m = record m { process_name = some i }
put_entry cat_process_path i m = record m { process_path = some i }
put_entry cat_process_path_regex i m = record m { process_path_regex = some i }
put_entry cat_package_name i m = record m { package_name = some i }

abbrev pub category_entry : RuleMap → Category → Option ℕ
category_entry m cat_domain = m.domain
category_entry m cat_process_name = m.process_name
category_entry m cat_process_path = m.process_path
category_entry m cat_process_path_regex = m.process_path_regex
category_entry m cat_package_name = m.package_name

-- The entries that a rule's own items give it.
abbrev pub put_matches : List Category → Rule → ℕ → RuleMap → RuleMap
put_matches [] r i m = m
put_matches (c ∷ cs) r i m = put_matches cs r i (if has_category c r then put_entry c i m else m)

unfoldable pub enter : Rule → ℕ → RuleMap → RuleMap
enter r i m = put_matches categories r i m

unfoldable pub matched : Rule → Bool
matched r = any_of (λ c. has_category c r) categories

-- The first of the missing categories that have no rule yet.
abbrev pub put_missing : Bool → List Category → ℕ → RuleMap → RuleMap × List Category
put_missing true cs i m = (m, cs)
put_missing false [] i m = (m, [])
put_missing false (c ∷ cs) i m = (put_entry c i m, cs)

-- The second pass, at the rule of index i.
unfoldable pub assign : List FilterRule → ℕ → List Category → RuleMap → RuleMap
assign [] i cs m = m
assign (r ∷ rs) i cs m =
    assign rs (suc i) (put_missing (matched r.default_options) cs i (enter r.default_options i m)).1
      (put_missing (matched r.default_options) cs i (enter r.default_options i m)).0

unfoldable pub init_rule_map : SplitTunnel → SplitTunnel
init_rule_map s =
    let f = s.second.logical_options in
    let absent = missing f.rules in
    let rules = f.rules ++ empty_rules absent in
    let filter = record f { rules = rules } in
    record s {
      second = record s.second { logical_options = filter };
      rule_map = assign rules 0 absent no_entries;
    }

abbrev pub is_absent : File → Bool
is_absent absent = true
is_absent _ = false

-- newSplitTunnel before it looks for the file.
abbrev pub initial_rules : File → SplitTunnel
initial_rules file = record {
  mode = mode_and;
  first = disable_rule;
  second = logical_rule empty_filter;
  others = [];
  rule_map = no_entries;
  enabled = false;
  file = file;
}

abbrev pub initial : File → SplitTunnel
initial file = init_rule_map (initial_rules file)

-- newSplitTunnel: the default rule, and a first save where there is no file.
unfoldable pub new_split_tunnel : Bool → File → SplitTunnel
new_split_tunnel writes file =
    if is_absent file then (save_to_file writes (initial file)).0 else initial file

-- The rule of one category that a legacy rule turns into, if it has items for it.
abbrev pub legacy_rule : Rule → Category → Rule
legacy_rule r cat_domain = record empty_rule {
  domain = r.domain;
  domain_suffix = r.domain_suffix;
  domain_keyword = r.domain_keyword;
  domain_regex = r.domain_regex;
}
legacy_rule r cat_process_name = record empty_rule { process_name = r.process_name }
legacy_rule r cat_process_path = record empty_rule { process_path = r.process_path }
legacy_rule r cat_process_path_regex = record empty_rule {
  process_path_regex = r.process_path_regex;
}
legacy_rule r cat_package_name = record empty_rule { package_name = r.package_name }

unfoldable pub legacy_rules : List Category → Rule → List FilterRule
legacy_rules [] r = []
legacy_rules (c ∷ cs) r =
    let rest = legacy_rules cs r in
    if has_category c r then default_filter_rule (legacy_rule r c) ∷ rest else rest

-- The order in which the migration goes through the categories.
abbrev pub legacy_order : List Category
legacy_order =
    cat_domain ∷ cat_package_name ∷ cat_process_name ∷ cat_process_path ∷ cat_process_path_regex
    ∷ []

abbrev pub migrate : HeadlessRule → RuleType → HeadlessRule
migrate second default_type =
    logical_rule
      (record { mode = mode_or; rules = legacy_rules legacy_order second.default_options })
migrate second logical_type = second

abbrev pub is_or : Mode → Bool
is_or mode_or = true
is_or mode_and = false

pub data Loaded : Type 0 where
  loaded failed : SplitTunnel → Loaded
  out_of_range : Loaded

-- The end of loadRule, with the two first rules there are then.
unfoldable pub activate :
    SplitTunnel → Mode → HeadlessRule → HeadlessRule → List HeadlessRule → SplitTunnel
activate s mode first second others =
    let s1 =
      init_rule_map (record s { mode = mode; first = first; second = second; others = others }) in
    record s1 { enabled = is_or mode }

abbrev pub load_rules : SplitTunnel → Mode → List HeadlessRule → Loaded
load_rules s mode [] = out_of_range
load_rules s mode (first ∷ []) = loaded (activate s mode first (logical_rule empty_filter) [])
load_rules s mode (first ∷ second ∷ others) =
    loaded (activate s mode first (migrate second second.rule_type) others)

abbrev pub load_file : SplitTunnel → File → Loaded
load_file s absent = failed s
load_file s unreadable = failed s
load_file s unparseable = failed s
load_file s no_rules = loaded s
load_file s (parsed rs) = load_rules s rs.mode rs.rules

unfoldable pub load_rule : SplitTunnel → Loaded
load_rule s = load_file s s.file

-- NewSplitTunnelHandler; the handler that goes with an error is the default one.
unfoldable pub new_split_tunnel_handler : Bool → File → Loaded
new_split_tunnel_handler writes file = load_rule (new_split_tunnel writes file)
