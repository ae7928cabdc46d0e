-- ===== src/Vpn/SplitTunnel/Update.antt =====
-- The item operations of vpn/split_tunnel.go: updateFilter, updateFilters, Filters. A nil entry of
-- ruleMap panics, which is none in update_filters and Filters, and panics in update_filter.
use radiance.Common.{ℕ, ◌<◌, ◌≡◌, Option, none, some, List, [], ◌∷◌, length, String}
use radiance.Vpn.SplitTunnel.{
  Rule, FilterLists, SplitTunnel, FilterType, type_domain, type_domain_suffix, type_domain_keyword,
  type_domain_regex, type_process_name, type_process_path, type_process_path_regex,
  type_package_name, filter_type_of, entry, items, with_items, empty_rule, rule_at, set_rule,
}

-- The list that a SplitTunnelFilter has for a type.
abbrev pub diff_items : FilterType → FilterLists → List String
diff_items type_domain d = d.domain
diff_items type_domain_suffix d = d.domain_suffix
diff_items type_domain_keyword d = d.domain_keyword
diff_items type_domain_regex d = d.domain_regex
diff_items type_process_name d = d.process_name
diff_items type_process_path d = d.process_path
diff_items type_process_path_regex d = d.process_path_regex
diff_items type_package_name d = d.package_name

-- The types in the order in which updateFilters and Filters go through them.
abbrev pub filter_types : List FilterType
filter_types =
    type_domain ∷ type_domain_suffix ∷ type_domain_keyword ∷ type_domain_regex ∷ type_process_name
    ∷ type_process_path ∷ type_process_path_regex ∷ type_package_name ∷ []

abbrev pub with_rule : SplitTunnel → ℕ → Rule → SplitTunnel
with_rule s i r =
    let f = s.second.logical_options in
    record s {
      second = record s.second { logical_options = record f { rules = set_rule f.rules i r } };
    }

-- The rule that an entry of ruleMap points to; a pointer that is there has a rule.
abbrev pub or_empty : Option Rule → Rule
or_empty none = empty_rule
or_empty (some r) = r

abbrev pub pointed : SplitTunnel → ℕ → Rule
pointed s i = or_empty (rule_at s.second.logical_options.rules i)

-- rule.X = fn(rule.X, more), for the field X of the type.
unfoldable pub change :
    SplitTunnel
    → FilterType
    → ℕ
    → (List String → List String → List String)
    → List String
    → SplitTunnel
change s t i fn more = let r = pointed s i in with_rule s i (with_items t r (fn (items t r) more))

pub data Update : Type 0 where
  updated : SplitTunnel → Update
  unsupported panics : Update

-- Without an entry: the keys of the other domain types are always there, and nil then.
abbrev pub without_entry : FilterType → Update
without_entry type_domain_suffix = panics
without_entry type_domain_keyword = panics
without_entry type_domain_regex = panics
without_entry _ = unsupported

abbrev pub update_at :
    SplitTunnel
    → FilterType
    → String
    → (List String → List String → List String)
    → Option ℕ
    → Update
update_at s t item fn none = without_entry t
update_at s t item fn (some i) = updated (change s t i fn (item ∷ []))

abbrev pub update_typed :
    SplitTunnel → String → (List String → List String → List String) → Option FilterType → Update
update_typed s item fn none = unsupported
update_typed s item fn (some t) = update_at s t item fn (entry s.rule_map t)

unfoldable pub update_filter :
    SplitTunnel → String → String → (List String → List String → List String) → Update
update_filter s filter_type item fn = update_typed s item fn (filter_type_of filter_type)

unfoldable pub update_each :
    List FilterType
    → SplitTunnel
    → FilterLists
    → (List String → List String → List String)
    → Option SplitTunnel
update_each [] s diff fn = some s
update_each (t ∷ ts) s diff fn = elim (entry s.rule_map t) [
  | none ↦ none
  | some i ↦ update_each ts (change s t i fn (diff_items t diff)) diff fn
]

unfoldable pub update_filters :
    SplitTunnel → FilterLists → (List String → List String → List String) → Option SplitTunnel
update_filters s diff fn = update_each filter_types s diff fn

-- One list of Filters().
abbrev pub filter_of : SplitTunnel → FilterType → Option (List String)
filter_of s t = elim (entry s.rule_map t) [ none ↦ none | some i ↦ some (items t (pointed s i)) ]

abbrev pub mapped :
    (List String → List String → List String)
    → Option (List String)
    → List String
    → Option (List String)
mapped fn none more = none
mapped fn (some xs) more = some (fn xs more)

-- Every filter type has a rule.
abbrev pub Ready : SplitTunnel → Type 0
Ready s =
    (t : FilterType)
    → (i : ℕ) × (entry s.rule_map t ≡ some i) × (i < length s.second.logical_options.rules)
