-- ===== src/Vpn/SplitTunnel/Reload.antt =====
-- What loadRule of vpn/split_tunnel.go makes of the file that saveToFile wrote.
use radiance.Common.{
  ◌≡◌, refl, ap, ◌∙◌, Bool, true, not, List, [], ◌∷◌, ◌++◌, keep, keep-append, keep_kept,
  keep_dropped, keep_nil, Bool-cases, inl, inr, append-nil, arith, String,
}
use radiance.Vpn.SplitTunnel.{
  SplitTunnel, RuleSet, logical_type, FilterRule, HeadlessRule, parsed, is_empty_rule, empty_rule,
  Mode, Rule, FilterLists, FilterType, items, is_nil, type_domain, type_domain_suffix,
  type_domain_keyword, type_domain_regex, type_process_name, type_process_path,
  type_process_path_regex, type_package_name,
}
use radiance.Vpn.SplitTunnel.Save.{saved, outer_rules}
use radiance.Vpn.SplitTunnel.Load.{
  Category, Loaded, loaded, load_file, load_rules, activate, init_rule_map, empty_rules, missing,
  migrate, is_or, logical_rule, empty_filter,
}

-- The rules that saveToFile keeps.
abbrev full : FilterRule → Bool
full r = not (is_empty_rule r.default_options)

keep-keep : (rs : List FilterRule) → keep full (keep full rs) ≡ keep full rs
keep-keep [] = rw (keep_nil full) (keep_nil full)
keep-keep (r ∷ rs) = elim (Bool-cases (full r)) [
  | inl t ↦
      rw (keep_kept full r rs t) (keep_kept full r (keep full rs) t ∙ ap (◌∷◌ r) (keep-keep rs))
  | inr t ↦ rw (keep_dropped full r rs t) (keep-keep rs)
]

keep-empty_rules : (cs : List Category) → keep full (empty_rules cs) ≡ []
unfolding is_empty_rule
keep-empty_rules [] = keep_nil full
keep-empty_rules (c ∷ cs) = keep_dropped full _ (empty_rules cs) refl ∙ keep-empty_rules cs

-- What is saved after the rule map is made is what was there.
init-kept :
    (rs : List FilterRule) (cs : List Category)
    → keep full rs ≡ rs
    → keep full (rs ++ empty_rules cs) ≡ rs
init-kept rs cs h =
    keep-append full rs (empty_rules cs)
    ∙ ap (λ xs. keep full rs ++ xs) (keep-empty_rules cs)
    ∙ append-nil (keep full rs)
    ∙ h

-- The items of a type that the rules have, in their order.
abbrev collected : FilterType → List FilterRule → List String
collected t [] = []
collected t (r ∷ rs) = items t r.default_options ++ collected t rs

-- The items of every type.
abbrev pub contents : List FilterRule → FilterLists
contents rs = record {
  domain = collected type_domain rs;
  domain_suffix = collected type_domain_suffix rs;
  domain_keyword = collected type_domain_keyword rs;
  domain_regex = collected type_domain_regex rs;
  process_name = collected type_process_name rs;
  process_path = collected type_process_path rs;
  process_path_regex = collected type_process_path_regex rs;
  package_name = collected type_package_name rs;
}

contents-same :
    (rs qs : List FilterRule)
    → ((t : FilterType) → collected t rs ≡ collected t qs)
    → contents rs ≡ contents qs
contents-same rs qs h =
    rw
      (
        h type_domain,
        h type_domain_suffix,
        h type_domain_keyword,
        h type_domain_regex,
        h type_process_name,
        h type_process_path,
        h type_process_path_regex,
        h type_package_name,
      )
      refl

nothing : (xs : List String) → is_nil xs ≡ true → xs ≡ []
nothing [] e = refl
nothing (x ∷ xs) e = cc

-- A rule that is taken to be empty has no item of any type.
is_empty_rule-items : (r : Rule) (t : FilterType) → is_empty_rule r ≡ true → items t r ≡ []
unfolding is_empty_rule
is_empty_rule-items r type_domain e = nothing r.domain (ground arith)
is_empty_rule-items r type_domain_suffix e = nothing r.domain_suffix (ground arith)
is_empty_rule-items r type_domain_keyword e = nothing r.domain_keyword (ground arith)
is_empty_rule-items r type_domain_regex e = nothing r.domain_regex (ground arith)
is_empty_rule-items r type_process_name e = nothing r.process_name (ground arith)
is_empty_rule-items r type_process_path e = nothing r.process_path (ground arith)
is_empty_rule-items r type_process_path_regex e = nothing r.process_path_regex (ground arith)
is_empty_rule-items r type_package_name e = nothing r.package_name (ground arith)

-- Dropping the empty rules keeps every item.
collected-keep :
    (t : FilterType) (rs : List FilterRule) → collected t (keep full rs) ≡ collected t rs
collected-keep t [] = rw (keep_nil full) refl
collected-keep t (r ∷ rs) = elim (Bool-cases (full r)) [
  | inl f ↦
      rw (keep_kept full r rs f) (ap (λ xs. items t r.default_options ++ xs) (collected-keep t rs))
  | inr f ↦
      rw (keep_dropped full r rs f, is_empty_rule-items r.default_options t (ground arith))
        (collected-keep t rs)
]

empty_rule-items : (t : FilterType) → items t empty_rule ≡ []
empty_rule-items type_domain = refl
empty_rule-items type_domain_suffix = refl
empty_rule-items type_domain_keyword = refl
empty_rule-items type_domain_regex = refl
empty_rule-items type_process_name = refl
empty_rule-items type_process_path = refl
empty_rule-items type_process_path_regex = refl
empty_rule-items type_package_name = refl

-- The rules that the rule map adds have no item.
collected-empty_rules : (t : FilterType) (cs : List Category) → collected t (empty_rules cs) ≡ []
collected-empty_rules t [] = refl
collected-empty_rules t (c ∷ cs) = rw (empty_rule-items t) (collected-empty_rules t cs)

collected-init :
    (t : FilterType) (rs : List FilterRule) (cs : List Category)
    → collected t (rs ++ empty_rules cs) ≡ collected t rs
collected-init t [] cs = collected-empty_rules t cs
collected-init t (r ∷ rs) cs = ap (λ xs. items t r.default_options ++ xs) (collected-init t rs cs)

contents-init :
    (rs : List FilterRule) (cs : List Category) → contents (rs ++ empty_rules cs) ≡ contents rs
contents-init rs cs = contents-same (rs ++ empty_rules cs) rs (λ t. collected-init t rs cs)

-- A tunnel that loads, whose file would be the rule set given, which is on by the mode, and whose
-- active filter has the items given.
abbrev pub LoadsAs : Loaded → RuleSet → FilterLists → Type 0
LoadsAs l rs lists =
    (s : SplitTunnel) × (l ≡ loaded s)
    × (saved s ≡ rs)
    × (s.enabled ≡ is_or rs.mode)
    × (contents s.second.logical_options.rules ≡ lists)

rules-LoadsAs :
    (s0 : SplitTunnel) (mode : Mode) (first second : HeadlessRule) (rules : List FilterRule)
    → second.rule_type ≡ logical_type
    → keep full rules ≡ rules
    → LoadsAs
        (load_rules s0 mode (outer_rules first second rules))
        (record { mode = mode; rules = outer_rules first second rules })
        (contents rules)
unfolding saved activate init_rule_map
rules-LoadsAs s0 mode first second [] l k =
    let f = logical_rule empty_filter in
    (
      activate s0 mode first f [],
      refl,
      ap (λ xs. record { mode = mode; rules = outer_rules first (logical_rule empty_filter) xs })
          (init-kept [] (missing []) k),
      refl,
      contents-init [] (missing []),
    )
rules-LoadsAs s0 mode first second (r ∷ rs) l k =
    let g = record second.logical_options { rules = r ∷ rs } in
    let f : HeadlessRule = record second { default_options = empty_rule; logical_options = g } in
    (
      activate s0 mode first f [],
      ap (λ t. loaded (activate s0 mode first (migrate f t) [])) l,
      ap (λ xs. record { mode = mode; rules = outer_rules first f xs })
          (init-kept (r ∷ rs) (missing (r ∷ rs)) k),
      refl,
      contents-init (r ∷ rs) (missing (r ∷ rs)),
    )

-- Where the second rule is a logical rule, as the constructor makes it: what saveToFile wrote loads,
-- whatever the tunnel that loads it held before; the loaded tunnel is on if the saved mode is `or`,
-- would write the same file again, and its active filter has, of each of the eight types, the items
-- that the active filter of the saved tunnel had, in their order: a restart neither loses nor adds
-- an item.
pub load_file-saved :
    (s s0 : SplitTunnel)
    → s.second.rule_type ≡ logical_type
    → LoadsAs (load_file s0 (parsed (saved s))) (saved s) (contents s.second.logical_options.rules)
unfolding saved
load_file-saved s s0 l =
    let rules = s.second.logical_options.rules in
    rw⁻¹ (contents-same (keep full rules) rules (λ t. collected-keep t rules))
      (rules-LoadsAs s0 s.mode s.first s.second (keep full rules) l (keep-keep rules))
