-- ===== src/Vpn/SplitTunnel/Entries.antt =====
-- initRuleMap of vpn/split_tunnel.go leaves no filter type without a rule.
use radiance.Common.{
  ℕ, suc, ◌+◌, ◌≤◌, ◌<◌, ◌≡◌, refl, ap, arith, Bool, true, false, not, ◌&&◌, ◌||◌, Option, some,
  List, [], ◌∷◌, ◌++◌, if◌then◌else◌, length, keep, any_of, Bool-cases, inl, inr, ◌⊎◌, ◌∙◌, subst,
  keep_nil, keep_kept, keep_dropped,
}
use radiance.Vpn.SplitTunnel.{
  Rule, FilterRule, RuleMap, SplitTunnel, type_domain, type_domain_suffix, type_domain_keyword,
  type_domain_regex, type_process_name, type_process_path, type_process_path_regex,
  type_package_name,
}
use radiance.Vpn.SplitTunnel.Update.{Ready}
use radiance.Vpn.SplitTunnel.Load.{
  Category, cat_domain, cat_process_name, cat_process_path, cat_process_path_regex,
  cat_package_name, categories, has_category, found, missing, empty_rules, no_entries, put_entry,
  category_entry, put_matches, enter, matched, put_missing, assign, init_rule_map,
}

-- An entry that points to one of the first n rules.
abbrev Placed : ℕ → Option ℕ → Type 0
Placed n o = (j : ℕ) × (o ≡ some j) × (j < n)

abbrev same_category : Category → Category → Bool
same_category cat_domain cat_domain = true
same_category cat_process_name cat_process_name = true
same_category cat_process_path cat_process_path = true
same_category cat_process_path_regex cat_process_path_regex = true
same_category cat_package_name cat_package_name = true
same_category _ _ = false

same_category_eq : (c d : Category) → same_category c d ≡ true → c ≡ d
same_category_eq c d h = ground arith

put_step :
    (same rest has : Bool) (i : ℕ) (o p : Option ℕ)
    → (same ≡ true → o ≡ some i)
    → (same ≡ false → o ≡ p)
    → (same ≡ true → has ≡ true)
    → (if rest && has then some i else o) ≡ (if (same || rest) && has then some i else p)
put_step same rest has i o p f g h = ground arith

skip_step :
    (same rest has : Bool) (o p : Option ℕ)
    → (same ≡ true → has ≡ false)
    → (if rest && has then o else p) ≡ (if (same || rest) && has then o else p)
skip_step same rest has o p h = ground arith

put_same :
    (c d : Category) (i : ℕ) (m : RuleMap)
    → same_category c d ≡ true
    → category_entry (put_entry d i m) c ≡ some i
put_same c d i m h = ground arith

put_other :
    (c d : Category) (i : ℕ) (m : RuleMap)
    → same_category c d ≡ false
    → category_entry (put_entry d i m) c ≡ category_entry m c
put_other c d i m h = ground arith

same_has :
    (c d : Category) (r : Rule) → same_category c d ≡ true → has_category c r ≡ has_category d r
same_has c d r h = ap (λ e. has_category e r) (same_category_eq c d h)

abbrev listed : Category → List Category → Bool
listed c cs = any_of (same_category c) cs

-- The entry of a category after a rule's own items are entered.
put_matches-entry :
    (cs : List Category) (r : Rule) (i : ℕ) (m : RuleMap) (c : Category)
    → category_entry (put_matches cs r i m) c
      ≡ (if listed c cs && has_category c r then some i else category_entry m c)
put_matches-entry [] r i m c = refl
put_matches-entry (d ∷ cs) r i m c = elim (Bool-cases (has_category d r)) [
  | inl h ↦ rw h (
      put_matches-entry cs r i (put_entry d i m) c
      ∙ put_step (same_category c d) (listed c cs) (has_category c r) i
          (category_entry (put_entry d i m) c) (category_entry m c) (put_same c d i m)
          (put_other c d i m) (λ e. same_has c d r e ∙ h))
  | inr h ↦ rw h (
      put_matches-entry cs r i m c
      ∙ skip_step (same_category c d) (listed c cs) (has_category c r) (some i) (category_entry m c)
          (λ e. same_has c d r e ∙ h))
]

listed_all : (c : Category) → listed c categories ≡ true
listed_all c = ground arith

-- How many rules have no items of their own.
abbrev spare : List FilterRule → ℕ
spare [] = 0
spare (r ∷ rs) = (if matched r.default_options then 0 else 1) + spare rs

-- What gives a category an entry: it has one, is in line for an empty rule, or a rule has its items.
abbrev Covered : ℕ → List FilterRule → List Category → RuleMap → Category → Type 0
Covered n rs cs m c = Placed n (category_entry m c) ⊎ (listed c cs ≡ true) ⊎ (found rs c ≡ true)

enter-entry :
    (r : Rule) (i : ℕ) (m : RuleMap) (c : Category)
    → category_entry (enter r i m) c ≡ (if has_category c r then some i else category_entry m c)
unfolding enter
enter-entry r i m c =
    subst
      (λ b.
        category_entry (put_matches categories r i m) c
        ≡ (if b && has_category c r then some i else category_entry m c))
      (listed_all c) (put_matches-entry categories r i m c)

Covered-enter :
    (n i : ℕ) (r : FilterRule) (rs : List FilterRule) (cs : List Category) (m : RuleMap)
    (c : Category)
    → i < n
    → Covered n (r ∷ rs) cs m c
    → Covered n rs cs (enter r.default_options i m) c
unfolding found
Covered-enter n i r rs cs m c lt cov =
    let e = enter-entry r.default_options i m c in
    elim (Bool-cases (has_category c r.default_options)) [
      | inl h ↦ inl (i, e ∙ rw h refl, lt)
      | inr h ↦ elim cov [
        | inl (j, f, k) ↦ inl (j, e ∙ rw h f, k)
        | inr (inl l) ↦ inr (inl l)
        | inr (inr g) ↦
            inr (
              inr
                (subst (λ b. (b || any_of (λ x. has_category c x.default_options) rs) ≡ true) h g))
      ]
    ]

Covered-missing :
    (n i : ℕ) (b : Bool) (rs : List FilterRule) (cs : List Category) (m : RuleMap) (c : Category)
    → i < n
    → Covered n rs cs m c
    → Covered n rs (put_missing b cs i m).1 (put_missing b cs i m).0 c
Covered-missing n i true rs cs m c lt cov = cov
Covered-missing n i false rs [] m c lt cov = cov
Covered-missing n i false rs (d ∷ cs) m c lt cov = elim (Bool-cases (same_category c d)) [
  | inl h ↦ inl (i, put_same c d i m h, lt)
  | inr h ↦ elim cov [
    | inl (j, f, k) ↦ inl (j, put_other c d i m h ∙ f, k)
    | inr (inl l) ↦ inr (inl (subst (λ b. (b || listed c cs) ≡ true) h l))
    | inr (inr g) ↦ inr (inr g)
  ]
]

length-put_missing :
    (b : Bool) (cs : List Category) (i n : ℕ) (m : RuleMap)
    → length cs ≤ (if b then 0 else 1) + n
    → length (put_missing b cs i m).1 ≤ n
length-put_missing true cs i n m h = omega arith
length-put_missing false [] i n m h = omega arith
length-put_missing false (d ∷ cs) i n m h = omega arith

assign-Placed :
    (n i : ℕ) (rs : List FilterRule) (cs : List Category) (m : RuleMap) (c : Category)
    → i + length rs ≤ n
    → length cs ≤ spare rs
    → Covered n rs cs m c
    → Placed n (category_entry (assign rs i cs m) c)
unfolding assign found
assign-Placed n i [] [] m c le few cov = ground arith
assign-Placed n i [] (d ∷ cs) m c le few cov = elim few [ ]
assign-Placed n i (r ∷ rs) cs m c le few cov =
    let m1 = enter r.default_options i m in
    let p = put_missing (matched r.default_options) cs i m1 in
    assign-Placed n (suc i) rs
      (put_missing (matched r.default_options) cs i (enter r.default_options i m)).1
      (put_missing (matched r.default_options) cs i (enter r.default_options i m)).0 c (omega arith)
      (length-put_missing (matched r.default_options) cs i (spare rs) m1 few)
      (Covered-missing n i (matched r.default_options) rs cs m1 c (omega arith)
        (Covered-enter n i r rs cs m c (omega arith) cov))

spare-append : (rs qs : List FilterRule) → spare (rs ++ qs) ≡ spare rs + spare qs
spare-append [] qs = omega arith
spare-append (r ∷ rs) qs = omega (arith, spare-append rs qs)

spare-empty_rules : (cs : List Category) → spare (empty_rules cs) ≡ length cs
unfolding matched
spare-empty_rules [] = refl
spare-empty_rules (c ∷ cs) = omega (arith, spare-empty_rules cs)

found-append :
    (rs qs : List FilterRule) (c : Category) → found rs c ≡ true → found (rs ++ qs) c ≡ true
unfolding found
found-append [] qs c h = cc
found-append (r ∷ rs) qs c h = ground (arith, found-append rs qs c)

join_kept :
    (same rest has : Bool)
    → (same ≡ true → has ≡ true)
    → (same || (rest && has)) ≡ ((same || rest) && has)
join_kept same rest has h = ground arith

join_dropped :
    (same rest has : Bool) → (same ≡ true → has ≡ false) → (rest && has) ≡ ((same || rest) && has)
join_dropped same rest has h = ground arith

listed-keep :
    (p : Category → Bool) (cs : List Category) (c : Category)
    → listed c (keep p cs) ≡ (listed c cs && p c)
listed-keep p [] c = rw (keep_nil p) refl
listed-keep p (d ∷ cs) c = elim (Bool-cases (p d)) [
  | inl h ↦ rw (keep_kept p d cs h) (
      ap (λ b. same_category c d || b) (listed-keep p cs c)
      ∙ join_kept (same_category c d) (listed c cs) (p c) (λ e. ap p (same_category_eq c d e) ∙ h))
  | inr h ↦ rw (keep_dropped p d cs h) (
      listed-keep p cs c
      ∙ join_dropped (same_category c d) (listed c cs) (p c)
          (λ e. ap p (same_category_eq c d e) ∙ h))
]

found-missing :
    (rs : List FilterRule) (c : Category) → (found rs c ≡ true) ⊎ (listed c (missing rs) ≡ true)
unfolding missing
found-missing rs c = elim (Bool-cases (found rs c)) [
  | inl h ↦ inl h
  | inr h ↦ inr (
      listed-keep (λ d. not (found rs d)) categories c
      ∙ ap (λ b. b && not (found rs c)) (listed_all c)
      ∙ ap not h)
]

init-Placed :
    (rs : List FilterRule) (c : Category)
    → Placed
        (length (rs ++ empty_rules (missing rs)))
        (category_entry (assign (rs ++ empty_rules (missing rs)) 0 (missing rs) no_entries) c)
init-Placed rs c =
    assign-Placed (length (rs ++ empty_rules (missing rs))) 0 (rs ++ empty_rules (missing rs))
      (missing rs) no_entries c (omega arith)
      (omega (arith, spare-append rs (empty_rules (missing rs)), spare-empty_rules (missing rs)))
      (elim (found-missing rs c) [
        | inl h ↦ inr (inr (found-append rs (empty_rules (missing rs)) c h))
        | inr h ↦ inr (inl h)
      ])

-- After initRuleMap every filter type has an entry, which points to a rule of the active filter,
-- whatever rules were there: so no lookup of updateFilter, updateFilters or Filters is nil.
pub init_rule_map-Ready : (s : SplitTunnel) → Ready (init_rule_map s)
unfolding init_rule_map
init_rule_map-Ready s type_domain = init-Placed s.second.logical_options.rules cat_domain
init_rule_map-Ready s type_domain_suffix = init-Placed s.second.logical_options.rules cat_domain
init_rule_map-Ready s type_domain_keyword = init-Placed s.second.logical_options.rules cat_domain
init_rule_map-Ready s type_domain_regex = init-Placed s.second.logical_options.rules cat_domain
init_rule_map-Ready s type_process_name =
    init-Placed s.second.logical_options.rules cat_process_name
init_rule_map-Ready s type_process_path =
    init-Placed s.second.logical_options.rules cat_process_path
init_rule_map-Ready s type_process_path_regex =
    init-Placed s.second.logical_options.rules cat_process_path_regex
init_rule_map-Ready s type_package_name =
    init-Placed s.second.logical_options.rules cat_package_name
