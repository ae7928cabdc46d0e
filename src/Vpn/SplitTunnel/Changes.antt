-- ===== src/Vpn/SplitTunnel/Changes.antt =====
-- What one change of a rule does to the item lists, updateFilter of vpn/split_tunnel.go.
use radiance.Common.{
  true, false, Bool, ◌==◌, ℕ, zero, suc, ◌<◌, ◌≡◌, ◌≢◌, refl, sym, ap, arith, some, List, [], ◌∷◌,
  length, String, inl, inr, subst, ==_iff, Bool-cases, ◌∙◌,
}
use radiance.Vpn.SplitTunnel.{
  Rule, FilterRule, SplitTunnel, FilterType, type_domain, type_domain_suffix, type_domain_keyword,
  type_domain_regex, type_process_name, type_process_path, type_process_path_regex,
  type_package_name, items, with_items, rule_at, set_rule,
}
use radiance.Vpn.SplitTunnel.Update.{or_empty, pointed, change}

abbrev pub same_type : FilterType → FilterType → Bool
same_type type_domain type_domain = true
same_type type_domain_suffix type_domain_suffix = true
same_type type_domain_keyword type_domain_keyword = true
same_type type_domain_regex type_domain_regex = true
same_type type_process_name type_process_name = true
same_type type_process_path type_process_path = true
same_type type_process_path_regex type_process_path_regex = true
same_type type_package_name type_package_name = true
same_type _ _ = false

items_same : (t : FilterType) (r : Rule) (xs : List String) → items t (with_items t r xs) ≡ xs
items_same t r xs = ground arith

items_other :
    (t t' : FilterType) (r : Rule) (xs : List String)
    → same_type t t' ≡ false
    → items t' (with_items t r xs) ≡ items t' r
items_other t t' r xs h = ground arith

pub length-set_rule :
    (rs : List FilterRule) (i : ℕ) (r : Rule) → length (set_rule rs i r) ≡ length rs
length-set_rule [] i r = refl
length-set_rule (x ∷ rs) zero r = refl
length-set_rule (x ∷ rs) (suc i) r = ap suc (length-set_rule rs i r)

rule_at-set_rule :
    (rs : List FilterRule) (i : ℕ) (r : Rule) → i < length rs → rule_at (set_rule rs i r) i ≡ some r
rule_at-set_rule [] i r h = elim h [ ]
rule_at-set_rule (x ∷ rs) zero r h = refl
rule_at-set_rule (x ∷ rs) (suc i) r h = rule_at-set_rule rs i r (omega arith)

-- A write to another index is not seen.
rule_at-set_rule_other :
    (rs : List FilterRule) (i j : ℕ) (r : Rule) → j ≢ i → rule_at (set_rule rs i r) j ≡ rule_at rs j
rule_at-set_rule_other [] i j r h = refl
rule_at-set_rule_other (x ∷ rs) zero zero r h = elim (h refl) [ ]
rule_at-set_rule_other (x ∷ rs) zero (suc j) r h = refl
rule_at-set_rule_other (x ∷ rs) (suc i) zero r h = refl
rule_at-set_rule_other (x ∷ rs) (suc i) (suc j) r h =
    rule_at-set_rule_other rs i j r (λ e. h (ap suc e))

-- The changed list, read through the entry of its type.
pub change_here :
    (s : SplitTunnel) (t : FilterType) (i : ℕ) (fn : List String → List String → List String)
    (more : List String)
    → i < length s.second.logical_options.rules
    → items t (pointed (change s t i fn more) i) ≡ fn (items t (pointed s i)) more
unfolding change
change_here s t i fn more h =
    let rs = s.second.logical_options.rules in
    let r = pointed s i in
    ap (λ o. items t (or_empty o)) (rule_at-set_rule rs i (with_items t r (fn (items t r) more)) h)
    ∙ items_same t r (fn (items t r) more)

-- The lists of the other types stay, whether or not they are in the same rule.
pub absurd : (j i : ℕ) → (j == i) ≡ false → j ≢ i
absurd j i e = ground arith

pub change_elsewhere :
    (s : SplitTunnel) (t t' : FilterType) (i j : ℕ) (fn : List String → List String → List String)
    (more : List String)
    → i < length s.second.logical_options.rules
    → same_type t t' ≡ false
    → items t' (pointed (change s t i fn more) j) ≡ items t' (pointed s j)
unfolding change
change_elsewhere s t t' i j fn more h ne =
    let rs = s.second.logical_options.rules in
    let r = with_items t (pointed s i) (fn (items t (pointed s i)) more) in
    elim (Bool-cases (j == i)) [
      | inl e ↦
          subst
            (λ (k : ℕ).
              items t' (or_empty (rule_at (set_rule rs i r) k))
              ≡ items t' (or_empty (rule_at rs k)))
            (sym ((==_iff j i).0 e))
            (ap (λ o. items t' (or_empty o)) (rule_at-set_rule rs i r h)
              ∙ items_other t t' (pointed s i) (fn (items t (pointed s i)) more) ne)
      | inr e ↦ ap (λ o. items t' (or_empty o)) (rule_at-set_rule_other rs i j r (absurd j i e))
    ]
