-- ===== src/Vpn/SplitTunnel/Lists.antt =====
-- What an item operation of vpn/split_tunnel.go does to the eight item lists.
use radiance.Common.{
  ◌⊎◌, true, false, Bool, if◌then◌else◌, ℕ, ◌<◌, ◌≡◌, refl, sym, ap, arith, Option, none, some,
  List, [], ◌∷◌, length, String, inl, inr, subst, Bool-cases, Option-cases, ◌∙◌,
}
use radiance.Vpn.SplitTunnel.{
  FilterLists, SplitTunnel, FilterType, filter_type_of, entry, items, with_items,
}
use radiance.Vpn.SplitTunnel.Update.{
  diff_items, filter_types, pointed, change, updated, unsupported, update_at, update_typed,
  update_filter, update_each, update_filters, filter_of, mapped, Ready,
}
use radiance.Vpn.SplitTunnel.Changes.{same_type, length-set_rule, change_here, change_elsewhere}

-- What a change of the lists of some types makes of one list.
abbrev applied :
    List FilterType
    → (List String → List String → List String)
    → FilterLists
    → FilterType
    → List String
    → List String
applied [] fn diff t xs = xs
applied (u ∷ us) fn diff t xs =
    applied us fn diff t (if same_type u t then fn xs (diff_items u diff) else xs)

record Applied (ts : List FilterType) (fn : List String → List String → List String)
    (diff : FilterLists) (s s' : SplitTunnel) : Type 0 where
  done : update_each ts s diff fn ≡ some s'
  map_kept : s'.rule_map ≡ s.rule_map
  length_kept : length s'.second.logical_options.rules ≡ length s.second.logical_options.rules
  lists :
      (t : FilterType) (i : ℕ)
      → entry s.rule_map t ≡ some i
      → items t (pointed s' i) ≡ applied ts fn diff t (items t (pointed s i))

same_type_eq : (u t : FilterType) → same_type u t ≡ true → u ≡ t
same_type_eq u t h = ground arith

some_eq : (o : Option ℕ) (i j : ℕ) → o ≡ some i → o ≡ some j → i ≡ j
some_eq o i j e f = cc

change_applied :
    (s : SplitTunnel) (t u : FilterType) (i j : ℕ) (fn : List String → List String → List String)
    (more : List String)
    → entry s.rule_map t ≡ some i
    → entry s.rule_map u ≡ some j
    → j < length s.second.logical_options.rules
    → items t (pointed (change s u j fn more) i)
      ≡ (if same_type u t then fn (items t (pointed s i)) more else items t (pointed s i))
change_applied s t u i j fn more et eu lt = elim (Bool-cases (same_type u t)) [
  | inl h ↦
      let ut = same_type_eq u t h in
      let ji =
        some_eq (entry s.rule_map t) j i
          (subst (λ (v : FilterType). entry s.rule_map v ≡ some j) ut eu) et in
      rw h (
        subst
          (λ (v : FilterType).
            items v (pointed (change s u j fn more) i) ≡ fn (items v (pointed s i)) more)
          ut
          (subst
            (λ (k : ℕ).
              items u (pointed (change s u j fn more) k) ≡ fn (items u (pointed s k)) more)
            ji (change_here s u j fn more lt)))
  | inr h ↦ rw h (change_elsewhere s u t j i fn more lt h)
]

change-rule_map :
    (s : SplitTunnel) (t : FilterType) (i : ℕ) (fn : List String → List String → List String)
    (more : List String)
    → (change s t i fn more).rule_map ≡ s.rule_map
unfolding change
change-rule_map s t i fn more = refl

length-change :
    (s : SplitTunnel) (t : FilterType) (i : ℕ) (fn : List String → List String → List String)
    (more : List String)
    → length (change s t i fn more).second.logical_options.rules
      ≡ length s.second.logical_options.rules
unfolding change
length-change s t i fn more =
    length-set_rule s.second.logical_options.rules i
      (with_items t (pointed s i) (fn (items t (pointed s i)) more))

change-Ready :
    (s : SplitTunnel) (t : FilterType) (i : ℕ) (fn : List String → List String → List String)
    (more : List String)
    → Ready s
    → Ready (change s t i fn more)
unfolding change
change-Ready s t i fn more ready u =
    let (j, e, lt) = ready u in
    (
      j,
      e,
      omega (
        arith,
        lt,
        length-set_rule s.second.logical_options.rules i
            (with_items t (pointed s i) (fn (items t (pointed s i)) more)),
      ),
    )

update_each-cons :
    (us : List FilterType) (s : SplitTunnel) (u : FilterType) (j : ℕ) (diff : FilterLists)
    (fn : List String → List String → List String)
    → entry s.rule_map u ≡ some j
    → update_each (u ∷ us) s diff fn ≡ update_each us (change s u j fn (diff_items u diff)) diff fn
unfolding update_each
update_each-cons us s u j diff fn e = rw (update_each, e) refl

filter_of_lem :
    (s : SplitTunnel) (t : FilterType) (i : ℕ)
    → entry s.rule_map t ≡ some i
    → filter_of s t ≡ some (items t (pointed s i))
filter_of_lem s t i e = rw (filter_of, e) refl

update_each_lem :
    (ts : List FilterType) (s : SplitTunnel) (diff : FilterLists)
    (fn : List String → List String → List String)
    → Ready s
    → (s' : SplitTunnel) × Applied ts fn diff s s'
unfolding update_each
update_each_lem [] s diff fn ready =
    (s, record { done = refl; map_kept = refl; length_kept = refl; lists = λ t i e. refl })
update_each_lem (u ∷ us) s diff fn ready =
    let (j, e, lt) = ready u in
    let s1 = change s u j fn (diff_items u diff) in
    let (s', a) = update_each_lem us s1 diff fn (change-Ready s u j fn (diff_items u diff) ready) in
    (
      s',
      record {
        done = update_each-cons us s u j diff fn e ∙ a.done;
        map_kept = a.map_kept ∙ change-rule_map s u j fn (diff_items u diff);
        length_kept = a.length_kept ∙ length-change s u j fn (diff_items u diff);
        lists = λ t i et.
            a.lists t i (rw (change-rule_map s u j fn (diff_items u diff)) et)
            ∙ ap (applied us fn diff t) (change_applied s t u i j fn (diff_items u diff) et e lt);
      },
    )

applied_all :
    (fn : List String → List String → List String) (diff : FilterLists) (t : FilterType)
    (xs : List String)
    → applied filter_types fn diff t xs ≡ fn xs (diff_items t diff)
applied_all fn diff t xs = ground arith

-- Where every filter type has a rule, updateFilters does not panic, and it applies the action to
-- each of the eight lists with the items of its own type; every type still has a rule.
pub update_filters_lem :
    (s : SplitTunnel) (diff : FilterLists) (fn : List String → List String → List String)
    → Ready s
    → (s' : SplitTunnel) × (update_filters s diff fn ≡ some s')
      × Ready s'
      × ((t : FilterType) → filter_of s' t ≡ mapped fn (filter_of s t) (diff_items t diff))
unfolding update_filters
update_filters_lem s diff fn ready =
    let (s', a) = update_each_lem filter_types s diff fn ready in
    (
      s',
      a.done,
      λ t. let (i, e, lt) = ready t in (i, rw a.map_kept e, omega (arith, lt, a.length_kept)),
      λ t.
          let (i, e, lt) = ready t in
          filter_of_lem s' t i (rw a.map_kept e)
          ∙ ap some (a.lists t i e ∙ applied_all fn diff t (items t (pointed s i)))
          ∙ sym (ap (λ o. mapped fn o (diff_items t diff)) (filter_of_lem s t i e)),
    )

some_if :
    (b : Bool) (fn : List String → List String → List String) (xs more : List String)
    → some (if b then fn xs more else xs) ≡ (if b then mapped fn (some xs) more else some xs)
some_if true fn xs more = refl
some_if false fn xs more = refl

-- Where every filter type has a rule, updateFilter refuses a name that is not a filter type, and for
-- a filter type it applies the action to that type's list and leaves the seven other lists, whether
-- or not they are in the same rule; every type still has a rule.
pub update_filter_lem :
    (s : SplitTunnel) (name item : String) (fn : List String → List String → List String)
    → Ready s
    → ((filter_type_of name ≡ none) × (update_filter s name item fn ≡ unsupported))
      ⊎ ((t : FilterType) × (s' : SplitTunnel) × (filter_type_of name ≡ some t)
          × (update_filter s name item fn ≡ updated s')
          × Ready s'
          × ((u : FilterType)
              → filter_of s' u
                ≡ (if same_type t u then mapped fn (filter_of s u) (item ∷ []) else filter_of s u)))
unfolding update_filter
update_filter_lem s name item fn ready = elim (Option-cases (filter_type_of name)) [
  | inl n ↦ inl (n, rw (update_typed, n) refl)
  | inr (t, f) ↦
      let (i, e, lt) = ready t in
      inr (
        t,
        change s t i fn (item ∷ []),
        f,
        rw (update_typed, f, update_at, e) refl,
        change-Ready s t i fn (item ∷ []) ready,
        λ u.
            let (k, ek, _) = ready u in
            filter_of_lem (change s t i fn (item ∷ [])) u k
              (rw (change-rule_map s t i fn (item ∷ [])) ek)
            ∙ ap some (change_applied s u t k i fn (item ∷ []) ek e lt)
            ∙ some_if (same_type t u) fn (items u (pointed s k)) (item ∷ [])
            ∙ sym (
                ap (λ o. if same_type t u then mapped fn o (item ∷ []) else o)
                  (filter_of_lem s u k ek)),
      )
]
