-- ===== src/Vpn/BoxOptions/Members.antt =====
-- What vpn/boxoptions.go puts into its two groups of servers, and when it fails.
use radiance.Common.{
  ℕ, zero, suc, ◌+◌, ◌≡◌, ◌<◌, inl, inr, refl, sym, ap, ◌∙◌, arith, Bool, true, false, not, ◌&&◌,
  ◌||◌, Option, none, some, List, [], ◌∷◌, ◌++◌, map, keep, keep_kept, keep_dropped, keep_nil,
  length, get_or, set, length-set, if◌then◌else◌, String, Bool-cases, Option-cases,
}
use text.Mathlib.Text.{◌==◌ as str_eq}
use text.Mathlib.TextEquality.{eq_iff}
use radiance.Vpn.BoxOptions.Rules.{Rule, auto_select_tag, manual_select_tag}
use radiance.Vpn.BoxOptions.{
  Platform, Outbound, mutable_auto_select, mutable_selector, Options, FullOptions, BoxOptions,
  SmartRoutingRule, listed, skips, collect_tags, index, swap_first, Built, built, no_servers,
  initial_not_found, add_selectors, with_initial, select_initial, is_empty, merged_options,
  build_options,
}

abbrev pub count : String → List String → ℕ
count x [] = 0
count x (t ∷ tags) = if str_eq t x then suc (count x tags) else count x tags

abbrev one_if : Bool → ℕ
one_if b = if b then 1 else 0

count-append : (x : String) (ts us : List String) → count x (ts ++ us) ≡ count x ts + count x us
count-append x [] us = omega arith
count-append x (t ∷ ts) us = ground (arith, count-append x ts us)

-- Of the tags, those that are not to be selected are left out.
count-keep :
    (p : String → Bool) (x : String) (ts : List String)
    → count x (keep (λ t. not (p t)) ts) ≡ (if p x then 0 else count x ts)
count-keep p x [] = rw (keep_nil (λ t. not (p t))) (ground arith)
count-keep p x (t ∷ ts) = elim (Bool-cases (p t)) [
  | inl e ↦
      let e1 : not (p t) ≡ false = rw e refl in
      rw (keep_dropped (λ u. not (p u)) t ts e1, count-keep p x ts)
        (elim (Bool-cases (str_eq t x)) [
          | inl q ↦
              let same : t ≡ x = (eq_iff t x).0 q in
              let px : p x ≡ true = ap p (sym same) ∙ e in rw (px) refl
          | inr q ↦ rw q refl
        ])
  | inr e ↦
      let e1 : not (p t) ≡ true = rw e refl in
      rw (keep_kept (λ u. not (p u)) t ts e1) (elim (Bool-cases (str_eq t x)) [
        | inl q ↦
            let same : t ≡ x = (eq_iff t x).0 q in
            let px : p x ≡ false = ap p (sym same) ∙ e in
            rw (px, q) (ground (arith, count-keep p x ts))
        | inr q ↦ rw q (count-keep p x ts)
      ])
]

count-set :
    (x v : String) (ts : List String) (i : ℕ)
    → i < length ts
    → count x (set ts i v) + one_if (str_eq (get_or ts i "") x) ≡ count x ts + one_if (str_eq v x)
count-set x v [] i h = absurd (omega arith)
count-set x v (t ∷ ts) zero h = ground arith
count-set x v (t ∷ ts) (suc i) h = ground (arith, count-set x v ts i (omega arith))

index-some :
    (ts : List String) (tag : String) (i : ℕ)
    → index ts tag ≡ some i
    → (i < length ts) × (get_or ts i "" ≡ tag)
unfolding index
index-some [] tag i h = absurd (ground arith)
index-some (t ∷ ts) tag i h = elim (Bool-cases (str_eq t tag)) [
  | inl q ↦ let zeroth : 0 ≡ i = ground arith in rw (sym zeroth) (omega arith, (eq_iff t tag).0 q)
  | inr q ↦ elim (Option-cases (index ts tag)) [
    | inl n ↦ absurd (ground arith)
    | inr (j, n) ↦
        let next : suc j ≡ i = ground arith in
        let k = index-some ts tag j n in rw (sym next) (omega (arith, k.0), k.1)
  ]
]

index-none : (ts : List String) (tag : String) → index ts tag ≡ none → listed tag ts ≡ false
unfolding index
index-none [] tag h = refl
index-none (t ∷ ts) tag h = elim (Bool-cases (str_eq t tag)) [
  | inl q ↦ absurd (ground arith)
  | inr q ↦ elim (Option-cases (index ts tag)) [
    | inl n ↦ rw q (index-none ts tag n)
    | inr (j, n) ↦ absurd (ground arith)
  ]
]

swapped :
    (ts : List String) (i : ℕ)
    → i < length ts
    → get_or (set ts 0 (get_or ts i "")) i "" ≡ get_or ts i ""
swapped [] i h = absurd (omega arith)
swapped (t ∷ ts) zero h = refl
swapped (t ∷ ts) (suc i) h = refl

count-swap_first :
    (x : String) (ts : List String) (i : ℕ) → i < length ts → count x (swap_first ts i) ≡ count x ts
unfolding swap_first
count-swap_first x ts i h =
    let v = get_or ts i "" in
    let at : get_or (set ts 0 v) i "" ≡ v = swapped ts i h in
    let one = count-set x v ts 0 (omega arith) in
    let two = count-set x (get_or ts 0 "") (set ts 0 v) i (rw (length-set ts 0 v) h) in
    let two1 : count x (set (set ts 0 v) i (get_or ts 0 "")) + one_if (str_eq v x)
        ≡ count x (set ts 0 v) + one_if (str_eq (get_or ts 0 "") x) =
      ap (λ u. count x (set (set ts 0 v) i (get_or ts 0 "")) + one_if (str_eq u x)) (sym at)
      ∙ two in
    omega arith

swap_first-head :
    (ts : List String) (i : ℕ)
    → i < length ts
    → (rest : List String) × (swap_first ts i ≡ get_or ts i "" ∷ rest)
unfolding swap_first
swap_first-head [] i h = absurd (omega arith)
swap_first-head (t ∷ ts) zero h = (ts, refl)
swap_first-head (t ∷ ts) (suc i) h = (set ts i t, refl)

abbrev all_tags : Options → List String
all_tags src = map (λ (o : Outbound). o.tag) src.outbounds ++ src.endpoints

count-collect_tags :
    (src : Options) (hidden : List String) (x : String)
    → count x (collect_tags src hidden) ≡ (if skips hidden x then 0 else count x (all_tags src))
unfolding collect_tags
count-collect_tags src hidden x =
    let tags = map (λ (o : Outbound). o.tag) src.outbounds in
    let one = count-keep (skips hidden) x tags in
    let two = count-keep (skips hidden) x src.endpoints in
    let three =
      count-append x (keep (λ t. not (skips hidden t)) tags)
        (keep (λ t. not (skips hidden t)) src.endpoints) in
    let four = count-append x tags src.endpoints in
    elim (Bool-cases (skips hidden x)) [ inl e ↦ ground arith | inr e ↦ ground arith ]

-- Whether the tunnel starts in automatic mode.
abbrev pub is_auto : String → Bool
is_auto initial = str_eq initial "" || str_eq initial auto_select_tag

abbrev pub Started : Bool → String → List String → List String → FullOptions → Type 0
Started true initial collected members full =
    (full.default_mode ≡ auto_select_tag) × (members ≡ collected)
Started false initial collected members full =
    (full.default_mode ≡ manual_select_tag) × ((rest : List String) × (members ≡ initial ∷ rest))

-- The last two outbounds are the groups, over the same members.
abbrev pub Grouped : FullOptions → List String → Type 0
Grouped full members =
    (before : List Outbound) × (full.outbounds
      ≡ before
        ++ record { type = mutable_auto_select; tag = auto_select_tag; members = members; dir = "" }
          ∷ record { type = mutable_selector; tag = manual_select_tag; members = members; dir = "" }
          ∷ [])

abbrev pub Outcome : BoxOptions → Built → Type 0
Outcome b no_servers = (b.options.outbounds ≡ []) × (b.options.endpoints ≡ [])
Outcome b initial_not_found =
    (is_auto b.initial_server ≡ false)
    × (listed b.initial_server (collect_tags b.options b.non_selectable_outbounds) ≡ false)
Outcome b (built full) =
    (members : List String) × Grouped full members
    × ((x : String)
        → count x members
          ≡ (if skips b.non_selectable_outbounds x then 0 else count x (all_tags b.options)))
    × Started (is_auto b.initial_server) b.initial_server
        (collect_tags b.options b.non_selectable_outbounds) members full

grouped :
    (opts : FullOptions) (mode : String) (tags : List String)
    → Grouped (add_selectors opts mode tags) tags
unfolding add_selectors
grouped opts mode tags = (opts.outbounds, refl)

mode_added :
    (opts : FullOptions) (mode : String) (tags : List String)
    → (add_selectors opts mode tags).default_mode ≡ mode
unfolding add_selectors
mode_added opts mode tags = refl

with_initial-Outcome :
    (b : BoxOptions) (opts : FullOptions) (tags : List String) (o : Option ℕ)
    → tags ≡ collect_tags b.options b.non_selectable_outbounds
    → is_auto b.initial_server ≡ false
    → index tags b.initial_server ≡ o
    → Outcome b (with_initial opts tags o)
with_initial-Outcome b opts tags none e a h =
    (a, ap (listed b.initial_server) (sym e) ∙ index-none tags b.initial_server h)
with_initial-Outcome b opts tags (some i) e a h =
    let found = index-some tags b.initial_server i h in
    let head = swap_first-head tags i found.0 in
    let members = swap_first tags i in
    (
      members,
      grouped opts manual_select_tag members,
      (λ x.
          count-swap_first x tags i found.0
          ∙ ap (count x) e
          ∙ count-collect_tags b.options b.non_selectable_outbounds x),
      rw a (
        mode_added opts manual_select_tag members,
        (head.0, head.1 ∙ ap (λ t. t ∷ head.0) found.1),
      ),
    )

select_initial-Outcome :
    (b : BoxOptions) (opts : FullOptions)
    → Outcome b
        (select_initial opts (collect_tags b.options b.non_selectable_outbounds) b.initial_server)
unfolding select_initial
select_initial-Outcome b opts =
    let tags = collect_tags b.options b.non_selectable_outbounds in
    elim (Bool-cases (is_auto b.initial_server)) [
      | inl a ↦ rw a (
        tags,
        grouped opts auto_select_tag tags,
        (λ x. count-collect_tags b.options b.non_selectable_outbounds x),
        rw a (mode_added opts auto_select_tag tags, refl),
      )
      | inr a ↦ rw a (with_initial-Outcome b opts tags (index tags b.initial_server) refl a refl)
    ]

emptied : {A : Type 0} → (xs : List A) → is_empty xs ≡ true → xs ≡ []
emptied [] h = refl
emptied (x ∷ xs) h = absurd (ground arith)

module _ (trim_space : String → String)
    (smart_to_options : List SmartRoutingRule → (List Outbound × List Rule) × List String)
    (ad_block_to_options : List String → Rule × List String) where
  -- buildOptions fails only when the configuration has neither an outbound nor an endpoint, or when a
  -- server is named to start with that is not among the selectable ones. Otherwise its last two
  -- outbounds are the automatic group and the manual one, with the same members: each tag of an
  -- outbound or endpoint of the configuration as often as it is there, except those that are reserved
  -- or declared not to be selectable, which are not members. When no server is named, or the automatic
  -- group is, the tunnel starts in automatic mode, with the members in the order of the configuration;
  -- otherwise in manual mode, with the named server as the first member.
  pub build_options-Outcome :
      (p : Platform) (dir : String) (b : BoxOptions)
      → Outcome b (build_options trim_space smart_to_options ad_block_to_options p dir b)
  unfolding build_options
  build_options-Outcome p dir b =
      elim (Bool-cases (is_empty b.options.outbounds && is_empty b.options.endpoints)) [
        | inl e ↦
            rw e (
              emptied b.options.outbounds (ground arith),
              emptied b.options.endpoints (ground arith),
            )
        | inr e ↦ rw e (
            select_initial-Outcome b
              (merged_options trim_space smart_to_options ad_block_to_options p dir b))
      ]
