-- ===== src/Vpn/SplitTunnel/Save.antt =====
-- saveToFile, SetEnabled and the item operations of vpn/split_tunnel.go that save. Whether the
-- write succeeds is an argument.
use radiance.Common.{
  ◌≡◌, arith, Bool, true, false, not, List, [], ◌∷◌, keep, if◌then◌else◌, String, Option, none,
  some, ◌⊎◌,
}
use radiance.Vpn.SplitTunnel.{
  Mode, mode_and, mode_or, FilterRule, HeadlessRule, RuleSet, FilterLists, SplitTunnel, parsed,
  is_empty_rule, empty_rule, remove, merge,
}
use radiance.Vpn.SplitTunnel.Update.{
  Update, updated, unsupported, panics, update_filter, update_filters, Ready, mapped, filter_of,
  diff_items,
}
use radiance.Vpn.SplitTunnel.Lists.{update_filters_lem}
use radiance.Vpn.SplitTunnel.Remove.{remove-keep}
use radiance.Vpn.SplitTunnel.{contains, FilterType}
use radiance.Common.{refl, ap, ◌∙◌, ◌++◌}

-- The rules that are saved: the outer logical rule with the empty inner rules left out, and without
-- the second rule when none is left.
abbrev pub outer_rules : HeadlessRule → HeadlessRule → List FilterRule → List HeadlessRule
outer_rules first second [] = first ∷ []
outer_rules first second (r ∷ rs) =
    let f = record second.logical_options { rules = r ∷ rs } in
    first ∷ record second { default_options = empty_rule; logical_options = f } ∷ []

unfoldable pub saved : SplitTunnel → RuleSet
saved s =
    let kept = keep (λ r. not (is_empty_rule r.default_options)) s.second.logical_options.rules in
    record { mode = s.mode; rules = outer_rules s.first s.second kept }

unfoldable pub save_to_file : Bool → SplitTunnel → SplitTunnel × Bool
save_to_file writes s = if writes then (record s { file = parsed (saved s) }, true) else (s, false)

abbrev pub mode_for : Bool → Mode
mode_for true = mode_or
mode_for false = mode_and

abbrev pub same_bool : Bool → Bool → Bool
same_bool true true = true
same_bool false false = true
same_bool _ _ = false

unfoldable pub set_enabled : Bool → SplitTunnel → Bool → SplitTunnel × Bool
set_enabled writes s enabled =
    if same_bool s.enabled enabled
    then (s, true)
    else let (s1, ok) = save_to_file writes (record s { mode = mode_for enabled }) in
      if ok then (record s1 { enabled = enabled }, true) else (record s1 { mode = s.mode }, false)

pub data Result : Type 0 where
  done write_failed refused : SplitTunnel → Result
  panicked : Result

abbrev pub written : SplitTunnel × Bool → Result
written (s, true) = done s
written (s, false) = write_failed s

abbrev pub save_update : Bool → SplitTunnel → Update → Result
save_update writes s (updated s1) = written (save_to_file writes s1)
save_update writes s unsupported = refused s
save_update writes s panics = panicked

abbrev pub save_option : Bool → Option SplitTunnel → Result
save_option writes none = panicked
save_option writes (some s) = written (save_to_file writes s)

unfoldable pub add_item : Bool → SplitTunnel → String → String → Result
add_item writes s filter_type item = save_update writes s (update_filter s filter_type item merge)

unfoldable pub remove_item : Bool → SplitTunnel → String → String → Result
remove_item writes s filter_type item =
    save_update writes s (update_filter s filter_type item remove)

unfoldable pub add_items : Bool → SplitTunnel → FilterLists → Result
add_items writes s items = save_option writes (update_filters s items merge)

unfoldable pub remove_items : Bool → SplitTunnel → FilterLists → Result
remove_items writes s items = save_option writes (update_filters s items remove)

-- SetEnabled with a write that fails changes nothing. With one that succeeds the handler is enabled
-- as asked, and unless it was so already, the file holds its rules, whose outer mode is `or` when it
-- is enabled and `and` when it is disabled.
pub set_enabled_lem :
    (s : SplitTunnel) (enabled : Bool)
    → ((set_enabled false s enabled).0 ≡ s)
      × ((set_enabled true s enabled).0.enabled ≡ enabled)
      × ((set_enabled true s enabled).1 ≡ true)
      × ((s.enabled ≡ enabled)
          ⊎ (((set_enabled true s enabled).0.file ≡ parsed (saved (set_enabled true s enabled).0))
              × ((saved (set_enabled true s enabled).0).mode ≡ mode_for enabled)))
unfolding set_enabled save_to_file saved
set_enabled_lem s enabled = ground arith

mapped-remove :
    (o : Option (List String)) (gone : List String)
    → mapped remove o gone ≡ mapped (λ xs more. keep (λ v. not (contains more v)) xs) o gone
mapped-remove none gone = refl
mapped-remove (some xs) gone = ap some (remove-keep xs gone)

-- Where every filter type has a rule, RemoveItems does not panic, leaves of each of the eight lists
-- exactly the items that are not to be removed, and saves the resulting rules, and AddItems appends
-- to each list and saves; if the write fails, both report it and keep the changed lists.
pub remove_items-filters :
    (s : SplitTunnel) (items : FilterLists) (writes : Bool)
    → Ready s
    → (s1 s2 : SplitTunnel) × (remove_items writes s items ≡ written (save_to_file writes s1))
      × (add_items writes s items ≡ written (save_to_file writes s2))
      × ((t : FilterType)
          → (filter_of s1 t
              ≡ mapped
                  (λ xs gone. keep (λ v. not (contains gone v)) xs)
                  (filter_of s t)
                  (diff_items t items))
            × (filter_of s2 t
                ≡ mapped (λ xs more. xs ++ more) (filter_of s t) (diff_items t items)))
unfolding remove_items add_items merge
remove_items-filters s items writes ready =
    let (s1, e1, _, l1) = update_filters_lem s items remove ready in
    let (s2, e2, _, l2) = update_filters_lem s items merge ready in
    (
      s1,
      s2,
      rw e1 refl,
      rw e2 refl,
      λ t. (l1 t ∙ mapped-remove (filter_of s t) (diff_items t items), l2 t),
    )
