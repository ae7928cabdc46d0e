-- ===== src/Vpn/SplitTunnel.antt =====
-- vpn/split_tunnel.go and vpn/split_tunnel_types.go. A rule set file is the rule set that it
-- parses to; parsing, marshalling and the write belong to other packages, and their outcome is an
-- argument. The rule types of sing-box are cut to the fields and the depth that the code reads.
-- The pointers of ruleMap into activeFilter.Rules are indices.
pub mod Remove
pub mod Update
pub mod Changes
pub mod Lists
pub mod Save
pub mod Load
pub mod Entries
pub mod Handler
pub mod Reload
use radiance.Common.{
  ℕ, zero, suc, ◌+◌, ◌-◌, Bool, true, false, not, ◌&&◌, ◌||◌, Option, none, some, List, [], ◌∷◌,
  ◌++◌, if◌then◌else◌, ltb, ◌==◌, length, take, keep, any_of,
}
use text.Mathlib.Text.{◌==◌ as str_eq}
use Prim.Native.String.{String}

-- DefaultHeadlessRule: the item lists, and Invert, which only the disable rule sets.
pub record Rule : Type 0 where
  pub domain : List String
  pub domain_suffix : List String
  pub domain_keyword : List String
  pub domain_regex : List String
  pub process_name : List String
  pub process_path : List String
  pub process_path_regex : List String
  pub package_name : List String
  pub invert : Bool

pub data Mode : Type 0 where
  mode_and mode_or : Mode

pub data RuleType : Type 0 where
  default_type logical_type : RuleType

-- A rule of the filter, with its type and its default options.
pub record FilterRule : Type 0 where
  pub rule_type : RuleType
  pub default_options : Rule

-- LogicalHeadlessRule inside a rule of the set.
pub record Filter : Type 0 where
  pub mode : Mode
  pub rules : List FilterRule

pub record HeadlessRule : Type 0 where
  pub rule_type : RuleType
  pub default_options : Rule
  pub logical_options : Filter

-- The outer logical rule.
pub record RuleSet : Type 0 where
  pub mode : Mode
  pub rules : List HeadlessRule

-- SplitTunnelFilter.
pub record FilterLists : Type 0 where
  pub domain : List String
  pub domain_suffix : List String
  pub domain_keyword : List String
  pub domain_regex : List String
  pub process_name : List String
  pub process_path : List String
  pub process_path_regex : List String
  pub package_name : List String

-- ruleMap: the four domain types share one entry.
pub record RuleMap : Type 0 where
  pub domain : Option ℕ
  pub process_name : Option ℕ
  pub process_path : Option ℕ
  pub process_path_regex : Option ℕ
  pub package_name : Option ℕ

-- What the rule file holds: it is not there, cannot be read, has no rule set, a rule set without rules, or one
-- whose first rule has these logical options.
pub data File : Type 0 where
  absent unreadable unparseable no_rules : File
  parsed : RuleSet → File

-- The outer rule is its mode, its first rule, its second, whose logical options are the active
-- filter, and the others.
pub record SplitTunnel : Type 0 where
  pub mode : Mode
  pub first : HeadlessRule
  pub second : HeadlessRule
  pub others : List HeadlessRule
  pub rule_map : RuleMap
  pub enabled : Bool
  pub file : File

-- The filter types, and the strings that name them.
pub data FilterType : Type 0 where
  type_domain type_domain_suffix type_domain_keyword type_domain_regex : FilterType
  type_process_name type_process_path type_process_path_regex type_package_name : FilterType

unfoldable pub filter_type_of : String → Option FilterType
filter_type_of s =
    if str_eq s "domain"
    then some type_domain
    else if str_eq s "domainSuffix"
    then some type_domain_suffix
    else if str_eq s "domainKeyword"
    then some type_domain_keyword
    else if str_eq s "domainRegex"
    then some type_domain_regex
    else if str_eq s "processName"
    then some type_process_name
    else if str_eq s "processPath"
    then some type_process_path
    else if str_eq s "processPathRegex"
    then some type_process_path_regex
    else if str_eq s "packageName"
    then some type_package_name
    else none

abbrev pub entry : RuleMap → FilterType → Option ℕ
entry m type_domain = m.domain
entry m type_domain_suffix = m.domain
entry m type_domain_keyword = m.domain
entry m type_domain_regex = m.domain
entry m type_process_name = m.process_name
entry m type_process_path = m.process_path
entry m type_process_path_regex = m.process_path_regex
entry m type_package_name = m.package_name

abbrev pub items : FilterType → Rule → List String
items type_domain r = r.domain
items type_domain_suffix r = r.domain_suffix
items type_domain_keyword r = r.domain_keyword
items type_domain_regex r = r.domain_regex
items type_process_name r = r.process_name
items type_process_path r = r.process_path
items type_process_path_regex r = r.process_path_regex
items type_package_name r = r.package_name

abbrev pub with_items : FilterType → Rule → List String → Rule
with_items type_domain r xs = record r { domain = xs }
with_items type_domain_suffix r xs = record r { domain_suffix = xs }
with_items type_domain_keyword r xs = record r { domain_keyword = xs }
with_items type_domain_regex r xs = record r { domain_regex = xs }
with_items type_process_name r xs = record r { process_name = xs }
with_items type_process_path r xs = record r { process_path = xs }
with_items type_process_path_regex r xs = record r { process_path_regex = xs }
with_items type_package_name r xs = record r { package_name = xs }

abbrev pub empty_rule : Rule
empty_rule = record {
  domain = [];
  domain_suffix = [];
  domain_keyword = [];
  domain_regex = [];
  process_name = [];
  process_path = [];
  process_path_regex = [];
  package_name = [];
  invert = false;
}

abbrev pub is_nil : List String → Bool
is_nil [] = true
is_nil (x ∷ xs) = false

unfoldable pub is_empty_rule : Rule → Bool
is_empty_rule r =
    is_nil r.domain
    && is_nil r.domain_suffix
    && is_nil r.domain_keyword
    && is_nil r.domain_regex
    && is_nil r.process_name
    && is_nil r.package_name
    && is_nil r.process_path
    && is_nil r.process_path_regex

-- The rule at an index, and the list with it replaced.
abbrev pub rule_at : List FilterRule → ℕ → Option Rule
rule_at [] i = none
rule_at (r ∷ rs) zero = some r.default_options
rule_at (r ∷ rs) (suc i) = rule_at rs i

abbrev pub set_rule : List FilterRule → ℕ → Rule → List FilterRule
set_rule [] i x = []
set_rule (r ∷ rs) zero x = record r { default_options = x } ∷ rs
set_rule (r ∷ rs) (suc i) x = r ∷ set_rule rs i x

abbrev pub contains : List String → String → Bool
contains xs v = any_of (λ x. str_eq x v) xs

unfoldable pub merge : List String → List String → List String
merge slice more = slice ++ more

-- slices.IndexFunc of a removed item: its index, or none.
abbrev pub index_removed : List String → List String → Option ℕ
index_removed [] gone = none
index_removed (x ∷ xs) gone =
    let rest = index_removed xs gone in
    if contains gone x then some 0 else elim rest [ none ↦ none | some i ↦ some (suc i) ]

-- An array read with a default, and an array write.
abbrev pub cell : List String → ℕ → String
cell [] i = ""
cell (x ∷ xs) zero = x
cell (x ∷ xs) (suc i) = cell xs i

abbrev pub set_cell : List String → ℕ → String → List String
set_cell [] i v = []
set_cell (x ∷ xs) zero v = v ∷ xs
set_cell (x ∷ xs) (suc i) v = x ∷ set_cell xs i v

-- The loop of remove: `rounds` cells are left to read from `j` on, `i` is where to write.
unfoldable pub compact : ℕ → ℕ → ℕ → List String → List String → ℕ × List String
compact zero j i s gone = (i, s)
compact (suc rounds) j i s gone =
    let dropped = compact rounds (suc j) i s gone in
    let kept = compact rounds (suc j) (suc i) (set_cell s i (cell s j)) gone in
    if contains gone (cell s j) then dropped else kept

abbrev pub take_pair : ℕ × List String → List String
take_pair (n, s) = take n s

-- remove from the index of its first item on.
abbrev pub remove_from : List String → List String → Option ℕ → List String
remove_from s gone none = s
remove_from s gone (some i) = take_pair (compact (length s - suc i) (suc i) i s gone)

unfoldable pub remove : List String → List String → List String
remove s gone = remove_from s gone (index_removed s gone)
