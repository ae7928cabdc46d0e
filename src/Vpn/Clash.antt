-- ===== src/Vpn/Clash.antt =====
-- The modes and the routed connections of vpn/clash.go. The comparison of texts regardless of case and
-- the outbound manager of sing-box are arguments.
pub mod Chain
mod Tests
use radiance.Common.{
  ℕ, zero, suc, ◌+◌, Bool, true, false, not, ◌&&◌, Option, none, some, List, [], ◌∷◌, ◌++◌,
  if◌then◌else◌, any_of, String,
}
use text.Mathlib.Text.{◌==◌ as str_eq}
use radiance.Vpn.BoxOptions.Rules.{reject_mode}

-- `clears` counts the calls of ClearCache.
pub record ClashServer : Type 0 where
  pub mode : String
  pub mode_list : List String
  pub rejecting : Bool
  pub clears : ℕ

pub data NewServer : Type 0 where
  made : ClashServer → NewServer
  empty_list unknown_initial : NewServer

abbrev server_with : List String → String → ClashServer
server_with modes initial = record {
  mode = initial;
  mode_list = modes;
  rejecting = false;
  clears = 0;
}

unfoldable pub new_clash_server : List String → String → NewServer
new_clash_server [] initial = empty_list
new_clash_server (m ∷ modes) initial =
    if str_eq initial ""
    then made (server_with (m ∷ modes) m)
    else if any_of (λ t. str_eq t initial) (m ∷ modes)
    then made (server_with (m ∷ modes) initial)
    else unknown_initial

abbrev pub switch_to : ClashServer → String → ClashServer
switch_to s mode = if str_eq s.mode mode then s else record s { mode = mode; clears = suc s.clears }

module _ (equal_fold : String → String → Bool) where
  unfoldable pub find_mode : List String → String → Option String
  find_mode [] mode = none
  find_mode (m ∷ modes) mode =
      let rest = find_mode modes mode in if equal_fold m mode then some m else rest

  -- Whether SetMode succeeds.
  unfoldable pub set_mode : ClashServer → String → ClashServer × Bool
  set_mode s mode = elim (find_mode s.mode_list mode) [
    | none ↦ (s, false)
    | some m ↦ (switch_to s m, true)
  ]

unfoldable pub current_mode : ClashServer → String
current_mode s = if s.rejecting then reject_mode else s.mode

unfoldable pub set_reject_mode : Bool → ClashServer → ClashServer
set_reject_mode enable s = record s { rejecting = enable }

-- An outbound, with the tag that a group has selected.
pub record Detour : Type 0 where
  pub tag : String
  pub type : String
  pub now : Option String

pub record Resolved : Type 0 where
  pub outbound : String
  pub outbound_type : String
  pub chain : List String

abbrev pub unknown_next : String → Resolved → Resolved
unknown_next next r = if str_eq r.outbound "" then record r { outbound = next } else r

abbrev pub follow : Resolved → String → Detour → Resolved
follow r next d = record { outbound = d.tag; outbound_type = d.type; chain = next ∷ r.chain }

abbrev pub go_on :
    (String → Resolved → Option Resolved) → String → Resolved → Option Detour → Option Resolved
go_on loop next r none = some (unknown_next next r)
go_on loop next r (some d) = elim d.now [
  | none ↦ some (follow r next d)
  | some n ↦ loop n (follow r next d)
]

-- The loop of resolveChain, with fuel for so many rounds; the chain is kept in the reverse order, in
-- which it is returned.
unfoldable pub resolve_loop : (String → Option Detour) → ℕ → String → Resolved → Option Resolved
resolve_loop outbounds zero next r = none
resolve_loop outbounds (suc n) next r =
    if str_eq next "" then some r else go_on (resolve_loop outbounds n) next r (outbounds next)

abbrev pub start_tag : Option String → String → String
start_tag none default = default
start_tag (some tag) default = tag

abbrev pub nothing_yet : Resolved
nothing_yet = record { outbound = ""; outbound_type = ""; chain = [] }

unfoldable pub resolve_chain :
    (String → Option Detour) → ℕ → Option String → String → Option Resolved
resolve_chain outbounds fuel matched default =
    resolve_loop outbounds fuel (start_tag matched default) nothing_yet
