-- ===== src/Vpn/Clash/Chain.antt =====
-- What resolveChain of vpn/clash.go finds, when no group leads back to itself.
use radiance.Common.{
  ℕ, zero, suc, ◌<◌, ◌≡◌, inl, inr, refl, arith, true, false, Option, none, some, List, [], ◌∷◌,
  String, if◌then◌else◌, Bool-cases,
}
use text.Mathlib.Text.{◌==◌ as str_eq}
use radiance.Vpn.Clash.{
  Detour, Resolved, unknown_next, follow, go_on, resolve_loop, start_tag, nothing_yet,
  resolve_chain,
}

-- Each group of the manager has selected an outbound of a lower rank.
abbrev pub Descends : (String → Option Detour) → (String → ℕ) → Type 0
Descends outbounds rank =
    (next selected : String) (d : Detour)
    → outbounds next ≡ some d
    → d.now ≡ some selected
    → rank selected < rank next

-- Where a walk along the selections stops: at an outbound that is not a group, at a group that has
-- selected nothing, or at a tag that the manager does not know.
pub data Stop : Type 0 where
  leaf nothing_selected : Stop
  unknown : String → Stop

-- The walk from a tag: the tags of the manager that it meets, with their outbounds, and its stop.
pub data Leads (outbounds : String → Option Detour)
    : String → List (String × Detour) → Stop → Type 0 where
  ends : {next : String} → str_eq next "" ≡ true → Leads outbounds next [] nothing_selected
  is_unknown :
      {next : String}
      → str_eq next "" ≡ false
      → outbounds next ≡ none
      → Leads outbounds next [] (unknown next)
  is_leaf :
      {next : String} (d : Detour)
      → str_eq next "" ≡ false
      → outbounds next ≡ some d
      → d.now ≡ none
      → Leads outbounds next ((next, d) ∷ []) leaf
  selects :
      {next : String} {walked : List (String × Detour)} {stop : Stop} (d : Detour)
      (selected : String)
      → str_eq next "" ≡ false
      → outbounds next ≡ some d
      → d.now ≡ some selected
      → Leads outbounds selected walked stop
      → Leads outbounds next ((next, d) ∷ walked) stop

-- The tags of a walk from the last to the first, before so many others.
abbrev pub backwards : List (String × Detour) → List String → List String
backwards [] tags = tags
backwards ((tag, d) ∷ walked) tags = backwards walked (tag ∷ tags)

-- The own tag and type of the last outbound of a walk, or those given if it is empty.
abbrev pub last_tag : List (String × Detour) → String → String
last_tag [] tag = tag
last_tag ((next, d) ∷ walked) tag = last_tag walked d.tag

abbrev pub last_type : List (String × Detour) → String → String
last_type [] type = type
last_type ((next, d) ∷ walked) type = last_type walked d.type

-- The outbound that is reported: the last of the walk, or an unknown tag where that has no name.
abbrev pub reported : Stop → String → String
reported (unknown next) last = if str_eq last "" then next else last
reported _ last = last

-- What the loop gives from `next` on, with what it has found so far.
abbrev Reports : (String → Option Detour) → String → Resolved → Resolved → Type 0
Reports outbounds next r found =
    (walked : List (String × Detour)) × (stop : Stop) × Leads outbounds next walked stop
    × (found.chain ≡ backwards walked r.chain)
    × (found.outbound ≡ reported stop (last_tag walked r.outbound))
    × (found.outbound_type ≡ last_type walked r.outbound_type)

module _ (outbounds : String → Option Detour) (rank : String → ℕ)
    (descends : Descends outbounds rank) where
  unknown_next-Reports :
      (next : String) (r : Resolved)
      → str_eq next "" ≡ false
      → outbounds next ≡ none
      → Reports outbounds next r (unknown_next next r)
  unknown_next-Reports next r e f =
      ([], unknown next, is_unknown e f, ground arith, ground arith, ground arith)

  -- A round whose outbound is known.
  followed :
      (n : ℕ) (next : String) (r : Resolved) (d : Detour) (now : Option String)
      → str_eq next "" ≡ false
      → outbounds next ≡ some d
      → d.now ≡ now
      → ((selected : String) (r1 : Resolved)
          → rank selected < rank next
          → (found : Resolved) × (resolve_loop outbounds n selected r1 ≡ some found)
            × Reports outbounds selected r1 found)
      → (found : Resolved) × (go_on (resolve_loop outbounds n) next r (some d) ≡ some found)
        × Reports outbounds next r found
  followed n next r d none e f g rest =
      (follow r next d, rw g refl, ((next, d) ∷ [], leaf, is_leaf d e f g, refl, refl, refl))
  followed n next r d (some selected) e f g rest =
      let (found, enough, (walked, stop, leads, chain, tag, type)) =
        rest selected (follow r next d) (descends next selected d f g) in
      (
        found,
        rw g enough,
        ((next, d) ∷ walked, stop, selects d selected e f g leads, chain, tag, type),
      )

  known :
      (n : ℕ) (next : String) (r : Resolved) (o : Option Detour)
      → str_eq next "" ≡ false
      → outbounds next ≡ o
      → ((selected : String) (r1 : Resolved)
          → rank selected < rank next
          → (found : Resolved) × (resolve_loop outbounds n selected r1 ≡ some found)
            × Reports outbounds selected r1 found)
      → (found : Resolved) × (go_on (resolve_loop outbounds n) next r o ≡ some found)
        × Reports outbounds next r found
  known n next r none e f rest = (unknown_next next r, refl, unknown_next-Reports next r e f)
  known n next r (some d) e f rest = followed n next r d d.now e f refl rest

  resolve_loop-Reports :
      (n : ℕ) (next : String) (r : Resolved)
      → rank next < n
      → (found : Resolved) × (resolve_loop outbounds n next r ≡ some found)
        × Reports outbounds next r found
  unfolding resolve_loop
  resolve_loop-Reports zero next r h = absurd (omega arith)
  resolve_loop-Reports (suc n) next r h = elim (Bool-cases (str_eq next "")) [
    | inl e ↦ (r, rw e refl, ([], nothing_selected, ends e, refl, refl, refl))
    | inr e ↦
        let k =
          known n next r (outbounds next) e refl
            (λ selected r1 less. resolve_loop-Reports n selected r1 (omega arith)) in
        (k.0, rw e k.1, k.2)
  ]

  -- When each group of the manager has selected an outbound of a lower rank, so that no group leads
  -- back to itself, resolveChain ends, and its fuel is enough when it is more than the rank of the
  -- matched outbound, or of the default one where none is matched. It follows the walk from that
  -- outbound along the selections, which stops at the first outbound that is not a group, at a group
  -- that has selected nothing, or at a tag that the manager does not know. The chain has the tags of
  -- the walk from the last to the first. The outbound and the type that are reported are those of the
  -- last outbound of the walk; an unknown tag is reported where that outbound has no tag, or where
  -- the walk has no outbound.
  pub resolve_chain-Leads :
      (fuel : ℕ) (matched : Option String) (default : String)
      → rank (start_tag matched default) < fuel
      → (found : Resolved) × (resolve_chain outbounds fuel matched default ≡ some found)
        × ((walked : List (String × Detour)) × (stop : Stop) × Leads outbounds
              (start_tag matched default)
              walked
              stop
            × (found.chain ≡ backwards walked [])
            × (found.outbound ≡ reported stop (last_tag walked ""))
            × (found.outbound_type ≡ last_type walked ""))
  unfolding resolve_chain
  resolve_chain-Leads fuel matched default h =
      let (found, enough, reports) =
        resolve_loop-Reports fuel (start_tag matched default) nothing_yet h in
      (found, enough, reports)
