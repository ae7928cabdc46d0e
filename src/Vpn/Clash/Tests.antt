-- ===== src/Vpn/Clash/Tests.antt =====
-- Modes and chains of vpn/clash.go on concrete outbounds.
use radiance.Common.{
  ℕ, ◌<◌, ◌≡◌, refl, subst, ◌∙◌, ap, arith, Option, none, some, List, [], ◌∷◌, if◌then◌else◌,
  String, Bool-cases, inl, inr,
}
use text.Mathlib.Text.{◌==◌ as str_eq}
use radiance.Vpn.Clash.{Detour, Resolved, resolve_chain, resolve_loop}
use radiance.Vpn.Clash.Chain.{
  Descends, Leads, Stop, backwards, last_tag, last_type, reported, resolve_chain-Leads,
}

abbrev auto_group : Detour
auto_group = record { tag = "auto"; type = "urltest"; now = some "fra" }

abbrev fra : Detour
fra = record { tag = "fra"; type = "water"; now = none }

-- The automatic group has selected an outbound.
abbrev two_outbounds : String → Option Detour
two_outbounds tag =
    if str_eq tag "auto" then some auto_group else if str_eq tag "fra" then some fra else none

abbrev rank : String → ℕ
rank tag = if str_eq tag "auto" then 1 else 0

two_outbounds-Descends : Descends two_outbounds rank
two_outbounds-Descends next selected d e f = elim (Bool-cases (str_eq next "auto")) [
  | inl a ↦
      let same : auto_group ≡ d = ground arith in
      let now : some "fra" ≡ some selected = ap (λ (o : Detour). o.now) same ∙ f in
      let tag : "fra" ≡ selected = ground arith in
      subst (λ (t : String). rank t < rank next) tag (rw a (omega arith))
  | inr a ↦ elim (Bool-cases (str_eq next "fra")) [
    | inl b ↦
        let same : fra ≡ d = ground arith in
        let now : none ≡ some selected = ap (λ (o : Detour). o.now) same ∙ f in
        absurd (ground arith)
    | inr b ↦ absurd (ground arith)
  ]
]

resolve_chain-Leads_example :
    (found : Resolved) × (resolve_chain two_outbounds 2 (some "auto") "fra" ≡ some found)
    × ((walked : List (String × Detour)) × (stop : Stop) × Leads two_outbounds "auto" walked stop
        × (found.chain ≡ backwards walked [])
        × (found.outbound ≡ reported stop (last_tag walked ""))
        × (found.outbound_type ≡ last_type walked ""))
resolve_chain-Leads_example =
    resolve_chain-Leads two_outbounds rank two_outbounds-Descends 2 (some "auto") "fra"
      (omega arith)

chain_found :
    resolve_chain two_outbounds 2 (some "auto") "fra"
    ≡ some (record { outbound = "fra"; outbound_type = "water"; chain = "fra" ∷ "auto" ∷ [] })
unfolding resolve_chain resolve_loop
chain_found = refl
