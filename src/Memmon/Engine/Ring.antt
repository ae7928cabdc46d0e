-- ===== src/Memmon/Engine/Ring.antt =====
-- The ring of recent samples of vpn/memmon/decision_engine.go.
use radiance.Common.{
  ℕ, suc, ◌-◌, ◌<◌, ◌≡◌, refl, arith, List, [], ◌∷◌, ◌++◌, length, drop, ◌∙◌, ap, append-nil,
  append_assoc, length-append, length-drop, ==_iff, suffix, drop-append, drop-suc,
}
use native.Mathlib.Decide.{dec_le}
use radiance.Memmon.Float.{FloatOps}
use radiance.Memmon.Types.{Sample}
use radiance.Memmon.Engine.{Engine, Config, decide, run, bounded_append, ring_len, new_engine}
use radiance.Memmon.Engine.Frame.{decide-ring}

module _ {ℓ} {A : Type ℓ} where
  -- bounded_append keeps a ring that holds the last members of a history up to date.
  pub bounded_append-suffix :
      (xs : List A) (v : A) (n : ℕ)
      → 0 < n
      → bounded_append (suffix n xs) v n ≡ suffix n (xs ++ v ∷ [])
  unfolding bounded_append
  bounded_append-suffix xs v n h = elim (dec_le n (length xs)) [
    | yes full ↦
        let e : length (drop (length xs - n) xs) ≡ n =
          omega (arith, length-drop (length xs - n) xs) in
        let k : length (xs ++ v ∷ []) - n ≡ suc (length xs - n) =
          omega (arith, length-append xs (v ∷ [])) in
        rw ((==_iff _ n).1 e, k, drop-append (suc (length xs - n)) xs (v ∷ []) (omega arith))
          (ap (λ ys. ys ++ v ∷ []) (drop-suc (length xs - n) xs))
    | no part ↦
        let z : length xs - n ≡ 0 = omega arith in
        let k : length (xs ++ v ∷ []) - n ≡ 0 = omega (arith, length-append xs (v ∷ [])) in
        rw (z, k) (ground (arith, part))
  ]

module _ {F : Type 0} ⦃o : FloatOps F⦄ where
  run-suffix :
      (c : Engine F) (past ss : List Sample)
      → c.ring ≡ suffix ring_len past
      → (run c ss).0.ring ≡ suffix ring_len (past ++ ss)
  unfolding run
  run-suffix c past [] h = rw append-nil h
  run-suffix c past (s ∷ ss) h = rw (← append_assoc past (s ∷ []) ss) (
      run-suffix (decide c s).0 (past ++ s ∷ []) ss (
        decide-ring c s
        ∙ ap (λ r. bounded_append r s ring_len) h
        ∙ bounded_append-suffix past s ring_len (omega arith)))

  -- After any stream of samples the ring holds the last eight of them, oldest first.
  pub run-ring_last :
      (cfg : Config F) (ss : List Sample) → (run (new_engine cfg) ss).0.ring ≡ suffix ring_len ss
  unfolding new_engine
  run-ring_last cfg ss = run-suffix (new_engine cfg) [] ss refl
