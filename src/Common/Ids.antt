-- ===== src/Common/Ids.antt =====
-- How often an id is in a list of ids. No source file corresponds to it.
use Prim.Native.Nat.{ℕ, suc}
use mathlib.Core.Path.{◌≡◌, refl}
use mathlib.Core.List.{List, [], ◌∷◌, ◌++◌}
use native.Mathlib.Omega.{arith}
use radiance.Common.Tests.{if◌then◌else◌, ◌==◌}

abbrev pub occurrences : ℕ → List ℕ → ℕ
occurrences x [] = 0
occurrences x (j ∷ ids) = if j == x then suc (occurrences x ids) else occurrences x ids

pub occurrences-append :
    (x : ℕ) (ids : List ℕ) (j : ℕ)
    → occurrences x (ids ++ j ∷ [])
      ≡ (if j == x then suc (occurrences x ids) else occurrences x ids)
occurrences-append x [] j = refl
occurrences-append x (i ∷ ids) j = ground (arith, occurrences-append x ids j)
