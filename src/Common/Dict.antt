-- ===== src/Common/Dict.antt =====
-- Dictionaries as association lists, for the maps with text keys. No source file corresponds to it.
use Prim.Native.String.{String}
use mathlib.Core.Path.{◌≡◌, refl}
use mathlib.Core.Option.{Option, none, some}
use mathlib.Core.List.{List, [], ◌∷◌}
use native.Mathlib.Omega.{arith}
use text.Mathlib.Text.{◌==◌}
use text.Mathlib.TextEquality.{eq_iff}
use radiance.Common.Tests.{if◌then◌else◌}

module _ {ℓ} {V : Type ℓ} where
  -- Every entry under the key leaves.
  unfoldable pub delete : String → List (String × V) → List (String × V)
  delete key [] = []
  delete key (e ∷ entries) = let rest = delete key entries in if e.0 == key then rest else e ∷ rest

  unfoldable pub lookup : String → List (String × V) → Option V
  lookup key [] = none
  lookup key (e ∷ entries) =
      let later = lookup key entries in if e.0 == key then some e.1 else later

  -- The value takes the place of the key's first entry, or it comes last.
  unfoldable pub insert : String → V → List (String × V) → List (String × V)
  insert key value [] = (key, value) ∷ []
  insert key value (e ∷ entries) =
      let changed = insert key value entries in
      if e.0 == key then (key, value) ∷ entries else e ∷ changed

  pub lookup-delete :
      (gone key : String) (entries : List (String × V))
      → lookup key (delete gone entries) ≡ (if gone == key then none else lookup key entries)
  unfolding lookup delete
  lookup-delete gone key [] = ground arith
  lookup-delete gone key (e ∷ entries) =
      let ih = lookup-delete gone key entries in
      ground (arith, ih, eq_iff gone key, eq_iff e.0 gone, eq_iff e.0 key)

  pub lookup-insert :
      (new key : String) (value : V) (entries : List (String × V))
      → lookup key (insert new value entries)
        ≡ (if new == key then some value else lookup key entries)
  unfolding insert lookup
  lookup-insert new key value [] = refl
  lookup-insert new key value (e ∷ entries) =
      let ih = lookup-insert new key value entries in
      ground (arith, ih, eq_iff e.0 new, eq_iff e.0 key, eq_iff new key)
