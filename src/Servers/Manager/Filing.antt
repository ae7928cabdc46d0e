-- ===== src/Servers/Manager/Filing.antt =====
-- The servers of a manager of servers/manager.go by their tags: the map's keys through every
-- operation, and what adding and removing do to a tag.
use radiance.Common.{
  ◌≡◌, inl, inr, refl, ◌∙◌, ap, arith, subst, Bool, Option, none, some, List, [], ◌∷◌, ◌++◌,
  if◌then◌else◌, any_of, String, Bool-cases, Option-cases,
}
use text.Mathlib.Text.{◌==◌ as str_eq}
use text.Mathlib.TextEquality.{eq_iff}
use radiance.Servers.Server.{Server}
use radiance.Servers.Manager.{put_servers, remove_each, put_histories}
use radiance.Common.Dict.{lookup, insert, delete, lookup-insert, lookup-delete}

abbrev pub any_is : String → List String → Bool
any_is tag tags = any_of (λ t. str_eq t tag) tags

module _ {B L H : Type 0} where
  -- Each server stands under its own tag, and no tag stands twice.
  abbrev pub Filed : List (String × Server B L H) → Type 0
  Filed [] = Unit
  Filed ((tag, s) ∷ ss) = (tag ≡ s.tag) × (lookup tag ss ≡ none) × Filed ss

  pub insert-Filed :
      (tag : String) (s : Server B L H) (ss : List (String × Server B L H))
      → tag ≡ s.tag
      → Filed ss
      → Filed (insert tag s ss)
  unfolding insert lookup
  insert-Filed tag s [] e f = (e, refl, tt)
  insert-Filed tag s ((j, w) ∷ ss) e (own, new, f) = elim (Bool-cases (str_eq j tag)) [
    | inl t ↦ rw t (e, subst (λ (k : String). lookup k ss ≡ none) ((eq_iff j tag).0 t) new, f)
    | inr t ↦ rw t (
      own,
      ground (arith, lookup-insert tag j s ss, eq_iff tag j, eq_iff j tag),
      insert-Filed tag s ss e f,
    )
  ]

  pub delete-Filed :
      (tag : String) (ss : List (String × Server B L H)) → Filed ss → Filed (delete tag ss)
  unfolding delete
  delete-Filed tag [] f = tt
  delete-Filed tag ((j, w) ∷ ss) (own, new, f) = elim (Bool-cases (str_eq j tag)) [
    | inl t ↦ rw t (delete-Filed tag ss f)
    | inr t ↦ rw t (own, ground (arith, lookup-delete tag j ss), delete-Filed tag ss f)
  ]

  pub Filed-lookup :
      (tag : String) (s : Server B L H) (ss : List (String × Server B L H))
      → Filed ss
      → lookup tag ss ≡ some s
      → tag ≡ s.tag
  unfolding lookup
  Filed-lookup tag s [] f e = ground arith
  Filed-lookup tag s ((j, w) ∷ ss) (own, new, f) e =
      ground (arith, eq_iff j tag, Filed-lookup tag s ss f)

  pub put_servers-Filed :
      (list : List (Server B L H)) (ss : List (String × Server B L H))
      → Filed ss
      → Filed (put_servers list ss)
  unfolding put_servers
  put_servers-Filed [] ss f = f
  put_servers-Filed (s ∷ list) ss f =
      put_servers-Filed list (insert s.tag s ss) (insert-Filed s.tag s ss refl f)

  pub remove_each-Filed :
      (tags : List String) (removed : List (Server B L H)) (ss : List (String × Server B L H))
      → Filed ss
      → Filed (remove_each tags (removed, ss)).1
  unfolding remove_each
  remove_each-Filed [] removed ss f = f
  remove_each-Filed (tag ∷ tags) removed ss f = elim (Option-cases (lookup tag ss)) [
    | inl e ↦ rw (remove_each, e) (remove_each-Filed tags removed ss f)
    | inr (s, e) ↦
        rw (remove_each, e)
          (remove_each-Filed tags (removed ++ s ∷ []) (delete tag ss) (delete-Filed tag ss f))
  ]

  pub put_histories-Filed :
      (results : List (String × H)) (ss : List (String × Server B L H))
      → Filed ss
      → Filed (put_histories results ss)
  unfolding put_histories
  put_histories-Filed [] ss f = f
  put_histories-Filed ((tag, h) ∷ results) ss f = elim (Option-cases (lookup tag ss)) [
    | inl e ↦ rw e (put_histories-Filed results ss f)
    | inr (s, e) ↦ rw e (
        put_histories-Filed results (insert tag (record s { selection_history = some h }) ss) (
          insert-Filed tag (record s { selection_history = some h }) ss (Filed-lookup tag s ss f e)
            f))
  ]

  -- The last server of a list with the tag, or else the one given.
  unfoldable pub last_tagged :
      String → List (Server B L H) → Option (Server B L H) → Option (Server B L H)
  last_tagged tag [] s = s
  last_tagged tag (s ∷ list) found =
      last_tagged tag list (if str_eq s.tag tag then some s else found)

  pub lookup-put_servers :
      (tag : String) (list : List (Server B L H)) (ss : List (String × Server B L H))
      → lookup tag (put_servers list ss) ≡ last_tagged tag list (lookup tag ss)
  unfolding put_servers last_tagged
  lookup-put_servers tag [] ss = refl
  lookup-put_servers tag (s ∷ list) ss =
      lookup-put_servers tag list (insert s.tag s ss)
      ∙ ap (last_tagged tag list) (lookup-insert s.tag tag s ss)

  pub lookup-remove_each :
      (tag : String) (tags : List String) (removed : List (Server B L H))
      (ss : List (String × Server B L H))
      → lookup tag (remove_each tags (removed, ss)).1
        ≡ (if any_is tag tags then none else lookup tag ss)
  unfolding remove_each
  lookup-remove_each tag [] removed ss = refl
  lookup-remove_each tag (t ∷ tags) removed ss = elim (Option-cases (lookup t ss)) [
    | inl e ↦
        rw (remove_each, e)
          (lookup-remove_each tag tags removed ss ∙ ground (arith, eq_iff t tag, e))
    | inr (s, e) ↦
        rw (remove_each, e)
          (lookup-remove_each tag tags (removed ++ s ∷ []) (delete t ss)
            ∙ ground (arith, lookup-delete t tag ss))
  ]
