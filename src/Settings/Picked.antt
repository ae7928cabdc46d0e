-- ===== src/Settings/Picked.antt =====
-- The candidate that the migration of common/settings/settings.go picks.
use radiance.Common.{
  ◌≡◌, ◌⊎◌, inl, inr, refl, sym, ap, ◌∙◌, subst, arith, Bool, true, false, Option, none, some, List,
  [], ◌∷◌, ◌++◌, if◌then◌else◌, any_of, Bool-cases, All,
}
use text.Mathlib.Text.{◌==◌ as str_eq}
use radiance.Settings.Migration.{
  Blob, FileRead, contents, missing, unreadable, Legacy, Disk, CandidateSource, candidate,
  yaml_candidate, cross_dir_candidates, older_candidates, candidates, is_pro, user_level_in_json,
  first_pro, first_of, or_first, pick, write_migrated, is_unreadable,
  migrate_legacy_settings_if_needed,
}

abbrev NotCanonical : CandidateSource → Type 0
NotCanonical c = c.is_canonical ≡ false

All-append :
    (P : CandidateSource → Type 0) (xs ys : List CandidateSource)
    → All P xs
    → All P ys
    → All P (xs ++ ys)
All-append P [] ys h k = k
All-append P (x ∷ xs) ys h k = (h.0, All-append P xs ys h.1 k)

candidate-NotCanonical : (f : FileRead) → All NotCanonical (candidate false f)
candidate-NotCanonical (contents b) = (refl, tt)
candidate-NotCanonical missing = tt
candidate-NotCanonical unreadable = tt

cross_dir-NotCanonical : (fs : List FileRead) → All NotCanonical (cross_dir_candidates fs)
unfolding cross_dir_candidates
cross_dir-NotCanonical [] = tt
cross_dir-NotCanonical (f ∷ fs) =
    All-append NotCanonical (candidate false f) (cross_dir_candidates fs) (candidate-NotCanonical f)
      (cross_dir-NotCanonical fs)

yaml-NotCanonical : (y : Option Legacy) → All NotCanonical (yaml_candidate y)
yaml-NotCanonical none = tt
yaml-NotCanonical (some y) = (refl, tt)

older-NotCanonical : (d : Disk) → All NotCanonical (older_candidates d)
unfolding older_candidates
older-NotCanonical d =
    All-append NotCanonical (candidate false d.local_json)
      (cross_dir_candidates d.cross_dir ++ (yaml_candidate d.yaml ++ candidate false d.nested))
      (candidate-NotCanonical d.local_json)
      (All-append NotCanonical (cross_dir_candidates d.cross_dir)
        (yaml_candidate d.yaml ++ candidate false d.nested) (cross_dir-NotCanonical d.cross_dir)
        (All-append NotCanonical (yaml_candidate d.yaml) (candidate false d.nested)
          (yaml-NotCanonical d.yaml) (candidate-NotCanonical d.nested)))

first_pro-is_pro :
    (cs : List CandidateSource) (c : CandidateSource) → first_pro cs ≡ some c → is_pro c ≡ true
unfolding first_pro
first_pro-is_pro [] c h = absurd (ground arith)
first_pro-is_pro (x ∷ cs) c h = elim (Bool-cases (is_pro x)) [
  | inl e ↦ let same : x ≡ c = ground arith in ap is_pro (sym same) ∙ e
  | inr e ↦ first_pro-is_pro cs c (ground arith)
]

first_pro-any :
    (cs : List CandidateSource) (c : CandidateSource)
    → first_pro cs ≡ some c
    → any_of is_pro cs ≡ true
unfolding first_pro
first_pro-any [] c h = absurd (ground arith)
first_pro-any (x ∷ cs) c h = elim (Bool-cases (is_pro x)) [
  | inl e ↦ ground arith
  | inr e ↦ ground (arith, first_pro-any cs c (ground arith))
]

first_pro-none : (cs : List CandidateSource) → first_pro cs ≡ none → any_of is_pro cs ≡ false
unfolding first_pro
first_pro-none [] h = refl
first_pro-none (x ∷ cs) h = elim (Bool-cases (is_pro x)) [
  | inl e ↦ absurd (ground arith)
  | inr e ↦ ground (arith, first_pro-none cs (ground arith))
]

first_pro-NotCanonical :
    (cs : List CandidateSource) (c : CandidateSource)
    → All NotCanonical cs
    → first_pro cs ≡ some c
    → c.is_canonical ≡ false
unfolding first_pro
first_pro-NotCanonical [] c a h = absurd (ground arith)
first_pro-NotCanonical (x ∷ cs) c a h = elim (Bool-cases (is_pro x)) [
  | inl e ↦
      let same : x ≡ c = ground arith in
      ap (λ (z : CandidateSource). z.is_canonical) (sym same) ∙ a.0
  | inr e ↦ first_pro-NotCanonical cs c a.1 (ground arith)
]

abbrev pub Heads : List CandidateSource → Blob → Type 0
Heads [] b = true ≡ false
Heads (c ∷ cs) b = c.blob ≡ b

abbrev pub level_is_pro : Blob → Bool
level_is_pro b = str_eq (user_level_in_json b) "pro"

-- What the settings file is after the migration: a pro candidate if there is one, else the first.
abbrev pub Migrated : List CandidateSource → FileRead → Type 0
Migrated cs missing = cs ≡ []
Migrated cs unreadable = true ≡ false
Migrated cs (contents b) =
    ((any_of is_pro cs ≡ false) ⊎ (level_is_pro b ≡ true))
    × ((any_of is_pro cs ≡ true) ⊎ Heads cs b)

-- The settings file after the migration, by the candidate that is picked.
abbrev pub picked : Option CandidateSource → FileRead → FileRead
picked none f = f
picked (some c) f = if c.is_canonical then f else contents c.blob

pub write_migrated-canonical :
    (d : Disk) (o : Option CandidateSource)
    → (write_migrated true d o).canonical ≡ picked o d.canonical
write_migrated-canonical d none = refl
write_migrated-canonical d (some c) = ground arith

picked_older :
    (cs all : List CandidateSource) (f : FileRead) (c : CandidateSource)
    → c.is_canonical ≡ false
    → Migrated all (contents c.blob)
    → Migrated all (picked (some c) f)
picked_older cs all f c n m =
    subst (λ (b : Bool). Migrated all (if b then f else contents c.blob)) (sym n) m

-- With no canonical file.
first_older :
    (cs : List CandidateSource)
    → All NotCanonical cs
    → any_of is_pro cs ≡ false
    → Migrated cs (picked (first_of cs) missing)
first_older [] a n = refl
first_older (c ∷ cs) a n = picked_older cs (c ∷ cs) missing c a.0 (inl n, inr refl)

among_older :
    (cs : List CandidateSource) (o : Option CandidateSource)
    → first_pro cs ≡ o
    → All NotCanonical cs
    → Migrated cs (picked (or_first o (first_of cs)) missing)
among_older cs none e a = first_older cs a (first_pro-none cs e)
among_older cs (some c) e a =
    picked_older cs cs missing c (first_pro-NotCanonical cs c a e)
      (inr (first_pro-is_pro cs c e), inl (first_pro-any cs c e))

-- With a canonical file.
canonical_kept :
    (cs : List CandidateSource) (x : CandidateSource) (o : Option CandidateSource)
    → x.is_canonical ≡ true
    → is_pro x ≡ false
    → first_pro cs ≡ o
    → All NotCanonical cs
    → Migrated (x ∷ cs) (picked (or_first o (some x)) (contents x.blob))
canonical_kept cs x none k p e a =
    subst (λ (b : Bool). Migrated (x ∷ cs) (if b then contents x.blob else contents x.blob)) (sym k)
      (inl (rw p (first_pro-none cs e)), inr refl)
canonical_kept cs x (some c) k p e a =
    picked_older cs (x ∷ cs) (contents x.blob) c (first_pro-NotCanonical cs c a e)
      (inr (first_pro-is_pro cs c e), inl (ground (arith, first_pro-any cs c e)))

with_canonical :
    (cs : List CandidateSource) (x : CandidateSource) (p : Bool)
    → x.is_canonical ≡ true
    → is_pro x ≡ p
    → All NotCanonical cs
    → Migrated
        (x ∷ cs)
        (picked (or_first (if p then some x else first_pro cs) (some x)) (contents x.blob))
with_canonical cs x true k p a =
    subst (λ (b : Bool). Migrated (x ∷ cs) (if b then contents x.blob else contents x.blob)) (sym k)
      (inr p, inr refl)
with_canonical cs x false k p a = canonical_kept cs x (first_pro cs) k p refl a

picked-Migrated :
    (f : FileRead) (cs : List CandidateSource)
    → is_unreadable f ≡ false
    → All NotCanonical cs
    → Migrated (candidate true f ++ cs) (picked (pick (candidate true f ++ cs)) f)
unfolding pick first_pro
picked-Migrated missing cs h a = among_older cs (first_pro cs) refl a
picked-Migrated (contents b) cs h a =
    let x : CandidateSource = record { blob = b; is_canonical = true } in
    with_canonical cs x (is_pro x) refl refl a
picked-Migrated unreadable cs h a = absurd (ground arith)

pub migrate-Migrated :
    (d : Disk)
    → is_unreadable d.canonical ≡ false
    → Migrated (candidates d) (migrate_legacy_settings_if_needed true d).canonical
unfolding migrate_legacy_settings_if_needed candidates
migrate-Migrated d h =
    let cs = candidate true d.canonical ++ older_candidates d in
    subst (λ (b : Bool). Migrated cs (if b then d else write_migrated true d (pick cs)).canonical)
      (sym h)
      (subst (Migrated cs) (sym (write_migrated-canonical d (pick cs)))
        (picked-Migrated d.canonical (older_candidates d) h (older-NotCanonical d)))
