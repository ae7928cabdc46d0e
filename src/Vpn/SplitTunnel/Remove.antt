-- ===== src/Vpn/SplitTunnel/Remove.antt =====
-- remove of vpn/split_tunnel.go, which compacts the slice in place, against the filter it stands
-- for.
use radiance.Common.{
  ℕ, zero, suc, ◌+◌, ◌-◌, ◌<◌, ◌≡◌, refl, ap, arith, Bool, false, not, Option, none, some, List, [],
  ◌∷◌, ◌++◌, length, take, drop, keep, inl, inr, Bool-cases, Option-cases, String, keep_nil,
  keep_kept, keep_dropped, subst, ap₂, ◌∙◌, append-nil, append_assoc, sym,
}
use radiance.Vpn.SplitTunnel.{contains, index_removed, cell, set_cell, compact, remove}

length-set_cell : (s : List String) (i : ℕ) (v : String) → length (set_cell s i v) ≡ length s
length-set_cell [] i v = refl
length-set_cell (x ∷ xs) zero v = refl
length-set_cell (x ∷ xs) (suc i) v = ap suc (length-set_cell xs i v)

drop-set_cell :
    (s : List String) (i j : ℕ) (v : String) → i < j → drop j (set_cell s i v) ≡ drop j s
drop-set_cell [] i j v h = refl
drop-set_cell (x ∷ xs) i zero v h = elim h [ ]
drop-set_cell (x ∷ xs) zero (suc j) v h = refl
drop-set_cell (x ∷ xs) (suc i) (suc j) v h = drop-set_cell xs i j v (omega arith)

take-set_cell :
    (s : List String) (i : ℕ) (v : String)
    → i < length s
    → take (suc i) (set_cell s i v) ≡ take i s ++ v ∷ []
take-set_cell [] i v h = elim h [ ]
take-set_cell (x ∷ xs) zero v h = refl
take-set_cell (x ∷ xs) (suc i) v h = ap (◌∷◌ x) (take-set_cell xs i v (omega arith))

drop-cell : (s : List String) (j : ℕ) → j < length s → drop j s ≡ cell s j ∷ drop (suc j) s
drop-cell [] j h = elim h [ ]
drop-cell (x ∷ xs) zero h = refl
drop-cell (x ∷ xs) (suc j) h = drop-cell xs j (omega arith)

drop-all : (s : List String) → drop (length s) s ≡ []
drop-all [] = refl
drop-all (x ∷ xs) = drop-all xs

-- What remove keeps.
abbrev pub stays : List String → String → Bool
stays gone v = not (contains gone v)

-- The loop: what it has written, then what it keeps of what it has not read.
compact_lem :
    (rounds j i : ℕ) (s gone : List String)
    → i < j
    → j + rounds ≡ length s
    → take (compact rounds j i s gone).0 (compact rounds j i s gone).1
      ≡ take i s ++ keep (stays gone) (drop j s)
unfolding compact
compact_lem zero j i s gone lt e =
    let d : drop j s ≡ [] = subst (λ (n : ℕ). drop n s ≡ []) (omega arith) (drop-all s) in
    rw (d, keep_nil (stays gone), append-nil (take i s)) refl
compact_lem (suc rounds) j i s gone lt e =
    let d : drop j s ≡ cell s j ∷ drop (suc j) s = drop-cell s j (omega arith) in
    elim (Bool-cases (contains gone (cell s j))) [
      | inl h ↦
          rw (h, d, keep_dropped (stays gone) (cell s j) (drop (suc j) s) (rw h refl))
            (compact_lem rounds (suc j) i s gone (omega arith) (omega arith))
      | inr h ↦
          let v = cell s j in
          let written = set_cell s i v in
          rw (h, d, keep_kept (stays gone) (cell s j) (drop (suc j) s) (rw h refl))
            (compact_lem rounds (suc j) (suc i) (set_cell s i (cell s j)) gone (omega arith)
                (omega (arith, length-set_cell s i (cell s j)))
              ∙ ap₂ (λ x y. x ++ keep (stays gone) y) (take-set_cell s i (cell s j) (omega arith))
                  (drop-set_cell s i (suc j) (cell s j) (omega arith))
              ∙ append_assoc (take i s) (cell s j ∷ []) (keep (stays gone) (drop (suc j) s)))
    ]

-- The first removed item: nothing goes before it, and it goes.
abbrev FirstRemoved : List String → List String → Option ℕ → Type 0
FirstRemoved s gone none = keep (stays gone) s ≡ s
FirstRemoved s gone (some i) =
    (i < length s) × (keep (stays gone) s ≡ take i s ++ keep (stays gone) (drop (suc i) s))

FirstRemoved-later :
    (x : String) (xs gone : List String) (o : Option ℕ)
    → contains gone x ≡ false
    → FirstRemoved xs gone o
    → FirstRemoved (x ∷ xs) gone (elim o [ none ↦ none | some i ↦ some (suc i) ])
FirstRemoved-later x xs gone none h r = keep_kept (stays gone) x xs (rw h refl) ∙ ap (◌∷◌ x) r
FirstRemoved-later x xs gone (some i) h (lt, r) =
    (omega arith, keep_kept (stays gone) x xs (rw h refl) ∙ ap (◌∷◌ x) r)

index_removed_lem : (s gone : List String) → FirstRemoved s gone (index_removed s gone)
index_removed_lem [] gone = keep_nil (stays gone)
index_removed_lem (x ∷ xs) gone = elim (Bool-cases (contains gone x)) [
  | inl h ↦ rw h (omega arith, keep_dropped (stays gone) x xs (rw h refl))
  | inr h ↦
      rw h (FirstRemoved-later x xs gone (index_removed xs gone) h (index_removed_lem xs gone))
]

-- Removing in place is filtering: the result holds the items that are not to be removed, each as
-- often as before and in the same order.
pub remove-keep : (s gone : List String) → remove s gone ≡ keep (λ v. not (contains gone v)) s
unfolding remove
remove-keep s gone = elim (Option-cases (index_removed s gone)) [
  | inl e ↦ rw e (sym (subst (FirstRemoved s gone) e (index_removed_lem s gone)))
  | inr (i, e) ↦
      let (lt, r) = subst (FirstRemoved s gone) e (index_removed_lem s gone) in
      rw e
        (compact_lem (length s - suc i) (suc i) i s gone (omega arith) (omega (arith, lt)) ∙ sym r)
]
