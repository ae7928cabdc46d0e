-- ===== src/Issue/Archive/Search.antt =====
-- The binary search of issue/archive.go, searchMaxLogTail: it ends, where the test turns.
use radiance.Common.{
  ℕ, zero, suc, ◌+◌, ◌-◌, ◌/◌, ◌≤◌, ◌≡◌, ◌⊎◌, inl, inr, refl, ap, ◌∙◌, arith, Bool, true, false,
  some, length, leb, leb→le, Bool-cases,
}
use radiance.Issue.Archive.{
  Zip, Bytes, tail_bytes, tail_fits, search_loop, chunk_count, search_max_log_tail,
}

-- What a search of lo..hi gives: `best`, and the first of them fails if there is one; or the tail of
-- one that passes, which is the last or stands just before one that fails.
abbrev Found : (ℕ → Bool) → ℕ → ℕ → ℕ → ℕ → ℕ → Type 0
Found ok n lo hi best r =
    ((r ≡ best) × ((lo ≡ hi + 1) ⊎ (ok lo ≡ false)))
    ⊎ ((k : ℕ) × (lo ≤ k)
        × (k ≤ hi)
        × (ok k ≡ true)
        × (r ≡ tail_bytes n k)
        × ((k ≡ hi) ⊎ (ok (k + 1) ≡ false)))

Found-upper :
    (ok : ℕ → Bool) (n lo hi best mid r : ℕ)
    → lo ≤ mid
    → mid ≤ hi
    → ok mid ≡ true
    → Found ok n (mid + 1) hi (tail_bytes n mid) r
    → Found ok n lo hi best r
Found-upper ok n lo hi best mid r a b h (inl (e, inl last)) =
    inr (mid, a, b, h, e, inl (omega arith))
Found-upper ok n lo hi best mid r a b h (inl (e, inr fails)) = inr (mid, a, b, h, e, inr fails)
Found-upper ok n lo hi best mid r a b h (inr (k, p, q, f, e, edge)) =
    inr (k, omega arith, q, f, e, edge)

Found-lower :
    (ok : ℕ → Bool) (n lo hi best mid r : ℕ)
    → 1 ≤ lo
    → lo ≤ mid
    → mid ≤ hi
    → ok mid ≡ false
    → Found ok n lo (mid - 1) best r
    → Found ok n lo hi best r
Found-lower ok n lo hi best mid r pos a b h (inl (e, inl first)) =
    let same : lo ≡ mid = omega arith in inl (e, inr (ap ok same ∙ h))
Found-lower ok n lo hi best mid r pos a b h (inl (e, inr fails)) = inl (e, inr fails)
Found-lower ok n lo hi best mid r pos a b h (inr (k, p, q, f, e, inl last)) =
    let next : k + 1 ≡ mid = omega arith in inr (k, p, omega arith, f, e, inr (ap ok next ∙ h))
Found-lower ok n lo hi best mid r pos a b h (inr (k, p, q, f, e, inr fails)) =
    inr (k, p, omega arith, f, e, inr fails)

pub search_loop-Found :
    (fuel : ℕ) (ok : ℕ → Bool) (n lo hi best : ℕ)
    → 1 ≤ lo
    → lo ≤ hi + 1
    → hi + 2 ≤ fuel + lo
    → (r : ℕ) × (search_loop fuel ok n lo hi best ≡ some r) × Found ok n lo hi best r
unfolding search_loop
search_loop-Found zero ok n lo hi best h near few = absurd (omega arith)
search_loop-Found (suc fuel) ok n lo hi best h near few = elim (Bool-cases (leb lo hi)) [
  | inr empty ↦ (best, rw empty refl, inl (refl, inl (ground arith)))
  | inl more ↦
      let le = leb→le lo hi more in
      let mid = lo + (hi - lo) / 2 in
      elim (Bool-cases (ok (lo + (hi - lo) / 2))) [
        | inl passes ↦
            let (r, e, f) =
              search_loop-Found fuel ok n (lo + (hi - lo) / 2 + 1) hi
                (tail_bytes n (lo + (hi - lo) / 2)) (omega arith) (omega arith) (omega arith) in
            (
              r,
              rw (more, passes) e,
              Found-upper ok n lo hi best mid r (omega arith) (omega arith) passes f,
            )
        | inr fails ↦
            let (r, e, f) =
              search_loop-Found fuel ok n lo (lo + (hi - lo) / 2 - 1) best h (omega arith)
                (omega arith) in
            (
              r,
              rw (more, fails) e,
              Found-lower ok n lo hi best mid r h (omega arith) (omega arith) fails f,
            )
      ]
]

search-Found :
    (zip : Zip) (log : Bytes) (max_size : ℕ)
    → (r : ℕ) × (search_max_log_tail zip log max_size ≡ some r)
      × Found (tail_fits zip log max_size) (length log) 1 (chunk_count (length log)) 0 r
unfolding search_max_log_tail
search-Found zip log max_size =
    let n = length log in
    search_loop-Found (chunk_count n + 2) (tail_fits zip log max_size) n 1 (chunk_count n) 0
      (omega arith) (omega arith) (omega arith)

-- The search for a tail ends, with the empty tail or with a number of chunks, of those the log has,
-- whose tail was archived and fits.
pub search_max_log_tail-fits :
    (zip : Zip) (log : Bytes) (max_size : ℕ)
    → (r : ℕ) × (search_max_log_tail zip log max_size ≡ some r)
      × ((r ≡ 0)
          ⊎ ((k : ℕ) × (1 ≤ k)
              × (k ≤ chunk_count (length log))
              × (tail_fits zip log max_size k ≡ true)
              × (r ≡ tail_bytes (length log) k)))
search_max_log_tail-fits zip log max_size =
    let (r, e, f) = search-Found zip log max_size in
    (r, e, elim f [ inl (z, above) ↦ inl z | inr (k, p, q, t, g, above) ↦ inr (k, p, q, t, g) ])

-- The search for a tail ends where the test turns: with the empty tail, and the log has no chunk or
-- its last chunk alone does not pass; or with a number of chunks, of those the log has, whose tail
-- was archived and fits, and that is the whole log or with one chunk more would not pass.
pub search_max_log_tail-maximal :
    (zip : Zip) (log : Bytes) (max_size : ℕ)
    → (r : ℕ) × (search_max_log_tail zip log max_size ≡ some r)
      × (((r ≡ 0) × ((chunk_count (length log) ≡ 0) ⊎ (tail_fits zip log max_size 1 ≡ false)))
          ⊎ ((k : ℕ) × (1 ≤ k)
              × (k ≤ chunk_count (length log))
              × (tail_fits zip log max_size k ≡ true)
              × (r ≡ tail_bytes (length log) k)
              × ((k ≡ chunk_count (length log)) ⊎ (tail_fits zip log max_size (k + 1) ≡ false))))
search_max_log_tail-maximal zip log max_size =
    let (r, e, f) = search-Found zip log max_size in
    (
      r,
      e,
      elim f [
        | inl (z, inl none_left) ↦ inl (z, inl (omega arith))
        | inl (z, inr fails) ↦ inl (z, inr fails)
        | inr found ↦ inr found
      ],
    )
