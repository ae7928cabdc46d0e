-- ===== src/Issue/Archive/Fit.antt =====
-- The archive that fitArchive of issue/archive.go makes: its size, and what is in it.
use radiance.Common.{
  ℕ, ◌-◌, ◌≤◌, ◌≡◌, ◌⊎◌, inl, inr, refl, sym, ap, ◌∙◌, arith, true, false, some, List, [], ◌∷◌,
  ◌++◌, length, suffix, drop-all, leb, leb→le, Bool-cases, Option-cases, append-nil, append_assoc,
  subst, ◌&&◌, ap₂,
}
use radiance.Issue.Archive.{
  Zip, Bytes, ExtraFile, Greedy, Outcome, failed, nothing, no_fuel, archive, write_archive,
  logs_from_primary, log_archive_name, fits, tail_bytes, tail_fits, keep_log, keep_attachment,
  try_log, try_attachment, try_logs, try_attachments, add_extras_greedily, fit_tail, fit_primary,
  fit_all, no_files, fit_archive, search_max_log_tail,
}
use radiance.Issue.Archive.Search.{search_max_log_tail-fits}

-- Some of the files, in order.
pub data Picked : List ExtraFile → List ExtraFile → Type 0 where
  done : Picked [] []
  taken : {f : ExtraFile} {fs gs : List ExtraFile} → Picked fs gs → Picked (f ∷ fs) (f ∷ gs)
  left : {f : ExtraFile} {fs gs : List ExtraFile} → Picked fs gs → Picked fs (f ∷ gs)

Picked-all : (fs : List ExtraFile) → Picked fs fs
Picked-all [] = done
Picked-all (f ∷ fs) = taken (Picked-all fs)

-- The archive kept so far was made of the files kept so far, and fits.
record Made (zip : Zip) (max_size : ℕ) (g : Greedy) : Type 0 where
  made : write_archive zip g.current_logs g.current_attachments ≡ some g.last_good
  small : length g.last_good ≤ max_size

-- One step keeps a file or not.
try_log-Made :
    (zip : Zip) (max_size : ℕ) (g : Greedy) (f : ExtraFile)
    → Made zip max_size g
    → Made zip max_size (try_log zip max_size g f)
      × ((try_log zip max_size g f).current_attachments ≡ g.current_attachments)
      × (((try_log zip max_size g f).current_logs ≡ g.current_logs)
          ⊎ ((try_log zip max_size g f).current_logs ≡ g.current_logs ++ f ∷ []))
unfolding try_log
try_log-Made zip max_size g f m =
    elim (Option-cases (write_archive zip (g.current_logs ++ f ∷ []) g.current_attachments)) [
      | inl e ↦ rw e (m, refl, inl refl)
      | inr (buf, e) ↦ elim (Bool-cases (leb (length buf) max_size)) [
        | inl t ↦
            rw (e, keep_log, t)
              (record { made = e; small = leb→le (length buf) max_size t }, refl, inr refl)
        | inr t ↦ rw (e, keep_log, t) (m, refl, inl refl)
      ]
    ]

try_attachment-Made :
    (zip : Zip) (max_size : ℕ) (g : Greedy) (f : ExtraFile)
    → Made zip max_size g
    → Made zip max_size (try_attachment zip max_size g f)
      × ((try_attachment zip max_size g f).current_logs ≡ g.current_logs)
      × (((try_attachment zip max_size g f).current_attachments ≡ g.current_attachments)
          ⊎ ((try_attachment zip max_size g f).current_attachments
              ≡ g.current_attachments ++ f ∷ []))
unfolding try_attachment
try_attachment-Made zip max_size g f m =
    elim (Option-cases (write_archive zip g.current_logs (g.current_attachments ++ f ∷ []))) [
      | inl e ↦ rw e (m, refl, inl refl)
      | inr (buf, e) ↦ elim (Bool-cases (leb (length buf) max_size)) [
        | inl t ↦
            rw (e, keep_attachment, t)
              (record { made = e; small = leb→le (length buf) max_size t }, refl, inr refl)
        | inr t ↦ rw (e, keep_attachment, t) (m, refl, inl refl)
      ]
    ]

-- A list that grew by a file or not, and then by some of the others.
grown :
    (f : ExtraFile) (fs xs ys zs picked : List ExtraFile)
    → (ys ≡ xs) ⊎ (ys ≡ xs ++ f ∷ [])
    → zs ≡ ys ++ picked
    → Picked picked fs
    → (ps : List ExtraFile) × (zs ≡ xs ++ ps) × Picked ps (f ∷ fs)
grown f fs xs ys zs picked (inl e) h p = (picked, h ∙ ap (λ l. l ++ picked) e, left p)
grown f fs xs ys zs picked (inr e) h p =
    (f ∷ picked, h ∙ ap (λ l. l ++ picked) e ∙ append_assoc xs (f ∷ []) picked, taken p)

try_logs-Made :
    (zip : Zip) (max_size : ℕ) (g : Greedy) (fs : List ExtraFile)
    → Made zip max_size g
    → Made zip max_size (try_logs zip max_size g fs)
      × ((try_logs zip max_size g fs).current_attachments ≡ g.current_attachments)
      × ((ps : List ExtraFile) × ((try_logs zip max_size g fs).current_logs ≡ g.current_logs ++ ps)
          × Picked ps fs)
unfolding try_logs
try_logs-Made zip max_size g [] m = (m, refl, ([], sym (append-nil g.current_logs), done))
try_logs-Made zip max_size g (f ∷ fs) m =
    let (m1, a1, step) = try_log-Made zip max_size g f m in
    let (m2, a2, (ps, e, p)) = try_logs-Made zip max_size (try_log zip max_size g f) fs m1 in
    (
      m2,
      a2 ∙ a1,
      grown f fs g.current_logs (try_log zip max_size g f).current_logs
          (try_logs zip max_size (try_log zip max_size g f) fs).current_logs ps step e p,
    )

try_attachments-Made :
    (zip : Zip) (max_size : ℕ) (g : Greedy) (fs : List ExtraFile)
    → Made zip max_size g
    → Made zip max_size (try_attachments zip max_size g fs)
      × ((try_attachments zip max_size g fs).current_logs ≡ g.current_logs)
      × ((ps : List ExtraFile) × ((try_attachments zip max_size g fs).current_attachments
            ≡ g.current_attachments ++ ps)
          × Picked ps fs)
unfolding try_attachments
try_attachments-Made zip max_size g [] m =
    (m, refl, ([], sym (append-nil g.current_attachments), done))
try_attachments-Made zip max_size g (f ∷ fs) m =
    let (m1, a1, step) = try_attachment-Made zip max_size g f m in
    let (m2, a2, (ps, e, p)) =
      try_attachments-Made zip max_size (try_attachment zip max_size g f) fs m1 in
    (
      m2,
      a2 ∙ a1,
      grown f fs g.current_attachments (try_attachment zip max_size g f).current_attachments
          (try_attachments zip max_size (try_attachment zip max_size g f) fs).current_attachments ps
          step e p,
    )

-- An outcome that is no archive, or an archive of the last `size` bytes of the primary log, some of
-- the secondary logs and some of the attachments, that fits.
abbrev pub Fitting : Zip → Bytes → List ExtraFile → List ExtraFile → ℕ → Outcome → Type 0
Fitting zip primary secondary attachments max_size failed = Unit
Fitting zip primary secondary attachments max_size nothing = Unit
Fitting zip primary secondary attachments max_size no_fuel = ⊥
Fitting zip primary secondary attachments max_size (archive buf) =
    (size : ℕ) × (ls : List ExtraFile) × (ats : List ExtraFile) × Picked ls secondary
    × Picked ats attachments
    × (write_archive zip (logs_from_primary (suffix size primary) [] ++ ls) ats ≡ some buf)
    × (length buf ≤ max_size)

add_extras-Fitting :
    (zip : Zip) (primary : Bytes) (size : ℕ) (secondary attachments : List ExtraFile) (max_size : ℕ)
    → ((buf : Bytes)
        → write_archive zip (logs_from_primary (suffix size primary) []) [] ≡ some buf
        → length buf ≤ max_size)
    → Fitting zip primary secondary attachments max_size (
        add_extras_greedily zip
          (logs_from_primary (suffix size primary) [])
          secondary
          attachments
          max_size)
unfolding add_extras_greedily
add_extras-Fitting zip primary size secondary attachments max_size h =
    let base = logs_from_primary (suffix size primary) [] in
    elim (Option-cases (write_archive zip (logs_from_primary (suffix size primary) []) [])) [
      | inl e ↦ rw e tt
      | inr (buf, e) ↦
          let g0 : Greedy = record {
            current_logs = base;
            current_attachments = [];
            last_good = buf;
          } in
          let (m1, a1, (ls, e1, p1)) =
            try_logs-Made zip max_size g0 secondary (record { made = e; small = h buf e }) in
          let (m2, a2, (ats, e2, p2)) =
            try_attachments-Made zip max_size (try_logs zip max_size g0 secondary) attachments m1 in
          rw e (
            size,
            ls,
            ats,
            p1,
            p2,
            ap₂ (write_archive zip) (sym (a2 ∙ e1)) (sym (e2 ∙ ap (λ l. l ++ ats) a1)) ∙ m2.made,
            m2.small,
          )
    ]

logs_from_primary-append :
    (primary : Bytes) (secondary : List ExtraFile)
    → logs_from_primary primary [] ++ secondary ≡ logs_from_primary primary secondary
unfolding logs_from_primary
logs_from_primary-append [] secondary = refl
logs_from_primary-append (b ∷ bs) secondary = refl

suffix-all : (xs : Bytes) → suffix (length xs) xs ≡ xs
suffix-all xs = let z : length xs - length xs ≡ 0 = omega arith in rw z refl

suffix-none : (xs : Bytes) → suffix 0 xs ≡ []
suffix-none xs = drop-all (length xs - 0) xs (omega arith)

-- The base that a search gave fits.
tail-small :
    (zip : Zip) (tail buf : Bytes) (max_size : ℕ)
    → ((empty : Bytes) → write_archive zip [] [] ≡ some empty → length empty ≤ max_size)
    → fits max_size (write_archive zip (record { name = log_archive_name; content = tail } ∷ []) [])
      ≡ true
    → write_archive zip (logs_from_primary tail []) [] ≡ some buf
    → length buf ≤ max_size
unfolding fits logs_from_primary
tail-small zip [] buf max_size h t e = h buf e
tail-small zip (b ∷ bs) buf max_size h t e =
    leb→le (length buf) max_size (subst (λ o. fits max_size o ≡ true) e t)

fit_tail-Fitting :
    (zip : Zip) (primary : Bytes) (secondary attachments : List ExtraFile) (max_size : ℕ)
    → ((empty : Bytes) → write_archive zip [] [] ≡ some empty → length empty ≤ max_size)
    → Fitting zip primary secondary attachments max_size (
        fit_tail zip primary secondary attachments max_size
          (search_max_log_tail zip primary max_size))
unfolding tail_fits logs_from_primary
fit_tail-Fitting zip primary secondary attachments max_size h =
    let (r, e, f) = search_max_log_tail-fits zip primary max_size in
    rw e (
      add_extras-Fitting zip primary r secondary attachments max_size (λ buf g. elim f [
        | inl z ↦ h buf (
            subst (λ (l : Bytes). write_archive zip (logs_from_primary l []) [] ≡ some buf)
              (ap (λ k. suffix k primary) z ∙ suffix-none primary) g)
        | inr (k, p, q, t, z) ↦
            tail-small zip (suffix (tail_bytes (length primary) k) primary) buf max_size h t (
              subst
                (λ (i : ℕ).
                  write_archive zip (logs_from_primary (suffix i primary) []) [] ≡ some buf)
                z g)
      ]))

everything-Fitting :
    (zip : Zip) (primary buf : Bytes) (secondary attachments : List ExtraFile) (max_size : ℕ)
    → write_archive zip (logs_from_primary primary secondary) attachments ≡ some buf
    → leb (length buf) max_size ≡ true
    → Fitting zip primary secondary attachments max_size (archive buf)
everything-Fitting zip primary buf secondary attachments max_size e t = (
  length primary,
  secondary,
  attachments,
  Picked-all secondary,
  Picked-all attachments,
  ap (λ l. write_archive zip (logs_from_primary l [] ++ secondary) attachments) (suffix-all primary)
      ∙ ap (λ l. write_archive zip l attachments) (logs_from_primary-append primary secondary)
      ∙ e,
  leb→le (length buf) max_size t,
)

same_small :
    (zip : Zip) (primary buf buf2 : Bytes) (max_size : ℕ)
    → write_archive zip (logs_from_primary primary []) [] ≡ some buf
    → length buf ≤ max_size
    → write_archive zip (logs_from_primary (suffix (length primary) primary) []) [] ≡ some buf2
    → length buf2 ≤ max_size
same_small zip primary buf buf2 max_size e le g =
    let o : some buf2 ≡ some buf =
      sym g ∙ ap (λ l. write_archive zip (logs_from_primary l []) []) (suffix-all primary) ∙ e in
    let same : buf2 ≡ buf = cc in rw same le

primary-Fitting :
    (zip : Zip) (primary : Bytes) (secondary attachments : List ExtraFile) (max_size : ℕ)
    → ((empty : Bytes) → write_archive zip [] [] ≡ some empty → length empty ≤ max_size)
    → Fitting zip primary secondary attachments max_size (
        fit_primary zip primary secondary attachments max_size
          (write_archive zip (logs_from_primary primary []) []))
primary-Fitting zip primary secondary attachments max_size h =
    elim (Option-cases (write_archive zip (logs_from_primary primary []) [])) [
      | inl e ↦ rw e tt
      | inr (buf, e) ↦ elim (Bool-cases (leb (length buf) max_size)) [
        | inl t ↦
            let le = leb→le (length buf) max_size t in
            rw (e, fit_primary, t)
              (subst
                (λ (l : Bytes).
                  Fitting zip primary secondary attachments max_size (
                    add_extras_greedily zip (logs_from_primary l []) secondary attachments
                      max_size))
                (suffix-all primary)
                (add_extras-Fitting zip primary (length primary) secondary attachments max_size
                  (λ buf2 g. same_small zip primary buf buf2 max_size e le g)))
        | inr t ↦
            rw (e, fit_primary, t) (fit_tail-Fitting zip primary secondary attachments max_size h)
      ]
    ]

fit_all-Fitting :
    (zip : Zip) (primary buf : Bytes) (secondary attachments : List ExtraFile) (max_size : ℕ)
    → ((empty : Bytes) → write_archive zip [] [] ≡ some empty → length empty ≤ max_size)
    → leb (length buf) max_size ≡ false
    → Fitting zip primary secondary attachments max_size
        (fit_all zip primary secondary attachments max_size (some buf))
unfolding logs_from_primary
fit_all-Fitting zip [] buf secondary attachments max_size h t =
    rw t (add_extras-Fitting zip [] 0 secondary attachments max_size h)
fit_all-Fitting zip (b ∷ bs) buf secondary attachments max_size h t =
    rw t (primary-Fitting zip (b ∷ bs) secondary attachments max_size h)

-- Where the archive of no files fits or cannot be made, fitArchive never exceeds maxSize, and an
-- archive that it returns was made of the end of the primary log, some of the secondary logs and
-- some of the attachments, in order; its search for that end does not run out of fuel.
pub fit_archive-Fitting :
    (zip : Zip) (primary : Bytes) (secondary attachments : List ExtraFile) (max_size : ℕ)
    → ((empty : Bytes) → write_archive zip [] [] ≡ some empty → length empty ≤ max_size)
    → Fitting zip primary secondary attachments max_size
        (fit_archive zip primary secondary attachments max_size)
unfolding fit_archive
fit_archive-Fitting zip primary secondary attachments max_size h =
    elim (Bool-cases (no_files (logs_from_primary primary secondary) && no_files attachments)) [
      | inl t ↦ rw t tt
      | inr t ↦
          rw t
            (elim (Option-cases
              (write_archive zip (logs_from_primary primary secondary) attachments)) [
                | inl e ↦ rw e tt
                | inr (buf, e) ↦ elim (Bool-cases (leb (length buf) max_size)) [
                  | inl small ↦
                      rw (e, fit_all, small)
                        (everything-Fitting zip primary buf secondary attachments max_size e small)
                  | inr big ↦
                      rw e (fit_all-Fitting zip primary buf secondary attachments max_size h big)
                ]
              ])
    ]
