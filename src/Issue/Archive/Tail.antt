-- ===== src/Issue/Archive/Tail.antt =====
-- What issue/archive.go reads of logs and backups, and the whole archive.
use radiance.Common.{
  ℕ, zero, suc, ◌+◌, ◌-◌, ◌≤◌, ◌<◌, ◌≡◌, inl, inr, refl, sym, ap, ◌∙◌, arith, Bool, false, none,
  some, List, [], ◌∷◌, ◌++◌, length, drop, suffix, drop-append, drop-all, length-append,
  length-drop, if◌then◌else◌, ltb, ◌==◌, Bool-cases, append-nil, append_assoc,
}
use radiance.Issue.Archive.{
  ExtraFile, Outcome, archive, no_fuel, failed, nothing, Bytes, Zip, SourceFile, Backup,
  read_chunks, read_gzip_tail, find_most_recent_compressed_backup, build_issue_archive,
  write_archive, collect_logs, prepend_most_recent_backup, backup_of, read_extra_files,
}
use radiance.Issue.Archive.Fit.{Fitting, fit_archive-Fitting}

-- All bytes of a stream.
unfoldable pub concat : List Bytes → Bytes
concat [] = []
concat (c ∷ cs) = c ++ concat cs

drop-drop : (m n : ℕ) (xs : Bytes) → drop m (drop n xs) ≡ drop (n + m) xs
drop-drop m zero xs = let e : m ≡ 0 + m = omega arith in ap (λ k. drop k xs) e
drop-drop m (suc n) [] = drop-all m [] (omega arith) ∙ sym (drop-all (suc n + m) [] (omega arith))
drop-drop m (suc n) (x ∷ xs) =
    let e : suc (n + m) ≡ suc n + m = omega arith in drop-drop m n xs ∙ ap (λ k. drop k (x ∷ xs)) e

-- To cut a history and then more is to cut at once.
suffix-suffix-append : (n : ℕ) (xs ys : Bytes) → suffix n (suffix n xs ++ ys) ≡ suffix n (xs ++ ys)
suffix-suffix-append n xs ys =
    let k = length xs - n in
    let e : suffix n xs ++ ys ≡ drop (length xs - n) (xs ++ ys) =
      sym (drop-append (length xs - n) xs ys (omega arith)) in
    let whole : length xs - n + (length (drop (length xs - n) (xs ++ ys)) - n)
        ≡ length (xs ++ ys) - n =
      omega (arith, length-drop (length xs - n) (xs ++ ys), length-append xs ys) in
    rw e (
      drop-drop (length (drop (length xs - n) (xs ++ ys)) - n) (length xs - n) (xs ++ ys)
      ∙ ap (λ j. drop j (xs ++ ys)) whole)

-- The cut that the loop makes when the tail is too long is the suffix in any case.
cut-suffix :
    (n : ℕ) (xs : Bytes) → (if ltb n (length xs) then drop (length xs - n) xs else xs) ≡ suffix n xs
cut-suffix n xs = elim (Bool-cases (ltb n (length xs))) [
  | inl t ↦ rw t refl
  | inr t ↦ let z : length xs - n ≡ 0 = ground arith in rw (t, z) refl
]

read_chunks-suffix :
    (n : ℕ) (past : Bytes) (chunks : List Bytes) (ends_well : Bool)
    → read_chunks n (suffix n past) chunks ends_well
      ≡ (if ends_well then some (suffix n (past ++ concat chunks)) else none)
unfolding read_chunks concat
read_chunks-suffix n past [] ends_well = rw (append-nil past) refl
read_chunks-suffix n past (c ∷ cs) ends_well =
    ap (λ t. read_chunks n t cs ends_well)
      (cut-suffix n (suffix n past ++ c) ∙ suffix-suffix-append n past c)
    ∙ read_chunks-suffix n (past ++ c) cs ends_well
    ∙ ap (λ l. if ends_well then some (suffix n l) else none) (append_assoc past c (concat cs))

-- Whatever chunks a backup decompresses to, and for any bound but 0, readGzipTail gives the last
-- bytes of the whole stream, at most the bound, and nothing where the stream ends badly.
pub read_gzip_tail-suffix :
    (max_read : ℕ) (chunks : List Bytes) (ends_well : Bool)
    → 0 < max_read
    → read_gzip_tail max_read chunks ends_well
      ≡ (if ends_well then some (suffix max_read (concat chunks)) else none)
unfolding read_gzip_tail
read_gzip_tail-suffix max_read chunks ends_well h =
    let e : (max_read == 0) ≡ false = ground arith in
    rw e (
      ap (λ t. read_chunks max_read t chunks ends_well)
        (sym (drop-all (0 - max_read) [] (omega arith)))
      ∙ read_chunks-suffix max_read [] chunks ends_well)

-- No archive, or one that is not too large.
abbrev pub Small : ℕ → Outcome → Type 0
Small max_size (archive buf) = length buf ≤ max_size
Small max_size no_fuel = ⊥
Small max_size _ = Unit

Fitting-Small :
    (zip : Zip) (primary : Bytes) (secondary attachments : List ExtraFile) (max_size : ℕ)
    (o : Outcome)
    → Fitting zip primary secondary attachments max_size o
    → Small max_size o
Fitting-Small zip primary secondary attachments max_size failed f = tt
Fitting-Small zip primary secondary attachments max_size nothing f = tt
Fitting-Small zip primary secondary attachments max_size no_fuel f = f
Fitting-Small zip primary secondary attachments max_size (archive buf) (s, ls, ats, p, q, e, le) =
    le

-- Whatever the log directory, the other files and the backups hold, and if the archive of no files
-- fits or cannot be made, the archive that buildIssueArchive returns is no larger than maxSize.
pub build_issue_archive-le :
    (zip : Zip) (log_files additional_files : List SourceFile) (backups : List Backup)
    (max_size : ℕ)
    → ((empty : Bytes) → write_archive zip [] [] ≡ some empty → length empty ≤ max_size)
    → Small max_size (build_issue_archive zip log_files additional_files backups max_size)
unfolding build_issue_archive
build_issue_archive-le zip log_files additional_files backups max_size h =
    let logs = collect_logs max_size log_files ([], []) in
    let primary =
      prepend_most_recent_backup (backup_of (find_most_recent_compressed_backup backups))
        (collect_logs max_size log_files ([], [])).0 max_size in
    Fitting-Small zip primary logs.1 (read_extra_files additional_files) max_size
      (build_issue_archive zip log_files additional_files backups max_size)
      (fit_archive-Fitting zip primary logs.1 (read_extra_files additional_files) max_size h)
