-- ===== src/Issue/Tests.antt =====
-- Runs of the model of package issue, and examples.
use radiance.Common.{ℕ, ◌≤◌, ◌≡◌, ◌⊎◌, ◌+◌, arith, true, false, some, [], ◌∷◌, length}
use radiance.Issue.Archive.{
  Bytes, Zip, ExtraFile, write_archive, fit_archive, read_gzip_tail, search_max_log_tail, tail_fits,
  tail_bytes, chunk_count,
}
use radiance.Issue.Archive.Search.{search_max_log_tail-maximal}
use radiance.Issue.Archive.Fit.{Fitting, fit_archive-Fitting}
use radiance.Issue.Archive.Tail.{concat, read_gzip_tail-suffix}

-- An archive that stores the bytes of the first file and two bytes per file.
abbrev store : Zip
store [] = some []
store (e ∷ es) = some (1 ∷ 2 ∷ e.file.content)

abbrev primary_log : Bytes
primary_log = 10 ∷ 20 ∷ 30 ∷ []

abbrev picture : ExtraFile
picture = record { name = "picture.png"; content = 7 ∷ [] }

no_files-small : (empty : Bytes) → write_archive store [] [] ≡ some empty → length empty ≤ 4
unfolding write_archive
no_files-small empty e = ground arith

fit_archive-Fitting_example :
    Fitting store primary_log []
      (picture ∷ [])
      4
      (fit_archive store primary_log [] (picture ∷ []) 4)
fit_archive-Fitting_example =
    fit_archive-Fitting store primary_log [] (picture ∷ []) 4 no_files-small

read_gzip_tail-suffix_example :
    read_gzip_tail 3 ((1 ∷ 2 ∷ []) ∷ (3 ∷ 4 ∷ []) ∷ []) true ≡ some (2 ∷ 3 ∷ 4 ∷ [])
unfolding concat
read_gzip_tail-suffix_example =
    read_gzip_tail-suffix 3 ((1 ∷ 2 ∷ []) ∷ (3 ∷ 4 ∷ []) ∷ []) true (omega arith)

search_max_log_tail-maximal_example :
    (r : ℕ) × (search_max_log_tail store primary_log 4 ≡ some r)
    × (((r ≡ 0) × ((chunk_count 3 ≡ 0) ⊎ (tail_fits store primary_log 4 1 ≡ false)))
        ⊎ ((k : ℕ) × (1 ≤ k)
            × (k ≤ chunk_count 3)
            × (tail_fits store primary_log 4 k ≡ true)
            × (r ≡ tail_bytes 3 k)
            × ((k ≡ chunk_count 3) ⊎ (tail_fits store primary_log 4 (k + 1) ≡ false))))
search_max_log_tail-maximal_example = search_max_log_tail-maximal store primary_log 4
