-- ===== src/Issue/Archive.antt =====
-- issue/archive.go. The zip writer is an argument: the bytes that it makes of named entries, or
-- none when it fails. What the file system and gzip give is an argument of the operation that reads
-- it: a file's bytes, or the chunks of a decompressed stream and whether it ends well.
pub mod Search
pub mod Fit
pub mod Tail
use radiance.Common.{
  ℕ, zero, suc, ◌+◌, ◌-◌, ◌*◌, ◌/◌, Bool, true, false, not, ◌&&◌, Option, none, some, List, [], ◌∷◌,
  ◌++◌, if◌then◌else◌, ltb, leb, ◌==◌, length, drop, take, map, String, suffix,
}
use text.Mathlib.Text.{◌==◌ as str_eq}

abbrev pub Bytes : Type 0
Bytes = List ℕ

abbrev pub max_log_read_factor : ℕ
max_log_read_factor = 20

abbrev pub chunk_size : ℕ
chunk_size = 256 * 1024

abbrev pub log_archive_name : String
log_archive_name = "lantern.log"

pub record ExtraFile : Type 0 where
  pub name : String
  pub content : Bytes

abbrev pub is_empty : Bytes → Bool
is_empty [] = true
is_empty (x ∷ xs) = false

-- An entry of the archive: whether it is under attachments/, its name and its bytes.
pub record Entry : Type 0 where
  pub attached : Bool
  pub file : ExtraFile

abbrev pub Zip : Type 0
Zip = List Entry → Option Bytes

unfoldable pub write_archive : Zip → List ExtraFile → List ExtraFile → Option Bytes
write_archive zip logs attachments = zip (
    map (λ f. record { attached = false; file = f }) logs
    ++ map (λ f. record { attached = true; file = f }) attachments)

unfoldable pub logs_from_primary : Bytes → List ExtraFile → List ExtraFile
logs_from_primary primary secondary =
    if is_empty primary
    then secondary
    else record { name = log_archive_name; content = primary } ∷ secondary

-- Whether an archive was made and fits.
unfoldable pub fits : ℕ → Option Bytes → Bool
fits max_size none = false
fits max_size (some buf) = leb (length buf) max_size

-- The bytes of so many chunks, at most all of them.
unfoldable pub tail_bytes : ℕ → ℕ → ℕ
tail_bytes n chunks = if ltb n (chunks * chunk_size) then n else chunks * chunk_size

unfoldable pub tail_fits : Zip → Bytes → ℕ → ℕ → Bool
tail_fits zip log max_size chunks =
    let tail = drop (length log - tail_bytes (length log) chunks) log in
    fits max_size (write_archive zip (record { name = log_archive_name; content = tail } ∷ []) [])

-- The loop of searchMaxLogTail over any test; none when the fuel runs out.
unfoldable pub search_loop : ℕ → (ℕ → Bool) → ℕ → ℕ → ℕ → ℕ → Option ℕ
search_loop zero ok n lo hi best = none
search_loop (suc fuel) ok n lo hi best =
    let mid = lo + (hi - lo) / 2 in
    let lower = search_loop fuel ok n lo (mid - 1) best in
    let upper = search_loop fuel ok n (mid + 1) hi (tail_bytes n mid) in
    if not (leb lo hi) then some best else if ok mid then upper else lower

abbrev pub chunk_count : ℕ → ℕ
chunk_count n = (n + chunk_size - 1) / chunk_size

-- The fuel is above the number of chunks.
unfoldable pub search_max_log_tail : Zip → Bytes → ℕ → Option ℕ
search_max_log_tail zip log max_size =
    let n = length log in
    search_loop (chunk_count n + 2) (tail_fits zip log max_size) n 1 (chunk_count n) 0

-- What addExtrasGreedily keeps as it goes.
pub record Greedy : Type 0 where
  pub current_logs : List ExtraFile
  pub current_attachments : List ExtraFile
  pub last_good : Bytes

abbrev pub keep_log : ℕ → Greedy → ExtraFile → Option Bytes → Greedy
keep_log max_size g f none = g
keep_log max_size g f (some buf) =
    if leb (length buf) max_size
    then record g { current_logs = g.current_logs ++ f ∷ []; last_good = buf }
    else g

abbrev pub keep_attachment : ℕ → Greedy → ExtraFile → Option Bytes → Greedy
keep_attachment max_size g f none = g
keep_attachment max_size g f (some buf) =
    if leb (length buf) max_size
    then record g { current_attachments = g.current_attachments ++ f ∷ []; last_good = buf }
    else g

unfoldable pub try_log : Zip → ℕ → Greedy → ExtraFile → Greedy
try_log zip max_size g f =
    keep_log max_size g f (write_archive zip (g.current_logs ++ f ∷ []) g.current_attachments)

unfoldable pub try_attachment : Zip → ℕ → Greedy → ExtraFile → Greedy
try_attachment zip max_size g f =
    keep_attachment max_size g f
      (write_archive zip g.current_logs (g.current_attachments ++ f ∷ []))

unfoldable pub try_logs : Zip → ℕ → Greedy → List ExtraFile → Greedy
try_logs zip max_size g [] = g
try_logs zip max_size g (f ∷ fs) = try_logs zip max_size (try_log zip max_size g f) fs

unfoldable pub try_attachments : Zip → ℕ → Greedy → List ExtraFile → Greedy
try_attachments zip max_size g [] = g
try_attachments zip max_size g (f ∷ fs) =
    try_attachments zip max_size (try_attachment zip max_size g f) fs

-- What a call returns: an error, no archive at all, or one; or a search without enough fuel.
pub data Outcome : Type 0 where
  failed nothing no_fuel : Outcome
  archive : Bytes → Outcome

abbrev pub greedy_from :
    Zip → List ExtraFile → List ExtraFile → List ExtraFile → ℕ → Option Bytes → Outcome
greedy_from zip base secondary attachments max_size none = failed
greedy_from zip base secondary attachments max_size (some buf) =
    let g0 : Greedy = record { current_logs = base; current_attachments = []; last_good = buf } in
    archive
      (try_attachments zip max_size (try_logs zip max_size g0 secondary) attachments).last_good

unfoldable pub add_extras_greedily :
    Zip → List ExtraFile → List ExtraFile → List ExtraFile → ℕ → Outcome
add_extras_greedily zip base secondary attachments max_size =
    greedy_from zip base secondary attachments max_size (write_archive zip base [])

-- fitArchive after the search for a tail.
abbrev pub fit_tail : Zip → Bytes → List ExtraFile → List ExtraFile → ℕ → Option ℕ → Outcome
fit_tail zip primary secondary attachments max_size none = no_fuel
fit_tail zip primary secondary attachments max_size (some size) =
    add_extras_greedily zip (logs_from_primary (drop (length primary - size) primary) []) secondary
      attachments max_size

-- fitArchive when not everything fits and there is a primary log, by the archive of that alone.
abbrev pub fit_primary : Zip → Bytes → List ExtraFile → List ExtraFile → ℕ → Option Bytes → Outcome
fit_primary zip primary secondary attachments max_size none = failed
fit_primary zip primary secondary attachments max_size (some buf) =
    if leb (length buf) max_size
    then add_extras_greedily zip (logs_from_primary primary []) secondary attachments max_size
    else fit_tail zip primary secondary attachments max_size
        (search_max_log_tail zip primary max_size)

-- fitArchive by the archive of everything.
abbrev pub fit_all : Zip → Bytes → List ExtraFile → List ExtraFile → ℕ → Option Bytes → Outcome
fit_all zip primary secondary attachments max_size none = failed
fit_all zip primary secondary attachments max_size (some buf) =
    if leb (length buf) max_size
    then archive buf
    else if is_empty primary
    then add_extras_greedily zip [] secondary attachments max_size
    else fit_primary zip primary secondary attachments max_size
        (write_archive zip (logs_from_primary primary []) [])

abbrev pub no_files : List ExtraFile → Bool
no_files [] = true
no_files (f ∷ fs) = false

unfoldable pub fit_archive : Zip → Bytes → List ExtraFile → List ExtraFile → ℕ → Outcome
fit_archive zip primary secondary attachments max_size =
    let all_logs = logs_from_primary primary secondary in
    if no_files all_logs && no_files attachments
    then nothing
    else fit_all zip primary secondary attachments max_size (write_archive zip all_logs attachments)

-- The loop of readGzipTail over the chunks that are read; a read error gives none.
unfoldable pub read_chunks : ℕ → Bytes → List Bytes → Bool → Option Bytes
read_chunks max_read tail [] ends_well = if ends_well then some tail else none
read_chunks max_read tail (chunk ∷ chunks) ends_well =
    read_chunks max_read
      (if ltb max_read (length (tail ++ chunk))
        then drop (length (tail ++ chunk) - max_read) (tail ++ chunk)
        else tail ++ chunk)
      chunks ends_well

unfoldable pub read_gzip_tail : ℕ → List Bytes → Bool → Option Bytes
read_gzip_tail max_read chunks ends_well =
    if max_read == 0 then some [] else read_chunks max_read [] chunks ends_well

-- snapshotLogFile of a file that can be read whole.
unfoldable pub snapshot_log_file : ℕ → Bytes → Bytes
snapshot_log_file max_compressed content =
    let size = length content in
    let max_read = max_compressed * max_log_read_factor in
    let read_size = if ltb max_read size then max_read else size in
    if ltb read_size size then drop (size - read_size) content else content

-- Whether the last byte of a log is a line's end.
abbrev pub ends_line : Bytes → Bool
ends_line [] = false
ends_line (b ∷ []) = b == 10
ends_line (b ∷ c ∷ bs) = ends_line (c ∷ bs)

abbrev pub prepend : Option Bytes → Bytes → Bytes
prepend none current = current
prepend (some []) current = current
prepend (some (b ∷ bs)) current =
    (if ends_line (b ∷ bs) then b ∷ bs else (b ∷ bs) ++ 10 ∷ []) ++ current

-- prependMostRecentBackup; the backup's chunks, if one was found, and whether they end well.
unfoldable pub prepend_most_recent_backup : Option (List Bytes × Bool) → Bytes → ℕ → Bytes
prepend_most_recent_backup none current max_size = current
prepend_most_recent_backup (some (chunks, ends_well)) current max_size =
    let remaining = max_size * max_log_read_factor - length current in
    if remaining == 0 then current else prepend (read_gzip_tail remaining chunks ends_well) current

-- A rotated backup: its timestamp, when its name has one, and what reading it gives.
pub record Backup : Type 0 where
  pub timestamp : Option ℕ
  pub chunks : List Bytes
  pub ends_well : Bool

-- The loop of findMostRecentCompressedBackup: the newest so far, and its timestamp.
unfoldable pub newest : List Backup → ℕ → Option Backup → Option Backup
newest [] latest found = found
newest (b ∷ bs) latest found = elim b.timestamp [
  | none ↦ newest bs latest found
  | some t ↦ newest bs (if ltb latest t then t else latest) (if ltb latest t then some b else found)
]

unfoldable pub find_most_recent_compressed_backup : List Backup → Option Backup
find_most_recent_compressed_backup bs = newest bs 0 none

-- A file by its base name, and its bytes if it can be read.
pub record SourceFile : Type 0 where
  pub name : String
  pub content : Option Bytes

unfoldable pub read_extra_files : List SourceFile → List ExtraFile
read_extra_files [] = []
read_extra_files (f ∷ fs) =
    let rest = read_extra_files fs in
    elim f.content [ none ↦ rest | some c ↦ record { name = f.name; content = c } ∷ rest ]

-- What buildIssueArchive has collected: the primary log and the others.
abbrev pub add_log : String → Bytes → Bytes × List ExtraFile → Bytes × List ExtraFile
add_log name [] (primary, secondary) = (primary, secondary)
add_log name (b ∷ bs) (primary, secondary) =
    if str_eq name log_archive_name
    then (b ∷ bs, secondary)
    else (primary, secondary ++ record { name = name; content = b ∷ bs } ∷ [])

unfoldable pub collect_logs : ℕ → List SourceFile → Bytes × List ExtraFile → Bytes × List ExtraFile
collect_logs max_size [] acc = acc
collect_logs max_size (f ∷ fs) acc = elim f.content [
  | none ↦ collect_logs max_size fs acc
  | some c ↦ collect_logs max_size fs (add_log f.name (snapshot_log_file max_size c) acc)
]

abbrev pub backup_of : Option Backup → Option (List Bytes × Bool)
backup_of none = none
backup_of (some b) = some (b.chunks, b.ends_well)

unfoldable pub build_issue_archive :
    Zip → List SourceFile → List SourceFile → List Backup → ℕ → Outcome
build_issue_archive zip log_files additional_files backups max_size =
    let (primary, secondary) = collect_logs max_size log_files ([], []) in
    fit_archive zip
      (prepend_most_recent_backup (backup_of (find_most_recent_compressed_backup backups)) primary
        max_size)
      secondary (read_extra_files additional_files) max_size
