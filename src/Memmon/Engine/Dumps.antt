-- ===== src/Memmon/Engine/Dumps.antt =====
-- One crash dump for each pressure episode: shouldDump of vpn/memmon/decision_engine.go.
use radiance.Common.{
  ℕ, ◌+◌, ◌≤◌, ◌≡◌, Bool, true, false, arith, List, [], ◌∷◌, ◌≢◌, ◌↔◌, none, some, All,
  if◌then◌else◌,
}
use radiance.Memmon.Float.{FloatOps}
use radiance.Memmon.Types.{normal, hard, Sample, Decision}
use radiance.Memmon.Engine.{Engine, decide, run, bounded_append, ring_len}
use radiance.Memmon.Engine.Frame.{assess-same}

abbrev flag : Bool → ℕ
flag true = 1
flag false = 0

flag_le : (b : Bool) → flag b ≤ 1
flag_le true = omega arith
flag_le false = omega arith

-- How many decisions write a dump.
abbrev pub dumps : {F : Type 0} → List (Decision F) → ℕ
dumps [] = 0
dumps (d ∷ ds) = flag d.write_dump + dumps ds

abbrev pub InEpisode : {F : Type 0} → Decision F → Type 0
InEpisode d = d.level ≢ normal

module _ {F : Type 0} ⦃o : FloatOps F⦄ where
  -- A tick dumps exactly when it decides Hard and the episode has no dump yet. It then carries
  -- the rings of samples (its own sample among them) and of level changes as the tick leaves
  -- them, and otherwise no snapshot.
  pub decide-dump :
      (c : Engine F) (s : Sample)
      → let r = decide c s in
        ((r.1.write_dump ≡ true) ↔ ((r.1.level ≡ hard) × (c.dumped_this_episode ≡ false)))
        × (r.1.snapshot ≡ (
            if r.1.write_dump
            then some (record { samples = bounded_append c.ring s ring_len; levels = r.0.levels })
            else none))
  unfolding decide
  decide-dump c s = ground (arith, assess-same c s)

  decide-latch :
      (c : Engine F) (s : Sample)
      → (decide c s).1.level ≢ normal
      → flag (decide c s).1.write_dump + flag c.dumped_this_episode
        ≤ flag (decide c s).0.dumped_this_episode
  unfolding decide
  decide-latch c s h = ground (arith, assess-same c s)

  run-latch :
      (c : Engine F) (ss : List Sample)
      → All InEpisode (run c ss).1
      → dumps (run c ss).1 + flag c.dumped_this_episode ≤ flag (run c ss).0.dumped_this_episode
  unfolding run
  run-latch c [] h = omega arith
  run-latch c (s ∷ ss) h = omega (arith, decide-latch c s h.0, run-latch (decide c s).0 ss h.1)

  -- A stream of ticks none of which decides Normal writes at most one dump, and none at all
  -- when the episode has had its dump already.
  pub run-dumps_le :
      (c : Engine F) (ss : List Sample)
      → All InEpisode (run c ss).1
      → dumps (run c ss).1 ≤ (if c.dumped_this_episode then 0 else 1)
  run-dumps_le c ss h = ground (
    arith,
    run-latch c ss h,
    flag_le (run c ss).0.dumped_this_episode,
    flag_le c.dumped_this_episode,
  )
