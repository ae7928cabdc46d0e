-- ===== src/Config/Tests.antt =====
-- Runs of the model of package config, and examples.
use radiance.Common.{
  arith, ◌*◌, ◌%◌, ◌/◌, ◌==◌, if◌then◌else◌, ℕ, ◌≡◌, true, false, none, some, List, [], ◌∷◌,
}
use radiance.Config.File.{Texts, Disk, text, load, load-again, Loads, all_written}
use radiance.Config.Handler.{
  Config, Platform, Handler, readable, Answers, wire_guard, other, do_fetch_config,
}
use radiance.Config.Handler.Single.{Action, calls, ends, run, idle, step, all_followed, run-settles}
use radiance.Config.Handler.Keys.{BothKeyed, Stays, fetch_each, fetch_each-BothKeyed}
use radiance.Config.Handler.Failures.{Leaves, do_fetch_config-Leaves}

-- Two calls during a fetch, and one after it.
abbrev busy : List Action
busy =
    calls false false
    ∷ calls false false
    ∷ calls false false
    ∷ ends
    ∷ calls false false
    ∷ calls true false
    ∷ []

run-settles_example :
    let r = step (step (run idle busy) ends) ends in
    (r.state.fetching ≡ false) × (all_followed r.marks ≡ true)
run-settles_example = run-settles busy

abbrev phone : Platform ℕ ℕ ℕ
phone = record { trim = λ tag. tag; system = false; water_path = "water"; same = λ a b. false }

abbrev first_run : Handler ℕ ℕ ℕ ℕ
first_run = record {
  wg_key = none;
  raw_file = none;
  config = none;
  config_file = none;
  emitted = [];
}

abbrev response : Config ℕ ℕ ℕ
response = record {
  outbounds = ("out", other 1) ∷ [];
  endpoints = ("wg", wire_guard (record { private_key = 0; system = true; rest = 2 })) ∷ [];
  locations = ("out", some 3) ∷ [];
}

abbrev all_well : Answers ℕ ℕ ℕ ℕ
all_well = record {
  key_read = readable;
  generated = some 42;
  writes_key = true;
  fetched = some (some 9);
  writes_raw = true;
  parsed = some response;
  writes_config = true;
  closed_by_then = false;
}

abbrev no_answer : Answers ℕ ℕ ℕ ℕ
no_answer = record all_well { fetched = none }

fetch_each-BothKeyed_example :
    BothKeyed phone (fetch_each phone first_run (no_answer ∷ all_well ∷ all_well ∷ []))
    × Stays none (fetch_each phone first_run (no_answer ∷ all_well ∷ all_well ∷ [])).wg_key
fetch_each-BothKeyed_example =
    fetch_each-BothKeyed phone first_run (no_answer ∷ all_well ∷ all_well ∷ []) (tt, tt)

do_fetch_config-Leaves_example :
    Leaves phone all_well first_run
      (do_fetch_config phone first_run all_well).0
      (do_fetch_config phone first_run all_well).1
do_fetch_config-Leaves_example = do_fetch_config-Leaves phone first_run all_well

-- A text is a number: an even one decodes to itself, and 1 is the old layout of 10.
abbrev numbers : Texts ℕ ℕ
numbers = record {
  encode = λ n. some (n * 2);
  decode = λ t. if t % 2 == 0 then some (some (t / 2)) else none;
  decode_old = λ t. if t == 1 then some 10 else none;
}

numbers-reads_back : (n t : ℕ) → numbers.encode n ≡ some t → numbers.decode t ≡ some (some n)
numbers-reads_back n t e = let same : n * 2 ≡ t = ground arith in ground arith

load-again_example :
    let d : Disk ℕ = record { file = text 1; invalid_copy = none } in
    let (d1, r) = load numbers d (all_written numbers) in
    Loads numbers d (text 1) d1 r
    × (load numbers d1 (record { migrated = false; copy = false; removal = false }) ≡ (d1, r))
load-again_example =
    load-again numbers (record { file = text 1; invalid_copy = none })
      (record { migrated = false; copy = false; removal = false }) numbers-reads_back
