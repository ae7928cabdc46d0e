-- ===== src/Memmon/Executor/Effects.antt =====
-- What Apply of vpn/memmon/executor.go does over a stream of decisions.
use radiance.Common.{
  ℕ, ◌+◌, ◌≤◌, ◌≡◌, Bool, true, false, not, ◌&&◌, arith, none, some, List, [], ◌∷◌, ◌++◌, All,
  if◌then◌else◌, map, take, length, ◌⊎◌,
}
use radiance.Memmon.Float.{FloatOps}
use radiance.Memmon.Types.{soft, hard, Decision}
use radiance.Memmon.Executor.{
  Executor, World, Effect, write_dump, close_conn, close_all_connections, free_os_memory, apply,
  batch_for, ConnectionRef,
}

-- One call of Apply: what the reclaimer answers, the decision and the time.
pub record Tick (F : Type 0) : Type 0 where
  pub world : World
  pub decision : Decision F
  pub now : ℕ

abbrev dump_count : List Effect → ℕ
dump_count (write_dump conns total ∷ es) = 1 + dump_count es
dump_count (_ ∷ es) = dump_count es
dump_count [] = 0

abbrev flag : Bool → ℕ
flag true = 1
flag false = 0

flag_le : (b : Bool) → flag b ≤ 1
flag_le true = omega arith
flag_le false = omega arith

module _ {F : Type 0} ⦃o : FloatOps F⦄ where
  -- The closes and frees of one call are those that the decision asks for, after the dump if there
  -- is one: everything and a free on a close of all, the oldest batch and a free at most on a soft
  -- eviction, and nothing otherwise.
  pub apply-obeys :
      (e : Executor F) (w : World) (d : Decision F) (now : ℕ)
      → let acts = (apply e w d now).1 in
        let dump =
          if d.write_dump && (not e.dumped && e.has_dump)
          then elim d.snapshot [
            | none ↦ []
            | some p ↦ write_dump w.open_connection_count w.total_dialed_connections ∷ []
          ]
          else [] in
        let closes =
          map
            (λ (c : ConnectionRef). close_conn c.id)
            (take
              (batch_for e.cfg (length w.connections_oldest_first))
              w.connections_oldest_first) in
        (d.close_all_connections ≡ true
          → acts ≡ dump ++ close_all_connections ∷ free_os_memory ∷ [])
        × (d.close_all_connections ≡ false
            → d.level ≡ soft
            → d.evict_oldest_batch ≡ true
            → (acts ≡ dump ++ (closes ++ [])) ⊎ (acts ≡ dump ++ (closes ++ free_os_memory ∷ [])))
        × (d.close_all_connections ≡ false → d.evict_oldest_batch ≡ false → acts ≡ dump)
  unfolding apply
  apply-obeys e w d now = ground arith

  abbrev pub apply_all : Executor F → List (Tick F) → Executor F × List (List Effect)
  apply_all e [] = (e, [])
  apply_all e (t ∷ ts) =
      let (e1, acts) = apply e t.world t.decision t.now in
      let (e2, rest) = apply_all e1 ts in (e2, acts ∷ rest)

  -- How many dumps were written: attempts that succeeded.
  abbrev pub written : List (Tick F) → List (List Effect) → ℕ
  written [] as_ = 0
  written (t ∷ ts) [] = 0
  written (t ∷ ts) (acts ∷ rest) =
      (if t.world.dump_write_ok then dump_count acts else 0) + written ts rest

  apply-written :
      (e : Executor F) (w : World) (d : Decision F) (now : ℕ)
      → d.level ≡ hard
      → (if w.dump_write_ok then dump_count (apply e w d now).1 else 0) + flag e.dumped
        ≡ flag (apply e w d now).0.dumped
  unfolding apply
  apply-written e w d now h = ground arith

  abbrev pub IsHard : Tick F → Type 0
  IsHard t = t.decision.level ≡ hard

  apply_all-written-flag :
      (e : Executor F) (ts : List (Tick F))
      → All IsHard ts
      → written ts (apply_all e ts).1 + flag e.dumped ≡ flag (apply_all e ts).0.dumped
  apply_all-written-flag e [] h = omega arith
  apply_all-written-flag e (t ∷ ts) h = omega (
    arith,
    apply-written e t.world t.decision t.now h.0,
    apply_all-written-flag (apply e t.world t.decision t.now).0 ts h.1,
  )

  -- Over decisions that all stay in Hard at most one dump is written, a failed write not counting,
  -- whatever the decisions ask for.
  pub apply_all-written_le :
      (e : Executor F) (ts : List (Tick F)) → All IsHard ts → written ts (apply_all e ts).1 ≤ 1
  apply_all-written_le e ts h =
      omega (arith, apply_all-written-flag e ts h, flag_le (apply_all e ts).0.dumped)
