-- ===== src/Memmon/Engine/Reclaim.antt =====
-- When Decide of vpn/memmon/decision_engine.go evicts, and when it closes every connection.
use radiance.Common.{
  ℕ, ◌+◌, ◌≤◌, ◌<◌, ◌≡◌, true, false, arith, List, [], ◌∷◌, ◌≢◌, if◌then◌else◌, ltb, ◌⊎◌,
}
use radiance.Memmon.Float.{FloatOps}
use radiance.Memmon.Types.{soft, hard, Sample, Decision}
use radiance.Memmon.Engine.{Engine, decide, settle_window, hard_cooldown, push_ring, update_slope}
use radiance.Memmon.Engine.Frame.{assess-same}

module _ {F : Type 0} ⦃o : FloatOps F⦄ where
  reclaim_facts :
      (c : Engine F) (s : Sample)
      → let r = decide c s in
        (r.1.evict_oldest_batch ≡ true
          → (r.1.level ≡ soft)
            × (r.1.close_all_connections ≡ false)
            × (c.settle_until ≤ s.timestamp)
            × (r.0.settle_until ≡ s.timestamp + settle_window))
        × (r.1.close_all_connections ≡ true
            → (r.1.level ≡ hard)
              × (r.1.evict_oldest_batch ≡ false)
              × (r.0.settle_until ≡ s.timestamp + settle_window))
        × (r.1.evict_oldest_batch ≡ false
            → r.1.close_all_connections ≡ false
            → r.0.settle_until ≡ c.settle_until)
  unfolding decide push_ring update_slope
  reclaim_facts c s = ground (arith, assess-same c s)

  -- A tick evicts only in Soft and closes everything only in Hard, so never both. Each of the two
  -- opens a settle window at the tick's time, and otherwise the window stays as it was.
  pub decide-reclaim :
      (c : Engine F) (s : Sample)
      → let r = decide c s in
        ((r.1.evict_oldest_batch ≡ true)
          × (r.1.close_all_connections ≡ false)
          × (r.1.level ≡ soft)
          × (c.settle_until ≤ s.timestamp)
          × (r.0.settle_until ≡ s.timestamp + settle_window))
        ⊎ ((r.1.evict_oldest_batch ≡ false)
            × (r.1.close_all_connections ≡ true)
            × (r.1.level ≡ hard)
            × (r.0.settle_until ≡ s.timestamp + settle_window))
        ⊎ ((r.1.evict_oldest_batch ≡ false)
            × (r.1.close_all_connections ≡ false)
            × (r.0.settle_until ≡ c.settle_until))
  decide-reclaim c s = ground (arith, reclaim_facts c s)

  -- Every entry to Hard closes all connections, even within the cooldown of the last time.
  pub decide-entry_fires :
      (c : Engine F) (s : Sample)
      → c.level ≢ hard
      → (decide c s).1.level ≡ hard
      → ((decide c s).1.close_all_connections ≡ true)
        × ((decide c s).0.last_hard_fire ≡ s.timestamp)
  unfolding decide
  decide-entry_fires c s h k = ground (arith, assess-same c s)

  -- A Hard tick after a Hard tick closes all connections exactly when the cooldown has passed.
  pub decide-hold_fires :
      (c : Engine F) (s : Sample)
      → c.level ≡ hard
      → c.have_hard_fire ≡ true
      → (decide c s).1.level ≡ hard
      → (decide c s).1.close_all_connections
        ≡ (if ltb s.timestamp (c.last_hard_fire + hard_cooldown) then false else true)
  unfolding decide
  decide-hold_fires c s h f k = ground (arith, assess-same c s)

  -- After a tick that reclaimed, softly or hard, no tick within the settle window evicts.
  pub decide-settle_pauses :
      (c : Engine F) (s t : Sample)
      → ((decide c s).1.evict_oldest_batch ≡ true) ⊎ ((decide c s).1.close_all_connections ≡ true)
      → t.timestamp < s.timestamp + settle_window
      → (decide (decide c s).0 t).1.evict_oldest_batch ≡ false
  decide-settle_pauses c s t h before =
      ground (arith, reclaim_facts c s, reclaim_facts (decide c s).0 t)

module _ {F : Type 0} where
  -- The times of the decisions that close all connections.
  abbrev pub fires : List Sample → List (Decision F) → List ℕ
  fires [] ds = []
  fires (s ∷ ss) [] = []
  fires (s ∷ ss) (d ∷ ds) =
      if d.close_all_connections then s.timestamp ∷ fires ss ds else fires ss ds

-- Each time is at least `gap` after the one before it, the first after `last`.
abbrev pub Spaced : ℕ → ℕ → List ℕ → Type 0
Spaced gap last [] = Unit
Spaced gap last (t ∷ ts) = (last + gap ≤ t) × Spaced gap t ts

abbrev pub InHard : {F : Type 0} → Decision F → Type 0
InHard d = d.level ≡ hard
