-- ===== src/Memmon/Gate/Burst.antt =====
-- The dial counter of vpn/memmon/admissiongate.go, recordNew.
use radiance.Common.{ℕ, suc, ◌+◌, ◌≡◌, refl, Bool, false, arith, List, [], ◌∷◌, length, All, leb}
use mathlib.Core.Path.{subst, sym}
use radiance.Common.Int.{pos}
use radiance.Memmon.Gate.{Gate, record_new, window_over, unix_nano}

module _ {F : Type 0} where
  -- The dials of a list, one after the other: whether the last was part of a burst, and the gate.
  abbrev pub dials : Bool × Gate F → List ℕ → Bool × Gate F
  dials r [] = r
  dials r (t ∷ ts) = dials (record_new r.1 t) ts

  -- The dial falls into the gate's window.
  abbrev pub Inside : Gate F → ℕ → Type 0
  Inside g t = window_over g (unix_nano t) ≡ false

  record_new-Inside :
      (g : Gate F) (t n : ℕ)
      → g.cfg.burst_dial_threshold ≡ pos (suc n)
      → Inside g t
      → ((record_new g t).0 ≡ leb (suc n) (g.conn_count + 1))
        × ((record_new g t).1 ≡ record g { conn_count = g.conn_count + 1 })
  unfolding record_new
  record_new-Inside g t n h k = ground (arith, k)

  -- Dials inside one window count up, and the last of them reports a burst exactly when the count
  -- has reached the threshold.
  pub dials-burst :
      (ts : List ℕ) (t : ℕ) (g : Gate F) (n : ℕ)
      → g.cfg.burst_dial_threshold ≡ pos (suc n)
      → All (Inside g) (t ∷ ts)
      → let e = dials (false, g) (t ∷ ts) in
        (e.1.conn_count ≡ g.conn_count + length (t ∷ ts)) × (e.0 ≡ leb (suc n) e.1.conn_count)
  unfolding window_over
  dials-burst [] t g n h k = let r = record_new-Inside g t n h k.0 in rw r.1 (refl, r.0)
  dials-burst (u ∷ ts) t g n h k =
      let r = record_new-Inside g t n h k.0 in
      let g' : Gate F = record g { conn_count = g.conn_count + 1 } in
      let rest = dials-burst ts u g' n h k.1 in
      subst
        (λ (x : Gate F).
          ((dials (false, x) (u ∷ ts)).1.conn_count ≡ g.conn_count + length (t ∷ u ∷ ts))
          × ((dials (false, x) (u ∷ ts)).0 ≡ leb (suc n) (dials (false, x) (u ∷ ts)).1.conn_count))
        (sym r.1) (omega (arith, rest.0), rest.1)
