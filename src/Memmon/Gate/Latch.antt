-- ===== src/Memmon/Gate/Latch.antt =====
-- When the gate of vpn/memmon/admissiongate.go starts and stops refusing.
use radiance.Common.{
  ℕ, ◌≡◌, refl, Bool, true, false, not, ◌&&◌, ◌||◌, arith, List, [], ◌∷◌, ◌↔◌, ◌≢◌, if◌then◌else◌,
}
use radiance.Common.Int.{ℤ, leb_ℤ, ◌≤ℤ◌}
use radiance.Memmon.Float.{FloatOps}
use radiance.Memmon.Types.{PressureLevel, normal, Sample, sub_time}
use radiance.Memmon.Gate.{
  Gate, AdmissionConfig, Part, counts, latches, arms, lifts, part, interleave, new_gate, record_new,
  record_dial, latch, observe, sample_pressure_locked,
}

-- Calls, Newest first, that alternate and begin with `true`; the flag is the last call's.
abbrev pub Alternates : Bool → List Bool → Type 0
Alternates flag [] = flag ≡ false
Alternates flag (b ∷ bs) = (b ≡ flag) × Alternates (not b) bs

-- Instants, Newest first, each at least the duration after the one before it.
abbrev pub Apart : ℤ → List ℕ → Type 0
Apart d [] = Unit
Apart d (t ∷ []) = Unit
Apart d (t ∷ u ∷ ts) = (d ≤ℤ sub_time t u) × Apart d (u ∷ ts)

abbrev Newest : List ℕ → Bool → ℕ → Type 0
Newest [] have at = have ≡ false
Newest (t ∷ ts) have at = (have ≡ true) × (t ≡ at)

module _ {F : Type 0} ⦃o : FloatOps F⦄ (sampler : ℕ → Sample) where
  part-Alternates :
      (g : Gate F) (a : Part F)
      → Alternates g.rejecting g.calls
      → Alternates (part sampler g a).rejecting (part sampler g a).calls
  unfolding part
  part-Alternates g (counts now) h = ground arith
  part-Alternates g (latches now) h = ground arith
  part-Alternates g (arms level) h = h
  part-Alternates g (lifts pressure now) h = ground arith

  interleave-Alternates :
      (g : Gate F) (ps : List (Part F))
      → Alternates g.rejecting g.calls
      → let e = interleave sampler g ps in Alternates e.rejecting e.calls
  unfolding interleave
  interleave-Alternates g [] h = h
  interleave-Alternates g (a ∷ ps) h =
      interleave-Alternates (part sampler g a) ps (part-Alternates g a h)

  -- In every interleaving of the parts of RecordDial and Observe, setReject is called with true
  -- and false in turn, first with true, and the gate's flag is its last argument.
  pub interleave-calls_alternate :
      (cfg : AdmissionConfig F) (ps : List (Part F))
      → let e = interleave sampler (new_gate cfg) ps in Alternates e.rejecting e.calls
  unfolding new_gate
  interleave-calls_alternate cfg ps = interleave-Alternates (new_gate cfg) ps refl

  part-Fresh :
      (g : Gate F) (a : Part F) (ttl : ℤ)
      → g.cfg.sample_cache_ttl ≡ ttl
      → Apart ttl g.reads
      → Newest g.reads g.have_cached g.cached_at
      → let e = part sampler g a in
        (e.cfg.sample_cache_ttl ≡ ttl)
        × Apart ttl e.reads
        × Newest e.reads e.have_cached e.cached_at
  unfolding part
  part-Fresh g (counts now) ttl h k n = ground arith
  part-Fresh g (latches now) ttl h k n = fresh_latch g.reads refl
    where
      fresh_latch :
          (rs : List ℕ)
          → g.reads ≡ rs
          → let e = latch sampler g now in
            (e.cfg.sample_cache_ttl ≡ ttl)
            × Apart ttl e.reads
            × Newest e.reads e.have_cached e.cached_at
      fresh_latch [] r = ground arith
      fresh_latch (t ∷ ts) r = ground arith
  part-Fresh g (arms level) ttl h k n = (h, k, n)
  part-Fresh g (lifts pressure now) ttl h k n = ground arith

  interleave-Fresh :
      (g : Gate F) (ps : List (Part F)) (ttl : ℤ)
      → g.cfg.sample_cache_ttl ≡ ttl
      → Apart ttl g.reads
      → Newest g.reads g.have_cached g.cached_at
      → Apart ttl (interleave sampler g ps).reads
  unfolding interleave
  interleave-Fresh g [] ttl h k n = k
  interleave-Fresh g (a ∷ ps) ttl h k n =
      let f = part-Fresh g a ttl h k n in interleave-Fresh (part sampler g a) ps ttl f.0 f.1 f.2

  -- In every interleaving, two reads of the memory sampler in a row are at least the cache's
  -- lifetime apart: a burst of dials costs one read.
  pub interleave-reads-Apart :
      (cfg : AdmissionConfig F) (ps : List (Part F))
      → Apart (new_gate cfg).cfg.sample_cache_ttl (interleave sampler (new_gate cfg) ps).reads
  unfolding new_gate
  interleave-reads-Apart cfg ps = interleave-Fresh (new_gate cfg) ps _ refl tt refl

  -- A dial leaves the gate rejecting exactly when it was, or when the gate is armed or the dial is
  -- part of a burst and the pressure read reaches the start threshold. It calls setReject at most
  -- once, with true, and only when the gate was not rejecting.
  pub record_dial-rejecting :
      (g : Gate F) (now : ℕ)
      → let e = record_dial sampler g now in
        let (burst, g1) = record_new g now in
        let pressure = (sample_pressure_locked sampler g1 now).0 in
        (e.rejecting
          ≡ (g.rejecting || ((g.armed || burst) && o.le g.cfg.start_rejecting_pressure pressure)))
        × (e.calls ≡ (if not g.rejecting && e.rejecting then true ∷ g.calls else g.calls))
  unfolding record_dial sample_pressure_locked
  record_dial-rejecting g now = ground arith

  -- A tick arms the gate exactly at Soft or Hard. It ends a rejection exactly when the pressure is
  -- below the stop threshold or the rejection has lasted its longest, and starts none.
  pub observe-rejecting :
      (g : Gate F) (level : PressureLevel) (pressure : F) (now : ℕ)
      → let e = observe g level pressure now in
        let expired = leb_ℤ g.cfg.max_reject_duration (sub_time now g.reject_since) in
        ((e.armed ≡ true) ↔ (level ≢ normal))
        × (e.rejecting
            ≡ (g.rejecting && not (o.lt pressure g.cfg.stop_rejecting_pressure || expired)))
        × (e.calls ≡ (if g.rejecting && not e.rejecting then false ∷ g.calls else g.calls))
  unfolding observe
  observe-rejecting g level pressure now = ground arith
