-- ===== src/Vpn/BufPool/Classes.antt =====
-- The size classes of vpn/bufpool.go.
use radiance.Common.{
  ◌⊎◌, ltb, ltb→lt, ℕ, zero, suc, ◌+◌, ◌-◌, ◌*◌, ◌/◌, ◌%◌, ◌^◌, ◌≤◌, ◌<◌, ◌≡◌, refl, arith, inl,
  inr, leb, leb→le, ==_iff, ◌≢◌, if◌then◌else◌, some, ◌==◌, Bool-cases,
}
use native.Mathlib.Decide.{dec_lt}
use native.Mathlib.Nat.{pow-suc, pow-le-pow_right}
use radiance.Vpn.BufPool.{bit_len, len32, buf_class, class_size, relay_class_for_cap}

pow2-suc : (k : ℕ) → 2 ^ suc k ≡ 2 * 2 ^ k
pow2-suc k = omega (arith, pow-suc 2 k)

pow2-pred : (k : ℕ) → 0 < k → 2 ^ k ≡ 2 * 2 ^ (k - 1)
pow2-pred zero h = elim h [ ]
pow2-pred (suc k) h = let e : suc k - 1 ≡ k = omega arith in rw e (pow2-suc k)

-- n has exactly k bits.
abbrev Bits : ℕ → ℕ → Type 0
Bits n k = (n < 2 ^ k) × (0 < n → (0 < k) × (2 ^ (k - 1) ≤ n)) × (n ≡ 0 → k ≡ 0)

Bits-double : (n r : ℕ) → 0 < n → Bits (n / 2) r → Bits n (suc r)
Bits-double n zero pos h =
    (omega (arith, h.0, pow2-suc 0), λ _. (omega arith, omega arith), λ e. omega arith)
Bits-double n (suc r) pos h = (
  omega (arith, h.0, pow2-suc (suc r)),
  λ _. (omega arith, rw sub_one (half_le (dec_lt 0 (n / 2)))),
  λ e. absurd (omega arith),
)
  where
    sub_one : suc (suc r) - 1 ≡ suc r
    sub_one = omega arith

    sub_one' : suc r - 1 ≡ r
    sub_one' = omega arith

    half_le : Dec (0 < n / 2) → 2 ^ suc r ≤ n
    half_le (yes p) = omega (arith, rw sub_one' at ((h.1 p).1), pow2-suc r)
    half_le (no p) = absurd (omega (arith, h.2 (omega arith)))

bit_len-Bits : (fuel n : ℕ) → n < 2 ^ fuel → Bits n (bit_len fuel n)
unfolding bit_len
bit_len-Bits zero n h = (h, λ p. absurd (omega arith), λ e. refl)
bit_len-Bits (suc fuel) n h = elim (Bool-cases (n == 0)) [
  | inl e ↦ rw e (ground arith, λ p. absurd (ground arith), λ _. refl)
  | inr e ↦ rw e (
      Bits-double n (bit_len fuel (n / 2)) (ground arith)
        (bit_len-Bits fuel (n / 2) (omega (arith, pow2-suc fuel))))
]

-- The bits of a size that a buffer can have.
len32-Bits : (n : ℕ) → n ≤ 65536 → Bits n (len32 n)
unfolding len32
len32-Bits n h =
    let small : n % 2 ^ 32 ≡ n = omega arith in rw small (bit_len-Bits 32 n (omega arith))

pow2_mono : (a b : ℕ) → a ≤ b → 2 ^ a ≤ 2 ^ b
pow2_mono a b h = pow-le-pow_right (omega arith) h

-- The exponent of the largest power of two up to the size.
exponent_bounds :
    (size i : ℕ) → 64 < size → size ≤ 65536 → 2 ^ i ≤ size → size < 2 ^ suc i → (6 ≤ i) × (i ≤ 16)
exponent_bounds size i lo hi le lt = (
  elim (dec_lt i 6) [
    | yes p ↦ absurd (omega (arith, pow2_mono (suc i) 6 (omega arith)))
    | no p ↦ omega arith
  ],
  elim (dec_lt 16 i) [
    | yes p ↦ absurd (omega (arith, pow2_mono 17 i (omega arith)))
    | no p ↦ omega arith
  ],
)

-- A class that stands for the power of two `2 ^ j`.
Fits : ℕ → ℕ → Type 0
Fits size idx = (size ≤ class_size idx) × (idx ≤ 10) × (0 < idx → class_size (idx - 1) < size)

Fits-power : (size j : ℕ) → 6 ≤ j → j ≤ 16 → size ≤ 2 ^ j → 2 ^ (j - 1) < size → Fits size (j - 6)
unfolding Fits class_size
Fits-power size j lo hi le lt =
    let e : j - 6 + 6 ≡ j = omega arith in
    (rw e le, omega arith, λ p. let f : j - 6 - 1 + 6 ≡ j - 1 = omega arith in rw f lt)

large-Fits :
    (size i : ℕ)
    → 64 < size
    → size ≤ 65536
    → 2 ^ i ≤ size
    → size < 2 ^ suc i
    → Fits size ((if size == 2 ^ i then i else i + 1) - 6)
large-Fits size i lo hi le lt =
    let b = exponent_bounds size i lo hi le lt in
    elim (Bool-cases (size == 2 ^ i)) [
      | inl e ↦
          let same = (==_iff size (2 ^ i)).0 e in
          rw e (Fits-power size i b.0 b.1 (omega arith) (omega (arith, pow2-pred i (omega arith))))
      | inr e ↦
          let other : size ≢ 2 ^ i = ground arith in
          let f : i + 1 ≡ suc i = omega arith in
          let g : i + 1 - 1 ≡ i = omega arith in
          rw e (
            Fits-power size (i + 1) (omega arith) (small other) (rw f (omega arith))
              (rw g (omega arith)))
    ]
  where
    small : size ≢ 2 ^ i → i + 1 ≤ 16
    small other = elim (dec_lt i 16) [
      | yes p ↦ omega arith
      | no p ↦ absurd (other (omega (arith, pow2_mono 16 i (omega arith))))
    ]

size-class :
    (size : ℕ)
    → size ≤ 65536
    → (size ≤ class_size (buf_class size))
      × (buf_class size ≤ 10)
      × (0 < buf_class size → class_size (buf_class size - 1) < size)
unfolding buf_class Fits
size-class size h = elim (Bool-cases (leb size 64)) [
  | inl e ↦ rw e (smallest (leb→le _ _ e))
  | inr e ↦ rw e (
      large-Fits size (len32 size - 1) (ground arith) h (bits.1 (ground arith)).1
        (upper (ground arith)))
]
  where
    bits : Bits size (len32 size)
    bits = len32-Bits size h

    upper : 0 < size → size < 2 ^ suc (len32 size - 1)
    upper p =
        let q = (bits.1 p).0 in
        let e : suc (len32 size - 1) ≡ len32 size = omega arith in rw e bits.0

    smallest : size ≤ 64 → Fits size 0
    smallest le = unfold class_size in (le, omega arith, λ p. absurd (omega arith))

-- The class of a size up to 64 KB holds it and is one of the eleven, and the class below it, if
-- there is one, is too small.
pub buf_class-fits :
    (size : ℕ)
    → size ≤ 65536
    → (size ≤ class_size (buf_class size))
      × (buf_class size ≤ 10)
      × ((buf_class size ≡ 0) ⊎ (class_size (buf_class size - 1) < size))
unfolding Fits
buf_class-fits size h =
    let (fits, few, tight) = size-class size h in
    (
      fits,
      few,
      elim (Bool-cases (ltb 0 (buf_class size))) [
        | inl e ↦ inr (tight (ltb→lt 0 (buf_class size) e))
        | inr e ↦ inl (ground arith)
      ],
    )

power_of_cap :
    (lo hi c idx : ℕ)
    → relay_class_for_cap lo hi c ≡ some idx
    → (c ≡ 2 ^ (len32 c - 1))
      × (64 ≤ c)
      × (c ≤ 65536)
      × (idx ≡ len32 c - 1 - 6)
      × (lo ≤ idx)
      × (idx ≤ hi)
unfolding relay_class_for_cap
power_of_cap lo hi c idx h = ground arith

-- The exponent of a power of two among the sizes.
exponent_of_power : (i : ℕ) → 64 ≤ 2 ^ i → 2 ^ i ≤ 65536 → (6 ≤ i) × (i ≤ 16)
exponent_of_power i lo hi = (
  elim (dec_lt i 6) [
    | yes p ↦ absurd (omega (arith, pow2_mono (suc i) 6 (omega arith), pow2-suc i))
    | no p ↦ omega arith
  ],
  elim (dec_lt 16 i) [
    | yes p ↦ absurd (omega (arith, pow2_mono 17 i (omega arith)))
    | no p ↦ omega arith
  ],
)

-- A capacity that Put accepts is exactly its class's size, and the class is one of the relay
-- classes and of the eleven.
pub relay_class_for_cap-exact :
    (lo hi c idx : ℕ)
    → relay_class_for_cap lo hi c ≡ some idx
    → (c ≡ class_size idx) × (lo ≤ idx) × (idx ≤ hi) × (idx ≤ 10)
unfolding class_size
relay_class_for_cap-exact lo hi c idx h =
    let f = power_of_cap lo hi c idx h in
    let b = exponent_of_power (len32 c - 1) (omega (arith, f)) (omega (arith, f)) in
    let e : idx + 6 ≡ len32 c - 1 = omega (arith, f, b) in (rw e f.0, f.4, f.5, omega (arith, f, b))
