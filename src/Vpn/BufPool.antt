-- ===== src/Vpn/BufPool.antt =====
-- vpn/bufpool.go. A buffer is its length and capacity; a pool is a buffered channel. `Get` and
-- `Put` are made of their atomic parts (a channel operation, one addition to retainedBytes), so
-- that Vpn.BufPool.Budget can interleave them. retainedBytes is a number: Budget shows that no
-- subtraction goes below zero; an int64 holds it while the budget and the reservations in flight
-- stay below 2^63. Sizes are those of a 64-bit int.
pub mod Classes
pub mod Budget
use radiance.Common.{
  ℕ, zero, suc, ◌+◌, ◌-◌, ◌*◌, ◌/◌, ◌%◌, ◌^◌, ◌≤◌, Bool, true, false, not, ◌&&◌, ◌||◌, Option, none,
  some, List, [], ◌∷◌, ◌++◌, if◌then◌else◌, leb, ltb, ◌==◌, length,
}

abbrev pub buf_pool_min_shift : ℕ
buf_pool_min_shift = 6

abbrev pub buf_pool_classes : ℕ
buf_pool_classes = 11

abbrev pub min_buf_size : ℕ
min_buf_size = 64

abbrev pub max_buf_size : ℕ
max_buf_size = 65536

pub record Buffer : Type 0 where
  pub len : ℕ
  pub cap : ℕ

-- A channel's buffer, oldest first, and its depth; a nil channel has depth 0.
pub record Chan : Type 0 where
  pub depth : ℕ
  pub queue : List Buffer

pub record BufAlloc : Type 0 where
  pub budget : ℕ
  pub pools : List Chan
  pub retained_bytes : ℕ

-- bits.Len32 for arguments below 2^fuel.
unfoldable pub bit_len : ℕ → ℕ → ℕ
bit_len zero n = 0
bit_len (suc fuel) n = let rest = bit_len fuel (n / 2) in if n == 0 then 0 else suc rest

unfoldable pub len32 : ℕ → ℕ
len32 x = bit_len 32 (x % 2 ^ 32)

unfoldable pub buf_class : ℕ → ℕ
buf_class size =
    if leb size min_buf_size
    then 0
    else let i = len32 size - 1 in (if size == 2 ^ i then i else i + 1) - buf_pool_min_shift

unfoldable pub class_size : ℕ → ℕ
class_size idx = 2 ^ (idx + buf_pool_min_shift)

-- The classes of buf.UDPBufferSize and buf.BufferSize, which the build chooses.
module _ (relay_class_lo relay_class_hi : ℕ) where
  abbrev in_relay : ℕ → Option ℕ
  in_relay idx = if leb relay_class_lo idx && leb idx relay_class_hi then some idx else none

  -- `none` stands for ok = false.
  unfoldable pub relay_class_for_size : ℕ → Option ℕ
  unfolding buf_class
  relay_class_for_size size =
      if leb size 0 || ltb max_buf_size size then none else in_relay (buf_class size)

  unfoldable pub relay_class_for_cap : ℕ → Option ℕ
  relay_class_for_cap c =
      if ltb c min_buf_size || ltb max_buf_size c || not (c == 2 ^ (len32 c - 1))
      then none
      else in_relay (len32 c - 1 - buf_pool_min_shift)

abbrev pub no_chan : Chan
no_chan = record { depth = 0; queue = [] }

abbrev pub chan_at : List Chan → ℕ → Chan
chan_at [] i = no_chan
chan_at (p ∷ ps) zero = p
chan_at (p ∷ ps) (suc i) = chan_at ps i

abbrev pub set_chan : List Chan → ℕ → Chan → List Chan
set_chan [] i q = []
set_chan (p ∷ ps) zero q = q ∷ ps
set_chan (p ∷ ps) (suc i) q = p ∷ set_chan ps i q

-- The atomic parts.
unfoldable pub reserve : BufAlloc → ℕ → BufAlloc
reserve a c = record a { retained_bytes = a.retained_bytes + c }

unfoldable pub refund : BufAlloc → ℕ → BufAlloc
refund a c = record a { retained_bytes = a.retained_bytes - c }

-- A non-blocking send: `none` when the channel is full.
unfoldable pub send : BufAlloc → ℕ → Buffer → Option BufAlloc
send a idx b =
    let ch = chan_at a.pools idx in
    if ltb (length ch.queue) ch.depth
    then some (record a { pools = set_chan a.pools idx (record ch { queue = ch.queue ++ b ∷ [] }) })
    else none

-- A non-blocking receive.
abbrev receive_from : BufAlloc → ℕ → Chan → List Buffer → Option (Buffer × BufAlloc)
receive_from a idx ch [] = none
receive_from a idx ch (b ∷ bs) =
    some (b, record a { pools = set_chan a.pools idx (record ch { queue = bs }) })

unfoldable pub receive : BufAlloc → ℕ → Option (Buffer × BufAlloc)
receive a idx = receive_from a idx (chan_at a.pools idx) (chan_at a.pools idx).queue

-- What Get returns: a call of the inner allocator, a pooled buffer or a new one.
pub data Got : Type 0 where
  delegated : Got
  reused : Buffer → Got
  fresh : Buffer → Got

module _ (relay_class_lo relay_class_hi : ℕ) where
  unfoldable pub get : BufAlloc → ℕ → Got × BufAlloc
  unfolding relay_class_for_size receive refund class_size
  get a size =
      if a.budget == 0
      then (delegated, a)
      else elim (relay_class_for_size relay_class_lo relay_class_hi size) [
        | none ↦ (delegated, a)
        | some idx ↦ elim (receive a idx) [
          | none ↦ (fresh (record { len = size; cap = class_size idx }), a)
          | some (b, a1) ↦ (reused (record b { len = size }), refund a1 b.cap)
        ]
      ]

  -- Whether the buffer went to the inner allocator, and the pools after.
  unfoldable pub put : BufAlloc → Buffer → Bool × BufAlloc
  unfolding relay_class_for_cap reserve refund send
  put a b =
      if a.budget == 0
      then (true, a)
      else elim (relay_class_for_cap relay_class_lo relay_class_hi b.cap) [
        | none ↦ (true, a)
        | some idx ↦
            let a1 = reserve a b.cap in
            if ltb a.budget a1.retained_bytes
            then (false, refund a1 b.cap)
            else elim (send a1 idx (record b { len = b.cap })) [
              | none ↦ (false, refund a1 b.cap)
              | some a2 ↦ (false, a2)
            ]
      ]

  -- The loop of setByteBudget over the classes from `idx`, with the pools of those classes.
  abbrev make_pools : ℕ → ℕ → List Chan → List Chan
  make_pools budget idx [] = []
  make_pools budget idx (p ∷ ps) =
      let depth = budget / class_size idx in
      (if leb relay_class_lo idx && leb idx relay_class_hi
        then record { depth = if ltb depth 1 then 1 else depth; queue = [] }
        else p)
      ∷ make_pools budget (idx + 1) ps

  -- A budget below zero disables bounding as zero does not: configureBufPool rules it out.
  unfoldable pub set_byte_budget : BufAlloc → ℕ → BufAlloc
  unfolding class_size
  set_byte_budget a budget = record a {
    pools = if ltb 0 budget then make_pools budget 0 a.pools else a.pools;
    budget = budget;
  }
