-- ===== src/Vpn/BufPool/Budget.antt =====
-- The byte budget of vpn/bufpool.go under any interleaving of Get and Put.
use radiance.Common.{
  ℕ, zero, suc, ◌+◌, ◌≤◌, ◌<◌, ◌≡◌, refl, arith, none, some, List, [], ◌∷◌, ◌++◌, length, ltb,
  if◌then◌else◌, inl, inr, Option-cases, ap,
}
use radiance.Vpn.BufPool.{
  BufAlloc, Buffer, Chan, chan_at, set_chan, reserve, refund, send, receive, receive_from, get, put,
  relay_class_for_cap, relay_class_for_size,
}

-- The capacities of a channel's buffers, and of all.
abbrev pub caps : List Buffer → ℕ
caps [] = 0
caps (b ∷ bs) = b.cap + caps bs

abbrev pub idle : List Chan → ℕ
idle [] = 0
idle (p ∷ ps) = caps p.queue + idle ps

caps-snoc : (bs : List Buffer) (b : Buffer) → caps (bs ++ b ∷ []) ≡ caps bs + b.cap
caps-snoc [] b = omega arith
caps-snoc (x ∷ bs) b = omega (arith, caps-snoc bs b)

-- A write to a channel that is there trades its bytes for the new ones.
idle-set_chan :
    (ps : List Chan) (i : ℕ) (q : Chan)
    → i < length ps
    → idle (set_chan ps i q) + caps (chan_at ps i).queue ≡ idle ps + caps q.queue
idle-set_chan [] i q h = elim h [ ]
idle-set_chan (p ∷ ps) zero q h = omega arith
idle-set_chan (p ∷ ps) (suc i) q h = omega (arith, idle-set_chan ps i q (omega arith))

-- A channel with anything in it is there.
chan_at-there :
    (ps : List Chan) (i : ℕ) (b : Buffer) (bs : List Buffer)
    → (chan_at ps i).queue ≡ b ∷ bs
    → i < length ps
chan_at-there [] i b bs h = cc
chan_at-there (p ∷ ps) zero b bs h = omega arith
chan_at-there (p ∷ ps) (suc i) b bs h = omega (arith, chan_at-there ps i b bs h)

chan_at-room :
    (ps : List Chan) (i : ℕ) → length (chan_at ps i).queue < (chan_at ps i).depth → i < length ps
chan_at-room [] i h = elim h [ ]
chan_at-room (p ∷ ps) zero h = omega arith
chan_at-room (p ∷ ps) (suc i) h = omega (arith, chan_at-room ps i h)

-- A successful send adds the buffer's bytes, and nothing else changes.
pub send-idle :
    (a a' : BufAlloc) (idx : ℕ) (b : Buffer)
    → send a idx b ≡ some a'
    → (idle a'.pools ≡ idle a.pools + b.cap)
      × (a'.budget ≡ a.budget)
      × (a'.retained_bytes ≡ a.retained_bytes)
unfolding send
send-idle a a' idx b h =
    let ch = chan_at a.pools idx in
    ground (
      arith,
      chan_at-room a.pools idx,
      idle-set_chan a.pools idx (record ch { queue = ch.queue ++ b ∷ [] }),
      caps-snoc ch.queue b,
    )

receive_from-idle :
    (a a' : BufAlloc) (idx : ℕ) (b : Buffer) (bs : List Buffer)
    → (chan_at a.pools idx).queue ≡ bs
    → receive_from a idx (chan_at a.pools idx) bs ≡ some (b, a')
    → (idle a.pools ≡ idle a'.pools + b.cap)
      × (a'.budget ≡ a.budget)
      × (a'.retained_bytes ≡ a.retained_bytes)
receive_from-idle a a' idx b [] e h = cc
receive_from-idle a a' idx b (x ∷ bs) e h =
    let ch = chan_at a.pools idx in
    ground (
      arith,
      chan_at-there a.pools idx x bs e,
      idle-set_chan a.pools idx (record ch { queue = bs }),
    )

pub receive-idle :
    (a a' : BufAlloc) (idx : ℕ) (b : Buffer)
    → receive a idx ≡ some (b, a')
    → (idle a.pools ≡ idle a'.pools + b.cap)
      × (a'.budget ≡ a.budget)
      × (a'.retained_bytes ≡ a.retained_bytes)
unfolding receive
receive-idle a a' idx b h = receive_from-idle a a' idx b (chan_at a.pools idx).queue refl h

-- The pools and the calls in flight: the buffers of Puts that passed the budget check and have not
-- sent yet, and the bytes that a Put or a Get has yet to subtract.
pub record Conf : Type 0 where
  pub alloc : BufAlloc
  pub approved : List Buffer
  pub owed : List ℕ

abbrev pub sum : List ℕ → ℕ
sum [] = 0
sum (n ∷ ns) = n + sum ns

-- Put up to its budget check.
abbrev pub put_reserve : Conf → Buffer → Conf
put_reserve c b =
    let a1 = reserve c.alloc b.cap in
    if ltb c.alloc.budget a1.retained_bytes
    then record c { alloc = a1; owed = b.cap ∷ c.owed }
    else record c { alloc = a1; approved = b ∷ c.approved }

-- The send of an approved Put, which owes its bytes when the channel is full.
abbrev put_send : Conf → List Buffer → Buffer → ℕ → Conf
put_send c others b idx = elim (send c.alloc idx (record b { len = b.cap })) [
  | none ↦ record c { approved = others; owed = b.cap ∷ c.owed }
  | some a ↦ record c { alloc = a; approved = others }
]

abbrev get_receive : Conf → ℕ → Conf
get_receive c idx = elim (receive c.alloc idx) [
  | none ↦ c
  | some (b, a) ↦ record c { alloc = a; owed = b.cap ∷ c.owed }
]

-- One atomic part of some goroutine's Get or Put.
pub data Step (lo hi : ℕ) (c : Conf) : Conf → Type 0 where
  reserves :
      (b : Buffer) (idx : ℕ)
      → relay_class_for_cap lo hi b.cap ≡ some idx
      → Step lo hi c (put_reserve c b)
  sends :
      (xs ys : List Buffer) (b : Buffer) (idx : ℕ)
      → c.approved ≡ xs ++ b ∷ ys
      → relay_class_for_cap lo hi b.cap ≡ some idx
      → Step lo hi c (put_send c (xs ++ ys) b idx)
  receives :
      (size idx : ℕ) → relay_class_for_size lo hi size ≡ some idx → Step lo hi c (get_receive c idx)
  refunds :
      (ms ns : List ℕ) (n : ℕ)
      → c.owed ≡ ms ++ n ∷ ns
      → Step lo hi c (record c { alloc = refund c.alloc n; owed = ms ++ ns })

pub data Reach (lo hi : ℕ) (c : Conf) : Conf → Type 0 where
  here : Reach lo hi c c
  next : {d e : Conf} → Reach lo hi c d → Step lo hi d e → Reach lo hi c e

pub record Within (c : Conf) : Type 0 where
  pub accounted : c.alloc.retained_bytes ≡ idle c.alloc.pools + caps c.approved + sum c.owed
  pub bounded : idle c.alloc.pools + caps c.approved ≤ c.alloc.budget

caps-append : (xs ys : List Buffer) → caps (xs ++ ys) ≡ caps xs + caps ys
caps-append [] ys = omega arith
caps-append (x ∷ xs) ys = omega (arith, caps-append xs ys)

sum-append : (ms ns : List ℕ) → sum (ms ++ ns) ≡ sum ms + sum ns
sum-append [] ns = omega arith
sum-append (m ∷ ms) ns = omega (arith, sum-append ms ns)

put_reserve-Within : (c : Conf) (b : Buffer) → Within c → Within (put_reserve c b)
unfolding reserve
put_reserve-Within c b w = ground arith

put_send-Within :
    (c : Conf) (xs ys : List Buffer) (b : Buffer) (idx : ℕ)
    → c.approved ≡ xs ++ b ∷ ys
    → Within c
    → Within (put_send c (xs ++ ys) b idx)
put_send-Within c xs ys b idx e w =
    let len = ap caps e in
    elim (Option-cases (send c.alloc idx (record b { len = b.cap }))) [
      | inl f ↦ rw (f, put_send) (omega (arith, len, caps-append xs (b ∷ ys), caps-append xs ys))
      | inr (a, f) ↦
          rw (f, put_send)
            (omega (
              arith,
              len,
              caps-append xs (b ∷ ys),
              caps-append xs ys,
              send-idle c.alloc a idx (record b { len = b.cap }) f,
            ))
    ]

get_receive-Within : (c : Conf) (idx : ℕ) → Within c → Within (get_receive c idx)
get_receive-Within c idx w = elim (Option-cases (receive c.alloc idx)) [
  | inl f ↦ rw (f, get_receive) w
  | inr ((b, a), f) ↦ rw (f, get_receive) (omega (arith, receive-idle c.alloc a idx b f))
]

Step-Within : {lo hi : ℕ} {c d : Conf} → Step lo hi c d → Within c → Within d
unfolding refund
Step-Within {c = c} (reserves b idx h) w = put_reserve-Within c b w
Step-Within {c = c} (sends xs ys b idx e h) w = put_send-Within c xs ys b idx e w
Step-Within {c = c} (receives size idx h) w = get_receive-Within c idx w
Step-Within {c = c} (refunds ms ns n e) w =
    omega (arith, ap sum e, sum-append ms (n ∷ ns), sum-append ms ns)

-- However Gets and Puts of any number of goroutines interleave, the idle buffers never hold more
-- bytes than the budget, and the counter is the idle bytes with what is in flight: so it never
-- falls below zero, and is exact when nothing is in flight.
pub Reach-Within : {lo hi : ℕ} {c d : Conf} → Within c → Reach lo hi c d → Within d
Reach-Within w here = w
Reach-Within w (next r s) = Step-Within s (Reach-Within w r)

-- Nothing in flight: the counter is exact, and the budget holds.
pub record Quiet (a : BufAlloc) : Type 0 where
  pub exact : a.retained_bytes ≡ idle a.pools
  pub within : idle a.pools ≤ a.budget

put_pooled-Quiet :
    (lo hi : ℕ) (a : BufAlloc) (b : Buffer) (idx : ℕ)
    → relay_class_for_cap lo hi b.cap ≡ some idx
    → Quiet a
    → Quiet (put lo hi a b).1
unfolding put
put_pooled-Quiet lo hi a b idx h q =
    elim (Option-cases (send (reserve a b.cap) idx (record b { len = b.cap }))) [
      | inl f ↦ ground (arith, f, h)
      | inr (a', f) ↦
          ground (arith, f, h, send-idle (reserve a b.cap) a' idx (record b { len = b.cap }) f)
    ]

put-Quiet : (lo hi : ℕ) (a : BufAlloc) (b : Buffer) → Quiet a → Quiet (put lo hi a b).1
put-Quiet lo hi a b q = elim (Option-cases (relay_class_for_cap lo hi b.cap)) [
  | inl e ↦ unfold put in ground (arith, e)
  | inr (idx, e) ↦ put_pooled-Quiet lo hi a b idx e q
]

get_pooled-Quiet :
    (lo hi : ℕ) (a : BufAlloc) (size idx : ℕ)
    → relay_class_for_size lo hi size ≡ some idx
    → Quiet a
    → Quiet (get lo hi a size).1
unfolding get
get_pooled-Quiet lo hi a size idx h q = elim (Option-cases (receive a idx)) [
  | inl f ↦ ground (arith, f, h)
  | inr ((b, a'), f) ↦ ground (arith, f, h, receive-idle a a' idx b f)
]

get-Quiet : (lo hi : ℕ) (a : BufAlloc) (size : ℕ) → Quiet a → Quiet (get lo hi a size).1
get-Quiet lo hi a size q = elim (Option-cases (relay_class_for_size lo hi size)) [
  | inl e ↦ unfold get in ground (arith, e)
  | inr (idx, e) ↦ get_pooled-Quiet lo hi a size idx e q
]

-- One Put or Get that runs alone keeps the counter equal to the idle bytes and those within the
-- budget, whatever buffer or size it is given.
pub get-put-Quiet :
    (lo hi : ℕ) (a : BufAlloc)
    → Quiet a
    → ((b : Buffer) → Quiet (put lo hi a b).1) × ((size : ℕ) → Quiet (get lo hi a size).1)
get-put-Quiet lo hi a q = (λ b. put-Quiet lo hi a b q, λ size. get-Quiet lo hi a size q)
