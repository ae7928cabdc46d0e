-- ===== src/Log/Publisher/Refines.antt =====
-- The ring of log/publish_handler.go against the whole history of lines.
use native.Mathlib.Nat.{mod-lt, mod-eq_of_lt, mod-eq-sub-mod, mod-add-mod}
use radiance.Common.{
  ℕ, zero, suc, ◌+◌, ◌-◌, ◌%◌, ◌≤◌, ◌<◌, ◌≡◌, ◌≢◌, refl, sym, ap, ap₂, ◌∙◌, arith, not, List, [],
  ◌∷◌, ◌++◌, if◌then◌else◌, ltb, ◌==◌, length, get_or, set, map, keep, keep_kept, keep_dropped,
  keep_nil, drop, suffix, drop-get_or, drop-all, length-set, get_or-set_self, get_or-set_other,
  get_or-append_old, get_or-append_new, length-append, Bool-cases, inl, inr, subst, ltb→lt,
}
use radiance.Log.Publisher.{
  Line, Client, Publisher, new_publisher, empty_slots, offer, publish, has_bytes, replay, backlog,
  subscribe, unsubscribe, receive, tail,
}

-- The ring after a history: each of the last lines is in its slot.
pub record Holds (p : Publisher) (hs : List Line) : Type 0 where
  pub positive : 0 < p.ring_size
  pub sized : length p.ring ≡ p.ring_size
  pub counted : p.ring_idx ≡ length hs
  pub held :
      (i : ℕ)
      → i < length hs
      → length hs ≤ i + p.ring_size
      → get_or p.ring (i % p.ring_size) [] ≡ get_or hs i []

mod_step : (r d n : ℕ) → r < n → 0 < d → d < n → (r + d) % n ≢ r
mod_step r d n h p q e = elim (Bool-cases (ltb (r + d) n)) [
  | inl small ↦
      let lt : r + d < n = ltb→lt (r + d) n small in absurd (omega (arith, e, mod-eq_of_lt lt))
  | inr big ↦
      let le : n ≤ r + d = ground arith in
      let lt : r + d - n < n = omega arith in
      absurd (omega (arith, e, mod-eq-sub-mod le, mod-eq_of_lt lt))
]

-- Numbers less than a ring apart have different slots.
slots_differ : (i d n : ℕ) → 0 < d → d < n → (i + d) % n ≢ i % n
slots_differ i d n p q e = mod_step (i % n) d n (mod-lt i (omega arith)) p q (mod-add-mod i n d ∙ e)

publish-held :
    (p : Publisher) (hs : List Line) (b : Line)
    → Holds p hs
    → (i : ℕ) → i < length (hs ++ b ∷ [])
    → length (hs ++ b ∷ []) ≤ i + p.ring_size
    → get_or (set p.ring (p.ring_idx % p.ring_size) b) (i % p.ring_size) []
      ≡ get_or (hs ++ b ∷ []) i []
publish-held p hs b h i lt le =
    let n = p.ring_size in
    let long = length-append hs (b ∷ []) in
    elim (Bool-cases (ltb i (length hs))) [
      | inl old ↦
          let i_lt : i < length hs = ltb→lt i (length hs) old in
          let apart : (i + (length hs - i)) % n ≢ i % n =
            slots_differ i (length hs - i) n (omega arith) (omega (arith, long)) in
          let idx : p.ring_idx ≡ i + (length hs - i) = omega (arith, h.counted) in
          get_or-set_other p.ring (p.ring_idx % n) (i % n) b []
            (λ e. apart (ap (λ k. k % n) (sym idx) ∙ sym e))
          ∙ h.held i i_lt (omega (arith, long))
          ∙ sym (get_or-append_old hs (b ∷ []) i [] i_lt)
      | inr new ↦
          let idx : p.ring_idx ≡ i = ground (arith, long, h.counted) in
          let at : i ≡ length hs = omega (arith, h.counted, idx) in
          subst (λ (k : ℕ). get_or (set p.ring (k % n) b) (i % n) [] ≡ get_or (hs ++ b ∷ []) i [])
            (sym idx)
            (get_or-set_self p.ring (i % n) b [] (omega (arith, mod-lt i h.positive, h.sized))
              ∙ sym (ap (λ k. get_or (hs ++ b ∷ []) k []) at ∙ get_or-append_new hs b []))
    ]

publish-Holds :
    (p : Publisher) (hs : List Line) (b : Line) → Holds p hs → Holds (publish p b) (hs ++ b ∷ [])
unfolding publish
publish-Holds p hs b h = record {
  positive = h.positive;
  sized = length-set p.ring (p.ring_idx % p.ring_size) b ∙ h.sized;
  counted = omega (arith, h.counted, length-append hs (b ∷ []));
  held = λ i lt le. publish-held p hs b h i lt le;
}

replay-lines :
    (p : Publisher) (hs : List Line) (rounds i : ℕ)
    → Holds p hs
    → i + rounds ≡ length hs
    → length hs ≤ i + p.ring_size
    → replay rounds i p.ring p.ring_size ≡ keep has_bytes (drop i hs)
unfolding replay
replay-lines p hs zero i h e le = rw (drop-all i hs (omega arith)) (sym (keep_nil has_bytes))
replay-lines p hs (suc rounds) i h e le =
    let line = get_or hs i [] in
    let ih = replay-lines p hs rounds (suc i) h (omega arith) (omega arith) in
    rw (h.held i (omega arith) le, drop-get_or hs i [] (omega arith))
      (elim (Bool-cases (has_bytes (get_or hs i []))) [
        | inl some_bytes ↦ rw some_bytes (
            ap (◌∷◌ (get_or hs i [])) ih
            ∙ sym (keep_kept has_bytes (get_or hs i []) (drop (suc i) hs) some_bytes))
        | inr no_bytes ↦
            rw no_bytes
              (ih ∙ sym (keep_dropped has_bytes (get_or hs i []) (drop (suc i) hs) no_bytes))
      ])

backlog-suffix :
    (p : Publisher) (hs : List Line)
    → Holds p hs
    → backlog p ≡ keep has_bytes (suffix p.ring_size hs)
unfolding backlog
backlog-suffix p hs h = rw h.counted (
    replay-lines p hs (length hs - (length hs - p.ring_size)) (length hs - p.ring_size) h
      (omega arith) (omega arith))

-- What a publisher promises: every line is remembered, and a subscriber is given those of the last
-- `size` lines that have bytes.
pub record Feed : Type 0 where
  pub size : ℕ
  pub history : List Line
  pub readers : List Client

pub data Event : Type 0 where
  published : Line → Event
  subscribed unsubscribed received : ℕ → Event

abbrev pub handle : Publisher → Event → Publisher
handle p (published b) = publish p b
handle p (subscribed id) = subscribe p id
handle p (unsubscribed id) = unsubscribe p id
handle p (received id) = receive p id

abbrev pub promise : Feed → Event → Feed
promise f (published b) = record f {
  history = f.history ++ b ∷ [];
  readers = map (offer f.size b) f.readers;
}
promise f (subscribed id) = record f {
  readers = record { id = id; queue = keep has_bytes (suffix f.size f.history) } ∷ f.readers;
}
promise f (unsubscribed id) = record f { readers = keep (λ c. not (c.id == id)) f.readers }
promise f (received id) = record f {
  readers = map (λ c. if c.id == id then record c { queue = tail c.queue } else c) f.readers;
}

unfoldable pub run : Publisher → List Event → Publisher
run p [] = p
run p (e ∷ es) = run (handle p e) es

unfoldable pub run_promise : Feed → List Event → Feed
run_promise f [] = f
run_promise f (e ∷ es) = run_promise (promise f e) es

record Simulates (p : Publisher) (f : Feed) : Type 0 where
  holds : Holds p f.history
  same_size : p.ring_size ≡ f.size
  same_clients : p.clients ≡ f.readers

Holds-same :
    (p q : Publisher) (hs : List Line)
    → q.ring ≡ p.ring
    → q.ring_size ≡ p.ring_size
    → q.ring_idx ≡ p.ring_idx
    → Holds p hs
    → Holds q hs
Holds-same p q hs e1 e2 e3 h = record {
  positive = omega (arith, h.positive);
  sized = ap length e1 ∙ h.sized ∙ sym e2;
  counted = e3 ∙ h.counted;
  held = λ i lt le. ap₂ (λ r n. get_or r (i % n) []) e1 e2 ∙ h.held i lt (omega (arith, le, e2));
}

handle-Simulates :
    (p : Publisher) (f : Feed) (e : Event) → Simulates p f → Simulates (handle p e) (promise f e)
unfolding publish subscribe unsubscribe receive
handle-Simulates p f (published b) s = record {
  holds = publish-Holds p f.history b s.holds;
  same_size = s.same_size;
  same_clients = ap₂ (λ n cs. map (offer n b) cs) s.same_size s.same_clients;
}
handle-Simulates p f (subscribed id) s = record {
  holds = Holds-same p (subscribe p id) f.history refl refl refl s.holds;
  same_size = s.same_size;
  same_clients =
      ap₂ (λ q cs. record { id = id; queue = q } ∷ cs)
        (backlog-suffix p f.history s.holds
          ∙ ap (λ n. keep has_bytes (suffix n f.history)) s.same_size)
        s.same_clients;
}
handle-Simulates p f (unsubscribed id) s = record {
  holds = Holds-same p (unsubscribe p id) f.history refl refl refl s.holds;
  same_size = s.same_size;
  same_clients = ap (keep (λ c. not (c.id == id))) s.same_clients;
}
handle-Simulates p f (received id) s = record {
  holds = Holds-same p (receive p id) f.history refl refl refl s.holds;
  same_size = s.same_size;
  same_clients =
      ap (map (λ c. if c.id == id then record c { queue = tail c.queue } else c)) s.same_clients;
}

run-Simulates :
    (p : Publisher) (f : Feed) (es : List Event)
    → Simulates p f
    → Simulates (run p es) (run_promise f es)
unfolding run run_promise
run-Simulates p f [] s = s
run-Simulates p f (e ∷ es) s =
    run-Simulates (handle p e) (promise f e) es (handle-Simulates p f e s)

length-empty_slots : (n : ℕ) → length (empty_slots n) ≡ n
length-empty_slots zero = refl
length-empty_slots (suc n) = ap suc (length-empty_slots n)

-- Whatever lines, subscriptions, departures and reads come in whatever order, the clients of a
-- publisher with a ring of some size hold in their channels what they would hold if the publisher
-- remembered every line and gave a new client those of the last `size` lines that have bytes.
pub run-promise :
    (size : ℕ) (es : List Event)
    → 0 < size
    → (run (new_publisher size) es).clients
      ≡ (run_promise (record { size = size; history = []; readers = [] }) es).readers
unfolding new_publisher
run-promise size es h =
    (run-Simulates (new_publisher size) (record { size = size; history = []; readers = [] }) es
      (record {
        holds = record {
          positive = h;
          sized = length-empty_slots size;
          counted = refl;
          held = λ i lt le. elim lt [ ];
        };
        same_size = refl;
        same_clients = refl;
      })).same_clients
