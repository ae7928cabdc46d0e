-- ===== src/Log/Publisher.antt =====
-- log/publish_handler.go, each operation under its lock. A line is its bytes. A channel is an
-- identity with what waits in it, whose capacity is the ring size.
pub mod Refines
use radiance.Common.{
  ℕ, zero, suc, ◌+◌, ◌-◌, ◌%◌, Bool, true, false, not, List, [], ◌∷◌, ◌++◌, if◌then◌else◌, ltb,
  ◌==◌, length, get_or, set, map, keep,
}

abbrev pub Line : Type 0
Line = List ℕ

abbrev pub default_publisher_ring_size : ℕ
default_publisher_ring_size = 30

pub record Client : Type 0 where
  pub id : ℕ
  pub queue : List Line

pub record Publisher : Type 0 where
  pub clients : List Client
  pub ring : List Line
  pub ring_size : ℕ
  pub ring_idx : ℕ

abbrev pub empty_slots : ℕ → List Line
empty_slots zero = []
empty_slots (suc n) = [] ∷ empty_slots n

unfoldable pub new_publisher : ℕ → Publisher
new_publisher size = record {
  clients = [];
  ring = empty_slots size;
  ring_size = size;
  ring_idx = 0;
}

-- A send that does not wait: a client whose channel is full misses the line.
unfoldable pub offer : ℕ → Line → Client → Client
offer size b c = if ltb (length c.queue) size then record c { queue = c.queue ++ b ∷ [] } else c

unfoldable pub publish : Publisher → Line → Publisher
publish p b = record p {
  ring = set p.ring (p.ring_idx % p.ring_size) b;
  ring_idx = p.ring_idx + 1;
  clients = map (offer p.ring_size b) p.clients;
}

abbrev pub has_bytes : Line → Bool
has_bytes [] = false
has_bytes (x ∷ xs) = true

-- The loop of subscribe: the slots of `rounds` entries from the one of number `i` on.
unfoldable pub replay : ℕ → ℕ → List Line → ℕ → List Line
replay zero i ring size = []
replay (suc rounds) i ring size =
    let slot = get_or ring (i % size) [] in
    let rest = replay rounds (suc i) ring size in if has_bytes slot then slot ∷ rest else rest

unfoldable pub backlog : Publisher → List Line
backlog p =
    let start = p.ring_idx - p.ring_size in replay (p.ring_idx - start) start p.ring p.ring_size

unfoldable pub subscribe : Publisher → ℕ → Publisher
subscribe p id = record p { clients = record { id = id; queue = backlog p } ∷ p.clients }

unfoldable pub unsubscribe : Publisher → ℕ → Publisher
unsubscribe p id = record p { clients = keep (λ c. not (c.id == id)) p.clients }

abbrev pub tail : List Line → List Line
tail [] = []
tail (x ∷ xs) = xs

-- A client takes the next line from its channel.
unfoldable pub receive : Publisher → ℕ → Publisher
receive p id = record p {
  clients = map (λ c. if c.id == id then record c { queue = tail c.queue } else c) p.clients;
}
