-- ===== src/Vpn/Throughput/Phases.antt =====
-- A sample of vpn/throughput_tracker.go while connections come, count and go.
use radiance.Common.{
  ℕ, Bool, true, false, Option, none, some, List, [], ◌∷◌, if◌then◌else◌, ◌==◌, String, any_of, ltb,
}
use radiance.Common.Int.{pos}
use radiance.Vpn.Throughput.{
  ByteTotals, no_bytes, Conn, ClosedDelta, Tracker, Sampler, join, count_bytes, close_record,
  hand_over_record, remove_record, visit, apply_closed_deltas,
}

-- Of a sample under way: the connections that its active walk has still to look at.
pub data Walk : Type 0 where
  resting : Walk
  walking : List ℕ → Walk

pub record World : Type 0 where
  pub tracker : Tracker
  pub sampler : Sampler
  pub walk : Walk

-- What can happen: a connection with a new id joins, and counts bytes, even after it has left; a call
-- of leave for it, perhaps not the first, closes it, then hands it over, then removes it; a tick starts a sample, whose walk looks at one connection after another,
-- and which then takes the pending closes.
pub data Event : Type 0 where
  joins : ℕ → String → Event
  counts : ℕ → ByteTotals → Event
  closes : ℕ → Event
  hands_over : ℕ → Event
  removes : ℕ → Event
  starts : ℕ → Event
  visits : Event
  drains : Event

abbrev pub counted : Tracker → ℕ → ByteTotals → Option Conn → Tracker
counted t id n none = t
counted t id n (some c) = count_bytes t id c n

abbrev pub joined : Tracker → ℕ → String → Option Conn → Tracker
joined t id outbound none = join t id outbound
joined t id outbound (some c) = t

abbrev pub closed : Tracker → ℕ → Option Conn → Tracker
closed t id none = t
closed t id (some c) = close_record t id c

abbrev pub handed : Tracker → ℕ → Option Conn → Tracker
handed t id none = t
handed t id (some c) = hand_over_record t id c

abbrev pub left : Tracker → ℕ → Option Conn → Tracker
left t id none = t
left t id (some c) = remove_record t id c

abbrev pub is_active : ℕ → List ℕ → Bool
is_active id ids = any_of (λ j. j == id) ids

-- The walk looks at a connection that is still in the map.
abbrev pub visited : Sampler → ℕ → Bool → Option Conn → Sampler
visited s id false c = s
visited s id true none = s
visited s id true (some c) = visit s id c

-- The start of sample, unless the clock has not moved on.
unfoldable pub start_sample : Sampler → ℕ → Sampler
start_sample s now = record s { last_tick_at = now; deltas = []; next_seen = λ id. none }

-- The end of sample: the maps of baselines are swapped, the one for scratch being cleared when it is
-- used next, which is done here at once.
unfoldable pub finish_sample : Sampler → List ClosedDelta → ByteTotals → Sampler
finish_sample s pending total =
    let s1 = apply_closed_deltas s pending in
    record s1 { seen = s1.next_seen; next_seen = λ id. none; last_global = total }

abbrev pub started : World → ℕ → Walk → World
started w now (walking ids) = w
started w now resting =
    if ltb w.sampler.last_tick_at now
    then record w { sampler = start_sample w.sampler now; walk = walking w.tracker.conns }
    else w

abbrev pub visited_next : World → Walk → World
visited_next w resting = w
visited_next w (walking []) = w
visited_next w (walking (id ∷ ids)) = record w {
  sampler = visited w.sampler id (is_active id w.tracker.conns) (w.tracker.records id);
  walk = walking ids;
}

abbrev pub drained : World → Walk → World
drained w resting = w
drained w (walking (id ∷ ids)) = w
drained w (walking []) = record w {
  sampler = finish_sample w.sampler w.tracker.pending w.tracker.total;
  tracker = record w.tracker { pending = [] };
  walk = resting;
}

unfoldable pub step : World → Event → World
step w (joins id outbound) = record w {
  tracker = joined w.tracker id outbound (w.tracker.records id);
}
step w (counts id n) = record w { tracker = counted w.tracker id n (w.tracker.records id) }
step w (closes id) = record w { tracker = closed w.tracker id (w.tracker.records id) }
step w (hands_over id) = record w { tracker = handed w.tracker id (w.tracker.records id) }
step w (removes id) = record w { tracker = left w.tracker id (w.tracker.records id) }
step w (starts now) = started w now w.walk
step w visits = visited_next w w.walk
step w drains = drained w w.walk

unfoldable pub run : World → List Event → World
run w [] = w
run w (e ∷ es) = run (step w e) es

abbrev pub fresh : World
fresh = record {
  tracker = record {
    records = λ id. none;
    conns = [];
    active_count = pos 0;
    total = no_bytes;
    pending = [];
    observing = true;
    observed = [];
  };
  sampler = record {
    seen = λ id. none;
    next_seen = λ id. none;
    deltas = [];
    last_global = no_bytes;
    last_tick_at = 0;
    log = [];
  };
  walk = resting;
}
