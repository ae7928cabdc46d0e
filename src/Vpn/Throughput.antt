-- ===== src/Vpn/Throughput.antt =====
-- vpn/conntrack.go and vpn/throughput_tracker.go. A record is found by its id, which stands for the
-- pointer to it; a map by ids is a function, the active connections a list of their ids. The map
-- `deltas` of a sample is kept as what addDelta adds to it, its value at a tag being the sum.
-- `log` is what addDelta was ever given; the code does not keep it. Counters are of 64 bits and do
-- not come near the bound. leave is three steps, as a sample can come between them: it closes the
-- record and reads its totals, it hands them to the sampler, which is taken to be there, and it
-- removes the connection, with the active count and the observer, which no sample reads. Of the calls
-- of leave for a record the one that closed it goes on.
pub mod Phases
pub mod Account
pub mod Standing
pub mod Moves
pub mod Tracked
pub mod Walked
pub mod Drained
pub mod Accounted
mod Tests
use radiance.Common.{
  ℕ, suc, ◌+◌, ◌-◌, ◌*◌, Bool, true, false, not, Option, none, some, List, [], ◌∷◌, ◌++◌, keep,
  if◌then◌else◌, ◌==◌, String, length,
}
use radiance.Common.Int.{ℤ, pos, ◌-ℤ◌, ◌+ℤ◌, max_ℤ}
use text.Mathlib.Text.{◌==◌ as str_eq}

pub record ByteTotals : Type 0 where
  pub up : ℕ
  pub down : ℕ

abbrev pub no_bytes : ByteTotals
no_bytes = record { up = 0; down = 0 }

abbrev pub add_bytes : ByteTotals → ByteTotals → ByteTotals
add_bytes a b = record { up = a.up + b.up; down = a.down + b.down }

-- How far leave has come with a record; `closed` of the source is that it is not `not_yet`.
pub data Leaving : Type 0 where
  not_yet totals_read handed_over removed : Leaving

-- What the accounting reads of a record; `left_with` is what leave read of the totals.
pub record Conn : Type 0 where
  pub outbound : String
  pub totals : ByteTotals
  pub leaving : Leaving
  pub left_with : ByteTotals

pub record ClosedDelta : Type 0 where
  pub id : ℕ
  pub outbound : String
  pub totals : ByteTotals

-- A call of addDelta, with the connection on whose account it is.
pub record Addition : Type 0 where
  pub id : ℕ
  pub outbound : String
  pub up : ℤ
  pub down : ℤ

-- ConnClose, as the observer gets it.
pub record ConnClose : Type 0 where
  pub id : ℕ
  pub totals : ByteTotals

pub record Tracker : Type 0 where
  pub records : ℕ → Option Conn
  pub conns : List ℕ
  pub active_count : ℤ
  pub total : ByteTotals
  pub pending : List ClosedDelta
  pub observing : Bool
  pub observed : List ConnClose

pub record Sampler : Type 0 where
  pub seen : ℕ → Option ByteTotals
  pub next_seen : ℕ → Option ByteTotals
  pub deltas : List Addition
  pub last_global : ByteTotals
  pub last_tick_at : ℕ
  pub log : List Addition

module _ {V : Type 0} where
  abbrev pub put : ℕ → V → (ℕ → Option V) → ℕ → Option V
  put id v m = λ j. if j == id then some v else m j

  abbrev pub drop_key : ℕ → (ℕ → Option V) → ℕ → Option V
  drop_key id m = λ j. if j == id then none else m j

unfoldable pub without : ℕ → List ℕ → List ℕ
without id [] = []
without id (j ∷ ids) = let rest = without id ids in if j == id then rest else j ∷ rest

unfoldable pub join : Tracker → ℕ → String → Tracker
join t id outbound = record t {
  records =
      put id
        (record { outbound = outbound; totals = no_bytes; leaving = not_yet; left_with = no_bytes })
        t.records;
  conns = without id t.conns ++ id ∷ [];
  active_count = t.active_count +ℤ pos 1;
}

-- The counters on the data path: a connection's own and the global ones.
unfoldable pub count_bytes : Tracker → ℕ → Conn → ByteTotals → Tracker
count_bytes t id c n = record t {
  records = put id (record c { totals = add_bytes c.totals n }) t.records;
  total = add_bytes t.total n;
}

-- The compare-and-swap of leave, and the totals that it reads; a call after the first does nothing.
abbrev pub close_once : Tracker → ℕ → Conn → Leaving → Tracker
close_once t id c not_yet = record t {
  records = put id (record c { leaving = totals_read; left_with = c.totals }) t.records;
}
close_once t id c _ = t

unfoldable pub close_record : Tracker → ℕ → Conn → Tracker
close_record t id c = close_once t id c c.leaving

-- leave's recordClosed.
abbrev pub hand_over_read : Tracker → ℕ → Conn → Leaving → Tracker
hand_over_read t id c totals_read = record t {
  records = put id (record c { leaving = handed_over }) t.records;
  pending = t.pending ++ record { id = id; outbound = c.outbound; totals = c.left_with } ∷ [];
}
hand_over_read t id c _ = t

unfoldable pub hand_over_record : Tracker → ℕ → Conn → Tracker
hand_over_record t id c = hand_over_read t id c c.leaving

-- The rest of leave.
abbrev pub remove_handed : Tracker → ℕ → Conn → Leaving → Tracker
remove_handed t id c handed_over = record t {
  records = put id (record c { leaving = removed }) t.records;
  conns = without id t.conns;
  active_count = t.active_count -ℤ pos 1;
  observed =
      if t.observing then record { id = id; totals = c.left_with } ∷ t.observed else t.observed;
}
remove_handed t id c _ = t

unfoldable pub remove_record : Tracker → ℕ → Conn → Tracker
remove_record t id c = remove_handed t id c c.leaving

abbrev pub or_zero : Option ByteTotals → ByteTotals
or_zero none = no_bytes
or_zero (some b) = b

-- Of a map of sums by tag, what addDelta does to it.
unfoldable pub add_delta : Sampler → Addition → Sampler
add_delta s a = record s { deltas = a ∷ s.deltas; log = a ∷ s.log }

abbrev pub sub_bytes : ℕ → String → ByteTotals → ByteTotals → Addition
sub_bytes id outbound now before = record {
  id = id;
  outbound = outbound;
  up = pos now.up -ℤ pos before.up;
  down = pos now.down -ℤ pos before.down;
}

abbrev pub sub_bytes_max : ℕ → String → ByteTotals → ByteTotals → Addition
sub_bytes_max id outbound now before = record {
  id = id;
  outbound = outbound;
  up = max_ℤ (pos 0) (pos now.up -ℤ pos before.up);
  down = max_ℤ (pos 0) (pos now.down -ℤ pos before.down);
}

unfoldable pub apply_delta : Sampler → ℕ → String → ByteTotals → Sampler
apply_delta s id outbound now = add_delta s (sub_bytes id outbound now (or_zero (s.seen id)))

abbrev pub apply_counted : Sampler → ClosedDelta → Option ByteTotals → Sampler
apply_counted s c none = apply_delta s c.id c.outbound c.totals
apply_counted s c (some sampled) =
    let s1 = add_delta s (sub_bytes_max c.id c.outbound c.totals sampled) in
    record s1 { next_seen = drop_key c.id s1.next_seen }

unfoldable pub apply_closed_delta : Sampler → ClosedDelta → Sampler
apply_closed_delta s c = apply_counted s c (s.next_seen c.id)

unfoldable pub apply_closed_deltas : Sampler → List ClosedDelta → Sampler
apply_closed_deltas s [] = s
apply_closed_deltas s (c ∷ cs) = apply_closed_deltas (apply_closed_delta s c) cs

-- A round of the active walk of sample.
unfoldable pub visit : Sampler → ℕ → Conn → Sampler
visit s id c =
    let s1 = apply_delta s id c.outbound c.totals in
    record s1 { next_seen = put id c.totals s1.next_seen }
