-- ===== src/Kindling/Tunnels/Pool.antt =====
-- The goroutines of kindling/dnstt/parser.go around the pool, as steps: probe cycles and their
-- workers, calls of NewRoundTripper, and Close. A list beside the transport holds the tunnels that
-- are with the workers, those that callers have drawn, and those that nothing holds any more.
use radiance.Common.{
  ℕ, suc, ◌+◌, ◌%◌, Bool, true, false, List, [], ◌∷◌, ◌++◌, ◌||◌, not, if◌then◌else◌, ◌==◌, length,
  leb,
}
use radiance.Kindling.Tunnels.{
  max_working_tunnels, Response, round_trip, Transport, set_tunnel, close_tunnel, offer, end_probe,
  is_succeeding,
}

pub record World : Type 0 where
  pub transport : Transport
  pub closed : Bool
  pub opened : ℕ
  pub cycles : List ℕ
  pub submitted : List ℕ
  pub tested : List ℕ
  pub probes : List ℕ
  pub drawn : List ℕ
  pub lost : List ℕ

-- What can happen, the number of configurations given: a cycle of tryAllDNSTunnels begins, submits a
-- configuration, ends; a worker takes one up, which makes a tunnel or not, and ends; a call of
-- NewRoundTripper draws a tunnel, and goes on with it; a request over a tunnel ends; Close marks the
-- transport, and drains a tunnel.
pub data Event : Type 0 where
  begins submits ends : Event
  works : Bool → Event
  probed : ℕ → Response → ℕ → Event
  draws : Event
  tries : Bool → ℕ → Event
  trips : ℕ → Response → ℕ → Event
  closes drains : Event

abbrev pub full : World → Bool
full w = leb max_working_tunnels (length w.transport.tun_chan)

unfoldable pub remove_one : ℕ → List ℕ → List ℕ
remove_one id [] = []
remove_one id (j ∷ ids) = let rest = remove_one id ids in if j == id then ids else j ∷ rest

abbrev pub holds : ℕ → List ℕ → Bool
holds id [] = false
holds id (j ∷ ids) = let rest = holds id ids in if j == id then true else rest

-- The start of tryAllDNSTunnels, which is left at once where another runs, where there is nothing to
-- probe, and where there are enough tunnels.
unfoldable pub begin_cycle : ℕ → World → World
begin_cycle configs w =
    if w.transport.probing || (configs == 0 || full w)
    then w
    else record w { transport = record w.transport { probing = true }; cycles = 0 ∷ w.cycles }

-- A round of its loop, where `i` have been submitted.
abbrev pub submit : ℕ → World → List ℕ → World
submit configs w [] = w
submit configs w (i ∷ is) =
    if leb configs i || full w
    then w
    else (let cfg = (w.transport.probe_cursor + i) % configs in
        record w {
          submitted = w.submitted ++ cfg ∷ [];
          tested = w.tested ++ cfg ∷ [];
          cycles = suc i ∷ is;
        })

-- The end of its loop: the cursor moves on, and the flag is cleared.
abbrev pub end_cycle : ℕ → World → List ℕ → World
end_cycle configs w [] = w
end_cycle configs w (i ∷ is) =
    if leb configs i || full w
    then record w {
      transport = record w.transport {
        probe_cursor = (w.transport.probe_cursor + i) % configs;
        probing = false;
      };
      cycles = is;
    }
    else w

-- The start of a worker up to its new tunnel, if newDNSTT makes one.
abbrev pub start_worker : Bool → World → List ℕ → World
start_worker made w [] = w
start_worker made w (cfg ∷ cfgs) =
    if (w.closed || full w) || not made
    then record w { submitted = cfgs }
    else record w { submitted = cfgs; opened = suc w.opened; probes = w.opened ∷ w.probes }

-- The rest of a worker, by what its request comes to.
abbrev pub end_worker : ℕ → Response → ℕ → World → Bool → World
end_worker now r id w false = w
end_worker now r id w true = record w {
  transport = end_probe now r id w.transport;
  probes = remove_one id w.probes;
}

abbrev pub draw_tunnel : World → List ℕ → World
draw_tunnel w [] = w
draw_tunnel w (id ∷ ids) = record w {
  transport = record w.transport { tun_chan = ids };
  drawn = id ∷ w.drawn;
}

-- The rest of a round of NewRoundTripper. A tunnel that gives no round tripper, and one for which
-- there is no room, are let go unclosed.
abbrev pub put_back : ℕ → World → Transport × Bool → World
put_back id w r =
    if r.1
    then record w { transport = r.0; drawn = remove_one id w.drawn }
    else record w { transport = r.0; drawn = remove_one id w.drawn; lost = id ∷ w.lost }

abbrev pub try_drawn : Bool → ℕ → World → Bool → World
try_drawn gives id w false = w
try_drawn gives id w true =
    if not (is_succeeding (w.transport.tunnels id))
    then record w { transport = close_tunnel id w.transport; drawn = remove_one id w.drawn }
    else (if gives
        then put_back id w (offer id w.transport)
        else record w { drawn = remove_one id w.drawn; lost = id ∷ w.lost })

-- Close marks the transport; it then takes what is in the channel, one after the other, until it
-- finds it empty.
unfoldable pub mark_closed : World → World
mark_closed w = record w { closed = true; transport = record w.transport { stopped = true } }

abbrev pub drain : World → List ℕ → World
drain w [] = w
drain w (id ∷ ids) = record w {
  transport = close_tunnel id (record w.transport { tun_chan = ids });
}

unfoldable pub step : ℕ → World → Event → World
step configs w begins = begin_cycle configs w
step configs w submits = submit configs w w.cycles
step configs w ends = end_cycle configs w w.cycles
step configs w (works made) = start_worker made w w.submitted
step configs w (probed now r id) = end_worker now r id w (holds id w.probes)
step configs w draws = draw_tunnel w w.transport.tun_chan
step configs w (tries gives id) = try_drawn gives id w (holds id w.drawn)
step configs w (trips now r id) = record w {
  transport = set_tunnel id (round_trip now r (w.transport.tunnels id)) w.transport;
}
step configs w closes = mark_closed w
step configs w drains = drain w w.transport.tun_chan

unfoldable pub run : ℕ → World → List Event → World
run configs w [] = w
run configs w (e ∷ es) = run configs (step configs w e) es

abbrev pub fresh : World
fresh = record {
  transport = record {
    tunnels = λ id. record { last_succeeded = 0; consecutive_failures = 0 };
    tun_chan = [];
    stopped = false;
    probe_ch = false;
    probing = false;
    probe_cursor = 0;
    closes = [];
  };
  closed = false;
  opened = 0;
  cycles = [];
  submitted = [];
  tested = [];
  probes = [];
  drawn = [];
  lost = [];
}
