-- ===== src/Kindling/Tunnels.antt =====
-- The pool of working DNS tunnels of kindling/dnstt/parser.go. A tunnel is an id, which stands for the
-- pointer, its health a function of the id; a channel is the list of what it holds. Where goroutines
-- run side by side, each step here is one atomic part. Time is a number, 0 the zero time.
pub mod Health
pub mod Calls
pub mod Pool
pub mod Places
pub mod Cursor
use radiance.Common.{
  ℕ, zero, suc, ◌+◌, ◌%◌, ◌≡◌, Bool, true, false, Option, none, some, List, [], ◌∷◌, ◌++◌, ◌&&◌,
  ◌||◌, not, if◌then◌else◌, ◌==◌, length, ltb, leb,
}

abbrev pub max_working_tunnels : ℕ
max_working_tunnels = 5

abbrev pub max_tunnel_failures : ℕ
max_tunnel_failures = 5

pub record DnsTunnel : Type 0 where
  pub last_succeeded : ℕ
  pub consecutive_failures : ℕ

unfoldable pub mark_succeeded : ℕ → DnsTunnel → DnsTunnel
mark_succeeded now t = record { last_succeeded = now; consecutive_failures = 0 }

unfoldable pub record_failure : DnsTunnel → DnsTunnel
record_failure t =
    let n = t.consecutive_failures + 1 in
    record {
      last_succeeded = if leb max_tunnel_failures n then 0 else t.last_succeeded;
      consecutive_failures = n;
    }

unfoldable pub is_succeeding : DnsTunnel → Bool
is_succeeding t = ltb 0 t.last_succeeded && ltb t.consecutive_failures max_tunnel_failures

-- What a request over a round tripper comes to: an error, or a response with its status.
pub data Response : Type 0 where
  failed : Response
  status : ℕ → Response

unfoldable pub is_gateway_error : ℕ → Bool
is_gateway_error code = code == 502 || (code == 503 || code == 504)

-- RoundTrip, in what it does to its tunnel.
unfoldable pub round_trip : ℕ → Response → DnsTunnel → DnsTunnel
round_trip now failed t = record_failure t
round_trip now (status code) t =
    if is_gateway_error code then record_failure t else mark_succeeded now t

pub record Transport : Type 0 where
  pub tunnels : ℕ → DnsTunnel
  pub tun_chan : List ℕ
  pub stopped : Bool
  pub probe_ch : Bool
  pub probing : Bool
  pub probe_cursor : ℕ
  pub closes : List ℕ

-- tun.Close, which the transport calls; the list has the calls, the latest first.
unfoldable pub close_tunnel : ℕ → Transport → Transport
close_tunnel id m = record m { closes = id ∷ m.closes }

-- A send on tunChan that does not wait: what comes of it, and whether there was room.
unfoldable pub offer : ℕ → Transport → Transport × Bool
offer id m =
    if ltb (length m.tun_chan) max_working_tunnels
    then (record m { tun_chan = m.tun_chan ++ id ∷ [] }, true)
    else (m, false)

unfoldable pub set_tunnel : ℕ → DnsTunnel → Transport → Transport
set_tunnel id t m = record m { tunnels = λ j. if j == id then t else m.tunnels j }

-- The end of a probe of a new tunnel, by the response; the probe that finds no response closes it.
abbrev pub keep_or_close : ℕ → Transport × Bool → Transport
keep_or_close id r = if r.1 then r.0 else close_tunnel id r.0

unfoldable pub end_probe : ℕ → Response → ℕ → Transport → Transport
end_probe now failed id m = close_tunnel id m
end_probe now (status code) id m =
    if ltb code 200 || leb 300 code
    then close_tunnel id m
    else keep_or_close id (offer id (set_tunnel id (mark_succeeded now (m.tunnels id)) m))

-- NewRoundTripper once it has drawn a tunnel: whether the tunnel gives a round tripper is the
-- argument. The answer is none where the loop goes on.
unfoldable pub try_tunnel : Bool → ℕ → Transport → Transport × Option ℕ
try_tunnel gives id m =
    if not (is_succeeding (m.tunnels id))
    then (close_tunnel id m, none)
    else (if gives then ((offer id m).0, some id) else (m, none))

-- What the select of NewRoundTripper takes, round by round: the context is done, stopChan is closed,
-- or a tunnel is drawn, which gives a round tripper or not.
pub data Pick : Type 0 where
  context_done : Pick
  told_to_stop : Pick
  draws : Bool → Pick

pub data Answer : Type 0 where
  gave : ℕ → Answer
  cancelled stopped_already no_working waits : Answer

-- NewRoundTripper with so many rounds left, while no other goroutine acts. The select waits where it
-- has nothing to take, since it has no default case.
abbrev pub answer_or : (Transport → Transport × Answer) → Transport × Option ℕ → Transport × Answer
answer_or continue r = elim r.1 [ some id ↦ (r.0, gave id) | none ↦ continue r.0 ]

abbrev pub draw : (Transport → Transport × Answer) → Bool → List ℕ → Transport → Transport × Answer
draw continue gives [] m = (m, waits)
draw continue gives (id ∷ ids) m =
    answer_or continue (try_tunnel gives id (record m { tun_chan = ids }))

unfoldable pub new_round_tripper : ℕ → List Pick → Transport → Transport × Answer
new_round_tripper zero picks m = (record m { probe_ch = true }, no_working)
new_round_tripper (suc n) [] m = (m, waits)
new_round_tripper (suc n) (context_done ∷ picks) m = (m, cancelled)
new_round_tripper (suc n) (told_to_stop ∷ picks) m =
    (m, if m.stopped then stopped_already else waits)
new_round_tripper (suc n) (draws gives ∷ picks) m =
    draw (new_round_tripper n picks) gives m.tun_chan m
