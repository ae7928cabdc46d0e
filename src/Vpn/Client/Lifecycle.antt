-- ===== src/Vpn/Client/Lifecycle.antt =====
-- What Connect and Disconnect of vpn/vpn.go leave behind.
use radiance.Common.{
  Bool-cases, ◌≡◌, refl, arith, ◌⊎◌, inl, inr, Bool, true, false, List, [], ◌∷◌, ◌≢◌, if◌then◌else◌,
  ◌&&◌, ◌+◌,
}
use radiance.Vpn.Status.{
  VpnStatus, connecting, connected, disconnecting, disconnected, error_status,
}
use radiance.Vpn.Client.{
  Client, Outcome, succeeded, already_connected, set_status, start, close, build_and_start, connect,
  disconnect, Call, connects, disconnects, call, calls,
}

-- Between calls: a client with a tunnel is connected or in error, one without is disconnected or in
-- error.
abbrev pub status_fits : Bool → VpnStatus → Bool
status_fits true connected = true
status_fits true error_status = true
status_fits false disconnected = true
status_fits false error_status = true
status_fits _ _ = false

pub record Settled (c : Client) : Type 0 where
  pub fits : status_fits c.has_tunnel c.status ≡ true

settle :
    (c : Client) (t : Bool) (s : VpnStatus)
    → c.has_tunnel ≡ t
    → c.status ≡ s
    → status_fits t s ≡ true
    → Settled c
settle c t s e f h = record { fits = rw (e, f) h }

connect-Settled : (c : Client) (o : Outcome) → Settled c → Settled (connect c o).0
unfolding connect build_and_start start set_status
connect-Settled c o w = ground arith

disconnect-Settled : (c : Client) (o : Outcome) → Settled c → Settled (disconnect c o).0
unfolding disconnect close set_status
disconnect-Settled c o w = ground arith

-- Connect, between calls: over a live tunnel it changes nothing; otherwise it emits nothing when the
-- options cannot be built, and Connecting and then Connected, with a tunnel, or Error, without one,
-- as the tunnel starts or not.
pub connect_lem :
    (c : Client) (o : Outcome)
    → Settled c
    → ((connect c o ≡ (c, already_connected)) × (c.has_tunnel ≡ true) × (c.status ≡ connected))
      ⊎ (((connect c o).0.has_tunnel ≡ false)
          × ((connect c o).0.emitted ≡ c.emitted)
          × ((connect c o).1 ≢ succeeded))
      ⊎ ((o.builds ≡ true)
          × (o.marshals ≡ true)
          × ((connect c o).0.has_tunnel ≡ o.starts)
          × ((connect c o).0.status ≡ (if o.starts then connected else error_status))
          × ((connect c o).0.emitted ≡ (connect c o).0.status ∷ connecting ∷ c.emitted))
unfolding connect build_and_start start set_status
connect_lem c o w = ground arith

disconnect-none :
    (c : Client) (o : Outcome) → c.has_tunnel ≡ false → disconnect c o ≡ (c, succeeded)
unfolding disconnect
disconnect-none c o h = rw h refl

drops : (c : Client) (o : Outcome) → (disconnect c o).0.has_tunnel ≡ false
unfolding disconnect close set_status
drops c o = ground arith

twice :
    (c : Client) (o o2 : Outcome)
    → disconnect (disconnect c o).0 o2 ≡ ((disconnect c o).0, succeeded)
twice c o o2 = disconnect-none (disconnect c o).0 o2 (drops c o)

disconnect-effects :
    (c : Client) (o : Outcome)
    → Settled c
    → c.has_tunnel ≡ true
    → ((disconnect c o).0.emitted ≡ (disconnect c o).0.status ∷ disconnecting ∷ c.emitted)
      × ((disconnect c o).0.status ≡ (if o.closes then disconnected else error_status))
      × ((disconnect c o).0.post_closes
          ≡ (if o.closes && c.has_platform then c.post_closes + 1 else c.post_closes))
unfolding disconnect close set_status
disconnect-effects c o w h = ground arith

-- Disconnect, between calls: without a tunnel it changes nothing; with one it always drops the
-- tunnel, emits Disconnecting and then Disconnected, or Error when the close fails, and tells the
-- platform after a close that succeeds. A second Disconnect changes nothing.
pub disconnect_lem :
    (c : Client) (o o2 : Outcome)
    → Settled c
    → ((disconnect c o).0.has_tunnel ≡ false)
      × (disconnect (disconnect c o).0 o2 ≡ ((disconnect c o).0, succeeded))
      × (((c.has_tunnel ≡ false) × (disconnect c o ≡ (c, succeeded)))
          ⊎ ((c.has_tunnel ≡ true)
              × ((disconnect c o).0.emitted ≡ (disconnect c o).0.status ∷ disconnecting ∷ c.emitted)
              × ((disconnect c o).0.status ≡ (if o.closes then disconnected else error_status))
              × ((disconnect c o).0.post_closes
                  ≡ (if o.closes && c.has_platform then c.post_closes + 1 else c.post_closes))))
disconnect_lem c o o2 w = (
  drops c o,
  twice c o o2,
  elim (Bool-cases c.has_tunnel) [
    | inl h ↦ let (e1, e2, e3) = disconnect-effects c o w h in inr (h, e1, e2, e3)
    | inr h ↦ inl (h, disconnect-none c o h)
  ],
)

call-Settled : (c : Client) (k : Call) → Settled c → Settled (call c k)
call-Settled c (connects o) w = connect-Settled c o w
call-Settled c (disconnects o) w = disconnect-Settled c o w

-- After any sequence of Connects and Disconnects, whatever the tunnel answers, a client that was
-- connected or in error where it had a tunnel, and disconnected or in error where it had none, is so
-- again: none of Connecting, Disconnecting and Restarting outlasts a call.
pub calls-Settled : (c : Client) (ks : List Call) → Settled c → Settled (calls c ks)
calls-Settled c [] w = w
calls-Settled c (k ∷ ks) w = calls-Settled (call c k) ks (call-Settled c k w)
