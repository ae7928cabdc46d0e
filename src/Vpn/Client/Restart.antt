-- ===== src/Vpn/Client/Restart.antt =====
-- Restart of vpn/vpn.go, by the client itself and through the platform interface.
use radiance.Common.{
  ◌≡◌, refl, arith, ◌⊎◌, Bool, true, false, List, [], ◌∷◌, ◌||◌, ◌&&◌, if◌then◌else◌,
}
use radiance.Vpn.Status.{connected, restarting, error_status}
use radiance.Vpn.Client.{
  Client, Outcome, set_status, is_restarting, platform_failed, start, close, build_and_start,
  connect, disconnect, restart, direct_restart, platform_restart, Call, connects, disconnects, call,
  calls,
}
use radiance.Vpn.Client.Lifecycle.{Settled, status_fits}

direct_lem :
    (c : Client) (o : Outcome)
    → c.status ≡ restarting
    → c.has_platform ≡ false
    → let all = o.closes && o.builds && o.marshals && o.starts in
      let c1 = (direct_restart c o).0 in
      (c1.has_tunnel ≡ all)
      × (c1.status ≡ (if all then connected else error_status))
      × (c1.emitted ≡ c1.status ∷ c.emitted)
unfolding direct_restart close start set_status
direct_lem c o h p = ground arith

-- A restart that the client does itself emits Restarting and then one status: Connected, with a
-- tunnel, when the tunnel closes, the options are built and the tunnel starts; Error, without one,
-- whichever of these fails. No Disconnecting, Disconnected or Connecting is emitted.
pub restart-emitted :
    (c : Client) (o : Outcome) (ks : List Call) (ok : Bool)
    → c.has_tunnel ≡ true
    → c.status ≡ connected
    → c.has_platform ≡ false
    → let all = o.closes && o.builds && o.marshals && o.starts in
      let c1 = (restart c o ks ok).0 in
      (c1.has_tunnel ≡ all)
      × (c1.status ≡ (if all then connected else error_status))
      × (c1.emitted ≡ c1.status ∷ restarting ∷ c.emitted)
unfolding restart set_status
restart-emitted c o ks ok t s p =
    rw (t, s, p)
      (direct_lem
        (record {
          has_tunnel = true;
          has_platform = false;
          status = restarting;
          emitted = restarting ∷ c.emitted;
          post_closes = c.post_closes;
        })
        o refl refl)

-- During a restart through the platform: as between calls, or still restarting.
abbrev Midway : Client → Type 0
Midway c = (status_fits c.has_tunnel c.status || is_restarting c.status) ≡ true

call-Midway : (c : Client) (k : Call) → Midway c → Midway (call c k)
unfolding connect disconnect build_and_start start close set_status
call-Midway c (connects o) w = ground arith
call-Midway c (disconnects o) w = ground arith

calls-Midway : (c : Client) (ks : List Call) → Midway c → Midway (calls c ks)
calls-Midway c [] w = w
calls-Midway c (k ∷ ks) w = calls-Midway (call c k) ks (call-Midway c k w)

Midway-split : (c : Client) → Midway c → Settled c ⊎ (c.status ≡ restarting)
Midway-split c w = ground arith

error_last : (c : Client) → (set_status c error_status).status ≡ error_status
unfolding set_status
error_last c = ground arith

failed_lem :
    (c : Client) (o : Outcome) (ks : List Call)
    → c.has_tunnel ≡ true
    → c.status ≡ connected
    → c.has_platform ≡ true
    → ((restart c o ks false).0.status ≡ error_status)
      × ((restart c o ks false).1 ≡ platform_failed)
unfolding restart platform_restart set_status
failed_lem c o ks t s p =
    rw (t, s, p)
      (
        error_last (
            calls
              (record {
                has_tunnel = true;
                has_platform = true;
                status = restarting;
                emitted = restarting ∷ c.emitted;
                post_closes = c.post_closes;
              })
              ks),
        refl,
      )

-- A restart through the platform interface, whatever Connects and Disconnects reach the client
-- meanwhile: when RestartService fails the status is Error; when it returns without an error, the
-- client is as between calls or is still Restarting.
pub restart_platform-Settled :
    (c : Client) (o : Outcome) (ks : List Call)
    → c.has_tunnel ≡ true
    → c.status ≡ connected
    → c.has_platform ≡ true
    → (((restart c o ks false).0.status ≡ error_status)
        × ((restart c o ks false).1 ≡ platform_failed))
      × (Settled (restart c o ks true).0 ⊎ ((restart c o ks true).0.status ≡ restarting))
unfolding restart platform_restart set_status
restart_platform-Settled c o ks t s p =
    let c1 : Client = record {
      has_tunnel = true;
      has_platform = true;
      status = restarting;
      emitted = restarting ∷ c.emitted;
      post_closes = c.post_closes;
    } in
    (failed_lem c o ks t s p, rw (t, s, p) (Midway-split (calls c1 ks) (calls-Midway c1 ks refl)))

reconnect_lem :
    (c : Client) (o1 o2 : Outcome)
    → c.status ≡ restarting
    → c.has_tunnel ≡ true
    → o1.closes ≡ true
    → o2.builds ≡ true
    → o2.marshals ≡ true
    → o2.starts ≡ true
    → let c1 = calls c (disconnects o1 ∷ connects o2 ∷ []) in
      (c1.has_tunnel ≡ true) × (c1.status ≡ connected) × (c1.emitted ≡ connected ∷ c.emitted)
unfolding connect disconnect build_and_start start close set_status
reconnect_lem c o1 o2 s t h1 h2 h3 h4 = ground arith

-- When the platform restarts by a Disconnect and a Connect that both succeed, the client ends
-- connected, with a tunnel, and has emitted Restarting and Connected and nothing between.
pub restart_reconnected :
    (c : Client) (o o1 o2 : Outcome)
    → c.has_tunnel ≡ true
    → c.status ≡ connected
    → c.has_platform ≡ true
    → o1.closes ≡ true
    → o2.builds ≡ true
    → o2.marshals ≡ true
    → o2.starts ≡ true
    → let c1 = (restart c o (disconnects o1 ∷ connects o2 ∷ []) true).0 in
      (c1.has_tunnel ≡ true)
      × (c1.status ≡ connected)
      × (c1.emitted ≡ connected ∷ restarting ∷ c.emitted)
unfolding restart platform_restart set_status
restart_reconnected c o o1 o2 t s p h1 h2 h3 h4 =
    rw (t, s, p)
      (reconnect_lem
        (record {
          has_tunnel = true;
          has_platform = true;
          status = restarting;
          emitted = restarting ∷ c.emitted;
          post_closes = c.post_closes;
        })
        o1 o2 refl refl h1 h2 h3 h4)
