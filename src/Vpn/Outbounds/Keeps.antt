-- ===== src/Vpn/Outbounds/Keeps.antt =====
-- Which outbounds survive an update in vpn/tunnel.go.
use radiance.Common.{
  ℕ, ◌≡◌, ◌⊎◌, inl, inr, refl, ◌∙◌, arith, Bool, true, false, not, ◌&&◌, List, [], ◌∷◌,
  if◌then◌else◌, any_of, keep, String, Bool-cases,
}
use text.Mathlib.Text.{◌==◌ as str_eq}
use text.Mathlib.TextEquality.{eq_iff}
use radiance.Vpn.Outbounds.Bounds.{listed-keep_lem}
use radiance.Servers.Server.{Proxy, tags, outbounds, endpoints}
use radiance.Vpn.Outbounds.{
  Answer, fine, refused, libbox_closed, Group, manual, automatic, Kind, as_outbound, as_endpoint,
  Groups, Json, Tunnel, ServerList, Result, errors, closed, context_done, no_group, listed, is_nil,
  merge_bounds, drop_unloaded, drop_removed, lantern_tags, remove_duplicates, one_more, join_auto,
  load_proxy, after_load, load_all, after_overrides, apply_overrides, after_endpoints,
  after_outbounds, add_new, add_outbounds, leave_auto, unload, after_unload, unload_all,
  remove_outbounds, after_add, to_remove, update_outbounds,
}

-- What a filter rejects is not in what it keeps.
listed-keep :
    (p : String → Bool) (tag : String) (xs : List String)
    → p tag ≡ false
    → listed tag (keep p xs) ≡ false
listed-keep p tag xs h = listed-keep_lem p tag xs ∙ rw h refl

module _ {G B J : Type 0} (mgr : Groups G B) (json : Json B J) where
  -- A tag that the selector has.
  abbrev pub Has : G → String → Type 0
  Has g tag = listed tag (mgr.all g) ≡ true

  -- The group manager takes no tag from the selector but the one that it is told to.
  pub record Lawful : Type 0 where
    pub created :
        (g : G) (kind : Kind) (p : Proxy B) (tag : String)
        → Has g tag
        → Has (mgr.create_for_group g kind p).0 tag
    pub joined : (g : G) (other tag : String) → Has g tag → Has (mgr.add_to_group g other).0 tag
    pub left :
        (g : G) (group : Group) (other tag : String)
        → str_eq other tag ≡ false
        → Has g tag
        → Has (mgr.remove_from_group g group other).0 tag
    pub overridden :
        (g : G) (overrides : List (String × String)) (tag : String)
        → Has g tag
        → Has (mgr.set_url_overrides g overrides).0 tag
    pub checked : (g : G) (tag : String) → Has g tag → Has (mgr.check_outbounds g) tag

  module _ (laws : Lawful) (tag : String) where
    join_auto-Has :
        (t : Tunnel G J) (other : String) (made : G × Answer)
        → Has made.0 tag
        → Has (join_auto mgr json t other made).0.groups tag
    join_auto-Has t other (g, fine) h = laws.joined g other tag h
    join_auto-Has t other (g, refused) h = h
    join_auto-Has t other (g, libbox_closed) h = h

    one_more-Has : (x : Tunnel G J × Result) → Has x.0.groups tag → Has (one_more x).0.groups tag
    one_more-Has (t, errors n) h = h
    one_more-Has (t, closed) h = h
    one_more-Has (t, context_done) h = h
    one_more-Has (t, no_group) h = h

    after_load-Has :
        (kind : Kind) (p : Proxy B) (rest : Tunnel G J → Tunnel G J × Result)
        (loaded : Tunnel G J × Answer)
        → ((t : Tunnel G J) → Has t.groups tag → Has (rest t).0.groups tag)
        → Has loaded.0.groups tag
        → Has (after_load mgr json kind p rest loaded).0.groups tag
    after_load-Has kind p rest (t, fine) k h = k (record t { opts_map = _ }) h
    after_load-Has kind p rest (t, refused) k h = one_more-Has (rest t) (k t h)
    after_load-Has kind p rest (t, libbox_closed) k h = h

    load_all-Has :
        (kind : Kind) (ps : List (Proxy B)) (t : Tunnel G J)
        → Has t.groups tag
        → Has (load_all mgr json kind ps t).0.groups tag
    unfolding load_all load_proxy
    load_all-Has kind [] t h = h
    load_all-Has kind (p ∷ ps) t h =
        after_load-Has kind p (load_all mgr json kind ps) (load_proxy mgr json t kind p)
          (load_all-Has kind ps)
          (join_auto-Has t p.tag (mgr.create_for_group t.groups kind p)
            (laws.created t.groups kind p tag h))

    after_overrides-Has :
        (t : Tunnel G J) (overrides : List (String × String)) (set : G × Bool)
        → Has set.0 tag
        → Has (after_overrides mgr json t overrides set).groups tag
    after_overrides-Has t overrides (g, false) h = h
    after_overrides-Has t [] (g, true) h = h
    after_overrides-Has t (o ∷ overrides) (g, true) h = laws.checked g tag h

    after_endpoints-Has :
        (new : List String) (overrides : List (String × String)) (n : ℕ) (x : Tunnel G J × Result)
        → Has x.0.groups tag
        → Has (after_endpoints mgr json new overrides n x).0.groups tag
    unfolding drop_unloaded apply_overrides
    after_endpoints-Has new overrides n (t, errors m) h =
        after_overrides-Has t overrides (mgr.set_url_overrides t.groups overrides)
          (laws.overridden t.groups overrides tag h)
    after_endpoints-Has new overrides n (t, closed) h = h
    after_endpoints-Has new overrides n (t, context_done) h = h
    after_endpoints-Has new overrides n (t, no_group) h = h

    after_outbounds-Has :
        (new : List String) (eps : List (Proxy B)) (overrides : List (String × String))
        (ctx_done : Bool) (x : Tunnel G J × Result)
        → Has x.0.groups tag
        → Has (after_outbounds mgr json new eps overrides ctx_done x).0.groups tag
    unfolding drop_unloaded
    after_outbounds-Has new eps overrides true (t, errors n) h = h
    after_outbounds-Has new eps overrides false (t, errors n) h =
        after_endpoints-Has new overrides n (load_all mgr json as_endpoint eps t)
          (load_all-Has as_endpoint eps t h)
    after_outbounds-Has new eps overrides ctx_done (t, closed) h = h
    after_outbounds-Has new eps overrides ctx_done (t, context_done) h = h
    after_outbounds-Has new eps overrides ctx_done (t, no_group) h = h

    add_outbounds-Has :
        {L H : Type 0} (t : Tunnel G J) (list : ServerList B L H) (ctx_done : Bool)
        → Has t.groups tag
        → Has (add_outbounds mgr json t list ctx_done).0.groups tag
    unfolding add_outbounds add_new merge_bounds
    add_outbounds-Has t list ctx_done h =
        elim (Bool-cases (is_nil (outbounds list.servers) && is_nil (endpoints list.servers))) [
          | inl e ↦ rw e h
          | inr e ↦
              let new = remove_duplicates json t.opts_map list.servers in
              rw e (
                after_outbounds-Has (lantern_tags new) (endpoints new) list.url_overrides ctx_done
                  (load_all mgr json as_outbound (outbounds new)
                    (merge_bounds t (lantern_tags new)))
                  (load_all-Has as_outbound (outbounds new) (merge_bounds t (lantern_tags new)) h))
        ]

    leave_auto-Has :
        (other : String) (x : G × Answer)
        → str_eq other tag ≡ false
        → Has x.0 tag
        → Has (leave_auto mgr json other x).0 tag
    leave_auto-Has other (g, fine) n h = laws.left g automatic other tag n h
    leave_auto-Has other (g, refused) n h = h
    leave_auto-Has other (g, libbox_closed) n h = h

    drop_removed-Has :
        (t : Tunnel G J) (removed : List String)
        → Has t.groups tag
        → Has (drop_removed t removed).groups tag
    unfolding drop_removed
    drop_removed-Has t [] h = h
    drop_removed-Has t (r ∷ removed) h = h

    after_unload-Has :
        (t : Tunnel G J) (other : String) (removed : List String)
        (rest : Tunnel G J → List String → Tunnel G J × Result) (x : G × Answer)
        → ((t1 : Tunnel G J) (removed1 : List String)
            → Has t1.groups tag
            → Has (rest t1 removed1).0.groups tag)
        → Has x.0 tag
        → Has (after_unload mgr json t other removed rest x).0.groups tag
    after_unload-Has t other removed rest (g, fine) k h = k _ _ h
    after_unload-Has t other removed rest (g, refused) k h =
        one_more-Has (rest (record t { groups = g }) removed)
          (k (record t { groups = g }) removed h)
    after_unload-Has t other removed rest (g, libbox_closed) k h = h

    unload_all-Has :
        (others : List String) (t : Tunnel G J) (removed : List String)
        → listed tag others ≡ false
        → Has t.groups tag
        → Has (unload_all mgr json others t removed).0.groups tag
    unfolding unload_all unload
    unload_all-Has [] t removed n h = drop_removed-Has t removed h
    unload_all-Has (o ∷ others) t removed n h =
        let n1 : str_eq o tag ≡ false = ground arith in
        let n2 : listed tag others ≡ false = ground arith in
        elim (Bool-cases (mgr.is_mutable_group t.groups o)) [
          | inl e ↦ rw e (unload_all-Has others t removed n2 h)
          | inr e ↦ rw e (
              after_unload-Has t o removed (unload_all mgr json others) (unload mgr json t.groups o)
                (λ t1 removed1. unload_all-Has others t1 removed1 n2)
                (leave_auto-Has o (mgr.remove_from_group t.groups manual o) n1
                  (laws.left t.groups manual o tag n1 h)))
        ]

    after_add-Has :
        (new_tags gone : List String) (x : Tunnel G J × Result)
        → ((listed tag gone ≡ false)
            ⊎ (any_of (λ n. listed n (mgr.all x.0.groups)) new_tags ≡ false))
        → Has x.0.groups tag
        → Has (after_add mgr json new_tags gone x).0.groups tag
    unfolding remove_outbounds
    after_add-Has new_tags gone (t, closed) n h = h
    after_add-Has new_tags gone (t, no_group) n h = h
    after_add-Has new_tags gone (t, context_done) (inr n) h = rw n h
    after_add-Has new_tags gone (t, errors m) (inr n) h = rw n h
    after_add-Has new_tags gone (t, context_done) (inl n) h =
        elim (Bool-cases (any_of (λ n. listed n (mgr.all t.groups)) new_tags)) [
          | inl e ↦ rw e (unload_all-Has gone t [] n h)
          | inr e ↦ rw e h
        ]
    after_add-Has new_tags gone (t, errors m) (inl n) h =
        elim (Bool-cases (any_of (λ n. listed n (mgr.all t.groups)) new_tags)) [
          | inl e ↦ rw e (unload_all-Has gone t [] n h)
          | inr e ↦ rw e h
        ]

    to_remove-spares :
        (g : G) (manual_mode : Bool) (new_tags : List String)
        → ((listed tag new_tags ≡ true) ⊎ ((manual_mode ≡ true) × (mgr.now g ≡ tag)))
        → listed tag (to_remove mgr json g manual_mode new_tags) ≡ false
    unfolding to_remove
    to_remove-spares g manual_mode new_tags (inl l) =
        listed-keep
          (λ t. not (str_eq t (if manual_mode then mgr.now g else "")) && not (listed t new_tags))
          tag (mgr.all g) (ground arith)
    to_remove-spares g manual_mode new_tags (inr (m, e)) =
        listed-keep
          (λ t. not (str_eq t (if manual_mode then mgr.now g else "")) && not (listed t new_tags))
          tag (mgr.all g) (ground (arith, eq_iff tag (mgr.now g)))

  -- Where the group manager takes no tag from the selector but the one it is told to: a tag of the
  -- selector is still there after updateOutbounds, however loading and unloading go, if it is among
  -- the new tags, or it is the one selected in manual mode, or if after addOutbounds the selector
  -- has none of the new tags.
  pub update_outbounds-Has :
      {L H : Type 0} (t : Tunnel G J) (list : ServerList B L H)
      (manual_mode done_first done_then : Bool) (tag : String)
      → Lawful
      → Has t.groups tag
      → ((listed tag (tags list.servers) ≡ true)
          ⊎ ((manual_mode ≡ true) × (mgr.now t.groups ≡ tag)))
        ⊎ (any_of
              (λ n. listed n (mgr.all (add_outbounds mgr json t list done_then).0.groups))
              (tags list.servers)
            ≡ false)
      → Has (update_outbounds mgr json t list manual_mode done_first done_then).0.groups tag
  unfolding update_outbounds
  update_outbounds-Has t list manual_mode done_first done_then tag laws h why =
      elim (Bool-cases (
        is_nil (outbounds list.servers)
        && is_nil (endpoints list.servers)
        && is_nil list.url_overrides)) [
          | inl e ↦ rw e h
          | inr e ↦
              elim (Bool-cases
                (not (mgr.has_group t.groups manual && mgr.has_group t.groups automatic))) [
                  | inl g ↦ rw (e, g) h
                  | inr g ↦ elim (Bool-cases done_first) [
                    | inl d ↦ rw (e, g, d) h
                    | inr d ↦
                        rw (e, g, d)
                          (after_add-Has laws tag (tags list.servers)
                            (to_remove mgr json t.groups manual_mode (tags list.servers))
                            (add_outbounds mgr json t list done_then)
                            (elim why [
                              | inl w ↦ inl (
                                  to_remove-spares laws tag t.groups manual_mode (tags list.servers)
                                    w)
                              | inr w ↦ inr w
                            ])
                            (add_outbounds-Has laws tag t list done_then h))
                  ]
                ]
        ]
