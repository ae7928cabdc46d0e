-- ===== src/Vpn/Outbounds/Bounds.antt =====
-- The match bounds of the client context tracker around addOutbounds of vpn/tunnel.go.
use radiance.Common.{
  ℕ, ◌+◌, ◌≡◌, ◌⊎◌, inl, inr, refl, ap, ◌∙◌, arith, Bool, true, false, not, ◌&&◌, ◌||◌, some, List,
  [], ◌∷◌, ◌++◌, if◌then◌else◌, keep, keep_kept, keep_dropped, keep_nil, String, Bool-cases,
}
use text.Mathlib.TextEquality.{eq_iff}
use radiance.Common.Dict.{lookup}
use radiance.Servers.Server.{Proxy, outbounds, endpoints}
use radiance.Vpn.Outbounds.{
  Answer, fine, refused, libbox_closed, Kind, as_outbound, as_endpoint, Groups, Json, Tunnel,
  ServerList, Result, errors, closed, context_done, no_group, listed, is_nil, is_some, keep_tags,
  merge_tags, merge_bounds, drop_unloaded, lantern_tags, remove_duplicates, one_more, join_auto,
  load_proxy, after_load, load_all, after_overrides, apply_overrides, after_endpoints,
  after_outbounds, add_new, add_outbounds,
}

pub listed-keep_lem :
    (p : String → Bool) (tag : String) (xs : List String)
    → listed tag (keep p xs) ≡ (p tag && listed tag xs)
listed-keep_lem p tag [] = rw (keep_nil p) (ground arith)
listed-keep_lem p tag (x ∷ xs) = elim (Bool-cases (p x)) [
  | inl t ↦ rw (keep_kept p x xs t) (ground (arith, eq_iff x tag, listed-keep_lem p tag xs, t))
  | inr t ↦ rw (keep_dropped p x xs t) (listed-keep_lem p tag xs ∙ ground (arith, eq_iff x tag, t))
]

listed-append :
    (tag : String) (xs ys : List String) → listed tag (xs ++ ys) ≡ (listed tag xs || listed tag ys)
listed-append tag [] ys = refl
listed-append tag (x ∷ xs) ys = ground (arith, listed-append tag xs ys)

module _ {G B J : Type 0} (mgr : Groups G B) (json : Json B J) where
  join_auto-bounds :
      (t : Tunnel G J) (tag : String) (made : G × Answer)
      → (join_auto mgr json t tag made).0.bounds ≡ t.bounds
  join_auto-bounds t tag (g, fine) = refl
  join_auto-bounds t tag (g, refused) = refl
  join_auto-bounds t tag (g, libbox_closed) = refl

  one_more-bounds : (x : Tunnel G J × Result) → (one_more x).0.bounds ≡ x.0.bounds
  one_more-bounds (t, errors n) = refl
  one_more-bounds (t, closed) = refl
  one_more-bounds (t, context_done) = refl
  one_more-bounds (t, no_group) = refl

  after_load-bounds :
      (kind : Kind) (p : Proxy B) (rest : Tunnel G J → Tunnel G J × Result)
      (loaded : Tunnel G J × Answer)
      → ((t : Tunnel G J) → (rest t).0.bounds ≡ t.bounds)
      → (after_load mgr json kind p rest loaded).0.bounds ≡ loaded.0.bounds
  after_load-bounds kind p rest (t, fine) k = k (record t { opts_map = _ })
  after_load-bounds kind p rest (t, refused) k = one_more-bounds (rest t) ∙ k t
  after_load-bounds kind p rest (t, libbox_closed) k = refl

  load_all-bounds :
      (kind : Kind) (ps : List (Proxy B)) (t : Tunnel G J)
      → (load_all mgr json kind ps t).0.bounds ≡ t.bounds
  unfolding load_all load_proxy
  load_all-bounds kind [] t = refl
  load_all-bounds kind (p ∷ ps) t =
      after_load-bounds kind p (load_all mgr json kind ps) (load_proxy mgr json t kind p)
        (load_all-bounds kind ps)
      ∙ join_auto-bounds t p.tag (mgr.create_for_group t.groups kind p)

  after_overrides-bounds :
      (t : Tunnel G J) (overrides : List (String × String)) (set : G × Bool)
      → (after_overrides mgr json t overrides set).bounds ≡ t.bounds
  after_overrides-bounds t overrides (g, false) = refl
  after_overrides-bounds t [] (g, true) = refl
  after_overrides-bounds t (o ∷ overrides) (g, true) = refl

  -- Of the tags `old` and `new`, those of `old` that are not new are there, and those of `new` that
  -- are loaded.
  abbrev pub Settled : List String → List String → String → Tunnel G J × Result → Type 0
  Settled old new tag x =
      (x.1 ≡ closed)
      ⊎ ((now : List String) × (x.0.bounds ≡ some now)
          × (listed tag now
              ≡ (if listed tag new then is_some (lookup tag x.0.opts_map) else listed tag old)))

  drop_unloaded-Settled :
      (t : Tunnel G J) (old new : List String) (tag : String) (r : Result)
      → t.bounds ≡ some (old ++ new)
      → Settled old new tag (drop_unloaded t new, r)
  unfolding drop_unloaded
  drop_unloaded-Settled t old new tag r e =
      let p : String → Bool = λ s. not (listed s new && not (is_some (lookup s t.opts_map))) in
      inr (
        keep p (old ++ new),
        ap (keep_tags p) e,
        listed-keep_lem p tag (old ++ new) ∙ ground (arith, listed-append tag old new),
      )

  -- The loops end with a count of errors, or because libbox is closed.
  abbrev LoopResult : Result → Type 0
  LoopResult (errors n) = Unit
  LoopResult closed = Unit
  LoopResult context_done = ⊥
  LoopResult no_group = ⊥

  one_more-LoopResult : (x : Tunnel G J × Result) → LoopResult x.1 → LoopResult (one_more x).1
  one_more-LoopResult (t, errors n) l = tt
  one_more-LoopResult (t, closed) l = tt
  one_more-LoopResult (t, context_done) l = l
  one_more-LoopResult (t, no_group) l = l

  after_load-LoopResult :
      (kind : Kind) (p : Proxy B) (rest : Tunnel G J → Tunnel G J × Result)
      (loaded : Tunnel G J × Answer)
      → ((t : Tunnel G J) → LoopResult (rest t).1)
      → LoopResult (after_load mgr json kind p rest loaded).1
  after_load-LoopResult kind p rest (t, fine) k = k (record t { opts_map = _ })
  after_load-LoopResult kind p rest (t, refused) k = one_more-LoopResult (rest t) (k t)
  after_load-LoopResult kind p rest (t, libbox_closed) k = tt

  load_all-LoopResult :
      (kind : Kind) (ps : List (Proxy B)) (t : Tunnel G J)
      → LoopResult (load_all mgr json kind ps t).1
  unfolding load_all
  load_all-LoopResult kind [] t = tt
  load_all-LoopResult kind (p ∷ ps) t =
      after_load-LoopResult kind p (load_all mgr json kind ps) (load_proxy mgr json t kind p)
        (load_all-LoopResult kind ps)

  after_endpoints-Settled :
      (old new : List String) (overrides : List (String × String)) (n : ℕ) (tag : String)
      (x : Tunnel G J × Result)
      → LoopResult x.1
      → x.0.bounds ≡ some (old ++ new)
      → Settled old new tag (after_endpoints mgr json new overrides n x)
  unfolding apply_overrides
  after_endpoints-Settled old new overrides n tag (t, errors m) l e =
      drop_unloaded-Settled (apply_overrides mgr json t overrides) old new tag (errors (n + m))
        (after_overrides-bounds t overrides (mgr.set_url_overrides t.groups overrides) ∙ e)
  after_endpoints-Settled old new overrides n tag (t, closed) l e = inl refl
  after_endpoints-Settled old new overrides n tag (t, context_done) l e = absurd l
  after_endpoints-Settled old new overrides n tag (t, no_group) l e = absurd l

  after_outbounds-Settled :
      (old new : List String) (eps : List (Proxy B)) (overrides : List (String × String))
      (ctx_done : Bool) (tag : String) (x : Tunnel G J × Result)
      → LoopResult x.1
      → x.0.bounds ≡ some (old ++ new)
      → Settled old new tag (after_outbounds mgr json new eps overrides ctx_done x)
  after_outbounds-Settled old new eps overrides true tag (t, errors n) l e =
      drop_unloaded-Settled t old new tag context_done e
  after_outbounds-Settled old new eps overrides false tag (t, errors n) l e =
      after_endpoints-Settled old new overrides n tag (load_all mgr json as_endpoint eps t)
        (load_all-LoopResult as_endpoint eps t) (load_all-bounds as_endpoint eps t ∙ e)
  after_outbounds-Settled old new eps overrides ctx_done tag (t, closed) l e = inl refl
  after_outbounds-Settled old new eps overrides ctx_done tag (t, context_done) l e = absurd l
  after_outbounds-Settled old new eps overrides ctx_done tag (t, no_group) l e = absurd l

  -- However the loading of servers goes, if libbox is not found closed, then after addOutbounds of
  -- some outbound or endpoint a Lantern tag that is new, its server not being a duplicate, is in the
  -- match bounds exactly if it is loaded, and every other tag exactly if it was there before.
  pub add_outbounds-Settled :
      {L H : Type 0} (t : Tunnel G J) (list : ServerList B L H) (ctx_done : Bool)
      (old : List String) (tag : String)
      → t.bounds ≡ some old
      → (is_nil (outbounds list.servers) && is_nil (endpoints list.servers)) ≡ false
      → Settled old
          (lantern_tags (remove_duplicates json t.opts_map list.servers))
          tag
          (add_outbounds mgr json t list ctx_done)
  unfolding add_outbounds add_new merge_bounds
  add_outbounds-Settled t list ctx_done old tag e some_new =
      let new = remove_duplicates json t.opts_map list.servers in
      let t1 = merge_bounds t (lantern_tags new) in
      rw some_new (
        after_outbounds-Settled old (lantern_tags new) (endpoints new) list.url_overrides ctx_done
          tag (load_all mgr json as_outbound (outbounds new) t1)
          (load_all-LoopResult as_outbound (outbounds new) t1)
          (load_all-bounds as_outbound (outbounds new) t1 ∙ ap (merge_tags (lantern_tags new)) e))
