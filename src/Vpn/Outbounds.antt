-- ===== src/Vpn/Outbounds.antt =====
-- The outbounds of a running tunnel, vpn/tunnel.go. The group manager of lantern-box is an argument:
-- a state and the operations that the code calls. Its selector is the manual group. Log lines, spans
-- and the loggers that it is given are left out.
pub mod Keeps
pub mod Bounds
mod Tests
use radiance.Common.{
  ℕ, suc, ◌+◌, Bool, true, false, not, ◌&&◌, ◌||◌, Option, none, some, List, [], ◌∷◌, ◌++◌,
  if◌then◌else◌, any_of, keep, String,
}
use radiance.Common.Dict.{lookup, insert, delete}
use radiance.Servers.Server.{
  Proxy, Server, Options, outbound, endpoint, no_options, tags, outbounds, endpoints,
}
use text.Mathlib.Text.{◌==◌ as str_eq}

pub data Answer : Type 0 where
  fine refused libbox_closed : Answer

pub data Group : Type 0 where
  manual automatic : Group

pub data Kind : Type 0 where
  as_outbound as_endpoint : Kind

-- groups.MutableGroupManager as the code uses it. A tag may be that of a nested group.
pub record Groups (G B : Type 0) : Type 0 where
  pub has_group : G → Group → Bool
  pub all : G → List String
  pub now : G → String
  pub is_mutable_group : G → String → Bool
  pub create_for_group : G → Kind → Proxy B → G × Answer
  pub add_to_group : G → String → G × Answer
  pub remove_from_group : G → Group → String → G × Answer
  pub set_url_overrides : G → List (String × String) → G × Bool
  pub check_outbounds : G → G

-- The text of a proxy in JSON, which the options map keeps.
pub record Json (B J : Type 0) : Type 0 where
  pub marshal : Options B → J
  pub same : J → J → Bool

-- The match bounds are those of the client context tracker, if there is one.
pub record Tunnel (G J : Type 0) : Type 0 where
  pub groups : G
  pub opts_map : List (String × J)
  pub bounds : Option (List String)

pub record ServerList (B L H : Type 0) : Type 0 where
  pub servers : List (Server B L H)
  pub url_overrides : List (String × String)

abbrev pub listed : String → List String → Bool
listed tag tags = any_of (λ t. str_eq t tag) tags

abbrev pub is_nil : {A : Type 0} → List A → Bool
is_nil [] = true
is_nil (x ∷ xs) = false

abbrev pub is_some : {A : Type 0} → Option A → Bool
is_some none = false
is_some (some x) = true

abbrev pub has_options : {B J : Type 0} → Json B J → Option J → Options B → Bool
has_options json none opts = false
has_options json (some b) opts = json.same b (json.marshal opts)

unfoldable pub remove_duplicates :
    {B L H J : Type 0} → Json B J → List (String × J) → List (Server B L H) → List (Server B L H)
remove_duplicates json curr list =
    keep (λ s. not (has_options json (lookup s.tag curr) s.options)) list

unfoldable pub lantern_tags : {B L H : Type 0} → List (Server B L H) → List String
lantern_tags [] = []
lantern_tags (s ∷ list) =
    let rest = lantern_tags list in if s.is_lantern then s.tag ∷ rest else rest

abbrev pub merge_tags : List String → Option (List String) → Option (List String)
merge_tags new none = none
merge_tags new (some old) = some (old ++ new)

abbrev pub keep_tags : (String → Bool) → Option (List String) → Option (List String)
keep_tags p none = none
keep_tags p (some old) = some (keep p old)

module _ {G J : Type 0} where
  unfoldable pub merge_bounds : Tunnel G J → List String → Tunnel G J
  merge_bounds t new = record t { bounds = merge_tags new t.bounds }

  -- The deferred part of addOutbounds: the tags that were merged and are not loaded leave.
  unfoldable pub drop_unloaded : Tunnel G J → List String → Tunnel G J
  drop_unloaded t new = record t {
    bounds =
        keep_tags (λ tag. not (listed tag new && not (is_some (lookup tag t.opts_map)))) t.bounds;
  }

  unfoldable pub drop_removed : Tunnel G J → List String → Tunnel G J
  drop_removed t removed =
      if is_nil removed
      then t
      else record t { bounds = keep_tags (λ tag. not (listed tag removed)) t.bounds }

-- What the operations return: nil or the errors joined, the end of libbox, the end of the context,
-- or that a group is missing.
pub data Result : Type 0 where
  errors : ℕ → Result
  closed context_done no_group : Result

abbrev pub options_of_kind : {B : Type 0} → Kind → Proxy B → Options B
options_of_kind as_outbound p = outbound p
options_of_kind as_endpoint p = endpoint p

abbrev pub one_more : {T : Type 0} → T × Result → T × Result
one_more (t, errors n) = (t, errors (suc n))
one_more (t, r) = (t, r)

abbrev pub more_errors : ℕ → Result → Result
more_errors n (errors m) = errors (n + m)
more_errors n r = r

module _ {G B J : Type 0} (mgr : Groups G B) (json : Json B J) where
  -- A round of a loop of addOutbounds after CreateOutboundForGroup or CreateEndpointForGroup.
  abbrev pub join_auto : Tunnel G J → String → G × Answer → Tunnel G J × Answer
  join_auto t tag (g, fine) =
      (record t { groups = (mgr.add_to_group g tag).0 }, (mgr.add_to_group g tag).1)
  join_auto t tag (g, refused) = (record t { groups = g }, refused)
  join_auto t tag (g, libbox_closed) = (record t { groups = g }, libbox_closed)

  unfoldable pub load_proxy : Tunnel G J → Kind → Proxy B → Tunnel G J × Answer
  load_proxy t kind p = join_auto t p.tag (mgr.create_for_group t.groups kind p)

  abbrev pub after_load :
      Kind
      → Proxy B
      → (Tunnel G J → Tunnel G J × Result)
      → Tunnel G J × Answer
      → Tunnel G J × Result
  after_load kind p rest (t, fine) =
      rest (record t { opts_map = insert p.tag (json.marshal (options_of_kind kind p)) t.opts_map })
  after_load kind p rest (t, refused) = one_more (rest t)
  after_load kind p rest (t, libbox_closed) = (t, closed)

  unfoldable pub load_all : Kind → List (Proxy B) → Tunnel G J → Tunnel G J × Result
  load_all kind [] t = (t, errors 0)
  load_all kind (p ∷ ps) t = after_load kind p (load_all kind ps) (load_proxy t kind p)

  -- The URL overrides, and a probe at once where there are some.
  abbrev pub after_overrides : Tunnel G J → List (String × String) → G × Bool → Tunnel G J
  after_overrides t overrides (g, false) = record t { groups = g }
  after_overrides t [] (g, true) = record t { groups = g }
  after_overrides t (o ∷ overrides) (g, true) = record t { groups = mgr.check_outbounds g }

  unfoldable pub apply_overrides : Tunnel G J → List (String × String) → Tunnel G J
  apply_overrides t overrides =
      after_overrides t overrides (mgr.set_url_overrides t.groups overrides)

  -- addOutbounds from the end of a loop on; when libbox is closed the deferred part does nothing.
  abbrev pub after_endpoints :
      List String → List (String × String) → ℕ → Tunnel G J × Result → Tunnel G J × Result
  after_endpoints new overrides n (t, errors m) =
      (drop_unloaded (apply_overrides t overrides) new, errors (n + m))
  after_endpoints new overrides n (t, r) = (t, r)

  abbrev pub after_outbounds :
      List String
      → List (Proxy B)
      → List (String × String)
      → Bool
      → Tunnel G J × Result
      → Tunnel G J × Result
  after_outbounds new eps overrides ctx_done (t, errors n) =
      if ctx_done
      then (drop_unloaded t new, context_done)
      else after_endpoints new overrides n (load_all as_endpoint eps t)
  after_outbounds new eps overrides ctx_done (t, r) = (t, r)

  -- addOutbounds of servers that are not duplicates.
  unfoldable pub add_new :
      {L H : Type 0}
      → Tunnel G J
      → List (Server B L H)
      → List (String × String)
      → Bool
      → Tunnel G J × Result
  add_new t new overrides ctx_done =
      after_outbounds (lantern_tags new) (endpoints new) overrides ctx_done
        (load_all as_outbound (outbounds new) (merge_bounds t (lantern_tags new)))

  unfoldable pub add_outbounds :
      {L H : Type 0} → Tunnel G J → ServerList B L H → Bool → Tunnel G J × Result
  add_outbounds t list ctx_done =
      if is_nil (outbounds list.servers) && is_nil (endpoints list.servers)
      then (t, errors 0)
      else add_new t (remove_duplicates json t.opts_map list.servers) list.url_overrides ctx_done

  -- A round of the loop of removeOutbounds, by the answer of the manual group.
  abbrev pub leave_auto : String → G × Answer → G × Answer
  leave_auto tag (g, fine) = mgr.remove_from_group g automatic tag
  leave_auto tag (g, answer) = (g, answer)

  unfoldable pub unload : G → String → G × Answer
  unload g tag = leave_auto tag (mgr.remove_from_group g manual tag)

  abbrev pub after_unload :
      Tunnel G J
      → String
      → List String
      → (Tunnel G J → List String → Tunnel G J × Result)
      → G × Answer
      → Tunnel G J × Result
  after_unload t tag removed rest (g, fine) =
      rest (record t { groups = g; opts_map = delete tag t.opts_map }) (removed ++ tag ∷ [])
  after_unload t tag removed rest (g, refused) = one_more (rest (record t { groups = g }) removed)
  after_unload t tag removed rest (g, libbox_closed) = (record t { groups = g }, closed)

  unfoldable pub unload_all : List String → Tunnel G J → List String → Tunnel G J × Result
  unload_all [] t removed = (drop_removed t removed, errors 0)
  unload_all (tag ∷ tags) t removed =
      if mgr.is_mutable_group t.groups tag
      then unload_all tags t removed
      else after_unload t tag removed (unload_all tags) (unload t.groups tag)

  unfoldable pub remove_outbounds : Tunnel G J → List String → Tunnel G J × Result
  remove_outbounds t tags = unload_all tags t []

  -- updateOutbounds after addOutbounds, with the tags to remove.
  abbrev pub after_add : List String → List String → Tunnel G J × Result → Tunnel G J × Result
  after_add new_tags to_remove (t, closed) = (t, closed)
  after_add new_tags to_remove (t, errors n) =
      if any_of (λ tag. listed tag (mgr.all t.groups)) new_tags
      then ((remove_outbounds t to_remove).0, more_errors n (remove_outbounds t to_remove).1)
      else (t, errors n)
  after_add new_tags to_remove (t, context_done) =
      if any_of (λ tag. listed tag (mgr.all t.groups)) new_tags
      then ((remove_outbounds t to_remove).0, more_errors 1 (remove_outbounds t to_remove).1)
      else (t, errors 1)
  after_add new_tags to_remove (t, no_group) = (t, no_group)

  unfoldable pub to_remove : G → Bool → List String → List String
  to_remove g manual_mode new_tags =
      let pinned = if manual_mode then mgr.now g else "" in
      keep (λ tag. not (str_eq tag pinned) && not (listed tag new_tags)) (mgr.all g)

  -- The context may be done at the first look, or only at the one of addOutbounds.
  unfoldable pub update_outbounds :
      {L H : Type 0} → Tunnel G J → ServerList B L H → Bool → Bool → Bool → Tunnel G J × Result
  update_outbounds t list manual_mode done_first done_then =
      if is_nil (outbounds list.servers)
        && is_nil (endpoints list.servers)
        && is_nil list.url_overrides
      then (t, errors 0)
      else if not (mgr.has_group t.groups manual && mgr.has_group t.groups automatic)
      then (t, no_group)
      else if done_first
      then (t, context_done)
      else after_add (tags list.servers) (to_remove t.groups manual_mode (tags list.servers))
          (add_outbounds t list done_then)
