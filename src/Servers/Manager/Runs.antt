-- ===== src/Servers/Manager/Runs.antt =====
-- A manager of servers/manager.go through any calls and restarts, and what its file then gives to
-- the next manager.
use radiance.Common.{
  ◌≡◌, inl, inr, refl, sym, ◌∙◌, arith, Bool, true, false, not, ◌&&◌, Option, none, some, List, [],
  ◌∷◌, any_of, String, Bool-cases, Option-cases,
}
use text.Mathlib.Text.{◌==◌ as str_eq}
use radiance.Servers.Server.{Proxy, Options, outbound, endpoint, Server, from_json}
use radiance.Servers.Manager.{
  Manager, OldOptions, File, absent, unreadable, blank, broken_array, array, old_layout, Codec,
  Reply, done, put_servers, add_servers, remove_each, remove_servers, put_histories,
  update_selection_history, load_each, undecodable, write_servers, already_exists, put_old,
  put_groups, get_server_by_tag, save_servers, marshal_servers, has_tag, load_server_list,
  load_servers, quarantine_invalid_servers, new_manager,
}
use radiance.Common.Dict.{lookup, insert}
use radiance.Servers.Manager.Filing.{
  Filed, insert-Filed, put_servers-Filed, remove_each-Filed, put_histories-Filed,
}
use radiance.Servers.Manager.Reload.{or_else, ReadsBack, load-marshal_servers}

module _ {B L H J : Type 0} (codec : Codec B L H J) where
  -- A call of the manager, with whether its writes of the file succeed; or a restart.
  pub data Call : Type 0 where
    adds : List (Server B L H) → Bool → Bool → Call
    removes : List String → Bool → Call
    updates : List (String × H) → Bool → Call
    restarts : Bool → Call

  unfoldable pub perform : Manager B L H J → Call → Manager B L H J × Reply
  perform m (adds list force writes) = add_servers codec m list force writes
  perform m (removes tags writes) =
      ((remove_servers codec m tags writes).0, (remove_servers codec m tags writes).1.1)
  perform m (updates results writes) = update_selection_history codec m results writes
  perform m (restarts writes) = new_manager codec m.file m.invalid_copy writes

  unfoldable pub run : Manager B L H J → List Call → Manager B L H J
  run m [] = m
  run m (c ∷ cs) = run (perform m c).0 cs

  -- Whether a call that replies `done` has saved: not the addition of no servers, nor a restart.
  abbrev pub saves : Call → Bool
  saves (adds [] force writes) = false
  saves (adds (s ∷ list) force writes) = true
  saves (removes tags writes) = true
  saves (updates results writes) = true
  saves (restarts writes) = false

  pub save_servers-servers :
      (m : Manager B L H J) (writes : Bool) → (save_servers codec m writes).0.servers ≡ m.servers
  unfolding save_servers
  save_servers-servers m writes = elim (Option-cases (marshal_servers codec m.servers)) [
    | inl e ↦ rw e refl
    | inr (js, e) ↦ rw e (ground arith)
  ]

  load_each-Filed :
      (js : List J) (ss : List (String × Server B L H)) → Filed ss → Filed (load_each codec js ss)
  unfolding load_each
  load_each-Filed [] ss f = f
  load_each-Filed (j ∷ js) ss f = elim (Option-cases (codec.decode j)) [
    | inl e ↦ rw (load_each, e) (load_each-Filed js ss f)
    | inr (s, e) ↦
        rw (load_each, e)
          (load_each-Filed js (insert (from_json s).tag (from_json s) ss)
            (insert-Filed (from_json s).tag (from_json s) ss refl f))
  ]

  put_old-Filed :
      (kind : Proxy B → Options B) (is_lantern : Bool) (opts : OldOptions B L) (ps : List (Proxy B))
      (ss : List (String × Server B L H))
      → Filed ss
      → Filed (put_old codec kind is_lantern opts ps ss)
  unfolding put_old
  put_old-Filed kind is_lantern opts [] ss f = f
  put_old-Filed kind is_lantern opts (p ∷ ps) ss f =
      put_old-Filed kind is_lantern opts ps _ (insert-Filed p.tag _ ss refl f)

  put_groups-Filed :
      (old : List (String × OldOptions B L)) (ss : List (String × Server B L H))
      → Filed ss
      → Filed (put_groups codec old ss)
  unfolding put_groups
  put_groups-Filed [] ss f = f
  put_groups-Filed ((group, opts) ∷ old) ss f = put_groups-Filed old _ (
      put_old-Filed endpoint (str_eq group "lantern") opts opts.endpoints _
        (put_old-Filed outbound (str_eq group "lantern") opts opts.outbounds ss f))

  save_servers-Filed :
      (m : Manager B L H J) (writes : Bool)
      → Filed m.servers
      → Filed (save_servers codec m writes).0.servers
  save_servers-Filed m writes f = rw (save_servers-servers m writes) f

  load_server_list-Filed :
      (m : Manager B L H J) (js : List J) (writes : Bool)
      → Filed m.servers
      → Filed (load_server_list codec m js writes).0.servers
  unfolding load_server_list quarantine_invalid_servers
  load_server_list-Filed m js writes f = elim (Bool-cases (any_of (undecodable codec) js)) [
    | inl t ↦ elim (Bool-cases writes) [
      | inl w ↦ rw (t, w) (load_each-Filed js m.servers f)
      | inr w ↦ rw (t, w) (load_each-Filed js m.servers f)
    ]
    | inr t ↦ rw t (load_each-Filed js m.servers f)
  ]

  load_servers-Filed :
      (file : File B L J) (copy : Option (File B L J)) (writes : Bool)
      → Filed (new_manager codec file copy writes).0.servers
  unfolding new_manager load_servers quarantine_invalid_servers
  load_servers-Filed absent copy writes = tt
  load_servers-Filed unreadable copy writes = tt
  load_servers-Filed blank copy writes = tt
  load_servers-Filed broken_array copy true = tt
  load_servers-Filed broken_array copy false = tt
  load_servers-Filed (array js) copy writes =
      load_server_list-Filed (record { servers = []; file = array js; invalid_copy = copy }) js
        writes tt
  load_servers-Filed (old_layout none) copy true = tt
  load_servers-Filed (old_layout none) copy false = tt
  load_servers-Filed (old_layout (some old)) copy writes =
      save_servers-Filed
        (record {
          servers = put_groups codec old [];
          file = old_layout (some old);
          invalid_copy = copy;
        })
        writes (put_groups-Filed old [] tt)

  -- What a save stores is what a new manager finds.
  abbrev Reloads : Manager B L H J → Type 0
  Reloads m =
      (copy : Option (File B L J)) (writes : Bool)
      → ((new_manager codec m.file copy writes).1 ≡ done)
        × ((tag : String)
            → get_server_by_tag (new_manager codec m.file copy writes).0 tag
              ≡ get_server_by_tag m tag)

  load_server_list-clean :
      (m : Manager B L H J) (js : List J) (writes : Bool)
      → any_of (undecodable codec) js ≡ false
      → load_server_list codec m js writes
        ≡ (record m { servers = load_each codec js m.servers }, done)
  unfolding load_server_list
  load_server_list-clean m js writes e = rw e refl

  or_else-none : {A : Type 0} → (o : Option A) → or_else o none ≡ o
  or_else-none none = refl
  or_else-none (some x) = refl

  write_servers-Reloads :
      (m : Manager B L H J) (encoded : Option (List J)) (writes : Bool)
      → ReadsBack codec
      → Filed m.servers
      → marshal_servers codec m.servers ≡ encoded
      → (write_servers m encoded writes).1 ≡ done
      → Reloads (write_servers m encoded writes).0
  unfolding new_manager load_servers get_server_by_tag lookup
  write_servers-Reloads m none writes back f y e = ground arith
  write_servers-Reloads m (some js) false back f y e = ground arith
  write_servers-Reloads m (some js) true back f y e = λ copy writes.
      let (ok, at) = load-marshal_servers codec m.servers [] js back f y in
      rw
        (load_server_list-clean (record { servers = []; file = array js; invalid_copy = copy }) js
          writes ok)
        (refl, λ tag. at tag ∙ or_else-none (lookup tag m.servers))

  save_servers-Reloads :
      (m : Manager B L H J) (writes : Bool)
      → ReadsBack codec
      → Filed m.servers
      → (save_servers codec m writes).1 ≡ done
      → Reloads (save_servers codec m writes).0
  unfolding save_servers
  save_servers-Reloads m writes back f e =
      write_servers-Reloads m (marshal_servers codec m.servers) writes back f refl e

  perform-Filed : (m : Manager B L H J) (c : Call) → Filed m.servers → Filed (perform m c).0.servers
  unfolding perform add_servers remove_servers update_selection_history
  perform-Filed m (adds [] force writes) f = f
  perform-Filed m (adds (s ∷ list) force writes) f =
      elim (Bool-cases (not force && any_of (has_tag m.servers) (s ∷ list))) [
        | inl t ↦ rw t f
        | inr t ↦ rw t (
            save_servers-Filed (record m { servers = put_servers (s ∷ list) m.servers }) writes
              (put_servers-Filed (s ∷ list) m.servers f))
      ]
  perform-Filed m (removes tags writes) f =
      save_servers-Filed (record m { servers = (remove_each tags ([], m.servers)).1 }) writes
        (remove_each-Filed tags [] m.servers f)
  perform-Filed m (updates results writes) f =
      save_servers-Filed (record m { servers = put_histories results m.servers }) writes
        (put_histories-Filed results m.servers f)
  perform-Filed m (restarts writes) f = load_servers-Filed m.file m.invalid_copy writes

  run-Filed : (m : Manager B L H J) (cs : List Call) → Filed m.servers → Filed (run m cs).servers
  unfolding run
  run-Filed m [] f = f
  run-Filed m (c ∷ cs) f = run-Filed (perform m c).0 cs (perform-Filed m c f)

  perform-Reloads :
      (m : Manager B L H J) (c : Call)
      → ReadsBack codec
      → Filed m.servers
      → saves c ≡ true
      → (perform m c).1 ≡ done
      → Reloads (perform m c).0
  unfolding perform add_servers remove_servers update_selection_history
  perform-Reloads m (adds [] force writes) back f s e = ground arith
  perform-Reloads m (adds (x ∷ list) force writes) back f s e =
      elim (Bool-cases (not force && any_of (has_tag m.servers) (x ∷ list))) [
        | inl t ↦ let no : already_exists ≡ done = sym (rw t refl) ∙ e in ground arith
        | inr t ↦ rw t (
            save_servers-Reloads (record m { servers = put_servers (x ∷ list) m.servers }) writes
              back (put_servers-Filed (x ∷ list) m.servers f) (sym (rw t refl) ∙ e))
      ]
  perform-Reloads m (removes tags writes) back f s e =
      save_servers-Reloads (record m { servers = (remove_each tags ([], m.servers)).1 }) writes back
        (remove_each-Filed tags [] m.servers f) e
  perform-Reloads m (updates results writes) back f s e =
      save_servers-Reloads (record m { servers = put_histories results m.servers }) writes back
        (put_histories-Filed results m.servers f) e
  perform-Reloads m (restarts writes) back f s e = ground arith

  -- Where the decoder reads what the encoder wrote: after any calls and restarts of a manager, if a
  -- call that saves replies `done`, a manager started on its file loads without an error and has for
  -- every tag the server that the first one has.
  pub run-reload :
      (file : File B L J) (cs : List Call) (c : Call) (copy : Option (File B L J)) (writes : Bool)
      → ReadsBack codec
      → saves c ≡ true
      → (perform (run (record { servers = []; file = file; invalid_copy = none }) cs) c).1 ≡ done
      → let m =
          (perform (run (record { servers = []; file = file; invalid_copy = none }) cs) c).0 in
        ((new_manager codec m.file copy writes).1 ≡ done)
        × ((tag : String)
            → get_server_by_tag (new_manager codec m.file copy writes).0 tag
              ≡ get_server_by_tag m tag)
  run-reload file cs c copy writes back s e =
      perform-Reloads (run (record { servers = []; file = file; invalid_copy = none }) cs) c back
        (run-Filed (record { servers = []; file = file; invalid_copy = none }) cs tt) s e copy
        writes
