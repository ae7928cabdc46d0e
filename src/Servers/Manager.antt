-- ===== src/Servers/Manager.antt =====
-- servers/manager.go. The text of a server in JSON, with its encoder and decoder, is of other
-- packages. The servers of a manager are listed in the order in which a loop over the map meets
-- them. Whether a file can be written is an argument.
pub mod Filing
pub mod Reload
pub mod Runs
pub mod Salvage
use radiance.Common.{
  ℕ, suc, Bool, true, false, not, Option, none, some, List, [], ◌∷◌, if◌then◌else◌, any_of, map,
  String, ◌++◌, ◌&&◌,
}
use radiance.Servers.Server.{
  ServerCredentials, Proxy, Options, no_options, outbound, endpoint, Server, ServerJson, to_json,
  from_json,
}
use radiance.Common.Dict.{lookup, insert, delete}
use text.Mathlib.Text.{◌==◌ as str_eq}

-- The options of a group in the file's old layout.
pub record OldOptions (B L : Type 0) : Type 0 where
  pub outbounds : List (Proxy B)
  pub endpoints : List (Proxy B)
  pub locations : List (String × L)
  pub credentials : List (String × ServerCredentials)

-- JSON as the code uses it: the text of a server, its encoder and its decoder.
pub record Codec (B L H J : Type 0) : Type 0 where
  pub encode : ServerJson B L H → Option J
  pub decode : J → Option (ServerJson B L H)
  pub no_location : L

-- The servers file, as loadServers finds it: absent, unreadable, blank, an array, what starts as an
-- array and is none, or what does not, read in the old layout.
pub data File (B L J : Type 0) : Type 0 where
  absent unreadable blank broken_array : File B L J
  array : List J → File B L J
  old_layout : Option (List (String × OldOptions B L)) → File B L J

pub record Manager (B L H J : Type 0) : Type 0 where
  pub servers : List (String × Server B L H)
  pub file : File B L J
  pub invalid_copy : Option (File B L J)

pub data Reply : Type 0 where
  done already_exists marshal_failed write_failed read_failed skipped_some not_array
        bad_old_layout :
      Reply

module _ {B L H : Type 0} where
  abbrev pub has_tag : List (String × Server B L H) → Server B L H → Bool
  has_tag ss s = elim (lookup s.tag ss) [ none ↦ false | some x ↦ true ]

  unfoldable pub put_servers :
      List (Server B L H) → List (String × Server B L H) → List (String × Server B L H)
  put_servers [] ss = ss
  put_servers (s ∷ list) ss = put_servers list (insert s.tag s ss)

  abbrev pub take_out :
      String
      → Option (Server B L H)
      → List (Server B L H) × List (String × Server B L H)
      → List (Server B L H) × List (String × Server B L H)
  take_out tag none (removed, ss) = (removed, ss)
  take_out tag (some s) (removed, ss) = (removed ++ s ∷ [], delete tag ss)

  unfoldable pub remove_each :
      List String
      → List (Server B L H) × List (String × Server B L H)
      → List (Server B L H) × List (String × Server B L H)
  remove_each [] acc = acc
  remove_each (tag ∷ tags) acc = remove_each tags (take_out tag (lookup tag acc.1) acc)

  abbrev pub removed_if : List (Server B L H) → Reply → List (Server B L H)
  removed_if removed done = removed
  removed_if removed _ = []

  abbrev pub with_history :
      String
      → H
      → Option (Server B L H)
      → List (String × Server B L H)
      → List (String × Server B L H)
  with_history tag h none ss = ss
  with_history tag h (some s) ss = insert tag (record s { selection_history = some h }) ss

  unfoldable pub put_histories :
      List (String × H) → List (String × Server B L H) → List (String × Server B L H)
  put_histories [] ss = ss
  put_histories ((tag, h) ∷ results) ss =
      put_histories results (with_history tag h (lookup tag ss) ss)

  abbrev pub put_decoded :
      Option (ServerJson B L H) → List (String × Server B L H) → List (String × Server B L H)
  put_decoded none ss = ss
  put_decoded (some j) ss = insert (from_json j).tag (from_json j) ss

module _ {J : Type 0} where
  abbrev pub cons_encoded : Option J → Option (List J) → Option (List J)
  cons_encoded (some j) (some js) = some (j ∷ js)
  cons_encoded _ _ = none

module _ {B L H J : Type 0} where
  abbrev pub write_servers : Manager B L H J → Option (List J) → Bool → Manager B L H J × Reply
  write_servers m none writes = (m, marshal_failed)
  write_servers m (some js) writes =
      if writes then (record m { file = array js }, done) else (m, write_failed)

  unfoldable pub get_server_by_tag : Manager B L H J → String → Option (Server B L H)
  get_server_by_tag m tag = lookup tag m.servers

  unfoldable pub all_servers : Manager B L H J → List (Server B L H)
  all_servers m = map (λ e. e.1) m.servers

  unfoldable pub quarantine_invalid_servers : Manager B L H J → Bool → Manager B L H J
  quarantine_invalid_servers m writes =
      if writes then record m { invalid_copy = some m.file } else m

module _ {B L H J : Type 0} (codec : Codec B L H J) where
  unfoldable pub marshal_servers : List (String × Server B L H) → Option (List J)
  marshal_servers [] = some []
  marshal_servers ((tag, s) ∷ ss) = cons_encoded (codec.encode (to_json s)) (marshal_servers ss)

  unfoldable pub save_servers : Manager B L H J → Bool → Manager B L H J × Reply
  save_servers m writes = write_servers m (marshal_servers m.servers) writes

  unfoldable pub add_servers :
      Manager B L H J → List (Server B L H) → Bool → Bool → Manager B L H J × Reply
  add_servers m [] force writes = (m, done)
  add_servers m (s ∷ list) force writes =
      if not force && any_of (has_tag m.servers) (s ∷ list)
      then (m, already_exists)
      else save_servers (record m { servers = put_servers (s ∷ list) m.servers }) writes

  unfoldable pub remove_servers :
      Manager B L H J → List String → Bool → Manager B L H J × (List (Server B L H) × Reply)
  remove_servers m tags writes =
      let (removed, ss) = remove_each tags ([], m.servers) in
      let (m1, reply) = save_servers (record m { servers = ss }) writes in
      (m1, (removed_if removed reply, reply))

  unfoldable pub remove_server : Manager B L H J → String → Bool → Manager B L H J × Reply
  remove_server m tag writes =
      let (m1, (removed, reply)) = remove_servers m (tag ∷ []) writes in (m1, reply)

  unfoldable pub update_selection_history :
      Manager B L H J → List (String × H) → Bool → Manager B L H J × Reply
  update_selection_history m results writes =
      save_servers (record m { servers = put_histories results m.servers }) writes

  -- The loop of loadServerList: the servers decoded so far.
  unfoldable pub load_each : List J → List (String × Server B L H) → List (String × Server B L H)
  load_each [] ss = ss
  load_each (j ∷ js) ss = load_each js (put_decoded (codec.decode j) ss)

  abbrev pub undecodable : J → Bool
  undecodable j = elim (codec.decode j) [ none ↦ true | some s ↦ false ]

  unfoldable pub load_server_list : Manager B L H J → List J → Bool → Manager B L H J × Reply
  load_server_list m js writes =
      let m1 = record m { servers = load_each js m.servers } in
      if any_of undecodable js
      then (quarantine_invalid_servers m1 writes, skipped_some)
      else (m1, done)

  abbrev pub or_no_location : Option L → L
  or_no_location none = codec.no_location
  or_no_location (some l) = l

  unfoldable pub put_old :
      (Proxy B → Options B)
      → Bool
      → OldOptions B L
      → List (Proxy B)
      → List (String × Server B L H)
      → List (String × Server B L H)
  put_old kind is_lantern opts [] ss = ss
  put_old kind is_lantern opts (p ∷ ps) ss = put_old kind is_lantern opts ps (
      insert p.tag
        (record {
          tag = p.tag;
          type = p.type;
          is_lantern = is_lantern;
          options = kind p;
          location = or_no_location (lookup p.tag opts.locations);
          credentials = lookup p.tag opts.credentials;
          selection_history = none;
        })
        ss)

  unfoldable pub put_groups :
      List (String × OldOptions B L) → List (String × Server B L H) → List (String × Server B L H)
  put_groups [] ss = ss
  put_groups ((group, opts) ∷ old) ss =
      let is_lantern = str_eq group "lantern" in
      put_groups old (
        put_old endpoint is_lantern opts opts.endpoints
          (put_old outbound is_lantern opts opts.outbounds ss))

  abbrev pub load_old_format :
      Manager B L H J → Option (List (String × OldOptions B L)) → Bool → Manager B L H J × Reply
  load_old_format m none writes = (quarantine_invalid_servers m writes, bad_old_layout)
  load_old_format m (some old) writes =
      save_servers (record m { servers = put_groups old m.servers }) writes

  abbrev pub load_file : Manager B L H J → File B L J → Bool → Manager B L H J × Reply
  load_file m absent writes = (m, done)
  load_file m unreadable writes = (m, read_failed)
  load_file m blank writes = (m, done)
  load_file m broken_array writes = (quarantine_invalid_servers m writes, not_array)
  load_file m (array js) writes = load_server_list m js writes
  load_file m (old_layout old) writes = load_old_format m old writes

  unfoldable pub load_servers : Manager B L H J → Bool → Manager B L H J × Reply
  load_servers m writes = load_file m m.file writes

  -- NewManager over the files of a data path; the manager is returned with an error too.
  unfoldable pub new_manager : File B L J → Option (File B L J) → Bool → Manager B L H J × Reply
  new_manager file invalid_copy writes =
      load_servers (record { servers = []; file = file; invalid_copy = invalid_copy }) writes
