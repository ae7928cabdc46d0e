-- ===== src/Servers/Manager/Salvage.antt =====
-- What servers/manager.go loads of an array in which some entries cannot be decoded, and what adding
-- and removing servers do to each tag.
use radiance.Common.{
  ◌≡◌, ◌⊎◌, inl, inr, refl, ◌∙◌, ap, Bool, true, false, ◌&&◌, Option, none, some, List, [], ◌∷◌,
  if◌then◌else◌, any_of, String, Bool-cases, Option-cases,
}
use radiance.Servers.Server.{Server, ServerJson, from_json}
use radiance.Servers.Manager.{
  Manager, File, array, Codec, done, skipped_some, already_exists, put_servers, add_servers,
  remove_each, remove_servers, load_each, undecodable, get_server_by_tag, has_tag, load_server_list,
  quarantine_invalid_servers, new_manager, load_servers,
}
use radiance.Common.Dict.{lookup, insert}
use radiance.Servers.Manager.Filing.{last_tagged, any_is, lookup-put_servers, lookup-remove_each}
use radiance.Servers.Manager.Runs.{save_servers-servers}

module _ {B L H J : Type 0} (codec : Codec B L H J) where
  abbrev pub cons_decoded : Option (ServerJson B L H) → List (Server B L H) → List (Server B L H)
  cons_decoded none ss = ss
  cons_decoded (some j) ss = from_json j ∷ ss

  -- The entries that can be decoded, in order.
  unfoldable pub decodable : List J → List (Server B L H)
  decodable [] = []
  decodable (j ∷ js) = cons_decoded (codec.decode j) (decodable js)

  load_each-put_servers :
      (js : List J) (ss : List (String × Server B L H))
      → load_each codec js ss ≡ put_servers (decodable js) ss
  unfolding load_each decodable put_servers
  load_each-put_servers [] ss = refl
  load_each-put_servers (j ∷ js) ss = elim (Option-cases (codec.decode j)) [
    | inl e ↦ rw (load_each, put_servers, decodable, e) (load_each-put_servers js ss)
    | inr (s, e) ↦
        rw (load_each, put_servers, decodable, e)
          (load_each-put_servers js (insert (from_json s).tag (from_json s) ss))
  ]

  -- Started on an array, a manager has for every tag the last entry with that tag among those that
  -- can be decoded, whatever stands between them; it reports an error exactly where some cannot, and
  -- then keeps a copy of the array if that can be written; the file itself is left as it was.
  pub new_manager-salvages :
      (js : List J) (copy : Option (File B L J)) (writes : Bool)
      → let (m, reply) = new_manager codec (array js) copy writes in
        ((tag : String) → get_server_by_tag m tag ≡ last_tagged tag (decodable js) none)
        × (reply ≡ (if any_of (undecodable codec) js then skipped_some else done))
        × (m.invalid_copy
            ≡ (if any_of (undecodable codec) js && writes then some (array js) else copy))
        × (m.file ≡ array js)
  unfolding new_manager load_servers load_server_list quarantine_invalid_servers get_server_by_tag
      lookup
  new_manager-salvages js copy writes =
      let at : (tag : String)
          → lookup tag (load_each codec js []) ≡ last_tagged tag (decodable js) none =
        λ tag.
          ap (lookup tag) (load_each-put_servers js [])
          ∙ lookup-put_servers tag (decodable js) [] in
      elim (Bool-cases (any_of (undecodable codec) js)) [
        | inl t ↦ elim (Bool-cases writes) [
          | inl w ↦ rw (t, w) (at, refl, refl, refl)
          | inr w ↦ rw (t, w) (at, refl, refl, refl)
        ]
        | inr t ↦ rw t (at, refl, refl, refl)
      ]

  -- AddServers without `force` of servers of which one has a tag that is there changes nothing and
  -- says so; otherwise, whether or not the file is written, every tag has the last of the added
  -- servers with that tag, or the server it had.
  pub add_servers-lookup :
      (m : Manager B L H J) (list : List (Server B L H)) (force writes : Bool)
      → let (m1, reply) = add_servers codec m list force writes in
        ((force ≡ false)
          × (any_of (has_tag m.servers) list ≡ true)
          × (m1 ≡ m)
          × (reply ≡ already_exists))
        ⊎ (((force ≡ true) ⊎ (any_of (has_tag m.servers) list ≡ false))
            × ((tag : String)
                → get_server_by_tag m1 tag ≡ last_tagged tag list (get_server_by_tag m tag)))
  unfolding add_servers get_server_by_tag last_tagged
  add_servers-lookup m [] force writes = inr (inr refl, λ tag. refl)
  add_servers-lookup m (s ∷ list) true writes = inr (
    inl refl,
    λ tag.
        ap (lookup tag) (
          save_servers-servers codec (record m { servers = put_servers (s ∷ list) m.servers })
            writes)
        ∙ lookup-put_servers tag (s ∷ list) m.servers,
  )
  add_servers-lookup m (s ∷ list) false writes =
      elim (Bool-cases (any_of (has_tag m.servers) (s ∷ list))) [
        | inl t ↦ rw t (inl (refl, refl, refl, refl))
        | inr t ↦ rw t (
            inr (
              inr refl,
              λ tag.
                  ap (lookup tag) (
                    save_servers-servers codec
                      (record m { servers = put_servers (s ∷ list) m.servers }) writes)
                  ∙ lookup-put_servers tag (s ∷ list) m.servers,
            ))
      ]

  -- RemoveServers leaves no server under the tags given and every other tag as it was, whether or
  -- not the file is written.
  pub remove_servers-lookup :
      (m : Manager B L H J) (tags : List String) (writes : Bool) (tag : String)
      → get_server_by_tag (remove_servers codec m tags writes).0 tag
        ≡ (if any_is tag tags then none else get_server_by_tag m tag)
  unfolding remove_servers get_server_by_tag
  remove_servers-lookup m tags writes tag =
      ap (lookup tag) (
        save_servers-servers codec (record m { servers = (remove_each tags ([], m.servers)).1 })
          writes)
      ∙ lookup-remove_each tag tags [] m.servers
