-- ===== src/Servers/Tests.antt =====
-- Runs of the model of package servers, and examples.
use radiance.Common.{
  ℕ, ◌≡◌, ◌⊎◌, refl, arith, any_of, true, false, Option, none, some, List, [], ◌∷◌, String,
}
use radiance.Common.Dict.{lookup, insert, delete}
use radiance.Servers.Server.{Server, ServerJson, to_json, from_json, outbound}
use radiance.Servers.Manager.{
  Codec, Manager, absent, array, save_servers, marshal_servers, remove_each, put_servers,
  load_servers, update_selection_history, put_histories, load_server_list, load_each,
  quarantine_invalid_servers, done, already_exists, new_manager, get_server_by_tag, add_servers,
  remove_servers, has_tag,
}
use radiance.Servers.Manager.Filing.{last_tagged}
use radiance.Servers.Manager.Runs.{Call, adds, removes, restarts, updates, perform, run, run-reload}
use radiance.Servers.Manager.Salvage.{decodable, new_manager-salvages, add_servers-lookup}

-- A text is a server as it is stored, or one that this build does not know.
abbrev Text : Type 0
Text = Option (ServerJson ℕ ℕ ℕ)

abbrev plain : Codec ℕ ℕ ℕ Text
plain = record { encode = λ s. some (some s); decode = λ t. t; no_location = 0 }

abbrev server : String → ℕ → Server ℕ ℕ ℕ
server name body = record {
  tag = name;
  type = "http";
  is_lantern = true;
  options = outbound (record { tag = name; type = "http"; body = body });
  location = 7;
  credentials = none;
  selection_history = none;
}

abbrev calls : List (Call plain)
calls =
    adds (server "a" 1 ∷ server "b" 2 ∷ []) false true
    ∷ updates (("a", 5) ∷ []) false
    ∷ restarts true
    ∷ adds (server "b" 3 ∷ []) true true
    ∷ []

abbrev started : Manager ℕ ℕ ℕ Text
started = record { servers = []; file = absent; invalid_copy = none }

abbrev before_removal : Manager ℕ ℕ ℕ Text
before_removal = (perform plain (run plain started calls) (removes ("a" ∷ []) true)).0

plain-reads_back :
    (s : ServerJson ℕ ℕ ℕ) (j : Text) → plain.encode s ≡ some j → plain.decode j ≡ some s
plain-reads_back s j e = ground arith

removal-done : (perform plain (run plain started calls) (removes ("a" ∷ []) true)).1 ≡ done
unfolding perform remove_servers save_servers marshal_servers remove_each lookup run add_servers
    put_servers insert new_manager load_servers update_selection_history put_histories
    load_server_list load_each from_json delete quarantine_invalid_servers to_json
removal-done = refl

run-reload_example :
    ((new_manager plain before_removal.file none true).1 ≡ done)
    × ((tag : String)
        → get_server_by_tag (new_manager plain before_removal.file none true).0 tag
          ≡ get_server_by_tag before_removal tag)
run-reload_example =
    run-reload plain absent calls (removes ("a" ∷ []) true) none true plain-reads_back refl
      removal-done

-- An array with two servers of one tag and an entry that cannot be decoded.
abbrev mixed : List Text
mixed = some (to_json (server "a" 1)) ∷ none ∷ some (to_json (server "a" 2)) ∷ []

new_manager-salvages_example :
    get_server_by_tag (new_manager plain (array mixed) none true).0 "a" ≡ some (server "a" 2)
unfolding last_tagged decodable to_json from_json
new_manager-salvages_example = (new_manager-salvages plain mixed none true).0 "a"

abbrev one : Manager ℕ ℕ ℕ Text
one = record { servers = ("a", server "a" 1) ∷ []; file = absent; invalid_copy = none }

add_servers-lookup_example :
    let (m1, reply) = add_servers plain one (server "b" 1 ∷ server "a" 3 ∷ []) false true in
    ((false ≡ false)
      × (any_of (has_tag one.servers) (server "b" 1 ∷ server "a" 3 ∷ []) ≡ true)
      × (m1 ≡ one)
      × (reply ≡ already_exists))
    ⊎ (((false ≡ true) ⊎ (any_of (has_tag one.servers) (server "b" 1 ∷ server "a" 3 ∷ []) ≡ false))
        × ((tag : String)
            → get_server_by_tag m1 tag
              ≡ last_tagged tag (server "b" 1 ∷ server "a" 3 ∷ []) (get_server_by_tag one tag)))
add_servers-lookup_example =
    add_servers-lookup plain one (server "b" 1 ∷ server "a" 3 ∷ []) false true
