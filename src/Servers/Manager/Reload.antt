-- ===== src/Servers/Manager/Reload.antt =====
-- What loadServerList of servers/manager.go reads of the servers that saveServers wrote.
use radiance.Common.{
  ◌≡◌, ◌≢◌, refl, sym, ◌∙◌, ap, arith, false, Option, none, some, List, [], ◌∷◌, any_of, String,
}
use text.Mathlib.TextEquality.{eq_iff}
use radiance.Servers.Server.{
  Options, no_options, outbound, endpoint, outbound_of, endpoint_of, options_of, Server, ServerJson,
  to_json, from_json,
}
use radiance.Servers.Manager.{
  Codec, cons_encoded, put_decoded, load_each, undecodable, marshal_servers,
}
use radiance.Common.Dict.{lookup, insert, lookup-insert}
use radiance.Servers.Manager.Filing.{Filed}

options-kept : {B : Type 0} → (o : Options B) → options_of (outbound_of o) (endpoint_of o) ≡ o
options-kept no_options = refl
options-kept (outbound p) = refl
options-kept (endpoint p) = refl

from_json-to_json : {B L H : Type 0} → (s : Server B L H) → from_json (to_json s) ≡ s
unfolding from_json to_json
from_json-to_json s = ap (λ o. record s { options = o }) (options-kept s.options)

abbrev pub or_else {ℓ} : {A : Type ℓ} → Option A → Option A → Option A
or_else none o = o
or_else (some x) o = some x

cons_encoded-some :
    {J : Type 0} (o : Option J) (os : Option (List J)) (j : J) (js : List J)
    → cons_encoded o os ≡ some (j ∷ js)
    → (o ≡ some j) × (os ≡ some js)
cons_encoded-some none os j js e = ground arith
cons_encoded-some (some i) none j js e = ground arith
cons_encoded-some (some i) (some is) j js e = ground arith

cons_encoded-empty :
    {J : Type 0} (o : Option J) (os : Option (List J)) → cons_encoded o os ≢ some []
cons_encoded-empty none os e = ground arith
cons_encoded-empty (some i) none e = ground arith
cons_encoded-empty (some i) (some is) e = ground arith

module _ {B L H J : Type 0} (codec : Codec B L H J) where
  -- The decoder reads what the encoder wrote.
  abbrev pub ReadsBack : Type 0
  ReadsBack = (s : ServerJson B L H) (j : J) → codec.encode s ≡ some j → codec.decode j ≡ some s

  load_each-decoded :
      (j : J) (js : List J) (k : String) (s : Server B L H) (acc : List (String × Server B L H))
      → codec.decode j ≡ some (to_json s)
      → k ≡ s.tag
      → load_each codec (j ∷ js) acc ≡ load_each codec js (insert k s acc)
  unfolding load_each
  load_each-decoded j js k s acc d own =
      ap (λ o. load_each codec js (put_decoded o acc)) d
      ∙ ap (λ r. load_each codec js (insert r.tag r acc)) (from_json-to_json s)
      ∙ ap (λ t. load_each codec js (insert t s acc)) (sym own)

  any_undecodable :
      (j : J) (js : List J) (s : ServerJson B L H)
      → codec.decode j ≡ some s
      → any_of (undecodable codec) (j ∷ js) ≡ any_of (undecodable codec) js
  any_undecodable j js s d = rw (undecodable, d) refl

  -- What a list of servers that is encoded decodes to, put into servers that are there.
  pub load-marshal_servers :
      (ss acc : List (String × Server B L H)) (js : List J)
      → ReadsBack
      → Filed ss
      → marshal_servers codec ss ≡ some js
      → (any_of (undecodable codec) js ≡ false)
        × ((tag : String)
            → lookup tag (load_each codec js acc) ≡ or_else (lookup tag ss) (lookup tag acc))
  unfolding marshal_servers load_each lookup
  load-marshal_servers [] acc [] back f e = (refl, λ tag. refl)
  load-marshal_servers [] acc (j ∷ js) back f e = ground arith
  load-marshal_servers ((k, s) ∷ ss) acc [] back f e =
      absurd (cons_encoded-empty (codec.encode (to_json s)) (marshal_servers codec ss) e)
  load-marshal_servers ((k, s) ∷ ss) acc (j ∷ js) back (own, new, f) e =
      let (e1, e2) =
        cons_encoded-some (codec.encode (to_json s)) (marshal_servers codec ss) j js e in
      let d : codec.decode j ≡ some (to_json s) = back (to_json s) j e1 in
      let (ok, at) = load-marshal_servers ss (insert k s acc) js back f e2 in
      (
        any_undecodable j js (to_json s) d ∙ ok,
        λ tag.
            ap (lookup tag) (load_each-decoded j js k s acc d own)
            ∙ at tag
            ∙ ground (arith, lookup-insert k tag s acc, eq_iff k tag, new),
      )
