-- ===== src/Servers/Server.antt =====
-- Server and ServerList of servers/manager.go, and the form in which a server is stored. The options
-- of sing-box, a location and a selection history are types of other packages.
use radiance.Common.{ℕ, Bool, Option, none, some, List, [], ◌∷◌, String}

pub record ServerCredentials : Type 0 where
  pub access_token : String
  pub port : ℕ
  pub is_joined : Bool

-- An outbound or an endpoint of sing-box.
pub record Proxy (B : Type 0) : Type 0 where
  pub tag : String
  pub type : String
  pub body : B

pub data Options (B : Type 0) : Type 0 where
  no_options : Options B
  outbound endpoint : Proxy B → Options B

pub record Server (B L H : Type 0) : Type 0 where
  pub tag : String
  pub type : String
  pub is_lantern : Bool
  pub options : Options B
  pub location : L
  pub credentials : Option ServerCredentials
  pub selection_history : Option H

pub record ServerJson (B L H : Type 0) : Type 0 where
  pub tag : String
  pub type : String
  pub is_lantern : Bool
  pub outbound_field : Option (Proxy B)
  pub endpoint_field : Option (Proxy B)
  pub location : L
  pub credentials : Option ServerCredentials
  pub selection_history : Option H

module _ {B : Type 0} where
  abbrev pub outbound_of : Options B → Option (Proxy B)
  outbound_of no_options = none
  outbound_of (outbound p) = some p
  outbound_of (endpoint p) = none

  abbrev pub endpoint_of : Options B → Option (Proxy B)
  endpoint_of no_options = none
  endpoint_of (outbound p) = none
  endpoint_of (endpoint p) = some p

  abbrev pub options_of : Option (Proxy B) → Option (Proxy B) → Options B
  options_of (some p) e = outbound p
  options_of none (some p) = endpoint p
  options_of none none = no_options

  abbrev pub cons_some : Option (Proxy B) → List (Proxy B) → List (Proxy B)
  cons_some none ps = ps
  cons_some (some p) ps = p ∷ ps

module _ {B L H : Type 0} where
  unfoldable pub to_json : Server B L H → ServerJson B L H
  to_json s = record {
    tag = s.tag;
    type = s.type;
    is_lantern = s.is_lantern;
    outbound_field = outbound_of s.options;
    endpoint_field = endpoint_of s.options;
    location = s.location;
    credentials = s.credentials;
    selection_history = s.selection_history;
  }

  unfoldable pub from_json : ServerJson B L H → Server B L H
  from_json j = record {
    tag = j.tag;
    type = j.type;
    is_lantern = j.is_lantern;
    options = options_of j.outbound_field j.endpoint_field;
    location = j.location;
    credentials = j.credentials;
    selection_history = j.selection_history;
  }

  -- ServerList: Tags, Outbounds and Endpoints.
  unfoldable pub tags : List (Server B L H) → List String
  tags [] = []
  tags (s ∷ ss) = s.tag ∷ tags ss

  unfoldable pub outbounds : List (Server B L H) → List (Proxy B)
  outbounds [] = []
  outbounds (s ∷ ss) = cons_some (outbound_of s.options) (outbounds ss)

  unfoldable pub endpoints : List (Server B L H) → List (Proxy B)
  endpoints [] = []
  endpoints (s ∷ ss) = cons_some (endpoint_of s.options) (endpoints ss)
