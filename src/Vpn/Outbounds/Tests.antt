-- ===== src/Vpn/Outbounds/Tests.antt =====
-- An update of the outbounds of a tunnel, over a group manager that is the list of its tags.
use radiance.Common.{
  ℕ, inl, inr, refl, ◌∙◌, arith, true, false, not, ◌==◌, none, some, List, [], ◌∷◌, keep, String,
}
use text.Mathlib.Text.{◌==◌ as str_eq}
use text.Mathlib.TextEquality.{eq_iff}
use radiance.Servers.Server.{Server, Options, no_options, outbound, endpoint, outbounds}
use radiance.Vpn.Outbounds.{
  fine, Groups, Json, Tunnel, ServerList, lantern_tags, remove_duplicates, add_outbounds,
  update_outbounds,
}
use radiance.Vpn.Outbounds.Keeps.{Has, Lawful, update_outbounds-Has}
use radiance.Vpn.Outbounds.Bounds.{Settled, add_outbounds-Settled, listed-keep_lem}

-- A proxy with body 0 cannot be loaded.
abbrev tag_list : Groups (List String) ℕ
tag_list = record {
  has_group = λ g group. true;
  all = λ g. g;
  now = λ g. "old";
  is_mutable_group = λ g tag. false;
  create_for_group = λ g kind p. (p.tag ∷ g, fine);
  add_to_group = λ g tag. (g, fine);
  remove_from_group = λ g group tag. (keep (λ t. not (str_eq t tag)) g, fine);
  set_url_overrides = λ g overrides. (g, true);
  check_outbounds = λ g. g;
}

abbrev body : Options ℕ → ℕ
body no_options = 0
body (outbound p) = p.body
body (endpoint p) = p.body

abbrev bodies : Json ℕ ℕ
bodies = record { marshal = body; same = ◌==◌ }

abbrev server : String → ℕ → Server ℕ ℕ ℕ
server name content = record {
  tag = name;
  type = "http";
  is_lantern = true;
  options = outbound (record { tag = name; type = "http"; body = content });
  location = 0;
  credentials = none;
  selection_history = none;
}

abbrev running : Tunnel (List String) ℕ
running = record {
  groups = "old" ∷ "older" ∷ [];
  opts_map = ("old", 1) ∷ ("older", 2) ∷ [];
  bounds = some ("old" ∷ "older" ∷ []);
}

abbrev refreshed : ServerList ℕ ℕ ℕ
refreshed = record { servers = server "new" 3 ∷ server "older" 2 ∷ []; url_overrides = [] }

tag_list-Lawful : Lawful tag_list bodies
tag_list-Lawful = record {
  created = λ g kind p tag h. ground (arith, h);
  joined = λ g other tag h. h;
  left = λ g group other tag n h.
      listed-keep_lem (λ t. not (str_eq t other)) tag g
      ∙ ground (arith, h, n, eq_iff tag other, eq_iff other tag);
  overridden = λ g overrides tag h. h;
  checked = λ g tag h. h;
}

update_outbounds-Has_example :
    Has tag_list bodies
      (update_outbounds tag_list bodies running refreshed true false false).0.groups
      "old"
update_outbounds-Has_example =
    update_outbounds-Has tag_list bodies running refreshed true false false "old" tag_list-Lawful
      refl (inl (inr (refl, refl)))

add_outbounds-Settled_example :
    Settled tag_list bodies
      ("old" ∷ "older" ∷ [])
      (lantern_tags (remove_duplicates bodies running.opts_map refreshed.servers))
      "new"
      (add_outbounds tag_list bodies running refreshed false)
unfolding outbounds
add_outbounds-Settled_example =
    add_outbounds-Settled tag_list bodies running refreshed false ("old" ∷ "older" ∷ []) "new" refl
      refl
