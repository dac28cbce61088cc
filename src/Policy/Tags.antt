-- ===== src/Policy/Tags.antt =====
-- `node_tags`, `_grant_connects`, `peers_allowed` of policy.py, and `_roles` of reconcile.py.
use greasewood.Base.{
  Bool, true, ◌&&◌, ◌||◌, Option, none, some, List, [], ◌∷◌, ◌++◌, any, list_eq, nat_eq,
  if◌then◌else◌, contains, meets, Text, codes, strip_prefix,
}
use greasewood.Wire.Grants.{Grant, star}

abbrev pub role_prefix : Text
role_prefix = codes "role:"

abbrev pub host_prefix : Text
host_prefix = codes "host:"

-- The tags of the role caps. `c.split(":", 1)[1]` is what follows the prefix, whose last character is
-- the first colon.
unfoldable pub role_tags : List Text → List Text
unfolding strip_prefix
role_tags [] = []
role_tags (c ∷ caps) =
    let rest = role_tags caps in
    elim (strip_prefix role_prefix c) [
      | none ↦ rest
      | some t ↦ if contains t 58 then rest else t ∷ rest
    ]

-- `node_tags`: the set as a list, of which only the elements matter
unfoldable pub node_tags : List Text → Option Text → List Text
unfolding role_tags
node_tags caps none = role_tags caps
node_tags caps (some []) = role_tags caps
node_tags caps (some (c ∷ name)) = (host_prefix ++ c ∷ name) ∷ role_tags caps

-- `_roles` of reconcile.py, which keeps the tags with a colon
unfoldable pub roles : List Text → List Text
unfolding strip_prefix
roles [] = []
roles (c ∷ caps) =
    let rest = roles caps in elim (strip_prefix role_prefix c) [ none ↦ rest | some t ↦ t ∷ rest ]

-- `_grant_connects`
unfoldable pub grant_connects : Grant → List Text → List Text → Bool
grant_connects g a_tags b_tags =
    (contains g.from star || meets a_tags g.from) && (contains g.to star || meets b_tags g.to)

-- The loop of `peers_allowed` over the table.
abbrev pub some_grant : List Text → List Text → List Grant → Bool
some_grant a b grants = any (λ g. grant_connects g a b || grant_connects g b a) grants

-- `peers_allowed`
unfoldable pub peers_allowed :
    List Text → List Text → Option (List Grant) → Option Text → Option Text → Bool
peers_allowed local_caps peer_caps grants local_hostname peer_hostname =
    let a = node_tags local_caps local_hostname in
    let b = node_tags peer_caps peer_hostname in
    if contains a star || contains b star
    then true
    else elim grants [ none ↦ true | some gs ↦ some_grant a b gs ]
