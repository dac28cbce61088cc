-- ===== src/Wire/Grants.antt =====
-- `GrantTable` of wire.py, the signed access policy, with `_validate_grant`, which makes its entries.
use greasewood.Base.{
  ℕ, Bool, true, false, not, ◌&&◌, ◌||◌, Option, none, some, List, [], ◌∷◌, ◌++◌, all, leb, ◌==◌,
  list_eq, nat_eq, if◌then◌else◌, contains, Text, Bytes, codes, strip_prefix, partition, is_digits,
  int,
}
use greasewood.Errors.{Result, ok, err, malformed, raise_if, ◌>>=◌, ◌>>◌}
use greasewood.Hosts.Label.{valid_label}
use greasewood.Wire.Json.{
  Json, Items, Fields, str, num, flag, arr, obj, nil, cons, end, field, strs, canonical,
}
use greasewood.Wire.Crypto.{Crypto}
use greasewood.Wire.Credential.{sorted}
use greasewood.Wire.Statement.{any_signature}

-- A normalized grant; the source keeps it as a dict.
pub record Grant : Type 0 where
  pub from : List Text
  pub to : List Text
  pub ports : List Text
  pub relay : Bool

-- `d.get(k)` of a parsed JSON object
unfoldable pub get_field : Text → Fields → Option Json
get_field k end = none
get_field k (field j v fs) = if k == j then some v else get_field k fs

abbrev field_names : Fields → List Text
field_names end = []
field_names (field k v fs) = k ∷ field_names fs

str_items : Items → Result (List Text)
str_items nil = ok []
str_items (cons (str s) xs) = do rest ← str_items xs; ok (s ∷ rest)
str_items (cons _ xs) = err malformed

-- `_str_list` of what `g.get` found, None if nothing
str_list : Option Json → Result (List Text)
unfolding str_items
str_list (some (arr xs)) = str_items xs
str_list _ = err malformed

-- `isinstance(g.get("relay", False), bool)`
bool_field : Option Json → Result Bool
bool_field none = ok false
bool_field (some (flag b)) = ok b
bool_field (some _) = err malformed

abbrev pub star : Text
star = codes "*"

-- An entry of `from` or `to`: `*`, a host name behind `host:`, or a role name with no colon.
unfoldable pub valid_entry : Text → Bool
unfolding strip_prefix valid_label
valid_entry entry = if entry == star then true else elim (strip_prefix (codes "host:") entry) [
  | some name ↦ valid_label name
  | none ↦ not (contains entry 58)
]

-- An entry of `ports`: `*`, or a protocol and a number in range.
unfoldable pub valid_port : Text → Bool
unfolding partition is_digits int
valid_port p =
    if p == star
    then true
    else (let (proto, number) = partition 47 p in
        (proto == codes "tcp" || proto == codes "udp")
        && (is_digits number && (leb 1 (int number) && leb (int number) 65535)))

is_empty : List Text → Bool
is_empty [] = true
is_empty (_ ∷ _) = false

known_keys : List Text
known_keys = codes "from" ∷ codes "to" ∷ codes "ports" ∷ codes "relay" ∷ []

-- `g.get("ports", ["*"])`
ports_or_all : Option Json → Option Json
ports_or_all none = some (arr (cons (str star) nil))
ports_or_all (some j) = some j

-- `_validate_grant`
unfoldable pub validate_grant : Json → Result Grant
unfolding get_field str_list bool_field valid_entry valid_port is_empty known_keys ports_or_all
    sorted
validate_grant (obj g) = do
  raise_if (not (all (contains known_keys) (field_names g))) malformed
  src ← str_list (get_field (codes "from") g)
  dst ← str_list (get_field (codes "to") g)
  ports ← str_list (ports_or_all (get_field (codes "ports") g))
  relay ← bool_field (get_field (codes "relay") g)
  raise_if (is_empty src || is_empty dst) malformed
  raise_if (not (all valid_entry (src ++ dst))) malformed
  raise_if (not (all valid_port ports)) malformed
  ok (record { from = sorted src; to = sorted dst; ports = sorted ports; relay = relay })
validate_grant _ = err malformed

pub record GrantTable : Type 0 where
  pub seq : ℕ
  pub grants : List Grant
  pub ca_sig : Bytes

-- A normalized grant as the dict that it is in the source.
grant_dict : Grant → Fields
grant_dict g =
    let base : Fields =
      field (codes "from") (arr (strs g.from))
        (field (codes "to") (arr (strs g.to)) (field (codes "ports") (arr (strs g.ports)) end)) in
    if g.relay then field (codes "relay") (flag true) base else base

grant_items : List Grant → Items
unfolding grant_dict
grant_items [] = nil
grant_items (g ∷ gs) = cons (obj (grant_dict g)) (grant_items gs)

-- `_body_dict`
unfoldable pub body_dict : GrantTable → Fields
unfolding grant_items
body_dict t =
    field (codes "grants") (arr (grant_items t.grants)) (field (codes "seq") (num t.seq) end)

module _ ⦃C : Crypto⦄ where
  -- `sign`
  unfoldable pub sign : Bytes → GrantTable → GrantTable
  unfolding body_dict
  sign ca_priv t = record t { ca_sig = C.sign ca_priv (canonical (body_dict t)) }

  -- `verify`
  unfoldable pub verify : List Bytes → GrantTable → Result (Unit {0})
  unfolding any_signature
  verify ca_pubs t = any_signature t.ca_sig (canonical (body_dict t)) ca_pubs
