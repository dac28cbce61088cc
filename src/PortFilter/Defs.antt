-- ===== src/PortFilter/Defs.antt =====
-- `_port_allowances` and `_fully_open` of portfilter.py.
use greasewood.Base.{
  ℕ, Bool, true, false, not, ◌&&◌, ◌||◌, Option, none, some, List, [], ◌∷◌, ◌++◌, any, ◌==◌, Eq,
  list_eq, nat_eq, if◌then◌else◌, contains, meets, Text, partition, int,
}
use native.Mathlib.Decide.{ℕ_discrete}
use greasewood.Base.Dict
use greasewood.Base.Dict.{Dict}
use greasewood.Wire.Grants.{Grant, star}
use greasewood.Wire.Record.{NodeRecord}
use greasewood.Policy.Tags.{node_tags}

-- The keys of the result: the string `*`, or a protocol and a port.
pub data Flow : Type 0 where
  every : Flow
  port : Text → ℕ → Flow

flow_dec : Discrete Flow
flow_dec = hlevel ℕ_discrete

instance unfoldable pub flow_eq : Eq Flow
unfolding flow_dec ℕ_discrete
flow_eq = record { dec = flow_dec }

-- From a flow to the set of the addresses that may use it, as a list of which only the elements matter.
abbrev pub Allowances : Type 0
Allowances = Dict Flow (List Text)

-- The key of an entry of `ports`.
unfoldable pub flow_of : Text → Flow
unfolding partition int
flow_of spec =
    if spec == star
    then every
    else (let (proto, number) = partition 47 spec in port proto (int number))

-- Whether a node holds a tag of the list, or the list names every node.
abbrev pub in_list : List Text → List Text → Bool
in_list tags entries = contains entries star || meets tags entries

-- `_sources`
unfoldable pub sources : List NodeRecord → List Text → List Text
unfolding node_tags
sources [] from_roles = []
sources (r ∷ records) from_roles =
    let rest = sources records from_roles in
    if in_list (node_tags r.cred.caps (some r.cred.hostname)) from_roles
    then r.cred.addr ∷ rest
    else rest

-- `allow.setdefault(key, set()).update(srcs)`
unfoldable pub add_sources : Flow → List Text → Allowances → Allowances
add_sources key srcs allow =
    Dict.insert key (elim (Dict.lookup key allow) [ none ↦ srcs | some old ↦ old ++ srcs ]) allow

-- The loop over the ports of a grant.
unfoldable pub add_ports : List Text → List Text → Allowances → Allowances
unfolding add_sources flow_of
add_ports [] srcs allow = allow
add_ports (spec ∷ specs) srcs allow = add_ports specs srcs (add_sources (flow_of spec) srcs allow)

abbrev pub is_empty : List Text → Bool
is_empty [] = true
is_empty (_ ∷ _) = false

-- The loop over the grants.
unfoldable pub add_grants : List NodeRecord → List Text → List Grant → Allowances → Allowances
unfolding add_ports sources
add_grants records my_tags [] allow = allow
add_grants records my_tags (g ∷ grants) allow = add_grants records my_tags grants (
    if not (in_list my_tags g.to)
    then allow
    else if is_empty (sources records g.from)
    then allow
    else add_ports g.ports (sources records g.from) allow)

-- `_port_allowances`
unfoldable pub port_allowances :
    List NodeRecord → List Text → Option (List Grant) → Option Text → Allowances
unfolding add_grants node_tags
port_allowances records local_caps grants local_hostname =
    add_grants records (node_tags local_caps local_hostname)
      (elim grants [ none ↦ [] | some gs ↦ gs ]) []

-- `_fully_open`
unfoldable pub fully_open : Option (List Grant) → Bool
fully_open none = true
fully_open (some grants) =
    any (λ g. contains g.from star && (contains g.to star && contains g.ports star)) grants
