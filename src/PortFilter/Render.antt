-- ===== src/PortFilter/Render.antt =====
-- `render_ruleset` of portfilter.py: the text of the ruleset.
use mathlib.Core.List.{append-nil, append_assoc}
use greasewood.Base.{
  ◌≡◌, refl, sym, ap, ◌∙◌, ℕ, Bool, Option, none, some, List, [], ◌∷◌, ◌++◌, ◌==◌, list_eq, nat_eq,
  ltb, if◌then◌else◌, contains, Text, codes,
}
use greasewood.Base.Dict
use greasewood.Wire.Grants.{Grant, star}
use greasewood.Wire.Json.{text_ltb, decimal}
use greasewood.Wire.Record.{NodeRecord}
use greasewood.Policy.Tags.{node_tags}
use greasewood.PortFilter.Defs.{
  Flow, every, port, flow_eq, Allowances, is_empty, port_allowances, fully_open,
}

-- `sorted` of a set of strings: in order, each once.
unfoldable pub insert_once : Text → List Text → List Text
unfolding text_ltb
insert_once s [] = s ∷ []
insert_once s (t ∷ l) =
    let rest = insert_once s l in
    if s == t then t ∷ l else if text_ltb s t then s ∷ t ∷ l else t ∷ rest

unfoldable pub sorted_set : List Text → List Text
unfolding insert_once
sorted_set [] = []
sorted_set (s ∷ l) = insert_once s (sorted_set l)

-- `sorted` of the keys that are a protocol and a port
port_ltb : Text × ℕ → Text × ℕ → Bool
unfolding text_ltb
port_ltb (p, m) (q, n) = if p == q then ltb m n else text_ltb p q

insert_port : Text × ℕ → List (Text × ℕ) → List (Text × ℕ)
unfolding port_ltb
insert_port k [] = k ∷ []
insert_port k (j ∷ l) = let rest = insert_port k l in if port_ltb k j then k ∷ j ∷ l else j ∷ rest

unfoldable pub sorted_ports : List Flow → List (Text × ℕ)
unfolding insert_port
sorted_ports [] = []
sorted_ports (every ∷ flows) = sorted_ports flows
sorted_ports (port proto n ∷ flows) = insert_port (proto, n) (sorted_ports flows)

-- `sep.join(parts)`
join : Text → List Text → Text
join sep [] = []
join sep (part ∷ []) = part
join sep (part ∷ next ∷ parts) = part ++ (sep ++ join sep (next ∷ parts))

-- A name between double quotes
abbrev quoted : Text → Text
quoted s = 34 ∷ (s ++ 34 ∷ [])

-- `allow.get(key, set())`
unfoldable pub sources_of : Allowances → Flow → List Text
sources_of allow key = elim (Dict.lookup key allow) [ none ↦ [] | some l ↦ l ]

set_line : Text → List Text → Text
unfolding join
set_line name addrs =
    codes "    set "
    ++ (name
        ++ (codes " { type ipv6_addr; elements = { " ++ (join (codes ", ") addrs ++ codes " } }")))

abbrev iifname : Text → Text
iifname iface = codes "        iifname " ++ quoted iface

set_name : Text × ℕ → Text
unfolding decimal
set_name (proto, n) = codes "p_" ++ (proto ++ (codes "_" ++ decimal n))

port_rule : Text → Text × ℕ → Text
unfolding set_name decimal
port_rule iface (proto, n) =
    iifname iface
    ++ (codes " "
        ++ (proto
            ++ (codes " dport "
                ++ (decimal n
                    ++ (codes " ip6 saddr @" ++ (set_name (proto, n) ++ codes " accept"))))))

-- `sets` and `rules`
unfoldable pub port_sets : Allowances → List (Text × ℕ) → List Text
unfolding set_line set_name sources_of sorted_set
port_sets allow [] = []
port_sets allow ((proto, n) ∷ ks) =
    set_line (set_name (proto, n)) (sorted_set (sources_of allow (port proto n)))
    ∷ port_sets allow ks

port_rules : Text → List (Text × ℕ) → List Text
unfolding port_rule
port_rules iface [] = []
port_rules iface (k ∷ ks) = port_rule iface k ∷ port_rules iface ks

unfoldable pub set_lines : Allowances → List Text
unfolding port_sets sorted_ports sorted_set sources_of set_line
set_lines allow =
    let all_sources = sorted_set (sources_of allow every) in
    (if is_empty all_sources then [] else set_line (codes "p_all") all_sources ∷ [])
    ++ port_sets allow (sorted_ports (Dict.keys allow))

unfoldable pub rule_lines : Text → Allowances → List Text
unfolding port_rules sorted_ports sorted_set sources_of
rule_lines iface allow =
    (if is_empty (sorted_set (sources_of allow every))
      then []
      else (iifname iface ++ codes " ip6 saddr @p_all accept") ∷ [])
    ++ port_rules iface (sorted_ports (Dict.keys allow))

-- The rules before those of the grants
fixed_lines : Text → ℕ → List Text → List Text
unfolding node_tags decimal
fixed_lines iface control_port local_caps =
    codes "    chain meshfilter {"
    ∷ codes "        type filter hook input priority filter; policy accept;"
    ∷ (codes "        iifname != { "
        ++ (quoted iface ++ (codes ", " ++ (quoted (codes "gw-door") ++ codes " } accept"))))
    ∷ codes "        ct state established,related accept"
    ∷ codes "        meta l4proto ipv6-icmp accept"
    ∷ ((if contains (node_tags local_caps none) star
          then (iifname iface
              ++ (codes " tcp dport "
                  ++ (decimal control_port ++ codes " accept   # control plane (anchor only)")))
            ∷ []
          else [])
        ++ ((iifname (codes "gw-door") ++ codes " tcp dport 51903 accept")
            ∷ (iifname (codes "gw-door") ++ codes " drop")
            ∷ []))

-- `render_ruleset`
unfoldable pub render_ruleset :
    Text → Text → ℕ → List NodeRecord → List Text → Option (List Grant) → Option Text → Text
unfolding fully_open port_allowances set_lines rule_lines fixed_lines join
render_ruleset table iface control_port records local_caps grants local_hostname =
    let allow =
      if fully_open grants then [] else port_allowances records local_caps grants local_hostname in
    let mesh_default = if fully_open grants then codes " accept" else codes " drop" in
    join (10 ∷ []) (
      (codes "table inet " ++ (table ++ codes " {"))
      ∷ (set_lines allow
          ++ (fixed_lines iface control_port local_caps
              ++ (rule_lines iface allow
                  ++ ((iifname iface ++ mesh_default) ∷ codes "    }" ∷ codes "}" ∷ [])))))
    ++ 10 ∷ []

join-cons :
    (sep part : Text) (parts : List Text) → (x : Text) × (join sep (part ∷ parts) ≡ part ++ x)
unfolding join
join-cons sep part [] = ([], sym (append-nil part))
join-cons sep part (next ∷ parts) = (sep ++ join sep (next ∷ parts), refl)

-- The document begins with the definition of the table.
pub render_ruleset-table :
    (table iface : Text) (control_port : ℕ) (records : List NodeRecord) (caps : List Text)
    (grants : Option (List Grant)) (name : Option Text)
    → (x : Text) × (render_ruleset table iface control_port records caps grants name
        ≡ (codes "table inet " ++ (table ++ codes " {")) ++ x)
unfolding render_ruleset
render_ruleset-table table iface control_port records caps grants name =
    let first = codes "table inet " ++ (table ++ codes " {") in
    let (x, e) = join-cons (10 ∷ []) first _ in
    (x ++ 10 ∷ [], ap (λ t. t ++ 10 ∷ []) e ∙ append_assoc first x (10 ∷ []))
