-- ===== src/PortFilter/Rendering.antt =====
-- `render_ruleset` of portfilter.py gives one text for all orders of the records.
use greasewood.Base.{
  ℕ, not, Option, none, some, List, [], ◌∷◌, list_eq, nat_eq, if◌then◌else◌, ◌≡◌, inl, inr, refl,
  Text, Bool-cases,
}
use greasewood.Base.Dict
use greasewood.Wire.Grants.{Grant}
use greasewood.Wire.Record.{NodeRecord}
use greasewood.Policy.Tags.{node_tags}
use greasewood.PortFilter.Defs.{
  every, port, flow_eq, in_list, Allowances, is_empty, sources, add_ports, add_grants,
  port_allowances, fully_open,
}
use greasewood.PortFilter.Render.{
  sources_of, set_lines, rule_lines, port_sets, render_ruleset, sorted_ports,
}
use greasewood.PortFilter.Order.{sorted_set-Same}
use greasewood.PortFilter.Alike.{
  SameRecords, Same, sources-Same, is_empty-Same, sources_of-Same, add_ports-Same, keys-Same,
}

module _ (rs ss : List NodeRecord) (same : SameRecords rs ss) where
  add_grants-Same :
      (my_tags : List Text) (gs : List Grant) (d e : Allowances)
      → Same d e
      → Same (add_grants rs my_tags gs d) (add_grants ss my_tags gs e)
  unfolding add_grants
  add_grants-Same my_tags [] d e s = s
  add_grants-Same my_tags (g ∷ gs) d e s = add_grants-Same my_tags gs _ _ (step g)
    where
      step :
          (g : Grant)
          → Same
              (if not (in_list my_tags g.to)
                then d
                else if is_empty (sources rs g.from)
                then d
                else add_ports g.ports (sources rs g.from) d)
              (if not (in_list my_tags g.to)
                then e
                else if is_empty (sources ss g.from)
                then e
                else add_ports g.ports (sources ss g.from) e)
      step g = elim (Bool-cases (in_list my_tags g.to)) [
        | inr f ↦ rw f s
        | inl t ↦ elim (Bool-cases (is_empty (sources ss g.from))) [
          | inl none_there ↦
              rw
                (
                  t,
                  is_empty-Same (sources rs g.from) (sources ss g.from)
                      (sources-Same rs ss g.from same),
                  none_there,
                )
                s
          | inr some_there ↦
              rw
                (
                  t,
                  is_empty-Same (sources rs g.from) (sources ss g.from)
                      (sources-Same rs ss g.from same),
                  some_there,
                )
                (add_ports-Same g.ports (sources rs g.from) (sources ss g.from) d e
                  (sources-Same rs ss g.from same) s)
        ]
      ]

  port_allowances-Same :
      (caps : List Text) (grants : Option (List Grant)) (name : Option Text)
      → Same (port_allowances rs caps grants name) (port_allowances ss caps grants name)
  unfolding port_allowances
  port_allowances-Same caps none name = add_grants-Same (node_tags caps name) [] [] [] tt
  port_allowances-Same caps (some gs) name = add_grants-Same (node_tags caps name) gs [] [] tt

port_sets-Same :
    (d e : Allowances) (ks : List (Text × ℕ)) → Same d e → port_sets d ks ≡ port_sets e ks
unfolding port_sets
port_sets-Same d e [] s = refl
port_sets-Same d e ((proto, n) ∷ ks) s =
    rw
      (
        sorted_set-Same (sources_of d (port proto n)) (sources_of e (port proto n))
            (sources_of-Same d e (port proto n) s),
        port_sets-Same d e ks s,
      )
      refl

set_lines-Same : (d e : Allowances) → Same d e → set_lines d ≡ set_lines e
unfolding set_lines
set_lines-Same d e s =
    rw
      (
        sorted_set-Same (sources_of d every) (sources_of e every) (sources_of-Same d e every s),
        keys-Same d e s,
        port_sets-Same d e (sorted_ports (Dict.keys e)) s,
      )
      refl

rule_lines-Same :
    (iface : Text) (d e : Allowances) → Same d e → rule_lines iface d ≡ rule_lines iface e
unfolding rule_lines
rule_lines-Same iface d e s =
    rw
      (
        sorted_set-Same (sources_of d every) (sources_of e every) (sources_of-Same d e every s),
        keys-Same d e s,
      )
      refl

-- When two lists have the same records, in whatever order and however often, the rulesets that are rendered
-- from them are the same text.
pub render_ruleset-Same :
    (table iface : Text) (control_port : ℕ) (rs ss : List NodeRecord) (caps : List Text)
    (grants : Option (List Grant)) (name : Option Text)
    → SameRecords rs ss
    → render_ruleset table iface control_port rs caps grants name
      ≡ render_ruleset table iface control_port ss caps grants name
unfolding render_ruleset
render_ruleset-Same table iface control_port rs ss caps grants name same =
    let s = port_allowances-Same rs ss same caps grants name in
    elim (Bool-cases (fully_open grants)) [
      | inl t ↦ rw t refl
      | inr f ↦ rw (f, set_lines-Same _ _ s, rule_lines-Same iface _ _ s) refl
    ]
