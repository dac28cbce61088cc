-- ===== src/PortFilter/Laws.antt =====
-- What `_port_allowances` lets through, against the grants and against `peers_allowed`.
use greasewood.Base.{
  ◌≡◌, refl, ◌↔◌, inl, inr, Bool, true, false, ◌&&◌, ◌||◌, Option, none, some, List, [], ◌∷◌, ◌++◌,
  any, ◌==◌, list_eq, nat_eq, contains, contains-append, Has, Has-any, any-Has, arith, Text,
  Bool-cases, Option-cases,
}
use greasewood.Base.Dict
use greasewood.Base.Dict.{Dict}
use greasewood.Wire.Grants.{Grant}
use greasewood.Wire.Record.{NodeRecord}
use greasewood.Policy.Tags.{node_tags, peers_allowed}
use greasewood.Policy.Peering.{Matches, Matches-iff, peers_allowed_iff}
use greasewood.PortFilter.Defs.{
  Flow, flow_eq, Allowances, flow_of, in_list, sources, add_sources, add_ports, add_grants,
  port_allowances, is_empty,
}

-- Whether an address may use a flow.
abbrev pub allowed : Allowances → Flow → Text → Bool
allowed allow key addr = elim (Dict.lookup key allow) [
  | none ↦ false
  | some srcs ↦ contains srcs addr
]

allowed-add_sources :
    (k : Flow) (srcs : List Text) (allow : Allowances) (j : Flow) (a : Text)
    → allowed (add_sources k srcs allow) j a ≡ (allowed allow j a || ((j == k) && contains srcs a))
unfolding add_sources
allowed-add_sources k srcs allow j a = elim (Option-cases (Dict.lookup k allow)) [
  | inl absent ↦ ground (arith, Dict.lookup-insert j k srcs allow)
  | inr (old, there) ↦
      ground (arith, Dict.lookup-insert j k (old ++ srcs) allow, contains-append old srcs a)
]

allowed-add_ports :
    (specs srcs : List Text) (allow : Allowances) (j : Flow) (a : Text)
    → allowed (add_ports specs srcs allow) j a
      ≡ (allowed allow j a || (any (λ spec. j == flow_of spec) specs && contains srcs a))
unfolding add_ports
allowed-add_ports [] srcs allow j a = ground arith
allowed-add_ports (spec ∷ specs) srcs allow j a = ground (
  arith,
  allowed-add_ports specs srcs (add_sources (flow_of spec) srcs allow) j a,
  allowed-add_sources (flow_of spec) srcs allow j a,
)

-- What one grant lets through.
abbrev granted : List NodeRecord → List Text → Flow → Text → Grant → Bool
granted records my_tags j a g =
    in_list my_tags g.to
    && (any (λ spec. j == flow_of spec) g.ports && contains (sources records g.from) a)

is_empty-contains : (srcs : List Text) (a : Text) → is_empty srcs ≡ true → contains srcs a ≡ false
is_empty-contains [] a h = refl
is_empty-contains (s ∷ srcs) a h = cc

allowed-add_grants :
    (records : List NodeRecord) (my_tags : List Text) (gs : List Grant) (allow : Allowances)
    (j : Flow) (a : Text)
    → allowed (add_grants records my_tags gs allow) j a
      ≡ (allowed allow j a || any (granted records my_tags j a) gs)
unfolding add_grants
allowed-add_grants records my_tags [] allow j a = ground arith
allowed-add_grants records my_tags (g ∷ gs) allow j a = ground (
  arith,
  allowed-add_grants records my_tags gs allow j a,
  allowed-add_grants records my_tags gs (add_ports g.ports (sources records g.from) allow) j a,
  allowed-add_ports g.ports (sources records g.from) allow j a,
  is_empty-contains (sources records g.from) a,
)

sources_iff :
    (records : List NodeRecord) (from : List Text) (a : Text)
    → (contains (sources records from) a ≡ true) ↔ (
        (r : NodeRecord) × Has r records
        × (a ≡ r.cred.addr)
        × Matches (node_tags r.cred.caps (some r.cred.hostname)) from)
unfolding sources
sources_iff records from a = (forth records, back records)
  where
    forth :
        (rs : List NodeRecord)
        → contains (sources rs from) a ≡ true
        → (r : NodeRecord) × Has r rs
          × (a ≡ r.cred.addr)
          × Matches (node_tags r.cred.caps (some r.cred.hostname)) from
    forth [] h = absurd (ground arith)
    forth (r ∷ rs) h =
        elim (Bool-cases (in_list (node_tags r.cred.caps (some r.cred.hostname)) from)) [
          | inl t ↦ elim (Bool-cases (a == r.cred.addr)) [
            | inl same ↦ (r, inl refl, ground arith, (Matches-iff _ from).0 t)
            | inr other ↦ let (s, m, e, x) = forth rs (ground arith) in (s, inr m, e, x)
          ]
          | inr f ↦ let (s, m, e, x) = forth rs (ground arith) in (s, inr m, e, x)
        ]

    back :
        (rs : List NodeRecord)
        → ((r : NodeRecord) × Has r rs
            × (a ≡ r.cred.addr)
            × Matches (node_tags r.cred.caps (some r.cred.hostname)) from)
        → contains (sources rs from) a ≡ true
    back [] (r, m, e, x) = absurd m
    back (r ∷ rs) (s, inl p, e, x) =
        ground (arith, (Matches-iff (node_tags s.cred.caps (some s.cred.hostname)) from).1 x)
    back (r ∷ rs) (s, inr m, e, x) = ground (arith, back rs (s, m, e, x))

-- The records and grants that let an address use a flow into a node with these tags.
abbrev pub Granted : List NodeRecord → List Text → List Grant → Flow → Text → Type 0
Granted records my_tags gs j a =
    (g : Grant) × Has g gs
    × Matches my_tags g.to
    × ((spec : Text) × Has spec g.ports × (j ≡ flow_of spec))
    × ((r : NodeRecord) × Has r records
        × (a ≡ r.cred.addr)
        × Matches (node_tags r.cred.caps (some r.cred.hostname)) g.from)

-- An address may use a flow exactly when some grant of the table names this node as a destination, lists
-- the flow among its ports, and names as a source a node of the records with that address.
pub port_allowances_iff :
    (records : List NodeRecord) (local_caps : List Text) (gs : List Grant)
    (local_hostname : Option Text)
    → (j : Flow) (a : Text)
    → (allowed (port_allowances records local_caps (some gs) local_hostname) j a ≡ true)
      ↔ Granted records (node_tags local_caps local_hostname) gs j a
unfolding port_allowances
port_allowances_iff records local_caps gs local_hostname j a =
    let my_tags = node_tags local_caps local_hostname in
    (
      λ h.
          let (g, m, t) = Has-any (granted records my_tags j a) gs (
            ground (
              arith,
              allowed-add_grants records my_tags gs [] j a,
              Dict.lookup-nil {V = List Text} j,
            )) in
          let (spec, n, p) = Has-any (λ spec. j == flow_of spec) g.ports (ground arith) in
          (
            g,
            m,
            (Matches-iff my_tags g.to).0 (ground arith),
            (spec, n, ground arith),
            (sources_iff records g.from a).0 (ground arith),
          ),
      λ (g, m, to, (spec, n, p), s).
          let t = any-Has (granted records my_tags j a) gs g m (
            ground (
              arith,
              (Matches-iff my_tags g.to).1 to,
              any-Has (λ spec. j == flow_of spec) g.ports spec n,
              (sources_iff records g.from a).1 s,
            )) in
          ground (arith, allowed-add_grants records my_tags gs [] j a),
    )

-- The filter never opens a flow to a node without a tunnel: an address that may use a flow is the one of
-- a record whose node this node peers with, by the same table.
pub port_allowances_peered :
    (records : List NodeRecord) (local_caps : List Text) (gs : List Grant)
    (local_hostname : Option Text)
    → (j : Flow) (a : Text)
    → allowed (port_allowances records local_caps (some gs) local_hostname) j a ≡ true
    → (r : NodeRecord) × Has r records
      × (a ≡ r.cred.addr)
      × (peers_allowed local_caps r.cred.caps (some gs) local_hostname (some r.cred.hostname)
          ≡ true)
port_allowances_peered records local_caps gs local_hostname j a h =
    let (g, m, to, _, (r, n, e, from)) =
      (port_allowances_iff records local_caps gs local_hostname j a).0 h in
    (
      r,
      n,
      e,
      (peers_allowed_iff local_caps r.cred.caps local_hostname (some r.cred.hostname) gs).1
          (inr (g, m, inr (from, to))),
    )
