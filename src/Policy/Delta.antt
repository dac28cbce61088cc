-- ===== src/Policy/Delta.antt =====
-- `tunnel_delta` and `unmatched_tags` of policy.py: what a change of policy would do.
use greasewood.Base.{
  ◌≡◌, refl, Bool, false, not, ◌&&◌, Option, none, some, List, [], ◌∷◌, ◌++◌, list_eq, nat_eq,
  if◌then◌else◌, keep, arith, Text, hex,
}
use mathlib.Core.List.{append-nil, append_assoc}
use greasewood.Base.Dict
use greasewood.Base.Dict.{Dict}
use greasewood.Wire.Grants.{Grant}
use greasewood.Wire.Record.{NodeRecord, hostname}
use greasewood.Policy.Tags.{peers_allowed}
use greasewood.Policy.Peering.{peers_allowed-append}

-- `over.get(r.id_pub.hex(), r.cred.caps)`
unfoldable pub after_caps : Dict Text (List Text) → NodeRecord → List Text
after_caps over r = elim (Dict.lookup (hex r.id_pub) over) [ none ↦ r.cred.caps | some caps ↦ caps ]

abbrev pub Pairs : Type 0
Pairs = List (Text × Text)

-- `before` and `after` of one pair
unfoldable pub linked : Option (List Grant) → NodeRecord → NodeRecord → Bool
linked grants a b =
    peers_allowed a.cred.caps b.cred.caps grants (some a.cred.hostname) (some b.cred.hostname)

unfoldable pub linked_after :
    Dict Text (List Text) → Option (List Grant) → NodeRecord → NodeRecord → Bool
unfolding after_caps
linked_after over grants a b =
    peers_allowed (after_caps over a) (after_caps over b) grants (some a.cred.hostname)
      (some b.cred.hostname)

-- The inner loop, with the two lists that it appends to.
unfoldable pub delta_row :
    Option (List Grant)
    → Option (List Grant)
    → Dict Text (List Text)
    → NodeRecord
    → List NodeRecord
    → Pairs × Pairs
    → Pairs × Pairs
delta_row old new over a [] acc = acc
delta_row old new over a (b ∷ bs) (created, removed) =
    let before = linked old a b in
    let after = linked_after over new a b in
    delta_row old new over a bs (
      if after && not before
      then (created ++ (hostname a, hostname b) ∷ [], removed)
      else if before && not after
      then (created, removed ++ (hostname a, hostname b) ∷ [])
      else (created, removed))

delta_rows :
    Option (List Grant)
    → Option (List Grant)
    → Dict Text (List Text)
    → List NodeRecord
    → Pairs × Pairs
    → Pairs × Pairs
delta_rows old new over [] acc = acc
delta_rows old new over (a ∷ rs) acc = delta_rows old new over rs (delta_row old new over a rs acc)

-- `tunnel_delta`
unfoldable pub tunnel_delta :
    List NodeRecord
    → Option (List Grant)
    → Option (List Grant)
    → Dict Text (List Text)
    → Pairs × Pairs
unfolding delta_rows delta_row
tunnel_delta records old new over = delta_rows old new over records ([], [])

-- The pairs of the list, each with the nodes in the order of the list.
abbrev pub pair_with : NodeRecord → List NodeRecord → List (NodeRecord × NodeRecord)
pair_with a [] = []
pair_with a (b ∷ bs) = (a, b) ∷ pair_with a bs

abbrev pub all_pairs : List NodeRecord → List (NodeRecord × NodeRecord)
all_pairs [] = []
all_pairs (a ∷ rs) = pair_with a rs ++ all_pairs rs

abbrev pub names : List (NodeRecord × NodeRecord) → Pairs
names [] = []
names ((a, b) ∷ ps) = (hostname a, hostname b) ∷ names ps

module _ (old new : Option (List Grant)) (over : Dict Text (List Text)) where
  -- A link that the change makes, and one that it takes away.
  abbrev pub is_made : NodeRecord × NodeRecord → Bool
  is_made (a, b) = linked_after over new a b && not (linked old a b)

  abbrev pub is_cut : NodeRecord × NodeRecord → Bool
  is_cut (a, b) = linked old a b && not (linked_after over new a b)

  abbrev split : List (NodeRecord × NodeRecord) → Pairs × Pairs → Pairs × Pairs
  split ps (created, removed) =
      (created ++ names (keep is_made ps), removed ++ names (keep is_cut ps))

  delta_row-split :
      (a : NodeRecord) (bs : List NodeRecord) (acc : Pairs × Pairs)
      → delta_row old new over a bs acc ≡ split (pair_with a bs) acc
  unfolding delta_row
  delta_row-split a [] (created, removed) = simp append-nil
  delta_row-split a (b ∷ bs) (created, removed) = ground (
    arith,
    delta_row-split a bs (created, removed),
    delta_row-split a bs (created ++ (hostname a, hostname b) ∷ [], removed),
    delta_row-split a bs (created, removed ++ (hostname a, hostname b) ∷ []),
    append_assoc created ((hostname a, hostname b) ∷ []) (names (keep is_made (pair_with a bs))),
    append_assoc removed ((hostname a, hostname b) ∷ []) (names (keep is_cut (pair_with a bs))),
  )

  keep-append :
      (p : NodeRecord × NodeRecord → Bool) (xs ys : List (NodeRecord × NodeRecord))
      → names (keep p (xs ++ ys)) ≡ names (keep p xs) ++ names (keep p ys)
  keep-append p [] ys = refl
  keep-append p (x ∷ xs) ys = ground (arith, keep-append p xs ys)

  delta_rows-split :
      (rs : List NodeRecord) (acc : Pairs × Pairs)
      → delta_rows old new over rs acc ≡ split (all_pairs rs) acc
  unfolding delta_rows
  delta_rows-split [] (created, removed) = simp append-nil
  delta_rows-split (a ∷ rs) (created, removed) = simp (
    delta_row-split a rs (created, removed),
    delta_rows-split rs (split (pair_with a rs) (created, removed)),
    keep-append is_made (pair_with a rs) (all_pairs rs),
    keep-append is_cut (pair_with a rs) (all_pairs rs),
    append_assoc,
  )

  -- The preview lists exactly the pairs of records whose link the change makes, and exactly those whose
  -- link it takes away, each pair once and in the order of the records.
  pub tunnel_delta-eq :
      (rs : List NodeRecord)
      → tunnel_delta rs old new over
        ≡ (names (keep is_made (all_pairs rs)), names (keep is_cut (all_pairs rs)))
  unfolding tunnel_delta
  tunnel_delta-eq rs = delta_rows-split rs ([], [])

keep-none :
    (p : NodeRecord × NodeRecord → Bool) (xs : List (NodeRecord × NodeRecord))
    → ((x : NodeRecord × NodeRecord) → p x ≡ false)
    → keep p xs ≡ []
keep-none p [] h = refl
keep-none p (x ∷ xs) h = ground (arith, h x, keep-none p xs h)

-- Adding grants to a table, with no change of roles, is previewed as removing no tunnel.
pub tunnel_delta-append :
    (rs : List NodeRecord) (gs hs : List Grant)
    → (tunnel_delta rs (some gs) (some (gs ++ hs)) []).1 ≡ []
unfolding linked linked_after
tunnel_delta-append rs gs hs = simp (
  tunnel_delta-eq (some gs) (some (gs ++ hs)) [] rs,
  keep-none (is_cut (some gs) (some (gs ++ hs)) []) (all_pairs rs) λ (a, b). ground (
    arith,
    Dict.lookup-nil {V = List Text} (hex a.id_pub),
    Dict.lookup-nil {V = List Text} (hex b.id_pub),
    peers_allowed-append a.cred.caps b.cred.caps (some a.cred.hostname) (some b.cred.hostname) gs
        hs,
  ),
)
