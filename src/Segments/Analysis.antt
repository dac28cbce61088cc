-- ===== src/Segments/Analysis.antt =====
-- `_segment_analysis` of status.py: the segments of a group, and the links that should stand.
use greasewood.Base.{
  ℕ, suc, Bool, true, false, not, ◌&&◌, ◌||◌, Option, none, some, List, [], ◌∷◌, ◌++◌, list_eq,
  nat_eq, if◌then◌else◌, contains, length, Text,
}
use greasewood.Base.Dict
use greasewood.Base.Dict.{Dict}
use greasewood.Wire.Grants.{Grant}
use greasewood.Wire.Record.{NodeRecord}
use greasewood.Policy.Delta.{linked, all_pairs}
use greasewood.Segments.Forest.{Parent}
use greasewood.Segments.Find.{find, union}

abbrev pub Links : Type 0
Links = List (NodeRecord × NodeRecord)

-- `linked`: either end reports the other.
unfoldable pub is_linked : NodeRecord → NodeRecord → Bool
is_linked a b = contains a.reachable b.cred.addr || contains b.reachable a.cred.addr

is_empty : List Text → Bool
is_empty [] = true
is_empty (x ∷ xs) = false

-- The condition of the `elif`: the policy lets the two peer, and one of them can be dialled.
unfoldable pub is_expected : Option (List Grant) → NodeRecord → NodeRecord → Bool
unfolding is_empty
is_expected grants a b =
    linked grants a b && (not (is_empty a.endpoints) || not (is_empty b.endpoints))

-- The body of the loop over the pairs, on `parent` and `missing`
unfoldable pub scan_pair :
    ℕ → Option (List Grant) → NodeRecord → NodeRecord → Parent × Links → Option (Parent × Links)
unfolding is_linked is_expected
scan_pair fuel grants a b (p, missing) =
    if is_linked a b
    then elim (union fuel p a.cred.addr b.cred.addr) [ none ↦ none | some q ↦ some (q, missing) ]
    else if is_expected grants a b
    then some (p, missing ++ (a, b) ∷ [])
    else some (p, missing)

-- The two loops, one over `members` and one over those after it, go through `all_pairs`.
unfoldable pub scan : ℕ → Option (List Grant) → Links → Parent × Links → Option (Parent × Links)
unfolding scan_pair
scan fuel grants [] acc = some acc
scan fuel grants ((a, b) ∷ ps) acc = elim (scan_pair fuel grants a b acc) [
  | none ↦ none
  | some acc' ↦ scan fuel grants ps acc'
]

abbrev pub Groups : Type 0
Groups = Dict Text (List NodeRecord)

-- `comps.setdefault(root, [])`, as the list it gives
unfoldable pub bucket : Text → Groups → List NodeRecord
bucket root comps = elim (Dict.lookup root comps) [ none ↦ [] | some l ↦ l ]

-- `for r in members: comps.setdefault(find(r.cred.addr), []).append(r)`
unfoldable pub group : ℕ → List NodeRecord → Parent → Groups → Option Groups
unfolding bucket find
group fuel [] p comps = some comps
group fuel (r ∷ rs) p comps = elim (find fuel p r.cred.addr) [
  | none ↦ none
  | some (root, q) ↦ group fuel rs q (Dict.insert root (bucket root comps ++ r ∷ []) comps)
]

-- `_segment_analysis`. No tree gets deeper than the number of unions, so the fuel is above it.
unfoldable pub segment_analysis :
    List NodeRecord → Option (List Grant) → Option (List (List NodeRecord) × Links)
unfolding scan group
segment_analysis members grants =
    let pairs = all_pairs members in
    let fuel = suc (length pairs) in
    elim (scan fuel grants pairs ((λ x. x), [])) [
      | none ↦ none
      | some (p, missing) ↦ elim (group fuel members p []) [
        | none ↦ none
        | some comps ↦ some (Dict.values comps, missing)
      ]
    ]
