-- ===== src/Segments/Components.antt =====
-- What `_segment_analysis` of status.py returns: the connected components, and the missing links.
use greasewood.Base.{
  suc, ◌≡◌, refl, sym, ap, ◌∙◌, Option, some, List, [], ◌++◌, list_eq, nat_eq, arith, Text, ◌↔◌,
  keep, Has, Has-keep, length, ==_iff, ==_self,
}
use greasewood.Base.Dict
use greasewood.Wire.Grants.{Grant}
use greasewood.Wire.Record.{NodeRecord}
use greasewood.Policy.Delta.{all_pairs}
use greasewood.Segments.Forest.{Parent, IsForest, here}
use greasewood.Segments.Analysis.{Groups, Links, bucket, scan, group, segment_analysis}
use greasewood.Segments.Links.{Joined, is_absent, scan_lem}
use greasewood.Segments.Groups.{IsSorted, has_root, group_lem, lookup-bucket, bucket-lookup}

-- Two addresses are connected when a chain of links of the members leads from one to the other.
abbrev pub Connected : List NodeRecord → Text → Text → Type 0
Connected members x y = Joined (λ z. z) (all_pairs members) x y

-- The list has exactly the members that are connected to one of them.
abbrev pub IsComponent : List NodeRecord → NodeRecord → List NodeRecord → Type 0
IsComponent members r l =
    (r' : NodeRecord) → Has r' l ↔ (Has r' members × Connected members r.cred.addr r'.cred.addr)

pub start : IsForest (λ x. x) (λ x. x) 0
start y = (0, omega arith, here refl)

empty-IsSorted : (root : Text → Text) → IsSorted root []
empty-IsSorted root =
    (tt, λ s l h. absurd (ground (arith, h, Dict.lookup-nil {V = List NodeRecord} s)))

bucket-nil : (s : Text) → bucket s [] ≡ []
unfolding bucket Dict.lookup
bucket-nil s = refl

segment_analysis_of :
    (members : List NodeRecord) (grants : Option (List Grant)) {p : Parent} {missing : Links}
    {comps : Groups}
    → scan (suc (length (all_pairs members))) grants (all_pairs members) ((λ x. x), [])
      ≡ some (p, missing)
    → group (suc (length (all_pairs members))) members p [] ≡ some comps
    → segment_analysis members grants ≡ some (Dict.values comps, missing)
unfolding segment_analysis
segment_analysis_of members grants s g = rw (s, g, segment_analysis) refl

module _ (members : List NodeRecord) (root : Text → Text) (comps : Groups)
    (same : (x y : Text) → (root x ≡ root y) ↔ Connected members x y) (sorted : IsSorted root comps)
    (parts : (s : Text) → bucket s comps ≡ keep (has_root root s) members) where
  bucket-IsComponent : (r : NodeRecord) → IsComponent members r (bucket (root r.cred.addr) comps)
  bucket-IsComponent r r' =
      let (down, up) = Has-keep (has_root root (root r.cred.addr)) members r' in
      let here_iff = ==_iff (root r'.cred.addr) (root r.cred.addr) in
      let linked_iff = same r.cred.addr r'.cred.addr in
      rw (parts (root r.cred.addr)) (
        (λ m. let (m', t) = down m in (m', linked_iff.0 (sym (here_iff.0 t)))),
        (λ (m, c). up (m, here_iff.1 (sym (linked_iff.1 c)))),
      )

  values-bucket :
      (r : NodeRecord) → Has r members → Has (bucket (root r.cred.addr) comps) (Dict.values comps)
  values-bucket r m =
      let s = root r.cred.addr in
      let mine : Has r (bucket s comps) =
        rw (parts s) ((Has-keep (has_root root s) members r).1 (m, ==_self s)) in
      let found = lookup-bucket s comps r mine in
      Dict.Has-values s (bucket s comps) comps (Dict.Has-lookup s (bucket s comps) comps found)

  values-IsComponent :
      (l : List NodeRecord)
      → Has l (Dict.values comps)
      → (r : NodeRecord) × Has r members × IsComponent members r l
  values-IsComponent l m =
      let (s, k) = Dict.values-Has l comps m in
      let found = Dict.lookup-Has s l comps sorted.0 k in
      let (r, in_l) = sorted.1 s l found in
      let is_bucket = bucket-lookup s comps l found in
      let is_kept : l ≡ keep (has_root root s) members = sym is_bucket ∙ parts s in
      let (in_members, t) = (Has-keep (has_root root s) members r).0 (rw (sym is_kept) in_l) in
      let mine : s ≡ root r.cred.addr = sym ((==_iff (root r.cred.addr) s).0 t) in
      let is_mine : l ≡ bucket (root r.cred.addr) comps =
        sym is_bucket ∙ ap (λ z. bucket z comps) mine in
      (r, in_members, rw is_mine (bucket-IsComponent r))

-- With the fuel that it is given, the analysis returns. Every member stands in a list of exactly the
-- members that a chain of links leads to from it, and every list that is returned is the list of such a
-- member. The missing links are the pairs, in their order, that are not linked although the policy lets
-- them peer and one of the two advertises an endpoint.
pub segment_analysis_lem :
    (members : List NodeRecord) (grants : Option (List Grant))
    → (comps : List (List NodeRecord)) × (segment_analysis members grants
        ≡ some (comps, keep (is_absent grants) (all_pairs members)))
      × ((r : NodeRecord)
          → Has r members
          → (l : List NodeRecord) × Has l comps × IsComponent members r l)
      × ((l : List NodeRecord)
          → Has l comps
          → (r : NodeRecord) × Has r members × IsComponent members r l)
segment_analysis_lem members grants =
    let pairs = all_pairs members in
    let fuel = suc (length pairs) in
    let (p, root, depth, s, forest, lt, same) =
      scan_lem fuel 0 grants pairs (λ x. x) (λ x. x) [] start (omega arith) in
    let (comps, g, sorted, parts) =
      group_lem root fuel depth members p [] forest lt (empty-IsSorted root) in
    let exact =
      λ (z : Text). parts z ∙ ap (λ l. l ++ keep (has_root root z) members) (bucket-nil z) in
    (
      Dict.values comps,
      segment_analysis_of members grants s g,
      (λ r m. (
        bucket (root r.cred.addr) comps,
        values-bucket members root comps same sorted exact r m,
        bucket-IsComponent members root comps same sorted exact r,
      )),
      values-IsComponent members root comps same sorted exact,
    )
