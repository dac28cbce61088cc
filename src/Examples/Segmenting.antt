-- ===== src/Examples/Segmenting.antt =====
-- A group of three, of which two report each other.
use greasewood.Base.{◌≡◌, none, some, List, [], ◌∷◌, list_eq, nat_eq, codes, Has, keep}
use greasewood.Wire.Record.{NodeRecord}
use greasewood.Policy.Delta.{all_pairs}
use greasewood.Segments.Analysis.{segment_analysis}
use greasewood.Segments.Links.{is_absent}
use greasewood.Segments.Components.{IsComponent, segment_analysis_lem}
use greasewood.Examples.Setup.{start, record_of, toy}

abbrev node_a : NodeRecord
node_a = record_of (1 ∷ []) (codes "a") [] start 1

abbrev node_b : NodeRecord
node_b = record (record_of (2 ∷ []) (codes "b") [] start 1) { reachable = node_a.cred.addr ∷ [] }

abbrev node_c : NodeRecord
node_c = record (record_of (3 ∷ []) (codes "c") [] start 1) {
  endpoints = codes "192.0.2.1:51900" ∷ [];
}

abbrev members : List NodeRecord
members = node_a ∷ node_b ∷ node_c ∷ []

segment_analysis_lem_example :
    (comps : List (List NodeRecord)) × (segment_analysis members none
      ≡ some (comps, keep (is_absent none) (all_pairs members)))
    × ((r : NodeRecord)
        → Has r members
        → (l : List NodeRecord) × Has l comps × IsComponent members r l)
    × ((l : List NodeRecord)
        → Has l comps
        → (r : NodeRecord) × Has r members × IsComponent members r l)
segment_analysis_lem_example = segment_analysis_lem members none
