-- ===== src/Segments/Groups.antt =====
-- The dict `comps` of `_segment_analysis` in status.py: the members, sorted by their roots.
use greasewood.Base.{
  ℕ, ◌<◌, ◌≡◌, refl, sym, ◌∙◌, Bool, some, List, [], ◌∷◌, ◌++◌, ◌==◌, list_eq, nat_eq, arith, Text,
  Option-cases, ◌⊎◌, inl, inr, keep, Has, Has-append,
}
use mathlib.Core.List.{append-nil, append_assoc}
use greasewood.Base.Dict
use greasewood.Wire.Record.{NodeRecord}
use greasewood.Segments.Forest.{Parent, IsForest}
use greasewood.Segments.Find.{find, find_lem}
use greasewood.Segments.Analysis.{Groups, bucket, group}

-- A key is in the dict when its list has something.
pub lookup-bucket :
    (s : Text) (c : Groups) (r : NodeRecord)
    → Has r (bucket s c)
    → Dict.lookup s c ≡ some (bucket s c)
unfolding bucket
lookup-bucket s c r m = elim (Option-cases (Dict.lookup s c)) [
  | inl e ↦ absurd (ground (arith, m, e))
  | inr (l, e) ↦ ground (arith, e)
]

pub bucket-lookup :
    (s : Text) (c : Groups) (l : List NodeRecord) → Dict.lookup s c ≡ some l → bucket s c ≡ l
unfolding bucket
bucket-lookup s c l e = ground (arith, e)

module _ (root : Text → Text) where
  abbrev pub has_root : Text → NodeRecord → Bool
  has_root s r = root r.cred.addr == s

  -- Each key once, with a list that is not empty.
  abbrev pub IsSorted : Groups → Type 0
  IsSorted c =
      Dict.NodupKeys c
      × ((s : Text) (l : List NodeRecord) → Dict.lookup s c ≡ some l → (r : NodeRecord) × Has r l)

  abbrev put : NodeRecord → Groups → Groups
  put r c = Dict.insert (root r.cred.addr) (bucket (root r.cred.addr) c ++ r ∷ []) c

  lookup-put :
      (s : Text) (r : NodeRecord) (c : Groups) (l : List NodeRecord)
      → Dict.lookup s (put r c) ≡ some l
      → (bucket (root r.cred.addr) c ++ r ∷ [] ≡ l) ⊎ (Dict.lookup s c ≡ some l)
  lookup-put s r c l h =
      ground (
        arith,
        h,
        Dict.lookup-insert s (root r.cred.addr) (bucket (root r.cred.addr) c ++ r ∷ []) c,
      )

  put-IsSorted : (r : NodeRecord) (c : Groups) → IsSorted c → IsSorted (put r c)
  put-IsSorted r c (u, full) = (
    Dict.insert-NodupKeys (root r.cred.addr) (bucket (root r.cred.addr) c ++ r ∷ []) c u,
    λ s l h. elim (lookup-put s r c l h) [
      | inl e ↦
          (r, rw (sym e) ((Has-append (bucket (root r.cred.addr) c) (r ∷ []) r).1 (inr (inl refl))))
      | inr e ↦ full s l e
    ],
  )

  bucket-put :
      (s : Text) (r : NodeRecord) (c : Groups)
      → bucket s (put r c) ≡ bucket s c ++ keep (has_root s) (r ∷ [])
  unfolding bucket
  bucket-put s r c = ground (
    arith,
    append-nil (bucket s c),
    Dict.lookup-insert s (root r.cred.addr) (bucket (root r.cred.addr) c ++ r ∷ []) c,
  )

  parts_step :
      (s : Text) (r : NodeRecord) (rs : List NodeRecord) (c : Groups)
      → bucket s (put r c) ++ keep (has_root s) rs ≡ bucket s c ++ keep (has_root s) (r ∷ rs)
  parts_step s r rs c = ground (
    arith,
    bucket-put s r c,
    append_assoc (bucket s c) (keep (has_root s) (r ∷ [])) (keep (has_root s) rs),
  )

  group_step :
      (fuel : ℕ) (r : NodeRecord) (rs : List NodeRecord) (p q : Parent) (c : Groups)
      → find fuel p r.cred.addr ≡ some (root r.cred.addr, q)
      → group fuel (r ∷ rs) p c ≡ group fuel rs q (put r c)
  unfolding group
  group_step fuel r rs p q c e = ground (arith, e)

  pub group_lem :
      (fuel depth : ℕ) (rs : List NodeRecord) (p : Parent) (c : Groups)
      → IsForest p root depth
      → depth < fuel
      → IsSorted c
      → (c' : Groups) × (group fuel rs p c ≡ some c')
        × IsSorted c'
        × ((s : Text) → bucket s c' ≡ bucket s c ++ keep (has_root s) rs)
  unfolding group
  group_lem fuel depth [] p c forest h w = (c, refl, w, λ s. simp append-nil)
  group_lem fuel depth (r ∷ rs) p c forest h w =
      let (q, e, forest') = find_lem fuel depth p root r.cred.addr forest h in
      let (c', g, w', parts) = group_lem fuel depth rs q (put r c) forest' h (put-IsSorted r c w) in
      (c', group_step fuel r rs p q c e ∙ g, w', λ s. parts s ∙ parts_step s r rs c)
