-- ===== src/Latest/Defs.antt =====
-- The map, its one operation, and what it means for an entry to have been offered.
use greasewood.Base.{
  ℕ, ◌+◌, ◌≡◌, Bool, true, Option, none, some, List, [], ◌∷◌, ltb, Eq, if◌then◌else◌, Has, ◌⊎◌,
}
use greasewood.Base.Dict
use greasewood.Base.Dict.{Dict}

module _ {K R : Type 0} ⦃e : Eq K⦄ (key : R → K) (rank : R → ℕ) where
  -- Whether `r` beats what its key holds.
  abbrev pub beats : R → Option R → Bool
  beats r none = true
  beats r (some old) = ltb (rank old) (rank r)

  -- One offer, with the count of those that were accepted.
  unfoldable pub offer : R → Dict K R × ℕ → Dict K R × ℕ
  offer r (d, n) =
      if beats r (Dict.lookup (key r) d) then (Dict.insert (key r) r d, n + 1) else (d, n)

  unfoldable pub offers : List R → Dict K R × ℕ → Dict K R × ℕ
  unfolding offer
  offers [] s = s
  offers (r ∷ rs) s = offers rs (offer r s)

  -- An entry for `k` that was held or is offered.
  abbrev pub Offered : List R → Dict K R → K → R → Type 0
  Offered rs d k r = (Dict.lookup k d ≡ some r) ⊎ (Has r rs × (k ≡ key r))

  -- No key has two different entries of the same rank.
  abbrev pub NoTies : (K → R → Type 0) → Type 0
  NoTies P = (k : K) (r s : R) → P k r → P k s → rank r ≡ rank s → r ≡ s
