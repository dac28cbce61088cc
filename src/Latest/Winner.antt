-- ===== src/Latest/Winner.antt =====
-- What one key of the map holds after a list of offers.
use greasewood.Base.{
  ℕ, ◌≤◌, ◌<◌, ◌≡◌, refl, ◌∙◌, Option, none, some, List, [], ◌∷◌, ltb, Eq, ◌==◌, if◌then◌else◌, Has,
  ◌⊎◌, inl, inr, arith, Bool-cases,
}
use greasewood.Base.Dict
use greasewood.Base.Dict.{Dict}
use greasewood.Latest.Defs.{beats, offer, offers}

module _ {K R : Type 0} ⦃e : Eq K⦄ (key : R → K) (rank : R → ℕ) where
  -- What `k` holds after one offer.
  abbrev pub better : K → Option R → R → Option R
  better k o r = if k == key r then (if beats key rank r o then some r else o) else o

  abbrev pub winner : K → Option R → List R → Option R
  winner k o [] = o
  winner k o (r ∷ rs) = winner k (better k o r) rs

  lookup-offer :
      (r : R) (d : Dict K R) (n : ℕ) (k : K)
      → Dict.lookup k (offer key rank r (d, n)).0 ≡ better k (Dict.lookup k d) r
  unfolding offer
  lookup-offer r d n k = ground (arith, Dict.lookup-insert k (key r) r d)

  pub lookup-offers :
      (rs : List R) (d : Dict K R) (n : ℕ) (k : K)
      → Dict.lookup k (offers key rank rs (d, n)).0 ≡ winner k (Dict.lookup k d) rs
  unfolding offers
  lookup-offers [] d n k = refl
  lookup-offers (r ∷ rs) d n k = ground (
    arith,
    lookup-offer r d n k,
    lookup-offers rs (offer key rank r (d, n)).0 (offer key rank r (d, n)).1 k,
  )

module _ {K R : Type 0} ⦃e : Eq K⦄ (key : R → K) (rank : R → ℕ) (k : K) where
  better-keeps :
      (o : Option R) (r : R) {w : R}
      → better key rank k o r ≡ some w
      → (o ≡ some w) ⊎ ((r ≡ w) × (k ≡ key r))
  better-keeps none r h = ground arith
  better-keeps (some old) r h = ground arith

  better-ge :
      (o : Option R) (r old : R)
      → o ≡ some old
      → (w : R) × (better key rank k o r ≡ some w) × (rank old ≤ rank w)
  better-ge none r old h = absurd (ground arith)
  better-ge (some v) r old h = elim (Bool-cases (k == key r)) [
    | inl t ↦ elim (Bool-cases (ltb (rank v) (rank r))) [
      | inl lt ↦ (r, ground arith, ground arith)
      | inr ge ↦ (v, ground arith, ground arith)
    ]
    | inr f ↦ (v, ground arith, ground arith)
  ]

  -- What is held stays, or makes way for something of a higher rank.
  better-held :
      (o : Option R) (r old : R)
      → o ≡ some old
      → (w : R) × (better key rank k o r ≡ some w) × ((w ≡ old) ⊎ (rank old < rank w))
  better-held none r old h = absurd (ground arith)
  better-held (some v) r old h = elim (Bool-cases (k == key r)) [
    | inl t ↦ elim (Bool-cases (ltb (rank v) (rank r))) [
      | inl lt ↦ (r, ground arith, inr (ground arith))
      | inr ge ↦ (v, ground arith, inl (ground arith))
    ]
    | inr f ↦ (v, ground arith, inl (ground arith))
  ]

  pub winner-held :
      (rs : List R) (o : Option R) (old : R)
      → o ≡ some old
      → (w : R) × (winner key rank k o rs ≡ some w) × ((w ≡ old) ⊎ (rank old < rank w))
  winner-held [] o old h = (old, h, inl refl)
  winner-held (r ∷ rs) o old h =
      let (v, p, q) = better-held o r old h in
      let (w, p', q') = winner-held rs (better key rank k o r) v p in
      (
        w,
        p',
        elim q [
          | inl e ↦ elim q' [ inl e' ↦ inl (e' ∙ e) | inr lt' ↦ inr (ground (arith, e)) ]
          | inr lt ↦ elim q' [ inl e' ↦ inr (ground (arith, e')) | inr lt' ↦ inr (omega arith) ]
        ],
      )

  better-offer :
      (o : Option R) (r : R)
      → k ≡ key r
      → (w : R) × (better key rank k o r ≡ some w) × (rank r ≤ rank w)
  better-offer none r h = (r, ground arith, ground arith)
  better-offer (some v) r h = elim (Bool-cases (ltb (rank v) (rank r))) [
    | inl lt ↦ (r, ground arith, ground arith)
    | inr ge ↦ (v, ground arith, ground arith)
  ]

  -- The winner was held or is offered.
  pub winner-candidate :
      (rs : List R) (o : Option R) {w : R}
      → winner key rank k o rs ≡ some w
      → (o ≡ some w) ⊎ (Has w rs × (k ≡ key w))
  winner-candidate [] o h = inl h
  winner-candidate (r ∷ rs) o h = elim (winner-candidate rs (better key rank k o r) h) [
    | inl p ↦ elim (better-keeps o r p) [ inl q ↦ inl q | inr q ↦ inr (inl q.0, ground arith) ]
    | inr m ↦ inr (inr m.0, m.1)
  ]

  winner-ge :
      (rs : List R) (o : Option R) (old : R)
      → o ≡ some old
      → (w : R) × (winner key rank k o rs ≡ some w) × (rank old ≤ rank w)
  winner-ge [] o old h = (old, h, ground arith)
  winner-ge (r ∷ rs) o old h =
      let (v, p, q) = better-ge o r old h in
      let (w, p', q') = winner-ge rs (better key rank k o r) v p in (w, p', omega arith)

  -- Where something was held or is offered there is a winner, of a rank at least as high.
  pub winner-max :
      (rs : List R) (o : Option R) (r : R)
      → ((o ≡ some r) ⊎ (Has r rs × (k ≡ key r)))
      → (w : R) × (winner key rank k o rs ≡ some w) × (rank r ≤ rank w)
  winner-max rs o r (inl h) = winner-ge rs o r h
  winner-max [] o r (inr m) = absurd m.0
  winner-max (s ∷ rs) o r (inr m) = elim m.0 [
    | inl p ↦
        let (v, x, y) = better-offer o s (ground arith) in
        let (w, x', y') = winner-ge rs (better key rank k o s) v x in (w, x', ground arith)
    | inr m' ↦ winner-max rs (better key rank k o s) r (inr (m', m.1))
  ]
