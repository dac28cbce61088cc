-- ===== src/Latest/Laws.antt =====
-- The laws of the map, which its clients use in place of its clauses.
use greasewood.Base.{
  ℕ, ◌≤◌, ◌<◌, ◌⊎◌, ◌≡◌, refl, sym, ◌∙◌, ◌↔◌, some, List, [], ◌∷◌, Eq, Has, inl, inr, arith,
  Option-cases,
}
use greasewood.Base.Dict
use greasewood.Base.Dict.{Dict, NodupKeys}
use greasewood.Latest.Defs.{offer, offers, Offered, NoTies}
use greasewood.Latest.Winner.{lookup-offers, winner-candidate, winner-max, winner-held}

module _ {K R : Type 0} ⦃e : Eq K⦄ (key : R → K) (rank : R → ℕ) where
  pub offers-Offered :
      (rs : List R) (d : Dict K R) (n : ℕ) (k : K) (w : R)
      → Dict.lookup k (offers key rank rs (d, n)).0 ≡ some w
      → Offered key rank rs d k w × ((r : R) → Offered key rank rs d k r → rank r ≤ rank w)
  offers-Offered rs d n k w h =
      let won = sym (lookup-offers key rank rs d n k) ∙ h in
      (
        winner-candidate key rank k rs (Dict.lookup k d) won,
        λ r c. let (v, p, q) = winner-max key rank k rs (Dict.lookup k d) r c in ground arith,
      )

  pub offers-some :
      (rs : List R) (d : Dict K R) (n : ℕ) (k : K) (r : R)
      → Offered key rank rs d k r
      → (w : R) × (Dict.lookup k (offers key rank rs (d, n)).0 ≡ some w) × (rank r ≤ rank w)
  offers-some rs d n k r c =
      let (w, p, q) = winner-max key rank k rs (Dict.lookup k d) r c in
      (w, lookup-offers key rank rs d n k ∙ p, q)

  -- What a key holds stays there, or makes way for something of a higher rank.
  pub offers-held :
      (rs : List R) (d : Dict K R) (n : ℕ) (k : K) (r : R)
      → Dict.lookup k d ≡ some r
      → (w : R) × (Dict.lookup k (offers key rank rs (d, n)).0 ≡ some w)
        × ((w ≡ r) ⊎ (rank r < rank w))
  offers-held rs d n k r h =
      let (w, p, q) = winner-held key rank k rs (Dict.lookup k d) r h in
      (w, lookup-offers key rank rs d n k ∙ p, q)

  Offered-mono :
      (rs ss : List R) (d : Dict K R) (k : K)
      → ((r : R) → Has r rs → Has r ss)
      → (r : R) → Offered key rank rs d k r
      → Offered key rank ss d k r
  Offered-mono rs ss d k f r (inl p) = inl p
  Offered-mono rs ss d k f r (inr (m, p)) = inr (f r m, p)

  agree :
      (rs ss : List R) (d : Dict K R) (k : K) (w : R)
      → ((r : R) → Has r rs ↔ Has r ss)
      → NoTies key rank (Offered key rank ss d)
      → Dict.lookup k (offers key rank rs (d, 0)).0 ≡ some w
      → Dict.lookup k (offers key rank ss (d, 0)).0 ≡ some w
  agree rs ss d k w same no_ties h =
      let (c, top) = offers-Offered rs d 0 k w h in
      let c' = Offered-mono rs ss d k (λ r. (same r).0) w c in
      let (w', p, q) = offers-some ss d 0 k w c' in
      let (c'', _) = offers-Offered ss d 0 k w' p in
      let back = top w' (Offered-mono ss rs d k (λ r. (same r).1) w' c'') in
      rw (no_ties k w w' c' c'' (omega arith)) p

  pub offers_order_free :
      (rs ss : List R) (d : Dict K R) (k : K)
      → ((r : R) → Has r rs ↔ Has r ss)
      → NoTies key rank (Offered key rank rs d)
      → Dict.lookup k (offers key rank rs (d, 0)).0 ≡ Dict.lookup k (offers key rank ss (d, 0)).0
  offers_order_free rs ss d k same no_ties =
      elim (Option-cases (Dict.lookup k (offers key rank rs (d, 0)).0)) [
        | inl p ↦ elim (Option-cases (Dict.lookup k (offers key rank ss (d, 0)).0)) [
          | inl p' ↦ p ∙ sym p'
          | inr (w, p') ↦ cc (agree ss rs d k w (λ r. ((same r).1, (same r).0)) no_ties p')
        ]
        | inr (w, p) ↦ p ∙ sym (agree rs ss d k w same no_ties' p)
      ]
    where
      no_ties' : NoTies key rank (Offered key rank ss d)
      no_ties' j r s x y =
          no_ties j r s (Offered-mono ss rs d j (λ t. (same t).1) r x)
            (Offered-mono ss rs d j (λ t. (same t).1) s y)

  pub offers-NodupKeys :
      (rs : List R) (d : Dict K R) (n : ℕ) → NodupKeys d → NodupKeys (offers key rank rs (d, n)).0
  unfolding offers
  offers-NodupKeys [] d n u = u
  offers-NodupKeys (r ∷ rs) d n u =
      offers-NodupKeys rs (offer key rank r (d, n)).0 (offer key rank r (d, n)).1
        (ground (arith, Dict.insert-NodupKeys (key r) r d u))

  offer_idle :
      (r : R) (d : Dict K R) (n : ℕ)
      → ((w : R) × (Dict.lookup (key r) d ≡ some w) × (rank r ≤ rank w))
      → offer key rank r (d, n) ≡ (d, n)
  unfolding offer
  offer_idle r d n (w, p, q) = ground arith

  offers_idle :
      (rs : List R) (d : Dict K R) (n : ℕ)
      → ((r : R) → Has r rs → (w : R) × (Dict.lookup (key r) d ≡ some w) × (rank r ≤ rank w))
      → offers key rank rs (d, n) ≡ (d, n)
  unfolding offers
  offers_idle [] d n h = refl
  offers_idle (r ∷ rs) d n h =
      rw (offer_idle r d n (h r (inl refl))) (offers_idle rs d n (λ s m. h s (inr m)))

  pub offers_again :
      (rs : List R) (d : Dict K R)
      → offers key rank rs ((offers key rank rs (d, 0)).0, 0) ≡ ((offers key rank rs (d, 0)).0, 0)
  offers_again rs d =
      offers_idle rs (offers key rank rs (d, 0)).0 0
        λ r m. offers-some rs d 0 (key r) r (inr (m, refl))
