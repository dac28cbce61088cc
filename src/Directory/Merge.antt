-- ===== src/Directory/Merge.antt =====
-- `merge` of directory.py, by way of the abstract map of Latest.
use greasewood.Base.{
  ℕ, ◌≤◌, ◌<◌, ◌≡◌, refl, ◌↔◌, Bool, true, not, ◌&&◌, some, List, [], ◌∷◌, list_eq, nat_eq,
  if◌then◌else◌, keep, Has, Has-keep, ◌⊎◌, inl, inr, arith, Text, hex,
}
use greasewood.Base.Dict
use greasewood.Base.Dict.{NodupKeys}
use greasewood.Errors.{returned, ok, returned→ok}
use greasewood.Latest.Defs.{offer, offers, NoTies}
use greasewood.Latest.Laws.{
  offers-Offered, offers-some, offers-held, offers_order_free, offers-NodupKeys, offers_again,
}
use greasewood.Wire.Crypto.{Crypto}
use greasewood.Wire.Record.{NodeRecord, verify_structural}
use greasewood.Directory.Defs.{Directory, past_drop, drop_grace, merge_one, merge_from, merge}

-- A key is the hex of the identity of its record, which is genuine, and no key stands twice.
pub record IsSound ⦃C : Crypto⦄ (d : Directory) : Type 0 where
  pub nodup : NodupKeys d
  pub genuine :
      (k : Text) (r : NodeRecord)
      → Dict.lookup k d ≡ some r
      → (k ≡ hex r.id_pub) × (verify_structural r ≡ ok tt)

abbrev pub id_of : NodeRecord → Text
id_of r = hex r.id_pub

abbrev pub seq_of : NodeRecord → ℕ
seq_of r = r.seq

module _ ⦃C : Crypto⦄ where
  -- The gate of `merge`: the record is genuine, and not past the fleet's deadline.
  abbrev pub admissible : ℕ → NodeRecord → Bool
  admissible now r = returned (verify_structural r) && not (past_drop r drop_grace now)

  merge_one-offer :
      (now : ℕ) (r : NodeRecord) (d : Directory) (n : ℕ)
      → merge_one now r d n ≡ (if admissible now r then offer id_of seq_of r (d, n) else (d, n))
  unfolding merge_one offer
  merge_one-offer now r d n = ground arith

  merge_from-offers :
      (now : ℕ) (rs : List NodeRecord) (d : Directory) (n : ℕ)
      → merge_from now rs d n ≡ offers id_of seq_of (keep (admissible now) rs) (d, n)
  unfolding merge_from offers
  merge_from-offers now [] d n = refl
  merge_from-offers now (r ∷ rs) d n = ground (
    arith,
    merge_one-offer now r d n,
    merge_from-offers now rs (merge_one now r d n).0 (merge_one now r d n).1,
  )

  -- `merge` implements the abstract map, state and count: it offers exactly the records that pass the
  -- gate, keyed by identity and ranked by seq.
  pub merge-offers :
      (now : ℕ) (rs : List NodeRecord) (d : Directory)
      → merge now rs d ≡ offers id_of seq_of (keep (admissible now) rs) (d, 0)
  unfolding merge
  merge-offers now rs d = merge_from-offers now rs d 0

  -- A record for `k` that was there, or that was offered and passes the gate.
  abbrev pub Offered : ℕ → List NodeRecord → Directory → Text → NodeRecord → Type 0
  Offered now rs d k r =
      (Dict.lookup k d ≡ some r) ⊎ (Has r rs × (admissible now r ≡ true) × (k ≡ hex r.id_pub))

  to_kept :
      (now : ℕ) (rs : List NodeRecord) (d : Directory) (k : Text) (r : NodeRecord)
      → Offered now rs d k r
      → (Dict.lookup k d ≡ some r) ⊎ (Has r (keep (admissible now) rs) × (k ≡ hex r.id_pub))
  to_kept now rs d k r (inl h) = inl h
  to_kept now rs d k r (inr (m, a, p)) = inr ((Has-keep (admissible now) rs r).1 (m, a), p)

  of_kept :
      (now : ℕ) (rs : List NodeRecord) (d : Directory) (k : Text) (r : NodeRecord)
      → ((Dict.lookup k d ≡ some r) ⊎ (Has r (keep (admissible now) rs) × (k ≡ hex r.id_pub)))
      → Offered now rs d k r
  of_kept now rs d k r (inl h) = inl h
  of_kept now rs d k r (inr (m, p)) =
      let (m', a) = (Has-keep (admissible now) rs r).0 m in inr (m', a, p)

  -- After a merge a key holds a record that was there before or that was offered, genuine and not
  -- past the deadline, and no such record has a higher seq.
  pub merge-Offered :
      (now : ℕ) (rs : List NodeRecord) (d : Directory) (k : Text) (w : NodeRecord)
      → Dict.lookup k (merge now rs d).0 ≡ some w
      → Offered now rs d k w × ((r : NodeRecord) → Offered now rs d k r → r.seq ≤ w.seq)
  merge-Offered now rs d k w h =
      let (c, top) =
        offers-Offered id_of seq_of (keep (admissible now) rs) d 0 k w (rw merge-offers at h) in
      (of_kept now rs d k w c, λ r o. top r (to_kept now rs d k r o))

  -- A record that was there, or that is offered and passes the gate, leaves its key with a record of
  -- at least its seq.
  pub merge-some :
      (now : ℕ) (rs : List NodeRecord) (d : Directory) (k : Text) (r : NodeRecord)
      → Offered now rs d k r
      → (w : NodeRecord) × (Dict.lookup k (merge now rs d).0 ≡ some w) × (r.seq ≤ w.seq)
  merge-some now rs d k r c =
      rw merge-offers
        (offers-some id_of seq_of (keep (admissible now) rs) d 0 k r (to_kept now rs d k r c))

  -- A record that was there stays, or makes way for one with a higher seq.
  pub merge-held :
      (now : ℕ) (rs : List NodeRecord) (d : Directory) (k : Text) (r : NodeRecord)
      → Dict.lookup k d ≡ some r
      → (w : NodeRecord) × (Dict.lookup k (merge now rs d).0 ≡ some w) × ((w ≡ r) ⊎ (r.seq < w.seq))
  merge-held now rs d k r h =
      rw merge-offers (offers-held id_of seq_of (keep (admissible now) rs) d 0 k r h)

  -- Merging the same records in any order, and any number of times, leaves the same record under
  -- every key, as long as no two different records for one key, held or admissible, have the same
  -- seq.
  pub merge_order_free :
      (now : ℕ) (rs ss : List NodeRecord) (d : Directory) (k : Text)
      → ((r : NodeRecord) → Has r rs ↔ Has r ss)
      → NoTies id_of seq_of (Offered now rs d)
      → Dict.lookup k (merge now rs d).0 ≡ Dict.lookup k (merge now ss d).0
  merge_order_free now rs ss d k same no_ties =
      rw (merge-offers now rs d, merge-offers now ss d)
        (offers_order_free id_of seq_of (keep (admissible now) rs) (keep (admissible now) ss) d k
          (λ r. (kept rs ss (λ s. (same s).0) r, kept ss rs (λ s. (same s).1) r))
          (λ j r s x y. no_ties j r s (of_kept now rs d j r x) (of_kept now rs d j s y)))
    where
      kept :
          (xs ys : List NodeRecord)
          → ((r : NodeRecord) → Has r xs → Has r ys)
          → (r : NodeRecord) → Has r (keep (admissible now) xs)
          → Has r (keep (admissible now) ys)
      kept xs ys f r m =
          let (m', a) = (Has-keep (admissible now) xs r).0 m in
          (Has-keep (admissible now) ys r).1 (f r m', a)

  -- A second merge of the same records, at the same time, accepts nothing and changes nothing.
  pub merge_again :
      (now : ℕ) (rs : List NodeRecord) (d : Directory)
      → merge now rs (merge now rs d).0 ≡ ((merge now rs d).0, 0)
  merge_again now rs d = simp merge-offers (offers_again id_of seq_of (keep (admissible now) rs) d)

  -- Whatever is offered, forged or not, a merge keeps a sound directory sound: each key holds a
  -- record that passed the structural checks and whose own identity is the key.
  pub merge-IsSound :
      (now : ℕ) (rs : List NodeRecord) (d : Directory) → IsSound d → IsSound (merge now rs d).0
  merge-IsSound now rs d s = record {
    nodup = rw merge-offers (offers-NodupKeys id_of seq_of (keep (admissible now) rs) d 0 s.nodup);
    genuine = λ k w h. elim (merge-Offered now rs d k w h).0 [
      | inl old ↦ s.genuine k w old
      | inr (m, a, p) ↦ (p, returned→ok (verify_structural w) (ground arith))
    ];
  }
