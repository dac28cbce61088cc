-- ===== src/Statements/Merge.antt =====
-- `merge`, `add` and `revoked_ids` of statements.py, by way of the abstract map of Latest.
use greasewood.Base.{
  ℕ, ◌≤◌, ◌≡◌, refl, ◌↔◌, Bool, true, false, none, some, List, [], ◌∷◌, leb, ◌==◌, list_eq, nat_eq,
  pair_eq, if◌then◌else◌, keep, Has, Has-keep, ◌⊎◌, inl, inr, arith, Text, Bytes, contains,
}
use greasewood.Base.Dict
use greasewood.Base.Dict.{NodupKeys}
use greasewood.Errors.{returned, ok, returned→ok}
use greasewood.Latest.Defs.{offer, offers, NoTies}
use greasewood.Latest.Laws.{offers-Offered, offers-some, offers_order_free, offers-NodupKeys}
use greasewood.Wire.Crypto.{Crypto}
use greasewood.Wire.Statement.{AnchorStatement, Kind, revoke, kind_eq, verify}
use greasewood.Statements.Defs.{
  StatementLog, key_of, merge_one, merge_from, merge, add, revoked_ids,
}

abbrev pub ts_of : AnchorStatement → ℕ
ts_of s = s.ts

-- Each entry stands under its own kind and identity, carries a signature of a trusted key, and no key
-- stands twice.
pub record IsAuthentic ⦃C : Crypto⦄ (ca_pubs : List Bytes) (log : StatementLog) : Type 0 where
  pub nodup : NodupKeys log
  pub authentic :
      (k : Kind × Text) (s : AnchorStatement)
      → Dict.lookup k log ≡ some s
      → (k ≡ key_of s) × (verify ca_pubs s ≡ ok tt)

module _ ⦃C : Crypto⦄ where
  abbrev pub trusted : List Bytes → AnchorStatement → Bool
  trusted ca_pubs s = returned (verify ca_pubs s)

  merge_one-offer :
      (ca_pubs : List Bytes) (s : AnchorStatement) (log : StatementLog) (n : ℕ)
      → merge_one ca_pubs s log n
        ≡ (if trusted ca_pubs s then offer key_of ts_of s (log, n) else (log, n))
  unfolding merge_one offer
  merge_one-offer ca_pubs s log n = ground arith

  merge_from-offers :
      (ca_pubs : List Bytes) (ss : List AnchorStatement) (log : StatementLog) (n : ℕ)
      → merge_from ca_pubs ss log n ≡ offers key_of ts_of (keep (trusted ca_pubs) ss) (log, n)
  unfolding merge_from offers
  merge_from-offers ca_pubs [] log n = refl
  merge_from-offers ca_pubs (s ∷ ss) log n = ground (
    arith,
    merge_one-offer ca_pubs s log n,
    merge_from-offers ca_pubs ss (merge_one ca_pubs s log n).0 (merge_one ca_pubs s log n).1,
  )

  -- `merge` implements the abstract map, state and count: it offers exactly the statements that a
  -- trusted key signed, keyed by kind and identity and ranked by time.
  pub statements-offers :
      (ss : List AnchorStatement) (ca_pubs : List Bytes) (log : StatementLog)
      → merge ss ca_pubs log ≡ offers key_of ts_of (keep (trusted ca_pubs) ss) (log, 0)
  unfolding merge
  statements-offers ss ca_pubs log = merge_from-offers ca_pubs ss log 0

  -- A statement for `k` that was there, or that was offered with a trusted signature.
  abbrev pub Offered :
      List AnchorStatement → List Bytes → StatementLog → Kind × Text → AnchorStatement → Type 0
  Offered ss ca_pubs log k s =
      (Dict.lookup k log ≡ some s) ⊎ (Has s ss × (trusted ca_pubs s ≡ true) × (k ≡ key_of s))

  to_kept :
      (ss : List AnchorStatement) (ca_pubs : List Bytes) (log : StatementLog) (k : Kind × Text)
      (s : AnchorStatement)
      → Offered ss ca_pubs log k s
      → (Dict.lookup k log ≡ some s) ⊎ (Has s (keep (trusted ca_pubs) ss) × (k ≡ key_of s))
  to_kept ss ca_pubs log k s (inl h) = inl h
  to_kept ss ca_pubs log k s (inr (m, a, p)) = inr ((Has-keep (trusted ca_pubs) ss s).1 (m, a), p)

  of_kept :
      (ss : List AnchorStatement) (ca_pubs : List Bytes) (log : StatementLog) (k : Kind × Text)
      (s : AnchorStatement)
      → ((Dict.lookup k log ≡ some s) ⊎ (Has s (keep (trusted ca_pubs) ss) × (k ≡ key_of s)))
      → Offered ss ca_pubs log k s
  of_kept ss ca_pubs log k s (inl h) = inl h
  of_kept ss ca_pubs log k s (inr (m, p)) =
      let (m', a) = (Has-keep (trusted ca_pubs) ss s).0 m in inr (m', a, p)

  -- After a merge a key holds a statement that was there or that was offered with a trusted
  -- signature, and no such statement is later.
  pub statements-Offered :
      (ss : List AnchorStatement) (ca_pubs : List Bytes) (log : StatementLog) (k : Kind × Text)
      (w : AnchorStatement)
      → Dict.lookup k (merge ss ca_pubs log).0 ≡ some w
      → Offered ss ca_pubs log k w
        × ((s : AnchorStatement) → Offered ss ca_pubs log k s → s.ts ≤ w.ts)
  statements-Offered ss ca_pubs log k w h =
      let (c, top) =
        offers-Offered key_of ts_of (keep (trusted ca_pubs) ss) log 0 k w
          (rw statements-offers at h) in
      (of_kept ss ca_pubs log k w c, λ s o. top s (to_kept ss ca_pubs log k s o))

  -- A statement that was there, or that is offered with a trusted signature, leaves its key with a
  -- statement of at least its time.
  pub statements-some :
      (ss : List AnchorStatement) (ca_pubs : List Bytes) (log : StatementLog) (k : Kind × Text)
      (s : AnchorStatement)
      → Offered ss ca_pubs log k s
      → (w : AnchorStatement) × (Dict.lookup k (merge ss ca_pubs log).0 ≡ some w) × (s.ts ≤ w.ts)
  statements-some ss ca_pubs log k s c = rw statements-offers (
      offers-some key_of ts_of (keep (trusted ca_pubs) ss) log 0 k s (to_kept ss ca_pubs log k s c))

  -- Statements merge to the same log in any order, and any number of times, as long as no two
  -- different statements for one key, held or offered, are of the same time.
  pub statements_order_free :
      (ss us : List AnchorStatement) (ca_pubs : List Bytes) (log : StatementLog) (k : Kind × Text)
      → ((s : AnchorStatement) → Has s ss ↔ Has s us)
      → NoTies key_of ts_of (Offered ss ca_pubs log)
      → Dict.lookup k (merge ss ca_pubs log).0 ≡ Dict.lookup k (merge us ca_pubs log).0
  statements_order_free ss us ca_pubs log k same no_ties =
      rw (statements-offers ss ca_pubs log, statements-offers us ca_pubs log)
        (offers_order_free key_of ts_of (keep (trusted ca_pubs) ss) (keep (trusted ca_pubs) us) log
          k (λ s. (kept ss us (λ t. (same t).0) s, kept us ss (λ t. (same t).1) s))
          (λ j s t x y.
            no_ties j s t (of_kept ss ca_pubs log j s x) (of_kept ss ca_pubs log j t y)))
    where
      kept :
          (xs ys : List AnchorStatement)
          → ((s : AnchorStatement) → Has s xs → Has s ys)
          → (s : AnchorStatement) → Has s (keep (trusted ca_pubs) xs)
          → Has s (keep (trusted ca_pubs) ys)
      kept xs ys f s m =
          let (m', a) = (Has-keep (trusted ca_pubs) xs s).0 m in
          (Has-keep (trusted ca_pubs) ys s).1 (f s m', a)

  pub merge-NodupKeys :
      (ss : List AnchorStatement) (ca_pubs : List Bytes) (log : StatementLog)
      → NodupKeys log
      → NodupKeys (merge ss ca_pubs log).0
  merge-NodupKeys ss ca_pubs log u =
      rw statements-offers (offers-NodupKeys key_of ts_of (keep (trusted ca_pubs) ss) log 0 u)

  -- Whatever is offered, a merge keeps an authentic log authentic: every entry stands under its own
  -- key with a signature of a trusted key.
  pub merge-IsAuthentic :
      (ss : List AnchorStatement) (ca_pubs : List Bytes) (log : StatementLog)
      → IsAuthentic ca_pubs log
      → IsAuthentic ca_pubs (merge ss ca_pubs log).0
  merge-IsAuthentic ss ca_pubs log a = record {
    nodup = merge-NodupKeys ss ca_pubs log a.nodup;
    authentic = λ k w h. elim (statements-Offered ss ca_pubs log k w h).0 [
      | inl old ↦ a.authentic k w old
      | inr (m, t, p) ↦ (p, returned→ok (verify ca_pubs w) t)
    ];
  }

-- An identity is in the revoked set exactly when the log holds a revoke for it.
pub contains-revoked_ids :
    (log : StatementLog) (i : Text)
    → contains (revoked_ids log) i
      ≡ elim (Dict.lookup (revoke, i) log) [ none ↦ false | some _ ↦ true ]
unfolding revoked_ids
contains-revoked_ids [] i =
    ground (arith, Dict.lookup-nil {K = Kind × Text} {V = AnchorStatement} (revoke, i))
contains-revoked_ids (((k, j), s) ∷ log) i =
    ground (
      arith,
      Dict.lookup-cons {K = Kind × Text} (revoke, i) (k, j) s log,
      contains-revoked_ids log i,
    )

-- What a key holds after `add`.
pub lookup-add :
    (s : AnchorStatement) (log : StatementLog) (k : Kind × Text)
    → Dict.lookup k (add s log) ≡ (
        if k == key_of s
        then elim (Dict.lookup k log) [
          | none ↦ some s
          | some old ↦ (if leb old.ts s.ts then some s else some old)
        ]
        else Dict.lookup k log)
unfolding add
lookup-add s log k = ground (arith, Dict.lookup-insert k (key_of s) s log)
