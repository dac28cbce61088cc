-- ===== src/Attest/Laws.antt =====
-- `merge` and `prune` of attest.py, by way of the abstract map of Latest.
use greasewood.Base.{
  ℕ, ◌+◌, ◌≤◌, ◌≡◌, refl, Bool, true, false, not, ◌&&◌, ◌||◌, none, some, List, [], ◌∷◌, ltb,
  list_eq, nat_eq, pair_eq, if◌then◌else◌, keep, contains, Has-keep, ◌⊎◌, inl, inr, arith, Text,
  hex,
}
use greasewood.Base.Dict
use greasewood.Base.Dict.{NodupKeys}
use greasewood.Errors.{returned, ok, returned→ok}
use greasewood.Latest.Defs.{offer, offers}
use greasewood.Latest.Laws.{offers-Offered, offers-NodupKeys}
use greasewood.Wire.Crypto.{Crypto}
use greasewood.Wire.Requests.{EndpointAttestation, verify_attestation}
use greasewood.Attest.Defs.{
  AttestLog, pair_of, max_age, ahead, is_stale, merge_one, merge_from, merge, old_pairs, prune,
}

abbrev pub ts_of : EndpointAttestation → ℕ
ts_of a = a.ts

module _ ⦃C : Crypto⦄ (known_attester : Text → Bool) where
  -- The gate of `merge`: self-signed, fresh, and by a node that is known.
  abbrev pub credible : ℕ → EndpointAttestation → Bool
  credible now a =
      returned (verify_attestation a)
      && (not (is_stale now a || ltb (now + ahead) a.ts) && known_attester (hex a.attester))

  merge_one-offer :
      (now : ℕ) (a : EndpointAttestation) (log : AttestLog) (n : ℕ)
      → merge_one known_attester now a log n
        ≡ (if credible now a then offer pair_of ts_of a (log, n) else (log, n))
  unfolding merge_one offer
  merge_one-offer now a log n = ground arith

  merge_from-offers :
      (now : ℕ) (l : List EndpointAttestation) (log : AttestLog) (n : ℕ)
      → merge_from known_attester now l log n
        ≡ offers pair_of ts_of (keep (credible now) l) (log, n)
  unfolding merge_from offers
  merge_from-offers now [] log n = refl
  merge_from-offers now (a ∷ l) log n = ground (
    arith,
    merge_one-offer now a log n,
    merge_from-offers now l (merge_one known_attester now a log n).0
        (merge_one known_attester now a log n).1,
  )

  -- `merge` of attestations implements the abstract map, state and count: it offers exactly those that
  -- are self-signed, fresh and by a known node, keyed by the pair of nodes and ranked by time.
  pub attestations-offers :
      (now : ℕ) (l : List EndpointAttestation) (log : AttestLog)
      → merge known_attester now l log ≡ offers pair_of ts_of (keep (credible now) l) (log, 0)
  unfolding merge
  attestations-offers now l log = merge_from-offers now l log 0

  merge-credible :
      (now : ℕ) (l : List EndpointAttestation) (log : AttestLog) (k : Text × Text)
      (w : EndpointAttestation)
      → Dict.lookup k (merge known_attester now l log).0 ≡ some w
      → (Dict.lookup k log ≡ some w) ⊎ ((credible now w ≡ true) × (k ≡ pair_of w))
  merge-credible now l log k w h =
      elim (offers-Offered pair_of ts_of (keep (credible now) l) log 0 k w
        (rw attestations-offers at h)).0 [
          | inl old ↦ inl old
          | inr (m, p) ↦ inr (((Has-keep (credible now) l w).0 m).1, p)
        ]

contains-old_pairs :
    (now : ℕ) (log : AttestLog) (k : Text × Text)
    → NodupKeys log
    → contains (old_pairs now log) k
      ≡ elim (Dict.lookup k log) [ none ↦ false | some a ↦ is_stale now a ]
unfolding old_pairs
contains-old_pairs now [] k u =
    ground (arith, Dict.lookup-nil {K = Text × Text} {V = EndpointAttestation} k)
contains-old_pairs now ((j, a) ∷ log) k (fresh, u) =
    ground (arith, Dict.lookup-cons {K = Text × Text} k j a log, contains-old_pairs now log k u)

module _ ⦃C : Crypto⦄ (known_attester : Text → Bool) where
  -- After a merge into a log with no pair twice and a pruning at the same time, what the log holds
  -- under a pair is not older than the maximal age, and is either what it held before or an
  -- attestation that the attester of the pair signed about its subject, a node known at that time,
  -- dated at most five minutes ahead.
  pub prune-merge :
      (now : ℕ) (l : List EndpointAttestation) (log : AttestLog) (k : Text × Text)
      (w : EndpointAttestation)
      → NodupKeys log
      → Dict.lookup k (prune now (merge known_attester now l log).0).0 ≡ some w
      → (now ≤ w.ts + max_age)
        × ((Dict.lookup k log ≡ some w)
            ⊎ ((verify_attestation w ≡ ok tt)
                × (known_attester (hex w.attester) ≡ true)
                × (w.ts ≤ now + ahead)
                × (k ≡ pair_of w)))
  unfolding prune is_stale
  prune-merge now l log k w u h =
      let merged = (merge known_attester now l log).0 in
      let nodup : NodupKeys merged =
        rw attestations-offers
          (offers-NodupKeys pair_of ts_of (keep (credible known_attester now) l) log 0 u) in
      let left = Dict.lookup-erase_all (old_pairs now merged) k merged in
      let there : Dict.lookup k merged ≡ some w = ground arith in
      (
        ground (arith, contains-old_pairs now merged k nodup),
        elim (merge-credible known_attester now l log k w there) [
          | inl old ↦ inl old
          | inr (c, p) ↦
              inr (returned→ok (verify_attestation w) (ground arith), ground arith, ground arith, p)
        ],
      )
