-- ===== src/Policy/Adoption/Laws.antt =====
-- The table that a node holds over the life of its daemon.
use greasewood.Base.{
  ◌==◌, nat_eq, option_eq, ◌<◌, ◌≡◌, refl, ◌↔◌, ◌⊎◌, inl, inr, true, Option, none, some, List,
  if◌then◌else◌, arith, Bytes, Bool-cases,
}
use greasewood.Errors.{Result, ok, err, returned, returned→ok}
use greasewood.Wire.Crypto.{Crypto}
use greasewood.Wire.Grants.{GrantTable, verify}
use greasewood.Policy.Adoption.Defs.{
  GrantPolicy, CacheFile, no_path, missing, present, is_newer, offer, refresh_from_cache,
}

-- The table's seq is above the one that is held, if one is held.
abbrev pub Exceeds : GrantTable → Option GrantTable → Type 0
Exceeds t none = Unit {0}
Exceeds t (some held) = held.seq < t.seq

is_newer_iff : (t : GrantTable) (o : Option GrantTable) → (is_newer t o ≡ true) ↔ Exceeds t o
is_newer_iff t none = (λ h. tt, λ h. refl)
is_newer_iff t (some held) = (λ h. ground arith, λ h. ground arith)

module _ ⦃C : Crypto⦄ (ca_pubs : List Bytes) where
  -- A table that is offered is adopted exactly when a trusted key signed it and its seq exceeds the one
  -- held. Then it is what the node holds; otherwise the node holds what it held.
  pub offer_iff :
      (t : GrantTable) (p : GrantPolicy)
      → (((offer ca_pubs (some (ok t)) p).1 ≡ true)
          ↔ ((verify ca_pubs t ≡ ok tt) × Exceeds t p.table))
        × ((offer ca_pubs (some (ok t)) p).0.table
            ≡ (if (offer ca_pubs (some (ok t)) p).1 then some t else p.table))
  unfolding offer
  offer_iff t p = (
    (
      λ h. (
        returned→ok (verify ca_pubs t) (ground arith),
        (is_newer_iff t p.table).0 (ground arith),
      ),
      λ (v, n). ground (arith, (is_newer_iff t p.table).1 n),
    ),
    ground arith,
  )

  -- One event in the life of a running daemon.
  pub data Step (p : GrantPolicy) : GrantPolicy → Type 0 where
    offered : (o : Option (Result GrantTable)) → Step p (offer ca_pubs o p).0
    refreshed : (file : CacheFile) → Step p (refresh_from_cache ca_pubs file p).0

  pub data Life (start : GrantPolicy) : GrantPolicy → Type 0 where
    begin : Life start start
    next : {p q : GrantPolicy} → Life start p → Step p q → Life start q

  -- What is held afterwards is what was held, or a table with a higher seq and a trusted signature.
  abbrev pub Follows : Option GrantTable → Option GrantTable → Type 0
  Follows before after =
      (after ≡ before)
      ⊎ ((t : GrantTable) × (after ≡ some t) × Exceeds t before × (verify ca_pubs t ≡ ok tt))

  offer-Follows :
      (o : Option (Result GrantTable)) (p : GrantPolicy)
      → Follows p.table (offer ca_pubs o p).0.table
  unfolding offer
  offer-Follows none p = inl refl
  offer-Follows (some (err e)) p = inl refl
  offer-Follows (some (ok t)) p = elim (Bool-cases (returned (verify ca_pubs t))) [
    | inl v ↦ elim (Bool-cases (is_newer t p.table)) [
      | inl n ↦
          inr (t, ground arith, (is_newer_iff t p.table).0 n, returned→ok (verify ca_pubs t) v)
      | inr n ↦ inl (ground arith)
    ]
    | inr v ↦ inl (ground arith)
  ]

  Step-Follows : {p q : GrantPolicy} → Step p q → Follows p.table q.table
  unfolding refresh_from_cache
  Step-Follows {p} (offered o) = offer-Follows o p
  Step-Follows {p} (refreshed no_path) = inl refl
  Step-Follows {p} (refreshed missing) = inl refl
  Step-Follows {p} (refreshed (present mtime parsed)) =
      elim (Bool-cases (some mtime == p.cache_mtime)) [
        | inl same ↦ inl (ground arith)
        | inr new ↦ rw new (offer-Follows (some parsed) (record p { cache_mtime = some mtime }))
      ]

  Follows-trans : (a b c : Option GrantTable) → Follows a b → Follows b c → Follows a c
  Follows-trans a b c (inl e) f = rw e at f
  Follows-trans a b c (inr x) (inl e) = inr (ground arith)
  Follows-trans none b c (inr (t, e, h, v)) (inr (u, e', h', v')) = inr (u, e', tt, v')
  Follows-trans (some held) b c (inr (t, e, h, v)) (inr (u, e', h', v')) =
      inr (u, e', lt_through, v')
    where
      lt_through : held.seq < u.seq
      lt_through = let k : Exceeds u (some t) = rw e at h' in omega arith

  -- Over any run of offers and reloads, replays and forgeries among them, a node either holds the table
  -- that it held or one with a higher seq and a trusted signature: it never goes back to an older table
  -- and never back to the flat mesh.
  pub Life-Follows : (start end : GrantPolicy) → Life start end → Follows start.table end.table
  Life-Follows start end begin = inl refl
  Life-Follows start end (next {p} l st) =
      Follows-trans start.table p.table end.table (Life-Follows start p l) (Step-Follows st)
