-- ===== src/Statements/Drop.antt =====
-- `drop_dead_records` of statements.py, which carries a tombstone's effect to the directory, and what
-- is left of that effect after `prune`.
use greasewood.Base.{
  ℕ, ◌+◌, ◌≤◌, ◌<◌, ◌≡◌, refl, Bool, true, false, not, ◌&&◌, Option, none, some, List, [], ◌∷◌, any,
  ◌==◌, list_eq, nat_eq, pair_eq, option_eq, if◌then◌else◌, any-Has, Has-any, inl, inr, arith, Text,
  hex, Bool-cases, Option-cases,
}
use greasewood.Base.Dict
use greasewood.Base.Dict.{NodupKeys, Has-lookup, lookup-Has, Has-values, values-Has}
use greasewood.Errors.{ok}
use greasewood.Wire.Crypto.{Crypto}
use greasewood.Wire.Record.{NodeRecord, verify_structural}
use greasewood.Wire.Statement.{AnchorStatement, tombstone, kind_eq}
use greasewood.Directory.Defs.{Directory, drop_grace, past_drop}
use greasewood.Directory.Defs
use greasewood.Directory.Merge.{IsSound}
use greasewood.Statements.Defs.{
  StatementLog, is_dead, drop_one, drop_loop, drop_dead_records, prune,
}
use greasewood.Statements.Lifetime.{lookup-prune, taken_tombstone}

-- Whether the loop removes this record.
abbrev pub killed : StatementLog → Option Text → NodeRecord → Bool
killed log protect r = not (some (hex r.id_pub) == protect) && is_dead (hex r.id_pub) r.cred.iat log

lookup-drop_one :
    (log : StatementLog) (protect : Option Text) (r : NodeRecord) (d : Directory) (n : ℕ) (k : Text)
    → Dict.lookup k (drop_one log protect r d n).0
      ≡ (if (k == hex r.id_pub) && killed log protect r then none else Dict.lookup k d)
unfolding drop_one
lookup-drop_one log protect r d n k = ground (arith, Dict.lookup-erase k (hex r.id_pub) d)

lookup-drop_loop :
    (log : StatementLog) (protect : Option Text) (rs : List NodeRecord) (d : Directory) (n : ℕ)
    (k : Text)
    → Dict.lookup k (drop_loop log protect rs d n).0 ≡ (
        if any (λ r. (k == hex r.id_pub) && killed log protect r) rs then none else Dict.lookup k d)
unfolding drop_loop
lookup-drop_loop log protect [] d n k = refl
lookup-drop_loop log protect (r ∷ rs) d n k = ground (
  arith,
  lookup-drop_one log protect r d n k,
  lookup-drop_loop log protect rs (drop_one log protect r d n).0 (drop_one log protect r d n).1 k,
)

module _ ⦃C : Crypto⦄ where
  abbrev pub killed_at : StatementLog → Option Text → Option NodeRecord → Bool
  killed_at log protect none = false
  killed_at log protect (some r) = killed log protect r

  any-killed-true :
      (log : StatementLog) (protect : Option Text) (d : Directory) (k : Text) (r : NodeRecord)
      → IsSound d
      → Dict.lookup k d ≡ some r
      → killed log protect r ≡ true
      → any (λ s. (k == hex s.id_pub) && killed log protect s) (Dict.values d) ≡ true
  any-killed-true log protect d k r s h t =
      any-Has (λ v. (k == hex v.id_pub) && killed log protect v) (Dict.values d) r
        (Has-values k r d (Has-lookup k r d h)) (ground (arith, s.genuine k r h))

  any-killed-lookup :
      (log : StatementLog) (protect : Option Text) (d : Directory) (k : Text)
      → IsSound d
      → any (λ s. (k == hex s.id_pub) && killed log protect s) (Dict.values d) ≡ true
      → killed_at log protect (Dict.lookup k d) ≡ true
  any-killed-lookup log protect d k s h =
      let (r, m, t) =
        Has-any (λ v. (k == hex v.id_pub) && killed log protect v) (Dict.values d) h in
      let (j, m') = values-Has r d m in
      let found = lookup-Has j r d s.nodup m' in ground (arith, s.genuine j r found)

  -- Dropping the dead from a sound directory takes exactly the records whose credential a tombstone
  -- of the log has ended, except the protected one, and leaves every other record as it was.
  pub lookup-drop_dead_records :
      (log : StatementLog) (protect : Option Text) (d : Directory) (k : Text)
      → IsSound d
      → Dict.lookup k (drop_dead_records log protect d).0
        ≡ (if killed_at log protect (Dict.lookup k d) then none else Dict.lookup k d)
  unfolding drop_dead_records
  lookup-drop_dead_records log protect d k s =
      rw (lookup-drop_loop log protect (Dict.values d) d 0 k)
        (elim (Bool-cases
          (any (λ v. (k == hex v.id_pub) && killed log protect v) (Dict.values d))) [
            | inl t ↦ rw (t, any-killed-lookup log protect d k s t)
            | inr f ↦ rw f (elim (Option-cases (Dict.lookup k d)) [
              | inl absent ↦ rw absent
              | inr (r, there) ↦ elim (Bool-cases (killed log protect r)) [
                | inl t ↦ absurd (cc (any-killed-true log protect d k r s there t))
                | inr g ↦ rw (there, g)
              ]
            ])
          ])

  -- A tombstone can go while a record that it ended is still admissible: for a genuine record that
  -- the directory does not hold, with a credential no younger than the tombstone, from the fleet's
  -- drop grace after the tombstone up to the drop grace after the credential's expiry, `prune`
  -- takes the tombstone, the membership counts as alive again, and `merge` takes the departed
  -- node's record back.
  pub pruned_tombstone_gap :
      (now : ℕ) (log : StatementLog) (d : Directory) (r : NodeRecord) (t : AnchorStatement)
      → NodupKeys log
      → Dict.lookup (tombstone, hex r.id_pub) log ≡ some t
      → r.cred.iat ≤ t.ts
      → t.ts + drop_grace ≤ now
      → now < r.cred.exp + drop_grace
      → verify_structural r ≡ ok tt
      → Dict.lookup (hex r.id_pub) d ≡ none
      → (is_dead (hex r.id_pub) r.cred.iat log ≡ true)
        × (is_dead (hex r.id_pub) r.cred.iat (prune now log).0 ≡ false)
        × (Dict.lookup (hex r.id_pub) (Defs.merge now (r ∷ []) d).0 ≡ some r)
  unfolding is_dead past_drop Defs.merge
  pruned_tombstone_gap now log d r t u there ended old fresh genuine absent = (
    ground arith,
    ground (
      arith,
      lookup-prune now log (tombstone, hex r.id_pub) u,
      taken_tombstone now log (hex r.id_pub) t,
    ),
    ground (arith, Dict.lookup-insert (hex r.id_pub) (hex r.id_pub) r d),
  )
