-- ===== src/Statements/Lifetime.antt =====
-- `prune`, `is_dead` and `drop_dead_records` of statements.py, and the log over a daemon's life.
use greasewood.Base.{
  ℕ, ◌+◌, ◌≤◌, ◌≡◌, refl, Bool, true, false, Option, none, some, List, [], ◌∷◌, leb, ◌==◌, list_eq,
  nat_eq, pair_eq, option_eq, if◌then◌else◌, inl, inr, arith, Text, Bytes, Bool-cases, Option-cases,
  contains,
}
use greasewood.Base.Dict
use greasewood.Base.Dict.{NodupKeys}
use greasewood.Wire.Crypto.{Crypto}
use greasewood.Wire.Statement.{AnchorStatement, Kind, revoke, tombstone, kind_eq}
use greasewood.Directory.Defs.{drop_grace}
use greasewood.Statements.Defs.{
  StatementLog, key_of, merge, add, revoked_ids, is_dead, doomed, doomed_keys, prune,
}
use greasewood.Statements.Merge.{statements-some, merge-NodupKeys, contains-revoked_ids, lookup-add}

abbrev pub taken : ℕ → StatementLog → Kind × Text → Option AnchorStatement → Bool
taken now log k none = false
taken now log k (some s) = doomed now log k s

contains-doomed_keys :
    (now : ℕ) (log rest : StatementLog) (k : Kind × Text)
    → NodupKeys rest
    → contains (doomed_keys now log rest) k ≡ taken now log k (Dict.lookup k rest)
unfolding doomed_keys
contains-doomed_keys now log [] k u =
    ground (arith, Dict.lookup-nil {K = Kind × Text} {V = AnchorStatement} k)
contains-doomed_keys now log ((j, s) ∷ rest) k (fresh, u) =
    ground (arith, Dict.lookup-cons k j s rest, contains-doomed_keys now log rest k u)

-- `prune` of a log with no key twice takes exactly the entries that its rules name, judged against
-- the log as it was, and leaves every other entry.
pub lookup-prune :
    (now : ℕ) (log : StatementLog) (k : Kind × Text)
    → NodupKeys log
    → Dict.lookup k (prune now log).0
      ≡ (if taken now log k (Dict.lookup k log) then none else Dict.lookup k log)
unfolding prune
lookup-prune now log k u = ground (
  arith,
  Dict.lookup-erase_all (doomed_keys now log log) k log,
  contains-doomed_keys now log log k u,
)

not_taken_revoke :
    (now : ℕ) (log : StatementLog) (i : Text) (o : Option AnchorStatement)
    → taken now log (revoke, i) o ≡ false
unfolding doomed
not_taken_revoke now log i none = refl
not_taken_revoke now log i (some s) = ground arith

pub taken_tombstone :
    (now : ℕ) (log : StatementLog) (i : Text) (s : AnchorStatement)
    → taken now log (tombstone, i) (some s) ≡ leb (s.ts + drop_grace) now
unfolding doomed
taken_tombstone now log i s = ground arith

-- One change of the log, by whichever of its methods makes it.
pub data Step ⦃C : Crypto⦄ (ca_pubs : List Bytes) (log : StatementLog) : StatementLog → Type 0 where
  merged : (ss : List AnchorStatement) → Step ca_pubs log (merge ss ca_pubs log).0
  added : (s : AnchorStatement) → Step ca_pubs log (add s log)
  pruned : (now : ℕ) → Step ca_pubs log (prune now log).0

-- The logs that a start can turn into.
pub data Life ⦃C : Crypto⦄ (ca_pubs : List Bytes) (start : StatementLog)
    : StatementLog → Type 0 where
  begin : Life ca_pubs start start
  next :
      {log log' : StatementLog}
      → Life ca_pubs start log
      → Step ca_pubs log log'
      → Life ca_pubs start log'

add-NodupKeys : (s : AnchorStatement) (log : StatementLog) → NodupKeys log → NodupKeys (add s log)
unfolding add
add-NodupKeys s log u = ground (arith, Dict.insert-NodupKeys (key_of s) s log u)

module _ ⦃C : Crypto⦄ {ca_pubs : List Bytes} where
  Step-NodupKeys :
      {log log' : StatementLog} → Step ca_pubs log log' → NodupKeys log → NodupKeys log'
  unfolding prune
  Step-NodupKeys {log} (merged ss) u = merge-NodupKeys ss ca_pubs log u
  Step-NodupKeys {log} (added s) u = add-NodupKeys s log u
  Step-NodupKeys {log} (pruned now) u = Dict.erase_all-NodupKeys (doomed_keys now log log) log u

  pub Life-NodupKeys :
      {start log : StatementLog} → Life ca_pubs start log → NodupKeys start → NodupKeys log
  Life-NodupKeys begin u = u
  Life-NodupKeys (next l st) u = Step-NodupKeys st (Life-NodupKeys l u)

  Step-revoked :
      {log log' : StatementLog} (i : Text) (s : AnchorStatement)
      → Step ca_pubs log log'
      → NodupKeys log
      → Dict.lookup (revoke, i) log ≡ some s
      → (s' : AnchorStatement) × (Dict.lookup (revoke, i) log' ≡ some s') × (s.ts ≤ s'.ts)
  Step-revoked {log} i s (merged ss) u h = statements-some ss ca_pubs log (revoke, i) s (inl h)
  Step-revoked {log} i s (added t) u h = elim (Bool-cases ((revoke, i) == key_of t)) [
    | inl same ↦ elim (Bool-cases (leb s.ts t.ts)) [
      | inl le ↦ (t, ground (arith, lookup-add t log (revoke, i)), ground arith)
      | inr gt ↦ (s, ground (arith, lookup-add t log (revoke, i)), ground arith)
    ]
    | inr differ ↦ (s, ground (arith, lookup-add t log (revoke, i)), omega arith)
  ]
  Step-revoked {log} i s (pruned now) u h = (
    s,
    ground (
      arith,
      lookup-prune now log (revoke, i) u,
      not_taken_revoke now log i (Dict.lookup (revoke, i) log),
    ),
    omega arith,
  )

  Life-revoked :
      {start log : StatementLog} (i : Text) (s : AnchorStatement)
      → Life ca_pubs start log
      → NodupKeys start
      → Dict.lookup (revoke, i) start ≡ some s
      → (s' : AnchorStatement) × (Dict.lookup (revoke, i) log ≡ some s') × (s.ts ≤ s'.ts)
  Life-revoked i s begin u h = (s, h, omega arith)
  Life-revoked i s (next l st) u h =
      let (s', p, q) = Life-revoked i s l u h in
      let (s'', p', q') = Step-revoked i s' st (Life-NodupKeys l u) p in (s'', p', omega arith)

  -- Once an identity is in the revoked set of a log with no key twice, no merge, no new statement
  -- and no pruning, in any order and at any time, takes it out again.
  pub revoked_forever :
      (start log : StatementLog) (i : Text)
      → Life ca_pubs start log
      → NodupKeys start
      → contains (revoked_ids start) i ≡ true
      → contains (revoked_ids log) i ≡ true
  revoked_forever start log i l u h = elim (Option-cases (Dict.lookup (revoke, i) start)) [
    | inl absent ↦ ground (arith, contains-revoked_ids start i)
    | inr (s, there) ↦
        let (s', p, q) = Life-revoked i s l u there in ground (arith, contains-revoked_ids log i)
  ]

module _ ⦃C : Crypto⦄ where
  -- A merge never revives: a membership that a tombstone has ended stays ended whatever is merged.
  pub is_dead-merge :
      (ss : List AnchorStatement) (ca_pubs : List Bytes) (log : StatementLog) (i : Text)
      (cred_iat : ℕ)
      → is_dead i cred_iat log ≡ true
      → is_dead i cred_iat (merge ss ca_pubs log).0 ≡ true
  unfolding is_dead
  is_dead-merge ss ca_pubs log i cred_iat h = elim (Option-cases (Dict.lookup (tombstone, i) log)) [
    | inl absent ↦ ground arith
    | inr (t, there) ↦
        let (t', p, q) = statements-some ss ca_pubs log (tombstone, i) t (inl there) in ground arith
  ]
