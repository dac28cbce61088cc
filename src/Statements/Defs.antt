-- ===== src/Statements/Defs.antt =====
-- `StatementLog` of statements.py, its methods in the order of the source.
use greasewood.Base.{
  ℕ, ◌+◌, Bool, true, false, not, ◌&&◌, ◌||◌, Option, none, some, List, [], ◌∷◌, length, leb, ltb,
  ◌==◌, list_eq, nat_eq, option_eq, pair_eq, if◌then◌else◌, Text, Bytes, hex,
}
use greasewood.Base.Dict
use greasewood.Base.Dict.{Dict}
use greasewood.Errors.{returned}
use greasewood.Wire.Crypto.{Crypto}
use greasewood.Wire.Record.{NodeRecord}
use greasewood.Wire.Statement.{
  Kind, revoke, tombstone, setcaps, upgrade, kind_eq, AnchorStatement, verify,
}
use greasewood.Directory.Defs.{Directory, all_records, remove, drop_grace}

-- `_stmts`: from (kind, id_pub in hex) to the newest statement seen
abbrev pub StatementLog : Type 0
StatementLog = Dict (Kind × Text) AnchorStatement

abbrev pub empty : StatementLog
empty = []

abbrev pub key_of : AnchorStatement → Kind × Text
key_of s = (s.kind, hex s.id_pub)

module _ ⦃C : Crypto⦄ where
  -- The body of the loop of `merge`, with the count of accepted statements.
  unfoldable pub merge_one : List Bytes → AnchorStatement → StatementLog → ℕ → StatementLog × ℕ
  merge_one ca_pubs s log accepted =
      if not (returned (verify ca_pubs s))
      then (log, accepted)
      else elim (Dict.lookup (key_of s) log) [
        | none ↦ (Dict.insert (key_of s) s log, accepted + 1)
        | some existing ↦
            if ltb existing.ts s.ts
            then (Dict.insert (key_of s) s log, accepted + 1)
            else (log, accepted)
      ]

  unfoldable pub merge_from :
      List Bytes → List AnchorStatement → StatementLog → ℕ → StatementLog × ℕ
  unfolding merge_one
  merge_from ca_pubs [] log accepted = (log, accepted)
  merge_from ca_pubs (s ∷ ss) log accepted =
      let (log', n) = merge_one ca_pubs s log accepted in merge_from ca_pubs ss log' n

  -- `merge`
  unfoldable pub merge : List AnchorStatement → List Bytes → StatementLog → StatementLog × ℕ
  unfolding merge_from
  merge ss ca_pubs log = merge_from ca_pubs ss log 0

-- `add`: a statement that this holder just minted also replaces one of the same time.
unfoldable pub add : AnchorStatement → StatementLog → StatementLog
add s log = elim (Dict.lookup (key_of s) log) [
  | none ↦ Dict.insert (key_of s) s log
  | some existing ↦ if leb existing.ts s.ts then Dict.insert (key_of s) s log else log
]

-- `all`, `size`
unfoldable pub all_statements : StatementLog → List AnchorStatement
all_statements log = Dict.values log

unfoldable pub size : StatementLog → ℕ
size log = length log

-- `revoked_ids`
unfoldable pub revoked_ids : StatementLog → List Text
revoked_ids [] = []
revoked_ids (((k, i), s) ∷ log) =
    let rest = revoked_ids log in if k == revoke then i ∷ rest else rest

-- `tombstone_ts`
unfoldable pub tombstone_ts : Text → StatementLog → Option ℕ
tombstone_ts i log = elim (Dict.lookup (tombstone, i) log) [ none ↦ none | some s ↦ some s.ts ]

-- `caps_override`
unfoldable pub caps_override : Text → StatementLog → Option (List Text × ℕ)
caps_override i log = elim (Dict.lookup (setcaps, i) log) [
  | none ↦ none
  | some s ↦ some (s.caps, s.ts)
]

-- `upgrade_hint`: the first of the newest announcements
newest : AnchorStatement → StatementLog → AnchorStatement
newest best [] = best
newest best (((k, _), s) ∷ log) = newest (if k == upgrade && ltb best.ts s.ts then s else best) log

unfoldable pub upgrade_hint : StatementLog → Option AnchorStatement
unfolding newest
upgrade_hint [] = none
upgrade_hint (((k, _), s) ∷ log) =
    let later = upgrade_hint log in if k == upgrade then some (newest s log) else later

-- `is_dead`
unfoldable pub is_dead : Text → ℕ → StatementLog → Bool
unfolding tombstone_ts
is_dead i cred_iat log = elim (tombstone_ts i log) [ none ↦ false | some t ↦ leb cred_iat t ]

-- `drop_dead_records`: the body of its loop, and the loop over the records that the directory had at
-- the start.
unfoldable pub drop_one : StatementLog → Option Text → NodeRecord → Directory → ℕ → Directory × ℕ
unfolding remove is_dead
drop_one log protect r d dropped =
    if some (hex r.id_pub) == protect
    then (d, dropped)
    else if is_dead (hex r.id_pub) r.cred.iat log
    then (let (d', found) = remove (hex r.id_pub) d in (d', if found then dropped + 1 else dropped))
    else (d, dropped)

unfoldable pub drop_loop :
    StatementLog → Option Text → List NodeRecord → Directory → ℕ → Directory × ℕ
unfolding drop_one
drop_loop log protect [] d dropped = (d, dropped)
drop_loop log protect (r ∷ rs) d dropped =
    let (d', n) = drop_one log protect r d dropped in drop_loop log protect rs d' n

unfoldable pub drop_dead_records : StatementLog → Option Text → Directory → Directory × ℕ
unfolding drop_loop all_records
drop_dead_records log protect d = drop_loop log protect (all_records d) d 0

-- Whether `prune` takes this entry of the log.
unfoldable pub doomed : ℕ → StatementLog → Kind × Text → AnchorStatement → Bool
doomed now log (k, i) s =
    if k == tombstone
    then leb (s.ts + drop_grace) now
    else if k == setcaps
    then elim (Dict.lookup (tombstone, i) log) [ none ↦ false | some t ↦ leb s.ts t.ts ]
      || elim (Dict.lookup (revoke, i) log) [ none ↦ false | some _ ↦ true ]
    else false

unfoldable pub doomed_keys : ℕ → StatementLog → StatementLog → List (Kind × Text)
doomed_keys now log [] = []
doomed_keys now log ((k, s) ∷ rest) =
    let more = doomed_keys now log rest in if doomed now log k s then k ∷ more else more

-- `prune`
unfoldable pub prune : ℕ → StatementLog → StatementLog × ℕ
unfolding doomed_keys doomed
prune now log = let gone = doomed_keys now log log in (Dict.erase_all gone log, length gone)

-- `load`: the file is missing or unreadable, or holds entries of which some cannot be parsed.
parsed_statements : List (Option AnchorStatement) → List AnchorStatement
parsed_statements [] = []
parsed_statements (none ∷ entries) = parsed_statements entries
parsed_statements (some s ∷ entries) = s ∷ parsed_statements entries

module _ ⦃C : Crypto⦄ where
  unfoldable pub load : List Bytes → Option (List (Option AnchorStatement)) → StatementLog
  unfolding parsed_statements merge
  load ca_pubs none = empty
  load ca_pubs (some entries) = (merge (parsed_statements entries) ca_pubs empty).0
