-- ===== src/Directory/Defs.antt =====
-- `Directory` of directory.py, its methods in the order of the source.
use greasewood.Base.{
  ℕ, ◌+◌, ◌*◌, Bool, true, false, not, ◌&&◌, Option, none, some, List, [], ◌∷◌, length, leb, ltb,
  ◌==◌, list_eq, nat_eq, option_eq, if◌then◌else◌, Text, hex,
}
use greasewood.Base.Dict
use greasewood.Base.Dict.{Dict}
use greasewood.Errors.{returned}
use greasewood.Wire.Time.{day}
use greasewood.Wire.Crypto.{Crypto}
use greasewood.Wire.Record.{NodeRecord, verify_structural}

-- `DROP_GRACE`, seven days
abbrev pub drop_grace : ℕ
drop_grace = 7 * day

-- `_past_drop`
unfoldable pub past_drop : NodeRecord → ℕ → ℕ → Bool
past_drop r grace now = leb (r.cred.exp + grace) now

-- `_records`: from id_pub in hex to the record
abbrev pub Directory : Type 0
Directory = Dict Text NodeRecord

abbrev pub empty : Directory
empty = []

module _ ⦃C : Crypto⦄ where
  -- The body of the loop of `merge`, with the count of accepted records.
  unfoldable pub merge_one : ℕ → NodeRecord → Directory → ℕ → Directory × ℕ
  merge_one now r d accepted =
      if not (returned (verify_structural r))
      then (d, accepted)
      else if past_drop r drop_grace now
      then (d, accepted)
      else elim (Dict.lookup (hex r.id_pub) d) [
        | none ↦ (Dict.insert (hex r.id_pub) r d, accepted + 1)
        | some existing ↦
            if ltb existing.seq r.seq
            then (Dict.insert (hex r.id_pub) r d, accepted + 1)
            else (d, accepted)
      ]

  unfoldable pub merge_from : ℕ → List NodeRecord → Directory → ℕ → Directory × ℕ
  unfolding merge_one
  merge_from now [] d accepted = (d, accepted)
  merge_from now (r ∷ rs) d accepted =
      let (d', n) = merge_one now r d accepted in merge_from now rs d' n

  -- `merge`, at the clock `now`
  unfoldable pub merge : ℕ → List NodeRecord → Directory → Directory × ℕ
  unfolding merge_from
  merge now rs d = merge_from now rs d 0

-- The keys that `prune_stale` collects.
unfoldable pub stale_keys : ℕ → ℕ → Option Text → Directory → List Text
stale_keys grace now protect [] = []
stale_keys grace now protect ((k, r) ∷ d) =
    let rest = stale_keys grace now protect d in
    if not (some k == protect) && past_drop r grace now then k ∷ rest else rest

-- `prune_stale`
unfoldable pub prune_stale : ℕ → ℕ → Option Text → Directory → Directory × ℕ
unfolding stale_keys
prune_stale grace now protect d =
    let stale = stale_keys grace now protect d in (Dict.erase_all stale d, length stale)

-- `all`, `get`, `put`, `remove`, `size`
unfoldable pub all_records : Directory → List NodeRecord
all_records d = Dict.values d

unfoldable pub get : Text → Directory → Option NodeRecord
get k d = Dict.lookup k d

unfoldable pub put : NodeRecord → Directory → Directory
put r d = Dict.insert (hex r.id_pub) r d

unfoldable pub remove : Text → Directory → Directory × Bool
remove k d = (Dict.erase k d, elim (Dict.lookup k d) [ none ↦ false | some _ ↦ true ])

unfoldable pub size : Directory → ℕ
size d = length d

-- `load`: the file is missing or unreadable, or holds entries of which some cannot be parsed.
parsed_records : List (Option NodeRecord) → List NodeRecord
parsed_records [] = []
parsed_records (none ∷ entries) = parsed_records entries
parsed_records (some r ∷ entries) = r ∷ parsed_records entries

module _ ⦃C : Crypto⦄ where
  unfoldable pub load : ℕ → Option (List (Option NodeRecord)) → Directory
  unfolding parsed_records merge
  load now none = empty
  load now (some entries) = (merge now (parsed_records entries) empty).0
