-- ===== src/Policy/Adoption/Defs.antt =====
-- `GrantPolicy` of policy.py. The lock of the class makes each method one step.
use greasewood.Base.{
  ℕ, Bool, true, false, Option, none, some, List, leb, ◌==◌, nat_eq, option_eq, if◌then◌else◌, Text,
  Bytes,
}
use greasewood.Errors.{Result, ok, err, returned}
use greasewood.Wire.Crypto.{Crypto}
use greasewood.Wire.Grants.{GrantTable, verify}
use greasewood.Policy.Tags.{peers_allowed}

-- `_table`, `_cache_mtime`, and what the file at `_cache_path` holds: none if there is no path.
pub record GrantPolicy : Type 0 where
  pub table : Option GrantTable
  pub cache_mtime : Option ℕ

-- The file at `_cache_path`: its modification time, and what `GrantTable.from_dict` makes of it.
pub data CacheFile : Type 0 where
  no_path missing : CacheFile
  present : ℕ → Result GrantTable → CacheFile

abbrev pub fresh : GrantPolicy
fresh = record { table = none; cache_mtime = none }

-- `__call__`
unfoldable pub decide_peer : GrantPolicy → List Text → List Text → Option Text → Option Text → Bool
decide_peer p local_caps peer_caps local_hostname peer_hostname =
    peers_allowed local_caps peer_caps (elim p.table [ none ↦ none | some t ↦ some t.grants ])
      local_hostname peer_hostname

-- The seq guard of `offer`.
abbrev pub is_newer : GrantTable → Option GrantTable → Bool
is_newer t none = true
is_newer t (some held) = if leb t.seq held.seq then false else true

module _ ⦃C : Crypto⦄ where
  -- `load_cache`, at the start of a daemon
  unfoldable pub load_cache : List Bytes → CacheFile → GrantPolicy → GrantPolicy
  load_cache ca_pubs (present mtime (ok t)) p =
      if returned (verify ca_pubs t) then record p { table = some t } else p
  load_cache ca_pubs (present mtime (err e)) p = p
  load_cache ca_pubs no_path p = p
  load_cache ca_pubs missing p = p

  -- `offer`: the argument is what `GrantTable.from_dict` makes of the dict, or none for an empty one.
  -- The write of the cache file, which may fail, does not change the state.
  unfoldable pub offer : List Bytes → Option (Result GrantTable) → GrantPolicy → GrantPolicy × Bool
  offer ca_pubs none p = (p, false)
  offer ca_pubs (some (err e)) p = (p, false)
  offer ca_pubs (some (ok t)) p =
      if returned (verify ca_pubs t)
      then (if is_newer t p.table then (record p { table = some t }, true) else (p, false))
      else (p, false)

  -- `refresh_from_cache`
  unfoldable pub refresh_from_cache : List Bytes → CacheFile → GrantPolicy → GrantPolicy × Bool
  unfolding offer
  refresh_from_cache ca_pubs no_path p = (p, false)
  refresh_from_cache ca_pubs missing p = (p, false)
  refresh_from_cache ca_pubs (present mtime parsed) p =
      if some mtime == p.cache_mtime
      then (p, false)
      else offer ca_pubs (some parsed) (record p { cache_mtime = some mtime })
