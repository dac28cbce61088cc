-- ===== src/Ca/Defs.antt =====
-- The state of `CA` of ca.py and the reads that its methods share. The reentrant lock of the class
-- makes each public method one step.
use greasewood.Base.{
  ℕ, Bool, true, false, not, ◌||◌, Option, none, some, List, [], ◌∷◌, ◌++◌, leb, ◌==◌, list_eq,
  nat_eq, option_eq, pair_eq, if◌then◌else◌, contains, Text, Bytes, hex,
}
use greasewood.Base.Dict
use greasewood.Base.Dict.{Dict}
use greasewood.Errors.{Result, ok, err, returned, stale_key, unreadable_key}
use greasewood.Wire.Crypto.{Crypto}
use greasewood.Wire.Credential
use greasewood.Wire.Record.{NodeRecord}
use greasewood.Directory.Defs.{Directory, get, all_records}
use greasewood.Statements.Defs.{StatementLog, revoked_ids, caps_override, is_dead}
use greasewood.Hosts.Names.{sanitize}

-- What a `CA` is built with and never changes.
pub record Config : Type 0 where
  pub ca_priv : Bytes
  pub ca_pubs : List Bytes
  pub prefix : Bytes
  pub ttl : ℕ
  pub cap_policy : List Text → List Text
  -- the bytes of the key file at the start, none where no file was given
  pub key_snapshot : Option Bytes

-- An entry of `_recent`: a credential just issued, whose record has not landed yet.
pub record Recent : Type 0 where
  pub hostname : Text
  pub caps : List Text
  pub iat : ℕ
  pub exp : ℕ

pub record CaState : Type 0 where
  pub directory : Directory
  pub statements : StatementLog
  pub recent : Dict Text Recent
  -- the list in revoked.json
  pub legacy_revoked : List Text
  -- the key file as it is on disk now, none where it cannot be read
  pub key_on_disk : Option Bytes

-- `_refuse_if_key_stale`
unfoldable pub refuse_if_key_stale : Config → CaState → Result (Unit {0})
refuse_if_key_stale cfg st = elim cfg.key_snapshot [
  | none ↦ ok tt
  | some snapshot ↦ elim st.key_on_disk [
    | none ↦ err unreadable_key
    | some current ↦ if current == snapshot then ok tt else err stale_key
  ]
]

-- `load_revoked_set` and `is_revoked`
unfoldable pub load_revoked_set : CaState → List Text
load_revoked_set st = st.legacy_revoked ++ revoked_ids st.statements

unfoldable pub is_revoked : Bytes → CaState → Bool
unfolding load_revoked_set
is_revoked id_pub st = contains (load_revoked_set st) (hex id_pub)

-- Whether `_gc_recent` drops an entry.
unfoldable pub outdated : ℕ → Directory → Text → Recent → Bool
unfolding get
outdated now directory hex_id entry =
    elim (get hex_id directory) [ none ↦ false | some r ↦ leb entry.iat r.cred.iat ]
    || leb entry.exp now

unfoldable pub outdated_keys : ℕ → Directory → Dict Text Recent → List Text
outdated_keys now directory [] = []
outdated_keys now directory ((k, e) ∷ rest) =
    let more = outdated_keys now directory rest in
    if outdated now directory k e then k ∷ more else more

-- `_gc_recent`
unfoldable pub gc_recent : ℕ → CaState → CaState
unfolding outdated_keys outdated
gc_recent now st = record st {
  recent = Dict.erase_all (outdated_keys now st.directory st.recent) st.recent;
}

-- `_caps_for`
unfoldable pub caps_for : CaState → Text → List Text → ℕ → List Text
unfolding caps_override
caps_for st hex_id cred_caps cred_iat = elim (caps_override hex_id st.statements) [
  | none ↦ cred_caps
  | some (caps, t) ↦ if leb cred_iat t then caps else cred_caps
]

-- The loop of `hostname_owner` over `_recent`.
unfoldable pub recent_owner : List Text → Text → Dict Text Recent → Option Text
recent_owner revoked want [] = none
recent_owner revoked want ((k, e) ∷ rest) =
    let later = recent_owner revoked want rest in
    if contains revoked k then later else if sanitize e.hostname == want then some k else later

module _ ⦃C : Crypto⦄ where
  -- `_live_record`; the clock that `verify` reads plays no part with the expiry waived
  unfoldable pub live_record : Config → ℕ → Text → CaState → Option NodeRecord
  unfolding get is_dead
  live_record cfg now hex_id st = elim (get hex_id st.directory) [
    | none ↦ none
    | some r ↦
        if not (returned (Credential.verify cfg.ca_pubs true now r.cred))
        then none
        else if is_dead hex_id r.cred.iat st.statements
        then none
        else some r
  ]

  -- `node_info`, on the state that its `_gc_recent` leaves
  info_after_gc : Config → ℕ → Text → CaState → Option (Text × List Text)
  info_after_gc cfg now hex_id st = elim (Dict.lookup hex_id st.recent) [
    | some e ↦ some (e.hostname, caps_for st hex_id e.caps e.iat)
    | none ↦ elim (live_record cfg now hex_id st) [
      | none ↦ none
      | some r ↦ some (r.cred.hostname, caps_for st hex_id r.cred.caps r.cred.iat)
    ]
  ]

  unfoldable pub node_info : Config → ℕ → Bytes → CaState → Option (Text × List Text) × CaState
  unfolding info_after_gc is_revoked live_record caps_for
  node_info cfg now id_pub st =
      if is_revoked id_pub st
      then (none, st)
      else (info_after_gc cfg now (hex id_pub) (gc_recent now st), gc_recent now st)

  -- The loop of `hostname_owner` over the directory.
  unfoldable pub record_owner :
      Config → ℕ → CaState → List Text → Text → List NodeRecord → Option Text
  unfolding live_record
  record_owner cfg now st revoked want [] = none
  record_owner cfg now st revoked want (r ∷ rest) =
      let later = record_owner cfg now st revoked want rest in
      if contains revoked (hex r.id_pub)
      then later
      else if not (sanitize r.cred.hostname == want)
      then later
      else elim (live_record cfg now (hex r.id_pub) st) [
        | none ↦ later
        | some _ ↦ some (hex r.id_pub)
      ]

  -- `hostname_owner`, on the state that its `_gc_recent` leaves
  unfoldable pub owner_after_gc : Config → ℕ → Text → CaState → Option Text
  unfolding recent_owner record_owner load_revoked_set all_records
  owner_after_gc cfg now hostname st =
      elim (recent_owner (load_revoked_set st) (sanitize hostname) st.recent) [
        | some k ↦ some k
        | none ↦
            record_owner cfg now st (load_revoked_set st) (sanitize hostname)
              (all_records st.directory)
      ]

  unfoldable pub hostname_owner : Config → ℕ → Text → CaState → Option Text × CaState
  unfolding owner_after_gc
  hostname_owner cfg now hostname st =
      (owner_after_gc cfg now hostname (gc_recent now st), gc_recent now st)
