-- ===== src/Sync/Defs.antt =====
-- `SyncLoop` of sync.py: one pull from the first seed that answers. What a seed answers is an argument,
-- with the parse of its JSON; the callbacks are the list of the calls made, in order. A pull reads the
-- wall clock once; the writes of the cache files succeed.
use greasewood.Base.{
  ℕ, ◌+◌, ◌*◌, Bool, true, false, not, ◌||◌, Option, none, some, List, [], ◌∷◌, ◌++◌, ltb, ◌==◌,
  list_eq, nat_eq, option_eq, if◌then◌else◌, Text, Bytes,
}
use greasewood.Errors.{returned}
use greasewood.Wire.Time.{second}
use greasewood.Wire.Crypto.{Crypto}
use greasewood.Wire.Credential
use greasewood.Wire.Record.{NodeRecord}
use greasewood.Wire.Requests.{EndpointAttestation}
use greasewood.Wire.Statement.{AnchorStatement}
use greasewood.Wire.Json.{Json}
use greasewood.Directory.Defs.{Directory, get}
use greasewood.Statements.Defs.{StatementLog, all_statements, upgrade_hint, drop_dead_records}
use greasewood.Attest.Defs.{AttestLog}
use greasewood.Ca.Methods.{distance, is_set}

-- What the loop is built with, and whether the optional logs and hooks are there.
pub record Settings : Type 0 where
  pub ca_pubs : List Bytes
  pub own_id_hex : Option Text
  pub expected_domain : Option Text
  pub has_statements : Bool
  pub has_attestations : Bool
  pub has_on_renew_after : Bool
  pub has_on_policy : Bool
  pub has_on_upgrade_hint : Bool

-- `_parse_renew_after` and the other fields that `pull_directory` returns.
pub record Listing : Type 0 where
  pub records : List NodeRecord
  pub renew_after : Option ℕ
  pub anchor_now : Option ℕ
  pub mesh_domain : Option Text
  pub policy : Option Json
  pub statements : List AnchorStatement
  pub attestations : List EndpointAttestation

-- A seed's answer: `pull_directory` raises a `RuntimeError`, or another exception, which ends the tick,
-- or it returns a listing, beside what `pull_revoked` returns.
pub data Answer : Type 0 where
  failed crashed : Answer
  pulled : Listing → Option (List Text) → Answer

pub data Call : Type 0 where
  renew_after : ℕ → Call
  policy : Json → Call
  upgrade_hint_seen : AnchorStatement → Call
  warn_skew : Call
  warn_renamed : Text → Call

pub record SyncState : Type 0 where
  pub directory : Directory
  pub statements : StatementLog
  pub attestations : AttestLog
  -- the files: the directory cache, the statement log, revoked.json, the pending rename, the stamp
  pub cache : List (Option NodeRecord)
  pub statements_file : List (Option AnchorStatement)
  pub revoked_file : Option (List Text)
  pub pending_rename : Option Text
  pub last_sync : Option ℕ
  pub last_skew_warn : Option ℕ
  pub warned_domain : Option Text
  pub calls : List Call

abbrev pub call : Call → SyncState → SyncState
call c s = record s { calls = s.calls ++ c ∷ [] }

-- `_SKEW_WARN_SECS` and `_SKEW_WARN_INTERVAL`
abbrev pub skew_warn : ℕ
skew_warn = 60 * second

abbrev pub skew_warn_interval : ℕ
skew_warn_interval = 600 * second

-- The entries of a cache file, each parsed, as `Directory.save` and `StatementLog.save` leave it.
unfoldable pub entries {ℓ} : {A : Type ℓ} → List A → List (Option A)
entries [] = []
entries (x ∷ xs) = some x ∷ entries xs

-- `now - last < _SKEW_WARN_INTERVAL`
abbrev pub warned_lately : ℕ → Option ℕ → Bool
warned_lately monotonic none = false
warned_lately monotonic (some t) = ltb monotonic (t + skew_warn_interval)

-- `_note_anchor_clock`; the second clock is the monotonic one
unfoldable pub note_anchor_clock : ℕ → ℕ → Option ℕ → SyncState → SyncState
note_anchor_clock now monotonic none s = s
note_anchor_clock now monotonic (some anchor_now) s =
    if ltb (distance now anchor_now) skew_warn
    then record s { last_skew_warn = none }
    else if warned_lately monotonic s.last_skew_warn
    then s
    else call warn_skew (record s { last_skew_warn = some monotonic })

-- `_note_mesh_domain`
renamed : Text → SyncState → SyncState
renamed domain s =
    let s' = record s { pending_rename = some domain } in
    if some domain == s.warned_domain
    then s'
    else call (warn_renamed domain) (record s' { warned_domain = some domain })

unfoldable pub note_mesh_domain : Option Text → Option Text → SyncState → SyncState
unfolding renamed
note_mesh_domain expected none s = s
note_mesh_domain none (some domain) s = s
note_mesh_domain (some expected) (some domain) s =
    if not (is_set domain)
    then s
    else if domain == expected
    then record s { pending_rename = none }
    else renamed domain s

module _ ⦃C : Crypto⦄ (cfg : Settings) where
  -- `_offer_upgrade_hint`
  unfoldable pub offer_upgrade_hint : SyncState → SyncState
  unfolding upgrade_hint
  offer_upgrade_hint s =
      if not cfg.has_on_upgrade_hint || not cfg.has_statements
      then s
      else elim (upgrade_hint s.statements) [
        | none ↦ s
        | some hint ↦ call (upgrade_hint_seen hint) s
      ]

  -- `_known` of `_apply_attestations`
  unfoldable pub known : Directory → ℕ → Text → Bool
  unfolding get
  known d now hex_id = elim (get hex_id d) [
    | none ↦ false
    | some r ↦ returned (Credential.verify cfg.ca_pubs true now r.cred)
  ]

  -- `_apply_attestations`
  unfoldable pub apply_attestations : ℕ → List EndpointAttestation → SyncState → SyncState
  unfolding known greasewood.Attest.Defs.merge greasewood.Attest.Defs.prune
  apply_attestations now attns s =
      if not cfg.has_attestations
      then s
      else (let (log, _) =
            greasewood.Attest.Defs.merge (known s.directory now) now attns s.attestations in
          record s { attestations = (greasewood.Attest.Defs.prune now log).0 })

  -- `_apply_statements`
  unfoldable pub apply_kept : ℕ → List AnchorStatement → SyncState → SyncState × ℕ
  unfolding greasewood.Statements.Defs.merge greasewood.Statements.Defs.prune drop_dead_records
      entries all_statements
  apply_kept now stmts s =
      let (merged, changed) = greasewood.Statements.Defs.merge stmts cfg.ca_pubs s.statements in
      let log = (greasewood.Statements.Defs.prune now merged).0 in
      let (d, dead) = drop_dead_records log cfg.own_id_hex s.directory in
      let file : List (Option AnchorStatement) =
        if changed == 0 then s.statements_file else entries (all_statements log) in
      (record s { statements = log; directory = d; statements_file = file }, dead)

  unfoldable pub apply_statements : ℕ → List AnchorStatement → SyncState → SyncState × ℕ
  unfolding apply_kept
  apply_statements now stmts s = if cfg.has_statements then apply_kept now stmts s else (s, 0)
