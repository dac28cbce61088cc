-- ===== src/Sync/Pull.antt =====
-- `_pull_once` of sync.py.
use greasewood.Base.{
  ℕ, ◌+◌, Bool, true, false, Option, none, some, List, [], ◌∷◌, ◌==◌, nat_eq, list_eq, option_eq,
  if◌then◌else◌, Text,
}
use greasewood.Wire.Crypto.{Crypto}
use greasewood.Wire.Time.{whole_second}
use greasewood.Wire.Json.{Json}
use greasewood.Directory.Defs
use greasewood.Directory.Defs.{Directory, drop_grace, all_records, load, prune_stale}
use greasewood.Statements.Defs.{all_statements}
use greasewood.Sync.Defs.{
  Settings, Listing, Answer, failed, crashed, pulled, renew_after, policy, SyncState, call, entries,
  note_anchor_clock, note_mesh_domain, offer_upgrade_hint, apply_attestations, apply_statements,
}

module _ ⦃C : Crypto⦄ (cfg : Settings) where
  -- The merge of what is on disk, for the processes beside the daemon that write there.
  unfoldable pub absorb_disk : ℕ → SyncState → SyncState
  unfolding Defs.merge load all_records greasewood.Statements.Defs.merge
      greasewood.Statements.Defs.load all_statements
  absorb_disk now s =
      let s' = record s {
        directory = (Defs.merge now (all_records (load now (some s.cache))) s.directory).0;
      } in
      if cfg.has_statements
      then record s' {
        statements =
            (greasewood.Statements.Defs.merge
              (all_statements
                (greasewood.Statements.Defs.load cfg.ca_pubs (some s.statements_file)))
              cfg.ca_pubs s.statements).0;
      }
      else s'

  -- `self._directory.save(self._cache_path)`, if the count is not zero
  abbrev pub save_if : ℕ → SyncState → SyncState
  save_if n s = if n == 0 then s else record s { cache = entries (all_records s.directory) }

  -- The eviction of the records past the deadline.
  unfoldable pub evict : ℕ → SyncState → SyncState
  unfolding prune_stale entries all_records
  evict now s =
      let (d, n) = prune_stale drop_grace now none s.directory in
      save_if n (record s { directory = d })

  unfoldable pub hook_renew_after : Option ℕ → SyncState → SyncState
  hook_renew_after none s = s
  hook_renew_after (some t) s = if cfg.has_on_renew_after then call (renew_after t) s else s

  unfoldable pub hook_policy : Option Json → SyncState → SyncState
  hook_policy none s = s
  hook_policy (some t) s = if cfg.has_on_policy then call (policy t) s else s

  -- What a pull that worked does.
  unfoldable pub adopt : ℕ → ℕ → Listing → Option (List Text) → SyncState → SyncState
  unfolding hook_renew_after hook_policy Defs.merge apply_statements offer_upgrade_hint
      apply_attestations entries all_records note_anchor_clock note_mesh_domain whole_second
  adopt now monotonic l revoked s =
      let (d, n) = Defs.merge now l.records s.directory in
      let (s1, dead) = apply_statements cfg now l.statements (record s { directory = d }) in
      let s2 = apply_attestations cfg now l.attestations (offer_upgrade_hint cfg s1) in
      let s3 = save_if (n + dead) s2 in
      let s4 = record s3 {
        revoked_file = elim revoked [ none ↦ s3.revoked_file | some ids ↦ some ids ];
        last_sync = some (whole_second now);
      } in
      hook_policy l.policy (
        hook_renew_after l.renew_after (
          note_mesh_domain cfg.expected_domain l.mesh_domain
            (note_anchor_clock now monotonic l.anchor_now s4)))

  -- The loop over the seeds: the flag says whether it ended without an exception.
  unfoldable pub try_seeds : ℕ → ℕ → List Answer → SyncState → Bool × SyncState
  unfolding adopt
  try_seeds now monotonic [] s = (true, s)
  try_seeds now monotonic (failed ∷ rest) s = try_seeds now monotonic rest s
  try_seeds now monotonic (crashed ∷ rest) s = (false, s)
  try_seeds now monotonic (pulled l revoked ∷ rest) s = (true, adopt now monotonic l revoked s)

  -- `_pull_once`
  unfoldable pub pull_once : ℕ → ℕ → List Answer → SyncState → Bool × SyncState
  unfolding absorb_disk evict try_seeds
  pull_once now monotonic answers s =
      try_seeds now monotonic answers (evict now (absorb_disk now s))
