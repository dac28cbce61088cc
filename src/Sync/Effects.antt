-- ===== src/Sync/Effects.antt =====
-- What a pull of sync.py that works brings about in the directory.
use greasewood.Base.{
  ℕ, ◌+◌, ◌≤◌, ◌<◌, ◌⊎◌, leb, pair_eq, ◌≡◌, refl, sym, ◌∙◌, ap, true, false, Option, none, some,
  List, [], ◌∷◌, list_eq, nat_eq, option_eq, inl, inr, arith, Text, ◌≢◌, Option-cases,
}
use greasewood.Base.Dict
use greasewood.Base.Dict.{NodupKeys}
use greasewood.Wire.Crypto.{Crypto}
use greasewood.Wire.Record.{NodeRecord}
use greasewood.Wire.Statement.{AnchorStatement, tombstone, kind_eq}
use greasewood.Directory.Defs
use greasewood.Directory.Defs.{Directory, drop_grace, past_drop, all_records, load, prune_stale}
use greasewood.Directory.Merge.{IsSound, merge-IsSound, merge-held, merge-Offered}
use greasewood.Directory.Prune.{lookup-prune_stale}
use greasewood.Statements.Defs.{StatementLog, is_dead, drop_dead_records}
use greasewood.Statements.Merge as Log
use greasewood.Statements.Lifetime.{lookup-prune, taken_tombstone}
use greasewood.Statements.Drop.{lookup-drop_dead_records}
use greasewood.Sync.Defs.{
  Settings, Listing, Answer, failed, crashed, pulled, SyncState, apply_statements, apply_kept,
}
use greasewood.Sync.Pull.{absorb_disk, evict, adopt, try_seeds, pull_once}
use greasewood.Sync.Laws.{IsGood, adopt-Keeps, absorb_disk-IsGood, evict-IsGood}

module _ ⦃C : Crypto⦄ (cfg : Settings) where
  apply_statements-alive :
      (now : ℕ) (stmts : List AnchorStatement) (s : SyncState) (k : Text) (w : NodeRecord)
      → cfg.has_statements ≡ true
      → IsSound s.directory
      → some k ≢ cfg.own_id_hex
      → Dict.lookup k (apply_statements cfg now stmts s).0.directory ≡ some w
      → is_dead k w.cred.iat (apply_statements cfg now stmts s).0.statements ≡ false
  unfolding apply_statements apply_kept
  apply_statements-alive now stmts s k w t sound ne h =
      let log =
        (greasewood.Statements.Defs.prune now
          (greasewood.Statements.Defs.merge stmts cfg.ca_pubs s.statements).0).0 in
      let left = lookup-drop_dead_records log cfg.own_id_hex s.directory k sound in
      elim (Option-cases (Dict.lookup k s.directory)) [
        | inl e ↦ absurd (ground arith)
        | inr (r, e) ↦ let (same, _) = sound.genuine k r e in ground arith
      ]

  apply_statements-own :
      (now : ℕ) (stmts : List AnchorStatement) (s : SyncState) (k : Text)
      → IsSound s.directory
      → cfg.own_id_hex ≡ some k
      → Dict.lookup k (apply_statements cfg now stmts s).0.directory ≡ Dict.lookup k s.directory
  unfolding apply_statements apply_kept
  apply_statements-own now stmts s k sound own =
      let log =
        (greasewood.Statements.Defs.prune now
          (greasewood.Statements.Defs.merge stmts cfg.ca_pubs s.statements).0).0 in
      let left = lookup-drop_dead_records log cfg.own_id_hex s.directory k sound in
      elim (Option-cases (Dict.lookup k s.directory)) [
        | inl e ↦ ground arith
        | inr (r, e) ↦ let (same, _) = sound.genuine k r e in ground arith
      ]

  -- What `prune` leaves of a tombstone that is held or offered, younger than the drop grace
  tombstone_kept :
      (now : ℕ) (stmts : List AnchorStatement) (log : StatementLog) (k : Text) (t : AnchorStatement)
      → NodupKeys log
      → Log.Offered stmts cfg.ca_pubs log (tombstone, k) t
      → now < t.ts + drop_grace
      → (t' : AnchorStatement) × (Dict.lookup
            (tombstone, k)
            (greasewood.Statements.Defs.prune now
              (greasewood.Statements.Defs.merge stmts cfg.ca_pubs log).0).0
          ≡ some t')
        × (t.ts ≤ t'.ts)
  tombstone_kept now stmts log k t u o young =
      let merged = (greasewood.Statements.Defs.merge stmts cfg.ca_pubs log).0 in
      let (t', there, le) = Log.statements-some stmts cfg.ca_pubs log (tombstone, k) t o in
      let late : leb (t'.ts + drop_grace) now ≡ false = ground arith in
      (
        t',
        ground (
          arith,
          lookup-prune now merged (tombstone, k) (Log.merge-NodupKeys stmts cfg.ca_pubs log u),
          taken_tombstone now merged k t',
          there,
          late,
        ),
        le,
      )

  is_dead-after :
      (log : StatementLog) (k : Text) (t : AnchorStatement) (iat : ℕ)
      → Dict.lookup (tombstone, k) log ≡ some t
      → is_dead k iat log ≡ false
      → t.ts < iat
  unfolding is_dead
  is_dead-after log k t iat there alive = ground arith

  apply_statements-log :
      (now : ℕ) (stmts : List AnchorStatement) (s : SyncState)
      → cfg.has_statements ≡ true
      → (apply_statements cfg now stmts s).0.statements
        ≡ (greasewood.Statements.Defs.prune now
            (greasewood.Statements.Defs.merge stmts cfg.ca_pubs s.statements).0).0
  unfolding apply_statements apply_kept
  apply_statements-log now stmts s on = rw on refl

  apply_statements-after :
      (now : ℕ) (stmts : List AnchorStatement) (s : SyncState) (k : Text) (t : AnchorStatement)
      (w : NodeRecord)
      → cfg.has_statements ≡ true
      → IsSound s.directory
      → NodupKeys s.statements
      → some k ≢ cfg.own_id_hex
      → Log.Offered stmts cfg.ca_pubs s.statements (tombstone, k) t
      → now < t.ts + drop_grace
      → Dict.lookup k (apply_statements cfg now stmts s).0.directory ≡ some w
      → t.ts < w.cred.iat
  apply_statements-after now stmts s k t w on sound u ne o young h =
      let (t', there, le) = tombstone_kept now stmts s.statements k t u o young in
      let kept = ap (Dict.lookup (tombstone, k)) (apply_statements-log now stmts s on) ∙ there in
      let alive = apply_statements-alive now stmts s k w on sound ne h in
      let after = is_dead-after _ k t' w.cred.iat kept alive in omega arith

  -- A departure reaches the node's view with the pull that brings its tombstone: after a pull that
  -- works, on a good state of a node that keeps a log, and for a trusted tombstone of another node that
  -- the pull brings or the log held, younger than the fleet's drop grace, the directory holds no record
  -- of that node, or one with a credential from after the tombstone, whatever records the pull brings.
  pub adopt-alive :
      (now monotonic : ℕ) (l : Listing) (revoked : Option (List Text)) (s : SyncState) (k : Text)
      (t : AnchorStatement)
      → cfg.has_statements ≡ true
      → IsGood cfg.ca_pubs s
      → some k ≢ cfg.own_id_hex
      → Log.Offered l.statements cfg.ca_pubs s.statements (tombstone, k) t
      → now < t.ts + drop_grace
      → (Dict.lookup k (adopt cfg now monotonic l revoked s).directory ≡ none)
        ⊎ ((w : NodeRecord) × (Dict.lookup k (adopt cfg now monotonic l revoked s).directory
              ≡ some w)
            × (t.ts < w.cred.iat))
  adopt-alive now monotonic l revoked s k t on g ne o young =
      let fed : SyncState = record s { directory = (Defs.merge now l.records s.directory).0 } in
      let (d, log) = adopt-Keeps cfg now monotonic l revoked s in
      elim (Option-cases (Dict.lookup k (adopt cfg now monotonic l revoked s).directory)) [
        | inl gone ↦ inl gone
        | inr (w, h) ↦ inr (
          w,
          h,
          apply_statements-after now l.statements fed k t w on
              (merge-IsSound now l.records s.directory g.sound) g.authentic.nodup ne o young
              (ap (Dict.lookup k) (sym d) ∙ h),
        )
      ]

  -- A record stays, or makes way for one with a higher seq; what is there has not passed the deadline.
  unfoldable pub Stays : ℕ → Text → NodeRecord → Directory → Type 0
  Stays now k r d =
      (w : NodeRecord) × (Dict.lookup k d ≡ some w)
      × ((w ≡ r) ⊎ (r.seq < w.seq))
      × (past_drop w drop_grace now ≡ false)

  held_on :
      (r v w : NodeRecord)
      → (v ≡ r) ⊎ (r.seq < v.seq)
      → (w ≡ v) ⊎ (v.seq < w.seq)
      → (w ≡ r) ⊎ (r.seq < w.seq)
  held_on r v w (inl e) (inl f) = inl (f ∙ e)
  held_on r v w (inl e) (inr lt) = inr (ground (arith, ap (λ (x : NodeRecord). x.seq) e))
  held_on r v w (inr lt) (inl f) = inr (ground (arith, ap (λ (x : NodeRecord). x.seq) f))
  held_on r v w (inr lt) (inr lt') = inr (omega arith)

  merge-Stays :
      (now : ℕ) (r : NodeRecord) (k : Text) (rs : List NodeRecord) (d : Directory)
      → Stays now k r d
      → Stays now k r (Defs.merge now rs d).0
  unfolding Stays
  merge-Stays now r k rs d (v, e, up, fresh) =
      let (w, f, up') = merge-held now rs d k v e in
      (
        w,
        f,
        held_on r v w up up',
        elim (merge-Offered now rs d k w f).0 [
          | inl old ↦ ground arith
          | inr (m, a, p) ↦ ground arith
        ],
      )

  evict-Stays :
      (now : ℕ) (r : NodeRecord) (k : Text) (s : SyncState)
      → IsSound s.directory
      → Stays now k r s.directory
      → Stays now k r (evict cfg now s).directory
  unfolding Stays evict
  evict-Stays now r k s sound (w, e, up, fresh) =
      let left = lookup-prune_stale drop_grace now none s.directory k sound.nodup in
      (w, ground arith, up, fresh)

  adopt-Stays :
      (now monotonic : ℕ) (r : NodeRecord) (l : Listing) (revoked : Option (List Text)) (k : Text)
      (s : SyncState)
      → IsGood cfg.ca_pubs s
      → cfg.own_id_hex ≡ some k
      → Stays now k r s.directory
      → Stays now k r (adopt cfg now monotonic l revoked s).directory
  unfolding Stays
  adopt-Stays now monotonic r l revoked k s g own stays =
      let fed : SyncState = record s { directory = (Defs.merge now l.records s.directory).0 } in
      let (w, e, up, fresh) = merge-Stays now r k l.records s.directory stays in
      let (d, log) = adopt-Keeps cfg now monotonic l revoked s in
      let kept =
        apply_statements-own now l.statements fed k
          (merge-IsSound now l.records s.directory g.sound) own in
      (w, ap (Dict.lookup k) d ∙ kept ∙ e, up, fresh)

  absorb_disk-Stays :
      (now : ℕ) (r : NodeRecord) (k : Text) (s : SyncState)
      → Stays now k r s.directory
      → Stays now k r (absorb_disk cfg now s).directory
  unfolding Stays absorb_disk
  absorb_disk-Stays now r k s stays =
      let (w, e, up, fresh) =
        merge-Stays now r k (all_records (load now (some s.cache))) s.directory stays in
      (w, ground arith, up, fresh)

  try_seeds-Stays :
      (now monotonic : ℕ) (r : NodeRecord) (answers : List Answer) (k : Text) (s : SyncState)
      → IsGood cfg.ca_pubs s
      → cfg.own_id_hex ≡ some k
      → Stays now k r s.directory
      → Stays now k r (try_seeds cfg now monotonic answers s).1.directory
  unfolding try_seeds
  try_seeds-Stays now monotonic r [] k s g own stays = stays
  try_seeds-Stays now monotonic r (failed ∷ rest) k s g own stays =
      try_seeds-Stays now monotonic r rest k s g own stays
  try_seeds-Stays now monotonic r (crashed ∷ rest) k s g own stays = stays
  try_seeds-Stays now monotonic r (pulled l revoked ∷ rest) k s g own stays =
      adopt-Stays now monotonic r l revoked k s g own stays

  -- A node does not lose itself by a pull: from a good state in which it holds its own record, or one with
  -- a higher seq, that is not past the fleet's deadline, whatever the seeds answer, tombstones for the
  -- node among it, the pull leaves that very record under its key, or one with a higher seq.
  pub pull_once-Stays :
      (now monotonic : ℕ) (r : NodeRecord) (answers : List Answer) (k : Text) (s : SyncState)
      → IsGood cfg.ca_pubs s
      → cfg.own_id_hex ≡ some k
      → Stays now k r s.directory
      → Stays now k r (pull_once cfg now monotonic answers s).1.directory
  unfolding pull_once
  pull_once-Stays now monotonic r answers k s g own stays =
      let on_disk = absorb_disk cfg now s in
      let good = absorb_disk-IsGood cfg now s g in
      try_seeds-Stays now monotonic r answers k (evict cfg now on_disk)
        (evict-IsGood cfg now on_disk good) own
        (evict-Stays now r k on_disk good.sound (absorb_disk-Stays now r k s stays))
