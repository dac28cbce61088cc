-- ===== src/Sync/Laws.antt =====
-- What a pull of sync.py keeps and what it brings about.
use greasewood.Base.{
  ℕ, ◌+◌, ◌≡◌, refl, ◌∙◌, Option, none, some, List, [], ◌∷◌, ◌==◌, list_eq, nat_eq, option_eq,
  pair_eq, inl, inr, arith, Text, Bytes, hex, Bool-cases,
}
use greasewood.Base.Dict
use greasewood.Wire.Time.{whole_second}
use greasewood.Wire.Crypto.{Crypto}
use greasewood.Wire.Record.{NodeRecord}
use greasewood.Wire.Statement.{AnchorStatement, kind_eq}
use greasewood.Wire.Requests.{EndpointAttestation}
use greasewood.Wire.Json.{Json}
use greasewood.Directory.Defs
use greasewood.Directory.Defs.{
  Directory, drop_grace, past_drop, all_records, load, prune_stale, remove,
}
use greasewood.Directory.Merge.{IsSound, merge-IsSound}
use greasewood.Directory.Prune.{prune_stale-IsSound, remove-IsSound}
use greasewood.Statements.Defs.{
  all_statements, StatementLog, is_dead, drop_one, drop_loop, drop_dead_records, prune, doomed_keys,
}
use greasewood.Statements.Merge.{IsAuthentic, merge-IsAuthentic}
use greasewood.Sync.Defs.{
  Settings, Listing, Answer, failed, crashed, pulled, SyncState, note_anchor_clock,
  note_mesh_domain, offer_upgrade_hint, apply_attestations, apply_statements, apply_kept,
}
use greasewood.Sync.Pull.{
  absorb_disk, save_if, evict, hook_renew_after, hook_policy, adopt, try_seeds, pull_once,
}

module _ ⦃C : Crypto⦄ where
  drop_loop-IsSound :
      (log : StatementLog) (protect : Option Text) (rs : List NodeRecord) (d : Directory) (n : ℕ)
      → IsSound d
      → IsSound (drop_loop log protect rs d n).0
  unfolding drop_loop drop_one
  drop_loop-IsSound log protect [] d n s = s
  drop_loop-IsSound log protect (r ∷ rs) d n s =
      drop_loop-IsSound log protect rs (drop_one log protect r d n).0 (drop_one log protect r d n).1
        (elim (Bool-cases (some (hex r.id_pub) == protect)) [
          | inl t ↦ rw t s
          | inr f ↦ elim (Bool-cases (is_dead (hex r.id_pub) r.cred.iat log)) [
            | inl t ↦ rw (f, t) (remove-IsSound (hex r.id_pub) d s)
            | inr g ↦ rw (f, g) s
          ]
        ])

  -- Dropping the dead keeps a directory sound.
  pub drop_dead_records-IsSound :
      (log : StatementLog) (protect : Option Text) (d : Directory)
      → IsSound d
      → IsSound (drop_dead_records log protect d).0
  unfolding drop_dead_records
  drop_dead_records-IsSound log protect d s = drop_loop-IsSound log protect (all_records d) d 0 s

  -- Pruning keeps a log authentic.
  pub prune-IsAuthentic :
      (now : ℕ) (ca_pubs : List Bytes) (log : StatementLog)
      → IsAuthentic ca_pubs log
      → IsAuthentic ca_pubs (prune now log).0
  unfolding prune
  prune-IsAuthentic now ca_pubs log a = record {
    nodup = Dict.erase_all-NodupKeys (doomed_keys now log log) log a.nodup;
    authentic = λ k s h.
        a.authentic k s (ground (arith, Dict.lookup-erase_all (doomed_keys now log log) k log));
  }

-- A state whose directory is sound and whose log is authentic.
pub record IsGood ⦃C : Crypto⦄ (ca_pubs : List Bytes) (s : SyncState) : Type 0 where
  pub sound : IsSound s.directory
  pub authentic : IsAuthentic ca_pubs s.statements

module _ ⦃C : Crypto⦄ (cfg : Settings) where
  -- Steps that touch neither the directory nor the log.
  abbrev pub Keeps : SyncState → SyncState → Type 0
  Keeps s t = (t.directory ≡ s.directory) × (t.statements ≡ s.statements)

  Keeps-trans : (s t u : SyncState) → Keeps s t → Keeps t u → Keeps s u
  Keeps-trans s t u (p, q) (p', q') = (p' ∙ p, q' ∙ q)

  clock-Keeps :
      (now monotonic : ℕ) (o : Option ℕ) (s : SyncState)
      → Keeps s (note_anchor_clock now monotonic o s)
  unfolding note_anchor_clock
  clock-Keeps now monotonic none s = (refl, refl)
  clock-Keeps now monotonic (some t) s = ground arith

  domain-Keeps : (e o : Option Text) (s : SyncState) → Keeps s (note_mesh_domain e o s)
  unfolding note_mesh_domain
  domain-Keeps e none s = (refl, refl)
  domain-Keeps none (some d) s = (refl, refl)
  domain-Keeps (some e) (some d) s = ground arith

  renew-Keeps : (o : Option ℕ) (s : SyncState) → Keeps s (hook_renew_after cfg o s)
  unfolding hook_renew_after
  renew-Keeps none s = (refl, refl)
  renew-Keeps (some t) s = ground arith

  policy-Keeps : (o : Option Json) (s : SyncState) → Keeps s (hook_policy cfg o s)
  unfolding hook_policy
  policy-Keeps none s = (refl, refl)
  policy-Keeps (some t) s = ground arith

  hint-Keeps : (s : SyncState) → Keeps s (offer_upgrade_hint cfg s)
  unfolding offer_upgrade_hint
  hint-Keeps s = ground arith

  attest-Keeps :
      (now : ℕ) (l : List EndpointAttestation) (s : SyncState)
      → Keeps s (apply_attestations cfg now l s)
  unfolding apply_attestations
  attest-Keeps now l s = ground arith

  save-Keeps : (n : ℕ) (s : SyncState) → Keeps s (save_if cfg n s)
  save-Keeps n s = ground arith

  pub adopt-Keeps :
      (now monotonic : ℕ) (l : Listing) (revoked : Option (List Text)) (s : SyncState)
      → Keeps
          (apply_statements cfg now l.statements
            (record s { directory = (Defs.merge now l.records s.directory).0 })).0
          (adopt cfg now monotonic l revoked s)
  unfolding adopt
  adopt-Keeps now monotonic l revoked s =
      let (d, n) = Defs.merge now l.records s.directory in
      let (s1, dead) = apply_statements cfg now l.statements (record s { directory = d }) in
      let h = offer_upgrade_hint cfg s1 in
      let s2 = apply_attestations cfg now l.attestations h in
      let s3 = save_if cfg (n + dead) s2 in
      let s4 : SyncState = record s3 {
        revoked_file = elim revoked [ none ↦ s3.revoked_file | some ids ↦ some ids ];
        last_sync = some (whole_second now);
      } in
      let s5 = note_anchor_clock now monotonic l.anchor_now s4 in
      let s6 = note_mesh_domain cfg.expected_domain l.mesh_domain s5 in
      let s7 = hook_renew_after cfg l.renew_after s6 in
      let after =
        Keeps-trans s5 s6 (hook_policy cfg l.policy s7) (domain-Keeps _ l.mesh_domain s5) (
          Keeps-trans s6 s7 (hook_policy cfg l.policy s7) (renew-Keeps l.renew_after s6)
            (policy-Keeps l.policy s7)) in
      let before =
        Keeps-trans s1 h s3 (hint-Keeps s1)
          (Keeps-trans h s2 s3 (attest-Keeps now l.attestations h) (save-Keeps (n + dead) s2)) in
      Keeps-trans s1 s3 (hook_policy cfg l.policy s7) before (
        Keeps-trans s4 s5 (hook_policy cfg l.policy s7) (clock-Keeps now monotonic l.anchor_now s4)
          after)

  pub apply_statements-IsGood :
      (now : ℕ) (stmts : List AnchorStatement) (s : SyncState)
      → IsGood cfg.ca_pubs s
      → IsGood cfg.ca_pubs (apply_statements cfg now stmts s).0
  unfolding apply_statements apply_kept
  apply_statements-IsGood now stmts s g = elim (Bool-cases cfg.has_statements) [
    | inl t ↦ rw t (record {
      sound = drop_dead_records-IsSound _ cfg.own_id_hex s.directory g.sound;
      authentic =
          prune-IsAuthentic now cfg.ca_pubs _
            (merge-IsAuthentic stmts cfg.ca_pubs s.statements g.authentic);
    })
    | inr f ↦ rw f g
  ]

  Keeps-IsGood : (s t : SyncState) → Keeps s t → IsGood cfg.ca_pubs s → IsGood cfg.ca_pubs t
  Keeps-IsGood s t (p, q) g = record { sound = rw p g.sound; authentic = rw q g.authentic }

  pub adopt-IsGood :
      (now monotonic : ℕ) (l : Listing) (revoked : Option (List Text)) (s : SyncState)
      → IsGood cfg.ca_pubs s
      → IsGood cfg.ca_pubs (adopt cfg now monotonic l revoked s)
  adopt-IsGood now monotonic l revoked s g =
      let fed : SyncState = record s { directory = (Defs.merge now l.records s.directory).0 } in
      Keeps-IsGood (apply_statements cfg now l.statements fed).0 _
        (adopt-Keeps now monotonic l revoked s)
        (apply_statements-IsGood now l.statements fed (record {
          sound = merge-IsSound now l.records s.directory g.sound;
          authentic = g.authentic;
        }))

  pub absorb_disk-IsGood :
      (now : ℕ) (s : SyncState) → IsGood cfg.ca_pubs s → IsGood cfg.ca_pubs (absorb_disk cfg now s)
  unfolding absorb_disk
  absorb_disk-IsGood now s g = elim (Bool-cases cfg.has_statements) [
    | inl t ↦ rw t (record {
      sound = merge-IsSound now (all_records (load now (some s.cache))) s.directory g.sound;
      authentic =
          merge-IsAuthentic
            (all_statements (greasewood.Statements.Defs.load cfg.ca_pubs (some s.statements_file)))
            cfg.ca_pubs s.statements g.authentic;
    })
    | inr f ↦ rw f (record {
      sound = merge-IsSound now (all_records (load now (some s.cache))) s.directory g.sound;
      authentic = g.authentic;
    })
  ]

  pub evict-IsGood :
      (now : ℕ) (s : SyncState) → IsGood cfg.ca_pubs s → IsGood cfg.ca_pubs (evict cfg now s)
  unfolding evict
  evict-IsGood now s g =
      let (d, n) = prune_stale drop_grace now none s.directory in
      let s' : SyncState = record s { directory = d } in
      Keeps-IsGood s' _ (save-Keeps n s') (record {
        sound = prune_stale-IsSound drop_grace now none s.directory g.sound;
        authentic = g.authentic;
      })

  try_seeds-IsGood :
      (now monotonic : ℕ) (answers : List Answer) (s : SyncState)
      → IsGood cfg.ca_pubs s
      → IsGood cfg.ca_pubs (try_seeds cfg now monotonic answers s).1
  unfolding try_seeds
  try_seeds-IsGood now monotonic [] s g = g
  try_seeds-IsGood now monotonic (failed ∷ rest) s g = try_seeds-IsGood now monotonic rest s g
  try_seeds-IsGood now monotonic (crashed ∷ rest) s g = g
  try_seeds-IsGood now monotonic (pulled l revoked ∷ rest) s g =
      adopt-IsGood now monotonic l revoked s g

  -- A pull keeps the node's view good whatever the seeds answer and whatever is on disk, forgeries
  -- included: the directory stays sound, and every entry of the log has a trusted signature.
  pub pull_once-IsGood :
      (now monotonic : ℕ) (answers : List Answer) (s : SyncState)
      → IsGood cfg.ca_pubs s
      → IsGood cfg.ca_pubs (pull_once cfg now monotonic answers s).1
  unfolding pull_once
  pull_once-IsGood now monotonic answers s g =
      try_seeds-IsGood now monotonic answers _ (evict-IsGood now _ (absorb_disk-IsGood now s g))
