-- ===== src/Ca/Exclusive.antt =====
-- What an issue of ca.py means for the identities that ask for the same name after it.
use greasewood.Base.{
  ℕ, ◌+◌, ◌<◌, ◌≡◌, refl, ◌≢◌, true, false, none, some, List, list_eq, nat_eq, option_eq, ◌⊎◌,
  arith, Text, Bytes, hex,
}
use greasewood.Base.Dict.{NodupKeys}
use greasewood.Errors.{returned}
use greasewood.Wire.Time.{whole_second}
use greasewood.Wire.Crypto.{Crypto}
use greasewood.Hosts.Names.{sanitize}
use greasewood.Ca.Defs.{Config, CaState, is_revoked, load_revoked_set, gc_recent, hostname_owner}
use greasewood.Ca.Methods.{issue, note_issue}
use greasewood.Ca.Issue.{issue_iff}
use greasewood.Ca.Holding.{Holds, Between, Between-Holds, owner-Holds}
use greasewood.Ca.Names.{
  entry, owner-recent_owner, FreeFor-note_issue, lookup-note_issue, note_issue-NodupKeys, Unlanded,
  gc_recent-NodupKeys,
}

module _ ⦃C : Crypto⦄ (cfg : Config) where
  load_revoked_set-issue :
      (now : ℕ) (id_pub : Bytes) (hostname : Text) (caps : List Text) (st : CaState)
      → load_revoked_set (note_issue cfg now id_pub hostname caps (gc_recent now st))
        ≡ load_revoked_set st
  unfolding note_issue gc_recent load_revoked_set
  load_revoked_set-issue now id_pub hostname caps st = refl

  -- Just after the issue the identity holds the name.
  note_issue-Held :
      (now : ℕ) (id_pub : Bytes) (hostname : Text) (caps : List Text) (st : CaState)
      → NodupKeys st.recent
      → is_revoked id_pub st ≡ false
      → ((hostname_owner cfg now hostname st).0 ≡ none)
        ⊎ ((hostname_owner cfg now hostname st).0 ≡ some (hex id_pub))
      → Unlanded cfg now id_pub st.directory
      → Holds
          (sanitize hostname)
          (hex id_pub)
          (entry cfg now hostname caps)
          (note_issue cfg now id_pub hostname caps (gc_recent now st))
  unfolding hostname_owner gc_recent note_issue
  note_issue-Held now id_pub hostname caps st u n h land =
      let first = owner-recent_owner cfg now hostname (hex id_pub) (gc_recent now st) h in
      record {
        nodup =
            note_issue-NodupKeys cfg now id_pub hostname caps (gc_recent now st)
              (gc_recent-NodupKeys now st u);
        noted = lookup-note_issue cfg now id_pub hostname caps (gc_recent now st);
        owner =
            rw (load_revoked_set-issue now id_pub hostname caps st)
              (FreeFor-note_issue cfg now id_pub hostname caps st u n first);
        behind = land;
      }

  issue-note_issue :
      (now : ℕ) (id_pub wg_pub : Bytes) (hostname : Text) (caps : List Text) (st : CaState)
      → returned (issue cfg now id_pub wg_pub hostname caps st).0 ≡ true
      → (issue cfg now id_pub wg_pub hostname caps st).1
        ≡ note_issue cfg now id_pub hostname caps (gc_recent now st)
  unfolding issue hostname_owner
  issue-note_issue now id_pub wg_pub hostname caps st h = ground arith

  refused :
      (now : ℕ) (id_pub holder wg_pub : Bytes) (hostname : Text) (caps : List Text) (st : CaState)
      → hex id_pub ≢ hex holder
      → (hostname_owner cfg now hostname st).0 ≡ some (hex holder)
      → returned (issue cfg now id_pub wg_pub hostname caps st).0 ≡ false
  refused now id_pub holder wg_pub hostname caps st other held =
      ground (arith, issue_iff cfg now id_pub wg_pub hostname caps st)

  -- A name belongs to one identity from the moment of issue, from a state whose recent issues have no
  -- identity twice and whose directory has nothing of the identity from that time or later. Until the new
  -- credential expires, whatever gossip brings into the directory but a landed record of the identity,
  -- whoever looks something up, and whatever other identities ask for in the meantime, every other
  -- identity that asks for a name with the same sanitized form is refused. In the meantime the CA does not
  -- revoke, forget, rename or roll back anyone, and the identity itself does not ask again.
  pub issue_exclusive :
      (now later : ℕ) (id_pub id_pub' wg_pub wg_pub' : Bytes) (hostname hostname' : Text)
      (caps caps' : List Text) (st st' : CaState)
      → NodupKeys st.recent
      → returned (issue cfg now id_pub wg_pub hostname caps st).0 ≡ true
      → Unlanded cfg now id_pub st.directory
      → Between cfg
          (hex id_pub)
          (entry cfg now hostname caps)
          (issue cfg now id_pub wg_pub hostname caps st).1
          st'
      → sanitize hostname' ≡ sanitize hostname
      → hex id_pub' ≢ hex id_pub
      → later < whole_second now + cfg.ttl
      → returned (issue cfg later id_pub' wg_pub' hostname' caps' st').0 ≡ false
  issue_exclusive now later id_pub id_pub' wg_pub wg_pub' hostname hostname' caps caps' st st' u h
        land run same other t =
      let (_, n, free) = (issue_iff cfg now id_pub wg_pub hostname caps st).0 h in
      let first : Holds (sanitize hostname) (hex id_pub) (entry cfg now hostname caps)
          (issue cfg now id_pub wg_pub hostname caps st).1 =
        rw (issue-note_issue now id_pub wg_pub hostname caps st h)
          (note_issue-Held now id_pub hostname caps st u n free land) in
      let held = Between-Holds cfg (sanitize hostname) run first in
      refused later id_pub' id_pub wg_pub' hostname' caps' st' other (
        owner-Holds cfg later hostname' (hex id_pub) (entry cfg now hostname caps) st' t
          (rw same held))
