-- ===== src/Ca/Holding.antt =====
-- The hold of an identity on a hostname in `_recent` of ca.py, while others ask the CA.
use greasewood.Base.{
  ℕ, ◌<◌, ◌≡◌, ap, ◌∙◌, false, none, some, List, ◌∷◌, [], list_eq, nat_eq, option_eq, ◌==◌, ◌⊎◌,
  inl, inr, arith, Text, Bytes, hex, Option-cases, Bool-cases, Option, ==_iff,
}
use greasewood.Base.Dict
use greasewood.Base.Dict.{Dict, NodupKeys}
use greasewood.Wire.Time.{whole_second}
use greasewood.Wire.Crypto.{Crypto}
use greasewood.Wire.Record.{NodeRecord}
use greasewood.Directory.Defs.{Directory, get}
use greasewood.Hosts.Names.{sanitize}
use greasewood.Ca.Defs.{
  Config, CaState, Recent, load_revoked_set, outdated, gc_recent, recent_owner, hostname_owner,
  owner_after_gc,
}
use greasewood.Ca.Methods.{issue, note_issue}
use greasewood.Ca.Names.{
  lookup-gc_recent, gc_recent-NodupKeys, recent_owner-gc_recent, note_issue-NodupKeys, dropped,
  entry,
}

-- What the directory holds of the identity has a credential from before the entry.
abbrev pub IsBehind : Text → Recent → Directory → Type 0
IsBehind k e directory = (r : NodeRecord) → get k directory ≡ some r → r.cred.iat < e.iat

-- The identity `k` holds the name `want` by its entry.
pub record Holds (want k : Text) (e : Recent) (st : CaState) : Type 0 where
  pub nodup : NodupKeys st.recent
  pub noted : Dict.lookup k st.recent ≡ some e
  pub owner : recent_owner (load_revoked_set st) want st.recent ≡ some k
  pub behind : IsBehind k e st.directory

recent_owner-other :
    (revoked : List Text) (want k j : Text) (f : Recent) (d : Dict Text Recent)
    → (j == k) ≡ false
    → (sanitize f.hostname == want) ≡ false
    → recent_owner revoked want d ≡ some k
    → recent_owner revoked want (Dict.insert j f d) ≡ some k
unfolding recent_owner Dict.insert
recent_owner-other revoked want k j f [] n o h = absurd (ground arith)
recent_owner-other revoked want k j f ((i, g) ∷ d) n o h =
    ground (arith, recent_owner-other revoked want k j f d n o)

not_outdated :
    (now : ℕ) (directory : Directory) (k : Text) (e : Recent)
    → IsBehind k e directory
    → now < e.exp
    → outdated now directory k e ≡ false
unfolding outdated
not_outdated now directory k e b t = elim (Option-cases (get k directory)) [
  | inl absent ↦ ground arith
  | inr (r, there) ↦ let old = b r there in ground arith
]

gc_recent-Holds :
    (now : ℕ) (want k : Text) (e : Recent) (st : CaState)
    → now < e.exp
    → Holds want k e st
    → Holds want k e (gc_recent now st)
unfolding gc_recent load_revoked_set
gc_recent-Holds now want k e st t h =
    let kept = not_outdated now st.directory k e h.behind t in
    record {
      nodup = gc_recent-NodupKeys now st h.nodup;
      noted = ground (arith, lookup-gc_recent now st k h.nodup, h.noted, kept);
      owner =
          recent_owner-gc_recent (load_revoked_set st) want k now st h.nodup
            (ap (dropped now st.directory k) h.noted ∙ kept) h.owner;
      behind = h.behind;
    }

-- Whoever asks for the name is told that the identity holds it.
pub owner-Holds :
    ⦃C : Crypto⦄ (cfg : Config) (now : ℕ) (hostname k : Text) (e : Recent) (st : CaState)
    → now < e.exp
    → Holds (sanitize hostname) k e st
    → (hostname_owner cfg now hostname st).0 ≡ some k
unfolding hostname_owner owner_after_gc
owner-Holds cfg now hostname k e st t h =
    let there = (gc_recent-Holds now (sanitize hostname) k e st t h).owner in ground arith

flipped : (x y : Text) → (x == y) ≡ false → (y == x) ≡ false
flipped x y n = ground arith

module _ ⦃C : Crypto⦄ (cfg : Config) where
  note_issue-Holds :
      (now : ℕ) (other : Bytes) (hostname : Text) (caps : List Text) (want k : Text) (e : Recent)
      (st : CaState)
      → whole_second now < e.exp
      → (hex other == k) ≡ false
      → (sanitize hostname == want) ≡ false
      → Holds want k e st
      → Holds want k e (note_issue cfg now other hostname caps st)
  unfolding note_issue load_revoked_set
  note_issue-Holds now other hostname caps want k e st t n o h =
      let g = gc_recent-Holds (whole_second now) want k e st t h in
      record {
        nodup = note_issue-NodupKeys cfg now other hostname caps st h.nodup;
        noted =
            Dict.lookup-insert k (hex other) (entry cfg now hostname caps)
              (gc_recent (whole_second now) st).recent
            ∙ rw (flipped (hex other) k n) g.noted;
        owner =
            recent_owner-other (load_revoked_set st) want k (hex other)
              (entry cfg now hostname caps) (gc_recent (whole_second now) st).recent n o g.owner;
        behind = g.behind;
      }

  issue-state :
      (now : ℕ) (id_pub wg_pub : Bytes) (hostname : Text) (caps : List Text) (st : CaState)
      → ((issue cfg now id_pub wg_pub hostname caps st).1 ≡ st)
        ⊎ (((issue cfg now id_pub wg_pub hostname caps st).1 ≡ gc_recent now st)
            ⊎ (((issue cfg now id_pub wg_pub hostname caps st).1
                  ≡ note_issue cfg now id_pub hostname caps (gc_recent now st))
                × (((hostname_owner cfg now hostname st).0 ≡ none)
                    ⊎ ((hostname_owner cfg now hostname st).0 ≡ some (hex id_pub)))))
  unfolding issue hostname_owner
  issue-state now id_pub wg_pub hostname caps st = ground arith

  -- What may happen at the CA before the entry expires: the directory comes to hold anything but a
  -- landed record of the identity; the CA is asked who is who; and other identities ask for names, the
  -- held one among them.
  pub data Between (k : Text) (e : Recent) (start : CaState) : CaState → Type 0 where
    begin : Between k e start start
    gossip :
        {st : CaState} (directory : Directory)
        → IsBehind k e directory
        → Between k e start st
        → Between k e start (record st { directory = directory })
    looked :
        {st : CaState} (now : ℕ)
        → now < e.exp
        → Between k e start st
        → Between k e start (gc_recent now st)
    asked :
        {st : CaState} (now : ℕ) (other wg_pub : Bytes) (hostname : Text) (caps : List Text)
        → now < e.exp
        → (hex other == k) ≡ false
        → Between k e start st
        → Between k e start (issue cfg now other wg_pub hostname caps st).1

  whole_second-lt : (now t : ℕ) → now < t → whole_second now < t
  unfolding whole_second
  whole_second-lt now t h = omega arith

  not_owner :
      (k : Text) (other : Bytes) (o : Option Text)
      → o ≡ some k
      → (hex other == k) ≡ false
      → (o ≡ none) ⊎ (o ≡ some (hex other))
      → ⊥
  not_owner k other o h n (inl e) = ground arith
  not_owner k other o h n (inr e) = ground arith

  issue-Holds :
      (now : ℕ) (other wg_pub : Bytes) (hostname : Text) (caps : List Text) (want k : Text)
      (e : Recent) (st : CaState)
      → now < e.exp
      → (hex other == k) ≡ false
      → Holds want k e st
      → Holds want k e (issue cfg now other wg_pub hostname caps st).1
  issue-Holds now other wg_pub hostname caps want k e st t n h =
      elim (issue-state now other wg_pub hostname caps st) [
        | inl same ↦ rw same h
        | inr (inl gone) ↦ rw gone (gc_recent-Holds now want k e st t h)
        | inr (inr (noted, free)) ↦ elim (Bool-cases (sanitize hostname == want)) [
          | inl o ↦
              let named = (==_iff (sanitize hostname) want).0 o in
              absurd
                (not_owner k other _ (owner-Holds cfg now hostname k e st t (rw named h)) n free)
          | inr o ↦ rw noted (
              note_issue-Holds now other hostname caps want k e (gc_recent now st)
                (whole_second-lt now e.exp t) n o (gc_recent-Holds now want k e st t h))
        ]
      ]

  pub Between-Holds :
      {k : Text} {e : Recent} {start st : CaState} (want : Text)
      → Between k e start st
      → Holds want k e start
      → Holds want k e st
  unfolding load_revoked_set
  Between-Holds want begin h = h
  Between-Holds {k} {e} want (gossip {st} directory b run) h =
      let held = Between-Holds want run h in
      record { nodup = held.nodup; noted = held.noted; owner = held.owner; behind = b }
  Between-Holds {k} {e} want (looked {st} now t run) h =
      gc_recent-Holds now want k e st t (Between-Holds want run h)
  Between-Holds {k} {e} want (asked {st} now other wg_pub hostname caps t n run) h =
      issue-Holds now other wg_pub hostname caps want k e st t n (Between-Holds want run h)
