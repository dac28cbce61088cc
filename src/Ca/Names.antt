-- ===== src/Ca/Names.antt =====
-- The hold that `_recent` gives an identity on its hostname: `_gc_recent`, `hostname_owner` and `issue`
-- of ca.py.
use greasewood.Base.{
  ℕ, ◌+◌, ◌≤◌, ◌<◌, ◌≡◌, refl, Bool, false, Option, none, some, List, [], ◌∷◌, ◌==◌, list_eq,
  nat_eq, option_eq, if◌then◌else◌, contains, ◌⊎◌, inl, inr, arith, Text, Bytes, hex, Option-cases,
}
use greasewood.Base.Dict
use greasewood.Base.Dict.{Dict, NodupKeys}
use greasewood.Wire.Time.{whole_second}
use greasewood.Wire.Crypto.{Crypto}
use greasewood.Wire.Record.{NodeRecord}
use greasewood.Directory.Defs.{Directory, get}
use greasewood.Hosts.Names.{sanitize}
use greasewood.Ca.Defs.{
  Config, CaState, Recent, is_revoked, load_revoked_set, outdated, outdated_keys, gc_recent,
  recent_owner, owner_after_gc,
}
use greasewood.Ca.Methods.{note_issue}

-- The identity is the first that is not revoked to hold the name, or none is.
abbrev FreeFor : List Text → Text → Text → Dict Text Recent → Type 0
FreeFor revoked want k d =
    (recent_owner revoked want d ≡ none) ⊎ (recent_owner revoked want d ≡ some k)

recent_owner-insert :
    (revoked : List Text) (want k : Text) (e : Recent) (d : Dict Text Recent)
    → FreeFor revoked want k d
    → contains revoked k ≡ false
    → sanitize e.hostname ≡ want
    → recent_owner revoked want (Dict.insert k e d) ≡ some k
unfolding recent_owner Dict.insert
recent_owner-insert revoked want k e [] h n p = ground arith
recent_owner-insert revoked want k e ((j, f) ∷ d) h n p =
    ground (arith, recent_owner-insert revoked want k e d)

recent_owner-erase :
    (revoked : List Text) (want j k : Text) (d : Dict Text Recent)
    → (j == k) ≡ false
    → recent_owner revoked want d ≡ some k
    → recent_owner revoked want (Dict.erase j d) ≡ some k
unfolding recent_owner Dict.erase
recent_owner-erase revoked want j k [] n h = absurd (ground arith)
recent_owner-erase revoked want j k ((i, f) ∷ d) n h =
    ground (arith, recent_owner-erase revoked want j k d)

recent_owner-erase_all :
    (revoked : List Text) (want k : Text) (js : List Text) (d : Dict Text Recent)
    → contains js k ≡ false
    → recent_owner revoked want d ≡ some k
    → recent_owner revoked want (Dict.erase_all js d) ≡ some k
unfolding Dict.erase_all
recent_owner-erase_all revoked want k [] d n h = h
recent_owner-erase_all revoked want k (j ∷ js) d n h =
    recent_owner-erase_all revoked want k js (Dict.erase j d) (ground arith)
      (recent_owner-erase revoked want j k d (ground arith) h)

-- Whether `_gc_recent` drops what stands under a key.
abbrev pub dropped : ℕ → Directory → Text → Option Recent → Bool
dropped now directory k none = false
dropped now directory k (some e) = outdated now directory k e

contains-outdated_keys :
    (now : ℕ) (directory : Directory) (d : Dict Text Recent) (k : Text)
    → NodupKeys d
    → contains (outdated_keys now directory d) k ≡ dropped now directory k (Dict.lookup k d)
unfolding outdated_keys
contains-outdated_keys now directory [] k u =
    ground (arith, Dict.lookup-nil {K = Text} {V = Recent} k)
contains-outdated_keys now directory ((j, e) ∷ d) k (fresh, u) =
    ground (arith, Dict.lookup-cons k j e d, contains-outdated_keys now directory d k u)

pub lookup-gc_recent :
    (now : ℕ) (st : CaState) (k : Text)
    → NodupKeys st.recent
    → Dict.lookup k (gc_recent now st).recent ≡ (
        if dropped now st.directory k (Dict.lookup k st.recent)
        then none
        else Dict.lookup k st.recent)
unfolding gc_recent
lookup-gc_recent now st k u = ground (
  arith,
  Dict.lookup-erase_all (outdated_keys now st.directory st.recent) k st.recent,
  contains-outdated_keys now st.directory st.recent k u,
)

pub gc_recent-NodupKeys :
    (now : ℕ) (st : CaState) → NodupKeys st.recent → NodupKeys (gc_recent now st).recent
unfolding gc_recent
gc_recent-NodupKeys now st u =
    Dict.erase_all-NodupKeys (outdated_keys now st.directory st.recent) st.recent u

pub recent_owner-gc_recent :
    (revoked : List Text) (want k : Text) (now : ℕ) (st : CaState)
    → NodupKeys st.recent
    → dropped now st.directory k (Dict.lookup k st.recent) ≡ false
    → recent_owner revoked want st.recent ≡ some k
    → recent_owner revoked want (gc_recent now st).recent ≡ some k
unfolding gc_recent
recent_owner-gc_recent revoked want k now st u n h =
    recent_owner-erase_all revoked want k (outdated_keys now st.directory st.recent) st.recent
      (ground (arith, contains-outdated_keys now st.directory st.recent k u)) h

-- What `issue` leaves in `_recent` for its identity.
abbrev pub entry : Config → ℕ → Text → List Text → Recent
entry cfg now hostname caps = record {
  hostname = hostname;
  caps = cfg.cap_policy caps;
  iat = whole_second now;
  exp = whole_second now + cfg.ttl;
}

module _ ⦃C : Crypto⦄ (cfg : Config) where
  pub owner-recent_owner :
      (now : ℕ) (hostname k : Text) (st : CaState)
      → (owner_after_gc cfg now hostname st ≡ none) ⊎ (owner_after_gc cfg now hostname st ≡ some k)
      → FreeFor (load_revoked_set st) (sanitize hostname) k st.recent
  unfolding owner_after_gc
  owner-recent_owner now hostname k st h =
      elim (Option-cases (recent_owner (load_revoked_set st) (sanitize hostname) st.recent)) [
        | inl absent ↦ inl absent
        | inr (j, there) ↦ inr (ground arith)
      ]

  recent_owner-gc_none :
      (revoked : List Text) (want : Text) (js : List Text) (d : Dict Text Recent)
      → recent_owner revoked want d ≡ none
      → recent_owner revoked want (Dict.erase_all js d) ≡ none
  unfolding Dict.erase_all recent_owner Dict.erase
  recent_owner-gc_none revoked want [] d h = h
  recent_owner-gc_none revoked want (j ∷ js) d h =
      recent_owner-gc_none revoked want js (Dict.erase j d) (one d h)
    where
      one :
          (d : Dict Text Recent)
          → recent_owner revoked want d ≡ none
          → recent_owner revoked want (Dict.erase j d) ≡ none
      one [] h = refl
      one ((i, f) ∷ d) h = ground (arith, one d)

  gc_recent-directory : (now : ℕ) (st : CaState) → (gc_recent now st).directory ≡ st.directory
  unfolding gc_recent
  gc_recent-directory now st = refl

  kept_again :
      (now earlier : ℕ) (st : CaState) (k : Text)
      → NodupKeys st.recent
      → earlier ≤ now
      → dropped earlier (gc_recent now st).directory k (Dict.lookup k (gc_recent now st).recent)
        ≡ false
  unfolding outdated
  kept_again now earlier st k u le =
      ground (arith, lookup-gc_recent now st k u, gc_recent-directory now st)

  FreeFor-gc_recent :
      (revoked : List Text) (want k : Text) (now earlier : ℕ) (st : CaState)
      → NodupKeys st.recent
      → earlier ≤ now
      → FreeFor revoked want k (gc_recent now st).recent
      → FreeFor revoked want k (gc_recent earlier (gc_recent now st)).recent
  unfolding gc_recent
  FreeFor-gc_recent revoked want k now earlier st u le (inl none_) =
      inl (recent_owner-gc_none revoked want _ _ none_)
  FreeFor-gc_recent revoked want k now earlier st u le (inr mine) = inr (
      recent_owner-gc_recent revoked want k earlier (gc_recent now st)
        (gc_recent-NodupKeys now st u) (kept_again now earlier st k u le) mine)

  whole_second-le : (now : ℕ) → whole_second now ≤ now
  unfolding whole_second
  whole_second-le now = omega arith

  pub FreeFor-note_issue :
      (now : ℕ) (id_pub : Bytes) (hostname : Text) (caps : List Text) (st : CaState)
      → NodupKeys st.recent
      → is_revoked id_pub st ≡ false
      → FreeFor (load_revoked_set st) (sanitize hostname) (hex id_pub) (gc_recent now st).recent
      → recent_owner
          (load_revoked_set st)
          (sanitize hostname)
          (note_issue cfg now id_pub hostname caps (gc_recent now st)).recent
        ≡ some (hex id_pub)
  unfolding note_issue is_revoked
  FreeFor-note_issue now id_pub hostname caps st u n h =
      recent_owner-insert (load_revoked_set st) (sanitize hostname) (hex id_pub)
        (entry cfg now hostname caps) _
        (FreeFor-gc_recent _ _ _ now (whole_second now) st u (whole_second-le now) h) n refl

  pub lookup-note_issue :
      (now : ℕ) (id_pub : Bytes) (hostname : Text) (caps : List Text) (st : CaState)
      → Dict.lookup (hex id_pub) (note_issue cfg now id_pub hostname caps st).recent
        ≡ some (entry cfg now hostname caps)
  unfolding note_issue
  lookup-note_issue now id_pub hostname caps st = ground (
    arith,
    Dict.lookup-insert (hex id_pub) (hex id_pub) (entry cfg now hostname caps)
        (gc_recent (whole_second now) st).recent,
  )

  pub note_issue-NodupKeys :
      (now : ℕ) (id_pub : Bytes) (hostname : Text) (caps : List Text) (st : CaState)
      → NodupKeys st.recent
      → NodupKeys (note_issue cfg now id_pub hostname caps st).recent
  unfolding note_issue
  note_issue-NodupKeys now id_pub hostname caps st u =
      Dict.insert-NodupKeys (hex id_pub) (entry cfg now hostname caps) _
        (gc_recent-NodupKeys (whole_second now) st u)

  -- The record of this issue has not landed: what the directory holds of the identity is older.
  abbrev pub Unlanded : ℕ → Bytes → Directory → Type 0
  Unlanded now id_pub directory =
      (r : NodeRecord) → get (hex id_pub) directory ≡ some r → r.cred.iat < whole_second now

  pub entry_kept :
      (now later : ℕ) (id_pub : Bytes) (hostname : Text) (caps : List Text) (directory : Directory)
      → Unlanded now id_pub directory
      → later < whole_second now + cfg.ttl
      → outdated later directory (hex id_pub) (entry cfg now hostname caps) ≡ false
  unfolding outdated
  entry_kept now later id_pub hostname caps directory n t =
      elim (Option-cases (get (hex id_pub) directory)) [
        | inl absent ↦ ground arith
        | inr (r, there) ↦ ground (arith, n r there)
      ]
