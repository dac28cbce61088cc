-- ===== src/Ca/Methods.antt =====
-- The methods of `CA` of ca.py that change its state, as actions on the state that may raise; what was
-- written before a raise stays written.
use greasewood.Base.{
  ℕ, ◌+◌, ◌-◌, ◌*◌, Bool, true, false, not, ◌&&◌, ◌||◌, none, some, List, [], ◌∷◌, ltb, ◌==◌,
  list_eq, nat_eq, option_eq, if◌then◌else◌, contains, Text, Bytes, hex, codes,
}
use greasewood.Base.Dict
use greasewood.Errors.{
  Result, ok, err, revoked, hostname_taken, skew_too_large, unknown_node, hostname_pinned,
}
use greasewood.Wire.Time.{second, whole_second}
use greasewood.Wire.Crypto.{Crypto, derive_addr}
use greasewood.Wire.Credential
use greasewood.Wire.Credential.{Credential}
use greasewood.Wire.Record.{hostname}
use greasewood.Wire.Statement
use greasewood.Wire.Statement.{
  Kind, revoke, tombstone, setcaps, upgrade, Upgrade, no_upgrade, release, AnchorStatement,
}
use greasewood.Wire.Requests.{RenewRequest, verify_renew}
use greasewood.Directory.Defs.{get, remove}
use greasewood.Statements.Defs.{add}
use greasewood.Ca.Defs.{
  Config, CaState, refuse_if_key_stale, is_revoked, gc_recent, node_info, hostname_owner,
}

abbrev pub Action {ℓ} : Type ℓ → Type ℓ
Action A = CaState → Result A × CaState

-- `|a - b|`
abbrev pub distance : ℕ → ℕ → ℕ
distance a b = (a - b) + (b - a)

-- A string that is empty is false.
abbrev pub is_set : Text → Bool
is_set [] = false
is_set (c ∷ s) = true

abbrev pub pinned : Text
pinned = codes "hostname-pinned"

-- `discard_recent`
unfoldable pub discard_recent : Bytes → CaState → Bool × CaState
discard_recent id_pub st = (
  elim (Dict.lookup (hex id_pub) st.recent) [ none ↦ false | some _ ↦ true ],
  record st { recent = Dict.erase (hex id_pub) st.recent },
)

-- The identity joins the set in revoked.json.
unfoldable pub save_revoked : Bytes → CaState → CaState
save_revoked id_pub st = record st {
  legacy_revoked =
      (if contains st.legacy_revoked (hex id_pub)
        then st.legacy_revoked
        else hex id_pub ∷ st.legacy_revoked);
}

module _ ⦃C : Crypto⦄ (cfg : Config) where
  -- The credential that `issue` signs.
  unfoldable pub new_credential : ℕ → Bytes → Bytes → Text → List Text → Credential
  unfolding Credential.sign derive_addr whole_second
  new_credential now id_pub wg_pub hostname caps = Credential.sign cfg.ca_priv (record {
    id_pub = id_pub;
    wg_pub = wg_pub;
    addr = derive_addr cfg.prefix id_pub;
    hostname = hostname;
    caps = cfg.cap_policy caps;
    iat = whole_second now;
    exp = whole_second now + cfg.ttl;
    ca_sig = [];
  })

  -- The end of `issue`: the second `_gc_recent` and the note in `_recent`.
  unfoldable pub note_issue : ℕ → Bytes → Text → List Text → CaState → CaState
  unfolding gc_recent whole_second
  note_issue now id_pub hostname caps st =
      let st' = gc_recent (whole_second now) st in
      record st' {
        recent =
            Dict.insert (hex id_pub)
              (record {
                hostname = hostname;
                caps = cfg.cap_policy caps;
                iat = whole_second now;
                exp = whole_second now + cfg.ttl;
              })
              st'.recent;
      }

  -- `issue`
  unfoldable pub issue : ℕ → Bytes → Bytes → Text → List Text → Action Credential
  unfolding refuse_if_key_stale is_revoked hostname_owner new_credential note_issue
  issue now id_pub wg_pub hostname caps st = elim (refuse_if_key_stale cfg st) [
    | err e ↦ (err e, st)
    | ok _ ↦
        if is_revoked id_pub st
        then (err revoked, st)
        else (let (owner, st') = hostname_owner cfg now hostname st in
            if owner == none || owner == some (hex id_pub)
            then (
              ok (new_credential now id_pub wg_pub hostname caps),
              note_issue now id_pub hostname caps st',
            )
            else (err hostname_taken, st'))
  ]

  -- The name and caps under which `renew` re-issues.
  unfoldable pub renew_as : ℕ → RenewRequest → Text → List Text → Action Credential
  renew_as now req hostname caps st =
      if is_set req.hostname && not (req.hostname == hostname)
      then (if contains caps pinned
          then (err hostname_pinned, st)
          else issue now req.id_pub req.wg_pub req.hostname caps st)
      else issue now req.id_pub req.wg_pub hostname caps st

  -- `renew`
  unfoldable pub renew : ℕ → RenewRequest → Action Credential
  unfolding renew_as verify_renew node_info issue
  renew now req st = elim (verify_renew req) [
    | err e ↦ (err e, st)
    | ok _ ↦
        if ltb (300 * second) (distance now req.ts)
        then (err skew_too_large, st)
        else if is_revoked req.id_pub st
        then (err revoked, st)
        else (let (info, st') = node_info cfg now req.id_pub st in
            elim info [
              | none ↦ (err unknown_node, st')
              | some (hostname, caps) ↦ renew_as now req hostname caps st'
            ])
  ]

  -- The statement that `_mint` signs, and `_mint`.
  unfoldable pub new_statement : ℕ → Kind → Bytes → List Text → Text → Upgrade → AnchorStatement
  unfolding Statement.sign whole_second
  new_statement now kind id_pub caps hostname payload = Statement.sign cfg.ca_priv (record {
    kind = kind;
    id_pub = id_pub;
    ts = whole_second now;
    caps = caps;
    hostname = hostname;
    upgrade = payload;
    ca_sig = [];
  })

  unfoldable pub mint : ℕ → Kind → Bytes → List Text → Text → Upgrade → CaState → CaState
  unfolding new_statement add
  mint now kind id_pub caps hostname payload st = record st {
    statements = add (new_statement now kind id_pub caps hostname payload) st.statements;
  }

  -- `set_caps`
  unfoldable pub set_caps : ℕ → Bytes → List Text → Action (Unit {0})
  unfolding node_info mint
  set_caps now id_pub caps st =
      let (info, st') = node_info cfg now id_pub st in
      elim info [
        | none ↦ (err unknown_node, st')
        | some (hostname, _) ↦ (ok tt, mint now setcaps id_pub caps hostname no_upgrade st')
      ]

  -- `forget_node`
  unfoldable pub forget_node : ℕ → Bytes → CaState → Bool × CaState
  unfolding mint remove get discard_recent
  forget_node now id_pub st =
      let (had_recent, st1) = discard_recent id_pub st in
      let name : Text = elim (get (hex id_pub) st1.directory) [ none ↦ [] | some r ↦ hostname r ] in
      let st2 = mint now tombstone id_pub [] name no_upgrade st1 in
      let (directory, dropped) = remove (hex id_pub) st2.directory in
      (had_recent || dropped, record st2 { directory = directory })

  -- `add_revoke`
  unfoldable pub add_revoke : ℕ → Bytes → CaState → Bool × CaState
  unfolding save_revoked node_info mint forget_node
  add_revoke now id_pub st =
      let st1 = save_revoked id_pub st in
      let (info, st2) = node_info cfg now id_pub st1 in
      let name : Text = elim info [ none ↦ [] | some (hostname, _) ↦ hostname ] in
      forget_node now id_pub (mint now revoke id_pub [] name no_upgrade st2)

  -- `announce_upgrade`
  unfoldable pub announce_upgrade : ℕ → Text → Text → CaState → CaState
  unfolding mint
  announce_upgrade now version sha256 st =
      mint now upgrade (C.raw_pub cfg.ca_priv) [] [] (release version sha256) st
