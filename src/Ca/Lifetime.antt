-- ===== src/Ca/Lifetime.antt =====
-- The state of a `CA` of ca.py over the life of its process: its methods in any order, between changes
-- that sync, pruning and the holder of the key file make from outside.
use greasewood.Base.{
  ℕ, ◌≡◌, refl, true, Option, none, some, List, [], list_eq, nat_eq, pair_eq, contains, arith, Text,
  Bytes,
}
use greasewood.Errors.{Result, ok, err, unknown_node}
use greasewood.Wire.Crypto.{Crypto}
use greasewood.Wire.Statement.{revoke, setcaps, no_upgrade, kind_eq}
use greasewood.Wire.Requests.{RenewRequest}
use greasewood.Directory.Defs.{Directory}
use greasewood.Statements.Defs.{StatementLog}
use greasewood.Statements.Lifetime
use greasewood.Statements.Lifetime.{revoked_forever, Life-NodupKeys}
use greasewood.Ca.Defs.{Config, CaState, gc_recent, node_info, hostname_owner}
use greasewood.Ca.Methods.{
  issue, renew, renew_as, note_issue, discard_recent, set_caps, forget_node, mint, add_revoke,
  save_revoked, announce_upgrade,
}

module _ ⦃C : Crypto⦄ (cfg : Config) where
  -- One step: a method of the class, or a change from outside.
  pub data Step (st : CaState) : CaState → Type 0 where
    issued :
        (now : ℕ) (id_pub wg_pub : Bytes) (hostname : Text) (caps : List Text)
        → Step st (issue cfg now id_pub wg_pub hostname caps st).1
    renewed : (now : ℕ) (req : RenewRequest) → Step st (renew cfg now req st).1
    capped :
        (now : ℕ) (id_pub : Bytes) (caps : List Text) → Step st (set_caps cfg now id_pub caps st).1
    forgot : (now : ℕ) (id_pub : Bytes) → Step st (forget_node cfg now id_pub st).1
    revoked_one : (now : ℕ) (id_pub : Bytes) → Step st (add_revoke cfg now id_pub st).1
    announced :
        (now : ℕ) (version sha256 : Text) → Step st (announce_upgrade cfg now version sha256 st)
    discarded : (id_pub : Bytes) → Step st (discard_recent id_pub st).1
    asked : (now : ℕ) (id_pub : Bytes) → Step st (node_info cfg now id_pub st).1
    asked_owner : (now : ℕ) (hostname : Text) → Step st (hostname_owner cfg now hostname st).1
    -- sync and the pruning at its end
    synced :
        (directory : Directory) (log : StatementLog)
        → Lifetime.Life cfg.ca_pubs st.statements log
        → Step st (record st { directory = directory; statements = log })
    rotated : (key : Option Bytes) → Step st (record st { key_on_disk = key })

  pub data Life (start : CaState) : CaState → Type 0 where
    begin : Life start start
    next : {st st' : CaState} → Life start st → Step st st' → Life start st'

  -- What no step takes back: the list in revoked.json, and the log but by the log's own methods.
  pub record Grows (st st' : CaState) : Type 0 where
    pub legacy :
        (i : Text) → contains st.legacy_revoked i ≡ true → contains st'.legacy_revoked i ≡ true
    pub log : Lifetime.Life cfg.ca_pubs st.statements st'.statements

  Life-append :
      {l l' l'' : StatementLog}
      → Lifetime.Life cfg.ca_pubs l l'
      → Lifetime.Life cfg.ca_pubs l' l''
      → Lifetime.Life cfg.ca_pubs l l''
  Life-append p Lifetime.begin = p
  Life-append p (Lifetime.next q s) = Lifetime.next (Life-append p q) s

  Grows-trans : {a b c : CaState} → Grows a b → Grows b c → Grows a c
  Grows-trans g h = record {
    legacy = λ i p. h.legacy i (g.legacy i p);
    log = Life-append g.log h.log;
  }

  -- A step that leaves both as they were.
  Grows-same :
      {st st' : CaState}
      → st'.legacy_revoked ≡ st.legacy_revoked
      → st'.statements ≡ st.statements
      → Grows st st'
  Grows-same {st} {st'} p q = record { legacy = λ i h. ground arith; log = rw q Lifetime.begin }

  gc_recent-Grows : (now : ℕ) (st : CaState) → Grows st (gc_recent now st)
  unfolding gc_recent
  gc_recent-Grows now st = Grows-same refl refl

  node_info-Grows :
      (now : ℕ) (id_pub : Bytes) (st : CaState) → Grows st (node_info cfg now id_pub st).1
  unfolding node_info gc_recent
  node_info-Grows now id_pub st = Grows-same (ground arith) (ground arith)

  issue-Grows :
      (now : ℕ) (id_pub wg_pub : Bytes) (hostname : Text) (caps : List Text) (st : CaState)
      → Grows st (issue cfg now id_pub wg_pub hostname caps st).1
  unfolding issue hostname_owner note_issue gc_recent
  issue-Grows now id_pub wg_pub hostname caps st = Grows-same (ground arith) (ground arith)

  mint-Grows :
      (now : ℕ) (kind : _) (id_pub : Bytes) (caps : List Text) (hostname : Text) (payload : _)
      (st : CaState)
      → Grows st (mint cfg now kind id_pub caps hostname payload st)
  unfolding mint
  mint-Grows now kind id_pub caps hostname payload st = record {
    legacy = λ i h. h;
    log = Lifetime.next Lifetime.begin (Lifetime.added _);
  }

  renew_as-Grows :
      (now : ℕ) (req : RenewRequest) (hostname : Text) (caps : List Text) (st : CaState)
      → Grows st (renew_as cfg now req hostname caps st).1
  unfolding renew_as
  renew_as-Grows now req hostname caps st = ground (
    arith,
    issue-Grows now req.id_pub req.wg_pub req.hostname caps st,
    issue-Grows now req.id_pub req.wg_pub hostname caps st,
    Grows-same {st = st} {st' = st} refl refl,
  )

  renew-Grows : (now : ℕ) (req : RenewRequest) (st : CaState) → Grows st (renew cfg now req st).1
  unfolding renew
  renew-Grows now req st =
      ground
        (arith, node_info-Grows now req.id_pub st, found, Grows-same {st = st} {st' = st} refl refl)
    where
      found :
          (hostname : Text) (caps : List Text)
          → Grows st (renew_as cfg now req hostname caps (node_info cfg now req.id_pub st).1).1
      found hostname caps =
          Grows-trans (node_info-Grows now req.id_pub st) (renew_as-Grows now req hostname caps _)

  discard_recent-Grows : (id_pub : Bytes) (st : CaState) → Grows st (discard_recent id_pub st).1
  unfolding discard_recent
  discard_recent-Grows id_pub st = Grows-same refl refl

  set_caps-Grows :
      (now : ℕ) (id_pub : Bytes) (caps : List Text) (st : CaState)
      → Grows st (set_caps cfg now id_pub caps st).1
  unfolding set_caps
  set_caps-Grows now id_pub caps st = after (node_info cfg now id_pub st).0
    where
      after :
          (info : Option (Text × List Text))
          → (let after : Result (Unit {0}) × CaState = elim info [
            | none ↦ (err unknown_node, (node_info cfg now id_pub st).1)
            | some (hostname, _) ↦ (
              ok tt,
              mint cfg now setcaps id_pub caps hostname no_upgrade (node_info cfg now id_pub st).1,
            )
          ] in
              Grows st after.1)
      after none = node_info-Grows now id_pub st
      after (some (hostname, _)) =
          Grows-trans (node_info-Grows now id_pub st)
            (mint-Grows now setcaps id_pub caps hostname no_upgrade _)

  forget_node-Grows :
      (now : ℕ) (id_pub : Bytes) (st : CaState) → Grows st (forget_node cfg now id_pub st).1
  unfolding forget_node
  forget_node-Grows now id_pub st = record {
    legacy = λ i h. h;
    log = Lifetime.next Lifetime.begin (Lifetime.added _);
  }

  save_revoked-Grows : (id_pub : Bytes) (st : CaState) → Grows st (save_revoked id_pub st)
  unfolding save_revoked
  save_revoked-Grows id_pub st = record { legacy = λ i h. ground arith; log = Lifetime.begin }

  pub save_revoked-add_revoke :
      (now : ℕ) (id_pub : Bytes) (st : CaState)
      → Grows (save_revoked id_pub st) (add_revoke cfg now id_pub st).1
  unfolding add_revoke
  save_revoked-add_revoke now id_pub st =
      Grows-trans (node_info-Grows now id_pub (save_revoked id_pub st)) (
        Grows-trans (mint-Grows now revoke id_pub [] _ no_upgrade _)
          (forget_node-Grows now id_pub _))

  pub add_revoke-Grows :
      (now : ℕ) (id_pub : Bytes) (st : CaState) → Grows st (add_revoke cfg now id_pub st).1
  add_revoke-Grows now id_pub st =
      Grows-trans (save_revoked-Grows id_pub st) (save_revoked-add_revoke now id_pub st)

  Step-Grows : {st st' : CaState} → Step st st' → Grows st st'
  unfolding announce_upgrade hostname_owner
  Step-Grows {st} (issued now id_pub wg_pub hostname caps) =
      issue-Grows now id_pub wg_pub hostname caps st
  Step-Grows {st} (renewed now req) = renew-Grows now req st
  Step-Grows {st} (capped now id_pub caps) = set_caps-Grows now id_pub caps st
  Step-Grows {st} (forgot now id_pub) = forget_node-Grows now id_pub st
  Step-Grows {st} (revoked_one now id_pub) = add_revoke-Grows now id_pub st
  Step-Grows {st} (announced now version sha256) = mint-Grows now _ _ [] [] _ st
  Step-Grows {st} (discarded id_pub) = discard_recent-Grows id_pub st
  Step-Grows {st} (asked now id_pub) = node_info-Grows now id_pub st
  Step-Grows {st} (asked_owner now hostname) = gc_recent-Grows now st
  Step-Grows {st} (synced directory log l) = record { legacy = λ i h. h; log = l }
  Step-Grows {st} (rotated key) = Grows-same refl refl

  pub Life-Grows : {st st' : CaState} → Life st st' → Grows st st'
  Life-Grows {st} begin = Grows-same refl refl
  Life-Grows (next l s) = Grows-trans (Life-Grows l) (Step-Grows s)
