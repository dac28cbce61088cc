-- ===== src/Renewal/Landing.antt =====
-- A renewal from end to end: `renew` of ca.py, `_publish` of renewal.py, `/publish` of server.py.
use greasewood.Base.{
  ℕ, ◌+◌, ◌≤◌, ◌<◌, ◌≡◌, refl, none, some, List, [], length, list_eq, nat_eq, false, contains, Has,
  arith, Text, Bytes, hex,
}
use greasewood.Base.Dict
use greasewood.Errors.{ok}
use greasewood.Wire.Time.{whole_second}
use greasewood.Wire.Crypto.{Crypto, IsLawful}
use greasewood.Wire.Credential.{Credential}
use greasewood.Wire.Record
use greasewood.Wire.Record.{NodeRecord}
use greasewood.Wire.Requests.{RenewRequest}
use greasewood.Wire.Verify.{AreKeys, record-verify_iff, verify_structural_iff}
use greasewood.Directory.Defs.{Directory, get}
use greasewood.Ca.Defs.{Config, CaState, load_revoked_set}
use greasewood.Ca.Methods.{renew}
use greasewood.Ca.Issue.{issue_admits}
use greasewood.Server.Defs.{Settings, Plane, status_ok, handle_publish}
use greasewood.Server.Safety.{handle_publish_iff, unexpired-admissible}
use greasewood.Renewal.Defs.{Node, new_record}
use greasewood.Renewal.Laws.{merge_newer, renew-issue}

module _ ⦃C : Crypto⦄ where
  new_record-newer :
      (node : Node) (c : Credential) (own d : Directory)
      → ((e : NodeRecord)
          → Dict.lookup (hex node.id_pub) d ≡ some e
          → (o : NodeRecord) × (Dict.lookup (hex node.id_pub) own ≡ some o) × (e.seq ≤ o.seq))
      → (e : NodeRecord) → Dict.lookup (hex node.id_pub) d ≡ some e
      → e.seq < (new_record node c own).seq
  unfolding new_record Record.sign get
  new_record-newer node c own d behind e h = let (o, there, le) = behind e h in ground arith

  new_record-verify :
      IsLawful C
      → (ca : Config) (now later : ℕ) (req : RenewRequest) (st : CaState) (c : Credential)
      → (node : Node) (own : Directory) (ca_pubs : List Bytes) (revoked_ids : List Text)
      → length ca.prefix ≡ 8
      → (renew ca now req st).0 ≡ ok c
      → req.id_pub ≡ C.raw_pub node.id_priv
      → node.id_pub ≡ C.raw_pub node.id_priv
      → AreKeys ca_pubs
      → Has (C.raw_pub ca.ca_priv) ca_pubs
      → contains revoked_ids (hex node.id_pub) ≡ false
      → later < whole_second now + ca.ttl
      → Record.verify ca_pubs revoked_ids false later (new_record node c own) ≡ ok tt
  unfolding new_record
  new_record-verify L ca now later req st c node own ca_pubs revoked_ids prefix h p q keys m live
        t =
      let (name, caps, st', issued) = renew-issue ca now req st c h in
      issue_admits ca L node.id_priv req.wg_pub now later name caps st' c
        (record {
          id_pub = node.id_pub;
          seq = elim (get (hex node.id_pub) own) [ none ↦ 1 | some r ↦ r.seq + 1 ];
          endpoints = node.endpoints;
          cred = c;
          aliases = node.aliases;
          reachable = elim (get (hex node.id_pub) own) [ none ↦ [] | some r ↦ r.reachable ];
          relay = false;
          version = [];
          families = [];
          sig = [];
        })
        ca_pubs revoked_ids prefix (rw p at issued) q refl keys m (rw q at live) t

  -- A renewal reaches the fleet, under lawful cryptography and a prefix of 8 bytes: when the CA renews
  -- a node's credential, the record that the node then publishes is accepted by every anchor whose
  -- trusted keys have 32 bytes and hold the CA's, until the credential expires, and becomes that
  -- anchor's record of the node, unless the anchor counts the node as revoked or holds a record of it
  -- with a higher seq than the node's own.
  pub renewal_lands :
      IsLawful C
      → (ca : Config) (now later : ℕ) (req : RenewRequest) (st : CaState) (c : Credential)
      → (node : Node) (own : Directory) (cfg : Settings) (s : Plane) → length ca.prefix ≡ 8
      → (renew ca now req st).0 ≡ ok c
      → req.id_pub ≡ C.raw_pub node.id_priv
      → node.id_pub ≡ C.raw_pub node.id_priv
      → AreKeys cfg.ca_pubs
      → Has (C.raw_pub ca.ca_priv) cfg.ca_pubs
      → contains (load_revoked_set s.ca) (hex node.id_pub) ≡ false
      → later < whole_second now + ca.ttl
      → ((e : NodeRecord)
          → Dict.lookup (hex node.id_pub) s.ca.directory ≡ some e
          → (o : NodeRecord) × (Dict.lookup (hex node.id_pub) own ≡ some o) × (e.seq ≤ o.seq))
      → ((handle_publish cfg later (ok (new_record node c own)) s).0 ≡ status_ok)
        × (Dict.lookup
              (hex node.id_pub)
              (handle_publish cfg later (ok (new_record node c own)) s).1.ca.directory
            ≡ some (new_record node c own))
  unfolding handle_publish new_record
  renewal_lands L ca now later req st c node own cfg s prefix h p q keys m live t behind =
      let r = new_record node c own in
      let v =
        new_record-verify L ca now later req st c node own cfg.ca_pubs (load_revoked_set s.ca)
          prefix h p q keys m live t in
      let (_, e, g, _) =
        (record-verify_iff cfg.ca_pubs (load_revoked_set s.ca) false later r keys).0 v in
      let fits = unexpired-admissible later r ((verify_structural_iff r).1 g) e in
      (
        (handle_publish_iff cfg later r s).1 v,
        rw v (
            merge_newer later r s.ca.directory fits
              (new_record-newer node c own s.ca.directory behind)),
      )
