-- ===== src/Ca/Issue.antt =====
-- What `issue` of ca.py guards and what it signs.
use greasewood.Base.{
  ℕ, ◌+◌, ◌<◌, ◌≡◌, refl, sym, ◌↔◌, true, false, none, some, List, [], ◌++◌, list_eq, nat_eq,
  option_eq, contains, Has, ◌⊎◌, arith, Text, Bytes, hex, length, take, drop, drop-append,
  length-append, length-take,
}
use mathlib.Core.Path.{subst}
use greasewood.Errors.{ok, returned}
use greasewood.Wire.Json.{canonical}
use greasewood.Wire.Time.{whole_second}
use greasewood.Wire.Crypto.{Crypto, IsLawful, host_bits, derive_addr}
use greasewood.Wire.Credential
use greasewood.Wire.Credential.{Credential}
use greasewood.Wire.Record
use greasewood.Wire.Record.{NodeRecord}
use greasewood.Wire.Verify.{
  AreKeys, credential-verify_iff, credential-verify-sign, record-verify_iff,
}
use greasewood.Ca.Defs.{Config, CaState, refuse_if_key_stale, is_revoked, gc_recent, hostname_owner}
use greasewood.Ca.Methods.{issue, new_credential, note_issue}

module _ ⦃C : Crypto⦄ (cfg : Config) where
  -- `issue` returns a credential exactly when the key file is unchanged or not watched, the identity is
  -- not revoked, and the name is free or held by that identity.
  pub issue_iff :
      (now : ℕ) (id_pub wg_pub : Bytes) (hostname : Text) (caps : List Text) (st : CaState)
      → (returned (issue cfg now id_pub wg_pub hostname caps st).0 ≡ true) ↔ (
          (returned (refuse_if_key_stale cfg st) ≡ true)
          × (is_revoked id_pub st ≡ false)
          × (((hostname_owner cfg now hostname st).0 ≡ none)
              ⊎ ((hostname_owner cfg now hostname st).0 ≡ some (hex id_pub))))
  unfolding issue
  issue_iff now id_pub wg_pub hostname caps st = ground arith

  pub issue-new_credential :
      (now : ℕ) (id_pub wg_pub : Bytes) (hostname : Text) (caps : List Text) (st : CaState)
      (c : Credential)
      → (issue cfg now id_pub wg_pub hostname caps st).0 ≡ ok c
      → (c ≡ new_credential cfg now id_pub wg_pub hostname caps)
        × ((issue cfg now id_pub wg_pub hostname caps st).1
            ≡ note_issue cfg now id_pub hostname caps (gc_recent now st))
        × (((hostname_owner cfg now hostname st).0 ≡ none)
            ⊎ ((hostname_owner cfg now hostname st).0 ≡ some (hex id_pub)))
        × (is_revoked id_pub st ≡ false)
  unfolding issue hostname_owner
  issue-new_credential now id_pub wg_pub hostname caps st c h = ground arith

  derive_addr-genuine :
      IsLawful C
      → (id_pub : Bytes) → length cfg.prefix ≡ 8
      → (bytes : Bytes) × (C.packed (derive_addr cfg.prefix id_pub) ≡ some bytes)
        × (drop 8 bytes ≡ host_bits id_pub)
  unfolding derive_addr host_bits
  derive_addr-genuine L id_pub n =
      let host = take 8 (C.blake2s id_pub) in
      let whole : length (cfg.prefix ++ host) ≡ 16 = ground (
        arith,
        length-append cfg.prefix host,
        length-take 8 (C.blake2s id_pub),
        L.length-blake2s id_pub,
      ) in
      (cfg.prefix ++ host, L.packed-address _ whole, drop-append cfg.prefix host 8 n)

  verify_sig-sign :
      IsLawful C
      → (priv : Bytes) (r : NodeRecord)
      → C.verify_sig
          (C.raw_pub priv)
          (Record.sign priv r).sig
          (canonical (Record.body_dict (Record.sign priv r)))
        ≡ true
  unfolding Record.sign
  verify_sig-sign L priv r = L.verify-sign priv (canonical (Record.body_dict r))

  new_credential-verify :
      IsLawful C
      → (ca_pubs : List Bytes) (now later : ℕ) (id_pub wg_pub : Bytes) (hostname : Text)
        (caps : List Text)
      → AreKeys ca_pubs
      → Has (C.raw_pub cfg.ca_priv) ca_pubs
      → later < whole_second now + cfg.ttl
      → Credential.verify ca_pubs false later (new_credential cfg now id_pub wg_pub hostname caps)
        ≡ ok tt
  unfolding new_credential
  new_credential-verify L ca_pubs now later id_pub wg_pub hostname caps a m t =
      credential-verify-sign L cfg.ca_priv ca_pubs later
        (record {
          id_pub = id_pub;
          wg_pub = wg_pub;
          addr = derive_addr cfg.prefix id_pub;
          hostname = hostname;
          caps = cfg.cap_policy caps;
          iat = whole_second now;
          exp = whole_second now + cfg.ttl;
          ca_sig = [];
        })
        a m t

  -- Whatever `issue` returns admits its node, under lawful cryptography and a prefix of 8 bytes:
  -- put into a record that the node's own key signs, with any other contents, it passes the full
  -- verification of every peer whose trusted keys have 32 bytes and hold the CA's, until it
  -- expires, unless that peer counts the identity as revoked.
  pub issue_admits :
      IsLawful C
      → (node_priv wg_pub : Bytes) (now later : ℕ) (hostname : Text) (caps : List Text)
        (st : CaState)
      → (c : Credential) (r : NodeRecord) (ca_pubs : List Bytes) (revoked_ids : List Text)
      → length cfg.prefix ≡ 8
      → (issue cfg now (C.raw_pub node_priv) wg_pub hostname caps st).0 ≡ ok c
      → r.id_pub ≡ C.raw_pub node_priv
      → r.cred ≡ c
      → AreKeys ca_pubs
      → Has (C.raw_pub cfg.ca_priv) ca_pubs
      → contains revoked_ids (hex (C.raw_pub node_priv)) ≡ false
      → later < whole_second now + cfg.ttl
      → Record.verify ca_pubs revoked_ids false later (Record.sign node_priv r) ≡ ok tt
  unfolding new_credential Record.sign
  issue_admits L node_priv wg_pub now later hostname caps st c r ca_pubs revoked_ids n h p q a m f
        t =
      let id_pub = C.raw_pub node_priv in
      let e = (issue-new_credential now id_pub wg_pub hostname caps st c h).0 in
      let verified : Credential.verify ca_pubs false later r.cred ≡ ok tt =
        rw (q, e) (new_credential-verify L ca_pubs now later id_pub wg_pub hostname caps a m t) in
      let (v, x) = (credential-verify_iff ca_pubs false later r.cred a).0 verified in
      (record-verify_iff ca_pubs revoked_ids false later (Record.sign node_priv r) a).1 (
        v,
        x,
        record {
          key_length = rw p (L.length-raw_pub node_priv);
          self_signed =
              subst
                (λ k.
                  C.verify_sig k (Record.sign node_priv r).sig
                    (canonical (Record.body_dict (Record.sign node_priv r)))
                  ≡ true)
                (sym p) (verify_sig-sign L node_priv r);
          address = rw (p, q, e) (derive_addr-genuine L id_pub n);
          same_id = rw (p, q, e) refl;
        },
        rw p f,
      )
