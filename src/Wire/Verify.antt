-- ===== src/Wire/Verify.antt =====
-- The `verify` methods of wire.py.
use greasewood.Base.{
  ℕ, ◌<◌, ◌≡◌, refl, ◌↔◌, Bool, true, false, Option, none, some, List, [], ◌∷◌, list_eq, nat_eq,
  contains, Has, All, ◌⊎◌, inl, inr, arith, Text, Bytes, hex, length, drop, Bool-cases,
}
use greasewood.Errors.{ok}
use greasewood.Wire.Json.{canonical}
use greasewood.Wire.Crypto.{Crypto, IsLawful, host_bits}
use greasewood.Wire.Credential
use greasewood.Wire.Credential.{Credential, SignedBy, verify_loop}
use greasewood.Wire.Record
use greasewood.Wire.Record.{NodeRecord, check_addr}
use greasewood.Wire.Statement
use greasewood.Wire.Statement.{AnchorStatement, any_signature, is_known}

-- A trusted set as the configuration holds it: every key has 32 bytes.
abbrev pub AreKeys : List Bytes → Type 0
AreKeys = All (λ k. length k ≡ 32)

module _ ⦃C : Crypto⦄ where
  -- A key of the trusted set vouches for the signature over the body.
  abbrev pub Vouched : List Bytes → Bytes → Bytes → Type 0
  Vouched ca_pubs sig body = (k : Bytes) × Has k ca_pubs × (C.verify_sig k sig body ≡ true)

  verify_loop_sound :
      (sig body : Bytes) (exp now : ℕ) (allow : Bool) (ks : List Bytes)
      → verify_loop sig body exp now allow ks ≡ ok tt
      → Vouched ks sig body × ((allow ≡ true) ⊎ (now < exp))
  unfolding verify_loop
  verify_loop_sound sig body exp now allow [] h = cc
  verify_loop_sound sig body exp now allow (k ∷ ks) h =
      elim (Bool-cases (C.verify_sig k sig body)) [
        | inl t ↦ ((k, inl refl, t), ground arith)
        | inr f ↦
            let ((k', m, t), e) = verify_loop_sound sig body exp now allow ks (ground arith) in
            ((k', inr m, t), e)
      ]

  verify_loop_complete :
      (sig body : Bytes) (exp now : ℕ) (allow : Bool) (ks : List Bytes)
      → AreKeys ks
      → Vouched ks sig body
      → ((allow ≡ true) ⊎ (now < exp))
      → verify_loop sig body exp now allow ks ≡ ok tt
  unfolding verify_loop
  verify_loop_complete sig body exp now allow [] a (k, m, t) e = absurd m
  verify_loop_complete sig body exp now allow (k ∷ ks) (n, a) (k', inl p, t) e = ground arith
  verify_loop_complete sig body exp now allow (k ∷ ks) (n, a) (k', inr m, t) e =
      ground (arith, verify_loop_complete sig body exp now allow ks a (k', m, t) e)

  -- A credential passes exactly when a trusted key signed its body and it has not expired, or its
  -- expiry is waived; no other field of the call matters.
  pub credential-verify_iff :
      (ca_pubs : List Bytes) (allow_expired : Bool) (now : ℕ) (c : Credential)
      → AreKeys ca_pubs
      → (Credential.verify ca_pubs allow_expired now c ≡ ok tt) ↔ (
          Vouched ca_pubs c.ca_sig (canonical (Credential.body_dict c))
          × ((allow_expired ≡ true) ⊎ (now < c.exp)))
  unfolding Credential.verify
  credential-verify_iff ca_pubs allow_expired now c a = (
    λ h. verify_loop_sound c.ca_sig _ c.exp now allow_expired ca_pubs h,
    λ (v, e). verify_loop_complete c.ca_sig _ c.exp now allow_expired ca_pubs a v e,
  )

  body_dict-sign :
      (priv : Bytes) (c : Credential)
      → Credential.body_dict (Credential.sign priv c) ≡ Credential.body_dict c
  unfolding Credential.sign
  body_dict-sign priv c = refl

  -- A credential that the CA signs passes at every clock before its expiry, under every trusted set
  -- that holds the CA's public key.
  pub credential-verify-sign :
      IsLawful C
      → (priv : Bytes) (ca_pubs : List Bytes) (now : ℕ) (c : Credential) → AreKeys ca_pubs
      → Has (C.raw_pub priv) ca_pubs
      → now < c.exp
      → Credential.verify ca_pubs false now (Credential.sign priv c) ≡ ok tt
  unfolding Credential.sign
  credential-verify-sign L priv ca_pubs now c a m e =
      (credential-verify_iff ca_pubs false now (Credential.sign priv c) a).1
        ((C.raw_pub priv, m, L.verify-sign priv _), inr e)

  -- The structural facts about a record.
  pub record IsGenuine (r : NodeRecord) : Type 0 where
    pub key_length : length r.id_pub ≡ 32
    pub self_signed : C.verify_sig r.id_pub r.sig (canonical (Record.body_dict r)) ≡ true
    pub address :
        (bytes : Bytes) × (C.packed r.cred.addr ≡ some bytes) × (drop 8 bytes ≡ host_bits r.id_pub)
    pub same_id : r.id_pub ≡ r.cred.id_pub

  -- The structural check passes exactly the records whose own key signed them, whose address is the
  -- one of their identity, and whose credential is for that identity.
  pub verify_structural_iff : (r : NodeRecord) → (Record.verify_structural r ≡ ok tt) ↔ IsGenuine r
  unfolding Record.verify_structural check_addr
  verify_structural_iff r = (
    λ h. record {
      key_length = ground arith;
      self_signed = ground arith;
      address = address_of (C.packed r.cred.addr) refl h;
      same_id = ground arith;
    },
    λ g. back g g.address,
  )
    where
      address_of :
          (o : Option Bytes)
          → C.packed r.cred.addr ≡ o
          → Record.verify_structural r ≡ ok tt
          → (bytes : Bytes) × (C.packed r.cred.addr ≡ some bytes)
            × (drop 8 bytes ≡ host_bits r.id_pub)
      address_of none e h = absurd (ground arith)
      address_of (some bytes) e h = (bytes, e, ground arith)

      back :
          IsGenuine r
          → ((bytes : Bytes) × (C.packed r.cred.addr ≡ some bytes)
              × (drop 8 bytes ≡ host_bits r.id_pub))
          → Record.verify_structural r ≡ ok tt
      back g (bytes, e, p) = ground (arith, g.key_length, g.self_signed, g.same_id)

  -- Where every trusted key has 32 bytes, a record passes full verification exactly when a trusted
  -- key vouches for its credential, which has not expired or whose expiry is waived, it is genuine,
  -- and its identity is not revoked; the waiver relaxes nothing else.
  pub record-verify_iff :
      (ca_pubs : List Bytes) (revoked_ids : List Text) (allow_expired : Bool) (now : ℕ)
      (r : NodeRecord)
      → AreKeys ca_pubs
      → (Record.verify ca_pubs revoked_ids allow_expired now r ≡ ok tt) ↔ (
          Vouched ca_pubs r.cred.ca_sig (canonical (Credential.body_dict r.cred))
          × ((allow_expired ≡ true) ⊎ (now < r.cred.exp))
          × IsGenuine r
          × (contains revoked_ids (hex r.id_pub) ≡ false))
  unfolding Record.verify
  record-verify_iff ca_pubs revoked_ids allow_expired now r a = (
    λ h.
        let (v, e) = (credential-verify_iff ca_pubs allow_expired now r.cred a).0 (ground arith) in
        (v, e, (verify_structural_iff r).0 (ground arith), ground arith),
    λ (v, e, g, n). ground (
      arith,
      (credential-verify_iff ca_pubs allow_expired now r.cred a).1 (v, e),
      (verify_structural_iff r).1 g,
    ),
  )

  any_signature_sound :
      (sig body : Bytes) (ks : List Bytes) → any_signature sig body ks ≡ ok tt → Vouched ks sig body
  unfolding any_signature
  any_signature_sound sig body [] h = cc
  any_signature_sound sig body (k ∷ ks) h = elim (Bool-cases (C.verify_sig k sig body)) [
    | inl t ↦ (k, inl refl, t)
    | inr f ↦ let (k', m, t) = any_signature_sound sig body ks (ground arith) in (k', inr m, t)
  ]

  pub any_signature_complete :
      (sig body : Bytes) (ks : List Bytes)
      → AreKeys ks
      → Vouched ks sig body
      → any_signature sig body ks ≡ ok tt
  unfolding any_signature
  any_signature_complete sig body [] a (k, m, t) = absurd m
  any_signature_complete sig body (k ∷ ks) (n, a) (k', inl p, t) = ground arith
  any_signature_complete sig body (k ∷ ks) (n, a) (k', inr m, t) =
      ground (arith, any_signature_complete sig body ks a (k', m, t))

  -- Where every trusted key has 32 bytes, a statement passes exactly when its kind is one of the
  -- four and a trusted key signed its body; the clock plays no part.
  pub statement-verify_iff :
      (ca_pubs : List Bytes) (s : AnchorStatement)
      → AreKeys ca_pubs
      → (Statement.verify ca_pubs s ≡ ok tt)
        ↔ ((is_known s.kind ≡ true) × Vouched ca_pubs s.ca_sig (canonical (Statement.body_dict s)))
  unfolding Statement.verify
  statement-verify_iff ca_pubs s a = (
    λ h. (ground arith, any_signature_sound s.ca_sig _ ca_pubs (ground arith)),
    λ (t, v). ground (arith, any_signature_complete s.ca_sig _ ca_pubs a v),
  )
