-- ===== src/Wire/Record.antt =====
-- `NodeRecord` of wire.py: what a node signs about itself, with its credential inside.
use greasewood.Base.{
  ℕ, Bool, true, not, none, some, List, [], ◌==◌, list_eq, nat_eq, if◌then◌else◌, contains, Text,
  Bytes, codes, hex, length, drop,
}
use greasewood.Errors.{
  Result, err, bad_key_length, invalid_self_signature, bad_addr, addr_not_derived, id_mismatch,
  revoked, raise_if, ◌>>◌,
}
use greasewood.Wire.Json.{Fields, str, num, flag, arr, obj, end, field, strs, b64e, canonical}
use greasewood.Wire.Crypto.{Crypto, host_bits}
use greasewood.Wire.Credential
use greasewood.Wire.Credential.{Credential, sorted}

pub record NodeRecord : Type 0 where
  pub id_pub : Bytes
  pub seq : ℕ
  pub endpoints : List Text
  pub cred : Credential
  pub aliases : List Text
  pub reachable : List Text
  pub relay : Bool
  pub version : Text
  pub families : List ℕ
  pub sig : Bytes

-- the property `hostname`
abbrev pub hostname : NodeRecord → Text
hostname r = r.cred.hostname

-- `Credential.to_dict`
cred_to_dict : Credential → Fields
cred_to_dict c = field (codes "ca_sig") (str (b64e c.ca_sig)) (Credential.body_dict c)

-- A list that is left out of the signed body while it is empty.
unless_empty : Text → List Text → Fields → Fields
unless_empty k [] d = d
unless_empty k l d = field k (arr (strs (sorted l))) d

-- `_body_dict`: neither `version` nor `families` is covered.
unfoldable pub body_dict : NodeRecord → Fields
unfolding cred_to_dict unless_empty sorted Credential.body_dict
body_dict r = unless_empty (codes "aliases") r.aliases (
    unless_empty (codes "reachable") r.reachable (
      let base : Fields = field (codes "cred") (obj (cred_to_dict r.cred)) (
        field (codes "endpoints") (arr (strs r.endpoints))
          (field (codes "id_pub") (str (b64e r.id_pub)) (field (codes "seq") (num r.seq) end))) in
      if r.relay then field (codes "relay") (flag true) base else base))

module _ ⦃C : Crypto⦄ where
  -- `sign`
  unfoldable pub sign : Bytes → NodeRecord → NodeRecord
  unfolding body_dict
  sign id_priv r = record r { sig = C.sign id_priv (canonical (body_dict r)) }

  -- The part of `verify_structural` on the address of the credential.
  unfoldable pub check_addr : Bytes → Text → Result (Unit {0})
  check_addr id_pub addr = elim (C.packed addr) [
    | none ↦ err bad_addr
    | some bytes ↦ raise_if (not (drop 8 bytes == host_bits id_pub)) addr_not_derived
  ]

  -- `verify_structural`
  unfoldable pub verify_structural : NodeRecord → Result (Unit {0})
  unfolding check_addr
  verify_structural r = do
    raise_if (not (length r.id_pub == 32)) bad_key_length
    raise_if (not (C.verify_sig r.id_pub r.sig (canonical (body_dict r)))) invalid_self_signature
    check_addr r.id_pub r.cred.addr
    raise_if (not (r.id_pub == r.cred.id_pub)) id_mismatch

  -- `verify`, at the clock `now`, with the revoked identities in hex
  unfoldable pub verify : List Bytes → List Text → Bool → ℕ → NodeRecord → Result (Unit {0})
  verify ca_pubs revoked_ids allow_expired now r = do
    Credential.verify ca_pubs allow_expired now r.cred
    verify_structural r
    raise_if (contains revoked_ids (hex r.id_pub)) revoked
