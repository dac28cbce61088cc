-- ===== src/Wire/Requests.antt =====
-- The self-signed requests and testimonies of wire.py. Each is signed over its own body by the key
-- whose public half it carries.
use greasewood.Base.{ℕ, not, List, [], ◌∷◌, length, ◌==◌, nat_eq, if◌then◌else◌, Text, Bytes, codes}
use greasewood.Errors.{Result, ok, err, bad_key_length, invalid_self_signature}
use greasewood.Wire.Json.{Fields, str, arr, end, field, strs, b64e, canonical}
use greasewood.Wire.Time.{ts}
use greasewood.Wire.Crypto.{Crypto}

pub record RenewRequest : Type 0 where
  pub id_pub : Bytes
  pub wg_pub : Bytes
  pub nonce : Text
  pub ts : ℕ
  pub hostname : Text
  pub sig : Bytes

with_hostname : Text → Fields → Fields
with_hostname [] d = d
with_hostname (c ∷ s) d = field (codes "hostname") (str (c ∷ s)) d

-- `RenewRequest._body_dict`
unfoldable pub renew_body : RenewRequest → Fields
unfolding with_hostname
renew_body r = with_hostname r.hostname (
    field (codes "id_pub") (str (b64e r.id_pub)) (
      field (codes "nonce") (str r.nonce)
        (field (codes "ts") (str (ts r.ts)) (field (codes "wg_pub") (str (b64e r.wg_pub)) end))))

pub record LeaveRequest : Type 0 where
  pub id_pub : Bytes
  pub nonce : Text
  pub ts : ℕ
  pub sig : Bytes

-- `LeaveRequest._body_dict`
unfoldable pub leave_body : LeaveRequest → Fields
leave_body r =
    field (codes "id_pub") (str (b64e r.id_pub))
      (field (codes "nonce") (str r.nonce) (field (codes "ts") (str (ts r.ts)) end))

pub record EndpointAttestation : Type 0 where
  pub attester : Bytes
  pub subject : Bytes
  pub endpoint : Text
  pub ts : ℕ
  pub sig : Bytes

-- `EndpointAttestation._body_dict`
unfoldable pub attest_body : EndpointAttestation → Fields
attest_body a = field (codes "attest") (str (codes "endpoint")) (
    field (codes "attester") (str (b64e a.attester)) (
      field (codes "endpoint") (str a.endpoint)
        (field (codes "subject") (str (b64e a.subject)) (field (codes "ts") (str (ts a.ts)) end))))

pub record AnchorClaimRequest : Type 0 where
  pub id_pub : Bytes
  pub nonce : Text
  pub ts : ℕ
  pub sig : Bytes

-- `AnchorClaimRequest._body_dict`
unfoldable pub claim_body : AnchorClaimRequest → Fields
claim_body r = field (codes "claim") (str (codes "anchor")) (
    field (codes "id_pub") (str (b64e r.id_pub))
      (field (codes "nonce") (str r.nonce) (field (codes "ts") (str (ts r.ts)) end)))

pub record CertRequest : Type 0 where
  pub id_pub : Bytes
  pub leaf_pub : Bytes
  pub cn : Text
  pub dns : List Text
  pub ips : List Text
  pub nonce : Text
  pub ts : ℕ
  pub sig : Bytes

-- `CertRequest._body_dict`
unfoldable pub cert_body : CertRequest → Fields
cert_body r = field (codes "cn") (str r.cn) (
    field (codes "dns") (arr (strs r.dns)) (
      field (codes "id_pub") (str (b64e r.id_pub)) (
        field (codes "ips") (arr (strs r.ips)) (
          field (codes "leaf_pub") (str (b64e r.leaf_pub))
            (field (codes "nonce") (str r.nonce) (field (codes "ts") (str (ts r.ts)) end))))))

-- `enroll_pop_body`, before `_canonical`
unfoldable pub enroll_pop_body : Bytes → Bytes → Text → Fields
enroll_pop_body id_pub wg_pub hostname =
    field (codes "hostname") (str hostname)
      (field (codes "id_pub") (str (b64e id_pub)) (field (codes "wg_pub") (str (b64e wg_pub)) end))

module _ ⦃C : Crypto⦄ where
  -- What the five `verify_self_sig` methods do with their key, signature and body.
  unfoldable pub self_signed : Bytes → Bytes → Fields → Result (Unit {0})
  self_signed pub_key sig body =
      if not (length pub_key == 32)
      then err bad_key_length
      else if C.verify_sig pub_key sig (canonical body)
      then ok tt
      else err invalid_self_signature

  unfoldable pub verify_renew : RenewRequest → Result (Unit {0})
  unfolding self_signed renew_body
  verify_renew r = self_signed r.id_pub r.sig (renew_body r)

  unfoldable pub verify_leave : LeaveRequest → Result (Unit {0})
  unfolding self_signed leave_body
  verify_leave r = self_signed r.id_pub r.sig (leave_body r)

  unfoldable pub verify_attestation : EndpointAttestation → Result (Unit {0})
  unfolding self_signed attest_body
  verify_attestation a = self_signed a.attester a.sig (attest_body a)

  unfoldable pub verify_claim : AnchorClaimRequest → Result (Unit {0})
  unfolding self_signed claim_body
  verify_claim r = self_signed r.id_pub r.sig (claim_body r)

  unfoldable pub verify_cert_request : CertRequest → Result (Unit {0})
  unfolding self_signed cert_body
  verify_cert_request r = self_signed r.id_pub r.sig (cert_body r)
