-- ===== src/Examples/Serving.antt =====
-- An anchor's control plane that serves a departure, a renewal, a claim and a certificate.
use greasewood.Base.{
  ℕ, ◌+◌, ◌*◌, ◌≤◌, ◌<◌, ◌≡◌, refl, Bool, true, false, none, some, List, [], ◌∷◌, length, ◌==◌,
  list_eq, nat_eq, arith, Text, Bytes, codes, hex,
}
use native.Mathlib.Decide.{ℕ_discrete}
use greasewood.Base.Dict
use greasewood.Errors.{ok}
use greasewood.Wire.Json.{Json, null, canonical}
use greasewood.Wire.Time.{day, second}
use greasewood.Wire.Record
use greasewood.Wire.Record.{NodeRecord}
use greasewood.Wire.Requests.{
  LeaveRequest, leave_body, AnchorClaimRequest, claim_body, CertRequest, cert_body,
}
use greasewood.Ca.Defs.{load_revoked_set}
use greasewood.Server.Guard.{hard}
use greasewood.Server.Offer.{Offer, present}
use greasewood.Server.Defs.{Settings, Plane, claimed, certs, handle_anchor_claim}
use greasewood.Server.Cert.{leave, tls, handle_cert, do_post}
use greasewood.Server.Replay.{leaves, is_error}
use greasewood.Server.Run.{here, next, do_post_once, Served-length}
use greasewood.Server.Safety.{Honest, handle_anchor_claim-Honest}
use greasewood.Server.Sans.{Entitled, handle_cert-Entitled}
use greasewood.Examples.Setup.{toy, ann, trusted_keys, start, cfg, fresh_ca, record_of}

-- A library that issues a certificate with the leaf key as its text.
abbrev issue_tls : Bytes → Text → List Text → List Text → ℕ → greasewood.Base.Option (Text × Text)
issue_tls leaf cn dns ips ttl = some (leaf, [])

abbrev settings : Settings
settings = record {
  ca = some cfg;
  ca_pubs = trusted_keys;
  mesh_domain = codes "gw";
  tls_cert_ttl = none;
  has_attestations = true;
  has_data_dir = true;
  can_unlink = true;
}

abbrev offer_for_ann : Offer
offer_for_ann = record {
  to_id = hex ann;
  to_hostname = codes "a";
  sealed = null;
  expires = start + day;
}

abbrev plane : Plane
plane = record {
  ca = record fresh_ca {
    directory = (hex ann, record_of (1 ∷ []) (codes "a") (tls ∷ []) start 1) ∷ [];
  };
  replay = [];
  attestations = [];
  offer = present offer_for_ann;
}

abbrev unsigned_leave : LeaveRequest
unsigned_leave = record { id_pub = ann; nonce = codes "n"; ts = start; sig = [] }

abbrev leaving : LeaveRequest
leaving = record unsigned_leave { sig = toy.sign (1 ∷ []) (canonical (leave_body unsigned_leave)) }

granted : is_error (do_post issue_tls settings start (leave (ok leaving)) plane).0 ≡ false
unfolding do_post ℕ_discrete toy list_eq canonical greasewood.Wire.Json.b64e greasewood.Wire.Time.ts
    Dict.lookup
granted = refl

do_post_once_example :
    (is_error
        (do_post issue_tls settings
          (start + 60 * second)
          (leave (ok leaving))
          (do_post issue_tls settings start (leave (ok leaving)) plane).1).0
      ≡ true)
    × ((do_post issue_tls settings
          (start + 60 * second)
          (leave (ok leaving))
          (do_post issue_tls settings start (leave (ok leaving)) plane).1).1.ca
        ≡ (do_post issue_tls settings start (leave (ok leaving)) plane).1.ca)
do_post_once_example =
    do_post_once issue_tls settings start (start + 60 * second) (leave (ok leaving))
      (leave (ok leaving)) (codes "n") plane
      (do_post issue_tls settings start (leave (ok leaving)) plane).1 (leaves leaving) granted here
      (omega arith) (leaves leaving)

Served-length_example :
    length (do_post issue_tls settings start (leave (ok leaving)) plane).1.replay ≤ hard
Served-length_example =
    Served-length issue_tls settings start plane
      (do_post issue_tls settings start (leave (ok leaving)) plane).1
      (next start (leave (ok leaving)) plane (omega arith) here) (omega arith)

abbrev unsigned_claim : AnchorClaimRequest
unsigned_claim = record { id_pub = ann; nonce = codes "n"; ts = start; sig = [] }

abbrev claim : AnchorClaimRequest
claim = record unsigned_claim { sig = toy.sign (1 ∷ []) (canonical (claim_body unsigned_claim)) }

claim_granted : (handle_anchor_claim settings start (ok claim) plane).0 ≡ claimed null (codes "a")
unfolding handle_anchor_claim ℕ_discrete toy list_eq canonical greasewood.Wire.Json.b64e
    greasewood.Wire.Time.ts Dict.lookup hex
claim_granted = refl

handle_anchor_claim-Honest_example : Honest settings start claim plane null (codes "a")
handle_anchor_claim-Honest_example =
    handle_anchor_claim-Honest settings start claim plane null (codes "a") claim_granted

abbrev unsigned_cert : CertRequest
unsigned_cert = record {
  id_pub = ann;
  leaf_pub = ann;
  cn = [];
  dns = codes "x.a.gw" ∷ [];
  ips = [];
  nonce = codes "n";
  ts = start;
  sig = [];
}

abbrev asking : CertRequest
asking = record unsigned_cert { sig = toy.sign (1 ∷ []) (canonical (cert_body unsigned_cert)) }

cert_granted : (handle_cert issue_tls settings cfg start (ok asking) plane).0 ≡ certs ann []
unfolding handle_cert ℕ_discrete toy list_eq canonical greasewood.Wire.Json.b64e
    greasewood.Wire.Time.ts Dict.lookup greasewood.Statements.Defs.revoked_ids
    greasewood.Ca.Defs.gc_recent Dict.erase_all hex greasewood.Wire.Credential.verify Record.sign
    greasewood.Wire.Credential.sign greasewood.Wire.Crypto.host_bits
cert_granted = refl

handle_cert-Entitled_example : Entitled issue_tls settings cfg start asking plane ann []
handle_cert-Entitled_example =
    handle_cert-Entitled issue_tls settings cfg start asking ann [] plane cert_granted

abbrev fresh_record : NodeRecord
fresh_record = record_of (1 ∷ []) (codes "a") [] start 2

verified :
    Record.verify trusted_keys (load_revoked_set plane.ca) false (start + day) fresh_record ≡ ok tt
unfolding Record.verify greasewood.Wire.Credential.verify ℕ_discrete toy list_eq Record.sign
    greasewood.Wire.Credential.sign canonical greasewood.Wire.Crypto.derive_addr
    greasewood.Wire.Crypto.host_bits greasewood.Wire.Time.ts greasewood.Wire.Json.b64e
    Record.verify_structural load_revoked_set greasewood.Statements.Defs.revoked_ids
verified = refl
