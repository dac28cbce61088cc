-- ===== src/Server/Sans.antt =====
-- The names that `/cert` of server.py lets into a certificate.
use greasewood.Base.{
  ℕ, ◌≡◌, refl, Bool, true, Option, none, some, List, [], ◌∷◌, ◌==◌, ==_self, list_eq, nat_eq,
  contains, all, inl, inr, arith, Text, Bytes, Option-cases,
}
use greasewood.Errors.{ok, returned→ok}
use greasewood.Wire.Crypto.{Crypto, derive_addr}
use greasewood.Wire.Requests.{CertRequest, verify_cert_request}
use greasewood.Hosts.Names.{mesh_name}
use greasewood.Ca.Defs.{Config, node_info}
use greasewood.Server.Guard.{check_and_add}
use greasewood.Server.Defs.{Settings, Plane, certs}
use greasewood.Server.Cert.{
  Sans, tls, owned_dns, or_own, authorize_sans, handle_cert, cert_now, issue_for, ttl_or_week,
}

or_own-all :
    (p : Text → Bool) (own : Text) (xs : List Text)
    → p own ≡ true
    → all p xs ≡ true
    → all p (or_own own xs) ≡ true
or_own-all p own [] o h = ground arith
or_own-all p own (x ∷ xs) o h = h

owned_dns_self : (own : Text) → owned_dns own own ≡ true
unfolding owned_dns
owned_dns_self own = ground (arith, ==_self own)

module _ ⦃C : Crypto⦄ (issue_tls : Bytes → Text → List Text → List Text → ℕ → Option (Text × Text))
    (cfg : Settings) where
  -- A request that may have a certificate, and the names that are then put into it.
  pub record Entitled (ca : Config) (now : ℕ) (req : CertRequest) (s : Plane) (leaf ca_cert : Text)
      : Type 0 where
    pub hostname : Text
    pub caps : List Text
    pub sans : Sans
    pub enrolled : (node_info ca now req.id_pub s.ca).0 ≡ some (hostname, caps)
    pub may_tls : contains caps tls ≡ true
    pub signed : verify_cert_request req ≡ ok tt
    pub own_cn : owned_dns (mesh_name hostname cfg.mesh_domain) sans.cn ≡ true
    pub own_dns : all (owned_dns (mesh_name hostname cfg.mesh_domain)) sans.dns ≡ true
    pub own_ips : all (λ ip. ip == derive_addr ca.prefix req.id_pub) sans.ips ≡ true
    pub ttl : ℕ
    pub issued : issue_tls req.leaf_pub sans.cn sans.dns sans.ips ttl ≡ some (leaf, ca_cert)

  authorize_sans-owned :
      (ca : Config) (req : CertRequest) (hostname : Text) (sans : Sans)
      → authorize_sans issue_tls cfg ca req hostname ≡ some sans
      → (owned_dns (mesh_name hostname cfg.mesh_domain) sans.cn ≡ true)
        × (all (owned_dns (mesh_name hostname cfg.mesh_domain)) sans.dns ≡ true)
        × (all (λ ip. ip == derive_addr ca.prefix req.id_pub) sans.ips ≡ true)
  unfolding authorize_sans
  authorize_sans-owned ca req hostname sans h = ground (
    arith,
    owned_dns_self (mesh_name hostname cfg.mesh_domain),
    or_own-all (owned_dns (mesh_name hostname cfg.mesh_domain)) (mesh_name hostname cfg.mesh_domain)
        req.dns,
    or_own-all (λ ip. ip == derive_addr ca.prefix req.id_pub) (derive_addr ca.prefix req.id_pub)
        req.ips (==_self (derive_addr ca.prefix req.id_pub)),
  )

  issue_for-certs :
      (req : CertRequest) (o : Option Sans) (leaf ca_cert : Text) (s : Plane)
      → (issue_for issue_tls cfg req o s).0 ≡ certs leaf ca_cert
      → (sans : Sans) × (o ≡ some sans)
        × (issue_tls req.leaf_pub sans.cn sans.dns sans.ips
              (ttl_or_week issue_tls cfg cfg.tls_cert_ttl)
            ≡ some (leaf, ca_cert))
  unfolding issue_for
  issue_for-certs req none leaf ca_cert s h = absurd (ground arith)
  issue_for-certs req (some sans) leaf ca_cert s h = (sans, refl, ground arith)

  -- A certificate names only what its node owns: one is given only for a request that the node's own
  -- key signed, to a node that the CA knows and that holds the `tls` capability; and every name in it
  -- is the name that the CA knows the node by, or below that name, and every address the node's own.
  pub handle_cert-Entitled :
      (ca : Config) (now : ℕ) (req : CertRequest) (leaf ca_cert : Text) (s : Plane)
      → (handle_cert issue_tls cfg ca now (ok req) s).0 ≡ certs leaf ca_cert
      → Entitled ca now req s leaf ca_cert
  unfolding handle_cert cert_now
  handle_cert-Entitled ca now req leaf ca_cert s h =
      elim (Option-cases (node_info ca now req.id_pub s.ca).0) [
        | inl e ↦ absurd (ground arith)
        | inr ((hostname, caps), e) ↦
            let (sans, a, t) =
              issue_for-certs req (authorize_sans issue_tls cfg ca req hostname) leaf ca_cert
                (record s {
                  replay = (check_and_add now req.nonce s.replay).1;
                  ca = (node_info ca now req.id_pub s.ca).1;
                })
                (ground arith) in
            let (cn, dns, ips) = authorize_sans-owned ca req hostname sans a in
            record {
              hostname = hostname;
              caps = caps;
              sans = sans;
              enrolled = e;
              may_tls = ground arith;
              signed = returned→ok _ (ground arith);
              own_cn = cn;
              own_dns = dns;
              own_ips = ips;
              ttl = _;
              issued = t;
            }
      ]
