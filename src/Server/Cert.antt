-- ===== src/Server/Cert.antt =====
-- `/cert` of server.py, and `do_POST`. The issue of an X.509 certificate is code of a library, and so
-- an argument: from the leaf key, the common name, the DNS names, the addresses and the lifetime to
-- the certificate and the CA's, or nothing where it raises.
use greasewood.Base.{
  ℕ, ◌*◌, ◌-◌, Bool, not, ◌&&◌, ◌||◌, Option, none, some, List, [], ◌∷◌, length, drop, all, leb,
  ◌==◌, list_eq, nat_eq, if◌then◌else◌, contains, Text, Bytes, codes,
}
use greasewood.Errors.{Result, ok, err, returned}
use greasewood.Wire.Time.{day}
use greasewood.Wire.Crypto.{Crypto, derive_addr}
use greasewood.Wire.Record.{NodeRecord}
use greasewood.Wire.Requests.{
  RenewRequest, LeaveRequest, AnchorClaimRequest, EndpointAttestation, CertRequest,
  verify_cert_request,
}
use greasewood.Hosts.Names.{mesh_name}
use greasewood.Ca.Defs.{Config, node_info}
use greasewood.Ca.Methods.{is_set}
use greasewood.Server.Guard.{check_and_add}
use greasewood.Server.Defs.{
  Settings, error, certs, Handler, is_skewed, once, handle_publish, handle_leave, handle_attest,
  handle_anchor_claim, handle_renew,
}

-- `s.endswith(t)`
abbrev pub ends_with : Text → Text → Bool
ends_with s t = leb (length t) (length s) && drop (length s - length t) s == t

-- `_owned_dns`
unfoldable pub owned_dns : Text → Text → Bool
owned_dns own_name name = name == own_name || ends_with name (46 ∷ own_name)

abbrev pub or_own : Text → List Text → List Text
or_own own [] = own ∷ []
or_own own (x ∷ xs) = x ∷ xs

abbrev pub tls : Text
tls = codes "tls"

-- The three that `_authorize_sans` returns: the common name, the DNS names and the addresses.
pub record Sans : Type 0 where
  pub cn : Text
  pub dns : List Text
  pub ips : List Text

pub data Post : Type 0 where
  bad_json not_found : Post
  publish : Result NodeRecord → Post
  leave : Result LeaveRequest → Post
  attest : List (Option EndpointAttestation) → Post
  anchor_claim : Result AnchorClaimRequest → Post
  renew_post : Result RenewRequest → Post
  cert : Result CertRequest → Post

module _ ⦃C : Crypto⦄ (issue_tls : Bytes → Text → List Text → List Text → ℕ → Option (Text × Text))
    (cfg : Settings) where
  -- `_authorize_sans`: none for a refusal
  unfoldable pub authorize_sans : Config → CertRequest → Text → Option Sans
  unfolding mesh_name owned_dns derive_addr
  authorize_sans ca req hostname =
      let own_name : Text = mesh_name hostname cfg.mesh_domain in
      let own_addr : Text = derive_addr ca.prefix req.id_pub in
      if not (all (owned_dns own_name) req.dns && all (λ ip. ip == own_addr) req.ips)
      then none
      else some (record {
        cn = if is_set req.cn && owned_dns own_name req.cn then req.cn else own_name;
        dns = or_own own_name req.dns;
        ips = or_own own_addr req.ips;
      })

  unfoldable pub ttl_or_week : Option ℕ → ℕ
  ttl_or_week none = 7 * day
  ttl_or_week (some t) = if t == 0 then 7 * day else t

  unfoldable pub issue_for : CertRequest → Option Sans → Handler
  unfolding ttl_or_week
  issue_for req none s = (error 403, s)
  issue_for req (some sans) s =
      elim (issue_tls req.leaf_pub sans.cn sans.dns sans.ips (ttl_or_week cfg.tls_cert_ttl)) [
        | none ↦ (error 500, s)
        | some (leaf, ca_cert) ↦ (certs leaf ca_cert, s)
      ]

  -- `_handle_cert`, from the read of the CA's view of the node on
  unfoldable pub cert_now : Config → ℕ → CertRequest → Handler
  unfolding issue_for authorize_sans node_info
  cert_now ca now req s =
      let (info, st) = node_info ca now req.id_pub s.ca in
      let s' = record s { ca = st } in
      elim info [
        | none ↦ (error 403, s')
        | some (hostname, caps) ↦
            if not (contains caps tls)
            then (error 403, s')
            else issue_for req (authorize_sans ca req hostname) s'
      ]

  unfoldable pub handle_cert : Config → ℕ → Result CertRequest → Handler
  unfolding cert_now verify_cert_request check_and_add
  handle_cert ca now (err e) s = (error 400, s)
  handle_cert ca now (ok req) s =
      if not (returned (verify_cert_request req))
      then (error 400, s)
      else if not (length req.leaf_pub == 32)
      then (error 400, s)
      else if is_skewed now req.ts
      then (error 400, s)
      else once now req.nonce (cert_now ca now req) s

  -- The dispatch of `do_POST` on an anchor.
  unfoldable pub anchor_post : Config → ℕ → Post → Handler
  unfolding handle_publish handle_leave handle_attest handle_anchor_claim handle_renew handle_cert
  anchor_post ca now bad_json s = (error 400, s)
  anchor_post ca now not_found s = (error 404, s)
  anchor_post ca now (publish r) s = handle_publish cfg now r s
  anchor_post ca now (leave req) s = handle_leave cfg ca now req s
  anchor_post ca now (attest l) s =
      if cfg.has_attestations then handle_attest cfg now l s else (error 404, s)
  anchor_post ca now (anchor_claim req) s =
      if cfg.has_data_dir then handle_anchor_claim cfg now req s else (error 403, s)
  anchor_post ca now (renew_post req) s = handle_renew cfg ca now req s
  anchor_post ca now (cert req) s = handle_cert ca now req s

  -- The dispatch with no CA.
  unfoldable pub plain_post : ℕ → Post → Handler
  unfolding handle_publish
  plain_post now bad_json s = (error 400, s)
  plain_post now not_found s = (error 404, s)
  plain_post now (publish r) s = handle_publish cfg now r s
  plain_post now (attest l) s = (error 404, s)
  plain_post now (leave req) s = (error 403, s)
  plain_post now (anchor_claim req) s = (error 403, s)
  plain_post now (renew_post req) s = (error 403, s)
  plain_post now (cert req) s = (error 403, s)

  -- `do_POST`
  unfoldable pub do_post : ℕ → Post → Handler
  unfolding anchor_post plain_post
  do_post now p s = elim cfg.ca [ none ↦ plain_post now p s | some ca ↦ anchor_post ca now p s ]
