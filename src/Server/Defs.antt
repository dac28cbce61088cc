-- ===== src/Server/Defs.antt =====
-- `_Handler` of server.py: its state, its replies, and the handlers of `/publish`, `/leave`, `/attest`,
-- `/anchor-claim` and `/renew`. A handler reads the clock once, and its body is what `from_dict` made
-- of the JSON: a value, or the error that ends the request.
use greasewood.Base.{
  ℕ, ◌*◌, Bool, true, false, not, Option, none, some, List, [], ◌∷◌, ltb, ◌==◌, list_eq, nat_eq,
  if◌then◌else◌, Text, Bytes, hex,
}
use greasewood.Errors.{Result, ok, err, returned}
use greasewood.Wire.Json.{Json}
use greasewood.Wire.Time.{second}
use greasewood.Wire.Crypto.{Crypto}
use greasewood.Wire.Credential
use greasewood.Wire.Credential.{Credential}
use greasewood.Wire.Record
use greasewood.Wire.Record.{NodeRecord}
use greasewood.Wire.Requests.{
  RenewRequest, LeaveRequest, AnchorClaimRequest, EndpointAttestation, verify_renew, verify_leave,
  verify_claim,
}
use greasewood.Directory.Defs.{get, merge}
use greasewood.Attest.Defs.{AttestLog, prune}
use greasewood.Ca.Defs.{Config, CaState, load_revoked_set}
use greasewood.Ca.Methods.{distance, forget_node, renew}
use greasewood.Server.Guard.{Seen, check_and_add}
use greasewood.Server.Offer.{Offer, OfferFile, read_offer, consume_offer}

-- What the handler class is built with. Its `directory` and `statements` are those of the CA, and its
-- `get_revoked` is the CA's `load_revoked_set`, as daemon.py builds it.
pub record Settings : Type 0 where
  pub ca : Option Config
  pub ca_pubs : List Bytes
  pub mesh_domain : Text
  pub tls_cert_ttl : Option ℕ
  -- whether there are an `attestations` log and a `data_dir`, and whether files in it can be unlinked
  pub has_attestations : Bool
  pub has_data_dir : Bool
  pub can_unlink : Bool

pub record Plane : Type 0 where
  pub ca : CaState
  pub replay : Seen
  pub attestations : AttestLog
  pub offer : OfferFile

-- What is sent back: an error with its status, or the fields of a reply with status 200.
pub data Reply : Type 0 where
  error : ℕ → Reply
  status_ok : Reply
  left : Bool → Reply
  accepted : ℕ → Reply
  claimed : Json → Text → Reply
  credential : Credential → Reply
  certs : Text → Text → Reply

abbrev pub Handler : Type 0
Handler = Plane → Reply × Plane

-- `skew > 300`
abbrev pub is_skewed : ℕ → ℕ → Bool
is_skewed now ts = ltb (300 * second) (distance now ts)

-- `if not self.replay.check_and_add(nonce)`: the request is refused, or goes on with the nonce used.
abbrev pub once : ℕ → Text → Handler → Handler
once now nonce rest s =
    let (fresh, seen) = check_and_add now nonce s.replay in
    if fresh then rest (record s { replay = seen }) else (error 400, record s { replay = seen })

module _ ⦃C : Crypto⦄ (cfg : Settings) where
  -- `_handle_publish`; the save of the directory, which may fail, does not change the state
  unfoldable pub handle_publish : ℕ → Result NodeRecord → Handler
  unfolding merge load_revoked_set
  handle_publish now (err e) s = (error 400, s)
  handle_publish now (ok r) s =
      if returned (Record.verify cfg.ca_pubs (load_revoked_set s.ca) false now r)
      then (
        status_ok,
        record s { ca = record s.ca { directory = (merge now (r ∷ []) s.ca.directory).0 } },
      )
      else (error 400, s)

  -- `_handle_leave`, from the call of the CA on
  unfoldable pub leave_now : Config → ℕ → LeaveRequest → Handler
  leave_now ca now req s =
      let (freed, st) = forget_node ca now req.id_pub s.ca in (left freed, record s { ca = st })

  unfoldable pub handle_leave : Config → ℕ → Result LeaveRequest → Handler
  unfolding leave_now verify_leave forget_node check_and_add
  handle_leave ca now (err e) s = (error 400, s)
  handle_leave ca now (ok req) s =
      if not (returned (verify_leave req))
      then (error 400, s)
      else if is_skewed now req.ts
      then (error 400, s)
      else once now req.nonce (leave_now ca now req) s

  -- `_known`
  unfoldable pub known : Plane → ℕ → Text → Bool
  unfolding get
  known s now hex_id = elim (get hex_id s.ca.directory) [
    | none ↦ false
    | some r ↦ returned (Credential.verify cfg.ca_pubs true now r.cred)
  ]

  -- `parse_attestations`: what could be parsed
  unfoldable pub parse_attestations : List (Option EndpointAttestation) → List EndpointAttestation
  parse_attestations [] = []
  parse_attestations (none ∷ l) = parse_attestations l
  parse_attestations (some a ∷ l) = a ∷ parse_attestations l

  -- `_handle_attest`
  unfoldable pub handle_attest : ℕ → List (Option EndpointAttestation) → Handler
  unfolding known parse_attestations greasewood.Attest.Defs.merge prune
  handle_attest now l s =
      let (log, n) =
        greasewood.Attest.Defs.merge (known s now) now (parse_attestations l) s.attestations in
      (accepted n, record s { attestations = (prune now log).0 })

  -- `_handle_anchor_claim`, from the read of the offer on
  unfoldable pub serve_offer : AnchorClaimRequest → Option Offer → Handler
  serve_offer req none s = (error 404, s)
  serve_offer req (some o) s = if not (o.to_id == hex req.id_pub) then (error 403, s) else (
    claimed o.sealed o.to_hostname,
    record s { offer = consume_offer cfg.can_unlink s.offer },
  )

  unfoldable pub claim_now : ℕ → AnchorClaimRequest → Handler
  unfolding serve_offer read_offer consume_offer
  claim_now now req s =
      let (o, file) = read_offer cfg.can_unlink now s.offer in
      serve_offer req o (record s { offer = file })

  unfoldable pub handle_anchor_claim : ℕ → Result AnchorClaimRequest → Handler
  unfolding claim_now verify_claim check_and_add
  handle_anchor_claim now (err e) s = (error 400, s)
  handle_anchor_claim now (ok req) s =
      if not (returned (verify_claim req))
      then (error 400, s)
      else if is_skewed now req.ts
      then (error 400, s)
      else once now req.nonce (claim_now now req) s

  -- `_handle_renew`
  unfoldable pub renew_now : Config → ℕ → RenewRequest → Handler
  renew_now ca now req s =
      let (r, st) = renew ca now req s.ca in
      (elim r [ err _ ↦ error 400 | ok c ↦ credential c ], record s { ca = st })

  unfoldable pub handle_renew : Config → ℕ → Result RenewRequest → Handler
  unfolding renew_now verify_renew renew check_and_add
  handle_renew ca now (err e) s = (error 400, s)
  handle_renew ca now (ok req) s =
      if not (returned (verify_renew req))
      then (error 400, s)
      else once now req.nonce (renew_now ca now req) s
