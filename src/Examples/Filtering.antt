-- ===== src/Examples/Filtering.antt =====
-- The flows into a database node, and an attestation that reaches a log.
use greasewood.Base.{
  ◌≡◌, refl, Bool, true, false, none, some, [], ◌∷◌, ◌++◌, list_eq, nat_eq, pair_eq, Has, Text,
  codes, hex,
}
use native.Mathlib.Decide.{ℕ_discrete}
use greasewood.Base.Dict
use greasewood.Wire.Json.{canonical}
use greasewood.Wire.Grants.{Grant}
use greasewood.Wire.Record.{NodeRecord}
use greasewood.Wire.Requests.{EndpointAttestation, attest_body, verify_attestation}
use greasewood.Policy.Tags.{peers_allowed}
use greasewood.PortFilter.Defs.{Flow, port, port_allowances}
use greasewood.PortFilter.Laws.{allowed, port_allowances_peered}
use greasewood.Attest.Defs.{merge, prune, pair_of}
use greasewood.Examples.Setup.{toy, ann, ben, start, record_of}

abbrev web_to_db : Grant
web_to_db = record {
  from = codes "web" ∷ [];
  to = codes "db" ∷ [];
  ports = codes "tcp/5432" ∷ [];
  relay = false;
}

abbrev web_node : NodeRecord
web_node = record_of (1 ∷ []) (codes "a") (codes "role:web" ∷ []) start 1

abbrev postgres : Flow
postgres = port (codes "tcp") 5432

let_through :
    allowed
      (port_allowances (web_node ∷ []) (codes "role:db" ∷ []) (some (web_to_db ∷ [])) none)
      postgres
      web_node.cred.addr
    ≡ true
unfolding port_allowances Dict.lookup list_eq greasewood.Wire.Record.sign
    greasewood.Wire.Credential.sign Dict.insert greasewood.PortFilter.Defs.flow_eq
    greasewood.Wire.Crypto.derive_addr toy greasewood.Wire.Crypto.host_bits
let_through = refl

port_allowances_peered_example :
    (r : NodeRecord) × Has r (web_node ∷ [])
    × (web_node.cred.addr ≡ r.cred.addr)
    × (peers_allowed
          (codes "role:db" ∷ [])
          r.cred.caps
          (some (web_to_db ∷ []))
          none
          (some r.cred.hostname)
        ≡ true)
port_allowances_peered_example =
    port_allowances_peered (web_node ∷ []) (codes "role:db" ∷ []) (web_to_db ∷ []) none postgres
      web_node.cred.addr let_through

abbrev unsigned : EndpointAttestation
unsigned = record {
  attester = ann;
  subject = ben;
  endpoint = codes "192.0.2.1:51900";
  ts = start;
  sig = [];
}

abbrev testimony : EndpointAttestation
testimony = record unsigned { sig = ann ++ canonical (attest_body unsigned) }

abbrev everyone : Text → Bool
everyone i = true

recorded :
    Dict.lookup (pair_of testimony) (prune start (merge everyone start (testimony ∷ []) []).0).0
    ≡ some testimony
unfolding merge prune Dict.lookup Dict.erase_all verify_attestation ℕ_discrete toy list_eq canonical
    greasewood.Wire.Json.b64e greasewood.Wire.Time.ts Dict.insert pair_eq hex
recorded = refl
