-- ===== src/Examples/Policies.antt =====
-- Grant tables: what they allow between three nodes, what a change of them would do, and how a node
-- adopts one. A node's name with a line feed behind it.
use greasewood.Base.{
  ℕ, ◌≡◌, refl, ◌↔◌, true, false, none, some, List, [], ◌∷◌, list_eq, nat_eq, option_eq, pair_eq,
  Has, ◌⊎◌, Text, codes,
}
use native.Mathlib.Decide.{ℕ_discrete}
use greasewood.Errors.{ok}
use greasewood.Wire.Record.{NodeRecord}
use greasewood.Wire.Grants
use greasewood.Wire.Grants.{Grant, GrantTable, star}
use greasewood.Hosts.Label.{whole_match}
use greasewood.Policy.Tags.{node_tags, peers_allowed}
use greasewood.Policy.Peering.{Connects, peers_allowed_iff}
use greasewood.Policy.Adoption.Defs.{GrantPolicy, offer}
use greasewood.Policy.Adoption.Laws.{begin, next, offered, Follows, Life-Follows}
use greasewood.Examples.Setup.{toy, anchor_priv, trusted_keys, start, record_of}

abbrev web : Text
web = codes "web"

abbrev db : Text
db = codes "db"

abbrev web_caps : List Text
web_caps = codes "role:web" ∷ []

abbrev db_caps : List Text
db_caps = codes "role:db" ∷ []

abbrev pub web_to_db : Grant
web_to_db = record { from = web ∷ []; to = db ∷ []; ports = star ∷ []; relay = false }

abbrev pub to_host : Grant
to_host = record { from = db ∷ []; to = codes "host:a" ∷ []; ports = star ∷ []; relay = false }

peers_allowed_iff_example :
    (peers_allowed web_caps db_caps (some (web_to_db ∷ [])) none none ≡ true) ↔ (
      (Has star (node_tags web_caps none) ⊎ Has star (node_tags db_caps none))
      ⊎ ((g : Grant) × Has g (web_to_db ∷ [])
          × (Connects g (node_tags web_caps none) (node_tags db_caps none)
              ⊎ Connects g (node_tags db_caps none) (node_tags web_caps none))))
peers_allowed_iff_example = peers_allowed_iff web_caps db_caps none none (web_to_db ∷ [])

abbrev records : List NodeRecord
records =
    record_of (1 ∷ []) (codes "a") web_caps start 1
    ∷ record_of (2 ∷ []) (codes "b") db_caps start 1
    ∷ []

abbrev pub table : ℕ → GrantTable
table seq = Grants.sign anchor_priv (record { seq = seq; grants = web_to_db ∷ []; ca_sig = [] })

abbrev pub holding : GrantPolicy
holding = record { table = some (table 1); cache_mtime = none }

Life-Follows_example :
    Follows trusted_keys (some (table 1)) (offer trusted_keys (some (ok (table 2))) holding).0.table
Life-Follows_example =
    Life-Follows trusted_keys holding (offer trusted_keys (some (ok (table 2))) holding).0
      (next begin (offered (some (ok (table 2)))))

db_matches : whole_match db ≡ true
unfolding whole_match ℕ_discrete
db_matches = refl
