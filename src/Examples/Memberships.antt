-- ===== src/Examples/Memberships.antt =====
-- A statement log with a revocation and a tombstone, and the directory beside it.
use greasewood.Base.{
  ℕ, ◌+◌, ◌*◌, ◌<◌, ◌≡◌, refl, ◌↔◌, true, some, [], ◌∷◌, contains, list_eq, nat_eq, option_eq,
  pair_eq, Has, arith, codes, hex,
}
use greasewood.Base.Dict
use native.Mathlib.Decide.{ℕ_discrete}
use greasewood.Errors.{ok}
use greasewood.Wire.Time.{day, second}
use greasewood.Wire.Record.{NodeRecord, verify_structural}
use greasewood.Wire.Statement
use greasewood.Wire.Statement.{Kind, AnchorStatement, revoke, tombstone, no_upgrade, kind_eq}
use greasewood.Latest.Defs.{NoTies}
use greasewood.Directory.Defs.{Directory}
use greasewood.Directory.Merge.{IsSound}
use greasewood.Statements.Defs.{StatementLog, key_of, merge, prune, is_dead, revoked_ids}
use greasewood.Statements.Merge.{IsAuthentic, Offered, ts_of}
use greasewood.Statements.Lifetime.{begin, next, merged, pruned, revoked_forever}
use greasewood.Examples.Setup.{toy, anchor_priv, ann, trusted_keys, start, record_of}

abbrev statement : Kind → ℕ → AnchorStatement
statement kind ts = Statement.sign anchor_priv (record {
  kind = kind;
  id_pub = ann;
  ts = ts;
  caps = [];
  hostname = [];
  upgrade = no_upgrade;
  ca_sig = [];
})

abbrev revoked : AnchorStatement
revoked = statement revoke start

abbrev left : AnchorStatement
left = statement tombstone start

abbrev left_again : AnchorStatement
left_again = statement tombstone (start + day)

abbrev log : StatementLog
log = ((tombstone, hex ann), left) ∷ ((revoke, hex ann), revoked) ∷ []

same_two : (a b s : AnchorStatement) → Has s (a ∷ b ∷ []) ↔ Has s (b ∷ a ∷ [])
same_two a b s = (λ h. ground arith, λ h. ground arith)

no_ties :
    (a b : AnchorStatement)
    → a.ts < b.ts
    → NoTies key_of ts_of (Offered (a ∷ b ∷ []) trusted_keys [])
unfolding Dict.lookup
no_ties a b lt k s t o p e = ground arith

ascending : left.ts < left_again.ts
unfolding Statement.sign
ascending = omega arith

empty-IsAuthentic : IsAuthentic trusted_keys []
unfolding Dict.lookup
empty-IsAuthentic = record { nodup = tt; authentic = λ k s h. absurd (ground arith) }

log-NodupKeys : Dict.NodupKeys log
unfolding Dict.lookup kind_eq list_eq pair_eq
log-NodupKeys = (refl, (refl, tt))

log_revoked : contains (revoked_ids log) (hex ann) ≡ true
unfolding revoked_ids kind_eq list_eq hex
log_revoked = refl

revoked_forever_example :
    contains
      (revoked_ids (prune (start + 30 * day) (merge (left_again ∷ []) trusted_keys log).0).0)
      (hex ann)
    ≡ true
revoked_forever_example =
    revoked_forever log (prune (start + 30 * day) (merge (left_again ∷ []) trusted_keys log).0).0
      (hex ann) (next (next begin (merged (left_again ∷ []))) (pruned (start + 30 * day)))
      log-NodupKeys log_revoked

log_dead : is_dead (hex ann) start log ≡ true
unfolding is_dead Dict.lookup pair_eq kind_eq list_eq hex Statement.sign
log_dead = refl

abbrev node : NodeRecord
node = record_of (1 ∷ []) (codes "db") [] start 1

node_genuine : verify_structural node ≡ ok tt
unfolding verify_structural ℕ_discrete greasewood.Wire.Record.sign toy list_eq
    greasewood.Wire.Json.canonical greasewood.Wire.Credential.sign
    greasewood.Wire.Crypto.derive_addr greasewood.Wire.Crypto.host_bits greasewood.Wire.Json.b64e
    greasewood.Wire.Time.ts
node_genuine = refl

abbrev directory : Directory
directory = (hex ann, node) ∷ []

one-IsSound : (r : NodeRecord) → verify_structural r ≡ ok tt → IsSound ((hex r.id_pub, r) ∷ [])
unfolding Dict.lookup
one-IsSound r v = record { nodup = (refl, tt); genuine = λ k s h. (ground arith, ground arith) }

directory-IsSound : IsSound directory
unfolding greasewood.Wire.Record.sign
directory-IsSound = one-IsSound node node_genuine

found_tombstone : Dict.lookup (tombstone, hex ann) log ≡ some left
unfolding Dict.lookup pair_eq kind_eq list_eq hex
found_tombstone = refl
