-- ===== src/Examples/Pulling.antt =====
-- A node that pulls the departure of a peer, and that is asked to forget itself.
use greasewood.Base.{
  ◌+◌, ◌<◌, ◌⊎◌, inl, inr, ◌≡◌, refl, ◌≢◌, true, false, none, some, [], ◌∷◌, ◌==◌, list_eq, nat_eq,
  option_eq, arith, codes, hex,
}
use native.Mathlib.Decide.{ℕ_discrete}
use greasewood.Base.Dict
use greasewood.Wire.Time.{day}
use greasewood.Wire.Record
use greasewood.Wire.Record.{NodeRecord}
use greasewood.Wire.Statement
use greasewood.Wire.Statement.{AnchorStatement, tombstone, no_upgrade}
use greasewood.Directory.Defs.{merge}
use greasewood.Directory.Merge.{merge-IsSound}
use greasewood.Directory.Defs.{drop_grace}
use greasewood.Statements.Merge.{Offered}
use greasewood.Sync.Defs.{Settings, Listing, failed, pulled, SyncState}
use greasewood.Sync.Pull.{adopt, pull_once}
use greasewood.Sync.Laws.{IsGood, pull_once-IsGood}
use greasewood.Sync.Effects.{Stays, adopt-alive, pull_once-Stays}
use greasewood.Examples.Setup.{toy, anchor_priv, ann, ben, trusted_keys, start, record_of}

abbrev node : Settings
node = record {
  ca_pubs = trusted_keys;
  own_id_hex = some (hex ann);
  expected_domain = none;
  has_statements = true;
  has_attestations = false;
  has_on_renew_after = false;
  has_on_policy = false;
  has_on_upgrade_hint = false;
}

abbrev own : NodeRecord
own = record_of (1 ∷ []) (codes "a") [] start 4

abbrev before : SyncState
before = record {
  directory = (merge start (own ∷ []) []).0;
  statements = [];
  attestations = [];
  cache = [];
  statements_file = [];
  revoked_file = none;
  pending_rename = none;
  last_sync = none;
  last_skew_warn = none;
  warned_domain = none;
  calls = [];
}

abbrev ann_leaves : AnchorStatement
ann_leaves = Statement.sign anchor_priv (record {
  kind = tombstone;
  id_pub = ann;
  ts = start + day;
  caps = [];
  hostname = [];
  upgrade = no_upgrade;
  ca_sig = [];
})

abbrev listing : Listing
listing = record {
  records = record_of (2 ∷ []) (codes "b") [] start 1 ∷ [];
  renew_after = none;
  anchor_now = none;
  mesh_domain = none;
  policy = none;
  statements = ann_leaves ∷ [];
  attestations = [];
}

before-IsGood : IsGood trusted_keys before
unfolding Dict.lookup
before-IsGood = record {
  sound =
      merge-IsSound start (own ∷ []) []
        (record { nodup = tt; genuine = λ k r h. absurd (ground arith) });
  authentic = record { nodup = tt; authentic = λ k s h. absurd (ground arith) };
}

pull_once-IsGood_example :
    IsGood trusted_keys (pull_once node start start (failed ∷ pulled listing none ∷ []) before).1
pull_once-IsGood_example =
    pull_once-IsGood node start start (failed ∷ pulled listing none ∷ []) before before-IsGood

held : Dict.lookup (hex ann) before.directory ≡ some own
unfolding Dict.lookup merge Record.verify_structural ℕ_discrete Record.sign toy list_eq
    greasewood.Wire.Json.canonical greasewood.Wire.Credential.sign
    greasewood.Wire.Crypto.derive_addr greasewood.Wire.Crypto.host_bits greasewood.Wire.Json.b64e
    greasewood.Wire.Time.ts greasewood.Directory.Defs.past_drop Dict.insert hex
held = refl

in_time : greasewood.Directory.Defs.past_drop own greasewood.Directory.Defs.drop_grace start ≡ false
unfolding greasewood.Directory.Defs.past_drop Record.sign greasewood.Wire.Credential.sign
in_time = refl

own-Stays : Stays node start (hex ann) own before.directory
unfolding Stays
own-Stays = (own, held, inl refl, in_time)

pull_once-Stays_example :
    Stays node start
      (hex ann)
      own
      (pull_once node start start (failed ∷ pulled listing none ∷ []) before).1.directory
pull_once-Stays_example =
    pull_once-Stays node start start own (failed ∷ pulled listing none ∷ []) (hex ann) before
      before-IsGood refl own-Stays

other_identity : (hex ben == hex ann) ≡ false
unfolding hex ℕ_discrete list_eq
other_identity = refl

ben_ne_ann : some (hex ben) ≢ some (hex ann)
ben_ne_ann h = ground (arith, other_identity)

-- The pull brings the record of a peer and the tombstone that ends it.
abbrev ben_leaves : AnchorStatement
ben_leaves = Statement.sign anchor_priv (record {
  kind = tombstone;
  id_pub = ben;
  ts = start + day;
  caps = [];
  hostname = [];
  upgrade = no_upgrade;
  ca_sig = [];
})

abbrev departure : Listing
departure = record listing { statements = ben_leaves ∷ [] }

ben_leaves-Offered :
    Offered departure.statements trusted_keys before.statements (tombstone, hex ben) ben_leaves
unfolding Statement.verify Statement.sign ℕ_discrete toy list_eq greasewood.Wire.Json.canonical
    greasewood.Wire.Json.b64e greasewood.Wire.Time.ts
ben_leaves-Offered = inr (inl refl, refl, refl)

recent : start < ben_leaves.ts + drop_grace
unfolding Statement.sign
recent = omega arith

adopt-alive_example :
    (Dict.lookup (hex ben) (adopt node start start departure none before).directory ≡ none)
    ⊎ ((w : NodeRecord) × (Dict.lookup
            (hex ben)
            (adopt node start start departure none before).directory
          ≡ some w)
        × (ben_leaves.ts < w.cred.iat))
adopt-alive_example =
    adopt-alive node start start departure none before (hex ben) ben_leaves refl before-IsGood
      ben_ne_ann ben_leaves-Offered recent
