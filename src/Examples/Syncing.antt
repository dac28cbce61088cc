-- ===== src/Examples/Syncing.antt =====
-- A directory that two versions of a node's record reach in either order, and that is swept.
use greasewood.Base.{
  ℕ, ◌+◌, ◌*◌, ◌<◌, ◌≡◌, refl, ◌↔◌, true, false, none, some, [], ◌∷◌, contains, list_eq, nat_eq,
  option_eq, Has, ◌⊎◌, arith, Text, codes, hex,
}
use greasewood.Base.Dict
use native.Mathlib.Decide.{ℕ_discrete}
use greasewood.Errors.{ok}
use greasewood.Wire.Time.{day, second}
use greasewood.Wire.Json.{canonical}
use greasewood.Wire.Credential
use greasewood.Wire.Record
use greasewood.Wire.Record.{NodeRecord, verify_structural}
use greasewood.Wire.Statement
use greasewood.Wire.Statement.{AnchorStatement, revoke, no_upgrade, is_known}
use greasewood.Wire.Verify.{Vouched, IsGenuine, record-verify_iff}
use greasewood.Latest.Defs.{NoTies}
use greasewood.Directory.Defs.{Directory, merge, prune_stale, past_drop, drop_grace}
use greasewood.Directory.Merge.{IsSound, Offered, id_of, seq_of, merge_order_free}
use greasewood.Examples.Setup.{toy, anchor_priv, ann, trusted_keys, start, record_of}

abbrev db : Text
db = codes "db"

abbrev older : NodeRecord
older = record_of (1 ∷ []) db [] start 1

abbrev newer : NodeRecord
newer = record_of (1 ∷ []) db [] start 2

record-verify_iff_example : (Record.verify trusted_keys [] false (start + day) older ≡ ok tt) ↔ (
    Vouched trusted_keys older.cred.ca_sig (canonical (Credential.body_dict older.cred))
    × ((false ≡ true) ⊎ (start + day < older.cred.exp))
    × IsGenuine older
    × (contains [] (hex older.id_pub) ≡ false))
record-verify_iff_example = record-verify_iff trusted_keys [] false (start + day) older (refl, tt)

abbrev no_more_ann : AnchorStatement
no_more_ann = Statement.sign anchor_priv (record {
  kind = revoke;
  id_pub = ann;
  ts = start;
  caps = [];
  hostname = [];
  upgrade = no_upgrade;
  ca_sig = [];
})

same_two : (a b r : NodeRecord) → Has r (a ∷ b ∷ []) ↔ Has r (b ∷ a ∷ [])
same_two a b r = (λ h. ground arith, λ h. ground arith)

no_ties :
    (now : ℕ) (a b : NodeRecord) → a.seq < b.seq → NoTies id_of seq_of (Offered now (a ∷ b ∷ []) [])
unfolding Dict.lookup
no_ties now a b lt k r s o p e = ground arith

ascending : older.seq < newer.seq
unfolding Record.sign
ascending = omega arith

merge_order_free_example :
    Dict.lookup (hex ann) (merge start (older ∷ newer ∷ []) []).0
    ≡ Dict.lookup (hex ann) (merge start (newer ∷ older ∷ []) []).0
merge_order_free_example =
    merge_order_free start (older ∷ newer ∷ []) (newer ∷ older ∷ []) [] (hex ann)
      (same_two older newer) (no_ties start older newer ascending)

merged : Dict.lookup (hex ann) (merge start (older ∷ newer ∷ []) []).0 ≡ some newer
unfolding merge Dict.lookup verify_structural ℕ_discrete Record.sign toy list_eq canonical
    Credential.sign greasewood.Wire.Crypto.derive_addr greasewood.Wire.Crypto.host_bits
    greasewood.Wire.Json.b64e greasewood.Wire.Time.ts past_drop Dict.insert hex
merged = refl

empty-IsSound : IsSound []
unfolding Dict.lookup
empty-IsSound = record { nodup = tt; genuine = λ k r h. absurd (ground arith) }

abbrev held : Directory
held = (hex ann, older) ∷ []

-- A clock past the deadline of the record.
abbrev much_later : ℕ
much_later = start + 40 * day

held-NodupKeys : Dict.NodupKeys held
held-NodupKeys = (Dict.lookup-nil (hex ann), tt)

abbrev renewed : NodeRecord
renewed = record_of (1 ∷ []) db [] much_later 3

swept_away : (prune_stale drop_grace much_later none held).0 ≡ []
unfolding prune_stale Dict.erase_all option_eq past_drop Record.sign Credential.sign Dict.erase
    list_eq hex
swept_away = refl

landed : Dict.lookup (hex ann) (merge much_later (renewed ∷ []) []).0 ≡ some renewed
unfolding merge Dict.lookup verify_structural ℕ_discrete Record.sign toy list_eq canonical
    Credential.sign greasewood.Wire.Crypto.derive_addr greasewood.Wire.Crypto.host_bits
    greasewood.Wire.Json.b64e greasewood.Wire.Time.ts past_drop Dict.insert hex
landed = refl

back_again :
    Dict.lookup
      (hex ann)
      (merge much_later (renewed ∷ []) (prune_stale drop_grace much_later none held).0).0
    ≡ some renewed
back_again = rw swept_away landed
