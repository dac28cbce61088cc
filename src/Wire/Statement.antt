-- ===== src/Wire/Statement.antt =====
-- `AnchorStatement` of wire.py: a membership decision that the CA signs.
use greasewood.Base.{
  ℕ, Bool, true, false, not, List, [], ◌∷◌, ◌==◌, nat_eq, Eq, if◌then◌else◌, Text, Bytes, codes,
  length,
}
use native.Mathlib.Decide.{ℕ_discrete}
use greasewood.Errors.{Result, ok, err, bad_key_length, unknown_kind, no_trusted_signature}
use greasewood.Wire.Json.{Fields, str, arr, obj, end, field, strs, b64e, canonical}
use greasewood.Wire.Time.{ts}
use greasewood.Wire.Crypto.{Crypto}
use greasewood.Wire.Credential.{sorted}

-- The four strings of `STATEMENT_KINDS`, and any other string.
pub data Kind : Type 0 where
  revoke tombstone setcaps upgrade : Kind
  other : Text → Kind

kind_dec : Discrete Kind
kind_dec = hlevel ℕ_discrete

instance unfoldable pub kind_eq : Eq Kind
unfolding kind_dec ℕ_discrete
kind_eq = record { dec = kind_dec }

abbrev pub kind_text : Kind → Text
kind_text revoke = codes "revoke"
kind_text tombstone = codes "tombstone"
kind_text setcaps = codes "setcaps"
kind_text upgrade = codes "upgrade"
kind_text (other s) = s

-- `kind in STATEMENT_KINDS`
abbrev pub is_known : Kind → Bool
is_known (other s) = false
is_known _ = true

-- The `upgrade` payload: its version and its sha256, if there is one.
pub data Upgrade : Type 0 where
  no_upgrade : Upgrade
  release : Text → Text → Upgrade

pub record AnchorStatement : Type 0 where
  pub kind : Kind
  pub id_pub : Bytes
  pub ts : ℕ
  pub caps : List Text
  pub hostname : Text
  pub upgrade : Upgrade
  pub ca_sig : Bytes

with_upgrade : Upgrade → Fields → Fields
with_upgrade no_upgrade d = d
with_upgrade (release version sha256) d =
    field (codes "upgrade")
      (obj (field (codes "sha256") (str sha256) (field (codes "version") (str version) end))) d

-- `_body_dict`
unfoldable pub body_dict : AnchorStatement → Fields
unfolding with_upgrade sorted
body_dict s = field (codes "caps") (arr (strs (sorted s.caps))) (
    field (codes "hostname") (str s.hostname) (
      field (codes "id_pub") (str (b64e s.id_pub)) (
        field (codes "kind") (str (kind_text s.kind))
          (field (codes "ts") (str (ts s.ts)) (with_upgrade s.upgrade end)))))

module _ ⦃C : Crypto⦄ where
  -- `sign`
  unfoldable pub sign : Bytes → AnchorStatement → AnchorStatement
  unfolding body_dict
  sign ca_priv s = record s { ca_sig = C.sign ca_priv (canonical (body_dict s)) }

  -- The loop over the trusted keys, which GrantTable.verify has too.
  unfoldable pub any_signature : Bytes → Bytes → List Bytes → Result (Unit {0})
  any_signature sig body [] = err no_trusted_signature
  any_signature sig body (raw_pub ∷ rest) =
      let later = any_signature sig body rest in
      if not (length raw_pub == 32)
      then err bad_key_length
      else if C.verify_sig raw_pub sig body
      then ok tt
      else later

  -- `verify`
  unfoldable pub verify : List Bytes → AnchorStatement → Result (Unit {0})
  unfolding any_signature
  verify ca_pubs s =
      if not (is_known s.kind)
      then err unknown_kind
      else any_signature s.ca_sig (canonical (body_dict s)) ca_pubs
