-- ===== src/Wire/Credential.antt =====
-- `Credential` of wire.py: what the CA signs about a node.
use greasewood.Base.{
  ℕ, ◌≡◌, Bool, true, not, ◌&&◌, List, [], ◌∷◌, leb, ◌==◌, nat_eq, if◌then◌else◌, Text, Bytes,
  codes, length,
}
use greasewood.Errors.{Result, ok, err, bad_key_length, no_trusted_signature, expired_credential}
use greasewood.Wire.Json.{Fields, str, arr, end, field, strs, text_ltb, b64e, canonical}
use greasewood.Wire.Time.{ts}
use greasewood.Wire.Crypto.{Crypto}

pub record Credential : Type 0 where
  pub id_pub : Bytes
  pub wg_pub : Bytes
  pub addr : Text
  pub hostname : Text
  pub caps : List Text
  pub iat : ℕ
  pub exp : ℕ
  pub ca_sig : Bytes

unfoldable pub insert_text : Text → List Text → List Text
insert_text s [] = s ∷ []
insert_text s (t ∷ l) = if text_ltb t s then t ∷ insert_text s l else s ∷ t ∷ l

-- `sorted(l)` of a list of strings
unfoldable pub sorted : List Text → List Text
unfolding insert_text text_ltb
sorted [] = []
sorted (s ∷ l) = insert_text s (sorted l)

-- `_body_dict`
unfoldable pub body_dict : Credential → Fields
unfolding sorted
body_dict c = field (codes "addr") (str c.addr) (
    field (codes "caps") (arr (strs (sorted c.caps))) (
      field (codes "exp") (str (ts c.exp)) (
        field (codes "hostname") (str c.hostname) (
          field (codes "iat") (str (ts c.iat)) (
            field (codes "id_pub") (str (b64e c.id_pub))
              (field (codes "wg_pub") (str (b64e c.wg_pub)) end))))))

module _ ⦃C : Crypto⦄ where
  -- `sign`
  unfoldable pub sign : Bytes → Credential → Credential
  unfolding body_dict
  sign ca_priv c = record c { ca_sig = C.sign ca_priv (canonical (body_dict c)) }

  -- The loop over the trusted keys: the first one under which the signature holds decides.
  unfoldable pub verify_loop : Bytes → Bytes → ℕ → ℕ → Bool → List Bytes → Result (Unit {0})
  verify_loop sig body exp now allow_expired [] = err no_trusted_signature
  verify_loop sig body exp now allow_expired (raw_pub ∷ rest) =
      let later = verify_loop sig body exp now allow_expired rest in
      if not (length raw_pub == 32)
      then err bad_key_length
      else if C.verify_sig raw_pub sig body
      then (if not allow_expired && leb exp now then err expired_credential else ok tt)
      else later

  -- `verify`, at the clock `now`
  unfoldable pub verify : List Bytes → Bool → ℕ → Credential → Result (Unit {0})
  unfolding verify_loop
  verify ca_pubs allow_expired now c =
      verify_loop c.ca_sig (canonical (body_dict c)) c.exp now allow_expired ca_pubs

  -- A key under which the credential's signature holds.
  abbrev pub SignedBy : Credential → Bytes → Type 0
  SignedBy c pub_key = C.verify_sig pub_key c.ca_sig (canonical (body_dict c)) ≡ true
