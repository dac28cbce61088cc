-- ===== src/Wire/Decode.antt =====
-- `from_dict` and `to_dict` of wire.py, for credentials and testimonies, over what `json.loads` gives.
use greasewood.Base.{
  ℕ, Bool, not, Option, none, some, List, [], ◌∷◌, ◌++◌, length, ◌==◌, nat_eq, list_eq,
  if◌then◌else◌, Text, Bytes, codes,
}
use greasewood.Errors.{
  Result, ok, err, ◌>>=◌, ◌>>◌, raise_if, no_key, wrong_type, bad_timestamp, bad_key_length,
  undecodable, malformed,
}
use greasewood.Wire.Json.{Json, str, arr, Items, nil, cons, Fields, end, field, b64e}
use greasewood.Wire.Credential
use greasewood.Wire.Credential.{Credential}
use greasewood.Wire.Requests.{EndpointAttestation, attest_body}

-- What the code calls of Python's library: `datetime.fromisoformat`, which gives whether the result has
-- a time zone, and the instant; and `base64.b64decode`. `none` is a `ValueError`.
pub record Reader : Type 0 where
  pub fromisoformat : Text → Option (Bool × ℕ)
  pub b64decode : Text → Option Bytes

-- `d.get(key)`
unfoldable pub find : Text → Fields → Option Json
find key end = none
find key (field k v fs) = let rest = find key fs in if k == key then some v else rest

-- `d[key]`
unfoldable pub item : Text → Fields → Result Json
unfolding find
item key d = elim (find key d) [ none ↦ err no_key | some v ↦ ok v ]

-- `d[key] = v`, where the key is not there yet
unfoldable pub add_item : Text → Json → Fields → Fields
add_item key v end = field key v end
add_item key v (field k w fs) = field k w (add_item key v fs)

-- `_str`
unfoldable pub as_str : Json → Result Text
as_str (str s) = ok s
as_str j = err wrong_type

-- The test of `_str_list` on the entries.
unfoldable pub as_strs : Items → Result (List Text)
unfolding as_str
as_strs nil = ok []
as_strs (cons j xs) = as_str j >>= λ s. as_strs xs >>= λ ss. ok (s ∷ ss)

-- `_str_list`
unfoldable pub as_str_list : Json → Result (List Text)
unfolding as_strs
as_str_list (arr xs) = as_strs xs
as_str_list j = err wrong_type

-- `s.replace("Z", "+00:00")`
unfoldable pub replace_z : Text → Text
replace_z [] = []
replace_z (c ∷ s) = let rest = replace_z s in if c == 90 then codes "+00:00" ++ rest else c ∷ rest

module _ (R : Reader) where
  -- `_parse_ts`
  unfoldable pub parse_ts : Json → Result ℕ
  unfolding replace_z
  parse_ts (str s) = elim (R.fromisoformat (replace_z s)) [
    | none ↦ err bad_timestamp
    | some (aware, t) ↦ if aware then ok t else err bad_timestamp
  ]
  parse_ts j = err bad_timestamp

  -- `_b64d`; base64 refuses what is no text with a `TypeError`
  unfoldable pub b64d : Json → Result Bytes
  b64d (str s) = elim (R.b64decode s) [ none ↦ err undecodable | some b ↦ ok b ]
  b64d j = err wrong_type

  -- `_b64d_key`
  unfoldable pub b64d_key : Json → Result Bytes
  unfolding b64d
  b64d_key j = do raw ← b64d j; raise_if (not (length raw == 32)) bad_key_length; ok raw

  -- `Credential.from_dict`
  unfoldable pub credential_from_dict : Fields → Result Credential
  unfolding b64d_key as_str as_str_list parse_ts item
  credential_from_dict d = do
    id_pub ← item (codes "id_pub") d >>= b64d_key
    wg_pub ← item (codes "wg_pub") d >>= b64d_key
    addr ← item (codes "addr") d >>= as_str
    hostname ← item (codes "hostname") d >>= as_str
    caps ← item (codes "caps") d >>= as_str_list
    iat ← item (codes "iat") d >>= parse_ts
    exp ← item (codes "exp") d >>= parse_ts
    ca_sig ← item (codes "ca_sig") d >>= b64d
    ok (record {
      id_pub = id_pub;
      wg_pub = wg_pub;
      addr = addr;
      hostname = hostname;
      caps = caps;
      iat = iat;
      exp = exp;
      ca_sig = ca_sig;
    })

  -- The first test of `EndpointAttestation.from_dict`.
  unfoldable pub attest_kind : Fields → Result Text
  unfolding find as_str
  attest_kind d = elim (find (codes "attest") d) [ none ↦ ok [] | some j ↦ as_str j ]

  -- `EndpointAttestation.from_dict`
  unfoldable pub attestation_from_dict : Fields → Result EndpointAttestation
  unfolding b64d_key as_str parse_ts item attest_kind
  attestation_from_dict d = do
    kind ← attest_kind d
    raise_if (not (kind == codes "endpoint")) malformed
    attester ← item (codes "attester") d >>= b64d_key
    subject ← item (codes "subject") d >>= b64d_key
    endpoint ← item (codes "endpoint") d >>= as_str
    ts ← item (codes "ts") d >>= parse_ts
    sig ← item (codes "sig") d >>= b64d
    ok (record { attester = attester; subject = subject; endpoint = endpoint; ts = ts; sig = sig })

-- `Credential.to_dict`
unfoldable pub credential_to_dict : Credential → Fields
unfolding Credential.body_dict add_item
credential_to_dict c = add_item (codes "ca_sig") (str (b64e c.ca_sig)) (Credential.body_dict c)

-- `EndpointAttestation.to_dict`
unfoldable pub attestation_to_dict : EndpointAttestation → Fields
unfolding attest_body add_item
attestation_to_dict a = add_item (codes "sig") (str (b64e a.sig)) (attest_body a)
