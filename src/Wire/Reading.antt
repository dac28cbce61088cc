-- ===== src/Wire/Reading.antt =====
-- What a credential and a testimony are after they were written and read again: `to_dict` and
-- `from_dict` of wire.py.
use Prim.Native.Nat.{◌/◌}
use greasewood.Base.{
  ℕ, ◌≡◌, refl, Bool, true, some, List, [], ◌∷◌, length, nat_eq, list_eq, arith, Text, Bytes,
}
use native.Mathlib.Decide.{ℕ_discrete}
use greasewood.Errors.{ok}
use greasewood.Wire.Json.{str, strs, b64e}
use greasewood.Wire.Time.{ts, whole_second, second}
use greasewood.Wire.Crypto.{Crypto}
use greasewood.Wire.Credential
use greasewood.Wire.Credential.{Credential, sorted}
use greasewood.Wire.Sorting.{sorted_idem}
use greasewood.Wire.Requests.{EndpointAttestation, attest_body}
use greasewood.Wire.Decode.{
  Reader, find, item, as_str, as_strs, replace_z, parse_ts, b64d, b64d_key, credential_from_dict,
  credential_to_dict, attestation_from_dict, attestation_to_dict, attest_kind,
}

-- What Python documents: an RFC 3339 text is read to its instant, and base64 is undone.
abbrev pub ReadsTime : Reader → ℕ → Type 0
ReadsTime R t = R.fromisoformat (replace_z (ts t)) ≡ some (true, whole_second t)

abbrev pub ReadsBytes : Reader → Bytes → Type 0
ReadsBytes R b = R.b64decode (b64e b) ≡ some b

seconds-whole_second : (t : ℕ) → whole_second t / second ≡ t / second
unfolding whole_second
seconds-whole_second t = omega arith

ts-whole_second : (t : ℕ) → ts (whole_second t) ≡ ts t
unfolding ts
ts-whole_second t = rw (seconds-whole_second t) refl

as_strs-strs : (l : List Text) → as_strs (strs l) ≡ ok l
unfolding as_strs strs
as_strs-strs [] = refl
as_strs-strs (s ∷ l) = rw (as_strs-strs l) refl

module _ (R : Reader) where
  parse_ts-ts : (t : ℕ) → ReadsTime R t → parse_ts R (str (ts t)) ≡ ok (whole_second t)
  unfolding parse_ts
  parse_ts-ts t h = rw (h, parse_ts) refl

  b64d-b64e : (b : Bytes) → ReadsBytes R b → b64d R (str (b64e b)) ≡ ok b
  unfolding b64d
  b64d-b64e b h = rw (h, b64d) refl

  b64d_key-b64e : (b : Bytes) → ReadsBytes R b → length b ≡ 32 → b64d_key R (str (b64e b)) ≡ ok b
  unfolding b64d_key
  b64d_key-b64e b h n = rw (b64d-b64e b h, n) (ground arith)

  -- Keys of 32 bytes, and a library that reads the texts of the credential.
  pub record IsReadable (c : Credential) : Type 0 where
    pub length-id_pub : length c.id_pub ≡ 32
    pub length-wg_pub : length c.wg_pub ≡ 32
    pub reads_id_pub : ReadsBytes R c.id_pub
    pub reads_wg_pub : ReadsBytes R c.wg_pub
    pub reads_ca_sig : ReadsBytes R c.ca_sig
    pub reads_iat : ReadsTime R c.iat
    pub reads_exp : ReadsTime R c.exp

  -- What is read of a credential that was written: the caps are sorted, and the times are cut to the
  -- second.
  abbrev as_read : Credential → Credential
  as_read c = record c { caps = sorted c.caps; iat = whole_second c.iat; exp = whole_second c.exp }

  credential_from_dict-to_dict :
      (c : Credential)
      → IsReadable c
      → credential_from_dict R (credential_to_dict c) ≡ ok (as_read c)
  unfolding credential_from_dict credential_to_dict item find list_eq ℕ_discrete
  credential_from_dict-to_dict c v =
      rw
        (
          b64d_key-b64e c.id_pub v.reads_id_pub v.length-id_pub,
          b64d_key-b64e c.wg_pub v.reads_wg_pub v.length-wg_pub,
          as_str,
          as_strs-strs (sorted c.caps),
          parse_ts-ts c.iat v.reads_iat,
          parse_ts-ts c.exp v.reads_exp,
          b64d-b64e c.ca_sig v.reads_ca_sig,
        )
        refl

  body_dict-as_read : (c : Credential) → Credential.body_dict (as_read c) ≡ Credential.body_dict c
  unfolding Credential.body_dict
  body_dict-as_read c = rw (sorted_idem c.caps, ts-whole_second c.iat, ts-whole_second c.exp) refl

  -- A credential keeps its worth on the way. One with keys of 32 bytes and an expiry on a whole second,
  -- whose texts the library reads, is read back by `from_dict` from what `to_dict` writes; and under any
  -- trusted keys, at any time, `verify` says of what was read what it says of the credential, errors
  -- included.
  pub verify-from_dict :
      ⦃C : Crypto⦄ (c : Credential)
      → IsReadable c
      → whole_second c.exp ≡ c.exp
      → (d : Credential) × (credential_from_dict R (credential_to_dict c) ≡ ok d)
        × ((ca_pubs : List Bytes) (allow_expired : Bool) (now : ℕ)
            → Credential.verify ca_pubs allow_expired now d
              ≡ Credential.verify ca_pubs allow_expired now c)
  unfolding Credential.verify
  verify-from_dict c v w = (
    as_read c,
    credential_from_dict-to_dict c v,
    λ ca_pubs allow_expired now. rw (body_dict-as_read c, w) refl,
  )

  -- A testimony that the library can read is read back with its time cut to the second, and is signed
  -- over the same body.
  attestation_from_dict-to_dict :
      (a : EndpointAttestation)
      → length a.attester ≡ 32
      → length a.subject ≡ 32
      → ReadsBytes R a.attester
      → ReadsBytes R a.subject
      → ReadsBytes R a.sig
      → ReadsTime R a.ts
      → (attestation_from_dict R (attestation_to_dict a) ≡ ok (record a { ts = whole_second a.ts }))
        × (attest_body (record a { ts = whole_second a.ts }) ≡ attest_body a)
  unfolding attestation_from_dict attestation_to_dict attest_body item find list_eq ℕ_discrete
      attest_kind
  attestation_from_dict-to_dict a n m p q s t = (
    rw
        (
          b64d_key-b64e a.attester p n,
          b64d_key-b64e a.subject q m,
          as_str,
          parse_ts-ts a.ts t,
          b64d-b64e a.sig s,
        )
        refl,
    rw (ts-whole_second a.ts) refl,
  )
