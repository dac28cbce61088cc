-- ===== src/Examples/Reading.antt =====
-- A credential is written and read again.
use greasewood.Base.{
  ℕ, ◌≡◌, refl, Bool, true, some, List, [], ◌∷◌, ◌+◌, ◌==◌, nat_eq, list_eq, if◌then◌else◌, Bytes,
  codes,
}
use native.Mathlib.Decide.{ℕ_discrete}
use greasewood.Errors.{ok}
use greasewood.Wire.Json.{b64e}
use greasewood.Wire.Time.{ts, whole_second, second}
use greasewood.Wire.Credential
use greasewood.Wire.Credential.{Credential}
use greasewood.Wire.Decode.{Reader, replace_z, credential_from_dict, credential_to_dict}
use greasewood.Wire.Reading.{IsReadable, verify-from_dict}
use greasewood.Examples.Setup.{toy, ann, ben, start}

abbrev cred : Credential
cred = record {
  id_pub = ann;
  wg_pub = ben;
  addr = codes "fd8d::1";
  hostname = codes "a";
  caps = codes "role:web" ∷ codes "role:db" ∷ [];
  iat = start + 1;
  exp = start + second;
  ca_sig = 1 ∷ 2 ∷ [];
}

-- A reader of the three texts and the two times that the credential has.
reader : Reader
reader = record {
  fromisoformat =
      λ s. if s == replace_z (ts start) then some (true, start) else some (true, start + second);
  b64decode = λ s.
      if s == b64e ann then some ann else if s == b64e ben then some ben else some (1 ∷ 2 ∷ []);
}

cred-IsReadable : IsReadable reader cred
unfolding reader ℕ_discrete list_eq ts replace_z b64e whole_second
cred-IsReadable = record {
  length-id_pub = refl;
  length-wg_pub = refl;
  reads_id_pub = refl;
  reads_wg_pub = refl;
  reads_ca_sig = refl;
  reads_iat = refl;
  reads_exp = refl;
}

whole : whole_second cred.exp ≡ cred.exp
unfolding whole_second
whole = refl

verify-from_dict_example :
    (d : Credential) × (credential_from_dict reader (credential_to_dict cred) ≡ ok d)
    × ((ca_pubs : List Bytes) (allow_expired : Bool) (now : ℕ)
        → Credential.verify ca_pubs allow_expired now d
          ≡ Credential.verify ca_pubs allow_expired now cred)
verify-from_dict_example = verify-from_dict reader cred cred-IsReadable whole
