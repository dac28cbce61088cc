-- ===== src/Examples/Joining.antt =====
-- A join token under a toy codec, which writes each byte as two letters and two fillers.
use Prim.Native.Nat.{◌-◌, ◌*◌, ◌/◌, ◌%◌}
use mathlib.Core.List.{append-nil}
use greasewood.Base.{
  ℕ, zero, suc, ◌+◌, ◌≡◌, refl, sym, false, Option, none, some, [], ◌∷◌, length, contains, nat_eq,
  arith, Text, Bytes, codes,
}
use native.Mathlib.Decide.{ℕ_discrete}
use greasewood.Errors.{ok}
use greasewood.Door.Menu.{IsRole}
use greasewood.Door.Token.{Codec, JoinToken, padding, has_long_field, encode_token, decode_token}
use greasewood.Door.Payload.{IsToken}
use greasewood.Door.Decode.{Handled}
use greasewood.Door.RoundTrip.{IsLawful, decode_token-encode_token, decode_token-Handled}

letters : Bytes → Text
letters [] = []
letters (b ∷ bs) = (65 + b / 16) ∷ (65 + b % 16) ∷ 65 ∷ 65 ∷ letters bs

read_letters : Text → Option Bytes
read_letters (a ∷ b ∷ c ∷ d ∷ rest) = elim (read_letters rest) [
  | none ↦ none
  | some bs ↦ some (((a - 65) * 16 + (b - 65)) ∷ bs)
]
read_letters _ = some []

abbrev codec : Codec
unfolding letters read_letters
codec = record { utf8 = λ t. t; text_of = some; b64_encode = letters; b64_decode = read_letters }

read_letters-letters : (b : Bytes) → read_letters (letters b) ≡ some b
unfolding letters read_letters
read_letters-letters [] = refl
read_letters-letters (b ∷ bs) =
    let e : (65 + b / 16 - 65) * 16 + (65 + b % 16 - 65) ≡ b = omega arith in
    rw (read_letters-letters bs, e) refl

plain_letters : (b : Bytes) → contains (letters b) padding ≡ false
unfolding letters
plain_letters [] = refl
plain_letters (b ∷ bs) = ground (arith, plain_letters bs)

length-letters : (b : Bytes) → (length (letters b) + 0) % 4 ≡ 0
unfolding letters
length-letters [] = omega arith
length-letters (b ∷ bs) = omega (arith, length-letters bs)

codec-IsLawful : IsLawful codec
unfolding codec
codec-IsLawful = record {
  text_of-utf8 = λ t. refl;
  b64_decode-encode = read_letters-letters;
  b64_shape = λ p.
      (letters p, 0, sym (append-nil (letters p)), plain_letters p, omega arith, length-letters p);
}

abbrev zeros : ℕ → Bytes
zeros zero = []
zeros (suc n) = 0 ∷ zeros n

abbrev token : JoinToken
token = record {
  anchor_door_pub = zeros 32;
  ca_pub = zeros 32;
  anchor_host = codes "198.51.100.7";
  seed = zeros 32;
  door_port = 51901;
  mesh_domain = codes "m.internal";
  self_roles = codes "web" ∷ codes "db" ∷ [];
}

token-IsToken : IsToken token
unfolding ℕ_discrete
token-IsToken = record {
  length-anchor_door_pub = refl;
  length-ca_pub = refl;
  length-seed = refl;
  roles = (record { plain = refl; filled = refl }, (record { plain = refl; filled = refl }, tt));
}

fits : has_long_field codec token ≡ false
unfolding codec greasewood.Door.Menu.join_menu
fits = refl

decode_token-encode_token_example :
    (text : Text) × (encode_token codec token ≡ ok text) × (decode_token codec text ≡ ok token)
decode_token-encode_token_example =
    decode_token-encode_token codec codec-IsLawful token token-IsToken fits (omega arith)

decode_token-Handled_example : Handled (decode_token codec (codes "gw1.AAAA"))
decode_token-Handled_example = decode_token-Handled codec (codes "gw1.AAAA")
