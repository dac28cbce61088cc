-- ===== src/Door/RoundTrip.antt =====
-- A join token carries what it was made of: `decode_token` undoes `encode_token` of door.py.
use Prim.Native.Nat.{◌*◌, ◌/◌, ◌%◌}
use greasewood.Base.{
  ℕ, zero, suc, ◌+◌, ◌≤◌, ◌<◌, ◌≡◌, refl, ◌∙◌, ap, false, some, [], ◌∷◌, ◌++◌, length, arith, Text,
  Bytes, drop, drop-append, Option-cases, inl, inr, contains, strip_prefix, le→not_ltb, lt→ltb,
  nat_eq,
}
use greasewood.Errors.{ok}
use greasewood.Door.Slices.{slice, first, take-append, take-length}
use greasewood.Door.Menu.{join_menu, menu_roles-join_menu}
use greasewood.Door.Token.{
  Codec, JoinToken, token_prefix, padding, strip_padding, pad, missing, has_long_field, payload_of,
  encode_token, decoded, menu_at, decode_payload, decode_token,
}
use greasewood.Door.Payload.{
  IsToken, host, domain, menu, from_menu, from_domain, from_port, drop-keys, drop-host, drop-seed,
  drop-domain, length-payload_of,
}
use greasewood.Door.Decode.{Handled, decode_payload-parts, decode_payload-Handled}

-- What Python documents of the calls. A text here has no surrogates, which cannot be encoded.
pub record IsLawful (C : Codec) : Type 0 where
  pub text_of-utf8 : (t : Text) → C.text_of (C.utf8 t) ≡ some t
  pub b64_decode-encode : (p : Bytes) → C.b64_decode (C.b64_encode p) ≡ some p
  -- The text is filled up with at most two `=` to a multiple of four characters.
  pub b64_shape :
      (p : Bytes)
      → (body : Text) × (k : ℕ) × (C.b64_encode p ≡ body ++ pad k)
        × (contains body padding ≡ false)
        × (k ≤ 2)
        × ((length body + k) % 4 ≡ 0)

strip_padding-pad : (k : ℕ) → strip_padding (pad k) ≡ []
unfolding strip_padding
strip_padding-pad zero = refl
strip_padding-pad (suc k) = ground (arith, strip_padding-pad k)

strip_padding-append :
    (body : Text) (k : ℕ) → contains body padding ≡ false → strip_padding (body ++ pad k) ≡ body
unfolding strip_padding
strip_padding-append [] k h = strip_padding-pad k
strip_padding-append (c ∷ s) k h = ground (arith, strip_padding-append s k (ground arith))

missing_lem : (n k : ℕ) → k ≤ 2 → (n + k) % 4 ≡ 0 → missing n ≡ k
missing_lem n k h e = omega arith

strip_prefix-append : (p s : Text) → strip_prefix p (p ++ s) ≡ some s
unfolding strip_prefix
strip_prefix-append [] s = refl
strip_prefix-append (c ∷ p) s = ground (arith, strip_prefix-append p s)

module _ (C : Codec) where
  decode_token-some :
      (token b64 : Text) (p : Bytes)
      → strip_prefix token_prefix token ≡ some b64
      → C.b64_decode (b64 ++ pad (missing (length b64))) ≡ some p
      → decode_token C token ≡ decode_payload C p
  unfolding decode_token
  decode_token-some token b64 p e f = rw (e, f, decode_token) refl

  -- Whatever the text, and however it is cut or made up, `decode_token` returns a token or raises a
  -- `ValueError`, when the decoders of base64 and of UTF-8 raise no other exception: no byte is read beyond
  -- the end of the payload.
  pub decode_token-Handled : (token : Text) → Handled (decode_token C token)
  unfolding decode_token strip_prefix
  decode_token-Handled token = elim (Option-cases (strip_prefix token_prefix token)) [
    | inl n ↦ rw n refl
    | inr (b64, n) ↦ elim (Option-cases (C.b64_decode (b64 ++ pad (missing (length b64))))) [
      | inl m ↦ rw (n, m) refl
      | inr (p, m) ↦ rw (decode_token-some token b64 p n m) (decode_payload-Handled C p)
    ]
  ]

module _ (C : Codec) (L : IsLawful C) where
  decoded-utf8 : (t : Text) → decoded C (C.utf8 t) ≡ ok t
  decoded-utf8 t = rw (L.text_of-utf8 t, decoded) refl

  menu_at-payload_of :
      (t : JoinToken) (v : IsToken t) (n : ℕ)
      → n ≡ 67 + length (host C t v) + 32 + 1 + length (domain C t v)
      → menu_at C (payload_of C t) n ≡ ok t.self_roles
  unfolding menu_at
  menu_at-payload_of t v n h =
      let at : drop n (payload_of C t) ≡ from_menu C t v = drop-domain C t v 0 n (omega arith) in
      let behind : drop (n + 1) (payload_of C t) ≡ menu C t v =
        drop-domain C t v 1 (n + 1) (omega arith) in
      let long = length-payload_of C t v in
      rw
        (
          lt→ltb n (length (payload_of C t)) (omega arith),
          at,
          le→not_ltb (length (payload_of C t)) (n + 1 + length (menu C t v)) (omega arith),
          behind,
          take-length (menu C t v),
          decoded-utf8 (join_menu t.self_roles),
          menu_roles-join_menu t.self_roles v.roles,
        )
        refl

  -- The parts of the payload with a fixed length.
  slice-anchor_door_pub :
      (t : JoinToken) → IsToken t → slice (payload_of C t) 0 32 ≡ t.anchor_door_pub
  unfolding payload_of
  slice-anchor_door_pub t v = take-append t.anchor_door_pub _ 32 v.length-anchor_door_pub

  slice-ca_pub : (t : JoinToken) → IsToken t → slice (payload_of C t) 32 32 ≡ t.ca_pub
  unfolding payload_of
  slice-ca_pub t v =
      rw (drop-append t.anchor_door_pub (t.ca_pub ++ from_port C t v) 32 v.length-anchor_door_pub)
        (take-append t.ca_pub _ 32 v.length-ca_pub)

  slice-seed :
      (t : JoinToken) (v : IsToken t)
      → slice (payload_of C t) (67 + length (host C t v)) 32 ≡ t.seed
  slice-seed t v =
      rw (drop-host C t v 0 (67 + length (host C t v)) (omega arith))
        (take-append t.seed _ 32 v.length-seed)

  decoded-host :
      (t : JoinToken) (v : IsToken t)
      → decoded C (slice (payload_of C t) 67 (length (host C t v))) ≡ ok t.anchor_host
  decoded-host t v =
      rw
        (
          drop-keys C t v 3 67 (omega arith),
          take-append (host C t v) (t.seed ++ from_domain C t v) _ refl,
        )
        (decoded-utf8 t.anchor_host)

  decoded-domain :
      (t : JoinToken) (v : IsToken t)
      → decoded C
          (slice (payload_of C t) (67 + length (host C t v) + 32 + 1) (length (domain C t v)))
        ≡ ok t.mesh_domain
  decoded-domain t v =
      rw
        (
          drop-seed C t v 1 (67 + length (host C t v) + 32 + 1) (omega arith),
          take-append (domain C t v) (from_menu C t v) _ refl,
        )
        (decoded-utf8 t.mesh_domain)

  decode_payload-payload_of :
      (t : JoinToken) (v : IsToken t) → decode_payload C (payload_of C t) ≡ ok t
  decode_payload-payload_of t v =
      let h : ℕ = length (host C t v) in
      let d : ℕ = length (domain C t v) in
      let port : t.door_port / 256 * 256 + t.door_port % 256 ≡ t.door_port = omega arith in
      decode_payload-parts C (payload_of C t) (t.door_port / 256) (t.door_port % 256) h d
        t.anchor_host t.mesh_domain t.self_roles (ap first (drop-keys C t v 0 64 (omega arith)))
        (ap first (drop-keys C t v 1 65 (omega arith)))
        (ap first (drop-keys C t v 2 66 (omega arith))) (decoded-host t v)
        (ap first (drop-seed C t v 0 (67 + h + 32) (omega arith))) (decoded-domain t v)
        (menu_at-payload_of t v (67 + h + 32 + 1 + d) refl) (omega (arith, length-payload_of C t v))
      ∙ rw (slice-anchor_door_pub t v, slice-ca_pub t v, slice-seed t v, port) refl

  -- A join token carries what it was made of. For keys and a seed of 32 bytes, roles that can stand in a
  -- menu, fields that fit a length of one byte and a port below 65536, `encode_token` gives a token, and
  -- `decode_token` gives back from it every field that it was called with.
  pub decode_token-encode_token :
      (t : JoinToken)
      → IsToken t
      → has_long_field C t ≡ false
      → t.door_port < 65536
      → (token : Text) × (encode_token C t ≡ ok token) × (decode_token C token ≡ ok t)
  unfolding encode_token
  decode_token-encode_token t v short port =
      let (body, k, shape, plain, few, full) = L.b64_shape (payload_of C t) in
      let stripped : strip_padding (C.b64_encode (payload_of C t)) ≡ body =
        rw shape (strip_padding-append body k plain) in
      let refilled : C.b64_decode (body ++ pad (missing (length body))) ≡ some (payload_of C t) =
        rw (missing_lem (length body) k few full)
          (rw⁻¹ shape (L.b64_decode-encode (payload_of C t))) in
      (
        token_prefix ++ body,
        rw (short, le→not_ltb 65535 t.door_port (omega arith), stripped) refl,
        decode_token-some C (token_prefix ++ body) body (payload_of C t)
              (strip_prefix-append token_prefix body) refilled
            ∙ decode_payload-payload_of t v,
      )
