-- ===== src/Door/Token.antt =====
-- The join token of door.py: `encode_token` and `decode_token`.
use Prim.Native.Nat.{◌-◌, ◌*◌, ◌/◌, ◌%◌}
use greasewood.Base.{
  ℕ, zero, suc, ◌+◌, Bool, true, false, ◌&&◌, Option, none, some, List, [], ◌∷◌, ◌++◌, length, ltb,
  ◌==◌, nat_eq, if◌then◌else◌, Text, Bytes, codes, strip_prefix,
}
use greasewood.Errors.{
  Result, ok, err, ◌>>=◌, ◌>>◌, raise_if, too_long, bad_port, bad_prefix, too_short, truncated,
  truncated_domain, undecodable,
}
use greasewood.Door.Slices.{slice, byte_at}
use greasewood.Door.Menu.{join_menu, menu_roles}

-- What the code calls of Python's library: `.encode()` and `.decode()`, and `urlsafe_b64encode` and
-- `urlsafe_b64decode` of base64, whose texts are given as ASCII. `none` is a `ValueError`.
pub record Codec : Type 0 where
  pub utf8 : Text → Bytes
  pub text_of : Bytes → Option Text
  pub b64_encode : Bytes → Text
  pub b64_decode : Text → Option Bytes

-- What `encode_token` takes, and `DecodedToken`.
pub record JoinToken : Type 0 where
  pub anchor_door_pub : Bytes
  pub ca_pub : Bytes
  pub anchor_host : Text
  pub seed : Bytes
  pub door_port : ℕ
  pub mesh_domain : Text
  pub self_roles : List Text

abbrev pub token_prefix : Text
token_prefix = codes "gw1."

-- `"="`
abbrev pub padding : ℕ
padding = 61

abbrev is_empty : Text → Bool
is_empty [] = true
is_empty (c ∷ s) = false

-- `s.rstrip("=")`
unfoldable pub strip_padding : Text → Text
strip_padding [] = []
strip_padding (c ∷ s) =
    let rest = strip_padding s in if c == padding && is_empty rest then [] else c ∷ rest

-- `"=" * n`
abbrev pub pad : ℕ → Text
pad zero = []
pad (suc n) = padding ∷ pad n

-- `(-n) % 4`
abbrev pub missing : ℕ → ℕ
missing n = (4 - n % 4) % 4

module _ (C : Codec) where
  -- The check of the three fields with a length of one byte.
  abbrev pub has_long_field : JoinToken → Bool
  has_long_field t =
      if ltb 255 (length (C.utf8 t.anchor_host))
      then true
      else if ltb 255 (length (C.utf8 t.mesh_domain))
      then true
      else ltb 255 (length (C.utf8 (join_menu t.self_roles)))

  unfoldable pub payload_of : JoinToken → Bytes
  payload_of t =
      let host_bytes = C.utf8 t.anchor_host in
      let domain_bytes = C.utf8 t.mesh_domain in
      let menu_bytes = C.utf8 (join_menu t.self_roles) in
      t.anchor_door_pub
      ++ (t.ca_pub
          ++ ((t.door_port / 256)
              ∷ (t.door_port % 256)
              ∷ length host_bytes
              ∷ (host_bytes
                  ++ (t.seed
                      ++ (length domain_bytes
                          ∷ (domain_bytes ++ (length menu_bytes ∷ menu_bytes)))))))

  -- `encode_token`; `struct.pack` refuses a port above 65535
  unfoldable pub encode_token : JoinToken → Result Text
  unfolding payload_of strip_padding
  encode_token t =
      if has_long_field t
      then err too_long
      else if ltb 65535 t.door_port
      then err bad_port
      else ok (token_prefix ++ strip_padding (C.b64_encode (payload_of t)))

  -- `.decode()`
  abbrev pub decoded : Bytes → Result Text
  decoded b = elim (C.text_of b) [ none ↦ err undecodable | some t ↦ ok t ]

  -- The optional last field, whose length would stand at `mlen_at`.
  unfoldable pub menu_at : Bytes → ℕ → Result (List Text)
  menu_at p mlen_at =
      if ltb mlen_at (length p)
      then (do
        menu_len ← byte_at p mlen_at
        if ltb (length p) (mlen_at + 1 + menu_len)
            then ok []
            else decoded (slice p (mlen_at + 1) menu_len) >>= λ menu. ok (menu_roles menu))
      else ok []

  -- The fields behind the seed.
  unfoldable pub decode_domain : Bytes → ℕ → ℕ → Text → Result JoinToken
  unfolding menu_at
  decode_domain p host_len door_port anchor_host = do
    domain_len ← byte_at p (67 + host_len + 32)
    raise_if (ltb (length p) (67 + host_len + 32 + 1 + domain_len)) truncated_domain
    mesh_domain ← decoded (slice p (67 + host_len + 32 + 1) domain_len)
    self_roles ← menu_at p (67 + host_len + 32 + 1 + domain_len)
    ok (record {
      anchor_door_pub = slice p 0 32;
      ca_pub = slice p 32 32;
      anchor_host = anchor_host;
      seed = slice p (67 + host_len) 32;
      door_port = door_port;
      mesh_domain = mesh_domain;
      self_roles = self_roles;
    })

  -- `decode_token` behind the base64
  unfoldable pub decode_payload : Bytes → Result JoinToken
  unfolding decode_domain
  decode_payload p = do
    raise_if (ltb (length p) 100) too_short
    high ← byte_at p 64
    low ← byte_at p 65
    host_len ← byte_at p 66
    raise_if (ltb (length p) (67 + host_len + 32 + 1)) truncated
    anchor_host ← decoded (slice p 67 host_len)
    decode_domain p host_len (high * 256 + low) anchor_host

  -- `decode_token`
  unfoldable pub decode_token : Text → Result JoinToken
  unfolding decode_payload
  decode_token token = elim (strip_prefix token_prefix token) [
    | none ↦ err bad_prefix
    | some b64 ↦ elim (C.b64_decode (b64 ++ pad (missing (length b64)))) [
      | none ↦ err undecodable
      | some p ↦ decode_payload p
    ]
  ]
