-- ===== src/Door/Decode.antt =====
-- The payload of a token is decoded part by part: `decode_token` of door.py.
use Prim.Native.Nat.{◌*◌}
use greasewood.Base.{
  ℕ, ◌+◌, ◌≤◌, ◌<◌, ◌≡◌, refl, Bool, true, false, List, length, ltb, arith, Text, Bytes, Bool-cases,
  Option-cases, inl, inr, ltb→lt, le→not_ltb,
}
use greasewood.Errors.{
  Error, Result, ok, err, ◌>>=◌, ◌>>◌, raise_if, too_short, truncated, truncated_domain,
  is_value_error, undecodable,
}
use greasewood.Door.Slices.{slice, byte_at, first-drop_ok}
use greasewood.Door.Menu.{menu_roles}
use greasewood.Door.Token.{Codec, decoded, menu_at, decode_domain, decode_payload}

-- A value, or a `ValueError`.
abbrev pub Handled {ℓ} : {A : Type ℓ} → Result A → Type 0
Handled (ok a) = Unit
Handled (err e) = is_value_error e ≡ true

at_least : (p : Bytes) (n i : ℕ) → ltb (length p) n ≡ false → i < n → i < length p
at_least p n i h lt = ground arith

>>=-Handled :
    {A B : Type 0} (m : Result A) (f : A → Result B)
    → Handled m
    → ((a : A) → Handled (f a))
    → Handled (m >>= f)
>>=-Handled (err e) f h k = h
>>=-Handled (ok a) f h k = k a

raise_if-Handled :
    {B : Type 0} (b : Bool) (e : Error) (rest : Result B)
    → is_value_error e ≡ true
    → (b ≡ false → Handled rest)
    → Handled (raise_if b e >> rest)
raise_if-Handled true e rest h k = h
raise_if-Handled false e rest h k = k refl

byte_at-Handled : (p : Bytes) (i : ℕ) → i < length p → Handled (byte_at p i)
byte_at-Handled p i h = let (b, e) = first-drop_ok p i h in rw e tt

module _ (C : Codec) where
  -- What is in a payload whose parts can all be read.
  pub decode_payload-parts :
      (p : Bytes) (high low host_len domain_len : ℕ) (host domain : Text) (roles : List Text)
      → byte_at p 64 ≡ ok high
      → byte_at p 65 ≡ ok low
      → byte_at p 66 ≡ ok host_len
      → decoded C (slice p 67 host_len) ≡ ok host
      → byte_at p (67 + host_len + 32) ≡ ok domain_len
      → decoded C (slice p (67 + host_len + 32 + 1) domain_len) ≡ ok domain
      → menu_at C p (67 + host_len + 32 + 1 + domain_len) ≡ ok roles
      → 67 + host_len + 32 + 1 + domain_len ≤ length p
      → decode_payload C p
        ≡ ok (record {
          anchor_door_pub = slice p 0 32;
          ca_pub = slice p 32 32;
          anchor_host = host;
          seed = slice p (67 + host_len) 32;
          door_port = high * 256 + low;
          mesh_domain = domain;
          self_roles = roles;
        })
  unfolding decode_payload
  decode_payload-parts p high low hl dl host domain roles a b c d e f g long =
      rw
        (
          le→not_ltb (length p) 100 (omega arith),
          a,
          b,
          c,
          le→not_ltb (length p) (67 + hl + 32 + 1) (omega arith),
          d,
          e,
          le→not_ltb (length p) (67 + hl + 32 + 1 + dl) long,
          f,
          g,
        )
        refl

  decoded-Handled : (b : Bytes) → Handled (decoded C b)
  decoded-Handled b = elim (Option-cases (C.text_of b)) [
    | inl e ↦ let refused : decoded C b ≡ err undecodable = ground arith in rw refused refl
    | inr (t, e) ↦ let given : decoded C b ≡ ok t = ground arith in rw given tt
  ]

  menu_at-Handled : (p : Bytes) (n : ℕ) → Handled (menu_at C p n)
  unfolding menu_at
  menu_at-Handled p n = elim (Bool-cases (ltb n (length p))) [
    | inr f ↦ rw f tt
    | inl t ↦
        let (b, e) = first-drop_ok p n (ltb→lt n (length p) t) in
        elim (Bool-cases (ltb (length p) (n + 1 + b))) [
          | inl long ↦ rw (t, e, long) tt
          | inr fits ↦
              rw (t, e, fits)
                (>>=-Handled (decoded C (slice p (n + 1) b)) (λ menu. ok (menu_roles menu))
                  (decoded-Handled (slice p (n + 1) b)) (λ menu. tt))
        ]
  ]

  decode_domain-Handled :
      (p : Bytes) (hl port : ℕ) (host : Text)
      → ltb (length p) (67 + hl + 32 + 1) ≡ false
      → Handled (decode_domain C p hl port host)
  unfolding decode_domain
  decode_domain-Handled p hl port host more =
      let here = at_least p (67 + hl + 32 + 1) (67 + hl + 32) more (omega arith) in
      >>=-Handled (byte_at p (67 + hl + 32)) _ (byte_at-Handled p (67 + hl + 32) here) λ dl.
        raise_if-Handled (ltb (length p) (67 + hl + 32 + 1 + dl)) truncated_domain
          (decoded C (slice p (67 + hl + 32 + 1) dl) >>= _) refl
          λ _.
            >>=-Handled (decoded C (slice p (67 + hl + 32 + 1) dl)) _ (decoded-Handled _) λ domain.
              >>=-Handled (menu_at C p (67 + hl + 32 + 1 + dl)) _ (menu_at-Handled p _) λ roles. tt

  pub decode_payload-Handled : (p : Bytes) → Handled (decode_payload C p)
  unfolding decode_payload
  decode_payload-Handled p = raise_if-Handled (ltb (length p) 100) too_short _ refl λ long.
      let near = λ (i : ℕ) (h : i < 100). byte_at-Handled p i (at_least p 100 i long h) in
      >>=-Handled (byte_at p 64) _ (near 64 (omega arith)) λ high.
        >>=-Handled (byte_at p 65) _ (near 65 (omega arith)) λ low.
          >>=-Handled (byte_at p 66) _ (near 66 (omega arith)) λ hl.
            raise_if-Handled (ltb (length p) (67 + hl + 32 + 1)) truncated
              (decoded C (slice p 67 hl) >>= decode_domain C p hl (high * 256 + low)) refl
              λ more.
                >>=-Handled (decoded C (slice p 67 hl)) _ (decoded-Handled _)
                  λ host. decode_domain-Handled p hl (high * 256 + low) host more
