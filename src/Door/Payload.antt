-- ===== src/Door/Payload.antt =====
-- Where the fields of a token stand in the payload of `encode_token`, door.py.
use Prim.Native.Nat.{◌/◌, ◌%◌}
use greasewood.Base.{
  ℕ, ◌+◌, ◌≡◌, refl, ◌∙◌, [], ◌∷◌, ◌++◌, length, arith, Bytes, drop, length-append, All, nat_eq,
}
use greasewood.Door.Slices.{drop-add_append}
use greasewood.Door.Menu.{join_menu, IsRole}
use greasewood.Door.Token.{Codec, JoinToken, payload_of}

-- Keys and a seed of 32 bytes, and roles that can stand in a menu.
pub record IsToken (t : JoinToken) : Type 0 where
  pub length-anchor_door_pub : length t.anchor_door_pub ≡ 32
  pub length-ca_pub : length t.ca_pub ≡ 32
  pub length-seed : length t.seed ≡ 32
  pub roles : All IsRole t.self_roles

module _ (C : Codec) (t : JoinToken) (v : IsToken t) where
  abbrev pub host : Bytes
  host = C.utf8 t.anchor_host

  abbrev pub domain : Bytes
  domain = C.utf8 t.mesh_domain

  abbrev pub menu : Bytes
  menu = C.utf8 (join_menu t.self_roles)

  abbrev pub from_menu : Bytes
  from_menu = length menu ∷ menu

  abbrev pub from_domain : Bytes
  from_domain = length domain ∷ (domain ++ from_menu)

  abbrev pub from_host : Bytes
  from_host = host ++ (t.seed ++ from_domain)

  abbrev pub from_port : Bytes
  from_port = (t.door_port / 256) ∷ (t.door_port % 256) ∷ length host ∷ from_host

  pub drop-keys : (m n : ℕ) → n ≡ 64 + m → drop n (payload_of C t) ≡ drop m from_port
  unfolding payload_of
  drop-keys m n h =
      let e : n ≡ 32 + (32 + m) = omega arith in
      rw e (
        drop-add_append t.anchor_door_pub (t.ca_pub ++ from_port) 32 (32 + m)
          v.length-anchor_door_pub
        ∙ drop-add_append t.ca_pub from_port 32 m v.length-ca_pub)

  pub drop-host :
      (m n : ℕ)
      → n ≡ 67 + length host + m
      → drop n (payload_of C t) ≡ drop m (t.seed ++ from_domain)
  drop-host m n h =
      drop-keys (3 + (length host + m)) n (omega arith)
      ∙ drop-add_append ((t.door_port / 256) ∷ (t.door_port % 256) ∷ length host ∷ []) from_host 3
          (length host + m) refl
      ∙ drop-add_append host (t.seed ++ from_domain) (length host) m refl

  pub drop-seed :
      (m n : ℕ) → n ≡ 67 + length host + 32 + m → drop n (payload_of C t) ≡ drop m from_domain
  drop-seed m n h =
      drop-host (32 + m) n (omega arith) ∙ drop-add_append t.seed from_domain 32 m v.length-seed

  pub drop-domain :
      (m n : ℕ)
      → n ≡ 67 + length host + 32 + 1 + length domain + m
      → drop n (payload_of C t) ≡ drop m from_menu
  drop-domain m n h =
      drop-seed (1 + (length domain + m)) n (omega arith)
      ∙ drop-add_append (length domain ∷ []) (domain ++ from_menu) 1 (length domain + m) refl
      ∙ drop-add_append domain from_menu (length domain) m refl

  pub length-payload_of :
      length (payload_of C t) ≡ 67 + length host + 32 + 1 + length domain + 1 + length menu
  unfolding payload_of
  length-payload_of = omega (
    arith,
    v.length-anchor_door_pub,
    v.length-ca_pub,
    v.length-seed,
    length-append {0} t.anchor_door_pub (t.ca_pub ++ from_port),
    length-append {0} t.ca_pub from_port,
    length-append {0} host (t.seed ++ from_domain),
    length-append {0} t.seed from_domain,
    length-append {0} domain from_menu,
  )
