-- ===== src/Policy/Peering.antt =====
-- The tunnel decision of policy.py.
use greasewood.Base.{
  ◌≡◌, refl, sym, ◌↔◌, true, false, ◌||◌, Option, none, some, List, [], ◌∷◌, ◌++◌, list_eq, nat_eq,
  contains, contains_iff, meets, meets_iff, any-append, Has, Has-any, any-Has, ◌⊎◌, inl, inr, arith,
  Text, Bool-cases,
}
use greasewood.Wire.Grants.{Grant, star}
use greasewood.Policy.Tags.{
  host_prefix, role_tags, node_tags, grant_connects, some_grant, peers_allowed,
}

-- A list of tags names this node.
abbrev pub Matches : List Text → List Text → Type 0
Matches tags entries = Has star entries ⊎ ((t : Text) × Has t tags × Has t entries)

-- A grant lets a flow go from the one to the other.
abbrev pub Connects : Grant → List Text → List Text → Type 0
Connects g a b = Matches a g.from × Matches b g.to

pub Matches-iff :
    (tags entries : List Text)
    → ((contains entries star || meets tags entries) ≡ true) ↔ Matches tags entries
Matches-iff tags entries = (
  λ h. elim (Bool-cases (contains entries star)) [
    | inl t ↦ inl ((contains_iff entries star).0 t)
    | inr f ↦ inr ((meets_iff tags entries).0 (ground arith))
  ],
  λ m. elim m [
    | inl s ↦ ground (arith, (contains_iff entries star).1 s)
    | inr x ↦ ground (arith, (meets_iff tags entries).1 x)
  ],
)

Connects-iff : (g : Grant) (a b : List Text) → (grant_connects g a b ≡ true) ↔ Connects g a b
unfolding grant_connects
Connects-iff g a b = (
  λ h. ((Matches-iff a g.from).0 (ground arith), (Matches-iff b g.to).0 (ground arith)),
  λ (m, n). ground (arith, (Matches-iff a g.from).1 m, (Matches-iff b g.to).1 n),
)

some_grant-any :
    (a b : List Text) (gs : List Grant)
    → (some_grant a b gs ≡ true) ↔ ((g : Grant) × Has g gs × (Connects g a b ⊎ Connects g b a))
some_grant-any a b gs = (
  λ h.
      let (g, m, t) = Has-any (λ g. grant_connects g a b || grant_connects g b a) gs h in
      (
        g,
        m,
        elim (Bool-cases (grant_connects g a b)) [
          | inl p ↦ inl ((Connects-iff g a b).0 p)
          | inr n ↦ inr ((Connects-iff g b a).0 (ground arith))
        ],
      ),
  λ (g, m, c).
      any-Has (λ g. grant_connects g a b || grant_connects g b a) gs g m
        (elim c [
          | inl p ↦ ground (arith, (Connects-iff g a b).1 p)
          | inr p ↦ ground (arith, (Connects-iff g b a).1 p)
        ]),
)

module _ (local_caps peer_caps : List Text) (local_hostname peer_hostname : Option Text) where
  abbrev mine : List Text
  mine = node_tags local_caps local_hostname

  abbrev theirs : List Text
  theirs = node_tags peer_caps peer_hostname

  -- With a table, two nodes peer exactly when one of them holds the tag `*` or some grant of the table
  -- connects them, in the one direction or the other.
  pub peers_allowed_iff :
      (gs : List Grant)
      → (peers_allowed local_caps peer_caps (some gs) local_hostname peer_hostname ≡ true) ↔ (
          (Has star mine ⊎ Has star theirs)
          ⊎ ((g : Grant) × Has g gs × (Connects g mine theirs ⊎ Connects g theirs mine)))
  unfolding peers_allowed
  peers_allowed_iff gs = (
    λ h. elim (Bool-cases (contains mine star)) [
      | inl t ↦ inl (inl ((contains_iff mine star).0 t))
      | inr f ↦ elim (Bool-cases (contains theirs star)) [
        | inl t' ↦ inl (inr ((contains_iff theirs star).0 t'))
        | inr f' ↦ inr ((some_grant-any mine theirs gs).0 (ground arith))
      ]
    ],
    λ h. elim h [
      | inl (inl m) ↦ ground (arith, (contains_iff mine star).1 m)
      | inl (inr m) ↦ ground (arith, (contains_iff theirs star).1 m)
      | inr x ↦ ground (arith, (some_grant-any mine theirs gs).1 x)
    ],
  )

  -- The decision is the same seen from either end, whatever the table.
  pub peers_allowed_comm :
      (grants : Option (List Grant))
      → peers_allowed local_caps peer_caps grants local_hostname peer_hostname
        ≡ peers_allowed peer_caps local_caps grants peer_hostname local_hostname
  unfolding peers_allowed
  peers_allowed_comm none = ground arith
  peers_allowed_comm (some gs) = ground (arith, some_grant_comm mine theirs gs)
    where
      some_grant_comm : (a b : List Text) (l : List Grant) → some_grant a b l ≡ some_grant b a l
      some_grant_comm a b [] = refl
      some_grant_comm a b (g ∷ l) = ground arith

  -- A table in two parts allows a link exactly when one of its parts does, so that a grant more never
  -- takes a tunnel away.
  pub peers_allowed-append :
      (gs hs : List Grant)
      → peers_allowed local_caps peer_caps (some (gs ++ hs)) local_hostname peer_hostname ≡ (
          peers_allowed local_caps peer_caps (some gs) local_hostname peer_hostname
          || peers_allowed local_caps peer_caps (some hs) local_hostname peer_hostname)
  unfolding peers_allowed
  peers_allowed-append gs hs =
      ground (
        arith,
        any-append (λ g. grant_connects g mine theirs || grant_connects g theirs mine) gs hs,
      )

role_tags-no_colon : (caps : List Text) (t : Text) → Has t (role_tags caps) → contains t 58 ≡ false
unfolding role_tags
role_tags-no_colon [] t m = absurd m
role_tags-no_colon (c ∷ caps) t m = ground (arith, role_tags-no_colon caps t)

-- No cap can make a tag in the `host:` namespace, nor any other tag with a colon: the only tag with a
-- colon is the one that is derived from the hostname.
pub node_tags_colon :
    (caps : List Text) (hostname : Option Text) (t : Text)
    → Has t (node_tags caps hostname)
    → contains t 58 ≡ true
    → (name : Text) × (hostname ≡ some name) × (t ≡ host_prefix ++ name)
unfolding node_tags
node_tags_colon caps none t m h = absurd (cc (role_tags-no_colon caps t m))
node_tags_colon caps (some []) t m h = absurd (cc (role_tags-no_colon caps t m))
node_tags_colon caps (some (c ∷ name)) t (inl e) h = (c ∷ name, refl, sym e)
node_tags_colon caps (some (c ∷ name)) t (inr m) h = absurd (cc (role_tags-no_colon caps t m))
