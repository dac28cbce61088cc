-- ===== src/Segments/Links.antt =====
-- The loop over the pairs joins the two ends of each link, and collects the links that are missing.
use greasewood.Base.{
  ℕ, suc, ◌+◌, ◌<◌, ◌≡◌, refl, sym, ap, ◌∙◌, Bool, true, false, not, ◌&&◌, Option, some, List, [],
  ◌∷◌, ◌++◌, ◌==◌, list_eq, nat_eq, if◌then◌else◌, arith, Text, Bool-cases, inl, inr, ◌↔◌, keep,
  length, Has,
}
use mathlib.Core.List.{append-nil, append_assoc}
use greasewood.Wire.Grants.{Grant}
use greasewood.Wire.Record.{NodeRecord}
use greasewood.Segments.Forest.{Parent, IsForest, eq_of_test}
use greasewood.Segments.Find.{union, united, union_lem}
use greasewood.Segments.Analysis.{Links, is_linked, is_expected, scan_pair, scan}

-- What the links join, on top of what stood joined before.
pub data Joined (root : Text → Text) (ps : Links) : Text → Text → Type 0 where
  before : {x y : Text} → root x ≡ root y → Joined root ps x y
  link :
      (a b : NodeRecord)
      → Has (a, b) ps
      → is_linked a b ≡ true
      → Joined root ps a.cred.addr b.cred.addr
  back : {x y : Text} → Joined root ps x y → Joined root ps y x
  chain : {x y z : Text} → Joined root ps x y → Joined root ps y z → Joined root ps x z

-- A link that the policy calls for and that is not up
abbrev pub is_absent : Option (List Grant) → NodeRecord × NodeRecord → Bool
is_absent grants (a, b) = not (is_linked a b) && is_expected grants a b

Joined-map :
    {root root' : Text → Text} {ps qs : Links}
    → ((x y : Text) → root x ≡ root y → Joined root' qs x y)
    → ((a b : NodeRecord)
        → Has (a, b) ps
        → is_linked a b ≡ true
        → Joined root' qs a.cred.addr b.cred.addr)
    → {x y : Text} → Joined root ps x y
    → Joined root' qs x y
Joined-map f g (before e) = f _ _ e
Joined-map f g (link a b m t) = g a b m t
Joined-map f g (back j) = back (Joined-map f g j)
Joined-map f g (chain j k) = chain (Joined-map f g j) (Joined-map f g k)

united_same : (root : Text → Text) (a b y : Text) → root y ≡ root a → united root a b y ≡ root b
united_same root a b y e = ground arith

united_other :
    (root : Text → Text) (a b y : Text) → (root y == root a) ≡ false → united root a b y ≡ root y
united_other root a b y f = ground arith

united_ends : (root : Text → Text) (a b : Text) → united root a b a ≡ united root a b b
united_ends root a b = ground arith

module _ (root : Text → Text) (a b : NodeRecord) (ps : Links) (t : is_linked a b ≡ true) where
  abbrev after : Text → Text
  after = united root a.cred.addr b.cred.addr

  below_one :
      (x y : Text) → (root x ≡ root a.cred.addr) → after x ≡ after y → Joined root ((a, b) ∷ ps) x y
  below_one x y s e =
      let ab : Joined root ((a, b) ∷ ps) a.cred.addr b.cred.addr = link a b (inl refl) t in
      let top = sym (united_same root a.cred.addr b.cred.addr x s) ∙ e in
      elim (Bool-cases (root y == root a.cred.addr)) [
        | inl ty ↦ before (s ∙ sym (eq_of_test (root y) (root a.cred.addr) ty))
        | inr fy ↦
            chain (before s)
              (chain ab (before (top ∙ united_other root a.cred.addr b.cred.addr y fy)))
      ]

  united_below : (x y : Text) → after x ≡ after y → Joined root ((a, b) ∷ ps) x y
  united_below x y e = elim (Bool-cases (root x == root a.cred.addr)) [
    | inl tx ↦ below_one x y (eq_of_test (root x) (root a.cred.addr) tx) e
    | inr fx ↦ elim (Bool-cases (root y == root a.cred.addr)) [
      | inl ty ↦ back (below_one y x (eq_of_test (root y) (root a.cred.addr) ty) (sym e))
      | inr fy ↦ before (
          sym (united_other root a.cred.addr b.cred.addr x fx)
          ∙ e
          ∙ united_other root a.cred.addr b.cred.addr y fy)
    ]
  ]

  link_above :
      (c d : NodeRecord)
      → Has (c, d) ((a, b) ∷ ps)
      → is_linked c d ≡ true
      → Joined after ps c.cred.addr d.cred.addr
  link_above c d (inl e) u = before (
      sym (ap (λ p. after p.0.cred.addr) e)
      ∙ united_ends root a.cred.addr b.cred.addr
      ∙ ap (λ p. after p.1.cred.addr) e)
  link_above c d (inr m) u = link c d m u

  -- A link that is up: what it joins is what its union joins.
  Joined-linked : (x y : Text) → Joined after ps x y ↔ Joined root ((a, b) ∷ ps) x y
  Joined-linked x y = (
    Joined-map united_below λ c d m u. link c d (inr m) u,
    Joined-map (λ x y e. before (ap (λ r. if r == root a.cred.addr then root b.cred.addr else r) e))
        link_above,
  )

module _ (root : Text → Text) (a b : NodeRecord) (ps : Links) (f : is_linked a b ≡ false) where
  link_rest :
      (c d : NodeRecord)
      → Has (c, d) ((a, b) ∷ ps)
      → is_linked c d ≡ true
      → Joined root ps c.cred.addr d.cred.addr
  link_rest c d (inl e) u =
      let g : is_linked c d ≡ false = sym (ap (λ p. is_linked p.0 p.1) e) ∙ f in
      absurd (ground arith)
  link_rest c d (inr m) u = link c d m u

  Joined-unlinked : (x y : Text) → Joined root ps x y ↔ Joined root ((a, b) ∷ ps) x y
  Joined-unlinked x y = (
    Joined-map (λ x y e. before e) λ c d m u. link c d (inr m) u,
    Joined-map (λ x y e. before e) link_rest,
  )

iff_trans : {P Q R : Type 0} → P ↔ Q → Q ↔ R → P ↔ R
iff_trans f g = (λ p. g.0 (f.0 p), λ r. f.1 (g.1 r))

-- One pair, by the two tests
scan_linked :
    (fuel : ℕ) (grants : Option (List Grant)) (a b : NodeRecord) (ps : Links) (p q : Parent)
    (missing : Links)
    → is_linked a b ≡ true
    → union fuel p a.cred.addr b.cred.addr ≡ some q
    → scan fuel grants ((a, b) ∷ ps) (p, missing) ≡ scan fuel grants ps (q, missing)
unfolding scan scan_pair
scan_linked fuel grants a b ps p q missing t e = ground (arith, t, e)

scan_unlinked :
    (fuel : ℕ) (grants : Option (List Grant)) (a b : NodeRecord) (ps : Links) (p : Parent)
    (missing : Links)
    → is_linked a b ≡ false
    → scan fuel grants ((a, b) ∷ ps) (p, missing)
      ≡ scan fuel grants ps (p, missing ++ keep (is_absent grants) ((a, b) ∷ []))
unfolding scan scan_pair
scan_unlinked fuel grants a b ps p missing f = ground (arith, append-nil missing)

Joined-nil : {root : Text → Text} {x y : Text} → Joined root [] x y → root x ≡ root y
Joined-nil (before e) = e
Joined-nil (link a b m t) = absurd m
Joined-nil (back j) = sym (Joined-nil j)
Joined-nil (chain j k) = Joined-nil j ∙ Joined-nil k

module _ (grants : Option (List Grant)) (a b : NodeRecord) (ps : Links) where
  keep_linked :
      is_linked a b ≡ true → keep (is_absent grants) ((a, b) ∷ ps) ≡ keep (is_absent grants) ps
  keep_linked t = ground arith

  keep_one :
      (missing : Links)
      → (missing ++ keep (is_absent grants) ((a, b) ∷ [])) ++ keep (is_absent grants) ps
        ≡ missing ++ keep (is_absent grants) ((a, b) ∷ ps)
  keep_one missing =
      append_assoc missing (keep (is_absent grants) ((a, b) ∷ [])) (keep (is_absent grants) ps)
      ∙ ground arith

-- The loop ends, finds the missing links, and leaves a forest whose trees are what the links join.
pub scan_lem :
    (fuel depth : ℕ) (grants : Option (List Grant)) (ps : Links) (p : Parent) (root : Text → Text)
    (missing : Links)
    → IsForest p root depth
    → depth + length ps < fuel
    → (q : Parent) × (root' : Text → Text) × (depth' : ℕ) × (scan fuel grants ps (p, missing)
        ≡ some (q, missing ++ keep (is_absent grants) ps))
      × IsForest q root' depth'
      × (depth' < fuel)
      × ((x y : Text) → (root' x ≡ root' y) ↔ Joined root ps x y)
unfolding scan
scan_lem fuel depth grants [] p root missing forest h =
    (p, root, depth, simp append-nil, forest, omega arith, λ x y. (λ e. before e, Joined-nil))
scan_lem fuel depth grants ((a, b) ∷ ps) p root missing forest h =
    elim (Bool-cases (is_linked a b)) [
      | inl t ↦
          let (p', e, forest') =
            union_lem fuel depth p root a.cred.addr b.cred.addr forest (omega arith) in
          let (q, root', depth', s, f, lt, same) =
            scan_lem fuel (suc depth) grants ps p' (united root a.cred.addr b.cred.addr) missing
              forest' (omega arith) in
          (
            q,
            root',
            depth',
            scan_linked fuel grants a b ps p p' missing t e
                ∙ s
                ∙ ap (λ l. some (q, missing ++ l)) (sym (keep_linked grants a b ps t)),
            f,
            lt,
            λ x y. iff_trans (same x y) (Joined-linked root a b ps t x y),
          )
      | inr u ↦
          let (q, root', depth', s, f, lt, same) =
            scan_lem fuel depth grants ps p root (missing ++ keep (is_absent grants) ((a, b) ∷ []))
              forest (omega arith) in
          (
            q,
            root',
            depth',
            scan_unlinked fuel grants a b ps p missing u
                ∙ s
                ∙ ap (λ l. some (q, l)) (keep_one grants a b ps missing),
            f,
            lt,
            λ x y. iff_trans (same x y) (Joined-unlinked root a b ps u x y),
          )
    ]
