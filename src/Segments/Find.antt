-- ===== src/Segments/Find.antt =====
-- `find` of `_segment_analysis` in status.py, and the union of two trees.
use greasewood.Base.{
  ℕ, zero, suc, ◌≤◌, ◌<◌, ◌≡◌, refl, sym, ◌∙◌, Option, none, some, ◌==◌, list_eq, nat_eq,
  if◌then◌else◌, arith, Text, Bool-cases, inl, inr,
}
use greasewood.Segments.Forest.{
  Parent, set_parent, Rooted, here, up, Rooted_root, IsForest, Rooted-moved, Rooted-joined,
  ne_of_test, eq_of_test,
}

-- `while parent[root] != root: root = parent[root]`
climb : ℕ → Parent → Text → Option Text
climb zero p root = none
climb (suc fuel) p root =
    let rest = climb fuel p (p root) in if p root == root then some root else rest

-- `while parent[x] != root: parent[x], x = root, parent[x]`
compress : ℕ → Parent → Text → Text → Option Parent
compress zero p x root = none
compress (suc fuel) p x root =
    let rest = compress fuel (set_parent p x root) (p x) root in
    if p x == root then some p else rest

-- `find`, which leaves the dict compressed
unfoldable pub find : ℕ → Parent → Text → Option (Text × Parent)
unfolding climb compress
find fuel p x = elim (climb fuel p x) [
  | none ↦ none
  | some root ↦ elim (compress fuel p x root) [ none ↦ none | some q ↦ some (root, q) ]
]

-- `parent[find(a)] = find(b)`, whose right-hand side is evaluated first
unfoldable pub union : ℕ → Parent → Text → Text → Option Parent
unfolding find
union fuel p a b = elim (find fuel p b) [
  | none ↦ none
  | some (root_b, q) ↦ elim (find fuel q a) [
    | none ↦ none
    | some (root_a, q') ↦ some (set_parent q' root_a root_b)
  ]
]

climb_lem :
    (fuel : ℕ) {p : Parent} {x r : Text} {n : ℕ}
    → Rooted p x r n
    → n < fuel
    → climb fuel p x ≡ some r
unfolding climb
climb_lem zero w h = absurd (omega arith)
climb_lem (suc fuel) (here e) h = ground arith
climb_lem (suc fuel) (up ne w) h = ground (arith, climb_lem fuel w (omega arith))

-- No address changes its root or gets deeper.
abbrev Keeps : Parent → Parent → Type 0
Keeps p q = (y s : Text) (m : ℕ) → Rooted p y s m → (m' : ℕ) × (m' ≤ m) × Rooted q y s m'

compress_lem :
    (fuel : ℕ) {p : Parent} {x r : Text} {n : ℕ}
    → Rooted p x r n
    → n < fuel
    → (q : Parent) × (compress fuel p x r ≡ some q) × Keeps p q
unfolding compress
compress_lem zero w h = absurd (omega arith)
compress_lem (suc fuel) {p} {x} (here e) h = (p, ground arith, λ y s m w. (m, omega arith, w))
compress_lem (suc fuel) {p} {x} {r} (up {n = k} ne w) h = elim (Bool-cases (p x == r)) [
  | inl t ↦ (p, rw t refl, λ y s m v. (m, omega arith, v))
  | inr f ↦
      let away = ne_of_test (p x) r f in
      let step = λ (y s : Text) (m : ℕ) (v : Rooted p y s m). Rooted-moved p x r (up ne w) away v in
      let (m, le, v) = step (p x) r k w in
      let (q, e, keeps) = compress_lem fuel v (omega arith) in
      (
        q,
        rw f e,
        λ y s n u.
            let (i, le_i, u') = step y s n u in
            let (j, le_j, u'') = keeps y s i u' in (j, omega arith, u''),
      )
]

find_of :
    (fuel : ℕ) (p : Parent) (x : Text) {r : Text} {q : Parent}
    → climb fuel p x ≡ some r
    → compress fuel p x r ≡ some q
    → find fuel p x ≡ some (r, q)
unfolding find
find_of fuel p x c e = rw (c, e, find) refl

union_of :
    (fuel : ℕ) (p : Parent) (a b : Text) {ra rb : Text} {q q' : Parent}
    → find fuel p b ≡ some (rb, q)
    → find fuel q a ≡ some (ra, q')
    → union fuel p a b ≡ some (set_parent q' ra rb)
unfolding union
union_of fuel p a b e e' = rw (e, e', union) refl

-- With fuel above the depth, the search ends at the root, and changes no root.
pub find_lem :
    (fuel depth : ℕ) (p : Parent) (root : Text → Text) (x : Text)
    → IsForest p root depth
    → depth < fuel
    → (q : Parent) × (find fuel p x ≡ some (root x, q)) × IsForest q root depth
find_lem fuel depth p root x forest h =
    let (n, le, w) = forest x in
    let (q, e, keeps) = compress_lem fuel w (omega arith) in
    (
      q,
      find_of fuel p x (climb_lem fuel w (omega arith)) e,
      λ y.
          let (m, le_m, v) = forest y in
          let (m', le', v') = keeps y (root y) m v in (m', omega arith, v'),
    )

Rooted_pointwise :
    {p q : Parent} {y s : Text} {m : ℕ} → ((z : Text) → q z ≡ p z) → Rooted p y s m → Rooted q y s m
Rooted_pointwise same (here e) = here (same _ ∙ e)
Rooted_pointwise {p} {q} {y} {s} same (up {n = k} ne w) =
    up (λ e. ne (sym (same y) ∙ e)) (rw (same y) (Rooted_pointwise same w))

-- The roots after a union
abbrev pub united : (Text → Text) → Text → Text → Text → Text
united root a b y = if root y == root a then root b else root y

set_parent_again : (p : Parent) (x y z : Text) → p x ≡ x → y ≡ x → set_parent p x y z ≡ p z
set_parent_again p x y z top e = ground arith

join_lem :
    (depth : ℕ) (p : Parent) (root : Text → Text) (a b : Text)
    → IsForest p root depth
    → IsForest (set_parent p (root a) (root b)) (united root a b) (suc depth)
join_lem depth p root a b forest = elim (Bool-cases (root b == root a)) [
  | inl t ↦ λ y.
      let (m, le, v) = forest y in
      let same = eq_of_test (root b) (root a) t in
      let (_, _, va) = forest a in
      let kept : united root a b y ≡ root y = ground arith in
      (
        m,
        omega arith,
        rw kept (
            Rooted_pointwise (λ z. set_parent_again p (root a) (root b) z (Rooted_root va) same) v),
      )
  | inr f ↦ λ y.
      let (m, le, v) = forest y in
      let (_, _, va) = forest a in
      let (_, _, vb) = forest b in
      let (m', le', v') =
        Rooted-joined p (root a) (root b) (Rooted_root va) (Rooted_root vb)
          (ne_of_test (root b) (root a) f) v in
      (m', omega arith, v')
]

-- After a union the root of the one is that of the other.
pub union_lem :
    (fuel depth : ℕ) (p : Parent) (root : Text → Text) (a b : Text)
    → IsForest p root depth
    → depth < fuel
    → (q : Parent) × (union fuel p a b ≡ some q) × IsForest q (united root a b) (suc depth)
union_lem fuel depth p root a b forest h =
    let (q, e, f) = find_lem fuel depth p root b forest h in
    let (q', e', f') = find_lem fuel depth q root a f h in
    (set_parent q' (root a) (root b), union_of fuel p a b e e', join_lem depth q' root a b f')
