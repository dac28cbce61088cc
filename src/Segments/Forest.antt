-- ===== src/Segments/Forest.antt =====
-- The `parent` dict of `_segment_analysis` in status.py, as a forest. The dict has every address that it
-- is asked for, and is a function here.
use greasewood.Base.{
  ℕ, zero, suc, ◌≤◌, ◌≡◌, ◌≢◌, refl, sym, ap, ◌∙◌, true, false, ◌==◌, list_eq, nat_eq,
  if◌then◌else◌, arith, Text, Bool-cases, inl, inr, ==_iff,
}

abbrev pub Parent : Type 0
Parent = Text → Text

-- `parent[x] = y`
abbrev pub set_parent : Parent → Text → Text → Parent
set_parent p x y = λ z. if z == x then y else p z

-- The way up from an address ends at a root after so many steps.
pub data Rooted (p : Parent) : Text → Text → ℕ → Type 0 where
  here : {x : Text} → p x ≡ x → Rooted p x x zero
  up : {x r : Text} {n : ℕ} → p x ≢ x → Rooted p (p x) r n → Rooted p x r (suc n)

pub Rooted_root : {p : Parent} {x r : Text} {n : ℕ} → Rooted p x r n → p r ≡ r
Rooted_root (here e) = e
Rooted_root (up ne w) = Rooted_root w

set_parent_self : (p : Parent) (x y : Text) → set_parent p x y x ≡ y
set_parent_self p x y = ground arith

set_parent_other : (p : Parent) (x y z : Text) → z ≢ x → set_parent p x y z ≡ p z
set_parent_other p x y z ne = ground arith

Rooted-move :
    {q : Parent} {x y r : Text} {n : ℕ} → q x ≡ y → y ≢ x → Rooted q y r n → Rooted q x r (suc n)
Rooted-move {q} {x} e ne w = up (λ h. ne (sym e ∙ h)) (rw e w)

-- Every address has its root, at most so many steps up.
abbrev pub IsForest : Parent → (Text → Text) → ℕ → Type 0
IsForest p root depth = (y : Text) → (m : ℕ) × (m ≤ depth) × Rooted p y (root y) m

Rooted_determined : {p : Parent} {x r s : Text} {n m : ℕ} → Rooted p x r n → Rooted p x s m → r ≡ s
Rooted_determined (here e) (here f) = refl
Rooted_determined (here e) (up ne w) = absurd (ne e)
Rooted_determined (up ne v) (here f) = absurd (ne f)
Rooted_determined (up ne v) (up ne' w) = Rooted_determined v w

Rooted_same :
    {p : Parent} {x y r s : Text} {n m : ℕ} → x ≡ y → Rooted p x r n → Rooted p y s m → r ≡ s
Rooted_same {p} {x} {y} {r} {s} {n} {m} e v w = Rooted_determined {m = m} v (rw e w)

pub ne_of_test : (x y : Text) → (x == y) ≡ false → x ≢ y
ne_of_test x y f e = ground arith

pub eq_of_test : (x y : Text) → (x == y) ≡ true → x ≡ y
eq_of_test x y t = (==_iff x y).0 t

-- A step of the path compression: an address that is not next to its root is moved there.
module _ (p : Parent) (x r : Text) {n : ℕ} (path : Rooted p x r n) (away : p x ≢ r) where
  abbrev pub moved : Parent
  moved = set_parent p x r

  r-ne-x : r ≢ x
  r-ne-x e = away (ap p (sym e) ∙ Rooted_root path)

  Rooted-moved_self : Rooted moved x r 1
  Rooted-moved_self =
      Rooted-move (set_parent_self p x r) r-ne-x
        (here (set_parent_other p x r r r-ne-x ∙ Rooted_root path))

  -- The others keep their roots, and stand no deeper.
  pub Rooted-moved :
      {y s : Text} {m : ℕ} → Rooted p y s m → (m' : ℕ) × (m' ≤ m) × Rooted moved y s m'
  Rooted-moved {y} (here e) = elim (Bool-cases (y == x)) [
    | inl t ↦
        let same = eq_of_test y x t in
        absurd (r-ne-x (Rooted_determined path (here (ap p (sym same) ∙ e ∙ same))))
    | inr f ↦ (0, omega arith, here (set_parent_other p x r y (ne_of_test y x f) ∙ e))
  ]
  Rooted-moved {y} {s} (up {n = k} ne w) = elim (Bool-cases (y == x)) [
    | inl t ↦
        let same = eq_of_test y x t in
        let top : s ≡ r = Rooted_same same (up ne w) path in
        (1, omega arith, rw (same, top) Rooted-moved_self)
    | inr f ↦
        let (m', le, v) = Rooted-moved w in
        (suc m', omega arith, Rooted-move (set_parent_other p x r y (ne_of_test y x f)) ne v)
  ]

-- A union: the root of one tree is put below the root of another.
module _ (p : Parent) (a b : Text) (top_a : p a ≡ a) (top_b : p b ≡ b) (apart : b ≢ a) where
  abbrev pub joined : Parent
  joined = set_parent p a b

  abbrev pub new_root : Text → Text
  new_root s = if s == a then b else s

  joined_b : joined b ≡ b
  joined_b = set_parent_other p a b b apart ∙ top_b

  pub Rooted-joined :
      {y s : Text} {m : ℕ}
      → Rooted p y s m
      → (m' : ℕ) × (m' ≤ suc m) × Rooted joined y (new_root s) m'
  Rooted-joined {y} (here e) = elim (Bool-cases (y == a)) [
    | inl t ↦
        let same = eq_of_test y a t in
        (1, omega arith, rw (t, same) (Rooted-move (set_parent_self p a b) apart (here joined_b)))
    | inr f ↦ (0, omega arith, rw f (here (set_parent_other p a b y (ne_of_test y a f) ∙ e)))
  ]
  Rooted-joined {y} (up ne w) =
      let (m', le, v) = Rooted-joined w in
      let other : y ≢ a = λ same. ne (ap p same ∙ top_a ∙ sym same) in
      (suc m', omega arith, Rooted-move (set_parent_other p a b y other) ne v)
