-- ===== src/Base/Lists.antt =====
-- Lists measured by native numbers, membership tests as Booleans, and quantifiers that compute.
use Prim.Native.Nat.{ℕ, zero, suc, ◌+◌, ◌≤◌}
use mathlib.Core.Path.{◌≡◌, refl}
use mathlib.Core.Logic.{◌↔◌, ◌⊎◌, inl, inr}
use mathlib.Core.Bool.{Bool, true, false, ◌&&◌, ◌||◌}
use mathlib.Core.Option.{Option, none, some}
use mathlib.Core.List.{List, [], ◌∷◌, ◌++◌}
use native.Mathlib.Omega.{arith}
use greasewood.Base.Tests.{Eq, ◌==◌, if◌then◌else◌, Bool-cases}

module _ {ℓ} {A : Type ℓ} where
  abbrev pub length : List A → ℕ
  length [] = 0
  length (x ∷ xs) = suc (length xs)

  abbrev pub any : (A → Bool) → List A → Bool
  any p [] = false
  any p (x ∷ xs) = p x || any p xs

  abbrev pub all : (A → Bool) → List A → Bool
  all p [] = true
  all p (x ∷ xs) = p x && all p xs

  -- `[x for x in xs if p(x)]`
  abbrev pub keep : (A → Bool) → List A → List A
  keep p [] = []
  keep p (x ∷ xs) = let rest = keep p xs in if p x then x ∷ rest else rest

  abbrev pub get_elem? : List A → ℕ → Option A
  get_elem? [] i = none
  get_elem? (x ∷ xs) zero = some x
  get_elem? (x ∷ xs) (suc i) = get_elem? xs i

  abbrev pub take : ℕ → List A → List A
  take zero xs = []
  take (suc n) [] = []
  take (suc n) (x ∷ xs) = x ∷ take n xs

  abbrev pub drop : ℕ → List A → List A
  drop zero xs = xs
  drop (suc n) [] = []
  drop (suc n) (x ∷ xs) = drop n xs

module _ {ℓ κ} {A : Type ℓ} where
  abbrev pub All : (A → Type κ) → List A → Type κ
  All P [] = Unit
  All P (x ∷ xs) = P x × All P xs

module _ {ℓ} {A : Type ℓ} ⦃e : Eq A⦄ where
  -- `a in xs`
  abbrev pub contains : List A → A → Bool
  contains [] a = false
  contains (x ∷ xs) a = a == x || contains xs a

  -- `xs & ys` is not empty
  abbrev pub meets : List A → List A → Bool
  meets [] ys = false
  meets (x ∷ xs) ys = contains ys x || meets xs ys

-- Membership that can be taken apart.
module _ {A : Type 0} where
  abbrev pub Has : A → List A → Type 0
  Has a [] = ⊥
  Has a (x ∷ xs) = (x ≡ a) ⊎ Has a xs

  pub all-Has : (p : A → Bool) (xs : List A) (a : A) → all p xs ≡ true → Has a xs → p a ≡ true
  all-Has p (x ∷ xs) a h (inl e) = ground arith
  all-Has p (x ∷ xs) a h (inr m) = all-Has p xs a (ground arith) m
  all-Has p [] a h m = absurd m

  pub any-Has : (p : A → Bool) (xs : List A) (a : A) → Has a xs → p a ≡ true → any p xs ≡ true
  any-Has p (x ∷ xs) a (inl e) h = ground arith
  any-Has p (x ∷ xs) a (inr m) h = ground (arith, any-Has p xs a m h)
  any-Has p [] a m h = absurd m

  pub Has-any : (p : A → Bool) (xs : List A) → any p xs ≡ true → (a : A) × Has a xs × (p a ≡ true)
  Has-any p [] h = absurd (ground arith)
  Has-any p (x ∷ xs) h = elim (Bool-cases (p x)) [
    | inl e ↦ (x, inl refl, e)
    | inr e ↦ let (a, m, t) = Has-any p xs (ground arith) in (a, inr m, t)
  ]

  pub Has-keep :
      (p : A → Bool) (xs : List A) (a : A) → Has a (keep p xs) ↔ (Has a xs × (p a ≡ true))
  Has-keep p [] a = (λ m. absurd m, λ m. m.0)
  Has-keep p (x ∷ xs) a = ground (arith, Has-keep p xs a)

  pub Has-append : (xs ys : List A) (a : A) → Has a (xs ++ ys) ↔ (Has a xs ⊎ Has a ys)
  Has-append [] ys a = (λ m. inr m, ground arith)
  Has-append (x ∷ xs) ys a = ground (arith, Has-append xs ys a)

  pub any-append : (p : A → Bool) (xs ys : List A) → any p (xs ++ ys) ≡ (any p xs || any p ys)
  any-append p [] ys = refl
  any-append p (x ∷ xs) ys = ground (arith, any-append p xs ys)

module _ {A : Type 0} ⦃e : Eq A⦄ where
  pub contains-append :
      (xs ys : List A) (a : A) → contains (xs ++ ys) a ≡ (contains xs a || contains ys a)
  contains-append [] ys a = refl
  contains-append (x ∷ xs) ys a = ground (arith, contains-append xs ys a)

  pub contains_iff : (xs : List A) (a : A) → (contains xs a ≡ true) ↔ Has a xs
  contains_iff [] a = (λ h. absurd (ground arith), λ m. absurd m)
  contains_iff (x ∷ xs) a = ground (arith, contains_iff xs a)

  pub meets_iff : (xs ys : List A) → (meets xs ys ≡ true) ↔ ((a : A) × Has a xs × Has a ys)
  meets_iff [] ys = (λ h. absurd (ground arith), λ m. absurd m.1)
  meets_iff (x ∷ xs) ys = (forth (meets_iff xs ys).0, back (meets_iff xs ys).1)
    where
      forth :
          (meets xs ys ≡ true → (a : A) × Has a xs × Has a ys)
          → meets (x ∷ xs) ys ≡ true
          → (a : A) × Has a (x ∷ xs) × Has a ys
      forth ih h = elim (Bool-cases (contains ys x)) [
        | inl t ↦ (x, inl refl, (contains_iff ys x).0 t)
        | inr f ↦ let (a, m, n) = ih (ground arith) in (a, inr m, n)
      ]

      back :
          (((a : A) × Has a xs × Has a ys) → meets xs ys ≡ true)
          → ((a : A) × Has a (x ∷ xs) × Has a ys)
          → meets (x ∷ xs) ys ≡ true
      back ih (a, inl e, n) = ground (arith, (contains_iff ys a).1 n)
      back ih (a, inr m, n) = ground (arith, ih (a, m, n))

module _ {ℓ} {A : Type ℓ} where
  pub length-append : (xs ys : List A) → length (xs ++ ys) ≡ length xs + length ys
  length-append [] ys = ground arith
  length-append (x ∷ xs) ys = ground (arith, length-append xs ys)

  pub drop-append : (xs ys : List A) (n : ℕ) → length xs ≡ n → drop n (xs ++ ys) ≡ ys
  drop-append [] ys n h = ground arith
  drop-append (x ∷ xs) ys zero h = absurd (ground arith)
  drop-append (x ∷ xs) ys (suc n) h = drop-append xs ys n (omega arith)

  pub length-take : (n : ℕ) (xs : List A) → n ≤ length xs → length (take n xs) ≡ n
  length-take zero xs h = ground arith
  length-take (suc n) [] h = absurd (omega arith)
  length-take (suc n) (x ∷ xs) h = ground (arith, length-take n xs (omega arith))
