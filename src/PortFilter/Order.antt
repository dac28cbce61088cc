-- ===== src/PortFilter/Order.antt =====
-- Sorting makes the text of the ruleset the same for every order of the records.
use greasewood.Base.{
  true, false, List, [], ◌∷◌, ◌==◌, list_eq, nat_eq, ◌≡◌, ◌≢◌, ◌⊎◌, ◌↔◌, inl, inr, refl, sym, ap,
  Text, arith, Bool-cases, Has,
}
use greasewood.Wire.Json.{text_ltb}
use greasewood.PortFilter.Render.{insert_once, sorted_set}

text_ltb_irrefl : (s : Text) → text_ltb s s ≡ false
unfolding text_ltb
text_ltb_irrefl [] = refl
text_ltb_irrefl (c ∷ s) = ground (arith, text_ltb_irrefl s)

text_ltb_trans : (s t u : Text) → text_ltb s t ≡ true → text_ltb t u ≡ true → text_ltb s u ≡ true
unfolding text_ltb
text_ltb_trans [] [] u h k = absurd (ground arith)
text_ltb_trans [] (d ∷ t) [] h k = absurd (ground arith)
text_ltb_trans [] (d ∷ t) (e ∷ u) h k = refl
text_ltb_trans (c ∷ s) [] u h k = absurd (ground arith)
text_ltb_trans (c ∷ s) (d ∷ t) [] h k = absurd (ground arith)
text_ltb_trans (c ∷ s) (d ∷ t) (e ∷ u) h k = ground (arith, text_ltb_trans s t u)

text_ltb_total : (s t : Text) → s ≢ t → text_ltb s t ≡ false → text_ltb t s ≡ true
unfolding text_ltb
text_ltb_total [] [] ne h = absurd (ne refl)
text_ltb_total [] (d ∷ t) ne h = absurd (ground arith)
text_ltb_total (c ∷ s) [] ne h = refl
text_ltb_total (c ∷ s) (d ∷ t) ne h =
    ground (arith, text_ltb_total s t, λ (e : s ≡ t). ap (λ l. c ∷ l) e)

-- In strictly ascending order, from a bound on
abbrev Above : Text → List Text → Type 0
Above s l = (t : Text) → Has t l → text_ltb s t ≡ true

abbrev Strict : List Text → Type 0
Strict [] = Unit
Strict (s ∷ l) = Above s l × Strict l

Has-insert_once :
    (s : Text) (l : List Text) (t : Text) → Has t (insert_once s l) ↔ ((s ≡ t) ⊎ Has t l)
unfolding insert_once
Has-insert_once s [] t = ground arith
Has-insert_once s (u ∷ l) t = ground (arith, Has-insert_once s l t)

Has-sorted_set : (l : List Text) (t : Text) → Has t (sorted_set l) ↔ Has t l
unfolding sorted_set
Has-sorted_set [] t = ground arith
Has-sorted_set (s ∷ l) t = ground (arith, Has-sorted_set l t, Has-insert_once s (sorted_set l) t)

insert_once-Strict : (s : Text) (l : List Text) → Strict l → Strict (insert_once s l)
unfolding insert_once
insert_once-Strict s [] h = (λ t m. absurd m, tt)
insert_once-Strict s (u ∷ l) (above, strict) = elim (Bool-cases (s == u)) [
  | inl e ↦ rw e (above, strict)
  | inr f ↦ elim (Bool-cases (text_ltb s u)) [
    | inl lt ↦ rw (f, lt) (below_all lt, (above, strict))
    | inr ge ↦ rw (f, ge) (above_all ge f, insert_once-Strict s l strict)
  ]
]
  where
    below_all : text_ltb s u ≡ true → Above s (u ∷ l)
    below_all lt t (inl e) = rw (sym e) lt
    below_all lt t (inr m) = text_ltb_trans s u t lt (above t m)

    above_all : text_ltb s u ≡ false → (s == u) ≡ false → Above u (insert_once s l)
    above_all ge f t m = elim ((Has-insert_once s l t).0 m) [
      | inl e ↦ rw (sym e) (text_ltb_total s u (λ p. ground arith) ge)
      | inr m' ↦ above t m'
    ]

sorted_set-Strict : (l : List Text) → Strict (sorted_set l)
unfolding sorted_set
sorted_set-Strict [] = tt
sorted_set-Strict (s ∷ l) = insert_once-Strict s (sorted_set l) (sorted_set-Strict l)

-- Two lists with the same elements
abbrev pub SameSet : List Text → List Text → Type 0
SameSet l m = (t : Text) → Has t l ↔ Has t m

head_same : (s t : Text) (l m : List Text) → Above s l → Above t m → SameSet (s ∷ l) (t ∷ m) → s ≡ t
head_same s t l m a b same = elim ((same s).0 (inl refl)) [
  | inl e ↦ sym e
  | inr m' ↦ elim ((same t).1 (inl refl)) [
    | inl e ↦ e
    | inr l' ↦ absurd (ground (arith, text_ltb_trans s t s (a t l') (b s m'), text_ltb_irrefl s))
  ]
]

tail_half :
    (s t : Text) (l m : List Text)
    → Above s l
    → s ≡ t
    → SameSet (s ∷ l) (t ∷ m)
    → (u : Text) → Has u l
    → Has u m
tail_half s t l m a e same u in_l = elim ((same u).0 (inr in_l)) [
  | inl p ↦ absurd (ground (arith, a u in_l, text_ltb_irrefl u, e, p))
  | inr in_m ↦ in_m
]

flip : (l m : List Text) → SameSet l m → SameSet m l
flip l m same t = ((same t).1, (same t).0)

Strict-unique : (l m : List Text) → Strict l → Strict m → SameSet l m → l ≡ m
Strict-unique [] [] a b same = refl
Strict-unique [] (t ∷ m) a b same = absurd ((same t).1 (inl refl))
Strict-unique (s ∷ l) [] a b same = absurd ((same s).0 (inl refl))
Strict-unique (s ∷ l) (t ∷ m) (above, a) (above', b) same =
    let e = head_same s t l m above above' same in
    let rest = Strict-unique l m a b (λ u. (
      tail_half s t l m above e same u,
      tail_half t s m l above' (sym e) (flip (s ∷ l) (t ∷ m) same) u,
    )) in
    rw (e, rest) refl

pub sorted_set-Same : (l m : List Text) → SameSet l m → sorted_set l ≡ sorted_set m
sorted_set-Same l m same =
    Strict-unique (sorted_set l) (sorted_set m) (sorted_set-Strict l) (sorted_set-Strict m) (λ t. (
      (λ h. (Has-sorted_set m t).1 ((same t).0 ((Has-sorted_set l t).0 h))),
      (λ h. (Has-sorted_set l t).1 ((same t).1 ((Has-sorted_set m t).0 h))),
    ))
