-- ===== src/Wire/Sorting.antt =====
-- `sorted` of wire.py's bodies: a sorted list of strings stays as it is.
use greasewood.Base.{◌≡◌, refl, true, false, List, [], ◌∷◌, nat_eq, arith, Text}
use greasewood.Wire.Json.{text_ltb}
use greasewood.Wire.Credential.{sorted, insert_text}

text_ltb_asymm : (s t : Text) → text_ltb s t ≡ true → text_ltb t s ≡ false
unfolding text_ltb
text_ltb_asymm [] [] h = cc
text_ltb_asymm [] (d ∷ t) h = refl
text_ltb_asymm (c ∷ s) [] h = cc
text_ltb_asymm (c ∷ s) (d ∷ t) h = ground (arith, text_ltb_asymm s t)

-- No string stands before a smaller one.
abbrev Ascending : List Text → Type 0
Ascending [] = Unit
Ascending (s ∷ []) = Unit
Ascending (s ∷ t ∷ l) = (text_ltb t s ≡ false) × Ascending (t ∷ l)

insert_text-Ascending : (s : Text) (l : List Text) → Ascending l → Ascending (insert_text s l)
unfolding insert_text
insert_text-Ascending s [] h = tt
insert_text-Ascending s (t ∷ []) h = ground (arith, text_ltb_asymm t s)
insert_text-Ascending s (t ∷ u ∷ l) h =
    ground (arith, text_ltb_asymm t s, insert_text-Ascending s (u ∷ l) h.1)

sorted-Ascending : (l : List Text) → Ascending (sorted l)
unfolding sorted
sorted-Ascending [] = tt
sorted-Ascending (s ∷ l) = insert_text-Ascending s (sorted l) (sorted-Ascending l)

Ascending-sorted : (l : List Text) → Ascending l → sorted l ≡ l
unfolding sorted insert_text
Ascending-sorted [] h = refl
Ascending-sorted (s ∷ []) h = refl
Ascending-sorted (s ∷ t ∷ l) h = rw (Ascending-sorted (t ∷ l) h.1) (rw h.0 refl)

pub sorted_idem : (l : List Text) → sorted (sorted l) ≡ sorted l
sorted_idem l = Ascending-sorted (sorted l) (sorted-Ascending l)
