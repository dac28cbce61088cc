-- ===== src/Upgrade/Version.antt =====
-- `version_tuple` and `is_newer` of upgrade.py, over ASCII texts.
use greasewood.Base.{
  ℕ, ◌≡◌, refl, Bool, true, false, List, [], ◌∷◌, ltb, ◌==◌, nat_eq, if◌then◌else◌, arith, Text,
  partition, split_on, is_digits, int,
}

-- The loop of `version_tuple`: a part that is no number ends the tuple.
unfoldable pub numbers : List Text → List ℕ
numbers [] = []
numbers (part ∷ parts) = let rest = numbers parts in if is_digits part then int part ∷ rest else []

-- `version_tuple`
unfoldable pub version_tuple : Text → List ℕ
unfolding numbers partition split_on is_digits int
version_tuple v = numbers (split_on 46 (partition 43 v).0)

-- Python's `<` on tuples of numbers.
unfoldable pub tuple_ltb : List ℕ → List ℕ → Bool
tuple_ltb [] [] = false
tuple_ltb [] (n ∷ t) = true
tuple_ltb (m ∷ s) [] = false
tuple_ltb (m ∷ s) (n ∷ t) = let rest = tuple_ltb s t in if m == n then rest else ltb m n

-- `is_newer`
unfoldable pub is_newer : Text → Text → Bool
unfolding version_tuple tuple_ltb
is_newer target running = tuple_ltb (version_tuple running) (version_tuple target)

pub tuple_ltb_trans :
    (s t u : List ℕ) → tuple_ltb s t ≡ true → tuple_ltb t u ≡ true → tuple_ltb s u ≡ true
unfolding tuple_ltb
tuple_ltb_trans [] [] u h k = absurd (ground arith)
tuple_ltb_trans [] (n ∷ t) [] h k = absurd (ground arith)
tuple_ltb_trans [] (n ∷ t) (o ∷ u) h k = refl
tuple_ltb_trans (m ∷ s) [] u h k = absurd (ground arith)
tuple_ltb_trans (m ∷ s) (n ∷ t) [] h k = absurd (ground arith)
tuple_ltb_trans (m ∷ s) (n ∷ t) (o ∷ u) h k = ground (arith, tuple_ltb_trans s t u)

pub tuple_ltb_irrefl : (s : List ℕ) → tuple_ltb s s ≡ false
unfolding tuple_ltb
tuple_ltb_irrefl [] = refl
tuple_ltb_irrefl (m ∷ s) = ground (arith, tuple_ltb_irrefl s)
