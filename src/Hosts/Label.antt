-- ===== src/Hosts/Label.antt =====
-- `valid_label` of hosts.py: the pattern `^[a-z0-9]([a-z0-9-]{0,61}[a-z0-9])?$` under `re.match`.
use greasewood.Base.{
  ℕ, ◌≡◌, Bool, true, false, ◌&&◌, ◌||◌, [], ◌∷◌, ◌++◌, length, leb, ◌==◌, nat_eq, if◌then◌else◌,
  Text, arith,
}

abbrev pub is_alnum : ℕ → Bool
is_alnum c = (leb 97 c && leb c 122) || (leb 48 c && leb c 57)

abbrev pub is_inner : ℕ → Bool
is_inner c = is_alnum c || c == 45

-- The bracketed part of the pattern once its first character is there: any number of inner
-- characters and then a letter or digit.
abbrev pub is_tail : Text → Bool
is_tail [] = false
is_tail (c ∷ []) = is_alnum c
is_tail (c ∷ d ∷ s) = is_inner c && is_tail (d ∷ s)

-- The pattern with the end of the text for `$`.
unfoldable pub whole_match : Text → Bool
whole_match [] = false
whole_match (c ∷ []) = is_alnum c
whole_match (c ∷ d ∷ s) = is_alnum c && leb (length (d ∷ s)) 62 && is_tail (d ∷ s)

-- The text before a line feed that ends it; `$` holds there too.
unfoldable pub before_newline : Text → Text
before_newline [] = []
before_newline (c ∷ []) = if c == 10 then [] else c ∷ []
before_newline (c ∷ d ∷ s) = c ∷ before_newline (d ∷ s)

unfoldable pub valid_label : Text → Bool
unfolding whole_match before_newline
valid_label s = whole_match s || whole_match (before_newline s)

before_newline-append : (c : ℕ) (s : Text) → before_newline (c ∷ (s ++ 10 ∷ [])) ≡ c ∷ s
unfolding before_newline
before_newline-append c [] = ground arith
before_newline-append c (d ∷ s) = rw (before_newline-append d s)

-- Every label that the pattern means to accept is accepted with a line feed behind it too.
pub valid_label-newline : (s : Text) → whole_match s ≡ true → valid_label (s ++ 10 ∷ []) ≡ true
unfolding valid_label
valid_label-newline [] h = cc
valid_label-newline (c ∷ s) h = ground (arith, before_newline-append c s)
