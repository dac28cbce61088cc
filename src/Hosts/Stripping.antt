-- ===== src/Hosts/Stripping.antt =====
-- `_strip_managed` of hosts.py takes out the block and nothing else.
use greasewood.Base.{
  ℕ, ◌≡◌, refl, ◌∙◌, ap, Bool, true, false, List, [], ◌∷◌, ◌++◌, ◌==◌, list_eq, nat_eq,
  if◌then◌else◌, contains, all, All, arith, Text, Bool-cases, inl, inr,
}
use mathlib.Core.Path.{subst}
use mathlib.Core.List.{append-nil}
use greasewood.Hosts.Names.{strip_right, put_unless}
use greasewood.Hosts.Lines.{newline, split_lines, Plain, split_lines-append}
use greasewood.Hosts.Block.{strip, strip_lines, is_newline, chomp}

if-All :
    (P : Text → Type 0) (b : Bool) (xs ys : List Text)
    → All P xs
    → All P ys
    → All P (if b then xs else ys)
if-All P true xs ys p q = p
if-All P false xs ys p q = q

every_line : (P : Text → Type 0) (ls : List Text) → ((l : Text) → P l) → All P ls
every_line P [] f = tt
every_line P (l ∷ ls) f = (f l, every_line P ls f)

All-append : (P : Text → Type 0) (xs ys : List Text) → All P (xs ++ ys) → All P xs
All-append P [] ys p = tt
All-append P (x ∷ xs) ys (h, p) = (h, All-append P xs ys p)

All-map : (P Q : Text → Type 0) (ls : List Text) → ((l : Text) → P l → Q l) → All P ls → All Q ls
All-map P Q [] f p = tt
All-map P Q (l ∷ ls) f (h, p) = (f l h, All-map P Q ls f p)

module _ (begin end : Text) where
  -- No line is the marker that begins the block.
  abbrev pub Clean : List Text → Type 0
  Clean = All (λ l. (strip l == begin) ≡ false)

  -- Lines that may stand between the markers.
  abbrev pub Inner : List Text → Type 0
  Inner = All (λ l. ((strip l == begin) ≡ false) × ((strip l == end) ≡ false))

  -- What is left is lines that were there, and none is the marker that begins the block.
  strip_lines-All :
      (P : Text → Type 0) (skip : Bool) (ls : List Text)
      → All (λ l. (strip l == begin) ≡ false → P l) ls
      → All P (strip_lines begin end skip ls)
  unfolding strip_lines
  strip_lines-All P skip [] p = tt
  strip_lines-All P skip (l ∷ ls) (h, p) = elim (Bool-cases (strip l == begin)) [
    | inl t ↦ rw t (strip_lines-All P true ls p)
    | inr f ↦ rw f (
        if-All P skip _ _
          (if-All P (strip l == end) _ _ (strip_lines-All P false ls p)
            (strip_lines-All P true ls p))
          (h f, strip_lines-All P false ls p))
  ]

  pub strip_lines-Clean : (skip : Bool) (ls : List Text) → Clean (strip_lines begin end skip ls)
  strip_lines-Clean skip ls =
      strip_lines-All (λ l. (strip l == begin) ≡ false) skip ls
        (every_line (λ l. (strip l == begin) ≡ false → (strip l == begin) ≡ false) ls (λ l h. h))

  pub strip_lines-Plain :
      (skip : Bool) (ls : List Text) → Plain ls → Plain (strip_lines begin end skip ls)
  strip_lines-Plain skip ls p =
      strip_lines-All (λ m. contains m newline ≡ false) skip ls
        (All-map (λ m. contains m newline ≡ false)
          (λ m. (strip m == begin) ≡ false → contains m newline ≡ false) ls (λ l h e. h) p)

  -- Lines outside the block stay, up to the block.
  pub strip_lines_before :
      (xs ys : List Text)
      → Clean xs
      → strip_lines begin end false (xs ++ ys) ≡ xs ++ strip_lines begin end false ys
  unfolding strip_lines
  strip_lines_before [] ys c = refl
  strip_lines_before (x ∷ xs) ys (f, c) = rw (f, strip_lines_before xs ys c) refl

  strip_lines_inside :
      (xs ys : List Text)
      → Inner xs
      → strip_lines begin end true (xs ++ ys) ≡ strip_lines begin end true ys
  unfolding strip_lines
  strip_lines_inside [] ys c = refl
  strip_lines_inside (x ∷ xs) ys ((f, g), c) = rw (f, g, strip_lines_inside xs ys c) refl

  -- The block goes, with its markers.
  pub strip_lines_block :
      (xs ys : List Text)
      → (strip begin == begin) ≡ true
      → (strip end == begin) ≡ false
      → (strip end == end) ≡ true
      → Inner xs
      → strip_lines begin end false (begin ∷ (xs ++ (end ∷ ys))) ≡ strip_lines begin end false ys
  unfolding strip_lines
  strip_lines_block xs ys b n e c = rw (b, strip_lines_inside xs (end ∷ ys) c, n, e) refl

extend :
    (c : ℕ) (s u t : Text)
    → s ≡ u ++ t
    → all is_newline t ≡ true
    → (x : Text) × (c ∷ s ≡ put_unless (is_newline c) c u ++ x) × (all is_newline x ≡ true)
extend c s (d ∷ u) t e n = (t, ap (λ x. c ∷ x) e, n)
extend c s [] t e n = elim (Bool-cases (is_newline c)) [
  | inl p ↦ (c ∷ t, rw p (ap (λ x. c ∷ x) e), ground arith)
  | inr q ↦ (t, rw q (ap (λ x. c ∷ x) e), n)
]

-- The line feeds that `rstrip` takes off.
chomp-append : (s : Text) → (t : Text) × (s ≡ chomp s ++ t) × (all is_newline t ≡ true)
unfolding chomp strip_right
chomp-append [] = ([], refl, refl)
chomp-append (c ∷ s) = let (t, e, n) = chomp-append s in extend c s (chomp s) t e n

pub chomp-Clean :
    (begin end s : Text) → Clean begin end (split_lines s) → Clean begin end (split_lines (chomp s))
chomp-Clean begin end s c = let (t, e, n) = chomp-append s in on t e n
  where
    on :
        (t : Text)
        → s ≡ chomp s ++ t
        → all is_newline t ≡ true
        → Clean begin end (split_lines (chomp s))
    on [] e n = subst (λ x. Clean begin end (split_lines x)) (e ∙ append-nil (chomp s)) c
    on (d ∷ t) e n =
        let feed : d ≡ newline = ground arith in
        All-append (λ l. (strip l == begin) ≡ false) (split_lines (chomp s)) (split_lines t)
          (subst (λ x. Clean begin end x) (split_lines-append (chomp s) t)
            (subst (λ x. Clean begin end (split_lines x)) (e ∙ ap (λ x. chomp s ++ (x ∷ t)) feed)
              c))
