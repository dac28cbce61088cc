-- ===== src/Hosts/Lines.antt =====
-- `text.split("\n")` and `"\n".join(lines)`, as hosts.py uses them.
use greasewood.Base.{
  ℕ, ◌≡◌, refl, sym, ◌∙◌, ap, false, List, [], ◌∷◌, ◌++◌, ◌==◌, nat_eq, if◌then◌else◌, contains,
  All, arith, Text, Bool-cases, inl, inr,
}
use mathlib.Core.List.{append_assoc}

abbrev pub newline : ℕ
newline = 10

-- A character before the first line.
abbrev pub add_front : ℕ → List Text → List Text
add_front c [] = (c ∷ []) ∷ []
add_front c (l ∷ ls) = (c ∷ l) ∷ ls

-- `text.split("\n")`
unfoldable pub split_lines : Text → List Text
split_lines [] = [] ∷ []
split_lines (c ∷ s) =
    let rest = split_lines s in if c == newline then [] ∷ rest else add_front c rest

-- `"\n".join(lines)`
unfoldable pub join_lines : List Text → Text
join_lines [] = []
join_lines (l ∷ []) = l
join_lines (l ∷ m ∷ ls) = l ++ (newline ∷ join_lines (m ∷ ls))

add_front-append :
    (c : ℕ) (s : Text) (ms : List Text)
    → add_front c (split_lines s) ++ ms ≡ add_front c (split_lines s ++ ms)
unfolding split_lines
add_front-append c [] ms = refl
add_front-append c (d ∷ s) ms = elim (Bool-cases (d == newline)) [
  | inl t ↦ rw t refl
  | inr f ↦ rw f (on (split_lines s))
]
  where
    on : (ls : List Text) → add_front c (add_front d ls) ++ ms ≡ add_front c (add_front d ls ++ ms)
    on [] = refl
    on (l ∷ ls) = refl

-- A line feed separates what stands before it from what stands behind it.
pub split_lines-append :
    (s t : Text) → split_lines (s ++ (newline ∷ t)) ≡ split_lines s ++ split_lines t
unfolding split_lines
split_lines-append [] t = ground arith
split_lines-append (c ∷ s) t = elim (Bool-cases (c == newline)) [
  | inl e ↦ rw (e, split_lines-append s t) refl
  | inr f ↦ rw (f, split_lines-append s t) (sym (add_front-append c s (split_lines t)))
]

pub split_lines_plain : (s : Text) → contains s newline ≡ false → split_lines s ≡ s ∷ []
unfolding split_lines
split_lines_plain [] h = refl
split_lines_plain (c ∷ s) h = ground (arith, split_lines_plain s)

-- Lines without line feeds come back from the text that they make.
pub split_lines-join_lines :
    (l : Text) (ls : List Text)
    → All (λ m. contains m newline ≡ false) (l ∷ ls)
    → split_lines (join_lines (l ∷ ls)) ≡ l ∷ ls
unfolding join_lines
split_lines-join_lines l [] (p, _) = split_lines_plain l p
split_lines-join_lines l (m ∷ ls) (p, more) =
    rw
      (
        split_lines-append l (join_lines (m ∷ ls)),
        split_lines_plain l p,
        split_lines-join_lines m ls more,
      )
      refl

join_lines-add_front :
    (c : ℕ) (s : Text) → join_lines (add_front c (split_lines s)) ≡ c ∷ join_lines (split_lines s)
unfolding split_lines join_lines
join_lines-add_front c [] = refl
join_lines-add_front c (d ∷ s) = elim (Bool-cases (d == newline)) [
  | inl t ↦ rw t (on [] (split_lines s))
  | inr f ↦ rw f (front (split_lines s))
]
  where
    on : (l : Text) (ls : List Text) → join_lines (add_front c (l ∷ ls)) ≡ c ∷ join_lines (l ∷ ls)
    on l [] = refl
    on l (m ∷ ls) = refl

    front :
        (ls : List Text)
        → join_lines (add_front c (add_front d ls)) ≡ c ∷ join_lines (add_front d ls)
    front [] = refl
    front (l ∷ []) = refl
    front (l ∷ m ∷ ls) = refl

pub split_lines_cons : (s : Text) → (l : Text) × (ls : List Text) × (split_lines s ≡ l ∷ ls)
unfolding split_lines
split_lines_cons [] = ([], [], refl)
split_lines_cons (c ∷ s) = elim (Bool-cases (c == newline)) [
  | inl t ↦ ([], split_lines s, rw t refl)
  | inr f ↦ let (l, ls, e) = split_lines_cons s in (c ∷ l, ls, rw (f, e) refl)
]

-- Every text is made of its lines, and no line has a line feed in it.
pub join_lines-split_lines : (s : Text) → join_lines (split_lines s) ≡ s
unfolding split_lines join_lines
join_lines-split_lines [] = refl
join_lines-split_lines (c ∷ s) = elim (Bool-cases (c == newline)) [
  | inl t ↦
      let (l, ls, e) = split_lines_cons s in
      let same : c ≡ newline = ground arith in
      let ih = join_lines-split_lines s in rw (t, e, same) (ap (λ x. newline ∷ x) (rw e at ih))
  | inr f ↦ rw f (join_lines-add_front c s ∙ ap (λ x. c ∷ x) (join_lines-split_lines s))
]

abbrev pub Plain : List Text → Type 0
Plain = All (λ m. contains m newline ≡ false)

add_front-Plain :
    (c : ℕ) (ls : List Text) → (c == newline) ≡ false → Plain ls → Plain (add_front c ls)
add_front-Plain c [] f p = ground arith
add_front-Plain c (l ∷ ls) f (p, more) = (ground arith, more)

pub split_lines-Plain : (s : Text) → Plain (split_lines s)
unfolding split_lines
split_lines-Plain [] = (refl, tt)
split_lines-Plain (c ∷ s) = elim (Bool-cases (c == newline)) [
  | inl t ↦ rw t (refl, split_lines-Plain s)
  | inr f ↦ rw f (add_front-Plain c (split_lines s) f (split_lines-Plain s))
]

pub join_lines-append :
    (l : Text) (ls : List Text) (m : Text) (ms : List Text)
    → join_lines ((l ∷ ls) ++ (m ∷ ms)) ≡ join_lines (l ∷ ls) ++ (newline ∷ join_lines (m ∷ ms))
unfolding join_lines
join_lines-append l [] m ms = refl
join_lines-append l (k ∷ ls) m ms =
    ap (λ x. l ++ (newline ∷ x)) (join_lines-append k ls m ms)
    ∙ sym (append_assoc l (newline ∷ join_lines (k ∷ ls)) (newline ∷ join_lines (m ∷ ms)))
