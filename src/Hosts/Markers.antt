-- ===== src/Hosts/Markers.antt =====
-- The markers of the block of hosts.py, and the line feeds at the end of the file.
use greasewood.Base.{
  ℕ, ◌≡◌, refl, Bool, true, false, [], ◌∷◌, ◌++◌, ◌==◌, list_eq, nat_eq, contains, contains-append,
  all, arith, Text, codes, Bool-cases, inl, inr,
}
use native.Mathlib.Decide.{ℕ_discrete}
use greasewood.Hosts.Names.{is_space, strip_left, strip_right, put_unless}
use greasewood.Hosts.Lines.{newline, split_lines}
use greasewood.Hosts.Block.{begin_marker, end_marker, strip, strip_lines, is_newline, chomp}

pub strip_right-append :
    (p : ℕ → Bool) (u : Text) (c : ℕ) (v : Text)
    → strip_right p (c ∷ v) ≡ c ∷ v
    → strip_right p (u ++ (c ∷ v)) ≡ u ++ (c ∷ v)
unfolding strip_right
strip_right-append p [] c v h = h
strip_right-append p (d ∷ []) c v h = rw h refl
strip_right-append p (d ∷ e ∷ u) c v h = rw (strip_right-append p (e ∷ u) c v h) refl

pub strip-begin_marker : (tag : Text) → strip (begin_marker tag) ≡ begin_marker tag
unfolding strip begin_marker strip_left strip_right ℕ_discrete
strip-begin_marker tag =
    strip_right-append is_space (codes "# BEGIN greasewood [" ++ tag) 93
      (codes " — managed, do not edit") refl

pub strip-end_marker : (tag : Text) → strip (end_marker tag) ≡ end_marker tag
unfolding strip end_marker strip_left strip_right ℕ_discrete
strip-end_marker tag = strip_right-append is_space (codes "# END greasewood [" ++ tag) 93 [] refl

pub end_ne_begin : (tag : Text) → (end_marker tag == begin_marker tag) ≡ false
unfolding begin_marker end_marker
end_ne_begin tag = ground arith

pub blank_ne_begin : (tag : Text) → (strip [] == begin_marker tag) ≡ false
unfolding begin_marker strip strip_right strip_left
blank_ne_begin tag = ground arith

pub chomp_feeds : (u v : Text) → all is_newline v ≡ true → chomp (u ++ v) ≡ chomp u
unfolding chomp strip_right
chomp_feeds [] [] h = refl
chomp_feeds [] (c ∷ v) h = ground (arith, chomp_feeds [] v)
chomp_feeds (c ∷ u) v h = rw (chomp_feeds u v h) refl

pub put_again :
    (c : ℕ) (u : Text)
    → chomp u ≡ u
    → chomp (put_unless (is_newline c) c u) ≡ put_unless (is_newline c) c u
unfolding chomp strip_right
put_again c [] h = elim (Bool-cases (is_newline c)) [ inl t ↦ rw t refl | inr f ↦ rw f (rw f refl) ]
put_again c (d ∷ u) h = rw h refl

pub chomp_again : (s : Text) → chomp (chomp s) ≡ chomp s
unfolding chomp strip_right
chomp_again [] = refl
chomp_again (c ∷ s) = put_again c (chomp s) (chomp_again s)

pub begin_marker-Plain :
    (tag : Text) → contains tag newline ≡ false → contains (begin_marker tag) newline ≡ false
unfolding begin_marker ℕ_discrete
begin_marker-Plain tag h =
    rw
      (
        contains-append (codes "# BEGIN greasewood [" ++ tag) (codes "] — managed, do not edit")
            newline,
        contains-append (codes "# BEGIN greasewood [") tag newline,
        h,
      )
      refl

pub end_marker-Plain :
    (tag : Text) → contains tag newline ≡ false → contains (end_marker tag) newline ≡ false
unfolding end_marker ℕ_discrete
end_marker-Plain tag h =
    rw
      (
        contains-append (codes "# END greasewood [" ++ tag) (codes "]") newline,
        contains-append (codes "# END greasewood [") tag newline,
        h,
      )
      refl

pub blank_line :
    (tag : Text) → strip_lines (begin_marker tag) (end_marker tag) false (split_lines []) ≡ [] ∷ []
unfolding strip_lines split_lines
blank_line tag = rw (blank_ne_begin tag) refl
