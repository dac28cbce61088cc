-- ===== src/Hosts/Again.antt =====
-- `sync` of hosts.py run twice, and what it leaves of the rest of the file.
use greasewood.Base.{
  ◌≡◌, refl, sym, ◌∙◌, ap, false, List, [], ◌∷◌, ◌++◌, ◌==◌, ==_self, list_eq, nat_eq, contains,
  arith, Text, Bool-cases, inl, inr,
}
use mathlib.Core.List.{append_assoc}
use native.Mathlib.Decide.{ℕ_discrete}
use greasewood.Wire.Record.{NodeRecord}
use greasewood.Hosts.Names.{strip_right}
use greasewood.Hosts.Lines.{
  newline, split_lines, join_lines, Plain, split_lines-append, split_lines-join_lines,
  split_lines-Plain, split_lines_cons, join_lines-append, join_lines-split_lines,
}
use greasewood.Hosts.Block.{
  begin_marker, end_marker, strip_lines, strip_managed, chomp, entries, render_block, synced, place,
  HostsState, contents, sync, note_foreign,
}
use greasewood.Hosts.Stripping.{
  Clean, Inner, strip_lines-Clean, strip_lines-Plain, strip_lines_before, strip_lines_block,
  chomp-Clean,
}
use greasewood.Hosts.Markers.{
  strip-begin_marker, strip-end_marker, end_ne_begin, blank_ne_begin, chomp_feeds, chomp_again,
  begin_marker-Plain, end_marker-Plain, blank_line,
}

-- The conditions under which the block is taken out again whole: no line feed in the tag, and lines
-- between the markers that have none and are no markers.
pub record IsBlock (tag : Text) (lines : List Text) : Type 0 where
  pub plain_tag : contains tag newline ≡ false
  pub plain : Plain lines
  pub inner : Inner (begin_marker tag) (end_marker tag) lines

Plain-append : (xs ys : List Text) → Plain xs → Plain ys → Plain (xs ++ ys)
Plain-append [] ys p q = q
Plain-append (x ∷ xs) ys (h, p) q = (h, Plain-append xs ys p q)

-- The text of a block, with the line feed behind it, is taken out.
block_text : Text → List Text → Text
block_text tag lines = join_lines (begin_marker tag ∷ (lines ++ (end_marker tag ∷ [])))

strip_lines_text :
    (tag : Text) (lines : List Text)
    → IsBlock tag lines
    → strip_lines
        (begin_marker tag)
        (end_marker tag)
        false
        (split_lines (block_text tag lines ++ (newline ∷ [])))
      ≡ [] ∷ []
unfolding block_text
strip_lines_text tag lines b =
    let begin = begin_marker tag in
    let end = end_marker tag in
    let whole = begin ∷ (lines ++ (end ∷ [])) in
    let there = split_lines-join_lines begin (lines ++ (end ∷ [])) (
      begin_marker-Plain tag b.plain_tag,
      Plain-append lines (end ∷ []) b.plain (end_marker-Plain tag b.plain_tag, tt),
    ) in
    rw
      (
        split_lines-append (join_lines whole) [],
        there,
        append_assoc lines (end ∷ []) (split_lines []),
      )
      (strip_lines_block begin end lines (split_lines [])
          (rw (strip-begin_marker tag) (==_self (begin_marker tag)))
          (rw (strip-end_marker tag) (end_ne_begin tag))
          (rw (strip-end_marker tag) (==_self (end_marker tag))) b.inner
        ∙ blank_line tag)

only_block :
    (tag : Text) (lines : List Text)
    → IsBlock tag lines
    → strip_managed tag (block_text tag lines ++ (newline ∷ [])) ≡ []
unfolding strip_managed join_lines
only_block tag lines b = rw (strip_lines_text tag lines b) refl

-- What `_strip_managed` leaves, without the line feeds at its end, has no marker in it.
left-Clean :
    (tag current : Text)
    → Clean (begin_marker tag) (end_marker tag) (split_lines (chomp (strip_managed tag current)))
unfolding strip_managed
left-Clean tag current =
    chomp-Clean (begin_marker tag) (end_marker tag) (strip_managed tag current) (
      on _
        (strip_lines-Plain (begin_marker tag) (end_marker tag) false (split_lines current)
          (split_lines-Plain current))
        (strip_lines-Clean (begin_marker tag) (end_marker tag) false (split_lines current)))
  where
    on :
        (ls : List Text)
        → Plain ls
        → Clean (begin_marker tag) (end_marker tag) ls
        → Clean (begin_marker tag) (end_marker tag) (split_lines (join_lines ls))
    on [] p c = (blank_ne_begin tag, tt)
    on (l ∷ ls) p c = rw (split_lines-join_lines l ls p) c

-- A text without the marker, and the block behind it after an empty line.
strip_managed_behind :
    (tag base : Text) (lines : List Text)
    → IsBlock tag lines
    → Clean (begin_marker tag) (end_marker tag) (split_lines base)
    → strip_managed tag (base ++ (newline ∷ newline ∷ (block_text tag lines ++ (newline ∷ []))))
      ≡ base ++ (newline ∷ newline ∷ [])
unfolding strip_managed join_lines
strip_managed_behind tag base lines b c =
    let block = block_text tag lines ++ (newline ∷ []) in
    let (l, ls, e) = split_lines_cons base in
    rw
      (
        split_lines-append base (newline ∷ block),
        split_lines-append [] block,
        strip_lines_before (begin_marker tag) (end_marker tag) (split_lines base)
            (split_lines [] ++ split_lines block) c,
        strip_lines_before (begin_marker tag) (end_marker tag) (split_lines []) (split_lines block)
            (blank_ne_begin tag, tt),
        strip_lines_text tag lines b,
        e,
      )
      (join_lines-append l ls [] ([] ∷ [])
        ∙ ap (λ x. x ++ (newline ∷ newline ∷ []))
            (ap join_lines (sym e) ∙ join_lines-split_lines base))

strip_managed-place :
    (tag base : Text) (lines : List Text)
    → IsBlock tag lines
    → Clean (begin_marker tag) (end_marker tag) (split_lines base)
    → chomp base ≡ base
    → chomp (strip_managed tag (place base (block_text tag lines ++ (newline ∷ [])))) ≡ base
unfolding place chomp strip_right ℕ_discrete
strip_managed-place tag [] lines b c h = ap chomp (only_block tag lines b)
strip_managed-place tag (d ∷ base) lines b c h =
    ap chomp (strip_managed_behind tag (d ∷ base) lines b c)
    ∙ chomp_feeds (d ∷ base) (newline ∷ newline ∷ []) refl
    ∙ h

module _ (lower_case : Text → Text) where
  synced-place :
      (records : List NodeRecord) (tag current : Text)
      → synced lower_case records tag current
        ≡ place
            (chomp (strip_managed tag current))
            (render_block lower_case records tag ++ (newline ∷ []))
  unfolding synced
  synced-place records tag current = refl

  -- After `sync`, taking the block out gives what it gave before, up to line feeds at the end of the
  -- file, where the tag has no line feed and the lines of the block have none and are no markers.
  pub chomp-synced :
      (records : List NodeRecord) (tag current : Text)
      → IsBlock tag (entries lower_case records tag)
      → chomp (strip_managed tag (synced lower_case records tag current))
        ≡ chomp (strip_managed tag current)
  unfolding synced render_block block_text
  chomp-synced records tag current b =
      strip_managed-place tag (chomp (strip_managed tag current)) (entries lower_case records tag) b
        (left-Clean tag current) (chomp_again (strip_managed tag current))

  synced_again :
      (records : List NodeRecord) (tag current : Text)
      → IsBlock tag (entries lower_case records tag)
      → synced lower_case records tag (synced lower_case records tag current)
        ≡ synced lower_case records tag current
  synced_again records tag current b =
      let block = render_block lower_case records tag ++ (newline ∷ []) in
      synced-place records tag (synced lower_case records tag current)
      ∙ ap (λ x. place x block) (chomp-synced records tag current b)
      ∙ sym (synced-place records tag current)

  note_foreign-file :
      (records : List NodeRecord) (tag current : Text) (st : HostsState)
      → (note_foreign lower_case records tag current st).file ≡ st.file
  unfolding note_foreign
  note_foreign-file records tag current st = ground arith

  pub sync_leaves :
      (records : List NodeRecord) (tag : Text) (st : HostsState)
      → contents (sync lower_case records tag st).1.file
        ≡ synced lower_case records tag (contents st.file)
  unfolding sync
  sync_leaves records tag st =
      elim (Bool-cases (synced lower_case records tag (contents st.file) == contents st.file)) [
        | inl t ↦ rw (t, note_foreign-file records tag (contents st.file) st) (ground arith)
        | inr f ↦ rw f refl
      ]

  sync_settled :
      (records : List NodeRecord) (tag : Text) (st : HostsState)
      → synced lower_case records tag (contents st.file) ≡ contents st.file
      → ((sync lower_case records tag st).0 ≡ false)
        × ((sync lower_case records tag st).1.file ≡ st.file)
  unfolding sync
  sync_settled records tag st e =
      rw (e, ==_self (contents st.file)) (refl, note_foreign-file records tag (contents st.file) st)

  -- What `sync` has written it does not write again: run once more for the same records it leaves the
  -- file alone and says so, where the tag has no line feed and the lines of the block have none and
  -- are no markers; whatever the file was, with blocks of other meshes and an old one of this mesh.
  pub sync_again :
      (records : List NodeRecord) (tag : Text) (st : HostsState)
      → IsBlock tag (entries lower_case records tag)
      → ((sync lower_case records tag (sync lower_case records tag st).1).0 ≡ false)
        × ((sync lower_case records tag (sync lower_case records tag st).1).1.file
            ≡ (sync lower_case records tag st).1.file)
  sync_again records tag st b =
      let t = (sync lower_case records tag st).1 in
      let left = sync_leaves records tag st in
      sync_settled records tag t (
        ap (synced lower_case records tag) left
        ∙ synced_again records tag (contents st.file) b
        ∙ sym left)
