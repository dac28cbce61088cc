-- ===== src/Hosts/Block.antt =====
-- The managed block of the hosts file: `render_block`, `_strip_managed`, `sync` and `remove_block` of
-- hosts.py. The text of the file is what is read and written; Python's `str.lower` on any text is an
-- argument, since it only orders the lines.
use greasewood.Base.{
  ℕ, Bool, true, false, not, ◌&&◌, Option, none, some, List, [], ◌∷◌, ◌++◌, map, keep, meets, ◌==◌,
  list_eq, nat_eq, if◌then◌else◌, contains, Text, codes,
}
use greasewood.Wire.Json.{text_ltb}
use greasewood.Wire.Credential.{sorted}
use greasewood.Wire.Record.{NodeRecord, hostname}
use greasewood.Hosts.Label.{valid_label}
use greasewood.Hosts.Names.{is_space, strip_left, strip_right, mesh_name}
use greasewood.Hosts.Lines.{newline, split_lines, join_lines}

-- `_begin` and `_end`
unfoldable pub begin_marker : Text → Text
begin_marker tag = codes "# BEGIN greasewood [" ++ tag ++ codes "] — managed, do not edit"

unfoldable pub end_marker : Text → Text
end_marker tag = codes "# END greasewood [" ++ tag ++ codes "]"

-- `line.strip()`
unfoldable pub strip : Text → Text
strip s = strip_right is_space (strip_left is_space s)

-- `line.split()[0]` of a line that is not blank
unfoldable pub first_word : Text → Text
first_word [] = []
first_word (c ∷ s) = let rest = first_word s in if is_space c then [] else c ∷ rest

abbrev is_entry : Text → Bool
is_entry [] = false
is_entry (c ∷ s) = not (c == 35)

-- The loop of `_managed_block_addrs`; the flag is `inside`.
unfoldable pub block_addrs : Text → Text → Bool → List Text → List Text
unfolding first_word strip
block_addrs begin end inside [] = []
block_addrs begin end inside (l ∷ ls) =
    let started = block_addrs begin end true ls in
    let more = block_addrs begin end inside ls in
    if strip l == begin
    then started
    else if not inside
    then more
    else if strip l == end
    then []
    else if is_entry (first_word (strip_left is_space l))
    then first_word (strip_left is_space l) ∷ more
    else more

-- The loop of `_strip_managed`; the flag is `skip`.
unfoldable pub strip_lines : Text → Text → Bool → List Text → List Text
unfolding strip
strip_lines begin end skip [] = []
strip_lines begin end skip (l ∷ ls) =
    let skipping = strip_lines begin end true ls in
    let going = strip_lines begin end false ls in
    if strip l == begin
    then skipping
    else if skip
    then (if strip l == end then going else skipping)
    else l ∷ going

-- `_strip_managed`
unfoldable pub strip_managed : Text → Text → Text
unfolding strip_lines begin_marker end_marker split_lines join_lines
strip_managed tag text =
    join_lines (strip_lines (begin_marker tag) (end_marker tag) false (split_lines text))

-- `set(aliases)`
distinct : List Text → List Text
distinct [] = []
distinct (a ∷ l) = let rest = distinct l in if contains rest a then rest else a ∷ rest

-- A line of the block: an address, a tab and a name.
unfoldable pub host_line : Text → Text → Text
host_line addr name = addr ++ (9 ∷ name)

alias_lines : Text → Text → List Text → List Text
unfolding host_line valid_label
alias_lines addr base [] = []
alias_lines addr base (label ∷ l) =
    let rest = alias_lines addr base l in
    if valid_label label then host_line addr (label ++ (46 ∷ base)) ∷ rest else rest

record_lines : Text → NodeRecord → List Text
unfolding alias_lines distinct sorted mesh_name
record_lines domain r =
    let base = mesh_name (hostname r) domain in
    host_line r.cred.addr base ∷ alias_lines r.cred.addr base (sorted (distinct r.aliases))

all_lines : Text → List NodeRecord → List Text
unfolding record_lines
all_lines domain [] = []
all_lines domain (r ∷ rs) = record_lines domain r ++ all_lines domain rs

-- `s.rstrip("\n")`
abbrev pub is_newline : ℕ → Bool
is_newline c = c == newline

unfoldable pub chomp : Text → Text
chomp s = strip_right is_newline s

-- The block behind what else is in the file.
unfoldable pub place : Text → Text → Text
place [] block = block
place (c ∷ base) block = (c ∷ base) ++ (newline ∷ newline ∷ block)

-- The file, and the module's two sets: `_foreign_seen` and `_warned_collisions`.
pub record HostsState : Type 0 where
  pub file : Option Text
  pub foreign_seen : List Text
  pub warned : List Text

abbrev pub contents : Option Text → Text
contents none = []
contents (some t) = t

add_name : Text → List Text → List Text
add_name d l = if contains l d then l else d ∷ l

abbrev is_blank : Text → Bool
is_blank [] = true
is_blank (c ∷ s) = false

module _ (lower_case : Text → Text) where
  insert_record : NodeRecord → List NodeRecord → List NodeRecord
  insert_record r [] = r ∷ []
  insert_record r (q ∷ l) =
      if text_ltb (lower_case (hostname q)) (lower_case (hostname r))
      then q ∷ insert_record r l
      else r ∷ q ∷ l

  -- `sorted(records, key=lambda r: r.hostname.lower())`
  by_name : List NodeRecord → List NodeRecord
  unfolding insert_record text_ltb
  by_name [] = []
  by_name (r ∷ l) = insert_record r (by_name l)

  -- The lines of the block between its markers, and `render_block`.
  unfoldable pub entries : List NodeRecord → Text → List Text
  unfolding by_name all_lines
  entries records domain = all_lines domain (by_name records)

  unfoldable pub render_block : List NodeRecord → Text → Text
  unfolding entries begin_marker end_marker join_lines
  render_block records domain =
      join_lines (begin_marker domain ∷ (entries records domain ++ (end_marker domain ∷ [])))

  -- `new` in `sync`, from the text of the file
  unfoldable pub synced : List NodeRecord → Text → Text → Text
  unfolding place strip_managed chomp render_block
  synced records domain current =
      place (chomp (strip_managed domain current)) (render_block records domain ++ (newline ∷ []))

  -- The watch for another mesh under the same tag.
  unfoldable pub note_foreign : List NodeRecord → Text → Text → HostsState → HostsState
  unfolding block_addrs begin_marker end_marker split_lines add_name
  note_foreign records domain current st =
      let ours : List Text = map (λ (r : NodeRecord). r.cred.addr) records in
      let there =
        block_addrs (begin_marker domain) (end_marker domain) false (split_lines current) in
      if not (ours == []) && not (there == []) && not (meets there ours)
      then record st {
        foreign_seen = add_name domain st.foreign_seen;
        warned = if contains st.foreign_seen domain then add_name domain st.warned else st.warned;
      }
      else record st { foreign_seen = keep (λ d. not (d == domain)) st.foreign_seen }

  -- `sync`
  unfoldable pub sync : List NodeRecord → Text → HostsState → Bool × HostsState
  unfolding note_foreign synced
  sync records domain st =
      let current : Text = contents st.file in
      let st' = note_foreign records domain current st in
      let new = synced records domain current in
      if not (new == current) then (true, record st' { file = some new }) else (false, st')

-- `remove_block`
unfoldable pub without_block : Text → Text → Text
unfolding strip_managed strip chomp
without_block domain current =
    let base = strip_managed domain current in
    if is_blank (strip base) then base else chomp base ++ (newline ∷ [])

unfoldable pub remove_block : Text → HostsState → Bool × HostsState
unfolding without_block
remove_block domain st = elim st.file [
  | none ↦ (false, st)
  | some current ↦
      let new = without_block domain current in
      if not (new == current) then (true, record st { file = some new }) else (false, st)
]
