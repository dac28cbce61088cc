-- ===== src/Hosts/Names.antt =====
-- `sanitize` and `mesh_name` of hosts.py.
use greasewood.Base.{
  ℕ, ◌+◌, Bool, false, not, ◌&&◌, ◌||◌, [], ◌∷◌, ◌++◌, take, leb, ◌==◌, nat_eq, if◌then◌else◌, Text,
  codes,
}
use greasewood.Hosts.Label.{is_inner}

-- The characters that `str.strip()` takes.
abbrev pub is_space : ℕ → Bool
is_space c =
    (leb 9 c && leb c 13)
    || (leb 28 c && leb c 32)
    || c == 133
    || c == 160
    || c == 5760
    || (leb 8192 c && leb c 8202)
    || (leb 8232 c && leb c 8233)
    || c == 8239
    || c == 8287
    || c == 12288

-- `s.lstrip`, `s.rstrip` and `s.strip` of the characters that pass the test
unfoldable pub strip_left : (ℕ → Bool) → Text → Text
strip_left p [] = []
strip_left p (c ∷ s) = let rest = strip_left p s in if p c then rest else c ∷ s

abbrev pub put_unless : Bool → ℕ → Text → Text
put_unless b c [] = if b then [] else c ∷ []
put_unless b c (d ∷ s) = c ∷ d ∷ s

unfoldable pub strip_right : (ℕ → Bool) → Text → Text
strip_right p [] = []
strip_right p (c ∷ s) = put_unless (p c) c (strip_right p s)

-- `s.lower()`, up to the characters that stay outside a-z and 0-9: the dotted capital I becomes i with
-- a combining dot, and the Kelvin sign becomes k.
unfoldable pub lower : Text → Text
lower [] = []
lower (c ∷ s) =
    let rest = lower s in
    if leb 65 c && leb c 90
    then (c + 32) ∷ rest
    else if c == 304
    then 105 ∷ 775 ∷ rest
    else if c == 8490
    then 107 ∷ rest
    else c ∷ rest

-- `re.sub(r"[^a-z0-9-]+", "-", s)`; the flag says that the character before was in such a run.
unfoldable pub collapse : Bool → Text → Text
collapse in_run [] = []
collapse in_run (c ∷ s) =
    let rest = collapse (not (is_inner c)) s in
    if is_inner c then c ∷ rest else if in_run then rest else 45 ∷ rest

abbrev pub is_dash : ℕ → Bool
is_dash c = c == 45

abbrev pub or_node : Text → Text
or_node [] = codes "node"
or_node (c ∷ s) = c ∷ s

unfoldable pub sanitize : Text → Text
unfolding strip_left strip_right lower collapse
sanitize hostname =
    let s = collapse false (lower (strip_right is_space (strip_left is_space hostname))) in
    or_node (strip_right is_dash (take 63 (strip_right is_dash (strip_left is_dash s))))

-- `mesh_name`
unfoldable pub mesh_name : Text → Text → Text
unfolding sanitize
mesh_name hostname domain = sanitize hostname ++ 46 ∷ domain
