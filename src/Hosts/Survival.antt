-- ===== src/Hosts/Survival.antt =====
-- `sync` of hosts.py keeps every line of the file that is not in the block.
use greasewood.Base.{list_eq, nat_eq, List, [], ◌∷◌, ◌++◌, Text}
use greasewood.Hosts.Block.{begin_marker, end_marker}
use greasewood.Hosts.Stripping.{Inner}

-- No block, or one that an earlier `sync` left: its two markers, and lines between them that are none.
pub data OldBlock (tag : Text) : List Text → Type 0 where
  absent : OldBlock tag []
  present :
      (lines : List Text)
      → Inner (begin_marker tag) (end_marker tag) lines
      → OldBlock tag (begin_marker tag ∷ (lines ++ (end_marker tag ∷ [])))
