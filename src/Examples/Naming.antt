-- ===== src/Examples/Naming.antt =====
-- A hosts file with a line of its own, into which the block goes.
use greasewood.Base.{◌≡◌, refl, false, some, List, [], ◌∷◌, ◌++◌, list_eq, nat_eq, Text, codes}
use native.Mathlib.Decide.{ℕ_discrete}
use greasewood.Wire.Record
use greasewood.Wire.Record.{NodeRecord}
use greasewood.Hosts.Block.{
  HostsState, begin_marker, end_marker, strip, entries, strip_managed, synced, sync,
}
use greasewood.Hosts.Again.{IsBlock, sync_again}
use greasewood.Hosts.Lines.{join_lines}
use greasewood.Examples.Setup.{start, record_of, toy}

abbrev domain : Text
domain = codes "gw"

abbrev base_record : NodeRecord
base_record = record_of (1 ∷ []) (codes "DB") [] start 1

-- The record with an address that can be read.
abbrev ann_record : NodeRecord
ann_record = record base_record { cred = record (base_record.cred) { addr = codes "fd8d::1" } }

abbrev as_is : Text → Text
as_is s = s

abbrev own_line : Text
own_line = codes "127.0.0.1 localhost" ++ (10 ∷ [])

abbrev hosts : HostsState
hosts = record { file = some own_line; foreign_seen = []; warned = [] }

lines-IsBlock : IsBlock domain (entries as_is (ann_record ∷ []) domain)
unfolding ℕ_discrete entries Record.sign greasewood.Wire.Credential.sign list_eq
    greasewood.Hosts.Block.strip greasewood.Hosts.Block.begin_marker
    greasewood.Hosts.Block.end_marker
lines-IsBlock = record { plain_tag = refl; plain = (refl, tt); inner = ((refl, refl), tt) }

-- A file with a line of its own before an old block, and another one behind it.
abbrev old_block : List Text
old_block = begin_marker domain ∷ ((codes "fd8d::9 old.gw" ∷ []) ++ (end_marker domain ∷ []))

abbrev file_lines : List Text
file_lines = codes "127.0.0.1 localhost" ∷ (old_block ++ (codes "::1 ip6-localhost" ∷ [] ∷ []))

abbrev with_block : HostsState
with_block = record { file = some (join_lines file_lines); foreign_seen = []; warned = [] }

sync_again_example :
    ((sync as_is (ann_record ∷ []) domain (sync as_is (ann_record ∷ []) domain hosts).1).0 ≡ false)
    × ((sync as_is (ann_record ∷ []) domain (sync as_is (ann_record ∷ []) domain hosts).1).1.file
        ≡ (sync as_is (ann_record ∷ []) domain hosts).1.file)
sync_again_example = sync_again as_is (ann_record ∷ []) domain hosts lines-IsBlock
