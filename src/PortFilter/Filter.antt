-- ===== src/PortFilter/Filter.antt =====
-- Class PortFilter of portfilter.py, over what it asks of nft through wg.py.
use greasewood.Base.{
  ℕ, Bool, true, ◌&&◌, Option, none, some, List, ◌++◌, ◌∷◌, ◌==◌, list_eq, nat_eq, option_eq,
  if◌then◌else◌, Text, codes,
}
use greasewood.Wire.Grants.{Grant}
use greasewood.Wire.Record.{NodeRecord}
use greasewood.PortFilter.Render.{render_ruleset}

-- The fields. `_grant_policy`, which another component changes, is an argument of `apply`.
pub record Filter : Type 0 where
  pub table : Text
  pub iface : Text
  pub control_port : ℕ
  pub local_caps : List Text
  pub local_hostname : Option Text
  pub applied : Option Text

-- `nft_table_exists` and `nft_load`: each either answers or raises.
pub record Nft (K : Type 0) : Type 0 where
  pub table_exists : Text → K → Option Bool
  pub load : Text → K → Option K

-- `set_local_caps`
unfoldable pub set_local_caps : List Text → Filter → Filter
set_local_caps caps f = record f { local_caps = caps }

-- `desired` of `apply`
unfoldable pub desired : Filter → List NodeRecord → Option (List Grant) → Text
unfolding render_ruleset
desired f records grants =
    render_ruleset f.table f.iface f.control_port records f.local_caps grants f.local_hostname

-- `script` of `apply`
unfoldable pub script : Text → Text → Text
script table wanted =
    codes "table inet "
    ++ (table ++ (10 ∷ (codes "delete table inet " ++ (table ++ (10 ∷ wanted)))))

module _ {K : Type 0} (nft : Nft K) where
  -- `_installed`
  unfoldable pub installed : Text → K → Bool
  installed table k = elim (nft.table_exists table k) [ none ↦ true | some there ↦ there ]

  -- What `apply` does once it has rendered the ruleset
  unfoldable pub apply_wanted : Text → Filter × K → Filter × K
  unfolding installed
  apply_wanted wanted (f, k) =
      if some wanted == f.applied && installed f.table k
      then (f, k)
      else elim (nft.load (script f.table wanted) k) [
        | none ↦ (f, k)
        | some k' ↦ (record f { applied = some wanted }, k')
      ]

  -- `apply`
  unfoldable pub apply : List NodeRecord → Option (List Grant) → Filter × K → Filter × K
  apply records grants (f, k) = apply_wanted (desired f records grants) (f, k)
