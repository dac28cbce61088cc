-- ===== src/Examples/Enforcing.antt =====
-- A filter that is applied, whose table is then flushed, and which is applied again.
use greasewood.Base.{
  ℕ, strip_prefix, Option-cases, ◌≡◌, ◌≢◌, refl, sym, true, false, Option, none, some, Has, inl,
  inr, List, [], ◌∷◌, ◌++◌, ◌∙◌, list_eq, nat_eq, Text, codes, arith,
}
use native.Mathlib.Decide.{ℕ_discrete}
use mathlib.Core.Option.{some-ne-none, none-ne-some, some-injective}
use greasewood.Wire.Record.{NodeRecord}
use greasewood.PortFilter.Filter.{Filter, Nft, desired, script, apply}
use greasewood.PortFilter.Keeping.{IsNft, Life, table-Life, apply-desired}
use greasewood.PortFilter.Render.{render_ruleset, render_ruleset-table}
use greasewood.PortFilter.Alike.{SameRecords}
use greasewood.PortFilter.Rendering.{render_ruleset-Same}
use greasewood.Wire.Grants.{Grant}
use greasewood.Examples.Setup.{start, record_of, toy}

abbrev name : Text
name = codes "greasewood_prod"

-- The kernel has no table, or one with this text.
abbrev Tables : Type 0
Tables = Option Text

abbrev make_line : Text
make_line = codes "table inet " ++ (name ++ (10 ∷ []))

abbrev delete_line : Text
delete_line = codes "delete table inet " ++ (name ++ (10 ∷ []))

-- A small nft: a script is at most one line that makes the table, one that deletes it, and a definition,
-- which is refused while the table is there.
define_table : Text → Tables → Option Tables
unfolding strip_prefix
define_table s (some t) = none
define_table s none = elim (strip_prefix make_line s) [
  | some _ ↦ none
  | none ↦ elim (strip_prefix delete_line s) [ some _ ↦ none | none ↦ some (some s) ]
]

delete_table : Text → Tables → Option Tables
unfolding strip_prefix define_table
delete_table s k = elim (strip_prefix make_line s) [
  | some _ ↦ none
  | none ↦ elim (strip_prefix delete_line s) [
    | none ↦ define_table s k
    | some rest ↦ elim k [ none ↦ none | some _ ↦ define_table rest none ]
  ]
]

make_table : Tables → Tables
make_table none = some []
make_table (some t) = some t

load_script : Text → Tables → Option Tables
unfolding strip_prefix delete_table make_table
load_script s k = elim (strip_prefix make_line s) [
  | none ↦ delete_table s k
  | some rest ↦ delete_table rest (make_table k)
]

abbrev toy_nft : Nft Tables
toy_nft = record {
  table_exists = λ t k. some (elim k [ none ↦ false | some _ ↦ true ]);
  load = load_script;
}

abbrev as_is : Tables → Option Text
as_is k = k

listed : (k : Tables) → toy_nft.table_exists name k ≡ some true → k ≢ none
listed none h = absurd (ground arith)
listed (some s) h = some-ne-none s

load_script-delete :
    (rest : Text) (k k'' : Tables) → delete_table rest k ≡ some k'' → load_script rest k ≡ some k''
unfolding load_script delete_table
load_script-delete rest k k'' h = elim (Option-cases (strip_prefix make_line rest)) [
  | inl e ↦ ground (arith, h, e)
  | inr (r, e) ↦ absurd (ground (arith, h, e))
]

load_script-define :
    (rest : Text) (k'' : Tables)
    → define_table rest none ≡ some k''
    → load_script rest none ≡ some k''
unfolding load_script delete_table define_table
load_script-define rest k'' h = elim (Option-cases (strip_prefix make_line rest)) [
  | inl e ↦ elim (Option-cases (strip_prefix delete_line rest)) [
    | inl f ↦ ground (arith, h, e, f)
    | inr (r, f) ↦ absurd (ground (arith, h, e, f))
  ]
  | inr (r, e) ↦ absurd (ground (arith, h, e))
]

-- What a script with one of the lines in front comes to
load_script-make :
    (rest : Text) (k : Tables)
    → load_script (codes "table inet " ++ (name ++ (10 ∷ rest))) k
      ≡ delete_table rest (make_table k)
unfolding load_script strip_prefix ℕ_discrete
load_script-make rest k = refl

load_script-delete_line :
    (rest t : Text)
    → load_script (codes "delete table inet " ++ (name ++ (10 ∷ rest))) (some t)
      ≡ define_table rest none
unfolding load_script delete_table strip_prefix ℕ_discrete
load_script-delete_line rest t = refl

load_script-nothing :
    (rest : Text) → load_script (codes "delete table inet " ++ (name ++ (10 ∷ rest))) none ≡ none
unfolding load_script delete_table strip_prefix ℕ_discrete
load_script-nothing rest = refl

load_script-table :
    (x : Text)
    → load_script ((codes "table inet " ++ (name ++ codes " {")) ++ x) none
      ≡ some (some ((codes "table inet " ++ (name ++ codes " {")) ++ x))
unfolding load_script delete_table define_table strip_prefix ℕ_discrete
load_script-table x = refl

made :
    (rest : Text) (k k'' : Tables)
    → load_script (codes "table inet " ++ (name ++ (10 ∷ rest))) k ≡ some k''
    → (k' : Tables) × (k' ≢ none) × (load_script rest k' ≡ some k'')
unfolding make_table
made rest none k'' h = (
  some [],
  some-ne-none [],
  load_script-delete rest (some []) k'' (sym (load_script-make rest none) ∙ h),
)
made rest (some t) k'' h = (
  some t,
  some-ne-none t,
  load_script-delete rest (some t) k'' (sym (load_script-make rest (some t)) ∙ h),
)

deleted :
    (rest : Text) (k k'' : Tables)
    → load_script (codes "delete table inet " ++ (name ++ (10 ∷ rest))) k ≡ some k''
    → (k' : Tables) × (k' ≡ none) × (load_script rest k' ≡ some k'')
deleted rest none k'' h = absurd (none-ne-some k'' (sym (load_script-nothing rest) ∙ h))
deleted rest (some t) k'' h =
    (none, refl, load_script-define rest k'' (sym (load_script-delete_line rest t) ∙ h))

-- What a ruleset comes to, where the table is not there
load_script-render_ruleset :
    (iface : Text) (control_port : ℕ) (records : List NodeRecord) (caps : List Text)
    (grants : Option (List Grant)) (host : Option Text)
    → load_script (render_ruleset name iface control_port records caps grants host) none
      ≡ some (some (render_ruleset name iface control_port records caps grants host))
load_script-render_ruleset iface control_port records caps grants host =
    let (x, e) = render_ruleset-table name iface control_port records caps grants host in
    rw e (load_script-table x)

defined :
    (iface : Text) (control_port : ℕ) (records : List NodeRecord) (caps : List Text)
    (grants : Option (List Grant)) (host : Option Text) (k k' : Tables)
    → k ≡ none
    → load_script (render_ruleset name iface control_port records caps grants host) k ≡ some k'
    → k' ≡ some (render_ruleset name iface control_port records caps grants host)
defined iface control_port records caps grants host k k' e = rw e λ h.
    some-injective k' _
      (sym h ∙ load_script-render_ruleset iface control_port records caps grants host)

toy_nft-IsNft : IsNft toy_nft name as_is
toy_nft-IsNft = record { listed = listed; makes = made; deletes = deleted; defines = defined }

abbrev fresh : Filter
fresh = record {
  table = codes "greasewood_prod";
  iface = codes "gw-prod";
  control_port = 51902;
  local_caps = codes "role:web" ∷ [];
  local_hostname = some (codes "b");
  applied = none;
}

abbrev members : List NodeRecord
members = record_of (1 ∷ []) (codes "a") [] start 1 ∷ []

abbrev applied_once : Filter
applied_once = (apply toy_nft members none (fresh, none)).0

flushed : Life toy_nft name as_is applied_once none
flushed = Life.others none (inl refl) (Life.applies members none (Life.starts fresh none refl refl))

load_script-script :
    (x : Text)
    → load_script (script name ((codes "table inet " ++ (name ++ codes " {")) ++ x)) none
      ≡ some (some ((codes "table inet " ++ (name ++ codes " {")) ++ x))
unfolding script load_script delete_table define_table make_table strip_prefix ℕ_discrete
load_script-script x = refl

script_loads :
    (t iface : Text) (control_port : ℕ) (records : List NodeRecord) (caps : List Text)
    (grants : Option (List Grant)) (host : Option Text)
    → t ≡ name
    → load_script (script t (render_ruleset t iface control_port records caps grants host)) none
      ≢ none
script_loads t iface control_port records caps grants host e = rw e (
    let (x, f) = render_ruleset-table name iface control_port records caps grants host in
    rw (f, load_script-script x)
      (some-ne-none (some ((codes "table inet " ++ (name ++ codes " {")) ++ x))))

desired_loads :
    (f : Filter)
    → f.table ≡ name
    → load_script (script f.table (desired f members none)) none ≢ none
unfolding desired
desired_loads f =
    script_loads f.table f.iface f.control_port members f.local_caps none f.local_hostname

apply-desired_example :
    (apply toy_nft members none (applied_once, none)).1 ≡ some (desired applied_once members none)
apply-desired_example =
    apply-desired toy_nft name as_is toy_nft-IsNft members none flushed (some-ne-none false)
      (desired_loads applied_once (table-Life toy_nft name as_is toy_nft-IsNft flushed))

abbrev web_to_db : Grant
web_to_db = record {
  from = codes "web" ∷ [];
  to = codes "db" ∷ [];
  ports = codes "tcp/5432" ∷ [];
  relay = false;
}

abbrev web_a : NodeRecord
web_a = record_of (1 ∷ []) (codes "a") (codes "role:web" ∷ []) start 1

abbrev web_b : NodeRecord
web_b = record_of (2 ∷ []) (codes "b") (codes "role:web" ∷ []) start 1

swapped : (x y r : NodeRecord) → Has r (x ∷ y ∷ []) → Has r (y ∷ x ∷ [])
swapped x y r (inl e) = inr (inl e)
swapped x y r (inr (inl e)) = inl e
swapped x y r (inr (inr m)) = absurd m

either_order : SameRecords (web_a ∷ web_b ∷ []) (web_b ∷ web_a ∷ [])
either_order r = (swapped web_a web_b r, swapped web_b web_a r)

render_ruleset-same_example :
    render_ruleset
      (codes "greasewood_prod")
      (codes "gw-prod")
      51902
      (web_a ∷ web_b ∷ [])
      (codes "role:db" ∷ [])
      (some (web_to_db ∷ []))
      none
    ≡ render_ruleset
        (codes "greasewood_prod")
        (codes "gw-prod")
        51902
        (web_b ∷ web_a ∷ [])
        (codes "role:db" ∷ [])
        (some (web_to_db ∷ []))
        none
render_ruleset-same_example =
    render_ruleset-Same (codes "greasewood_prod") (codes "gw-prod") 51902 (web_a ∷ web_b ∷ [])
      (web_b ∷ web_a ∷ []) (codes "role:db" ∷ []) (some (web_to_db ∷ [])) none either_order
