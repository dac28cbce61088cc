-- ===== src/Host/Firewall.antt =====
-- firewall.py: what the advisory check reads in the JSON of `nft -j list ruleset`.
use greasewood.Base.{
  ℕ, Bool, true, false, not, ◌&&◌, ◌||◌, Option, none, some, List, [], ◌∷◌, any, keep, ◌==◌, nat_eq,
  list_eq, option_eq, if◌then◌else◌, Text, codes, starts_with, contains,
}

-- `Rule`, without the reason that is only printed
pub record Rule : Type 0 where
  pub proto : Text
  pub port : ℕ
  pub iif : Option Text

-- The right-hand side of a match: a number, a string, a set of these, or another form.
pub data Value : Type 0 where
  number : ℕ → Value
  name : Text → Value
  other : Value

pub data Right : Type 0 where
  one : Value → Right
  among : List Value → Right

-- The left-hand side: a field of a protocol, a meta key, or another form.
pub data Left : Type 0 where
  payload : Text → Text → Left
  meta : Text → Left
  elsewhere : Left

-- An expression of an nft rule: `accept`, a match with its operator, or any other.
pub data Expr : Type 0 where
  accept : Expr
  matches : Text → Left → Right → Expr
  another : Expr

pub record NftRule : Type 0 where
  pub table : Text
  pub expr : List Expr

-- A base or regular chain: its hook and its policy, where it has them.
pub record Chain : Type 0 where
  pub hook : Option Text
  pub policy : Option Text

-- An item of the ruleset.
pub data Item : Type 0 where
  chain : Chain → Item
  rule : NftRule → Item
  another_item : Item

-- `_input_chains`
unfoldable pub input_chains : List Item → List Chain
input_chains [] = []
input_chains (chain c ∷ items) =
    let rest = input_chains items in
    elim c.policy [
      | none ↦ rest
      | some _ ↦ if c.hook == some (codes "input") then c ∷ rest else rest
    ]
input_chains (_ ∷ items) = input_chains items

abbrev pub drops : Chain → Bool
drops c = c.policy == some (codes "drop") || c.policy == some (codes "reject")

-- `default_drop`
unfoldable pub default_drop : List Item → Bool
unfolding input_chains
default_drop items = any drops (input_chains items)

abbrev same_value : Value → Value → Bool
same_value (number m) (number n) = m == n
same_value (name s) (name t) = s == t
same_value _ _ = false

-- `_right_contains`
unfoldable pub right_contains : Right → Value → Bool
right_contains (one v) value = same_value v value
right_contains (among vs) value = any (λ v. same_value v value) vs

abbrev pub is_accept : Expr → Bool
is_accept accept = true
is_accept _ = false

-- What the loop of `_rule_accepts` asks of one expression: whether it is a match on the port, and
-- whether it is one on the interface.
unfoldable pub matches_port : Text → ℕ → Expr → Bool
unfolding right_contains
matches_port proto port (matches op (payload protocol field) right) =
    field == codes "dport" && protocol == proto && right_contains right (number port)
matches_port proto port _ = false

unfoldable pub matches_iif : Text → Expr → Bool
unfolding right_contains
matches_iif iif (matches op (meta key) right) =
    key == codes "iifname" && right_contains right (name iif)
matches_iif iif _ = false

-- `_rule_accepts`
unfoldable pub rule_accepts : NftRule → Rule → Bool
unfolding matches_port matches_iif
rule_accepts nft r =
    any is_accept nft.expr
    && any (matches_port r.proto r.port) nft.expr
    && elim r.iif [ none ↦ true | some iif ↦ any (matches_iif iif) nft.expr ]

abbrev pub all_rules : List Item → List NftRule
all_rules [] = []
all_rules (rule r ∷ items) = r ∷ all_rules items
all_rules (_ ∷ items) = all_rules items

-- `missing_rules`
unfoldable pub missing_rules : List Item → List Rule → List Rule
unfolding rule_accepts
missing_rules items rules =
    keep (λ r. not (any (λ nft. rule_accepts nft r) (all_rules items))) rules

-- `one` of `_iif_matches`; `fnmatch` is that of Python's library
abbrev admits_value : (Text → Text → Bool) → Text → Value → Bool
admits_value fnmatch iface (name v) = v == iface || contains v 42 && fnmatch iface v
admits_value fnmatch iface _ = false

-- `_iif_matches`
unfoldable pub iif_matches : (Text → Text → Bool) → Right → Text → Bool
iif_matches fnmatch (one v) iface = admits_value fnmatch iface v
iif_matches fnmatch (among vs) iface = any (admits_value fnmatch iface) vs

-- What the loop of `admits_iface` asks of a match with the operator `==`.
abbrev equal_iif : (Text → Text → Bool) → Text → Expr → Bool
equal_iif fnmatch iface (matches op (meta key) right) =
    op == codes "==" && key == codes "iifname" && iif_matches fnmatch right iface
equal_iif fnmatch iface _ = false

abbrev equal_dport : Expr → Bool
equal_dport (matches op (payload protocol field) right) = op == codes "==" && field == codes "dport"
equal_dport _ = false

abbrev admits_rule : (Text → Text → Bool) → Text → NftRule → Bool
admits_rule fnmatch iface r =
    not (starts_with r.table (codes "greasewood_"))
    && any is_accept r.expr
    && any (equal_iif fnmatch iface) r.expr
    && not (any equal_dport r.expr)

-- `admits_iface`
unfoldable pub admits_iface : (Text → Text → Bool) → List Item → Text → Bool
unfolding iif_matches starts_with
admits_iface fnmatch items iface = any (admits_rule fnmatch iface) (all_rules items)

-- `anchor_rules` and `node_rules`; the door's port is 51901, its interface gw-door, and the enrollment
-- listens on 51903
unfoldable pub anchor_rules : ℕ → ℕ → Text → Bool → List Rule
anchor_rules listen_port control_port mesh_iface enforce_ports =
    record { proto = codes "udp"; port = listen_port; iif = none }
    ∷ record { proto = codes "udp"; port = 51901; iif = none }
    ∷ (if enforce_ports
        then []
        else record { proto = codes "tcp"; port = control_port; iif = some mesh_iface }
          ∷ record { proto = codes "tcp"; port = 51903; iif = some (codes "gw-door") }
          ∷ [])

unfoldable pub node_rules : ℕ → List Rule
node_rules listen_port = record { proto = codes "udp"; port = listen_port; iif = none } ∷ []

-- `check`: the ruleset, none where it cannot be read; whether everything looks fine
unfoldable pub check : Option (List Item) → List Rule → Bool
unfolding default_drop missing_rules
check none rules = true
check (some items) rules =
    if not (default_drop items)
    then true
    else elim (missing_rules items rules) [ [] ↦ true | _ ∷ _ ↦ false ]
