-- ===== src/Host/Checks.antt =====
-- What the answers of firewall.py say of the ruleset.
use greasewood.Base.{
  ℕ, ◌≡◌, ◌↔◌, refl, Bool, true, false, not, some, List, [], ◌∷◌, map, any, keep, nat_eq, list_eq,
  option_eq, arith, Text, Has, Has-any, any-Has, Bool-cases, Option-cases, inl, inr, ◌⊎◌,
}
use greasewood.Host.Firewall.{
  Rule, Expr, accept, matches, another, payload, meta, elsewhere, NftRule, Chain, Item,
  input_chains, drops, default_drop, is_accept, matches_port, matches_iif, rule_accepts, all_rules,
  missing_rules, check,
}

keep-not_nil :
    (p : Rule → Bool) (rules : List Rule)
    → (keep (λ r. not (p r)) rules ≡ []) ↔ ((r : Rule) → Has r rules → p r ≡ true)
keep-not_nil p [] = (λ h r m. absurd m, λ h. refl)
keep-not_nil p (r ∷ rules) = elim (Bool-cases (p r)) [
  | inr f ↦ (λ h. absurd (ground arith), λ h. absurd (ground (arith, h r (inl refl))))
  | inl t ↦
      let ih = keep-not_nil p rules in
      (
        λ h r' m. on (λ e. rw⁻¹ e t) (ih.0 (ground arith) r') m,
        λ h. let rest = ih.1 (λ r' m. h r' (inr m)) in ground arith,
      )
]
  where
    on :
        {r' : Rule}
        → (r ≡ r' → p r' ≡ true)
        → (Has r' rules → p r' ≡ true)
        → (r ≡ r') ⊎ Has r' rules
        → p r' ≡ true
    on f g (inl e) = f e
    on f g (inr m) = g m

any-map :
    (p : Expr → Bool) (f : Expr → Expr) (l : List Expr)
    → ((e : Expr) → p (f e) ≡ p e)
    → any p (map f l) ≡ any p l
any-map p f [] h = refl
any-map p f (e ∷ l) h = rw (h e, any-map p f l h) refl

any-false :
    {A : Type 0} (p : A → Bool) (xs : List A)
    → (any p xs ≡ false) ↔ ((a : A) → Has a xs → p a ≡ false)
any-false p xs = (
  λ h a m. elim (Bool-cases (p a)) [
    | inr f ↦ f
    | inl t ↦ absurd (ground (arith, any-Has p xs a m t))
  ],
  λ h. elim (Bool-cases (any p xs)) [
    | inr f ↦ f
    | inl t ↦ let (a, m, e) = Has-any p xs t in absurd (ground (arith, h a m))
  ],
)

check_cases :
    (items : List Item) (rules : List Rule)
    → (check (some items) rules ≡ true)
      ↔ ((default_drop items ≡ false) ⊎ (missing_rules items rules ≡ []))
unfolding check
check_cases items rules = elim (Bool-cases (default_drop items)) [
  | inr f ↦ (λ h. inl f, λ h. rw f refl)
  | inl t ↦ rw t (on (missing_rules items rules))
]
  where
    on :
        (m : List Rule)
        → ((elim m as (λ _. Bool) [ [] ↦ true | _ ∷ _ ↦ false ]) ≡ true)
          ↔ ((true ≡ false) ⊎ (m ≡ []))
    on [] = (λ h. inr refl, λ h. refl)
    on (r ∷ m) = (λ h. cc, λ h. elim h [ inl e ↦ cc | inr e ↦ cc ])

missing_rules-nil :
    (items : List Item) (rules : List Rule)
    → (missing_rules items rules ≡ []) ↔ (
        (r : Rule)
        → Has r rules
        → (nft : NftRule) × Has nft (all_rules items) × (rule_accepts nft r ≡ true))
unfolding missing_rules
missing_rules-nil items rules =
    let accepted = λ (r : Rule). any (λ nft. rule_accepts nft r) (all_rules items) in
    let e = keep-not_nil accepted rules in
    (
      λ h r m. Has-any (λ nft. rule_accepts nft r) (all_rules items) (e.0 h r m),
      λ h. e.1 (λ r m.
          let (nft, n, t) = h r m in
          any-Has (λ nft'. rule_accepts nft' r) (all_rules items) nft n t),
    )

-- The operator of every match replaced.
abbrev pub with_op : Text → Expr → Expr
with_op op accept = accept
with_op op (matches _ left right) = matches op left right
with_op op another = another

-- The advice is exact: with a ruleset that can be read, `check` says that everything looks fine exactly
-- if no input chain drops by its policy, or every rule that is wanted has an nft rule that accepts it.
pub check_iff :
    (items : List Item) (rules : List Rule)
    → (check (some items) rules ≡ true) ↔ (
        ((c : Chain) → Has c (input_chains items) → drops c ≡ false)
        ⊎ ((r : Rule)
            → Has r rules
            → (nft : NftRule) × Has nft (all_rules items) × (rule_accepts nft r ≡ true)))
unfolding default_drop
check_iff items rules =
    let c = check_cases items rules in
    let d = any-false drops (input_chains items) in
    let m = missing_rules-nil items rules in
    (
      λ h. elim (c.0 h) [ inl e ↦ inl (d.0 e) | inr e ↦ inr (m.0 e) ],
      λ h. c.1 (elim h [ inl f ↦ inl (d.1 f) | inr f ↦ inr (m.1 f) ]),
    )

accept_kept : (op : Text) (e : Expr) → is_accept (with_op op e) ≡ is_accept e
accept_kept op accept = refl
accept_kept op (matches o l r) = refl
accept_kept op another = refl

port_kept :
    (op proto : Text) (port : ℕ) (e : Expr)
    → matches_port proto port (with_op op e) ≡ matches_port proto port e
unfolding matches_port
port_kept op proto port accept = refl
port_kept op proto port (matches o (payload p f) r) = refl
port_kept op proto port (matches o (meta k) r) = refl
port_kept op proto port (matches o elsewhere r) = refl
port_kept op proto port another = refl

iif_kept : (op iif : Text) (e : Expr) → matches_iif iif (with_op op e) ≡ matches_iif iif e
unfolding matches_iif
iif_kept op iif accept = refl
iif_kept op iif (matches o (payload p f) r) = refl
iif_kept op iif (matches o (meta k) r) = refl
iif_kept op iif (matches o elsewhere r) = refl
iif_kept op iif another = refl

-- The check of a port does not read the operators of an nft rule: with any other operator in place of
-- those of its matches, `!=` for `==` or `==` for `!=`, `_rule_accepts` gives the same answer.
pub rule_accepts-with_op :
    (op : Text) (nft : NftRule) (r : Rule)
    → rule_accepts (record nft { expr = map (with_op op) nft.expr }) r ≡ rule_accepts nft r
unfolding rule_accepts
rule_accepts-with_op op nft r =
    rw
      (
        any-map is_accept (with_op op) nft.expr (accept_kept op),
        any-map (matches_port r.proto r.port) (with_op op) nft.expr (port_kept op r.proto r.port),
      )
      (elim (Option-cases r.iif) [
        | inl n ↦ rw n refl
        | inr (iif, n) ↦
            rw (n, any-map (matches_iif iif) (with_op op) nft.expr (iif_kept op iif)) refl
      ])
