-- ===== src/PortFilter/Keeping.antt =====
-- The node keeps its ruleset in the kernel, whatever else happens to the tables there.
use greasewood.PortFilter.Render.{render_ruleset}
use greasewood.Base.{
  ℕ, ap, codes, ◌∷◌, ◌++◌, true, false, ◌&&◌, Option, none, some, List, ◌==◌, list_eq, nat_eq,
  option_eq, ◌≡◌, ◌≢◌, ◌⊎◌, inl, inr, sym, ◌∙◌, Text, arith, Bool-cases, Option-cases, ==_iff,
}
use greasewood.Wire.Grants.{Grant}
use greasewood.Wire.Record.{NodeRecord}
use greasewood.PortFilter.Filter.{
  Filter, Nft, set_local_caps, desired, script, installed, apply_wanted, apply,
}

-- What nft(8) documents of a table T, whose text in the kernel is `text`. The commands of a script are
-- carried out in their order: the name of a table by itself makes it, unless it is there; `delete table`
-- removes it; and the definition of a table that is not there makes it with that definition. Nothing is
-- said of a definition that is loaded while the table is there, to which nft would add it.
pub record IsNft {K : Type 0} (nft : Nft K) (T : Text) (text : K → Option Text) : Type 0 where
  pub listed : (k : K) → nft.table_exists T k ≡ some true → text k ≢ none
  pub makes :
      (rest : Text) (k k'' : K)
      → nft.load (codes "table inet " ++ (T ++ (10 ∷ rest))) k ≡ some k''
      → (k' : K) × (text k' ≢ none) × (nft.load rest k' ≡ some k'')
  pub deletes :
      (rest : Text) (k k'' : K)
      → nft.load (codes "delete table inet " ++ (T ++ (10 ∷ rest))) k ≡ some k''
      → (k' : K) × (text k' ≡ none) × (nft.load rest k' ≡ some k'')
  pub defines :
      (iface : Text) (control_port : ℕ) (records : List NodeRecord) (caps : List Text)
      (grants : Option (List Grant)) (name : Option Text) (k k' : K)
      → text k ≡ none
      → nft.load (render_ruleset T iface control_port records caps grants name) k ≡ some k'
      → text k' ≡ some (render_ruleset T iface control_port records caps grants name)

module _ {K : Type 0} (nft : Nft K) (T : Text) (text : K → Option Text) where
  -- The life of the filter of table T: it starts with nothing applied; its caps are set anew; it is
  -- applied, under any records and policy; and others change the kernel, where they remove its table or
  -- let it stand.
  pub data Life : Filter → K → Type 0 where
    starts : (f : Filter) (k : K) → f.table ≡ T → f.applied ≡ none → Life f k
    recaps : {f : Filter} {k : K} (caps : List Text) → Life f k → Life (set_local_caps caps f) k
    applies :
        {f : Filter} {k : K} (records : List NodeRecord) (grants : Option (List Grant))
        → Life f k
        → Life (apply nft records grants (f, k)).0 (apply nft records grants (f, k)).1
    others :
        {f : Filter} {k : K} (k' : K) → (text k' ≡ none) ⊎ (text k' ≡ text k) → Life f k → Life f k'

  -- What was applied last is what the table holds, if it is there.
  abbrev Holds : Filter × K → Type 0
  Holds (f, k) =
      (f.table ≡ T)
      × ((wanted : Text) → f.applied ≡ some wanted → (text k ≡ none) ⊎ (text k ≡ some wanted))

  -- What `apply` comes to, when `wanted` is the ruleset: there is nothing to do; nft refuses; it is loaded.
  abbrev Kept : Text → Filter → K → Filter × K → Type 0
  Kept wanted f k s = (s ≡ (f, k)) × (f.applied ≡ some wanted) × (installed nft f.table k ≡ true)

  abbrev Refused : Text → Filter → K → Filter × K → Type 0
  Refused wanted f k s = (s ≡ (f, k)) × (nft.load (script f.table wanted) k ≡ none)

  abbrev Loaded : Text → Filter → K → Filter × K → Type 0
  Loaded wanted f k s =
      (k' : K) × (nft.load (script f.table wanted) k ≡ some k')
      × (s ≡ (record f { applied = some wanted }, k'))

  apply_wanted-load :
      (wanted : Text) (f : Filter) (k : K)
      → (some wanted == f.applied && installed nft f.table k) ≡ false
      → Refused wanted f k (apply_wanted nft wanted (f, k))
        ⊎ Loaded wanted f k (apply_wanted nft wanted (f, k))
  unfolding apply_wanted
  apply_wanted-load wanted f k e = elim (Option-cases (nft.load (script f.table wanted) k)) [
    | inl n ↦ inl (ground (arith, e, n), n)
    | inr (k', y) ↦ inr (k', y, ground (arith, e, y))
  ]

  apply_wanted-cases :
      (wanted : Text) (f : Filter) (k : K)
      → Kept wanted f k (apply_wanted nft wanted (f, k))
        ⊎ (Refused wanted f k (apply_wanted nft wanted (f, k))
            ⊎ Loaded wanted f k (apply_wanted nft wanted (f, k)))
  unfolding apply_wanted
  apply_wanted-cases wanted f k =
      elim (Bool-cases (some wanted == f.applied && installed nft f.table k)) [
        | inl t ↦ inl (
          ground (arith, t),
          sym ((==_iff (some wanted) f.applied).0 (ground (arith, t))),
          ground (arith, t),
        )
        | inr e ↦ inr (apply_wanted-load wanted f k e)
      ]

  is_listed :
      (t : Text) (k : K)
      → nft.table_exists t k ≢ none
      → installed nft t k ≡ true
      → nft.table_exists t k ≡ some true
  unfolding installed
  is_listed t k answers there = elim (Option-cases (nft.table_exists t k)) [
    | inl e ↦ absurd (answers e)
    | inr (b, e) ↦ ground (arith, e, there)
  ]

  apply-cases :
      (f : Filter) (k : K) (records : List NodeRecord) (grants : Option (List Grant))
      → Kept (desired f records grants) f k (apply nft records grants (f, k))
        ⊎ (Refused (desired f records grants) f k (apply nft records grants (f, k))
            ⊎ Loaded (desired f records grants) f k (apply nft records grants (f, k)))
  unfolding apply
  apply-cases f k records grants = apply_wanted-cases (desired f records grants) f k

  module _ (lawful : IsNft nft T text) where
    replaced_at :
        (t iface : Text) (control_port : ℕ) (records : List NodeRecord) (caps : List Text)
        (grants : Option (List Grant)) (name : Option Text) (k k' : K)
        → t ≡ T
        → nft.load (script t (render_ruleset t iface control_port records caps grants name)) k
          ≡ some k'
        → text k' ≡ some (render_ruleset t iface control_port records caps grants name)
    unfolding script
    replaced_at t iface control_port records caps grants name k k' e = rw e λ h.
        let (k1, _, h1) = lawful.makes _ k k' h in
        let (k2, gone, h2) = lawful.deletes _ k1 k' h1 in
        lawful.defines iface control_port records caps grants name k2 k' gone h2

    replaced :
        (f : Filter) (records : List NodeRecord) (grants : Option (List Grant)) (k k' : K)
        → f.table ≡ T
        → nft.load (script f.table (desired f records grants)) k ≡ some k'
        → text k' ≡ some (desired f records grants)
    unfolding desired
    replaced f records grants k k' =
        replaced_at f.table f.iface f.control_port records f.local_caps grants f.local_hostname k k'

    apply-Holds :
        (f : Filter) (k : K) (records : List NodeRecord) (grants : Option (List Grant))
        → Holds (f, k)
        → Holds (apply nft records grants (f, k))
    apply-Holds f k records grants (named, held) = elim (apply-cases f k records grants) [
      | inl (e, _, _) ↦ rw e (named, held)
      | inr (inl (e, _)) ↦ rw e (named, held)
      | inr (inr (k', y, e)) ↦
          rw e (named, λ wanted h. inr (replaced f records grants k k' named y ∙ h))
    ]

    Life-Holds : {f : Filter} {k : K} → Life f k → Holds (f, k)
    unfolding set_local_caps
    Life-Holds (starts f k n e) = (n, λ wanted h. absurd (ground arith))
    Life-Holds (recaps {f} {k} caps life) = Life-Holds life
    Life-Holds (applies {f} {k} records grants life) =
        apply-Holds f k records grants (Life-Holds life)
    Life-Holds (others {f} {k} k' (inl gone) life) = ((Life-Holds life).0, λ wanted h. inl gone)
    Life-Holds (others {f} {k} k' (inr same) life) = (
      (Life-Holds life).0,
      λ wanted h. elim ((Life-Holds life).1 wanted h) [
        | inl e ↦ inl (same ∙ e)
        | inr e ↦ inr (same ∙ e)
      ],
    )

    pub table-Life : {f : Filter} {k : K} → Life f k → f.table ≡ T
    table-Life life = (Life-Holds life).0

    -- After any life, in which others remove the filter's table or let it stand, and when nft answers
    -- whether the table is there and takes the script: once the filter is applied, the kernel's table
    -- holds the ruleset of the current records, policy and caps. A table that was flushed is put back, and
    -- an older ruleset is replaced.
    pub apply-desired :
        {f : Filter} {k : K} (records : List NodeRecord) (grants : Option (List Grant))
        → Life f k
        → nft.table_exists f.table k ≢ none
        → nft.load (script f.table (desired f records grants)) k ≢ none
        → text (apply nft records grants (f, k)).1 ≡ some (desired f records grants)
    apply-desired {f} {k} records grants life answers loads =
        let (named, held) = Life-Holds life in
        elim (apply-cases f k records grants) [
          | inl (e, last, there) ↦ rw e (elim (held (desired f records grants) last) [
            | inl gone ↦
                let listed = is_listed f.table k answers there in
                absurd (lawful.listed k (ap (λ t. nft.table_exists t k) (sym named) ∙ listed) gone)
            | inr there' ↦ there'
          ])
          | inr (inl (_, n)) ↦ absurd (loads n)
          | inr (inr (k', y, e)) ↦ rw e (replaced f records grants k k' named y)
        ]
