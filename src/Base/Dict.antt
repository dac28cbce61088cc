-- ===== src/Base/Dict.antt =====
-- Python's dicts, in insertion order. Clients go by the laws; only tests unfold the operations.
use greasewood.Base.{
  ◌≡◌, refl, Option, none, some, List, [], ◌∷◌, arith, Eq, ◌==◌, if◌then◌else◌, contains, Has, inl,
  inr, map, ap,
}

abbrev pub Dict {ℓ κ} : Type ℓ → Type κ → Type (ℓ ⊔ κ)
Dict K V = List (K × V)

-- `d.keys()` and `d.values()`
unfoldable pub keys {ℓ κ} : {K : Type ℓ} {V : Type κ} → Dict K V → List K
keys = map (λ (k, _). k)

unfoldable pub values {ℓ κ} : {K : Type ℓ} {V : Type κ} → Dict K V → List V
values = map (λ (_, v). v)

module _ {ℓ κ} {K : Type ℓ} {V : Type κ} ⦃e : Eq K⦄ where
  -- `d.get(k)`
  unfoldable pub lookup : K → Dict K V → Option V
  lookup k [] = none
  lookup k ((j, v) ∷ d) = if k == j then some v else lookup k d

  -- `d[k] = v`
  unfoldable pub insert : K → V → Dict K V → Dict K V
  insert k v [] = (k, v) ∷ []
  insert k v ((j, w) ∷ d) = if k == j then (k, v) ∷ d else (j, w) ∷ insert k v d

  -- `d.pop(k, None)`
  unfoldable pub erase : K → Dict K V → Dict K V
  erase k [] = []
  erase k ((j, w) ∷ d) = let rest = erase k d in if k == j then rest else (j, w) ∷ rest

  -- `for k in ks: del d[k]`
  unfoldable pub erase_all : List K → Dict K V → Dict K V
  erase_all [] d = d
  erase_all (k ∷ ks) d = erase_all ks (erase k d)

  abbrev pub NodupKeys : Dict K V → Type κ
  NodupKeys [] = Unit
  NodupKeys ((k, _) ∷ d) = (lookup k d ≡ none) × NodupKeys d

  pub lookup-nil : (k : K) → lookup k [] ≡ none
  unfolding lookup
  lookup-nil k = refl

  pub lookup-cons :
      (j k : K) (v : V) (d : Dict K V)
      → lookup j ((k, v) ∷ d) ≡ (if j == k then some v else lookup j d)
  unfolding lookup
  lookup-cons j k v d = refl

  pub lookup-insert :
      (j k : K) (v : V) (d : Dict K V)
      → lookup j (insert k v d) ≡ (if j == k then some v else lookup j d)
  unfolding insert lookup
  lookup-insert j k v [] = refl
  lookup-insert j k v ((i, w) ∷ d) = ground (arith, lookup-insert j k v d)

  pub lookup-erase :
      (j k : K) (d : Dict K V) → lookup j (erase k d) ≡ (if j == k then none else lookup j d)
  unfolding erase lookup
  lookup-erase j k [] = ground arith
  lookup-erase j k ((i, w) ∷ d) = ground (arith, lookup-erase j k d)

  pub lookup-erase_all :
      (ks : List K) (j : K) (d : Dict K V)
      → lookup j (erase_all ks d) ≡ (if contains ks j then none else lookup j d)
  unfolding erase_all
  lookup-erase_all [] j d = refl
  lookup-erase_all (k ∷ ks) j d =
      ground (arith, lookup-erase_all ks j (erase k d), lookup-erase j k d)

  pub insert-NodupKeys : (k : K) (v : V) (d : Dict K V) → NodupKeys d → NodupKeys (insert k v d)
  unfolding insert
  insert-NodupKeys k v [] _ = (lookup-nil k, tt)
  insert-NodupKeys k v ((j, _) ∷ d) (fresh, u) =
      ground (arith, insert-NodupKeys k v d u, lookup-insert j k v d)

  pub erase-NodupKeys : (k : K) (d : Dict K V) → NodupKeys d → NodupKeys (erase k d)
  unfolding erase
  erase-NodupKeys k [] _ = tt
  erase-NodupKeys k ((j, _) ∷ d) (fresh, u) =
      ground (arith, erase-NodupKeys k d u, lookup-erase j k d)

  pub erase_all-NodupKeys : (ks : List K) (d : Dict K V) → NodupKeys d → NodupKeys (erase_all ks d)
  unfolding erase_all
  erase_all-NodupKeys [] d u = u
  erase_all-NodupKeys (k ∷ ks) d u = erase_all-NodupKeys ks (erase k d) (erase-NodupKeys k d u)

module _ {K V : Type 0} ⦃e : Eq K⦄ where
  -- What is found under a key stands in the dict.
  pub Has-lookup : (k : K) (v : V) (d : Dict K V) → lookup k d ≡ some v → Has (k, v) d
  unfolding lookup
  Has-lookup k v [] h = absurd (ground arith)
  Has-lookup k v ((j, w) ∷ d) h = ground (arith, Has-lookup k v d)

  -- With no key listed twice, what stands in the dict is found under its key.
  pub lookup-Has : (k : K) (v : V) (d : Dict K V) → NodupKeys d → Has (k, v) d → lookup k d ≡ some v
  unfolding lookup
  lookup-Has k v [] u m = absurd m
  lookup-Has k v ((j, w) ∷ d) (fresh, u) (inl p) = ground arith
  lookup-Has k v ((j, w) ∷ d) (fresh, u) (inr m) = ground (arith, lookup-Has k v d u m)

  pub Has-values : (k : K) (v : V) (d : Dict K V) → Has (k, v) d → Has v (values d)
  unfolding values
  Has-values k v [] m = absurd m
  Has-values k v ((j, w) ∷ d) (inl p) = ground arith
  Has-values k v ((j, w) ∷ d) (inr m) = inr (Has-values k v d m)

  pub values-Has : (v : V) (d : Dict K V) → Has v (values d) → (k : K) × Has (k, v) d
  unfolding values
  values-Has v [] m = absurd m
  values-Has v ((j, w) ∷ d) (inl p) = (j, inl (ap (λ x. (j, x)) p))
  values-Has v ((j, w) ∷ d) (inr m) = let (k, h) = values-Has v d m in (k, inr h)
