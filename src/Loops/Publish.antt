-- ===== src/Loops/Publish.antt =====
-- `ReconcileLoop._maybe_publish_reachable` of reconcile.py: the set of live links is published when it
-- changes, but not more often than the interval allows, by a loop that has the callback. Times are those of the monotonic clock.
use Prim.Native.Nat.{◌-◌}
use greasewood.Base.{
  ℕ, ◌+◌, ◌≤◌, ◌≡◌, refl, ap, Bool, true, false, Option, none, some, List, [], ◌∷◌, ltb, ◌==◌,
  nat_eq, list_eq, option_eq, if◌then◌else◌, arith, Text, Bool-cases, Option-cases, ◌⊎◌, inl, inr,
}

-- `_last_reachable` and `_last_reachable_pub`
pub record Publisher : Type 0 where
  pub last : Option (List Text)
  pub last_pub : ℕ

-- What a pass of the reconciler brings: the clock, the links that are live, and whether the publication
-- succeeds.
pub record Pass : Type 0 where
  pub now : ℕ
  pub reachable : List Text
  pub publishes : Bool

abbrev too_soon : ℕ → ℕ → Publisher → Bool
too_soon interval now s = elim s.last [ none ↦ false | some _ ↦ ltb (now - s.last_pub) interval ]

-- `_maybe_publish_reachable`, with what it publishes: none where it does not call, or the call fails.
unfoldable pub maybe_publish : ℕ → Pass → Publisher → Publisher × Option (List Text)
maybe_publish interval p s =
    if some p.reachable == s.last
    then (s, none)
    else if too_soon interval p.now s
    then (s, none)
    else if p.publishes
    then (record { last = some p.reachable; last_pub = p.now }, some p.reachable)
    else (s, none)

-- The set that was sent, with its time, before those that follow
unfoldable pub add_sent : ℕ → Option (List Text) → List (ℕ × List Text) → List (ℕ × List Text)
add_sent now none rest = rest
add_sent now (some reachable) rest = (now, reachable) ∷ rest

-- The publications of a run of passes, each with its time.
unfoldable pub publications : ℕ → List Pass → Publisher → List (ℕ × List Text)
unfolding maybe_publish add_sent
publications interval [] s = []
publications interval (p ∷ ps) s =
    let (s', sent) = maybe_publish interval p s in
    let rest = publications interval ps s' in add_sent p.now sent rest

-- A clock that does not go back, from a time on.
abbrev pub Forward : ℕ → List Pass → Type 0
Forward t [] = Unit
Forward t (p ∷ ps) = (t ≤ p.now) × Forward p.now ps

-- Each publication is at least the interval behind the one before, and brings another set than it.
abbrev pub Spaced : ℕ → ℕ → List Text → List (ℕ × List Text) → Type 0
Spaced interval t last [] = Unit
Spaced interval t last ((u, set) ∷ more) =
    (t + interval ≤ u) × ((set == last) ≡ false) × Spaced interval u set more

Forward-le : (t u : ℕ) (ps : List Pass) → t ≤ u → Forward u ps → Forward t ps
Forward-le t u [] h f = tt
Forward-le t u (p ∷ ps) h f = (omega arith, f.1)

-- A pass publishes nothing and changes nothing, or it publishes its own set, an interval after the last
-- publication at least.
abbrev Quiet : ℕ → Pass → Publisher → Type 0
Quiet interval p s = maybe_publish interval p s ≡ (s, none)

abbrev Sends : ℕ → Pass → Publisher → List Text → Type 0
Sends interval p s last =
    (maybe_publish interval p s
      ≡ (record { last = some p.reachable; last_pub = p.now }, some p.reachable))
    × (s.last_pub + interval ≤ p.now)
    × ((p.reachable == last) ≡ false)

maybe_publish-cases :
    (interval : ℕ) (p : Pass) (s : Publisher) (l : List Text)
    → s.last ≡ some l
    → s.last_pub ≤ p.now
    → Quiet interval p s ⊎ Sends interval p s l
unfolding maybe_publish
maybe_publish-cases interval p s l e h = elim (Bool-cases (some p.reachable == s.last)) [
  | inl t ↦ inl (ground arith)
  | inr f ↦ elim (Bool-cases (too_soon interval p.now s)) [
    | inl t ↦ inl (ground arith)
    | inr g ↦ elim (Bool-cases p.publishes) [
      | inr n ↦ inl (ground arith)
      | inl t ↦ inr (ground arith, ground arith, ground arith)
    ]
  ]
]

publications-Quiet :
    (interval : ℕ) (p : Pass) (ps : List Pass) (s : Publisher)
    → Quiet interval p s
    → publications interval (p ∷ ps) s ≡ publications interval ps s
unfolding publications add_sent
publications-Quiet interval p ps s e =
    ap (λ (r : Publisher × Option (List Text)). add_sent p.now r.1 (publications interval ps r.0)) e

publications-sent :
    (interval : ℕ) (p : Pass) (ps : List Pass) (s s' : Publisher) (set : List Text)
    → maybe_publish interval p s ≡ (s', some set)
    → publications interval (p ∷ ps) s ≡ (p.now, set) ∷ publications interval ps s'
unfolding publications add_sent
publications-sent interval p ps s s' set e =
    ap (λ (r : Publisher × Option (List Text)). add_sent p.now r.1 (publications interval ps r.0)) e

-- A link that flaps cannot flood the directory: over any run of passes under a clock that does not go
-- back, after a first publication, whatever `_maybe_publish_reachable` publishes comes at least the
-- interval after the publication before, and is another set of links than that one.
pub publications-Spaced :
    (interval : ℕ) (ps : List Pass) (s : Publisher) (l : List Text)
    → s.last ≡ some l
    → Forward s.last_pub ps
    → Spaced interval s.last_pub l (publications interval ps s)
unfolding publications
publications-Spaced interval [] s l e f = tt
publications-Spaced interval (p ∷ ps) s l e f = elim (maybe_publish-cases interval p s l e f.0) [
  | inl quiet ↦
      rw (publications-Quiet interval p ps s quiet)
        (publications-Spaced interval ps s l e (Forward-le s.last_pub p.now ps f.0 f.1))
  | inr (sent, late, differs) ↦
      let next : Publisher = record { last = some p.reachable; last_pub = p.now } in
      rw (publications-sent interval p ps s next p.reachable sent)
        (late, differs, publications-Spaced interval ps next p.reachable refl f.1)
]

-- And no change is lost: a pass that comes an interval after the last publication, and that can
-- publish, leaves the live links of the pass published.
pub maybe_publish-last :
    (interval : ℕ) (p : Pass) (s : Publisher)
    → s.last_pub + interval ≤ p.now
    → p.publishes ≡ true
    → (maybe_publish interval p s).0.last ≡ some p.reachable
unfolding maybe_publish
maybe_publish-last interval p s h t = elim (Option-cases s.last) [
  | inl e ↦ ground arith
  | inr (l, e) ↦ ground arith
]
