-- ===== src/Renewal/Schedule.antt =====
-- When `RenewalLoop` of renewal.py renews: `_next_delay` and `_wait_until_due`. The two random draws and
-- the clock of each round are arguments. Durations are in microseconds, rounded down.
use greasewood.Base.{
  ℕ, ◌+◌, ◌*◌, ◌-◌, ◌/◌, ◌≤◌, ◌<◌, ◌≡◌, refl, Bool, true, false, Option, none, some, List, [], ◌∷◌,
  ◌++◌, length, ltb, leb, if◌then◌else◌, arith, inl, inr, Bool-cases,
}
use Prim.Native.Nat.{◌^◌}
use greasewood.Wire.Time.{second}
use greasewood.Wire.Credential.{Credential}

-- `_MAX_WAIT_CHUNK`
abbrev pub chunk : ℕ
chunk = 900 * second

abbrev pub max : ℕ → ℕ → ℕ
max a b = if ltb a b then b else a

-- `half`: half of the lifetime, at least 30 seconds
unfoldable pub half : Credential → ℕ
half c = max (30 * second) ((c.exp - c.iat) / 2)

-- `random.uniform(-half * 0.1, half * 0.1)`, by its sign
pub data Jitter : Type 0 where
  early late : ℕ → Jitter

-- `target`
unfoldable pub target : Credential → Jitter → ℕ
unfolding half
target c (early n) = c.iat + half c - n
target c (late n) = c.iat + half c + n

-- What one round reads: the clock, `random.uniform(1.0, 30.0)`, the jitter, and whether the wait of
-- the round is ended by the event.
pub record Round : Type 0 where
  pub now : ℕ
  pub draw : ℕ
  pub jitter : Jitter
  pub woken : Bool

-- `_next_delay`
unfoldable pub next_delay : Credential → Round → ℕ
unfolding target
next_delay c r = max r.draw (target c r.jitter - r.now)

-- `_wait_until_due`: none while the rounds end before the wait does
unfoldable pub wait_until_due : Credential → List Round → Option Bool
unfolding next_delay
wait_until_due c [] = none
wait_until_due c (r ∷ rounds) =
    let rest = wait_until_due c rounds in
    if r.woken then some true else if leb (next_delay c r) chunk then some false else rest

-- `backoff`: `min(30 * (2 ** attempt), 120)`
unfoldable pub backoff : ℕ → ℕ
backoff attempt =
    if ltb (120 * second) (30 * 2 ^ attempt * second)
    then 120 * second
    else 30 * 2 ^ attempt * second

-- The draws are within the bounds of `random.uniform`.
abbrev pub size_of : Jitter → ℕ
size_of (early n) = n
size_of (late n) = n

pub record IsDrawn (c : Credential) (r : Round) : Type 0 where
  pub at_least : second ≤ r.draw
  pub at_most : r.draw ≤ 30 * second
  pub spread : size_of r.jitter * 10 ≤ half c

-- The latest point for a renewal.
abbrev pub latest : Credential → ℕ
latest c = c.iat + half c + half c / 10

target-le : (c : Credential) (r : Round) → IsDrawn c r → target c r.jitter ≤ latest c
unfolding target
target-le c r d = on r.jitter d.spread
  where
    on : (j : Jitter) → size_of j * 10 ≤ half c → target c j ≤ latest c
    on (early n) h = omega arith
    on (late n) h = omega arith

-- A delay is at least a second. From the latest renewal point on it is at most 30 seconds. And for a
-- credential with a lifetime of at least a minute, with more than 30 seconds of it to go, the delay ends
-- before the credential does.
pub next_delay_bounds :
    (c : Credential) (r : Round)
    → IsDrawn c r
    → (second ≤ next_delay c r)
      × (latest c ≤ r.now → next_delay c r ≤ 30 * second)
      × (c.iat + 60 * second ≤ c.exp → r.now + 30 * second < c.exp → r.now + next_delay c r < c.exp)
unfolding next_delay half
next_delay_bounds c r d = (
  ground (arith, d.at_least),
  λ h. ground (arith, d.at_most, target-le c r d),
  λ long left. ground (arith, d.at_most, target-le c r d),
)

ends_now :
    (c : Credential) (r : Round)
    → IsDrawn c r
    → latest c ≤ r.now + chunk
    → leb (next_delay c r) chunk ≡ true
unfolding next_delay
ends_now c r d h = ground (arith, d.at_most, target-le c r d)

-- A round that sleeps a whole chunk leaves the next clock at least a chunk later, and its own clock is
-- not before the given time.
abbrev pub Paced : Credential → ℕ → List Round → Type 0
Paced c t [] = Unit
Paced c t (r ∷ rounds) = (t ≤ r.now) × IsDrawn c r × Paced c (r.now + chunk) rounds

-- The wait ends: with a clock that moves on by a chunk from round to round, as many rounds as there
-- are chunks up to the latest renewal point, and one at least, are enough.
pub wait_until_due_ends :
    (c : Credential) (t : ℕ) (r : Round) (rounds : List Round)
    → Paced c t (r ∷ rounds)
    → latest c ≤ t + length (r ∷ rounds) * chunk
    → (b : Bool) × (wait_until_due c (r ∷ rounds) ≡ some b)
unfolding wait_until_due
wait_until_due_ends c t r [] (le, d, more) enough = elim (Bool-cases r.woken) [
  | inl w ↦ (true, rw w refl)
  | inr s ↦ (false, rw (s, ends_now c r d (omega arith)) refl)
]
wait_until_due_ends c t r (q ∷ rounds) (le, d, more) enough = elim (Bool-cases r.woken) [
  | inl w ↦ (true, rw w refl)
  | inr s ↦ elim (Bool-cases (leb (next_delay c r) chunk)) [
    | inl e ↦ (false, rw (s, e) refl)
    | inr f ↦
        let (b, e) = wait_until_due_ends c (r.now + chunk) q rounds more (grind arith) in
        (b, rw (s, f) e)
  ]
]

-- Whatever the clock read before, months ago or ahead: the first round that reads it less than a chunk
-- before the latest renewal point, or after it, ends the wait.
pub wait_until_due_step :
    (c : Credential) (before after : List Round) (r : Round)
    → IsDrawn c r
    → latest c ≤ r.now + chunk
    → (b : Bool) × (wait_until_due c (before ++ (r ∷ after)) ≡ some b)
unfolding wait_until_due
wait_until_due_step c [] after r d h = elim (Bool-cases r.woken) [
  | inl w ↦ (true, rw w refl)
  | inr s ↦ (false, rw (s, ends_now c r d h) refl)
]
wait_until_due_step c (q ∷ before) after r d h =
    let (b, e) = wait_until_due_step c before after r d h in
    elim (Bool-cases q.woken) [
      | inl w ↦ (true, rw w refl)
      | inr s ↦ elim (Bool-cases (leb (next_delay c q) chunk)) [
        | inl t ↦ (false, rw (s, t) refl)
        | inr f ↦ (b, rw (s, f) e)
      ]
    ]
