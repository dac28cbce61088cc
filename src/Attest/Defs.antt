-- ===== src/Attest/Defs.antt =====
-- `AttestLog` of attest.py, its methods in the order of the source.
use greasewood.Base.{
  ℕ, ◌+◌, ◌*◌, Bool, not, ◌||◌, none, some, List, [], ◌∷◌, ◌++◌, length, ltb, ◌==◌, list_eq, nat_eq,
  pair_eq, if◌then◌else◌, Text, hex,
}
use greasewood.Base.Dict
use greasewood.Base.Dict.{Dict}
use greasewood.Errors.{returned}
use greasewood.Wire.Time.{second}
use greasewood.Wire.Crypto.{Crypto}
use greasewood.Wire.Requests.{EndpointAttestation, verify_attestation}

-- `MAX_AGE`, and how far ahead of the clock an attestation may be dated
abbrev pub max_age : ℕ
max_age = 30 * 60 * second

abbrev pub ahead : ℕ
ahead = 5 * 60 * second

-- `_by_pair`: from (attester, subject), both in hex, to the newest attestation
abbrev pub AttestLog : Type 0
AttestLog = Dict (Text × Text) EndpointAttestation

abbrev pub pair_of : EndpointAttestation → Text × Text
pair_of a = (hex a.attester, hex a.subject)

-- `now - a.ts > MAX_AGE`
unfoldable pub is_stale : ℕ → EndpointAttestation → Bool
is_stale now a = ltb (a.ts + max_age) now

module _ ⦃C : Crypto⦄ (known_attester : Text → Bool) where
  -- The body of the loop of `merge`, with the count of accepted attestations.
  unfoldable pub merge_one : ℕ → EndpointAttestation → AttestLog → ℕ → AttestLog × ℕ
  unfolding is_stale
  merge_one now a log accepted =
      if not (returned (verify_attestation a))
      then (log, accepted)
      else if is_stale now a || ltb (now + ahead) a.ts
      then (log, accepted)
      else if not (known_attester (hex a.attester))
      then (log, accepted)
      else elim (Dict.lookup (pair_of a) log) [
        | none ↦ (Dict.insert (pair_of a) a log, accepted + 1)
        | some existing ↦
            if ltb existing.ts a.ts
            then (Dict.insert (pair_of a) a log, accepted + 1)
            else (log, accepted)
      ]

  unfoldable pub merge_from : ℕ → List EndpointAttestation → AttestLog → ℕ → AttestLog × ℕ
  unfolding merge_one
  merge_from now [] log accepted = (log, accepted)
  merge_from now (a ∷ rest) log accepted =
      let (log', n) = merge_one now a log accepted in merge_from now rest log' n

  -- `merge`
  unfoldable pub merge : ℕ → List EndpointAttestation → AttestLog → AttestLog × ℕ
  unfolding merge_from
  merge now attestations log = merge_from now attestations log 0

-- The keys that `prune` collects, and `prune`.
unfoldable pub old_pairs : ℕ → AttestLog → List (Text × Text)
unfolding is_stale
old_pairs now [] = []
old_pairs now ((k, a) ∷ log) =
    let rest = old_pairs now log in if is_stale now a then k ∷ rest else rest

unfoldable pub prune : ℕ → AttestLog → AttestLog × ℕ
unfolding old_pairs
prune now log = let stale = old_pairs now log in (Dict.erase_all stale log, length stale)

-- `out.setdefault(endpoint, []).append(att)`
unfoldable pub confirm : Text → Text → Dict Text (List Text) → Dict Text (List Text)
confirm endpoint attester out =
    Dict.insert endpoint
      (elim (Dict.lookup endpoint out) [ none ↦ attester ∷ [] | some l ↦ l ++ attester ∷ [] ]) out

confirm_all : ℕ → Text → AttestLog → Dict Text (List Text) → Dict Text (List Text)
unfolding confirm is_stale
confirm_all now subject [] out = out
confirm_all now subject (((attester, about), a) ∷ log) out =
    confirm_all now subject log
      (if not (about == subject) || is_stale now a then out else confirm a.endpoint attester out)

-- `confirmations_for`
unfoldable pub confirmations_for : ℕ → Text → AttestLog → Dict Text (List Text)
unfolding confirm_all
confirmations_for now subject log = confirm_all now subject log []

-- `all`, `size`
unfoldable pub all_attestations : AttestLog → List EndpointAttestation
all_attestations log = Dict.values log

unfoldable pub size : AttestLog → ℕ
size log = length log
