-- ===== src/Server/Guard.antt =====
-- `_ReplayGuard` of server.py: the nonces of accepted requests, each with the time until which it
-- counts as used. The lock of the class makes `check_and_add` one step.
use greasewood.Base.{
  ℕ, ◌+◌, ◌*◌, ◌≤◌, ◌<◌, ◌≡◌, Bool, true, false, Option, none, some, [], ◌∷◌, length, ltb, leb,
  list_eq, nat_eq, if◌then◌else◌, arith, Text,
}
use greasewood.Base.Dict
use greasewood.Base.Dict.{Dict}
use greasewood.Wire.Time.{second}

-- `_seen`: from nonce to expiry
abbrev pub Seen : Type 0
Seen = Dict Text ℕ

-- `window` by default, `_SOFT` and `_HARD`
abbrev pub window : ℕ
window = 600 * second

abbrev pub soft : ℕ
soft = 4096

abbrev pub hard : ℕ
hard = 16384

-- `{n: e for n, e in self._seen.items() if e > now}`
unfoldable pub evict : ℕ → Seen → Seen
evict now [] = []
evict now ((n, e) ∷ seen) = let rest = evict now seen in if ltb now e then (n, e) ∷ rest else rest

-- `exp is not None and exp > now`
abbrev pub is_live : ℕ → Option ℕ → Bool
is_live now none = false
is_live now (some e) = ltb now e

-- The rest of `check_and_add`, after the eviction.
unfoldable pub add_fresh : ℕ → Text → Seen → Bool × Seen
add_fresh now nonce seen =
    if is_live now (Dict.lookup nonce seen)
    then (false, seen)
    else if leb hard (length seen)
    then (false, seen)
    else (true, Dict.insert nonce (now + window) seen)

-- `check_and_add`
unfoldable pub check_and_add : ℕ → Text → Seen → Bool × Seen
unfolding evict add_fresh
check_and_add now nonce seen =
    add_fresh now nonce (if leb soft (length seen) then evict now seen else seen)

lookup-evict :
    (now e : ℕ) (n : Text) (seen : Seen)
    → now < e
    → Dict.lookup n seen ≡ some e
    → Dict.lookup n (evict now seen) ≡ some e
unfolding evict
lookup-evict now e n [] lt h = h
lookup-evict now e n ((m, f) ∷ seen) lt h = ground (
  arith,
  Dict.lookup-cons n m f seen,
  Dict.lookup-cons n m f (evict now seen),
  lookup-evict now e n seen lt,
)

length-evict : (now : ℕ) (seen : Seen) → length (evict now seen) ≤ length seen
unfolding evict
length-evict now [] = omega arith
length-evict now ((m, f) ∷ seen) = ground (arith, length-evict now seen)

length-insert : (n : Text) (e : ℕ) (seen : Seen) → length (Dict.insert n e seen) ≤ length seen + 1
unfolding Dict.insert
length-insert n e [] = omega arith
length-insert n e ((m, f) ∷ seen) = ground (arith, length-insert n e seen)

add_fresh-length :
    (now : ℕ) (nonce : Text) (seen : Seen)
    → length seen ≤ hard
    → length (add_fresh now nonce seen).1 ≤ hard
unfolding add_fresh
add_fresh-length now nonce seen h = ground (arith, length-insert nonce (now + window) seen)

-- The memory of the guard is bounded: it never holds more than the hard limit of nonces, whatever
-- nonces come in.
pub check_and_add-length :
    (now : ℕ) (nonce : Text) (seen : Seen)
    → length seen ≤ hard
    → length (check_and_add now nonce seen).1 ≤ hard
unfolding check_and_add
check_and_add-length now nonce seen h = ground (
  arith,
  length-evict now seen,
  add_fresh-length now nonce seen h,
  add_fresh-length now nonce (evict now seen),
)

-- A nonce that the guard accepts is held until the window has passed.
pub check_and_add-held :
    (now : ℕ) (nonce : Text) (seen : Seen)
    → (check_and_add now nonce seen).0 ≡ true
    → Dict.lookup nonce (check_and_add now nonce seen).1 ≡ some (now + window)
unfolding check_and_add add_fresh
check_and_add-held now nonce seen h = ground (
  arith,
  Dict.lookup-insert nonce nonce (now + window) seen,
  Dict.lookup-insert nonce nonce (now + window) (evict now seen),
)

add_fresh-lookup :
    (now e : ℕ) (n nonce : Text) (seen : Seen)
    → now < e
    → Dict.lookup n seen ≡ some e
    → Dict.lookup n (add_fresh now nonce seen).1 ≡ some e
unfolding add_fresh
add_fresh-lookup now e n nonce seen lt h =
    ground (arith, Dict.lookup-insert n nonce (now + window) seen)

-- What the guard holds it keeps until its expiry, whatever else it is asked.
pub check_and_add-lookup :
    (now e : ℕ) (n nonce : Text) (seen : Seen)
    → now < e
    → Dict.lookup n seen ≡ some e
    → Dict.lookup n (check_and_add now nonce seen).1 ≡ some e
unfolding check_and_add
check_and_add-lookup now e n nonce seen lt h = ground (
  arith,
  lookup-evict now e n seen lt h,
  add_fresh-lookup now e n nonce seen lt,
  add_fresh-lookup now e n nonce (evict now seen) lt,
)

-- A nonce that the guard holds is refused until its expiry.
pub check_and_add-refused :
    (now e : ℕ) (n : Text) (seen : Seen)
    → now < e
    → Dict.lookup n seen ≡ some e
    → (check_and_add now n seen).0 ≡ false
unfolding check_and_add add_fresh
check_and_add-refused now e n seen lt h = ground (arith, lookup-evict now e n seen lt h)
