-- ===== src/Host/Ports.antt =====
-- `_free_listen_port` of cli/_common.py: the first of 51900, 51910, 51920, … that is not in use.
use Prim.Native.Nat.{◌*◌}
use greasewood.Base.{
  ℕ, zero, suc, ◌+◌, ◌≤◌, ◌<◌, ◌≡◌, ap, Bool, true, false, Option, none, some, List, [], ◌∷◌, keep,
  leb, length, contains, nat_eq, if◌then◌else◌, arith, Has, Bool-cases, contains_iff, inl, inr,
}

-- The ports in use are those of the configurations that can be read, and of the WireGuard interfaces
-- where these can be listed.
unfoldable pub used_ports : List (Option ℕ) → Option (List ℕ) → List ℕ
used_ports [] none = []
used_ports [] (some live) = live
used_ports (none ∷ configs) live = used_ports configs live
used_ports (some p ∷ configs) live = p ∷ used_ports configs live

-- `while port in used: port += 10`, with fuel
unfoldable pub search_port : ℕ → ℕ → List ℕ → Option ℕ
search_port zero port used = none
search_port (suc f) port used =
    let next = search_port f (port + 10) used in if contains used port then next else some port

-- `_free_listen_port`; every round of the loop that does not end it meets another port in use
unfoldable pub free_listen_port : List (Option ℕ) → Option (List ℕ) → Option ℕ
unfolding search_port used_ports
free_listen_port configs live =
    let used = used_ports configs live in search_port (suc (length used)) 51900 used

-- The ports in use from a port on.
abbrev at_least : ℕ → ℕ → Bool
at_least port p = leb port p

length-keep_le :
    (used : List ℕ) (port : ℕ)
    → length (keep (at_least (port + 10)) used) ≤ length (keep (at_least port) used)
length-keep_le [] port = omega arith
length-keep_le (p ∷ used) port = ground (arith, length-keep_le used port)

length-keep : (p : ℕ → Bool) (used : List ℕ) → length (keep p used) ≤ length used
length-keep p [] = omega arith
length-keep p (q ∷ used) = ground (arith, length-keep p used)

length-keep_drop :
    (used : List ℕ) (port : ℕ)
    → Has port used
    → length (keep (at_least (port + 10)) used) < length (keep (at_least port) used)
length-keep_drop [] port m = absurd m
length-keep_drop (p ∷ used) port (inl e) = ground (arith, length-keep_le used port)
length-keep_drop (p ∷ used) port (inr m) = ground (arith, length-keep_drop used port m)

busy_before :
    (k port : ℕ) (used : List ℕ)
    → contains used port ≡ true
    → ((j : ℕ) → j < k → contains used (port + 10 + 10 * j) ≡ true)
    → (j : ℕ) → j < k + 1
    → contains used (port + 10 * j) ≡ true
busy_before k port used busy before zero h = let e : port + 10 * 0 ≡ port = omega arith in rw e busy
busy_before k port used busy before (suc j) h =
    let e : port + 10 * suc j ≡ port + 10 + 10 * j = omega arith in rw e (before j (omega arith))

search_port_total :
    (f port : ℕ) (used : List ℕ)
    → length (keep (at_least port) used) < f
    → (k : ℕ) × (search_port f port used ≡ some (port + 10 * k))
      × (contains used (port + 10 * k) ≡ false)
      × ((j : ℕ) → j < k → contains used (port + 10 * j) ≡ true)
unfolding search_port
search_port_total zero port used h = absurd (omega arith)
search_port_total (suc f) port used h = elim (Bool-cases (contains used port)) [
  | inr free ↦
      (0, rw free (ap some (omega arith)), rw (now port) free, λ j below. absurd (omega arith))
  | inl busy ↦
      let drop = length-keep_drop used port ((contains_iff used port).0 busy) in
      let (k, found, free, before) = search_port_total f (port + 10) used (omega arith) in
      let e : port + 10 * (k + 1) ≡ port + 10 + 10 * k = omega arith in
      (k + 1, rw (busy, e) found, rw e free, busy_before k port used busy before)
]
  where
    now : (n : ℕ) → n + 10 * 0 ≡ n
    now n = omega arith

-- The daemon of a new mesh gets a port: the search ends, with the first of 51900, 51910, … that is used
-- by no configuration and no interface.
pub free_listen_port_total :
    (configs : List (Option ℕ)) (live : Option (List ℕ))
    → (k : ℕ) × (free_listen_port configs live ≡ some (51900 + 10 * k))
      × (contains (used_ports configs live) (51900 + 10 * k) ≡ false)
      × ((j : ℕ) → j < k → contains (used_ports configs live) (51900 + 10 * j) ≡ true)
unfolding free_listen_port
free_listen_port_total configs live =
    search_port_total (suc (length (used_ports configs live))) 51900 (used_ports configs live)
      (omega (arith, length-keep (at_least 51900) (used_ports configs live)))
