-- ===== src/Loops/Ticks.antt =====
-- The ticks of `WedgeWatchdog` (loop.py), `EndpointLoop` (endpoints.py) and `StaleSweep` (sweep.py).
use Prim.Native.Nat.{◌-◌}
use greasewood.Base.{
  ℕ, ◌<◌, ◌≡◌, ◌↔◌, refl, Bool, true, not, Option, none, some, List, [], ◌∷◌, ltb, leb, ◌==◌,
  nat_eq, list_eq, option_eq, if◌then◌else◌, arith, Text, ◌⊎◌, inl, inr,
}
use greasewood.Base.Dict
use greasewood.Base.Dict.{NodupKeys}
use greasewood.Wire.Credential.{sorted}
use greasewood.Directory.Defs.{Directory, prune_stale}
use greasewood.Directory.Prune.{lookup-prune_stale}
use greasewood.Statements.Defs.{StatementLog, prune}

-- `WedgeWatchdog._tick`: the age that `age_fn` reports, if there was progress, and the clock now and at
-- the start; whether the process exits
unfoldable pub watchdog_tick : ℕ → Option ℕ → ℕ → ℕ → Bool
watchdog_tick threshold reported started now =
    let uptime = now - started in
    let age : ℕ = elim reported [ none ↦ uptime | some a ↦ if ltb uptime a then uptime else a ] in
    not (leb age threshold)

-- The watchdog ends the daemon exactly if it has run for longer than the threshold, and has made no
-- progress yet or none for longer than that: a machine that slept is spared, however old the stamp.
pub watchdog_tick_iff :
    (threshold : ℕ) (reported : Option ℕ) (started now : ℕ)
    → (watchdog_tick threshold reported started now ≡ true) ↔ (
        (threshold < now - started)
        × ((reported ≡ none) ⊎ ((a : ℕ) × (reported ≡ some a) × (threshold < a))))
unfolding watchdog_tick
watchdog_tick_iff threshold none started now = (λ h. (ground arith, inl refl), λ h. ground arith)
watchdog_tick_iff threshold (some a) started now = (
  λ h. (ground arith, inr (a, refl, ground arith)),
  λ h. elim h.1 [ inl e ↦ cc | inr (b, e, lt) ↦ ground arith ],
)

-- `EndpointLoop._tick`: what was detected, and what the node advertises; the list that is republished,
-- if one is
unfoldable pub endpoint_tick : List Text → List Text → Option (List Text)
unfolding sorted
endpoint_tick [] current = none
endpoint_tick (e ∷ detected) current =
    if sorted (e ∷ detected) == sorted current then none else some (e ∷ detected)

-- `StaleSweep._tick`, on the directory and on the log of a holder that has one
unfoldable pub sweep_tick :
    ℕ → ℕ → Option Text → Directory × Option StatementLog → Directory × Option StatementLog
unfolding prune_stale prune
sweep_tick grace now protect (d, none) = ((prune_stale grace now protect d).0, none)
sweep_tick grace now protect (d, some log) =
    ((prune_stale grace now protect d).0, some (prune now log).0)

-- The sweep never reaps the holder itself.
pub lookup-sweep_tick :
    (grace now : ℕ) (own : Text) (d : Directory) (log : Option StatementLog)
    → NodupKeys d
    → Dict.lookup own (sweep_tick grace now (some own) (d, log)).0 ≡ Dict.lookup own d
unfolding sweep_tick
lookup-sweep_tick grace now own d none u =
    ground (arith, lookup-prune_stale grace now (some own) d own u)
lookup-sweep_tick grace now own d (some log) u =
    ground (arith, lookup-prune_stale grace now (some own) d own u)
