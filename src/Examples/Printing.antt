-- ===== src/Examples/Printing.antt =====
-- Timestamps and host names as they are printed.
use greasewood.Base.{◌+◌, ◌*◌, ◌≡◌, refl, codes}
use native.Mathlib.Decide.{ℕ_discrete}
use greasewood.Wire.Time.{second, ts}
use greasewood.Hosts.Names.{sanitize}

ts_epoch : ts 0 ≡ codes "1970-01-01T00:00:00Z"
unfolding ts
ts_epoch = refl

ts_leap_day : ts (1709209845 * second) ≡ codes "2024-02-29T12:30:45Z"
unfolding ts
ts_leap_day = refl

ts_year_end : ts (1798761599 * second + 999999) ≡ codes "2026-12-31T23:59:59Z"
unfolding ts
ts_year_end = refl

sanitized : sanitize (codes " -Ops@Node_01.local ") ≡ codes "ops-node-01-local"
unfolding sanitize ℕ_discrete
sanitized = refl
