-- ===== src/Wire/Time.antt =====
-- Instants and `_ts` of wire.py. A `datetime` is the number of microseconds since the start of 1970
-- (UTC), a `timedelta` a number of microseconds; no instant of the program is earlier.
use Prim.Native.Nat.{◌-◌, ◌*◌, ◌/◌, ◌%◌}
use greasewood.Base.{ℕ, ◌+◌, [], ◌∷◌, ◌++◌, ltb, leb, if◌then◌else◌, Text}
use greasewood.Wire.Json.{decimal}

abbrev pub second : ℕ
second = 1000000

abbrev pub day : ℕ
day = 86400 * second

-- `t.replace(microsecond=0)`
unfoldable pub whole_second : ℕ → ℕ
whole_second t = t / second * second

-- The number in two digits, as `%m`, `%d`, `%H`, `%M` and `%S` print it.
two_digits : ℕ → Text
two_digits n = (48 + n / 10) ∷ (48 + n % 10) ∷ []

-- The civil date of a day, counted from 0000-03-01: year, month and day of the month.
civil : ℕ → ℕ × ℕ × ℕ
civil z =
    let era : ℕ = z / 146097 in
    let doe : ℕ = z % 146097 in
    let yoe : ℕ = (doe + doe / 36524 - doe / 1460 - doe / 146096) / 365 in
    let doy : ℕ = doe + yoe / 100 - (365 * yoe + yoe / 4) in
    let mp : ℕ = (5 * doy + 2) / 153 in
    let m : ℕ = if ltb mp 10 then mp + 3 else mp - 9 in
    (yoe + era * 400 + (if leb m 2 then 1 else 0), m, doy + 1 - (153 * mp + 2) / 5)

-- `t.astimezone(_UTC).strftime("%Y-%m-%dT%H:%M:%SZ")`
unfoldable pub ts : ℕ → Text
unfolding two_digits civil decimal
ts t =
    let s : ℕ = t / second in
    let (y, m, d) = civil (s / 86400 + 719468) in
    let r : ℕ = s % 86400 in
    decimal y
    ++ 45
      ∷ (two_digits m
          ++ 45
            ∷ (two_digits d
                ++ 84
                  ∷ (two_digits (r / 3600)
                      ++ 58 ∷ (two_digits (r / 60 % 60) ++ 58 ∷ (two_digits (r % 60) ++ 90 ∷ [])))))
