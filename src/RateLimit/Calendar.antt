-- ===== src/RateLimit/Calendar.antt =====
-- The starts of the day and of the month of a time, in UTC. Times are milliseconds since the epoch.
use cortex_cloud_api.Prelude.{ℕ, ◌+◌, ◌-◌, ◌*◌, ◌/◌, ◌%◌, ltb, if◌then◌else◌}

abbrev day_ms : ℕ
day_ms = 86_400_000

-- `now.replace(hour=0, minute=0, second=0, microsecond=0)`
unfoldable pub day_start : ℕ → ℕ
day_start now = now - now % day_ms

-- The day of the month, from 0. Years are counted from a first of March, in cycles of 400 years.
unfoldable day_of_month : ℕ → ℕ
day_of_month days =
    let doe = (days + 719468) % 146097 in
    let yoe = (doe - doe / 1460 + doe / 36524 - doe / 146096) / 365 in
    let doy = doe - (365 * yoe + yoe / 4 - yoe / 100) in
    let mp = (5 * doy + 2) / 153 in doy - (153 * mp + 2) / 5

-- `now.replace(day=1, hour=0, minute=0, second=0, microsecond=0)`
unfoldable pub month_start : ℕ → ℕ
unfolding day_of_month
month_start now = (now / day_ms - day_of_month (now / day_ms)) * day_ms

abbrev at_least : ℕ → ℕ → ℕ
at_least a b = if ltb b a then a else b

-- Up to 23:59:59 of the day, at least a minute.
unfoldable pub to_midnight : ℕ → ℕ
to_midnight now = at_least 60 (86399 - now / 1000 % 86400) * 1000
