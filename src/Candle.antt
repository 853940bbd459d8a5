-- ===== src/Candle.antt =====
-- The opening times of candles: app-rebuild/internal/repository/chain_event.go (`alignTime`) and
-- apps/indexer/internal/database/events.go (`alignTimeToInterval`). A `time.Time` is its whole
-- seconds since 1970-01-01 00:00 UTC, which is all that a block timestamp has.
pub mod Bounds
use meme_launchpad_backend.Common.{
  ℕ, ◌+◌, ◌-◌, ◌*◌, ◌/◌, ◌%◌, String, List, [], ◌∷◌, ◌==◌, string_eq, nat_eq, if◌then◌else◌,
}

-- Seconds from the zero time of package time, 0001-01-01 00:00 UTC, to 1970.
abbrev pub zero_time_offset : ℕ
zero_time_offset = 62135596800

-- `t.Truncate(d)` rounds down to a multiple of `d` since the zero time.
abbrev pub truncate : ℕ → ℕ → ℕ
truncate t d = t - (t + zero_time_offset) % d

-- `time.Date` of the date of `t` at a time of day: the hour and the minute of that day.
abbrev pub at_clock : ℕ → ℕ → ℕ → ℕ
at_clock t hour minute = t / 86400 * 86400 + hour * 3600 + minute * 60

abbrev pub hour_of : ℕ → ℕ
hour_of t = t % 86400 / 3600

abbrev pub minute_of : ℕ → ℕ
minute_of t = t % 3600 / 60

-- Sunday is 0; 1970-01-01 was a Thursday.
abbrev pub weekday_of : ℕ → ℕ
weekday_of t = (t / 86400 + 4) % 7

-- `if weekday == 0 { weekday = 7 }`
abbrev pub iso_weekday : ℕ → ℕ
iso_weekday t = if weekday_of t == 0 then 7 else weekday_of t

-- The intervals of `upsertKlines` and `updateKlineData`.
abbrev pub intervals : List String
intervals = "1m" ∷ "5m" ∷ "15m" ∷ "30m" ∷ "1h" ∷ "4h" ∷ "1d" ∷ "1w" ∷ []

-- `alignTime`
unfoldable pub align_time : ℕ → String → ℕ
align_time t interval =
    if interval == "1m"
    then truncate t 60
    else if interval == "5m"
    then truncate t (5 * 60)
    else if interval == "15m"
    then truncate t (15 * 60)
    else if interval == "30m"
    then truncate t (30 * 60)
    else if interval == "1h"
    then truncate t 3600
    else if interval == "4h"
    then truncate t (4 * 3600)
    else if interval == "1d"
    then at_clock t 0 0
    else if interval == "1w"
    then at_clock t 0 0 - (iso_weekday (at_clock t 0 0) - 1) * 86400
    else t

-- `alignTimeToInterval`, in a process whose local zone is UTC
unfoldable pub align_time_to_interval : ℕ → String → ℕ
align_time_to_interval t interval =
    if interval == "1m"
    then at_clock t (hour_of t) (minute_of t)
    else if interval == "5m"
    then at_clock t (hour_of t) (minute_of t / 5 * 5)
    else if interval == "15m"
    then at_clock t (hour_of t) (minute_of t / 15 * 15)
    else if interval == "30m"
    then at_clock t (hour_of t) (minute_of t / 30 * 30)
    else if interval == "1h"
    then at_clock t (hour_of t) 0
    else if interval == "4h"
    then at_clock t (hour_of t / 4 * 4) 0
    else if interval == "1d"
    then at_clock t 0 0
    else if interval == "1w"
    then (t / 86400 - (iso_weekday t - 1)) * 86400
    else t
