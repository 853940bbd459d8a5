-- ===== src/Candle/Bounds.antt =====
-- The two alignments agree, and a candle opens at most one interval before its trades.
use meme_launchpad_backend.Common.{
  ℕ, Bool, true, false, ◌+◌, ◌-◌, ◌*◌, ◌/◌, ◌%◌, ◌≤◌, ◌<◌, ◌≡◌, String, ◌==◌, string_eq, nat_eq,
  arith, if◌then◌else◌,
}
use meme_launchpad_backend.Candle.{
  truncate, at_clock, hour_of, minute_of, iso_weekday, align_time, align_time_to_interval,
}

minutes_agree : (t : ℕ) → truncate t 60 ≡ at_clock t (hour_of t) (minute_of t)
minutes_agree t = omega arith

minutes_agree_5 : (t : ℕ) → truncate t 300 ≡ at_clock t (hour_of t) (minute_of t / 5 * 5)
minutes_agree_5 t = omega arith

minutes_agree_15 : (t : ℕ) → truncate t 900 ≡ at_clock t (hour_of t) (minute_of t / 15 * 15)
minutes_agree_15 t = omega arith

minutes_agree_30 : (t : ℕ) → truncate t 1800 ≡ at_clock t (hour_of t) (minute_of t / 30 * 30)
minutes_agree_30 t = omega arith

hours_agree : (t : ℕ) → truncate t 3600 ≡ at_clock t (hour_of t) 0
hours_agree t = omega arith

hours_agree_4 : (t : ℕ) → truncate t 14400 ≡ at_clock t (hour_of t / 4 * 4) 0
hours_agree_4 t = omega arith

weeks_agree :
    (t : ℕ)
    → at_clock t 0 0 - (iso_weekday (at_clock t 0 0) - 1) * 86400
      ≡ (t / 86400 - (iso_weekday t - 1)) * 86400
weeks_agree t = ground arith

-- With the legacy server's zone UTC, both programs open the candle of a trade at the same time, for
-- every interval name.
pub align_time-eq-align_time_to_interval :
    (t : ℕ) (interval : String) → align_time t interval ≡ align_time_to_interval t interval
unfolding align_time align_time_to_interval
align_time-eq-align_time_to_interval t interval = ground (
  arith,
  minutes_agree t,
  minutes_agree_5 t,
  minutes_agree_15 t,
  minutes_agree_30 t,
  hours_agree t,
  hours_agree_4 t,
  weeks_agree t,
)

-- The length of an interval in seconds; a name that is no interval has a length of one second.
abbrev pub seconds_of : String → ℕ
seconds_of interval =
    if interval == "1m"
    then 60
    else if interval == "5m"
    then 300
    else if interval == "15m"
    then 900
    else if interval == "30m"
    then 1800
    else if interval == "1h"
    then 3600
    else if interval == "4h"
    then 14400
    else if interval == "1d"
    then 86400
    else if interval == "1w"
    then 604800
    else 1

-- Monday 5 January 1970, the first week that starts in 1970.
abbrev pub first_monday : ℕ
first_monday = 345600

-- `opening` opens an interval of that many seconds that holds `t`; intervals are counted from
-- Monday 29 December 1969.
pub record IsOpening (t opening seconds : ℕ) : Type 0 where
  pub not_after : opening ≤ t
  pub not_over : t < opening + seconds
  pub on_grid : (opening + 259200) % seconds ≡ 0

week_IsOpening :
    (t : ℕ)
    → first_monday ≤ t
    → IsOpening t (at_clock t 0 0 - (iso_weekday (at_clock t 0 0) - 1) * 86400) 604800
week_IsOpening t h = ground arith

IsOpening-if :
    {t x y c d : ℕ} (b : Bool)
    → IsOpening t x c
    → IsOpening t y d
    → IsOpening t (if b then x else y) (if b then c else d)
IsOpening-if true h k = h
IsOpening-if false h k = k

-- From the first Monday of 1970 on, a candle opens at or before its trade and less than one interval
-- before it, on a multiple of the interval counted from midnight of a Monday.
pub align_time-IsOpening :
    (t : ℕ) (interval : String)
    → first_monday ≤ t
    → IsOpening t (align_time t interval) (seconds_of interval)
unfolding align_time
align_time-IsOpening t interval h = IsOpening-if (interval == "1m") (omega arith) (
    IsOpening-if (interval == "5m") (omega arith) (
      IsOpening-if (interval == "15m") (omega arith) (
        IsOpening-if (interval == "30m") (omega arith) (
          IsOpening-if (interval == "1h") (omega arith) (
            IsOpening-if (interval == "4h") (omega arith) (
              IsOpening-if (interval == "1d") (omega arith)
                (IsOpening-if (interval == "1w") (week_IsOpening t h) (omega arith))))))))
