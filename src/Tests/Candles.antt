-- ===== src/Tests/Candles.antt =====
-- The theorem about candle queries of the legacy API at a concrete input.
use Prim.Native.Char.{code}
use meme_launchpad_backend.Common.{
  ℕ, zero, suc, ◌≡◌, refl, String, false, Option, none, some, List, [], ◌∷◌, ◌++◌, arith, ◌==◌,
  nat_eq, string_eq, if◌then◌else◌, Bool-cases, inl, inr, eq_iff, Bool-cases, inl, inr, eq_iff,
}
use meme_launchpad_backend.Fallible.{ok}
use meme_launchpad_backend.Postgres.Query.{last, select}
use meme_launchpad_backend.Go.Strconv.{pos}
use meme_launchpad_backend.LegacyApi.Wallet.{success}
use meme_launchpad_backend.LegacyApi.Kline.{
  Kline, Formats, history, reversed_onto, find_by_token_and_interval, get_kline_history_with_cursor,
}
use meme_launchpad_backend.Postgres.Query.Cursor.{AreDistinct}
use meme_launchpad_backend.LegacyApi.Kline.Pages.{time, asked}
use meme_launchpad_backend.LegacyApi.Kline.Replies.{get_kline_history_with_cursor-joined}

-- cursors with a mark for every second
abbrev marks : ℕ → String
marks zero = "."
marks (suc n) = String.◌∷◌ (Prim.Native.Char.char 124 tt) (marks n)

abbrev count : String → Option ℕ
count String.[] = none
count (String.◌∷◌ c s) =
    let rest = count s in
    if code c == 46 then some 0 else elim rest [ none ↦ none | some n ↦ some (suc n) ]

count-marks : (n : ℕ) → count (marks n) ≡ some n
count-marks zero = refl
count-marks (suc n) = rw (count-marks n, count) refl

marks-IsShown : (n : ℕ) → (marks n == "") ≡ false
marks-IsShown zero = refl
marks-IsShown (suc n) = elim (Bool-cases (marks (suc n) == "")) [
  | inr other ↦ other
  | inl same ↦ let k = (eq_iff (marks (suc n)) "").0 same in absurd cc
]

abbrev formats : Formats
formats = record { lower = λ s. s; format_cursor = marks; parse_cursor = count }

abbrev candle : ℕ → Kline
candle t = record {
  token_address = "0xab";
  interval = "1m";
  open_time = t;
  open_price = "1";
  high_price = "3";
  low_price = "1";
  close_price = "2";
  volume = "5";
}

abbrev rows : List Kline
rows = candle 1 ∷ candle 3 ∷ candle 2 ∷ []

latest : last (find_by_token_and_interval formats "0xab" "1m" none (pos 1) rows) ≡ some (candle 3)
unfolding find_by_token_and_interval
latest = refl

apart : AreDistinct time (asked formats "0xab" "1m" none rows)
unfolding select
apart = (((λ e. omega arith), ((λ e. omega arith), tt)), (((λ e. omega arith), tt), (tt, tt)))

get_kline_history_with_cursor-joined_example :
    let get = get_kline_history_with_cursor formats "0xab" "1m" in
    (later : List Kline) × (earlier : List Kline) × (next : String) × (beyond : String) × (get ""
        (pos 1)
        (ok rows)
      ≡ success (next, history (reversed_onto later [])))
    × (get next (pos 1) (ok rows) ≡ success (beyond, history (reversed_onto earlier [])))
    × ((end : String) × (get "" (pos 2) (ok rows)
          ≡ success (end, history (reversed_onto (later ++ earlier) []))))
get_kline_history_with_cursor-joined_example =
    get_kline_history_with_cursor-joined formats "0xab" "1m"
      (record { reads = count-marks; shows = marks-IsShown })
      (record { named = refl; spaced = refl; valid = refl }) "" 1 rows (candle 3) (omega arith)
      (omega arith) apart latest
