-- ===== src/LegacyApi/Kline.antt =====
-- Candle queries of the legacy API: apps/api/internal/logic/kline/logic.go and
-- apps/api/internal/model/kline.go. A table is its rows, or the error of the query.
pub mod Pages
pub mod Replies
use meme_launchpad_backend.Common.{
  ℕ, suc, zero, ◌<◌, String, Bool, true, false, not, ◌&&◌, ◌||◌, Option, none, some, List, [], ◌∷◌,
  ltb, leb, ◌==◌, nat_eq, string_eq, map, if◌then◌else◌,
}
use meme_launchpad_backend.Fallible.{Result, ok, err}
use meme_launchpad_backend.Go.Strconv.{ℤ, pos, negsuc}
use meme_launchpad_backend.Postgres.Query.{select, order_desc, take, last}
use meme_launchpad_backend.LegacyApi.Wallet.{Response, failure, success}

pub record Kline : Type 0 where
  pub token_address : String
  pub interval : String
  pub open_time : ℕ
  pub open_price : String
  pub high_price : String
  pub low_price : String
  pub close_price : String
  pub volume : String

-- the columns "t", "o", "h", "l", "c" and "v" of a reply
pub record History : Type 0 where
  pub times : List ℕ
  pub opens : List String
  pub highs : List String
  pub lows : List String
  pub closes : List String
  pub volumes : List String

unfoldable pub history : List Kline → History
history ks = record {
  times = map (λ k. k.open_time) ks;
  opens = map (λ k. k.open_price) ks;
  highs = map (λ k. k.high_price) ks;
  lows = map (λ k. k.low_price) ks;
  closes = map (λ k. k.close_price) ks;
  volumes = map (λ k. k.volume) ks;
}

-- `LOWER`, and a cursor: Base64 over RFC 3339, both ways
pub record Formats : Type 0 where
  pub lower : String → String
  pub format_cursor : ℕ → String
  pub parse_cursor : String → Option ℕ

-- ORDER BY open_time DESC
abbrev pub latest_first : List Kline → List Kline
latest_first = order_desc (λ k. k.open_time)

abbrev pub reversed_onto : {A : Type 0} → List A → List A → List A
reversed_onto [] ys = ys
reversed_onto (x ∷ xs) ys = reversed_onto xs (x ∷ ys)

-- 300 for a limit that is not positive, and 1000 at most
unfoldable pub page_size : ℤ → ℕ
page_size (negsuc _) = 300
page_size (pos n) = if n == 0 then 300 else if ltb 1000 n then 1000 else n

abbrev pub is_before : Option ℕ → Kline → Bool
is_before none k = true
is_before (some t) k = ltb k.open_time t

abbrev pub is_valid_interval : String → Bool
is_valid_interval i =
    i == "1m"
    || i == "5m"
    || i == "15m"
    || i == "30m"
    || i == "1h"
    || i == "4h"
    || i == "1d"
    || i == "1w"

module _ (formats : Formats) where
  abbrev pub is_of : String → String → Kline → Bool
  is_of token interval k =
      formats.lower k.token_address == formats.lower token && k.interval == interval

  unfoldable pub find_by_token_and_interval :
      String → String → Option ℕ → ℤ → List Kline → List Kline
  unfolding select order_desc page_size
  find_by_token_and_interval token interval cursor limit rows =
      take (page_size limit)
        (latest_first (select (λ k. is_of token interval k && is_before cursor k) rows))

  -- in ascending order the rows are those in descending order from the end
  unfoldable pub find_by_token_and_interval_range :
      String → String → ℕ → ℕ → List Kline → List Kline
  unfolding select order_desc
  find_by_token_and_interval_range token interval from to rows =
      reversed_onto
        (latest_first (
          select (λ k. is_of token interval k && (leb from k.open_time && leb k.open_time to))
            rows))
        []

  -- the time of the earliest candle
  abbrev pub next_cursor : List Kline → String
  next_cursor ks = elim (last ks) [ none ↦ "" | some k ↦ formats.format_cursor k.open_time ]

  -- the reply's cursor and columns
  unfoldable pub get_kline_history_with_cursor :
      String → String → String → ℤ → Result (List Kline) → Response (String × History)
  unfolding find_by_token_and_interval page_size history
  get_kline_history_with_cursor token interval cursor limit table =
      if token == ""
      then failure 400 "tokenAddr is required"
      else if interval == ""
      then failure 400 "interval is required"
      else if not (is_valid_interval interval)
      then failure 400 "invalid interval"
      else let time : Option ℕ = if cursor == "" then none else formats.parse_cursor cursor in
        elim table [
          | err _ ↦ failure 500 "failed to get kline data"
          | ok rows ↦
              let ks =
                find_by_token_and_interval token interval time (pos (page_size limit)) rows in
              success (next_cursor ks, history (reversed_onto ks []))
        ]

  unfoldable pub get_kline_history :
      String → String → ℤ → ℤ → Result (List Kline) → Response History
  unfolding find_by_token_and_interval_range history
  get_kline_history token interval (pos from) (pos to) table =
      if token == ""
      then failure 400 "tokenAddr is required"
      else if interval == ""
      then failure 400 "interval is required"
      else if from == 0 || to == 0
      then failure 400 "from and to are required"
      else if ltb to from
      then failure 400 "from must be less than to"
      else if is_valid_interval interval
      then elim table [
        | err _ ↦ failure 500 "failed to get kline data"
        | ok rows ↦ success (history (find_by_token_and_interval_range token interval from to rows))
      ]
      else failure 400 "invalid interval"
  get_kline_history token interval _ _ table =
      if token == ""
      then failure 400 "tokenAddr is required"
      else if interval == ""
      then failure 400 "interval is required"
      else failure 400 "from and to are required"
