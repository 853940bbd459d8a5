-- ===== src/LegacyApi/Kline/Pages.antt =====
-- The pages of candles that cursors lead through.
use meme_launchpad_backend.Common.{
  ℕ, ◌<◌, ◌+◌, ◌≡◌, ◌∙◌, ap, String, Bool, true, ◌&&◌, Option, none, some, List, ◌++◌, arith, ltb,
}
use meme_launchpad_backend.Go.Strconv.{pos}
use meme_launchpad_backend.Postgres.Query.{select, take, last}
use meme_launchpad_backend.Postgres.Query.Laws.{take-drop, All-order_desc}
use meme_launchpad_backend.Postgres.Query.Cursor.{
  AreDistinct, select-All, last-All, order_desc-select, select-drop, order_desc-IsFalling,
}
use meme_launchpad_backend.LegacyApi.Kline.{
  Kline, Formats, latest_first, page_size, is_before, is_of, find_by_token_and_interval,
}

abbrev pub time : Kline → ℕ
time k = k.open_time

pub page_size-of : (n : ℕ) → 0 < n → n < 1001 → page_size (pos n) ≡ n
unfolding page_size
page_size-of n some_ few = ground arith

and_right : (a b : Bool) → (a && b) ≡ true → b ≡ true
and_right a b h = ground arith

narrows :
    (cursor : Option ℕ) (k x : Kline) (c : Bool)
    → is_before cursor k ≡ true
    → (c && ltb x.open_time k.open_time)
      ≡ ((c && is_before cursor x) && ltb x.open_time k.open_time)
narrows none k x c h = ground arith
narrows (some t) k x c h = ground arith

module _ (formats : Formats) where
  -- the candles that a query is about, before the limit
  abbrev pub asked : String → String → Option ℕ → List Kline → List Kline
  asked token interval cursor rows =
      select (λ k. is_of formats token interval k && is_before cursor k) rows

  -- When no two of the candles asked for have the same time, a page and the page after its last candle
  -- are together the page of twice the size, which is at most 1000: no candle is lost or shown twice.
  pub find-two_pages :
      (token interval : String) (cursor : Option ℕ) (n : ℕ) (rows : List Kline) (k : Kline)
      → 0 < n
      → n + n < 1001
      → AreDistinct time (asked token interval cursor rows)
      → last (find_by_token_and_interval formats token interval cursor (pos n) rows) ≡ some k
      → find_by_token_and_interval formats token interval cursor (pos n) rows
          ++ find_by_token_and_interval formats token interval (some k.open_time) (pos n) rows
        ≡ find_by_token_and_interval formats token interval cursor (pos (n + n)) rows
  unfolding find_by_token_and_interval
  find-two_pages token interval cursor n rows k more few apart h =
      let p : Kline → Bool = λ x. is_of formats token interval x && is_before cursor x in
      let ks = latest_first (select p rows) in
      let one = page_size-of n more (omega arith) in
      let two = page_size-of (n + n) (omega arith) few in
      let h' : last (take n ks) ≡ some k = rw one at h in
      let within =
        last-All (λ z. p z ≡ true) n ks k
          (All-order_desc (λ z. p z ≡ true) time (select p rows) (select-All p rows)) h' in
      let falls = order_desc-IsFalling time (select p rows) apart in
      let rest =
        order_desc-select time p
          (λ x. is_of formats token interval x && is_before (some k.open_time) x) k.open_time rows
          (λ x.
            narrows cursor k x (is_of formats token interval x)
              (and_right (is_of formats token interval k) (is_before cursor k) within))
        ∙ select-drop time n ks k falls h' in
      rw (one, two) (ap (λ l. take n ks ++ take n l) rest ∙ take-drop n n ks)
