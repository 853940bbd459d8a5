-- ===== src/LegacyApi/Kline/Replies.antt =====
-- What two requests in a row get, of which the second carries the cursor of the first.
use meme_launchpad_backend.Common.{
  ℕ, ◌<◌, ◌+◌, ◌≡◌, ap, ◌∙◌, String, true, false, Option, none, some, List, [], ◌++◌, arith, ◌==◌,
  string_eq, if◌then◌else◌,
}
use meme_launchpad_backend.Fallible.{ok}
use meme_launchpad_backend.Postgres.Query.{last}
use meme_launchpad_backend.Go.Strconv.{pos}
use meme_launchpad_backend.LegacyApi.Wallet.{success}
use meme_launchpad_backend.LegacyApi.Kline.{
  Kline, Formats, history, reversed_onto, is_valid_interval, find_by_token_and_interval,
  next_cursor, get_kline_history_with_cursor,
}
use meme_launchpad_backend.Postgres.Query.Cursor.{AreDistinct}
use meme_launchpad_backend.LegacyApi.Kline.Pages.{time, asked, page_size-of, find-two_pages}

module _ (formats : Formats) (token interval : String) where
  -- A cursor reads back as its time, and is not empty.
  pub record AreDocumented : Type 0 where
    pub reads : (t : ℕ) → formats.parse_cursor (formats.format_cursor t) ≡ some t
    pub shows : (t : ℕ) → (formats.format_cursor t == "") ≡ false

  -- a request that names a token and an interval of a candle
  pub record IsAsked : Type 0 where
    pub named : (token == "") ≡ false
    pub spaced : (interval == "") ≡ false
    pub valid : is_valid_interval interval ≡ true

  abbrev pub time_of : String → Option ℕ
  time_of cursor = if cursor == "" then none else formats.parse_cursor cursor

  abbrev pub page : Option ℕ → ℕ → List Kline → List Kline
  page time n rows = find_by_token_and_interval formats token interval time (pos n) rows

  get_kline_history_with_cursor-page :
      IsAsked
      → (cursor : String) (n : ℕ) (rows : List Kline) → 0 < n
      → n < 1001
      → get_kline_history_with_cursor formats token interval cursor (pos n) (ok rows)
        ≡ success (
          next_cursor formats (page (time_of cursor) n rows),
          history (reversed_onto (page (time_of cursor) n rows) []),
        )
  unfolding get_kline_history_with_cursor
  get_kline_history_with_cursor-page q cursor n rows more few =
      rw (q.named, get_kline_history_with_cursor)
        (rw (q.spaced, get_kline_history_with_cursor)
          (rw (q.valid, get_kline_history_with_cursor)
            (ap
              (λ m. success (
                next_cursor formats (page (time_of cursor) m rows),
                history (reversed_onto (page (time_of cursor) m rows) []),
              ))
              (page_size-of n more few))))

  time_of-next :
      AreDocumented
      → (ks : List Kline) (k : Kline) → last ks ≡ some k
      → time_of (next_cursor formats ks) ≡ some k.open_time
  time_of-next doc ks k h = rw (h, next_cursor) (rw (doc.shows k.open_time) (doc.reads k.open_time))

  -- When no two of the candles asked for have the same time, a request that gets some, and the next
  -- request, with the cursor of the first reply, get the two parts, the later and then the earlier, of
  -- what one request for twice as many gets, as long as this is at most 1000.
  pub get_kline_history_with_cursor-joined :
      AreDocumented
      → IsAsked
      → (cursor : String) (n : ℕ) (rows : List Kline) (k : Kline) → 0 < n
      → n + n < 1001
      → AreDistinct time (asked formats token interval (time_of cursor) rows)
      → last (page (time_of cursor) n rows) ≡ some k
      → let get = get_kline_history_with_cursor formats token interval in
        (later : List Kline) × (earlier : List Kline) × (next : String) × (beyond : String) × (get
            cursor
            (pos n)
            (ok rows)
          ≡ success (next, history (reversed_onto later [])))
        × (get next (pos n) (ok rows) ≡ success (beyond, history (reversed_onto earlier [])))
        × ((end : String) × (get cursor (pos (n + n)) (ok rows)
              ≡ success (end, history (reversed_onto (later ++ earlier) []))))
  get_kline_history_with_cursor-joined doc q cursor n rows k more few apart h =
      let later = page (time_of cursor) n rows in
      let next = next_cursor formats later in
      let whole = page (time_of cursor) (n + n) rows in
      let follows : time_of next ≡ some k.open_time = time_of-next doc later k h in
      let joined : later ++ page (time_of next) n rows ≡ whole =
        ap (λ t. later ++ page t n rows) follows
        ∙ find-two_pages formats token interval (time_of cursor) n rows k more few apart h in
      (
        later,
        page (time_of next) n rows,
        next,
        next_cursor formats (page (time_of next) n rows),
        get_kline_history_with_cursor-page q cursor n rows more (omega arith),
        get_kline_history_with_cursor-page q next n rows more (omega arith),
        (
          next_cursor formats whole,
          rw joined (get_kline_history_with_cursor-page q cursor (n + n) rows (omega arith) few),
        ),
      )
