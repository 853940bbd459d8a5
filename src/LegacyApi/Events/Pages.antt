-- ===== src/LegacyApi/Events/Pages.antt =====
-- The pages of the trades of a token.
use mathlib.Core.List.{Permᴰ}
use mathlib.Core.List.Permᴰ
use meme_launchpad_backend.Common.{
  ℕ, ◌+◌, ◌*◌, ◌≤◌, ◌≡◌, sym, ◌∙◌, ap, ◌==◌, string_eq, String, List, map, length, length-append,
  arith,
}
use meme_launchpad_backend.Fallible.{Result, ok, err}
use meme_launchpad_backend.Go.Strconv.{pos}
use meme_launchpad_backend.Postgres.Query.{query, paged, order_desc, total, take, drop}
use meme_launchpad_backend.Postgres.Query.Laws.{
  read_pages, read_pages-take, take-all, length-order_desc, length-map, IsDescending,
  order_desc-IsDescending, total-order_desc, total-append, total-map,
}
use meme_launchpad_backend.Postgres.Query.Cursor.{AreDistinct}
use meme_launchpad_backend.Postgres.Query.Ties.{append-perm, select-perm, order_desc-perm}
use meme_launchpad_backend.LegacyIndexer.Rows.{Tables}
use meme_launchpad_backend.LegacyIndexer.Database.Recount.{healthy}
use meme_launchpad_backend.LegacyApi.Events.{
  Trade, trade, bought_of, sold_of, trades_of, get_token_trades,
}

-- the rows of a reply
abbrev pub listed : {A : Type 0} → Result (List A × ℕ) → Result (List A)
listed (ok (xs, _)) = ok xs
listed (err e) = err e

module _ (lower : String → String) (token : String) (d : Tables) where
  -- the trades of a token, the latest first
  abbrev pub latest_first : List Trade
  latest_first = order_desc (λ t. t.block_timestamp) (trades_of lower token d)

  length-latest_first :
      length latest_first ≡ length (bought_of lower token d) + length (sold_of lower token d)
  length-latest_first =
      length-order_desc (λ t. t.block_timestamp) (trades_of lower token d)
      ∙ length-append (map (trade 10) (bought_of lower token d))
          (map (trade 20) (sold_of lower token d))
      ∙ omega (
        arith,
        length-map (trade 10) (bought_of lower token d),
        length-map (trade 20) (sold_of lower token d),
      )

  -- the trades of a token are those of any scan of its events
  trades_of-perm :
      (d' : Tables)
      → Permᴰ d.token_bought_events d'.token_bought_events
      → Permᴰ d.token_sold_events d'.token_sold_events
      → Permᴰ (trades_of lower token d) (trades_of lower token d')
  trades_of-perm d' bought sold =
      append-perm
        (Permᴰ.map (trade 10) (select-perm (λ r. lower r.1.token_address == lower token) bought))
        (Permᴰ.map (trade 20) (select-perm (λ r. lower r.1.token_address == lower token) sold))

  -- With no failing statement, and no two trades of a token at the same time, the first pages of a size,
  -- read one after another, give every trade of the token once when they have room for as many as its
  -- purchases and sales, ordered by time from the latest on, and any column adds up to its sum over the
  -- purchases and the sales. The statements of each request may scan the events in an order of their own.
  pub get_token_trades-pages :
      (scan : ℕ → Tables) (k n : ℕ) (column : Trade → ℕ)
      → ((i : ℕ)
          → Permᴰ d.token_bought_events (scan i).token_bought_events
            × Permᴰ d.token_sold_events (scan i).token_sold_events)
      → AreDistinct (λ t. t.block_timestamp) (trades_of lower token d)
      → length (bought_of lower token d) + length (sold_of lower token d) ≤ k * n
      → (read_pages
            (λ i. listed (get_token_trades lower token (pos n) (pos (i * n)) (healthy (scan i))).0)
            k
          ≡ ok latest_first)
        × IsDescending (λ t. t.block_timestamp) latest_first
        × (total column latest_first
            ≡ total (λ r. column (trade 10 r)) (bought_of lower token d)
              + total (λ r. column (trade 20 r)) (sold_of lower token d))
  unfolding get_token_trades paged query
  get_token_trades-pages scan k n column scans distinct room = (
    read_pages-take _ n latest_first k (λ i low.
          ap (λ rows. ok (take n (drop (i * n) rows)))
            (sym (
              order_desc-perm (λ t. t.block_timestamp)
                (trades_of-perm (scan i) (scans i).0 (scans i).1) distinct)))
        ∙ ap ok (take-all (k * n) latest_first (omega (arith, length-latest_first, room))),
    order_desc-IsDescending (λ t. t.block_timestamp) (trades_of lower token d),
    total-order_desc column (λ t. t.block_timestamp) (trades_of lower token d)
        ∙ total-append column (map (trade 10) (bought_of lower token d))
            (map (trade 20) (sold_of lower token d))
        ∙ omega (
          arith,
          total-map column (trade 10) (bought_of lower token d),
          total-map column (trade 20) (sold_of lower token d),
        ),
  )
