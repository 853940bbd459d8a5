-- ===== src/Tests/Lists.antt =====
-- The theorems about the lists, the statistics and the favorites of the legacy API at concrete inputs.
use mathlib.Core.List.{Permᴰ}
use mathlib.Core.List.Permᴰ
use meme_launchpad_backend.Common.{
  ℕ, zero, suc, ◌+◌, ◌*◌, ◌^◌, ◌≡◌, refl, true, false, none, some, List, [], ◌∷◌, length, ◌==◌,
  string_eq, pair_eq, nat_eq, arith, if◌then◌else◌,
}
use meme_launchpad_backend.Fallible.{ok}
use meme_launchpad_backend.Go.Strconv.{pos}
use meme_launchpad_backend.Postgres.Table.{lookup}
use meme_launchpad_backend.Postgres.Transaction.{World}
use meme_launchpad_backend.Postgres.Query.{select, take, drop, total}
use meme_launchpad_backend.Postgres.Query.Laws.{read_pages, IsDescending}
use meme_launchpad_backend.LegacyIndexer.Rows
use meme_launchpad_backend.LegacyIndexer.Rows.{TokenBoughtEvent}
use meme_launchpad_backend.Postgres.Query.Cursor.{AreDistinct}
use meme_launchpad_backend.LegacyIndexer.Database.{insert_token_bought_event}
use meme_launchpad_backend.LegacyIndexer.Database.Recount
use meme_launchpad_backend.LegacyApi.Wallet.{success}
use meme_launchpad_backend.LegacyApi.Events.{
  UserStats, has, trades_of, bought_of, sold_of, get_token_trades, get_user_trade_stats,
}
use meme_launchpad_backend.LegacyApi.Events.Pages.{listed, latest_first, get_token_trades-pages}
use meme_launchpad_backend.LegacyApi.Events.Indexed.{event_row, traded, user_stats-bought}
use meme_launchpad_backend.LegacyApi.Tokens.{
  Token, Tables, panicked, answered, get_token_list, sort_key, has_mode,
}
use meme_launchpad_backend.LegacyApi.Tokens.UserFavorites.{is_favorite}
use meme_launchpad_backend.LegacyApi.Tokens.Lists.{
  healthy, pages_of, scanned, shown, chosen, number, get_token_list-pages, get_token_list-panics,
}
use meme_launchpad_backend.LegacyApi.Tokens.Favorites.{
  Act, like, unlike, contains, runs, set_after, is_favorite-set_after,
}
use meme_launchpad_backend.Tests.{
  small, noon, quotient, empty_tables, purchase_event, second_purchase,
}

-- a purchase of the next second
abbrev later_purchase : TokenBoughtEvent
later_purchase = record second_purchase { block_timestamp = noon + 1 }

-- two purchases of a token
abbrev two_purchases : Rows.Tables
two_purchases = record empty_tables {
  token_bought_events =
      (("0x01", 0), event_row purchase_event) ∷ (("0x01", 1), event_row later_purchase) ∷ [];
}

two_purchases-count :
    length (bought_of small "0xAB" two_purchases) + length (sold_of small "0xAB" two_purchases) ≡ 2
unfolding select
two_purchases-count = refl

-- which the second request scans from the end
abbrev later_scan : ℕ → Rows.Tables
later_scan zero = two_purchases
later_scan (suc _) = record two_purchases {
  token_bought_events =
      (("0x01", 1), event_row later_purchase) ∷ (("0x01", 0), event_row purchase_event) ∷ [];
}

later_scan-perm :
    (i : ℕ)
    → Permᴰ two_purchases.token_bought_events (later_scan i).token_bought_events
      × Permᴰ two_purchases.token_sold_events (later_scan i).token_sold_events
later_scan-perm zero = (Permᴰ.refl two_purchases.token_bought_events, Permᴰ.nil)
later_scan-perm (suc i) = (Permᴰ.swap refl refl, Permᴰ.nil)

two_purchases-AreDistinct :
    AreDistinct (λ t. t.block_timestamp) (trades_of small "0xAB" two_purchases)
unfolding select
two_purchases-AreDistinct = ((λ same. omega (arith, same), tt), (tt, tt))

get_token_trades-pages_example :
    (read_pages
        (λ i.
          listed
            (get_token_trades small "0xAB"
              (pos 1)
              (pos (i * 1))
              (Recount.healthy (later_scan i))).0)
        2
      ≡ ok (latest_first small "0xAB" two_purchases))
    × IsDescending (λ t. t.block_timestamp) (latest_first small "0xAB" two_purchases)
    × (total (λ t. t.token_amount) (latest_first small "0xAB" two_purchases)
        ≡ total (λ r. r.1.token_amount) (bought_of small "0xAB" two_purchases)
          + total (λ r. r.1.token_amount) (sold_of small "0xAB" two_purchases))
get_token_trades-pages_example =
    get_token_trades-pages small "0xAB" two_purchases later_scan 2 1 (λ t. t.token_amount)
      later_scan-perm two_purchases-AreDistinct (omega (arith, two_purchases-count))

user_stats-bought_example :
    let own = small "0xcd" == small "0xcd" in
    let before = get_user_trade_stats small "0xcd" (Recount.healthy empty_tables) in
    let after =
      get_user_trade_stats small "0xcd"
        (insert_token_bought_event small quotient purchase_event
          (Recount.healthy empty_tables)).1 in
    (s : UserStats) × (s' : UserStats) × (before.0 ≡ ok s)
    × (after.0 ≡ ok s')
    × (s'.total_buy_count ≡ s.total_buy_count + (if own then 1 else 0))
    × ((n : ℕ) × (s.total_buy_bnb ≡ some n)
        × (s'.total_buy_bnb ≡ some (n + (if own then 10 ^ 18 else 0))))
    × (s'.total_sell_count ≡ s.total_sell_count)
    × (s'.total_sell_bnb ≡ s.total_sell_bnb)
    × (s'.traded_token_count
        ≡ s.traded_token_count
          + (if own
              then (if has "0xAB" (traded small quotient "0xcd" empty_tables) then 0 else 1)
              else 0))
unfolding lookup
user_stats-bought_example = user_stats-bought small quotient purchase_event empty_tables "0xcd" refl

abbrev meme : Token
meme = record {
  id = 1;
  name = "Meme";
  symbol = "MEME";
  logo = "";
  banner = none;
  description = none;
  website = none;
  twitter = none;
  telegram = none;
  contract_address = "0xAB";
  creator_address = "0xcd";
  launch_mode = 1;
  launch_time = 0;
  bnb_current = 3;
  bnb_target = 9;
  total_supply = 100;
  status = 1;
  hot = 5;
  token_lv = 0;
  token_rank = 0;
  nonce = 0;
  created_at = noon;
}

-- two tokens, and a user
abbrev shelf : Tables
shelf = record {
  tokens = meme ∷ record meme { id = 2; hot = 7 } ∷ [];
  users = 7 ∷ [];
  favorites = [];
  trades = [];
  token_balances = [];
}

shelf-number : number "hot" (pos 1) shelf ≡ 2
unfolding select
shelf-number = refl

shelf-pages : pages_of (number "hot" (pos 1) shelf) 1 ≡ 2
unfolding select
shelf-pages = refl

-- which the second request scans from the end
abbrev shelf_scan : ℕ → List Token
shelf_scan zero = shelf.tokens
shelf_scan (suc _) = record meme { id = 2; hot = 7 } ∷ meme ∷ []

shelf_scan-perm : (j : ℕ) → Permᴰ shelf.tokens (shelf_scan j)
shelf_scan-perm zero = Permᴰ.refl shelf.tokens
shelf_scan-perm (suc j) = Permᴰ.swap refl refl

shelf-AreDistinct : AreDistinct (sort_key "hot") (select (has_mode (pos 1)) shelf.tokens)
unfolding select
shelf-AreDistinct = ((λ same. omega (arith, same), tt), (tt, tt))

get_token_list-pages_example :
    ((get_token_list
        (pos 2)
        (pos 1)
        "hot"
        (pos 1)
        (healthy (scanned "hot" (pos 1) shelf (shelf_scan 1)))).0
      ≡ answered (
          success (record {
            page_no = pos 2;
            page_size = pos 1;
            total = number "hot" (pos 1) shelf;
            total_page = pos (pages_of (number "hot" (pos 1) shelf) 1);
            result = take 1 (drop (1 * 1) (chosen "hot" (pos 1) shelf));
          })))
    × (read_pages
          (λ j.
            shown
              (get_token_list
                (pos (suc j))
                (pos 1)
                "hot"
                (pos 1)
                (healthy (scanned "hot" (pos 1) shelf (shelf_scan j)))).0)
          (pages_of (number "hot" (pos 1) shelf) 1)
        ≡ ok (chosen "hot" (pos 1) shelf))
get_token_list-pages_example =
    get_token_list-pages "hot" (pos 1) shelf shelf_scan 1 0 shelf_scan-perm shelf-AreDistinct
      (omega (arith, shelf-pages)) (omega (arith, shelf-number))

get_token_list-panics_example :
    (get_token_list (pos 1) (pos 0) "hot" (pos 1) (healthy shelf)).0 ≡ panicked
get_token_list-panics_example = get_token_list-panics "hot" (pos 1) shelf 0 (omega arith)

-- a user likes two tokens and the first no more, and a database that fails once
abbrev mind : List Act
mind = like noon 7 1 ∷ like noon 7 2 ∷ unlike 7 1 ∷ []

abbrev wavering : World Tables
wavering = record { db = shelf; faults = false ∷ true ∷ [] }

is_favorite-set_after_example :
    (is_favorite 7 2 (record (runs mind wavering) { faults = [] })).0
    ≡ ok (set_after mind wavering (contains shelf) (7, 2))
is_favorite-set_after_example = is_favorite-set_after mind wavering 7 2
