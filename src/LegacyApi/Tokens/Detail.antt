-- ===== src/LegacyApi/Tokens/Detail.antt =====
-- A token's details and holders: `GetTokenDetail`, `GetTokenHolders` and `GetMyIdoList` of
-- apps/api/internal/logic/token/logic.go, with their queries of apps/api/internal/model/token.go and
-- model/trade.go. `lower` is LOWER, and `numeric` the text of a number column.
use meme_launchpad_backend.Common.{
  ℕ, zero, suc, ◌+◌, ◌-◌, ◌*◌, ◌^◌, ◌%◌, ◌≡◌, refl, ◌⊎◌, inl, inr, String, Bool, false, ◌||◌, ◌&&◌,
  Option, none, some, List, [], map, length, ltb, leb, ◌==◌, nat_eq, string_eq, Bool-cases,
  if◌then◌else◌,
}
use meme_launchpad_backend.Fallible.{Result, ok, err, Result-cases}
use meme_launchpad_backend.Go.Strconv.{ℤ, pos, negsuc, wrap_int}
use meme_launchpad_backend.Postgres.Transaction.{World}
use meme_launchpad_backend.Postgres.Query.{query, paged, select, order_desc, total, first}
use meme_launchpad_backend.LegacyApi.Wallet.{Response, failure, success}
use meme_launchpad_backend.LegacyApi.Tokens.{
  Token, Balance, Trade, Tables, Page, Answer, answer, new_page_response,
}

-- numbers of `big.Float`; `above` is Cmp > 0 and `text` is Text('f', 2)
pub record BigFloat (F : Type 0) : Type 0 where
  pub parse : String → Result F
  pub new_float : ℕ → F
  pub is_positive : F → Bool
  pub quo : F → F → F
  pub mul : F → F → F
  pub above : F → F → Bool
  pub text : F → String

-- the last 24 hours of a token; a sum that was not read is none
pub record Stats : Type 0 where
  pub buy_count : ℕ
  pub sell_count : ℕ
  pub total_volume : Option ℕ

pub record Detail : Type 0 where
  pub token : Token
  pub progress_pct : String
  pub stats : Stats

pub record Holder : Type 0 where
  pub address : String
  pub balance : ℕ
  pub percentage : ℕ

-- what a Scan whose error is dropped leaves in a number, and in a text
abbrev pub count_of : Result ℕ → ℕ
count_of (ok n) = n
count_of (err _) = 0

abbrev pub sum_of : Result ℕ → Option ℕ
sum_of (ok n) = some n
sum_of (err _) = none

module _ {F : Type 0} (floats : BigFloat F) where
  abbrev pub hundred : F
  hundred = floats.new_float 100

  abbrev pub percent_of : F → F → F
  percent_of current target = floats.mul (floats.quo current target) hundred

  -- the share of the target that is reached, at most 100
  unfoldable pub progress_pct : String → String → String
  progress_pct bnb_current bnb_target =
      if bnb_target == "" || bnb_target == "0" then "0" else elim (floats.parse bnb_current) [
        | err _ ↦ "0"
        | ok current ↦ elim (floats.parse bnb_target) [
          | err _ ↦ "0"
          | ok target ↦
              if floats.is_positive target
              then floats.text (
                  if floats.above (percent_of current target) hundred
                  then hundred
                  else percent_of current target)
              else "0"
        ]
      ]

  -- The progress of a token is shown as "0" or as the text of a number that is not above 100, whatever
  -- the texts of its amounts are, if 100 is not above itself.
  pub progress_pct-AtMost :
      floats.above hundred hundred ≡ false
      → (bnb_current bnb_target : String)
      → (progress_pct bnb_current bnb_target ≡ "0")
        ⊎ ((x : F) × (progress_pct bnb_current bnb_target ≡ floats.text x)
            × (floats.above x hundred ≡ false))
  unfolding progress_pct
  progress_pct-AtMost irreflexive bnb_current bnb_target =
      elim (Bool-cases (bnb_target == "" || bnb_target == "0")) [
        | inl nothing ↦ rw nothing (inl refl)
        | inr given ↦ elim (Result-cases (floats.parse bnb_current)) [
          | inr (_, bad) ↦ rw (given, bad) (inl refl)
          | inl (current, read) ↦ elim (Result-cases (floats.parse bnb_target)) [
            | inr (_, bad) ↦ rw (given, read, bad) (inl refl)
            | inl (target, there) ↦ elim (Bool-cases (floats.is_positive target)) [
              | inr none_left ↦ rw (given, read, there, none_left) (inl refl)
              | inl above ↦ elim (Bool-cases (floats.above (percent_of current target) hundred)) [
                | inl over ↦ rw (given, read, there, above, over) (inr (hundred, refl, irreflexive))
                | inr within ↦
                    rw (given, read, there, above, within)
                      (inr (percent_of current target, refl, within))
              ]
            ]
          ]
        ]
      ]

-- (page_no - 1) * page_size of 64-bit integers
abbrev pub offset_of : ℤ → ℤ → ℤ
offset_of (pos zero) (pos n) = wrap_int (2 ^ 64 - n % 2 ^ 64)
offset_of (pos zero) (negsuc n) = wrap_int (suc n)
offset_of (pos (suc i)) (pos n) = wrap_int (i * n)
offset_of (pos (suc i)) (negsuc n) = wrap_int (2 ^ 64 - i * suc n % 2 ^ 64)
offset_of (negsuc i) (pos n) = wrap_int (2 ^ 64 - (i + 2) * n % 2 ^ 64)
offset_of (negsuc i) (negsuc n) = wrap_int ((i + 2) * suc n)

-- `GetMyIdoList`, which has no query yet; five other lists of the file give the same reply
unfoldable pub get_my_ido_list : ℤ → ℤ → Answer Page
unfolding new_page_response
get_my_ido_list page_no page_size = answer (new_page_response page_no page_size 0 [])

module _ (lower : String → String) where
  unfoldable pub find_by_address : String → World Tables → Result Token × World Tables
  unfolding query select
  find_by_address address w =
      query (λ d. first (select (λ t. lower t.contract_address == lower address) d.tokens)) w

  -- the trades of a token since a time in nanoseconds, less 24 hours
  abbrev pub recent : ℕ → String → Tables → List Trade
  recent now token d =
      select
        (λ t.
          lower t.token_address == lower token && leb now ((t.block_timestamp + 86400) * 10 ^ 9))
        d.trades

  abbrev pub recent_of : ℕ → ℕ → String → Tables → List Trade
  recent_of type now token d = select (λ t. t.trade_type == type) (recent now token d)

  unfoldable pub get_24h_stats : ℕ → String → World Tables → Stats × World Tables
  unfolding query select total
  get_24h_stats now token w =
      let (bought, w1) = query (λ d. ok (length (recent_of 10 now token d))) w in
      let (sold, w2) = query (λ d. ok (length (recent_of 20 now token d))) w1 in
      let (volume, w3) = query (λ d. ok (total (λ t. t.bnb_amount) (recent now token d))) w2 in
      (
        record {
          buy_count = count_of bought;
          sell_count = count_of sold;
          total_volume = sum_of volume;
        },
        w3,
      )

  unfoldable pub get_token_detail :
      {F : Type 0}
      → BigFloat F
      → (ℕ → String)
      → ℕ
      → String
      → World Tables
      → Response Detail × World Tables
  unfolding find_by_address get_24h_stats progress_pct
  get_token_detail floats numeric now address w =
      let (found, w') = find_by_address address w in
      elim found [
        | err _ ↦ (failure 404 "token not found", w')
        | ok t ↦
            let (stats, w'') = get_24h_stats now address w' in
            (
              success (record {
                token = t;
                progress_pct = progress_pct floats (numeric t.bnb_current) (numeric t.bnb_target);
                stats = stats;
              }),
              w'',
            )
      ]

  abbrev pub balances_of : String → Tables → List Balance
  balances_of token d = select (λ b. lower b.token_address == lower token) d.token_balances

  abbrev pub held : String → Tables → List Balance
  held token d = select (λ b. ltb 0 b.balance) (balances_of token d)

  -- `share` is ROUND(balance * 100.0 / sum, 2) in hundredths
  module _ (share : ℕ → ℕ → ℕ) where
    abbrev pub holder : ℕ → Balance → Holder
    holder sum b = record {
      address = b.holder_address;
      balance = b.balance;
      percentage = share b.balance sum;
    }

    abbrev pub ranked : String → Tables → List Holder
    ranked token d =
        map (holder (total (λ b. b.balance) (balances_of token d)))
          (order_desc (λ b. b.balance) (held token d))

    unfoldable pub find_holders :
        String → ℤ → ℤ → World Tables → Result (List Holder × ℕ) × World Tables
    unfolding paged select order_desc total wrap_int
    find_holders token page_no page_size w =
        paged (λ d. length (held token d)) (ranked token) page_size (offset_of page_no page_size) w

    unfoldable pub get_token_holders :
        String → ℤ → ℤ → World Tables → Response (List Holder × ℕ) × World Tables
    unfolding find_holders
    get_token_holders token page_no page_size w =
        let (r, w') = find_holders token page_no page_size w in
        (elim r [ err _ ↦ failure 500 "failed to get holders" | ok hs ↦ success hs ], w')
