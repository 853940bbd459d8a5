-- ===== src/LegacyApi/Tokens/Holders.antt =====
-- The pages of the holders of a token.
use meme_launchpad_backend.Common.{
  ℕ, suc, ◌*◌, ◌^◌, ◌≤◌, ◌<◌, ◌≡◌, refl, ◌∙◌, ap, String, List, length, arith,
}
use meme_launchpad_backend.Fallible.{msg, Result, ok, err}
use meme_launchpad_backend.Go.Strconv.{pos, wrap_int-same}
use meme_launchpad_backend.Postgres.Query.{query, paged, order_desc, total, take, drop}
use meme_launchpad_backend.Postgres.Query.Laws.{
  read_pages, read_pages-take, take-all, length-order_desc, length-map, total-order_desc, total-map,
}
use meme_launchpad_backend.LegacyApi.Wallet.{Response, failure, success}
use meme_launchpad_backend.LegacyApi.Tokens.{Tables}
use meme_launchpad_backend.LegacyApi.Tokens.Lists.{healthy}
use meme_launchpad_backend.LegacyApi.Tokens.Detail.{
  Holder, balances_of, held, holder, ranked, find_holders, get_token_holders,
}

-- the holders of a reply
abbrev pub holders_of : Response (List Holder × ℕ) → Result (List Holder)
holders_of (success (hs, _)) = ok hs
holders_of (failure code text) = err (msg text)

module _ (lower : String → String) (share : ℕ → ℕ → ℕ) (token : String) (d : Tables) where
  get_token_holders-page :
      (i n : ℕ)
      → i * n < 2 ^ 63
      → (get_token_holders lower share token (pos (suc i)) (pos n) (healthy d)).0
        ≡ success (take n (drop (i * n) (ranked lower share token d)), length (held lower token d))
  unfolding get_token_holders find_holders paged query
  get_token_holders-page i n low = rw (wrap_int-same (i * n) low, get_token_holders) refl

  -- With no failing statement, and where every query scans the rows in one order, the first pages of the holders of a token, as far as an int64 counts
  -- them and with room for all, are one after another every holder of a positive balance, the largest
  -- first, and their balances add up to the sum over these rows.
  pub get_token_holders-pages :
      (k n : ℕ)
      → length (held lower token d) ≤ k * n
      → k * n < 2 ^ 63
      → (read_pages
            (λ i.
              holders_of (get_token_holders lower share token (pos (suc i)) (pos n) (healthy d)).0)
            k
          ≡ ok (ranked lower share token d))
        × (total (λ h. h.balance) (ranked lower share token d)
            ≡ total (λ b. b.balance) (held lower token d))
  get_token_holders-pages k n room few =
      let rows = order_desc (λ b. b.balance) (held lower token d) in
      let sum = total (λ b. b.balance) (balances_of lower token d) in
      (
        read_pages-take _ n (ranked lower share token d) k
              (λ i low. ap holders_of (get_token_holders-page i n (below i low)))
            ∙ ap ok (
                take-all (k * n) (ranked lower share token d) (
                  omega (
                    arith,
                    room,
                    length-map (holder lower share sum) rows,
                    length-order_desc (λ b. b.balance) (held lower token d),
                  ))),
        total-map (λ h. h.balance) (holder lower share sum) rows
            ∙ total-order_desc (λ b. b.balance) (λ b. b.balance) (held lower token d),
      )
    where
      below : (i : ℕ) → i < k → i * n < 2 ^ 63
      below i low = grind (arith, few)
