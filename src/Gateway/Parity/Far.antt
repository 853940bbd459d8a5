-- ===== src/Gateway/Parity/Far.antt =====
-- Pages whose number an int32 does not hold.
use native.Mathlib.Nat.{mul-div_cancel, mul-mod_left}
use meme_launchpad_backend.Common.{
  ℕ, ◌+◌, ◌-◌, ◌*◌, ◌^◌, ◌<◌, ◌≤◌, ◌≡◌, refl, ap, ◌∙◌, true, false, ◌||◌, ltb, ◌==◌, string_eq,
  arith,
}
use meme_launchpad_backend.Fallible.{Error, msg, ok, err}
use meme_launchpad_backend.Go.Strconv.{wrap_int-same, pos}
use meme_launchpad_backend.Gateway.{Slice, Token, TokenReader}
use meme_launchpad_backend.Gateway.Server.{list_tokens, get_token}
use meme_launchpad_backend.Gateway.Client.{list_page, list}
use meme_launchpad_backend.Gateway.Http.{
  Request, pagination, token_list, write_error, write_json, page_of,
}
use meme_launchpad_backend.Gateway.Parity.Tokens.{remote_tokens, pagination-IsBounded}

module _ (tokens : TokenReader) where
  list-far :
      (page size : ℕ)
      → 2 ^ 31 ≤ page
      → 0 < size
      → size < 101
      → (e : Error) × (list
            (list_tokens tokens)
            (get_token tokens)
            (pos size)
            (pos ((page - 1) * size))
          ≡ err e)
  unfolding list list_page
  list-far page size far k few = (msg "token list page exceeds gRPC range", refused)
    where
      within : (n : ℕ) → 0 < n → n < 101 → (ltb n 1 || ltb 100 n) ≡ false
      within n h few = ground arith

      beyond : (n : ℕ) → 2 ^ 31 ≤ n → ltb (2 ^ 31 - 1) n ≡ true
      beyond n far = ground arith

      counted : (n : ℕ) → 2 ^ 31 ≤ n → n - 1 + 1 ≡ n
      counted n far = omega arith

      refused :
          list (list_tokens tokens) (get_token tokens) (pos size) (pos ((page - 1) * size))
          ≡ err (msg "token list page exceeds gRPC range")
      refused = rw (within size k few) (
          rw (mul-mod_left (page - 1) size, list_page)
            (rw (ap (λ n. n + 1) (mul-div_cancel (page - 1) k) ∙ counted page far)
              (rw (beyond page far) refl)))

  -- For a page from 2^31 on whose offset an int64 holds and where the reader has rows, REST over the
  -- reader replies with them, and REST over the token service with an error.
  pub token_list-far :
      (r : Request) (page size : ℕ) (items : Slice Token)
      → (r.method == "GET") ≡ true
      → pagination r.query ≡ ok (page, size)
      → 2 ^ 31 ≤ page
      → (page - 1) * size < 2 ^ 63
      → tokens.list (pos size) (pos ((page - 1) * size)) ≡ ok items
      → (token_list (remote_tokens tokens) r ≡ write_error "failed to list tokens" 500)
        × (token_list tokens r ≡ write_json (page_of items page size))
  unfolding token_list
  token_list-far r page size items get paged far held good =
      let (h, k, few) = pagination-IsBounded r.query (page, size) paged in
      let exact = wrap_int-same ((page - 1) * size) held in
      let (e, refused) = list-far page size far k few in
      (rw get (rw paged (rw exact (rw refused refl))), rw get (rw paged (rw exact (rw good refl))))
