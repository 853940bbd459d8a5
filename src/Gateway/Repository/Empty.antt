-- ===== src/Gateway/Repository/Empty.antt =====
-- A page without tokens over the repository, and over the token service.
use meme_launchpad_backend.Common.{
  ℕ, zero, suc, ◌-◌, ◌*◌, ◌^◌, ◌≤◌, ◌<◌, ◌≡◌, refl, sym, ◌∙◌, ap, true, none, some, List, [], ◌∷◌,
  All, length, arith, ◌==◌, string_eq, String,
}
use meme_launchpad_backend.Fallible.{ok, ok-injective}
use meme_launchpad_backend.Go.Strconv.{wrap_int-same}
use meme_launchpad_backend.Postgres.Query.{order_desc, take, drop}
use meme_launchpad_backend.Postgres.Query.Laws.{length-order_desc}
use meme_launchpad_backend.Gateway.{Token}
use meme_launchpad_backend.Gateway.Messages.RoundTrip.{IsPortable}
use meme_launchpad_backend.Gateway.Http.{Request, pagination, token_list, write_json, page_of}
use meme_launchpad_backend.Gateway.Parity.{filled_reply}
use meme_launchpad_backend.Gateway.Parity.Tokens.{
  remote_tokens, pagination-IsBounded, token_list-remote,
}
use meme_launchpad_backend.Gateway.Repository.{TokenTable, list_rows, token_repository}
use meme_launchpad_backend.Gateway.Repository.Pages.{token_repository-ArePortable}

drop-beyond : (m : ℕ) (xs : List Token) → length xs ≤ m → drop m xs ≡ []
drop-beyond zero [] h = refl
drop-beyond zero (x ∷ xs) h = absurd (omega (arith, h))
drop-beyond (suc m) [] h = refl
drop-beyond (suc m) (x ∷ xs) h = drop-beyond m xs (omega (arith, h))

take-nothing : (n : ℕ) → take {A = Token} n [] ≡ []
take-nothing zero = refl
take-nothing (suc n) = refl

module _ (lower : String → String) (table : TokenTable) (portable : All IsPortable table.rows) where
  -- While the database can be reached and all rows fit into messages, REST replies to a request for a page
  -- behind the last token, whose number an int32 holds, with null over the repository and with an empty
  -- list over the token service.
  pub token_list-empty :
      (r : Request) (page size : ℕ)
      → table.reachable ≡ true
      → (r.method == "GET") ≡ true
      → pagination r.query ≡ ok (page, size)
      → page < 2 ^ 31
      → length table.rows ≤ (page - 1) * size
      → (token_list (token_repository lower table) r ≡ write_json (page_of none page size))
        × (token_list (remote_tokens (token_repository lower table)) r
            ≡ write_json (page_of (some []) page size))
  unfolding token_list list_rows
  token_list-empty r page size up get paged low beyond =
      let (h, k, few) = pagination-IsBounded r.query (page, size) paged in
      let exact = wrap_int-same ((page - 1) * size) (held page size low few) in
      let rows = order_desc (λ t. t.created_at) table.rows in
      let nothing : take size (drop ((page - 1) * size) rows) ≡ [] =
        ap (take size) (
          drop-beyond ((page - 1) * size) rows
            (omega (arith, length-order_desc (λ t. t.created_at) table.rows, beyond)))
        ∙ take-nothing size in
      let near : token_list (token_repository lower table) r ≡ write_json (page_of none page size) =
        rw get (rw paged (rw exact (rw (up, list_rows) (rw nothing refl)))) in
      (
        near,
        token_list-remote (token_repository lower table)
              (token_repository-ArePortable lower table portable) r
              (λ p n there.
                let same = ap (λ q. q.0) (ok-injective (sym there ∙ paged)) in
                omega (arith, same, low))
            ∙ ap filled_reply near,
      )
    where
      held : (page size : ℕ) → page < 2 ^ 31 → size < 101 → (page - 1) * size < 2 ^ 63
      held page size low few = grind arith
