-- ===== src/Tests/Services.antt =====
-- The theorems about the transports at concrete inputs.
use mathlib.Core.List.{Permᴰ}
use mathlib.Core.List.Permᴰ
use mathlib.Core.Path.{subst}
use meme_launchpad_backend.Common.{
  true, ◌∷◌, ◌*◌, ℕ, zero, suc, ◌+◌, ◌^◌, ◌≡◌, refl, ap, String, none, some, List, [], All, ◌==◌,
  string_eq, arith, if◌then◌else◌,
}
use meme_launchpad_backend.Fallible.{msg, Result, ok, err, ok-injective}
use meme_launchpad_backend.Go.Strconv.{pos, ℤ, parse_int}
use meme_launchpad_backend.TokenCreation
use meme_launchpad_backend.TokenCreation.{Response}
use meme_launchpad_backend.Upload.{PresignResult}
use meme_launchpad_backend.Gateway.Messages.RoundTrip.{IsPortable}
use meme_launchpad_backend.Gateway.{Slice, items_of, Token, Claims, TokenReader, Authenticator}
use meme_launchpad_backend.Gateway.Http.{
  Request, Bodies, query_number, pagination, token_list, write_error, write_json, page_of,
}
use meme_launchpad_backend.Gateway.Http.Routes.{new_handler}
use meme_launchpad_backend.Gateway.Parity.Tokens.{ArePortable, remote_tokens}
use meme_launchpad_backend.Gateway.Parity.Uploads.{ExpireInTime}
use meme_launchpad_backend.Gateway.Parity.Far.{token_list-far}
use meme_launchpad_backend.Gateway.Parity.Handlers.{
  IsNarrow, local_handlers, remote_handlers, Agree, new_handler-Agree,
}
use meme_launchpad_backend.Gateway.Repository.{TokenTable, token_repository}
use meme_launchpad_backend.Gateway.Repository.Empty.{token_list-empty}
use meme_launchpad_backend.Gateway.Repository.Pages.{
  all_items, latest_tokens, scanned, remote_tokens-pages,
}
use meme_launchpad_backend.Postgres.Query.Cursor.{AreDistinct}
use meme_launchpad_backend.Postgres.Query.Laws.{read_pages}
use meme_launchpad_backend.Tests.{small}
use meme_launchpad_backend.Gateway.Guard.{is_public, IsGuarded, new_handler-guarded}

abbrev claims : Claims
claims = record { user_id = 1; address = "0xab"; issued_at = none; expires_at = none }

-- tokens without a row
abbrev no_tokens : TokenReader
no_tokens = record { list = λ limit offset. ok none; find_by_address = λ address. ok none }

-- a service that trusts one token; the state counts the requests to create tokens
abbrev auth : Authenticator ℕ
auth = record {
  request_message = λ address s. (err (msg "invalid wallet address"), s);
  login = λ address signature s. (err (msg "invalid signature"), s);
  parse_token = λ token. if token == "jwt" then ok claims else err (msg "parse token");
}

abbrev response : Response
response = record {
  call_data = "0x01";
  signature = "0x02";
  request_id = "0x03";
  salt = "0x04";
  predicted_address = "0x05";
  nonce = 6;
  timestamp = 7;
}

abbrev create : TokenCreation.Request → ℕ → Result Response × ℕ
create request s = (ok response, s + 1)

abbrev presign : String → String → ℤ → ℕ → Result PresignResult × ℕ
presign folder mime_type chain_id s = (err (msg "unsupported image type"), s)

abbrev confirm : ℕ → Result (Unit {0}) × ℕ
confirm s = (ok tt, s)

abbrev bodies : Bodies
bodies = record {
  login_body = λ body. err (msg "EOF");
  create_body = λ body. ok ("Meme", "MEME", 8, 9);
}

abbrev address_of : String → ℕ
address_of s = if s == "0xab" then 171 else 0

-- a request to create a token, by the holder of a token
abbrev creation : Request
creation = record {
  method = "POST";
  path = "/api/v1/token/create";
  query = λ _. "";
  authorization = "Bearer jwt";
  body = "{}";
}

-- and a request without one
abbrev anonymous : Request
anonymous = record creation { authorization = "" }

-- page 2^31 of the tokens
abbrev far : Request
far = record {
  method = "GET";
  path = "/api/v1/token/list";
  query = λ name. if name == "page" then "2147483648" else "";
  authorization = "";
  body = "";
}

no_tokens_listed : (items : Slice Token) → none ≡ items → All IsPortable (items_of items)
no_tokens_listed items h = subst (λ ts. All IsPortable (items_of ts)) h tt

no_tokens-ArePortable : ArePortable no_tokens
no_tokens-ArePortable = record {
  listed = λ limit offset items h. no_tokens_listed items (ok-injective h);
  found = λ address t h. absurd cc;
}

presign-ExpireInTime : ExpireInTime auth presign confirm
presign-ExpireInTime = λ folder mime_type chain_id s p h. absurd cc

creation-IsNarrow : IsNarrow creation
unfolding pagination query_number
creation-IsNarrow = record {
  paged = λ page size h. let same = ap (λ p. p.0) (ok-injective h) in omega (arith, same);
  chained = λ n h. let same = ok-injective h in omega (arith, same);
}

new_handler-Agree_example :
    Agree
      (new_handler
        (remote_handlers "api" auth no_tokens create presign confirm bodies address_of)
        creation
        0)
      (new_handler
        (local_handlers "api" auth no_tokens create presign confirm bodies address_of)
        creation
        0)
new_handler-Agree_example =
    new_handler-Agree "api" auth no_tokens create presign confirm bodies address_of
      no_tokens-ArePortable presign-ExpireInTime creation 0 creation-IsNarrow

new_handler-guarded_example : IsGuarded auth anonymous 0 (
    new_handler
      (local_handlers "api" auth no_tokens create presign confirm bodies address_of)
      anonymous
      0)
unfolding is_public
new_handler-guarded_example =
    new_handler-guarded auth
      (local_handlers "api" auth no_tokens create presign confirm bodies address_of) anonymous 0
      refl refl

token_list-far_example :
    (token_list (remote_tokens no_tokens) far ≡ write_error "failed to list tokens" 500)
    × token_list no_tokens far ≡ write_json (page_of none (2 ^ 31) 20)
unfolding pagination query_number parse_int
token_list-far_example =
    token_list-far no_tokens far (2 ^ 31) 20 none refl refl (omega arith) (omega arith) refl

-- page 2 of the tokens
abbrev second_page : Request
second_page = record far { query = λ name. if name == "page" then "2" else "" }

abbrev meme : Token
meme = record {
  id = 1;
  name = "Meme";
  symbol = "MEME";
  logo = "";
  description = none;
  contract_address = "0xAB";
  creator_address = "0xcd";
  launch_mode = pos 1;
  bnb_current = "0";
  bnb_target = "9";
  total_supply = "1000";
  status = pos 1;
  created_at = 5;
}

-- two tokens
abbrev launched : TokenTable
launched = record { rows = meme ∷ record meme { id = 2; created_at = 6 } ∷ []; reachable = true }

launched-ArePortable : All IsPortable launched.rows
launched-ArePortable = (
  record { moded = omega arith; marked = omega arith; timed = omega arith },
  (record { moded = omega arith; marked = omega arith; timed = omega arith }, tt),
)

-- which the second query scans from the end
abbrev scan : ℕ → List Token
scan zero = launched.rows
scan (suc _) = record meme { id = 2; created_at = 6 } ∷ meme ∷ []

scan-perm : (i : ℕ) → Permᴰ launched.rows (scan i)
scan-perm zero = Permᴰ.refl launched.rows
scan-perm (suc i) = Permᴰ.swap refl refl

launched-AreDistinct : AreDistinct (λ t. t.created_at) launched.rows
launched-AreDistinct = ((λ same. omega (arith, same), tt), (tt, tt))

remote_tokens-pages_example :
    read_pages
      (λ i. all_items (
        (remote_tokens
            (token_repository small (scanned small launched launched-ArePortable (scan i)))).list
          (pos 1)
          (pos (i * 1))))
      2
    ≡ ok (latest_tokens small launched launched-ArePortable)
remote_tokens-pages_example =
    remote_tokens-pages small launched launched-ArePortable scan 1 2 scan-perm launched-AreDistinct
      refl (omega arith) (omega arith) (omega arith) (omega arith)

token_list-empty_example :
    (token_list (token_repository small launched) second_page ≡ write_json (page_of none 2 20))
    × (token_list (remote_tokens (token_repository small launched)) second_page
        ≡ write_json (page_of (some []) 2 20))
unfolding pagination query_number parse_int
token_list-empty_example =
    token_list-empty small launched launched-ArePortable second_page 2 20 refl refl refl
      (omega arith) (omega arith)
