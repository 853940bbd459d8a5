-- ===== src/Gateway/Parity/Tokens.antt =====
-- Reading tokens over the token service.
use native.Mathlib.Nat.{mul-div_cancel, mul-mod_left}
use meme_launchpad_backend.Common.{
  ℕ, zero, suc, ◌+◌, ◌-◌, ◌*◌, ◌/◌, ◌^◌, ◌<◌, ◌≡◌, refl, ap, ◌∙◌, String, false, ◌||◌, some, All,
  ltb, ◌==◌, nat_eq, string_eq, Bool-cases, Option-cases, some-injective, inl, inr, arith,
  if◌then◌else◌,
}
use meme_launchpad_backend.Fallible.{
  Error, msg, wrap, Result, ok, err, ◌>>=◌, Result-cases, ok-injective, Yields, ok-Yields, ◌⟫◌,
}
use meme_launchpad_backend.Go.Strconv.{wrap_int-same, ℤ, pos, negsuc, parse_int}
use meme_launchpad_backend.Gateway.{Slice, items_of, Token, TokenReader, positive}
use meme_launchpad_backend.Gateway.Messages.{message, repository_tokens}
use meme_launchpad_backend.Gateway.Messages.RoundTrip.{
  IsPortable, to_int32-same, repository_token-token_message, repository_tokens-map,
}
use meme_launchpad_backend.Gateway.Server.{grpc_pagination, list_tokens, get_token}
use meme_launchpad_backend.Gateway.Client.{call, list_page, list, find_by_address, token_reader}
use meme_launchpad_backend.Gateway.Parity.{filled_reply}
use meme_launchpad_backend.Gateway.Http.{
  Request, query_number, pagination, token_list, token_detail,
}

-- the adapter over the service over a reader
abbrev pub remote_tokens : TokenReader → TokenReader
remote_tokens tokens = token_reader (list_tokens tokens) (get_token tokens)

-- what it says of an error, and of a nil slice
abbrev pub failure : {A : Type 0} → Result A
failure = err (
    wrap "list tokens over internal gRPC"
      (msg "rpc error: code = Internal desc = failed to list tokens"))

abbrev pub same_or_failure : Result (Slice Token) → Result (Slice Token)
same_or_failure (ok items) = ok (some (items_of items))
same_or_failure (err _) = failure

-- All that a reader gives can be held by a message.
pub record ArePortable (tokens : TokenReader) : Type 0 where
  pub listed :
      (limit offset : ℤ) (items : Slice Token)
      → tokens.list limit offset ≡ ok items
      → All IsPortable (items_of items)
  pub found :
      (address : String) (t : Token) → tokens.find_by_address address ≡ ok (some t) → IsPortable t

grpc_pagination-ok :
    (page size : ℕ)
    → 0 < page
    → 0 < size
    → size < 101
    → grpc_pagination (record { page = some (pos page); page_size = some (pos size) })
      ≡ message (page, size)
unfolding grpc_pagination
grpc_pagination-ok zero size h k few = absurd (omega arith)
grpc_pagination-ok (suc page) zero h k few = absurd (omega arith)
grpc_pagination-ok (suc page) (suc size) h k few = ground arith

positive-pos : (z : ℤ) (n : ℕ) → positive z ≡ some n → 0 < n
positive-pos (pos zero) n h = absurd cc
positive-pos (pos (suc k)) n h = let same = some-injective h in omega (arith, same)
positive-pos (negsuc k) n h = absurd cc

pub query_number-pos :
    (default : ℕ) (e : Error) (raw : String) (n : ℕ)
    → 0 < default
    → query_number default e raw ≡ ok n
    → 0 < n
unfolding query_number
query_number-pos default e raw n h q = elim (Bool-cases (raw == "")) [
  | inl same ↦ let k = ok-injective (rw same at q) in omega (arith, k)
  | inr other ↦ elim (Option-cases (parse_int raw)) [
    | inl unread ↦ let k = rw unread at (rw other at q) in absurd cc
    | inr (z, read) ↦ elim (Option-cases (positive z)) [
      | inl small ↦ let k = rw small at (rw read at (rw other at q)) in absurd cc
      | inr (m, large) ↦
          let k = ok-injective (rw large at (rw read at (rw other at q))) in
          omega (arith, k, positive-pos z m large)
    ]
  ]
]

-- the bounds of a page
abbrev pub IsBounded : ℕ × ℕ → Type 0
IsBounded (page, size) = (0 < page) × (0 < size) × (size < 101)

pub pagination-IsBounded : (query : String → String) → Yields IsBounded (pagination query)
unfolding pagination
pagination-IsBounded query =
    ◌⟫◌ {Q = λ page. 0 < page} {P = IsBounded}
      (λ n. query_number-pos 1 (msg "page must be positive") (query "page") n (omega arith))
      (λ page h.
        ◌⟫◌ {Q = λ size. 0 < size} {P = IsBounded}
          (λ n.
            query_number-pos 20 (msg "pageSize must be from 1 to 100") (query "pageSize") n
              (omega arith))
          (λ size k. limited page size h k))
  where
    limited :
        (page size : ℕ)
        → 0 < page
        → 0 < size
        → Yields IsBounded
            (if ltb 100 size then err (msg "pageSize must be from 1 to 100") else ok (page, size))
    limited page size h k = elim (Bool-cases (ltb 100 size)) [
      | inl large ↦ rw large (λ p q. absurd cc)
      | inr few ↦ rw few (ok-Yields IsBounded (h, k, ground arith))
    ]

offset_bound : (page size : ℕ) → page < 2 ^ 31 → size < 101 → (page - 1) * size < 2 ^ 63
offset_bound page size low few = grind arith

module _ (tokens : TokenReader) (portable : ArePortable tokens) where
  listed :
      (page size : ℕ)
      → 0 < page
      → 0 < size
      → size < 101
      → (call "list tokens over internal gRPC"
            (list_tokens tokens (record { page = some (pos page); page_size = some (pos size) }))
          >>= (λ r. repository_tokens r.items >>= (λ items. ok (some items))))
        ≡ same_or_failure (tokens.list (pos size) (pos ((page - 1) * size)))
  unfolding list_tokens call
  listed page size h k few =
      rw (grpc_pagination-ok page size h k few)
        (elim (Result-cases (tokens.list (pos size) (pos ((page - 1) * size)))) [
          | inr (e, bad) ↦ rw bad refl
          | inl (items, good) ↦ rw good (
              ap (λ t. t >>= (λ items. ok (some items)))
                (repository_tokens-map (items_of items)
                  (portable.listed (pos size) (pos ((page - 1) * size)) items good)))
        ])

  list_page-remote :
      (page size : ℕ)
      → 0 < page
      → page < 2 ^ 31
      → 0 < size
      → size < 101
      → list_page (list_tokens tokens) (get_token tokens) size ((page - 1) * size)
        ≡ same_or_failure (tokens.list (pos size) (pos ((page - 1) * size)))
  unfolding list_page
  list_page-remote page size h low k few =
      let whole = mul-mod_left (page - 1) size in
      let numbered : (page - 1) * size / size + 1 ≡ page =
        ap (λ n. n + 1) (mul-div_cancel (page - 1) k) ∙ counted page h in
      rw (whole, list_page)
        (rw numbered (
          rw (below page low) (
            rw (to_int32-same (pos page) low)
              (rw (to_int32-same (pos size) (omega arith)) (listed page size h k few)))))
    where
      counted : (n : ℕ) → 0 < n → n - 1 + 1 ≡ n
      counted n h = omega arith

      below : (n : ℕ) → n < 2 ^ 31 → ltb (2 ^ 31 - 1) n ≡ false
      below n h = ground arith

  pub list-remote :
      (page size : ℕ)
      → 0 < page
      → page < 2 ^ 31
      → 0 < size
      → size < 101
      → list (list_tokens tokens) (get_token tokens) (pos size) (pos ((page - 1) * size))
        ≡ same_or_failure (tokens.list (pos size) (pos ((page - 1) * size)))
  unfolding list
  list-remote page size h low k few =
      rw (within size k few) (list_page-remote page size h low k few)
    where
      within : (n : ℕ) → 0 < n → n < 101 → (ltb n 1 || ltb 100 n) ≡ false
      within n h few = ground arith

  pub token_detail-remote :
      (r : Request) → token_detail (remote_tokens tokens) r ≡ token_detail tokens r
  unfolding token_detail find_by_address get_token call
  token_detail-remote r = elim (Bool-cases (r.method == "GET")) [
    | inr other ↦ rw other refl
    | inl get ↦ elim (Bool-cases (r.query "address" == "")) [
      | inl none_given ↦ rw get (rw none_given refl)
      | inr given ↦ elim (Result-cases (tokens.find_by_address (r.query "address"))) [
        | inr (e, bad) ↦ rw get (rw given (rw bad refl))
        | inl (found, here) ↦ elim (Option-cases found) [
          | inl gone ↦ let nowhere = here ∙ ap ok gone in rw get (rw given (rw nowhere refl))
          | inr (t, it) ↦
              let there : tokens.find_by_address (r.query "address") ≡ ok (some t) =
                here ∙ ap ok it in
              let back =
                repository_token-token_message t (portable.found (r.query "address") t there) in
              rw get (rw given (rw there (rw back refl)))
        ]
      ]
    ]
  ]

  pub token_list-remote :
      (r : Request)
      → ((page size : ℕ) → pagination r.query ≡ ok (page, size) → page < 2 ^ 31)
      → token_list (remote_tokens tokens) r ≡ filled_reply (token_list tokens r)
  unfolding token_list
  token_list-remote r low = elim (Bool-cases (r.method == "GET")) [
    | inr other ↦ rw other refl
    | inl get ↦ elim (Result-cases (pagination r.query)) [
      | inr (e, bad) ↦ rw get (rw bad refl)
      | inl ((page, size), paged) ↦
          let (h, k, few) = pagination-IsBounded r.query (page, size) paged in
          let small = low page size paged in
          let exact = wrap_int-same ((page - 1) * size) (offset_bound page size small few) in
          let over = list-remote page size h small k few in
          elim (Result-cases (tokens.list (pos size) (pos ((page - 1) * size)))) [
            | inr (e, bad) ↦ rw get (rw paged (rw exact (rw over (rw bad refl))))
            | inl (items, good) ↦ rw get (rw paged (rw exact (rw over (rw good refl))))
          ]
    ]
  ]
