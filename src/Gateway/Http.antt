-- ===== src/Gateway/Http.antt =====
-- The REST handlers of the rebuild: app-rebuild/internal/httpapi/server.go. A request has its first value
-- of each parameter of the query, or an empty text; a reply has its status and what the body encodes.
pub mod Routes
use meme_launchpad_backend.Common.{
  ℕ, ◌-◌, ◌*◌, String, not, Option, none, some, List, ltb, ◌==◌, string_eq, if◌then◌else◌,
}
use meme_launchpad_backend.Fallible.{error_text, Error, msg, Result, ok, err, ◌>>=◌}
use meme_launchpad_backend.Go.Strconv.{wrap_int, pos, parse_int}
use meme_launchpad_backend.TokenCreation.{Response}
use meme_launchpad_backend.Upload.{PresignResult}
use meme_launchpad_backend.Auth.{SignMessage, LoginResult}
use meme_launchpad_backend.Gateway.{
  Slice, Token, Claims, TokenReader, TokenCreator, Presigner, Authenticator, positive, bearer_token,
}

pub record Request : Type 0 where
  pub method : String
  pub path : String
  pub query : String → String
  pub authorization : String
  pub body : String

-- what `writeJSON` is given; it writes a nil slice as null, and one without items as []
pub data Value : Type 0 where
  health_ok : String → Value
  page_of : Slice Token → ℕ → ℕ → Value
  detail : Token → Value
  sign_message : SignMessage → Value
  logged_in : LoginResult → Value
  user : Claims → Value
  created : Response → Value
  presigned : PresignResult → Value
  confirmed : Value

-- `writeError` of a text and of an error, `http.Error`, and no body
pub data Body : Type 0 where
  value : Value → Body
  failed : String → Body
  failed_by : Error → Body
  plain : String → Body
  empty : Body

pub record Reply : Type 0 where
  pub status : ℕ
  pub body : Body

abbrev pub write_json : Value → Reply
write_json v = record { status = 200; body = value v }

abbrev pub write_error : String → ℕ → Reply
write_error text code = record { status = code; body = failed text }

-- `writeError` with an `error`, whose text is in a field that encoding/json leaves out
abbrev pub write_error_value : Error → ℕ → Reply
write_error_value e code = record { status = code; body = failed_by e }

abbrev pub method_not_allowed : Reply
method_not_allowed = record { status = 405; body = plain "method not allowed" }

-- the JSON bodies that the handlers read, with their limits
pub record Bodies : Type 0 where
  pub login_body : String → Result (String × String)
  pub create_body : String → Result (String × String × ℕ × ℕ)

unfoldable pub health : String → Request → Reply
health name r =
    if r.method == "GET" then write_json (health_ok name) else record { status = 405; body = empty }

-- a parameter of the query as a number that is at least one, and the number that it has by default
unfoldable pub query_number : ℕ → Error → String → Result ℕ
unfolding parse_int
query_number default e raw = if raw == "" then ok default else elim (parse_int raw) [
  | none ↦ err e
  | some n ↦ elim (positive n) [ none ↦ err e | some k ↦ ok k ]
]

unfoldable pub pagination : (String → String) → Result (ℕ × ℕ)
unfolding query_number
pagination query = do
  page ← query_number 1 (msg "page must be positive") (query "page")
  size ← query_number 20 (msg "pageSize must be from 1 to 100") (query "pageSize")
  if ltb 100 size then err (msg "pageSize must be from 1 to 100") else ok (page, size)

-- `bearerClaims`: the reply that it has written, or the token and its claims
pub data Admission : Type 0 where
  refused : Reply → Admission
  admitted : String → Claims → Admission

module _ (tokens : TokenReader) where
  unfoldable pub token_list : Request → Reply
  unfolding pagination wrap_int
  token_list r = if not (r.method == "GET") then method_not_allowed else elim (pagination r.query) [
    | err e ↦ write_error_value e 400
    | ok (page, size) ↦ elim (tokens.list (pos size) (wrap_int ((page - 1) * size))) [
      | err _ ↦ write_error "failed to list tokens" 500
      | ok items ↦ write_json (page_of items page size)
    ]
  ]

  unfoldable pub token_detail : Request → Reply
  token_detail r =
      if not (r.method == "GET")
      then method_not_allowed
      else if r.query "address" == ""
      then write_error "address is required" 400
      else elim (tokens.find_by_address (r.query "address")) [
        | ok (some t) ↦ write_json (detail t)
        | _ ↦ write_error "token not found" 404
      ]

module _ {S : Type 0} (auth : Authenticator S) where
  unfoldable pub sign_msg : Request → S → Reply × S
  sign_msg r s =
      if not (r.method == "GET")
      then (method_not_allowed, s)
      else let (result, s') = auth.request_message (r.query "address") s in
        (elim result [ err e ↦ write_error_value e 400 | ok m ↦ write_json (sign_message m) ], s')

  unfoldable pub wallet_login : Bodies → Request → S → Reply × S
  wallet_login bodies r s =
      if not (r.method == "POST")
      then (method_not_allowed, s)
      else elim (bodies.login_body r.body) [
        | err e ↦ (write_error_value e 400, s)
        | ok (address, signature) ↦
            let (result, s') = auth.login address signature s in
            (elim result [ err e ↦ write_error_value e 401 | ok l ↦ write_json (logged_in l) ], s')
      ]

  unfoldable pub bearer_claims : Request → Admission
  unfolding bearer_token
  bearer_claims r = elim (bearer_token r.authorization) [
    | none ↦ refused (write_error "missing bearer token" 401)
    | some token ↦ elim (auth.parse_token token) [
      | err e ↦ refused (write_error_value e 401)
      | ok claims ↦ admitted token claims
    ]
  ]

  unfoldable pub current_user : Request → Reply
  unfolding bearer_claims
  current_user r = if not (r.method == "GET") then method_not_allowed else elim (bearer_claims r) [
    | refused reply ↦ reply
    | admitted _ claims ↦ write_json (user claims)
  ]

  unfoldable pub create_token : (String → ℕ) → Bodies → TokenCreator S → Request → S → Reply × S
  unfolding bearer_claims
  create_token hex_to_address bodies creation r s =
      if not (r.method == "POST") then (method_not_allowed, s) else elim (bearer_claims r) [
        | refused reply ↦ (reply, s)
        | admitted token claims ↦ elim (bodies.create_body r.body) [
          | err _ ↦ (write_error "invalid request body" 400, s)
          | ok (name, symbol, launch_time, percentage) ↦
              let (result, s') =
                creation.create (some token)
                  (record {
                    name = name;
                    symbol = symbol;
                    creator = hex_to_address claims.address;
                    launch_time = launch_time;
                    initial_buy_percentage = percentage;
                  })
                  s in
              (
                elim result [
                  | err e ↦ write_error (error_text e) 400
                  | ok a ↦ write_json (created a)
                ],
                s',
              )
        ]
      ]

  unfoldable pub presign_image : Presigner S → String → Request → S → Reply × S
  unfolding bearer_claims query_number
  presign_image uploads folder r s =
      if not (r.method == "GET") then (method_not_allowed, s) else elim (bearer_claims r) [
        | refused reply ↦ (reply, s)
        | admitted token _ ↦
            let mime_type = if r.query "mimeType" == "" then "image/png" else r.query "mimeType" in
            elim (query_number 97 (msg "chainId must be positive") (r.query "chainId")) [
              | err e ↦ (write_error (error_text e) 400, s)
              | ok chain_id ↦
                  let (result, s') =
                    uploads.presign (some token) folder mime_type (pos chain_id) s in
                  (
                    elim result [
                      | err e ↦ write_error (error_text e) 400
                      | ok p ↦ write_json (presigned p)
                    ],
                    s',
                  )
            ]
      ]

  unfoldable pub upload_confirm : Presigner S → Request → S → Reply × S
  unfolding bearer_claims
  upload_confirm uploads r s =
      if not (r.method == "POST") then (method_not_allowed, s) else elim (bearer_claims r) [
        | refused reply ↦ (reply, s)
        | admitted token _ ↦
            let (result, s') = uploads.confirm (some token) s in
            (
              elim result [
                | err _ ↦ write_error "failed to confirm upload" 500
                | ok _ ↦ write_json confirmed
              ],
              s',
            )
      ]
