-- ===== src/Gateway/Guard.antt =====
-- What the protected routes do for a caller without a token.
use meme_launchpad_backend.Common.{
  ℕ, ◌≡◌, refl, ap, sym, String, Bool, true, false, ◌||◌, Option, none, some, ◌==◌, string_eq,
  Bool-cases, Option-cases, inl, inr, ◌⊎◌, not, arith, if◌then◌else◌,
}
use meme_launchpad_backend.Fallible.{ok, Result-cases}
use meme_launchpad_backend.Gateway.{Claims, TokenCreator, Presigner, Authenticator, bearer_token}
use meme_launchpad_backend.Gateway.Http.{
  Request, Reply, Bodies, refused, admitted, bearer_claims, current_user, create_token,
  presign_image, upload_confirm, method_not_allowed,
}
use meme_launchpad_backend.Gateway.Http.Routes.{
  Handlers, serve_tokens, serve_uploads, serve_creation, serve_auth, new_handler,
}
use meme_launchpad_backend.Gateway.Parity.{outcome}
use meme_launchpad_backend.Gateway.Parity.Writes.{bearer_claims-admitted, Admission-cases}

refused_reply : {x y : Reply} → refused x ≡ refused y → x ≡ y
refused_reply h = cc

none_of :
    (a b c d e : Bool)
    → (a || (b || (c || (d || e)))) ≡ false
    → (a ≡ false) × (b ≡ false) × (c ≡ false) × (d ≡ false) × (e ≡ false)
none_of a b c d e h = ground arith

-- the routes that ask for no token
unfoldable pub is_public : String → Bool
is_public path =
    path == "/healthz"
    || (path == "/api/v1/token/list"
        || (path == "/api/v1/token/detail"
            || (path == "/api/v1/user/sign-msg" || path == "/api/v1/user/wallet-login")))

module _ {S : Type 0} (auth : Authenticator S) where
  -- a request with a token that the service accepts
  abbrev pub IsAuthorized : Request → Type 0
  IsAuthorized r =
      (token : String) × (claims : Claims) × (bearer_token r.authorization ≡ some token)
      × (auth.parse_token token ≡ ok claims)

  -- a reply without a value, and the state that there was
  abbrev pub IsRefused : S → Reply × S → Type 0
  IsRefused s (reply, s') = ((outcome reply).1 ≡ none) × (s' ≡ s)

  Refused-reply :
      (r : Request) (reply : Reply)
      → bearer_claims auth r ≡ refused reply
      → (outcome reply).1 ≡ none
  unfolding bearer_claims
  Refused-reply r reply h = elim (Option-cases (bearer_token r.authorization)) [
    | inl missing ↦ ap (λ x. (outcome x).1) (sym (refused_reply (rw (missing, bearer_claims) at h)))
    | inr (t, carried) ↦ elim (Result-cases (auth.parse_token t)) [
      | inr (e, bad) ↦
          ap (λ x. (outcome x).1)
            (sym (refused_reply (rw bad at (rw (carried, bearer_claims) at h))))
      | inl (c, parsed) ↦ let k = rw parsed at (rw (carried, bearer_claims) at h) in absurd cc
    ]
  ]

  authorized :
      (r : Request) (token : String) (claims : Claims)
      → bearer_claims auth r ≡ admitted token claims
      → IsAuthorized r
  authorized r token claims h =
      let (carried, parsed) = bearer_claims-admitted auth r token claims h in
      (token, claims, carried, parsed)

  -- a caller who has a token that the service accepts, or a refusal
  abbrev pub IsGuarded : Request → S → Reply × S → Type 0
  IsGuarded r s out = IsAuthorized r ⊎ IsRefused s out

  if-guarded :
      (r : Request) (s : S) (c : Bool) (x y : Reply × S)
      → IsGuarded r s x
      → IsGuarded r s y
      → IsGuarded r s (if c then x else y)
  if-guarded r s true x y h k = h
  if-guarded r s false x y h k = k

  -- the handlers that begin with the method and the token
  begun :
      (r : Request) (s : S) (method : String) (next : String → Claims → Reply × S)
      → IsGuarded r s (
          if not (r.method == method)
          then (method_not_allowed, s)
          else elim (bearer_claims auth r) [
            | refused reply ↦ (reply, s)
            | admitted token claims ↦ next token claims
          ])
  begun r s method next = elim (Bool-cases (r.method == method)) [
    | inr other ↦ inr (rw other (refl, refl))
    | inl right ↦ elim (Admission-cases auth (bearer_claims auth r)) [
      | inl (reply, out) ↦ inr (rw right (rw out (Refused-reply r reply out, refl)))
      | inr (token, claims, known) ↦ inl (authorized r token claims known)
    ]
  ]

  current_user-guarded : (r : Request) (s : S) → IsGuarded r s (current_user auth r, s)
  unfolding current_user
  current_user-guarded r s = elim (Bool-cases (r.method == "GET")) [
    | inr other ↦ inr (rw other (refl, refl))
    | inl get ↦ elim (Admission-cases auth (bearer_claims auth r)) [
      | inl (reply, out) ↦ inr (rw get (rw out (Refused-reply r reply out, refl)))
      | inr (token, claims, known) ↦ inl (authorized r token claims known)
    ]
  ]

  create_token-guarded :
      (hex_to_address : String → ℕ) (bodies : Bodies) (creation : TokenCreator S) (r : Request)
      (s : S)
      → IsGuarded r s (create_token auth hex_to_address bodies creation r s)
  unfolding create_token
  create_token-guarded hex_to_address bodies creation r s = begun r s "POST" _

  uploads-guarded :
      (uploads : Option (Presigner S)) (r : Request) (s : S)
      → IsGuarded r s (serve_uploads auth uploads r s)
  unfolding serve_uploads presign_image upload_confirm
  uploads-guarded none r s = inr (refl, refl)
  uploads-guarded (some uploads) r s =
      if-guarded r s (r.path == "/api/v1/file/token-logo-presign") _ _ (begun r s "GET" _) (
        if-guarded r s (r.path == "/api/v1/file/token-banner-presign") _ _ (begun r s "GET" _) (
          if-guarded r s (r.path == "/api/v1/file/activity-image-presign") _ _ (begun r s "GET" _) (
            if-guarded r s (r.path == "/api/v1/file/upload-confirm") _ _ (begun r s "POST" _)
              (inr (refl, refl)))))

  creation-guarded :
      (d : Handlers S) (r : Request) (s : S) → IsGuarded r s (serve_creation d auth r s)
  unfolding serve_creation
  creation-guarded d r s = elim (Option-cases d.creation) [
    | inl off ↦ inr (rw off (refl, refl))
    | inr (creation, on) ↦ rw on (create_token-guarded d.hex_to_address d.bodies creation r s)
  ]

  -- On every path but the five public ones, a caller without a token that the service accepts gets no
  -- value and changes no state, whatever the handlers are connected to.
  pub new_handler-guarded :
      (d : Handlers S) (r : Request) (s : S)
      → d.auth ≡ some auth
      → is_public r.path ≡ false
      → IsGuarded r s (new_handler d r s)
  unfolding new_handler serve_auth serve_tokens is_public
  new_handler-guarded d r s on closed =
      let (a, b, c, e, f) =
        none_of (r.path == "/healthz") (r.path == "/api/v1/token/list")
          (r.path == "/api/v1/token/detail") (r.path == "/api/v1/user/sign-msg")
          (r.path == "/api/v1/user/wallet-login") closed in
      let there : IsGuarded r s (serve_auth d r s) =
        rw (on, serve_auth)
          (rw e (
            rw f (
              if-guarded r s (r.path == "/api/v1/user/me") _ _ (current_user-guarded r s) (
                if-guarded r s (r.path == "/api/v1/token/create") _ _ (creation-guarded d r s)
                  (uploads-guarded d.uploads r s))))) in
      elim (Option-cases d.tokens) [
        | inl off ↦ rw a (rw off there)
        | inr (tokens, up) ↦ rw a (rw up (rw (b, serve_tokens) (rw c there)))
      ]
