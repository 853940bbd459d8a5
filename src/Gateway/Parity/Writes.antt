-- ===== src/Gateway/Parity/Writes.antt =====
-- Creating tokens and signing uploads over their gRPC services.
use meme_launchpad_backend.Common.{
  ℕ, ◌≡◌, refl, sym, ap, ◌∙◌, String, false, some, ◌==◌, string_eq, nat_eq, ◌⊎◌, Bool-cases,
  Option-cases, some-injective, inl, inr,
}
use meme_launchpad_backend.Fallible.{error_text, msg, wrap, Result, ok, err, Result-cases}
use meme_launchpad_backend.Go.Strings.{◌<>◌, cut_prefix}
use meme_launchpad_backend.TokenCreation.{Response}
use meme_launchpad_backend.TokenCreation
use meme_launchpad_backend.Gateway.{Claims, Authenticator, bearer_token}
use meme_launchpad_backend.Gateway.Messages.{message}
use meme_launchpad_backend.Gateway.Server
use meme_launchpad_backend.Gateway.Client
use meme_launchpad_backend.Gateway.Client.{bearer_metadata, image_kind, expiry}
use meme_launchpad_backend.Gateway.Http.{
  Request, Reply, Bodies, Admission, refused, admitted, bearer_claims, create_token,
}
use meme_launchpad_backend.Gateway.Parity.{outcome, local_creator, remote_creator}

-- the token that a header carries is not empty
bearer_token-nonempty : (header t : String) → bearer_token header ≡ some t → (t == "") ≡ false
unfolding bearer_token
bearer_token-nonempty header t h = elim (Option-cases (cut_prefix "Bearer " header)) [
  | inl other ↦ let k = rw (other, bearer_token) at h in absurd cc
  | inr (u, cut) ↦ elim (Bool-cases (u == "")) [
    | inl bare ↦ let k = rw bare at (rw (cut, bearer_token) at h) in absurd cc
    | inr carried ↦
        let k = some-injective (rw carried at (rw (cut, bearer_token) at h)) in
        ap (λ x. x == "") (sym k) ∙ carried
  ]
]

admitted_token : {t u : String} {c d : Claims} → admitted t c ≡ admitted u d → t ≡ u
admitted_token h = cc

admitted_claims : {t u : String} {c d : Claims} → admitted t c ≡ admitted u d → c ≡ d
admitted_claims h = cc

-- the server admits the token that the adapter passes on
pub bearer_claims-passed :
    (parse : String → Result Claims) (token : String) (claims : Claims)
    → (token == "") ≡ false
    → parse token ≡ ok claims
    → Server.bearer_claims parse (bearer_metadata token) ≡ message claims
unfolding Server.bearer_claims
bearer_claims-passed parse token claims full parsed =
    rw (full, Server.bearer_claims) (rw (parsed, Server.bearer_claims) refl)

module _ {S : Type 0} (auth : Authenticator S) where
  -- who is admitted has sent a token that parses to the claims
  pub bearer_claims-admitted :
      (r : Request) (token : String) (claims : Claims)
      → bearer_claims auth r ≡ admitted token claims
      → (bearer_token r.authorization ≡ some token) × (auth.parse_token token ≡ ok claims)
  unfolding bearer_claims
  bearer_claims-admitted r token claims h = elim (Option-cases (bearer_token r.authorization)) [
    | inl missing ↦ let k = rw (missing, bearer_claims) at h in absurd cc
    | inr (t, carried) ↦ elim (Result-cases (auth.parse_token t)) [
      | inr (e, bad) ↦ let k = rw bad at (rw (carried, bearer_claims) at h) in absurd cc
      | inl (c, parsed) ↦
          let k = rw parsed at (rw (carried, bearer_claims) at h) in
          (
            carried ∙ ap some (admitted_token k),
            ap auth.parse_token (sym (admitted_token k)) ∙ parsed ∙ ap ok (admitted_claims k),
          )
    ]
  ]

  -- and that token is not empty
  pub bearer_claims-full :
      (r : Request) (token : String) (claims : Claims)
      → bearer_claims auth r ≡ admitted token claims
      → (token == "") ≡ false
  bearer_claims-full r token claims h =
      bearer_token-nonempty r.authorization token (bearer_claims-admitted r token claims h).0

  pub Admission-cases :
      (a : Admission)
      → ((reply : Reply) × (a ≡ refused reply))
        ⊎ ((token : String) × (claims : Claims) × (a ≡ admitted token claims))
  Admission-cases (refused reply) = inl (reply, refl)
  Admission-cases (admitted token claims) = inr (token, claims, refl)

  -- what the adapter makes of the service's answer
  abbrev created_over : Result Response → Result Response
  created_over (ok a) = ok a
  created_over (err e) = err (
      wrap "create token over internal gRPC"
        (msg ("rpc error: code = InvalidArgument desc = " <> error_text e)))

  module _ (hex_to_address : String → ℕ)
      (create : TokenCreation.Request → S → Result Response × S) where
    abbrev asked : Claims → String × String × ℕ × ℕ → TokenCreation.Request
    asked claims (name, symbol, launch_time, percentage) = record {
      name = name;
      symbol = symbol;
      creator = hex_to_address claims.address;
      launch_time = launch_time;
      initial_buy_percentage = percentage;
    }

    create-remote :
        (token : String) (claims : Claims) (name symbol : String) (launch_time percentage : ℕ)
        (s : S)
        → (token == "") ≡ false
        → auth.parse_token token ≡ ok claims
        → let request = asked claims (name, symbol, launch_time, percentage) in
          Client.create
            (Server.create_token auth.parse_token hex_to_address (local_creator create))
            (some token)
            request
            s
          ≡ (created_over (create request s).0, (create request s).1)
    unfolding Client.create Client.call Server.create_token
    create-remote token claims name symbol launch_time percentage s full parsed =
        let passed = bearer_claims-passed auth.parse_token token claims full parsed in
        let request = asked claims (name, symbol, launch_time, percentage) in
        rw (full, Client.create)
          (rw (passed, Server.create_token)
            (elim (Result-cases (create request s).0) [
              | inr (e, bad) ↦ rw bad refl
              | inl (a, good) ↦ rw good refl
            ]))

    -- the same status, value and state
    pub create_token-remote :
        (bodies : Bodies) (r : Request) (s : S)
        → let local = create_token auth hex_to_address bodies (local_creator create) r s in
          let remote =
            create_token auth hex_to_address bodies
              (remote_creator auth.parse_token hex_to_address create)
              r
              s in
          (outcome remote.0 ≡ outcome local.0) × (remote.1 ≡ local.1)
    unfolding create_token
    create_token-remote bodies r s = elim (Bool-cases (r.method == "POST")) [
      | inr other ↦ rw other (refl, refl)
      | inl post ↦ elim (Admission-cases (bearer_claims auth r)) [
        | inl (reply, out) ↦ rw post (rw out (refl, refl))
        | inr (token, claims, known) ↦ elim (Result-cases (bodies.create_body r.body)) [
          | inr (e, bad) ↦ rw post (rw known (rw bad (refl, refl)))
          | inl ((name, symbol, launch_time, percentage), read) ↦
              let full = bearer_claims-full r token claims known in
              let parsed = (bearer_claims-admitted r token claims known).1 in
              let over =
                create-remote token claims name symbol launch_time percentage s full parsed in
              let request = asked claims (name, symbol, launch_time, percentage) in
              elim (Result-cases (create request s).0) [
                | inr (e, bad) ↦ rw post (rw known (rw read (rw over (rw bad (refl, refl)))))
                | inl (a, good) ↦ rw post (rw known (rw read (rw over (rw good (refl, refl)))))
              ]
        ]
      ]
    ]
