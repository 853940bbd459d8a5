-- ===== src/LegacyApi/Wallet/Refresh.antt =====
-- A refresh token serves as an access token.
use meme_launchpad_backend.Common.{
  ℕ, ◌+◌, ◌<◌, ◌≡◌, inl, inr, false, Bool-cases, eq_iff, refl, ◌∙◌, ap, String, some, ◌==◌,
  string_eq,
}
use meme_launchpad_backend.Fallible.{ok, Result-cases}
use meme_launchpad_backend.Go.Strings.{◌<>◌, split_first}
use meme_launchpad_backend.LegacyApi.{Packages}
use meme_launchpad_backend.LegacyApi.Wallet.{
  success, Claims, AuthConfig, Tokens, generate_access_token, generate_refresh_token, issue,
}
use meme_launchpad_backend.LegacyApi.Wallet.Middleware.{authenticate}

success-injective : {A : Type 0} {x y : A} → success x ≡ success y → x ≡ y
success-injective h = cc

not_empty : (s : String) → ("Bearer " <> s == "") ≡ false
not_empty s = elim (Bool-cases ("Bearer " <> s == "")) [
  | inr other ↦ other
  | inl same ↦ let k = (eq_iff ("Bearer " <> s) "").0 same in absurd cc
]

module _ {Key : Type 0} (lib : Packages Key) (tokens : Tokens) (cfg : AuthConfig) where
  -- A token that was signed parses to its claims under the same secret until its time of expiry.
  pub record AreDocumented : Type 0 where
    pub parses :
        (claims : Claims) (token : String) (now : ℕ)
        → tokens.sign_jwt claims cfg.access_secret ≡ ok token
        → now < claims.exp
        → tokens.parse_jwt now token cfg.access_secret ≡ some claims
    pub lowers : lib.to_lower "Bearer" ≡ "bearer"

  -- the claims of a refresh token
  abbrev pub refresh_claims : (ℕ → ℕ) → ℕ → String → Claims
  refresh_claims clock user_id address = record {
    user_id = some user_id;
    address = some address;
    kind = some "refresh";
    exp = clock 2 + cfg.refresh_expire;
    iat = clock 3;
  }

  issue-refresh :
      (clock : ℕ → ℕ) (user_id : ℕ) (address no_token no_refresh access refresh : String)
      → issue lib tokens cfg clock user_id address no_token no_refresh ≡ success (access, refresh)
      → tokens.sign_jwt (refresh_claims clock user_id address) cfg.access_secret ≡ ok refresh
  unfolding issue generate_refresh_token
  issue-refresh clock user_id address no_token no_refresh access refresh h =
      elim (Result-cases
        (generate_access_token lib tokens cfg (clock 0) (clock 1) user_id address)) [
          | inr (e, bad) ↦ let k = rw (bad, issue) at h in absurd cc
          | inl (a, good) ↦
              elim (Result-cases
                (generate_refresh_token lib tokens cfg (clock 2) (clock 3) user_id address)) [
                  | inr (e, bad) ↦ let k = rw (bad, issue) at (rw (good, issue) at h) in absurd cc
                  | inl (b, made) ↦
                      let same = success-injective (rw (made, issue) at (rw (good, issue) at h)) in
                      made ∙ ap ok (ap (λ p. p.1) same)
                ]
        ]

  -- The middleware takes the refresh token that was issued to a user for a request of this user, for as
  -- long as the refresh token lasts, which may be long after the access token has ended.
  pub refresh-authenticates :
      AreDocumented
      → (clock : ℕ → ℕ) (user_id now : ℕ) (address no_token no_refresh access refresh : String)
      → issue lib tokens cfg clock user_id address no_token no_refresh ≡ success (access, refresh)
      → now < clock 2 + cfg.refresh_expire
      → authenticate lib tokens cfg.access_secret now ("Bearer " <> refresh) ≡ ok (user_id, address)
  unfolding authenticate split_first
  refresh-authenticates doc clock user_id now address no_token no_refresh access refresh h alive =
      let signed = issue-refresh clock user_id address no_token no_refresh access refresh h in
      let parsed = doc.parses (refresh_claims clock user_id address) refresh now signed alive in
      rw (doc.lowers, authenticate)
        (rw (parsed, authenticate) (rw (not_empty refresh, authenticate) refl))
