-- ===== src/LegacyApi/Wallet/Middleware.antt =====
-- The check of a token: apps/api/internal/middleware/authmiddleware.go.
use meme_launchpad_backend.Common.{
  ℕ, String, not, none, some, ◌==◌, nat_eq, string_eq, if◌then◌else◌,
}
use meme_launchpad_backend.Fallible.{msg, Result, ok, err}
use meme_launchpad_backend.Go.Strings.{split_first}
use meme_launchpad_backend.LegacyApi.{Packages}
use meme_launchpad_backend.LegacyApi.Wallet.{Tokens}

module _ {Key : Type 0} (lib : Packages Key) (tokens : Tokens) where
  -- `AuthMiddleware.Handle`: the user that the next handler sees, or the error
  unfoldable pub authenticate : String → ℕ → String → Result (ℕ × String)
  unfolding split_first
  authenticate access_secret now auth_header =
      if auth_header == ""
      then err (msg "missing authorization header")
      else elim (split_first 32 auth_header) [
        | none ↦ err (msg "invalid authorization format")
        | some (scheme, token) ↦
            if not (lib.to_lower scheme == "bearer")
            then err (msg "invalid authorization format")
            else elim (tokens.parse_jwt now token access_secret) [
              | none ↦ err (msg "invalid or expired token")
              | some claims ↦ ok (
                elim claims.user_id [ none ↦ 0 | some n ↦ n ],
                elim claims.address [ none ↦ "" | some a ↦ a ],
              )
            ]
      ]
