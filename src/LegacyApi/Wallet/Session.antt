-- ===== src/LegacyApi/Wallet/Session.antt =====
-- `WalletLogin`: apps/api/internal/logic/user/walletloginlogic.go.
use meme_launchpad_backend.Common.{ℕ, String, not, none, some, nat_eq, string_eq, if◌then◌else◌}
use meme_launchpad_backend.Fallible.{ok, err}
use meme_launchpad_backend.LegacyApi.Redis.{next, redis_get, redis_del}
use meme_launchpad_backend.LegacyApi.{Packages}
use meme_launchpad_backend.LegacyApi.Wallet.{
  LoginResponse, Response, State, User, UserModel, cache_key, failure, is_address, issue,
  shorten_address, sign_message, success, verify_signature, Tokens, AuthConfig,
}

module _ {Key : Type 0} (lib : Packages Key) (tokens : Tokens) (cfg : AuthConfig) where
  module _ {U : Type 0} (users : UserModel U) where
    -- the user of an address, with the nonce that a new one or an old one gets
    unfoldable pub find_or_create : String → String → U → Response User × U
    unfolding shorten_address
    find_or_create address new_nonce u = elim (users.find_by_address address u) [
      | err _ ↦ (failure 500 "database error", u)
      | ok (some user) ↦ (success user, users.update_nonce address new_nonce u)
      | ok none ↦
          let (created, u') =
            users.create
              (record {
                id = 0;
                address = address;
                username = shorten_address address;
                nonce = new_nonce;
              })
              u in
          elim created [
            | err _ ↦ (failure 500 "failed to create user", u')
            | ok user ↦ (success user, u')
          ]
    ]

    -- the rest of `WalletLogin` after the nonce is deleted
    unfoldable pub welcome : (ℕ → ℕ) → String → String → U → Response LoginResponse × U
    unfolding find_or_create issue
    welcome clock address new_nonce u =
        let (found, u') = find_or_create address new_nonce u in
        elim found [
          | failure code text ↦ (failure code text, u')
          | success user ↦
              elim (issue lib tokens cfg clock user.id user.address "failed to generate token"
                "failed to generate refresh token") [
                  | failure code text ↦ (failure code text, u')
                  | success (access, refresh) ↦ (
                    success (record {
                      token = access;
                      refresh_token = refresh;
                      expires_in = cfg.access_expire;
                      user = user;
                    }),
                    u',
                  )
                ]
        ]

    -- `WalletLogin`; `now` is the time at which Redis answers
    unfoldable pub wallet_login :
        ℕ → (ℕ → ℕ) → String → String → String → State U → Response LoginResponse × State U
    unfolding is_address redis_get verify_signature sign_message redis_del welcome
    wallet_login now clock new_nonce requested signature st =
        let address = lib.to_lower requested in
        if not (is_address address)
        then (failure 400 "invalid address format", st)
        else let asked = record st { redis = next st.redis } in
          elim (redis_get now (cache_key address) st.redis) [
            | err _ ↦
                (failure 400 "nonce expired or not found, please request sign message again", asked)
            | ok nonce ↦
                if not (verify_signature lib tokens address (sign_message address nonce) signature)
                then (failure 400 "invalid signature", asked)
                else let left = redis_del (cache_key address) asked.redis in
                  let (reply, u) = welcome clock address new_nonce st.users in
                  (reply, record { redis = left; users = u })
          ]
