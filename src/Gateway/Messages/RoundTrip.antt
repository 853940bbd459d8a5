-- ===== src/Gateway/Messages/RoundTrip.antt =====
-- A token that a message can hold comes through gRPC as it was.
use meme_launchpad_backend.Common.{
  ℕ, ◌+◌, ◌*◌, ◌/◌, ◌%◌, ◌^◌, ◌<◌, ◌≡◌, refl, ap, some, List, [], ◌∷◌, map, All, ltb, true, arith,
}
use meme_launchpad_backend.Fallible.{ok}
use meme_launchpad_backend.Go.Strconv.{ℤ, pos, negsuc}
use meme_launchpad_backend.Gateway.{Token, to_int32}
use meme_launchpad_backend.Gateway.Messages.{
  timestamp, year_10000, token_message, created_time, repository_token, repository_tokens,
}

-- an int that an int32 holds
abbrev pub IsInt32 : ℤ → Type 0
IsInt32 (pos n) = n < 2 ^ 31
IsInt32 (negsuc n) = n < 2 ^ 31

pub to_int32-same : (n : ℤ) → IsInt32 n → to_int32 n ≡ n
unfolding to_int32
to_int32-same (pos n) h = ground arith
to_int32-same (negsuc n) h = ground arith

pub record IsPortable (t : Token) : Type 0 where
  pub moded : IsInt32 t.launch_mode
  pub marked : IsInt32 t.status
  pub timed : t.created_at < year_10000 * 10 ^ 9

pub created_time-timestamp :
    (t : ℕ) → t < year_10000 * 10 ^ 9 → created_time (some (timestamp t)) ≡ ok t
unfolding created_time
created_time-timestamp t h =
    let whole : t / 10 ^ 9 * 10 ^ 9 + t % 10 ^ 9 ≡ t = omega arith in
    rw (before (t / 10 ^ 9) year_10000 (omega arith))
      (rw (before (t % 10 ^ 9) (10 ^ 9) (omega arith)) (ap ok whole))
  where
    before : (m n : ℕ) → m < n → ltb m n ≡ true
    before m n h = ground arith

pub repository_token-token_message :
    (t : Token) → IsPortable t → repository_token (some (token_message t)) ≡ ok t
unfolding repository_token token_message
repository_token-token_message t h =
    rw (created_time-timestamp t.created_at h.timed)
      (rw (to_int32-same t.launch_mode h.moded) (rw (to_int32-same t.status h.marked) refl))

pub repository_tokens-map :
    (ts : List Token) → All IsPortable ts → repository_tokens (map token_message ts) ≡ ok ts
unfolding repository_tokens
repository_tokens-map [] h = refl
repository_tokens-map (t ∷ ts) h =
    rw (repository_token-token_message t h.0) (rw (repository_tokens-map ts h.1) refl)
