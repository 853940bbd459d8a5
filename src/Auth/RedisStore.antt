-- ===== src/Auth/RedisStore.antt =====
-- The challenge store over Redis: app-rebuild/internal/auth/redis_store.go. An entry has its text and the
-- time at which it ends, if it does; go-redis gives a time to live in whole milliseconds. `marshal` and
-- `unmarshal` are encoding/json.
pub mod Entries
pub mod Refines
use meme_launchpad_backend.Common.{
  ℕ, ◌+◌, ◌-◌, ◌*◌, ◌/◌, ◌^◌, String, Bool, true, false, Option, none, some, List, ltb, ◌==◌,
  nat_eq, string_eq, if◌then◌else◌,
}
use meme_launchpad_backend.Go.Strings.{◌<>◌}
use meme_launchpad_backend.Postgres.Table.{Table, lookup, upsert, delete_row}
use meme_launchpad_backend.Postgres.Transaction.{
  Error, msg, wrap, Result, ok, err, broken, next_fault,
}
use meme_launchpad_backend.Auth.{SiweChallenge, err_invalid_nonce}

pub record RedisStore : Type 0 where
  pub entries : Table String (String × Option ℕ)
  pub faults : List Bool

abbrev pub millisecond : ℕ
millisecond = 10 ^ 6

-- `NewRedisChallengeStore`
abbrev pub key_prefix : String → String
key_prefix prefix = if prefix == "" then "meme:siwe:" else prefix

abbrev pub is_live : ℕ → Option ℕ → Bool
is_live now none = true
is_live now (some ends) = ltb now ends

-- the end of an entry that is set at a time to live for a duration; 0 is for ever
unfoldable pub end_of : ℕ → ℕ → Option ℕ
end_of now duration =
    if duration == 0
    then none
    else if ltb duration millisecond
    then some (now + millisecond)
    else some (now + duration / millisecond * millisecond)

abbrev pub next : RedisStore → RedisStore
next r = record r { faults = (next_fault r.faults).1 }

module _ (prefix : String) (marshal : SiweChallenge → Result String)
    (unmarshal : String → Result SiweChallenge) where
  -- A time to live that is not above 0 is given as 0.
  unfoldable pub redis_save :
      ℕ → String → SiweChallenge → ℕ → RedisStore → Result (Unit {0}) × RedisStore
  unfolding upsert end_of
  redis_save now address c ttl r = elim (marshal c) [
    | err e ↦ (err (wrap "marshal challenge" e), r)
    | ok text ↦
        let ends = end_of now (if ttl == 0 then c.expiration_time - now else ttl) in
        if (next_fault r.faults).0 then (err broken, next r) else (
          ok tt,
          record (next r) {
            entries = upsert (prefix <> address) (text, ends) (λ _. (text, ends)) r.entries;
          },
        )
  ]

  -- `Get` but for the faults that it leaves
  unfoldable pub redis_get : ℕ → String → RedisStore → Result SiweChallenge
  unfolding lookup
  redis_get now address r =
      if (next_fault r.faults).0 then err broken else elim (lookup (prefix <> address) r.entries) [
        | none ↦ err err_invalid_nonce
        | some (text, ends) ↦
            if is_live now ends
            then elim (unmarshal text) [ err e ↦ err (wrap "unmarshal challenge" e) | ok c ↦ ok c ]
            else err err_invalid_nonce
      ]

  unfoldable pub redis_delete : ℕ → String → RedisStore → Result (Unit {0}) × RedisStore
  unfolding lookup delete_row
  redis_delete now address r =
      if (next_fault r.faults).0
      then (err broken, next r)
      else elim (lookup (prefix <> address) r.entries) [
        | none ↦ (err err_invalid_nonce, next r)
        | some (_, ends) ↦
            let left = record (next r) { entries = delete_row (prefix <> address) r.entries } in
            (if is_live now ends then ok tt else err err_invalid_nonce, left)
      ]

  -- `getChallenge` of the service over this store
  unfoldable pub redis_get_challenge : ℕ → ℕ → String → RedisStore → Result SiweChallenge
  unfolding redis_get
  redis_get_challenge now later address r = elim (redis_get now address r) [
    | err _ ↦ err err_invalid_nonce
    | ok c ↦ if ltb c.expiration_time later then err err_invalid_nonce else ok c
  ]
