-- ===== src/Auth/RedisStore/Refines.antt =====
-- The store over Redis as the store in memory, but for the last millisecond of a challenge.
use mathlib.Core.Path.{subst}
use meme_launchpad_backend.Common.{
  ℕ, ◌+◌, ◌-◌, ◌<◌, ◌≤◌, ◌≡◌, refl, sym, ◌∙◌, ap, String, true, false, Option, none, some, List, [],
  ◌∷◌, ltb, nat_eq, string_eq, arith, Bool-cases, ◌⊎◌, inl, inr,
}
use meme_launchpad_backend.Go.Strings.{◌<>◌}
use meme_launchpad_backend.Postgres.Table.{Table, lookup, upsert, delete_row}
use meme_launchpad_backend.Postgres.Transaction.{Result, ok, err}
use meme_launchpad_backend.Auth.{
  SiweConfig, SiweChallenge, Packages, Challenges, err_invalid_nonce, save_challenge, get_stored,
  delete_stored,
}
use meme_launchpad_backend.Auth.Service.{get_challenge}
use meme_launchpad_backend.Auth.RedisStore.{
  RedisStore, millisecond, next, redis_save, redis_get, redis_delete, redis_get_challenge,
}
use meme_launchpad_backend.Auth.RedisStore.Entries.{
  absent, Matches-cases, live, still, Mirrors, calm, end_at, end_of-end_at, put-kept, drop-kept,
}

-- a call of the store by the service, with the readings of the clock
pub data Call : Type 0 where
  ask : ℕ → ℕ → String → Call
  put : ℕ → String → SiweChallenge → ℕ → Call
  drop : ℕ → String → Call

pub data Reply : Type 0 where
  found : Result SiweChallenge → Reply
  done : Result (Unit {0}) → Reply

module _ (lib : Packages) (cfg : SiweConfig) (prefix : String)
    (marshal : SiweChallenge → Result String) (unmarshal : String → Result SiweChallenge) where
  -- the call of the store in memory, and of the store over Redis
  abbrev pub in_memory : Call → Challenges → Reply × Challenges
  in_memory (ask now later a) t = (found (get_challenge lib cfg now later a t), t)
  in_memory (put now a c ttl) t = (done (ok tt), save_challenge a c t)
  in_memory (drop now a) t = (done (delete_stored now a t).0, (delete_stored now a t).1)

  abbrev pub over_redis : Call → RedisStore → Reply × RedisStore
  over_redis (ask now later a) r =
      (found (redis_get_challenge prefix marshal unmarshal now later a r), next r)
  over_redis (put now a c ttl) r =
      let (out, r') = redis_save prefix marshal unmarshal now a c ttl r in (done out, r')
  over_redis (drop now a) r =
      let (out, r') = redis_delete prefix marshal unmarshal now a r in (done out, r')

  -- a call that is not in the last millisecond of a challenge, with a clock that does not go back
  abbrev pub IsTimely : Call → Challenges → Type 0
  IsTimely (ask now later a) t =
      (now ≤ later)
      × ((c : SiweChallenge)
          → lookup a t ≡ some c
          → (now + millisecond ≤ c.expiration_time) ⊎ (c.expiration_time < later))
  IsTimely (put now a c ttl) t =
      (0 < ttl) × (c.expiration_time ≤ now + ttl) × ((text : String) × (marshal c ≡ ok text))
  IsTimely (drop now a) t =
      (c : SiweChallenge) → lookup a t ≡ some c → now + millisecond ≤ c.expiration_time

  -- what a call does to both
  record Follows (call : Call) (t : Challenges) (es : Table String (String × Option ℕ))
      : Type 0 where
    left : Table String (String × Option ℕ)
    run : over_redis call (calm es) ≡ ((in_memory call t).0, calm left)
    kept : Mirrors prefix unmarshal (in_memory call t).1 left

  ask-over :
      (now later : ℕ) (a : String) (t : Challenges) (es : Table String (String × Option ℕ))
      (c : SiweChallenge) (text : String) (ends : ℕ)
      → lookup a t ≡ some c
      → lookup (prefix <> a) es ≡ some (text, some ends)
      → unmarshal text ≡ ok c
      → ltb c.expiration_time later ≡ true
      → (redis_get_challenge prefix marshal unmarshal now later a (calm es) ≡ err err_invalid_nonce)
        × (get_challenge lib cfg now later a t ≡ err err_invalid_nonce)
  unfolding get_challenge get_stored redis_get_challenge redis_get
  ask-over now later a t es c text ends here there back over = (
    elim (Bool-cases (ltb now ends)) [
      | inl on ↦
          rw (there, redis_get_challenge)
            (rw (on, redis_get_challenge)
              (rw (back, redis_get_challenge) (rw (over, redis_get_challenge) refl)))
      | inr off ↦ rw (there, redis_get_challenge) (rw (off, redis_get_challenge) refl)
    ],
    elim (Bool-cases (ltb c.expiration_time now)) [
      | inl late ↦ rw (here, get_challenge) (rw (late, get_challenge) refl)
      | inr early ↦
          rw (here, get_challenge) (rw (early, get_challenge) (rw (over, get_challenge) refl))
    ],
  )

  ask-current :
      (now later : ℕ) (a : String) (t : Challenges) (es : Table String (String × Option ℕ))
      (c : SiweChallenge) (text : String) (ends : ℕ)
      → lookup a t ≡ some c
      → lookup (prefix <> a) es ≡ some (text, some ends)
      → unmarshal text ≡ ok c
      → ltb c.expiration_time now ≡ false
      → ltb c.expiration_time later ≡ false
      → ltb now ends ≡ true
      → (redis_get_challenge prefix marshal unmarshal now later a (calm es) ≡ ok c)
        × (get_challenge lib cfg now later a t ≡ ok c)
  unfolding get_challenge get_stored redis_get_challenge redis_get
  ask-current now later a t es c text ends here there back early current on = (
    rw (there, redis_get_challenge)
        (rw (on, redis_get_challenge)
          (rw (back, redis_get_challenge) (rw (current, redis_get_challenge) refl))),
    rw (here, get_challenge) (rw (early, get_challenge) (rw (current, get_challenge) refl)),
  )

  ask-none :
      (now later : ℕ) (a : String) (t : Challenges) (es : Table String (String × Option ℕ))
      → lookup a t ≡ none
      → lookup (prefix <> a) es ≡ none
      → (redis_get_challenge prefix marshal unmarshal now later a (calm es) ≡ err err_invalid_nonce)
        × (get_challenge lib cfg now later a t ≡ err err_invalid_nonce)
  unfolding get_challenge get_stored redis_get_challenge redis_get
  ask-none now later a t es nothing none_there =
      (rw (none_there, redis_get_challenge) refl, rw (nothing, get_challenge) refl)

  ask-Follows :
      (now later : ℕ) (a : String) (t : Challenges) (es : Table String (String × Option ℕ))
      → Mirrors prefix unmarshal t es
      → IsTimely (ask now later a) t
      → Follows (ask now later a) t es
  ask-Follows now later a t es mirrors (onward, timely) =
      let both : (o : Result SiweChallenge)
          → (redis_get_challenge prefix marshal unmarshal now later a (calm es) ≡ o)
            × (get_challenge lib cfg now later a t ≡ o)
          → Follows (ask now later a) t es =
        λ o (f, g). record {
          left = es;
          run = ap (λ x. (found x, calm es)) (f ∙ sym g);
          kept = mirrors;
        } in
      elim (Matches-cases (mirrors a)) [
        | inl (nothing, none_there) ↦
            both (err err_invalid_nonce) (ask-none now later a t es nothing none_there)
        | inr (c, text, ends, here, there, back, bound) ↦
            elim (Bool-cases (ltb c.expiration_time later)) [
              | inl over ↦
                  both (err err_invalid_nonce)
                    (ask-over now later a t es c text ends here there back over)
              | inr current ↦
                  let on : ltb now ends ≡ true = elim (timely c here) [
                    | inl ahead ↦ live now ends c.expiration_time ahead bound
                    | inr past ↦ absurd (ground arith)
                  ] in
                  both (ok c) (
                    ask-current now later a t es c text ends here there back (ground arith) current
                      on)
            ]
      ]

  put-Follows :
      ((c : SiweChallenge) (text : String) → marshal c ≡ ok text → unmarshal text ≡ ok c)
      → (now : ℕ) (a : String) (c : SiweChallenge) (ttl : ℕ) (t : Challenges)
        (es : Table String (String × Option ℕ))
      → Mirrors prefix unmarshal t es
      → IsTimely (put now a c ttl) t
      → Follows (put now a c ttl) t es
  unfolding redis_save
  put-Follows inverse now a c ttl t es mirrors (some_, long, (text, given)) = record {
    left =
        upsert (prefix <> a) (text, some (end_at now ttl)) (λ _. (text, some (end_at now ttl))) es;
    run =
        rw (given, redis_save)
          (ap (λ e. (done (ok tt), calm (upsert (prefix <> a) (text, e) (λ _. (text, e)) es)))
            (end_of-end_at now ttl (c.expiration_time - now) some_));
    kept = put-kept prefix unmarshal now a c ttl t es text mirrors (inverse c text given) long;
  }

  drop-here :
      (now : ℕ) (a : String) (t : Challenges) (es : Table String (String × Option ℕ))
      (c : SiweChallenge) (text : String) (ends : ℕ)
      → lookup a t ≡ some c
      → lookup (prefix <> a) es ≡ some (text, some ends)
      → ltb c.expiration_time now ≡ false
      → ltb now ends ≡ true
      → (redis_delete prefix marshal unmarshal now a (calm es)
          ≡ (ok tt, calm (delete_row (prefix <> a) es)))
        × (delete_stored now a t ≡ (ok tt, delete_row a t))
  unfolding delete_stored redis_delete
  drop-here now a t es c text ends here there early on = (
    rw (there, redis_delete) (rw (on, redis_delete) refl),
    rw (here, delete_stored) (rw (early, delete_stored) refl),
  )

  drop-none :
      (now : ℕ) (a : String) (t : Challenges) (es : Table String (String × Option ℕ))
      → lookup a t ≡ none
      → lookup (prefix <> a) es ≡ none
      → (redis_delete prefix marshal unmarshal now a (calm es) ≡ (err err_invalid_nonce, calm es))
        × (delete_stored now a t ≡ (err err_invalid_nonce, t))
  unfolding delete_stored redis_delete
  drop-none now a t es nothing none_there =
      (rw (none_there, redis_delete) refl, rw (nothing, delete_stored) refl)

  drop-Follows :
      (now : ℕ) (a : String) (t : Challenges) (es : Table String (String × Option ℕ))
      → Mirrors prefix unmarshal t es
      → IsTimely (drop now a) t
      → Follows (drop now a) t es
  drop-Follows now a t es mirrors timely =
      let both : (o : Result (Unit {0})) (t' : Challenges) (es' : Table String (String × Option ℕ))
          → (redis_delete prefix marshal unmarshal now a (calm es) ≡ (o, calm es'))
            × (delete_stored now a t ≡ (o, t'))
          → Mirrors prefix unmarshal t' es'
          → Follows (drop now a) t es =
        λ o t' es' (f, g) k. record {
          left = es';
          run = ap (λ x. (done x.0, x.1)) f ∙ ap (λ x. (done x, calm es')) (sym (ap (λ x. x.0) g));
          kept = subst (λ u. Mirrors prefix unmarshal u es') (sym (ap (λ x. x.1) g)) k;
        } in
      elim (Matches-cases (mirrors a)) [
        | inl (nothing, none_there) ↦
            both (err err_invalid_nonce) t es (drop-none now a t es nothing none_there) mirrors
        | inr (c, text, ends, here, there, back, bound) ↦
            let ahead = timely c here in
            both (ok tt) (delete_row a t) (delete_row (prefix <> a) es)
              (drop-here now a t es c text ends here there (still now c.expiration_time ahead)
                (live now ends c.expiration_time ahead bound))
              (drop-kept prefix unmarshal a t es mirrors)
      ]

  -- the replies to calls, one after another
  unfoldable pub memory_replies : List Call → Challenges → List Reply
  memory_replies [] t = []
  memory_replies (call ∷ calls) t = (in_memory call t).0 ∷ memory_replies calls (in_memory call t).1

  unfoldable pub redis_replies : List Call → RedisStore → List Reply
  redis_replies [] r = []
  redis_replies (call ∷ calls) r = (over_redis call r).0 ∷ redis_replies calls (over_redis call r).1

  abbrev pub AreTimely : List Call → Challenges → Type 0
  AreTimely [] t = Unit
  AreTimely (call ∷ calls) t = IsTimely call t × AreTimely calls (in_memory call t).1

  module _
      (inverse : (c : SiweChallenge) (text : String)
        → marshal c ≡ ok text
        → unmarshal text ≡ ok c) where
    call-Follows :
        (call : Call) (t : Challenges) (es : Table String (String × Option ℕ))
        → Mirrors prefix unmarshal t es
        → IsTimely call t
        → Follows call t es
    call-Follows (ask now later a) t es k h = ask-Follows now later a t es k h
    call-Follows (put now a c ttl) t es k h = put-Follows inverse now a c ttl t es k h
    call-Follows (drop now a) t es k h = drop-Follows now a t es k h

    replies-same :
        (calls : List Call) (t : Challenges) (es : Table String (String × Option ℕ))
        → Mirrors prefix unmarshal t es
        → AreTimely calls t
        → redis_replies calls (calm es) ≡ memory_replies calls t
    unfolding redis_replies memory_replies
    replies-same [] t es k h = refl
    replies-same (call ∷ calls) t es k (now, later) =
        let f = call-Follows call t es k now in
        ap (λ o. o.0 ∷ redis_replies calls o.1) f.run
        ∙ ap (λ rs. (in_memory call t).0 ∷ rs)
            (replies-same calls (in_memory call t).1 f.left f.kept later)

    -- While Redis answers and JSON gives a challenge back, the service gets the same replies from an empty
    -- store over Redis as from an empty store in memory, whatever it saves, gets and deletes, as long as
    -- it does nothing in the last millisecond of a challenge, deletes no challenge that has ended, its
    -- clock does not go back, and the times to live are positive and reach the end of the challenge.
    pub redis_replies-memory_replies :
        (calls : List Call)
        → AreTimely calls []
        → redis_replies calls (calm []) ≡ memory_replies calls []
    unfolding lookup
    redis_replies-memory_replies calls h = replies-same calls [] [] (λ a. absent) h
