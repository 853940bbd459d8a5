-- ===== src/LegacyApi/Wallet/Login.antt =====
-- What a successful wallet login shows, and that its nonce may serve again.
use meme_launchpad_backend.Common.{
  ℕ, ◌<◌, ◌≡◌, refl, sym, ◌∙◌, ap, String, Bool, true, false, some, List, ◌∷◌, ltb, arith,
  Bool-cases, Option-cases, inl, inr, if◌then◌else◌, string_eq,
}
use meme_launchpad_backend.Fallible.{msg, ok, err, Result-cases, ok-injective}
use meme_launchpad_backend.Postgres.Table.{lookup}
use meme_launchpad_backend.Postgres.Transaction.{next_fault}
use meme_launchpad_backend.LegacyApi.{Packages}
use meme_launchpad_backend.LegacyApi.Redis.{Redis, redis_get, redis_del}
use meme_launchpad_backend.LegacyApi.Wallet.{
  success, LoginResponse, AuthConfig, UserModel, Tokens, State, cache_key, sign_message, is_address,
  verify_signature,
}
use meme_launchpad_backend.LegacyApi.Wallet.Session.{welcome, wallet_login}

redis_get-found :
    (now : ℕ) (key value : String) (r : Redis)
    → redis_get now key r ≡ ok value
    → (until : ℕ) × (lookup key r.entries ≡ some (value, until)) × (now < until)
unfolding redis_get
redis_get-found now key value r h = elim (Bool-cases (next_fault r.faults).0) [
  | inl bad ↦ let k = rw (bad, redis_get) at h in absurd cc
  | inr fine ↦ elim (Option-cases (lookup key r.entries)) [
    | inl gone ↦ let k = rw (gone, redis_get) at (rw (fine, redis_get) at h) in absurd cc
    | inr (e, here) ↦ elim (Bool-cases (ltb now e.1)) [
      | inr late ↦
          let k = rw (late, redis_get) at (rw (here, redis_get) at (rw (fine, redis_get) at h)) in
          absurd cc
      | inl early ↦
          let k =
            ok-injective
              (rw (early, redis_get) at (rw (here, redis_get) at (rw (fine, redis_get) at h))) in
          (e.1, here ∙ ap (λ v. some (v, e.1)) k, ground arith)
    ]
  ]
]

redis_get-live :
    (now until : ℕ) (key value : String) (r : Redis)
    → (next_fault r.faults).0 ≡ false
    → lookup key r.entries ≡ some (value, until)
    → now < until
    → redis_get now key r ≡ ok value
unfolding redis_get
redis_get-live now until key value r fine here early =
    rw (fine, redis_get) (rw (here, redis_get) (live now until early))
  where
    live :
        (now until : ℕ)
        → now < until
        → (if ltb now until then ok value else err (msg "redis: nil")) ≡ ok value
    live now until early = ground arith

module _ {Key : Type 0} (lib : Packages Key) (tokens : Tokens) (cfg : AuthConfig) {U : Type 0}
    (users : UserModel U) where
  -- the checks of a login that succeeds, and how it ends
  record IsAdmitted (now : ℕ) (requested signature : String) (st : State U) (nonce : String)
      : Type 0 where
    named : is_address (lib.to_lower requested) ≡ true
    got : redis_get now (cache_key (lib.to_lower requested)) st.redis ≡ ok nonce
    signed :
        verify_signature lib tokens
          (lib.to_lower requested)
          (sign_message (lib.to_lower requested) nonce)
          signature
        ≡ true

  wallet_login-IsAdmitted :
      (now : ℕ) (clock : ℕ → ℕ) (new_nonce requested signature : String) (st : State U)
      (r : LoginResponse)
      → (wallet_login lib tokens cfg users now clock new_nonce requested signature st).0 ≡ success r
      → (nonce : String) × IsAdmitted now requested signature st nonce
  unfolding wallet_login
  wallet_login-IsAdmitted now clock new_nonce requested signature st r h =
      let address = lib.to_lower requested in
      elim (Bool-cases (is_address address)) [
        | inr bad ↦ let k = rw (bad, wallet_login) at h in absurd cc
        | inl named ↦ elim (Result-cases (redis_get now (cache_key address) st.redis)) [
          | inr (e, gone) ↦
              let k = rw (gone, wallet_login) at (rw (named, wallet_login) at h) in absurd cc
          | inl (nonce, got) ↦
              elim (Bool-cases
                (verify_signature lib tokens address (sign_message address nonce) signature)) [
                  | inr bad ↦
                      let k =
                        rw (bad, wallet_login) at
                          (rw (got, wallet_login) at (rw (named, wallet_login) at h)) in
                      absurd cc
                  | inl signed ↦ (nonce, record { named = named; got = got; signed = signed })
                ]
        ]
      ]

  -- A login that succeeds is for a well-formed address whose nonce Redis still has, and carries a
  -- signature of this address for the message with just this nonce.
  pub wallet_login-checks :
      (now : ℕ) (clock : ℕ → ℕ) (new_nonce requested signature : String) (st : State U)
      (r : LoginResponse)
      → (wallet_login lib tokens cfg users now clock new_nonce requested signature st).0 ≡ success r
      → let a = lib.to_lower requested in
        (is_address a ≡ true)
        × (nonce : String) × (until : ℕ) × (lookup (cache_key a) st.redis.entries
            ≡ some (nonce, until))
        × (now < until)
        × (verify_signature lib tokens a (sign_message a nonce) signature ≡ true)
  wallet_login-checks now clock new_nonce requested signature st r h =
      let (nonce, k) = wallet_login-IsAdmitted now clock new_nonce requested signature st r h in
      let (until, here, early) =
        redis_get-found now (cache_key (lib.to_lower requested)) nonce st.redis k.got in
      (k.named, nonce, until, here, early, k.signed)

  -- a login whose checks hold ends as its look-up of the user and its tokens end
  wallet_login-welcomed :
      (now : ℕ) (clock : ℕ → ℕ) (new_nonce requested signature : String) (st : State U)
      (nonce : String)
      → IsAdmitted now requested signature st nonce
      → wallet_login lib tokens cfg users now clock new_nonce requested signature st ≡ (
        (welcome lib tokens cfg users clock (lib.to_lower requested) new_nonce st.users).0,
        record {
          redis =
              redis_del
                (cache_key (lib.to_lower requested))
                (record st.redis { faults = (next_fault st.redis.faults).1 });
          users =
              (welcome lib tokens cfg users clock (lib.to_lower requested) new_nonce st.users).1;
        },
      )
  unfolding wallet_login
  wallet_login-welcomed now clock new_nonce requested signature st nonce k =
      rw (k.named, wallet_login) (rw (k.got, wallet_login) (rw (k.signed, wallet_login) refl))

  redis_del-refused :
      (key : String) (r : Redis)
      → (next_fault r.faults).0 ≡ true
      → redis_del key r ≡ record r { faults = (next_fault r.faults).1 }
  unfolding redis_del
  redis_del-refused key r bad = rw (bad, redis_del) refl

  -- When Redis refuses to delete the nonce of a login that succeeded, and answers again, the same
  -- signature passes once more while the nonce lasts: a second login on the state that the first one
  -- left ends as its look-up of the user and its tokens end.
  pub wallet_login-replayed :
      (now again until : ℕ) (clock clock' : ℕ → ℕ)
      (new_nonce new_nonce' requested signature nonce : String) (st : State U) (r : LoginResponse)
      (rest : List Bool)
      → (wallet_login lib tokens cfg users now clock new_nonce requested signature st).0 ≡ success r
      → lookup (cache_key (lib.to_lower requested)) st.redis.entries ≡ some (nonce, until)
      → st.redis.faults ≡ false ∷ true ∷ false ∷ rest
      → again < until
      → let st' =
          (wallet_login lib tokens cfg users now clock new_nonce requested signature st).1 in
        (wallet_login lib tokens cfg users again clock' new_nonce' requested signature st').0
        ≡ (welcome lib tokens cfg users clock' (lib.to_lower requested) new_nonce' st'.users).0
  wallet_login-replayed now again until clock clock' new_nonce new_nonce' requested signature nonce
        st r rest h here faulty early =
      let address = lib.to_lower requested in
      let key = cache_key address in
      let (nonce0, k) = wallet_login-IsAdmitted now clock new_nonce requested signature st r h in
      let (until0, here0, early0) = redis_get-found now key nonce0 st.redis k.got in
      let same : nonce0 ≡ nonce = cc in
      let asked : Redis = record st.redis { faults = (next_fault st.redis.faults).1 } in
      let refused =
        redis_del-refused key asked (ap (λ f. (next_fault (next_fault f).1).0) faulty) in
      let st' = (wallet_login lib tokens cfg users now clock new_nonce requested signature st).1 in
      let left : st'.redis ≡ record asked { faults = (next_fault asked.faults).1 } =
        ap (λ s. s.1.redis)
          (wallet_login-welcomed now clock new_nonce requested signature st nonce0 k)
        ∙ refused in
      let there = ap (λ s. lookup key s.entries) left ∙ here in
      let fine =
        ap (λ s. (next_fault s.faults).0) left
        ∙ ap (λ f. (next_fault (next_fault (next_fault f).1).1).0) faulty in
      ap (λ s. s.0)
        (wallet_login-welcomed again clock' new_nonce' requested signature st' nonce0 (record {
          named = k.named;
          got =
              redis_get-live again until key nonce0 st'.redis fine
                (there ∙ ap (λ n. some (n, until)) (sym same)) early;
          signed = k.signed;
        }))
