-- ===== src/Auth/Login.antt =====
-- What a successful login shows, and that a challenge admits one login.
use meme_launchpad_backend.Common.{
  ℕ, ◌<◌, ◌≡◌, refl, sym, ◌∙◌, ap, String, true, none, some, arith, Bool-cases, Option-cases, inl,
  inr, ltb, ==_refl, eq_iff, nat_eq, string_eq,
}
use meme_launchpad_backend.Postgres.Table.{lookup, delete_row, lookup-delete_row}
use meme_launchpad_backend.Postgres.Transaction.{Result-cases, ok, err}
use meme_launchpad_backend.Auth.{
  err_invalid_nonce, LoginResult, SiweConfig, SiweChallenge, Packages, UserStore, Challenges,
  get_stored, delete_stored,
}
use meme_launchpad_backend.Auth.Service.{
  AuthState, message, normalize_address, verify_signature, is_ours, is_current, validate_challenge,
  get_challenge, consume, login,
}

module _ (lib : Packages) (cfg : SiweConfig) {U : Type 0} (users : UserStore U)
    (prefix : String) where
  -- What has been checked when a login succeeds with a challenge.
  pub record Checked (clock : ℕ → ℕ) (a signature : String) (st : AuthState U) (c : SiweChallenge)
      : Type 0 where
    stored : get_challenge lib cfg (clock 0) (clock 1) a st.challenges ≡ ok c
    valid : validate_challenge lib cfg (clock 2) c a ≡ ok tt
    signed : verify_signature lib prefix a (message lib c) signature ≡ true

  pub login-Checked :
      (clock : ℕ → ℕ) (address signature : String) (st : AuthState U) (r : LoginResult)
      → (login lib cfg users prefix clock address signature st).0 ≡ ok r
      → (c : SiweChallenge) × Checked clock (lib.checksum_hex address) signature st c
        × (lib.is_hex_address address ≡ true)
        × ((consume lib cfg users clock (lib.checksum_hex address) st).0 ≡ ok r)
        × (login lib cfg users prefix clock address signature st
            ≡ consume lib cfg users clock (lib.checksum_hex address) st)
  unfolding login normalize_address
  login-Checked clock address signature st r h = elim (Bool-cases (lib.is_hex_address address)) [
    | inr bad ↦ let k = rw (bad, login) at h in absurd cc
    | inl hex ↦
        elim (Result-cases
          (get_challenge lib cfg (clock 0) (clock 1) (lib.checksum_hex address) st.challenges)) [
            | inr (e, gone) ↦ let k = rw (gone, login) at (rw (hex, login) at h) in absurd cc
            | inl (c, found) ↦
                elim (Result-cases
                  (validate_challenge lib cfg (clock 2) c (lib.checksum_hex address))) [
                    | inr (e, bad) ↦
                        let k = rw (bad, login) at (rw (found, login) at (rw (hex, login) at h)) in
                        absurd cc
                    | inl (u, good) ↦
                        elim (Bool-cases (
                          verify_signature lib prefix (lib.checksum_hex address) (message lib c)
                            signature)) [
                              | inr bad ↦
                                  let k =
                                    rw (bad, login) at
                                      (rw (good, login) at
                                        (rw (found, login) at (rw (hex, login) at h))) in
                                  absurd cc
                              | inl signed ↦
                                  let run : login lib cfg users prefix clock address signature st
                                      ≡ consume lib cfg users clock (lib.checksum_hex address) st =
                                    rw (hex, login)
                                      (rw (found, login)
                                        (rw (good, login) (rw (signed, login) refl))) in
                                  (
                                    c,
                                    record { stored = found; valid = good; signed = signed },
                                    hex,
                                    sym (ap (λ o. o.0) run) ∙ h,
                                    run,
                                  )
                            ]
                  ]
          ]
  ]

  get_challenge-stored :
      (now later : ℕ) (a : String) (t : Challenges) (c : SiweChallenge)
      → get_challenge lib cfg now later a t ≡ ok c
      → lookup a t ≡ some c
  unfolding get_challenge get_stored
  get_challenge-stored now later a t c h = elim (Option-cases (lookup a t)) [
    | inl gone ↦ let k = rw (gone, get_challenge) at h in absurd cc
    | inr (c', found) ↦ elim (Bool-cases (ltb c'.expiration_time now)) [
      | inl late ↦ let k = rw (late, get_challenge) at (rw (found, get_challenge) at h) in absurd cc
      | inr early ↦ elim (Bool-cases (ltb c'.expiration_time later)) [
        | inl past ↦
            let k =
              rw (past, get_challenge) at
                (rw (early, get_challenge) at (rw (found, get_challenge) at h)) in
            absurd cc
        | inr current ↦
            let k =
              rw (current, get_challenge) at
                (rw (early, get_challenge) at (rw (found, get_challenge) at h)) in
            cc
      ]
    ]
  ]

  validate_challenge-checks :
      (now : ℕ) (c : SiweChallenge) (a : String)
      → validate_challenge lib cfg now c a ≡ ok tt
      → (is_ours lib cfg c a ≡ true) × (is_current lib cfg now c ≡ true)
  unfolding validate_challenge
  validate_challenge-checks now c a h = ground arith

  delete_stored-removes :
      (now : ℕ) (a : String) (t : Challenges)
      → (delete_stored now a t).0 ≡ ok tt
      → (delete_stored now a t).1 ≡ delete_row a t
  unfolding delete_stored
  delete_stored-removes now a t h = ground arith

  consume-removes :
      (clock : ℕ → ℕ) (a : String) (st : AuthState U) (r : LoginResult)
      → (consume lib cfg users clock a st).0 ≡ ok r
      → (consume lib cfg users clock a st).1.challenges ≡ delete_row a st.challenges
  unfolding consume
  consume-removes clock a st r h = elim (Result-cases (delete_stored (clock 3) a st.challenges).0) [
    | inl (u, done) ↦ rw (done, consume) (delete_stored-removes (clock 3) a st.challenges done)
    | inr (e, failed) ↦ let k = rw (failed, consume) at h in absurd cc
  ]

  -- A login that succeeds uses a stored challenge for just this address, of the service's domain, URI
  -- and chain, that has not expired and whose message the address has signed.
  pub login-checks :
      (clock : ℕ → ℕ) (address signature : String) (st : AuthState U) (r : LoginResult)
      → (login lib cfg users prefix clock address signature st).0 ≡ ok r
      → let a = lib.checksum_hex address in
        (c : SiweChallenge) × (lookup a st.challenges ≡ some c)
        × (c.address ≡ a)
        × (c.domain ≡ cfg.domain)
        × (c.uri ≡ cfg.uri)
        × (c.chain_id ≡ cfg.chain_id)
        × (clock 2 < c.expiration_time)
        × (verify_signature lib prefix a (message lib c) signature ≡ true)
  unfolding is_ours is_current
  login-checks clock address signature st r h =
      let a = lib.checksum_hex address in
      let (c, checked, _, _, _) = login-Checked clock address signature st r h in
      let (ours, current) = validate_challenge-checks (clock 2) c a checked.valid in
      let here = get_challenge-stored (clock 0) (clock 1) a st.challenges c checked.stored in
      (
        c,
        here,
        ground (arith, eq_iff c.address a),
        ground (arith, eq_iff c.domain cfg.domain),
        ground (arith, eq_iff c.uri cfg.uri),
        ground arith,
        ground arith,
        checked.signed,
      )

  -- After a login has succeeded, a login that starts on the state it leaves, for a valid address
  -- with the same normal form, with any signature and any readings of the clock, fails with the
  -- error for a nonce that was used.
  pub login_only_once :
      (clock clock' : ℕ → ℕ) (address address' signature signature' : String) (st : AuthState U)
      (r : LoginResult)
      → (login lib cfg users prefix clock address signature st).0 ≡ ok r
      → lib.is_hex_address address' ≡ true
      → lib.checksum_hex address' ≡ lib.checksum_hex address
      → (login lib cfg users prefix clock' address' signature'
          (login lib cfg users prefix clock address signature st).1).0
        ≡ err err_invalid_nonce
  unfolding login normalize_address get_challenge get_stored
  login_only_once clock clock' address address' signature signature' st r h hex same =
      let a = lib.checksum_hex address in
      let (c, checked, _, consumed, run) = login-Checked clock address signature st r h in
      let left : (login lib cfg users prefix clock address signature st).1.challenges
          ≡ delete_row a st.challenges =
        ap (λ o. o.1.challenges) run ∙ consume-removes clock a st r consumed in
      let gone : lookup a (login lib cfg users prefix clock address signature st).1.challenges
          ≡ none =
        ap (lookup a) left ∙ lookup-delete_row a a st.challenges ∙ rw (==_refl a) refl in
      rw (hex, login) (rw (same, login) (rw (gone, login) refl))
