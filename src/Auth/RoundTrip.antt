-- ===== src/Auth/RoundTrip.antt =====
-- A challenge that was requested admits its address.
use meme_launchpad_backend.Common.{
  ℕ, ◌+◌, ◌*◌, ◌<◌, ◌≤◌, ◌≡◌, refl, sym, ◌∙◌, ap, String, true, false, some, [], ◌∷◌, arith,
  Bool-cases, inl, inr, ltb, ◌==◌, ==_refl, nat_eq, string_eq,
}
use meme_launchpad_backend.Postgres.Table.{lookup, upsert}
use meme_launchpad_backend.Postgres.Transaction.{ok}
use meme_launchpad_backend.Fallible.{ok-injective}
use meme_launchpad_backend.Auth.{
  second, SignMessage, SiweConfig, SiweChallenge, Packages, UserStore, Challenges, save_challenge,
  valid_nonce, get_stored, delete_stored,
}
use meme_launchpad_backend.Auth.Service.{
  message, normalize_address, verify_signature, is_ours, is_well_formed, has_uri, is_current,
  validate_challenge, get_challenge, new_challenge, request_message, admit, consume, login,
}

lookup-save_challenge :
    (a : String) (c : SiweChallenge) (t : Challenges) → lookup a (save_challenge a c t) ≡ some c
unfolding save_challenge upsert lookup
lookup-save_challenge a c [] = rw (==_refl a) refl
lookup-save_challenge a c ((b, d) ∷ t) = elim (Bool-cases (b == a)) [
  | inl same ↦ rw same (rw same refl)
  | inr other ↦ rw other (rw other (lookup-save_challenge a c t))
]

module _ (lib : Packages) (cfg : SiweConfig) where
  -- A configuration whose URI is absolute with a host, and whose domain has no white space.
  pub record IsConfigured : Type 0 where
    pub host : String
    pub parsed : lib.parse_request_uri cfg.uri ≡ some (true, host)
    pub some_host : (host == "") ≡ false
    pub no_space : lib.contains_any cfg.domain " \t\n" ≡ false

  module _ (nonce a : String) (now : ℕ) where
    is_ours-new_challenge : is_ours lib cfg (new_challenge lib cfg nonce now a) a ≡ true
    unfolding is_ours new_challenge
    is_ours-new_challenge =
        ground (arith, ==_refl cfg.domain, ==_refl cfg.uri, ==_refl cfg.chain_id, ==_refl a)

    is_well_formed-new_challenge :
        valid_nonce nonce ≡ true → is_well_formed lib cfg (new_challenge lib cfg nonce now a) ≡ true
    unfolding is_well_formed new_challenge
    is_well_formed-new_challenge good = rw good refl

    has_uri-new_challenge :
        IsConfigured → has_uri lib cfg (new_challenge lib cfg nonce now a) ≡ true
    unfolding has_uri new_challenge
    has_uri-new_challenge k =
        rw (k.parsed, has_uri) (rw (k.some_host, has_uri) (rw (k.no_space, has_uri) refl))

    is_current-new_challenge :
        (later : ℕ)
        → now ≤ later
        → later < now + 300 * second
        → is_current lib cfg later (new_challenge lib cfg nonce now a) ≡ true
    unfolding is_current new_challenge
    is_current-new_challenge later after before = ground arith

    new_challenge-valid :
        (later : ℕ)
        → IsConfigured
        → valid_nonce nonce ≡ true
        → now ≤ later
        → later < now + 300 * second
        → validate_challenge lib cfg later (new_challenge lib cfg nonce now a) a ≡ ok tt
    unfolding validate_challenge
    new_challenge-valid later k good after before =
        rw (is_ours-new_challenge, validate_challenge)
          (rw (is_well_formed-new_challenge good, validate_challenge)
            (rw (has_uri-new_challenge k, validate_challenge)
              (rw (is_current-new_challenge later after before, validate_challenge) refl)))

    lasts :
        (later : ℕ)
        → later < now + 300 * second
        → ltb (new_challenge lib cfg nonce now a).expiration_time later ≡ false
    unfolding new_challenge
    lasts later before = ground arith

  -- the readings of the clock in a login that begins after `now` and reaches the store in five minutes
  abbrev pub InTime : (ℕ → ℕ) → ℕ → Type 0
  InTime clock now = (i : ℕ) → i < 4 → (now ≤ clock i) × (clock i < now + 300 * second)

  module _ {U : Type 0} (users : UserStore U) (prefix : String) where
    -- If the configuration and the nonce are valid, the address is one, the login starts on the
    -- challenges that the request left, its clock readings up to the deletion of the challenge
    -- lie within the five minutes from the request, and the signature is one of the message that
    -- was returned, then the login ends as the look-up of the user and the signing of the token
    -- end.
    pub requested_login-admitted :
        (nonce address signature : String) (answer : SignMessage) (now : ℕ) (clock : ℕ → ℕ)
        (t t' : Challenges) (u : U)
        → IsConfigured
        → valid_nonce nonce ≡ true
        → lib.is_hex_address address ≡ true
        → request_message lib cfg nonce now address t ≡ (ok answer, t')
        → InTime clock now
        → verify_signature lib prefix (lib.checksum_hex address) answer.text signature ≡ true
        → (login lib cfg users prefix clock address signature
            (record { challenges = t'; users = u })).0
          ≡ (admit lib cfg users clock (lib.checksum_hex address) u).0
    unfolding login consume request_message normalize_address get_challenge get_stored delete_stored
    requested_login-admitted nonce address signature answer now clock t t' u k good hex asked timely
          signed =
        let a = lib.checksum_hex address in
        let c = new_challenge lib cfg nonce now a in
        let reply = rw (hex, request_message) at asked in
        let same_text : message lib c ≡ answer.text =
          ap (λ m. m.text) (ok-injective (ap (λ o. o.0) reply)) in
        let same_store : save_challenge a c t ≡ t' = ap (λ o. o.1) reply in
        let stored : lookup a t' ≡ some c =
          sym (ap (lookup a) same_store) ∙ lookup-save_challenge a c t in
        let valid =
          new_challenge-valid nonce a now (clock 2) k good (timely 2 (omega arith)).0
            (timely 2 (omega arith)).1 in
        let alive : (i : ℕ) → i < 4 → ltb c.expiration_time (clock i) ≡ false =
          λ i h. lasts nonce a now (clock i) (timely i h).1 in
        let got : get_challenge lib cfg (clock 0) (clock 1) a t' ≡ ok c =
          rw (stored, get_challenge)
            (rw (alive 0 (omega arith), get_challenge)
              (rw (alive 1 (omega arith), get_challenge) refl)) in
        let deleted : (delete_stored (clock 3) a t').0 ≡ ok tt =
          rw (stored, delete_stored) (rw (alive 3 (omega arith), delete_stored) refl) in
        let by_text : verify_signature lib prefix a (message lib c) signature ≡ true =
          rw same_text signed in
        rw (hex, login)
          (rw (got, login) (rw (valid, login) (rw (by_text, login) (rw (deleted, consume) refl))))
