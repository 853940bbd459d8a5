-- ===== src/Auth/Service.antt =====
-- `RequestMessage`, `Login` and what they call.
use Prim.Native.String
use text.Mathlib.Text.{find?}
use meme_launchpad_backend.Common.{
  ℕ, ◌+◌, ◌-◌, ◌*◌, ◌/◌, String, Bool, true, false, not, ◌&&◌, none, some, List, [], ◌∷◌, length,
  ltb, leb, ◌==◌, nat_eq, string_eq, if◌then◌else◌,
}
use meme_launchpad_backend.Postgres.Transaction.{Result, ok, err, wrapped}
use meme_launchpad_backend.Go.Bytes.{utf8}
use meme_launchpad_backend.Auth.{
  err_invalid_address, err_invalid_signature, err_invalid_nonce, err_invalid_siwe, second, User,
  LoginResult, SignMessage, SiweConfig, SiweChallenge, Packages, UserStore, Challenges,
  save_challenge, get_stored, delete_stored, valid_nonce, shorten_address,
}

-- The challenge store and the users.
pub record AuthState (U : Type 0) : Type 0 where
  pub challenges : Challenges
  pub users : U

-- the texts of a list, one after the other
abbrev pub joined : List String → String
joined [] = ""
joined (s ∷ rest) = String.◌++◌ s (joined rest)

-- `sig[64] -= 27` on the last byte
unfoldable pub adjusted : List ℕ → List ℕ
adjusted [] = []
adjusted (v ∷ []) = (if leb 27 v then v - 27 else v) ∷ []
adjusted (v ∷ w ∷ rest) = v ∷ adjusted (w ∷ rest)

abbrev pub last_byte : List ℕ → ℕ
last_byte [] = 0
last_byte (v ∷ []) = v
last_byte (v ∷ w ∷ rest) = last_byte (w ∷ rest)

module _ (lib : Packages) where
  -- `Message`
  unfoldable pub message : SiweChallenge → String
  message c = joined (
      c.domain
      ∷ " wants you to sign in with your Ethereum account:\n"
      ∷ c.address
      ∷ "\n\n"
      ∷ c.statement
      ∷ "\n\nURI: "
      ∷ c.uri
      ∷ "\nVersion: "
      ∷ c.version
      ∷ "\nChain ID: "
      ∷ lib.decimal c.chain_id
      ∷ "\nNonce: "
      ∷ c.nonce
      ∷ "\nIssued At: "
      ∷ lib.rfc3339 c.issued_at
      ∷ "\nExpiration Time: "
      ∷ lib.rfc3339 c.expiration_time
      ∷ [])

  unfoldable pub normalize_address : String → Result String
  normalize_address a =
      if lib.is_hex_address a then ok (lib.checksum_hex a) else err err_invalid_address

  -- `verifySignature`; `prefix` is the byte 0x19 as a text
  unfoldable pub verify_signature : String → String → String → String → Bool
  unfolding adjusted
  verify_signature prefix address text signature = elim (lib.decode_hex signature) [
    | none ↦ false
    | some sig ↦
        if not (length sig == 65)
        then false
        else if ltb 1 (last_byte (adjusted sig))
        then false
        else elim (lib.signer_of
            (joined (
              prefix ∷ "Ethereum Signed Message:\n" ∷ lib.decimal (length (utf8 text)) ∷ text ∷ []))
            (adjusted sig)) [ none ↦ false | some signer ↦ lib.equal_fold signer address ]
  ]

  module _ (cfg : SiweConfig) where
    unfoldable pub is_ours : SiweChallenge → String → Bool
    is_ours c address =
        c.domain == cfg.domain
        && (c.uri == cfg.uri
            && (c.chain_id == cfg.chain_id && (c.version == "1" && c.address == address)))

    unfoldable pub is_well_formed : SiweChallenge → Bool
    is_well_formed c =
        not (c.statement == "")
        && (elim (find? c.statement "\n") [ none ↦ true | some _ ↦ false ] && valid_nonce c.nonce)

    unfoldable pub has_uri : SiweChallenge → Bool
    has_uri c = elim (lib.parse_request_uri c.uri) [
      | none ↦ false
      | some (absolute, host) ↦
          absolute && (not (host == "") && not (lib.contains_any c.domain " \t\n"))
    ]

    unfoldable pub is_current : ℕ → SiweChallenge → Bool
    is_current now c =
        leb c.issued_at (now + 60 * second)
        && (ltb c.issued_at c.expiration_time && ltb now c.expiration_time)

    unfoldable pub validate_challenge : ℕ → SiweChallenge → String → Result (Unit {0})
    unfolding is_ours is_well_formed has_uri is_current
    validate_challenge now c address =
        if not (is_ours c address)
        then err err_invalid_siwe
        else if not (is_well_formed c)
        then err err_invalid_siwe
        else if not (has_uri c)
        then err err_invalid_siwe
        else if not (is_current now c)
        then err err_invalid_siwe
        else ok tt

    -- `getChallenge`: the store reads the clock, and the service reads it again.
    unfoldable pub get_challenge : ℕ → ℕ → String → Challenges → Result SiweChallenge
    get_challenge now later a t = elim (get_stored now a t) [
      | err _ ↦ err err_invalid_nonce
      | ok c ↦ if ltb c.expiration_time later then err err_invalid_nonce else ok c
    ]

    unfoldable pub new_challenge : String → ℕ → String → SiweChallenge
    new_challenge nonce now a = record {
      domain = cfg.domain;
      address = a;
      statement = "Sign in to MEME Launchpad.";
      uri = cfg.uri;
      version = "1";
      chain_id = cfg.chain_id;
      nonce = nonce;
      issued_at = now;
      expiration_time = now + 300 * second;
    }

    -- `RequestMessage` once the nonce is made and the clock is read
    unfoldable pub request_message :
        String → ℕ → String → Challenges → Result SignMessage × Challenges
    unfolding message normalize_address new_challenge
    request_message nonce now address t = elim (normalize_address address) [
      | err e ↦ (err e, t)
      | ok a ↦
          let c = new_challenge nonce now a in
          (
            ok (record {
              text = message c;
              sign_nonce = nonce;
              sign_expires = c.expiration_time / second;
            }),
            save_challenge a c t,
          )
    ]

    -- `issueToken`, with `expires.Unix()`
    unfoldable pub issue_token : ℕ → ℕ → User → Result (String × ℕ)
    issue_token now later user =
        let expires = now + 86400 * second in
        elim (lib.sign_claims (record {
          user_id = user.id;
          claims_address = user.user_address;
          expires_at = expires;
          issued_at = later;
        })) [ err e ↦ err e | ok token ↦ ok (token, expires / second) ]

    module _ {U : Type 0} (users : UserStore U) where
      unfoldable pub find_or_create : String → U → Result User × U
      find_or_create a u = elim (users.find_by_address a u) [
        | err e ↦ (wrapped "find or create user" (err e), u)
        | ok (some user) ↦ (ok user, u)
        | ok none ↦
            let (r, u') = users.create a (shorten_address a) u in
            (wrapped "find or create user" r, u')
      ]

      -- the rest of `Login` after the challenge is consumed
      unfoldable pub admit : (ℕ → ℕ) → String → U → Result LoginResult × U
      unfolding find_or_create issue_token
      admit clock a u =
          let (found, u') = find_or_create a u in
          elim found [
            | err e ↦ (err e, u')
            | ok user ↦ elim (issue_token (clock 4) (clock 5) user) [
              | err e ↦ (err e, u')
              | ok (token, expires) ↦
                  (ok (record { token = token; user = user; expires = expires }), u')
            ]
          ]

      -- the end of `Login`: `consumeNonce` and what follows it
      unfoldable pub consume : (ℕ → ℕ) → String → AuthState U → Result LoginResult × AuthState U
      unfolding admit
      consume clock a st =
          let (r, left) = delete_stored (clock 3) a st.challenges in
          elim r [
            | err e ↦ (err e, record st { challenges = left })
            | ok _ ↦
                let (out, u) = admit clock a st.users in
                (out, record { challenges = left; users = u })
          ]

      unfoldable pub login :
          String → (ℕ → ℕ) → String → String → AuthState U → Result LoginResult × AuthState U
      unfolding normalize_address get_challenge validate_challenge verify_signature message consume
      login prefix clock address signature st = elim (normalize_address address) [
        | err e ↦ (err e, st)
        | ok a ↦ elim (get_challenge (clock 0) (clock 1) a st.challenges) [
          | err e ↦ (err e, st)
          | ok c ↦ elim (validate_challenge (clock 2) c a) [
            | err e ↦ (err e, st)
            | ok _ ↦
                if not (verify_signature prefix a (message c) signature)
                then (err err_invalid_signature, st)
                else consume clock a st
          ]
        ]
      ]
