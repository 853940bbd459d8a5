-- ===== src/TokenCreation/Signed.antt =====
-- The answer to a request carries the request's parameters under a signature that the contract accepts.
use mathlib.Core.Path.{subst}
use meme_launchpad_backend.Common.{
  ℕ, ◌+◌, ◌%◌, ◌≤◌, ◌≡◌, ◌≢◌, refl, sym, ◌∙◌, ap, false, some, Option, List, [], ◌∷◌, ◌++◌, length,
  arith, ◌==◌, string_eq,
}
use meme_launchpad_backend.Fallible.{
  Result, ok, wrapped, Yields, self, wrapped-Yields, ◌⟫◌, ok-Yields, ok-injective,
}
use meme_launchpad_backend.Go.Strings.{◌<>◌, trim_space, trim_0x}
use meme_launchpad_backend.Go.Hex.{encode_hex, decode_hex, AreBytes, decode_hex-encode_hex}
use meme_launchpad_backend.Go.Bytes.{utf8}
use meme_launchpad_backend.TokenCreation.{Config, Request, Response, Packages, Store}
use meme_launchpad_backend.TokenCreation.Stored.{create-IsAnswered}
use meme_launchpad_backend.TokenCreation.Service.{
  validate_request, params, raise_byte, random_uint64, request_hash, calculate_salt,
  calculate_address, digest, sign_digest, prepare, create,
}

-- What `validateRequest` lets pass.
pub record IsRequest (r : Request) : Type 0 where
  pub named : (trim_space r.name == "") ≡ false
  pub symbolized : (trim_space r.symbol == "") ≡ false
  pub created : r.creator ≢ 0
  pub short_name : length (utf8 r.name) ≤ 100
  pub short_symbol : length (utf8 r.symbol) ≤ 50
  pub share : r.initial_buy_percentage ≤ 9990

validate_request-IsRequest : (r : Request) → Yields (λ _. IsRequest r) (validate_request r)
unfolding validate_request
validate_request-IsRequest r u h = ground arith

raise_byte-last :
    (bytes : List ℕ) (v : ℕ)
    → raise_byte (length bytes) (bytes ++ (v ∷ [])) ≡ ok (bytes ++ ((v + 27) % 256 ∷ []))
unfolding raise_byte
raise_byte-last [] v = refl
raise_byte-last (b ∷ bytes) v = rw (raise_byte-last bytes v) refl

AreBytes-append : (xs ys : List ℕ) → AreBytes xs → AreBytes ys → AreBytes (xs ++ ys)
AreBytes-append [] ys p q = q
AreBytes-append (x ∷ xs) ys (small, p) q = (small, AreBytes-append xs ys p q)

decode-sent :
    (bytes : List ℕ) → AreBytes bytes → decode_hex (trim_0x ("0x" <> encode_hex bytes)) ≡ some bytes
unfolding trim_0x
decode-sent bytes h = decode_hex-encode_hex bytes h

module _ {Key : Type 0} (lib : Packages Key) (key : Key) (recover : List ℕ → List ℕ → Option ℕ)
    (signer : ℕ) where
  -- A signature of 64 bytes and a recovery id that is 0 or 1, from which the contract's ECDSA.recover
  -- finds the key's address when the id is given as 27 or 28.
  pub record IsSignature (hash signature : List ℕ) : Type 0 where
    pub rs : List ℕ
    pub v : ℕ
    pub ends : signature ≡ rs ++ (v ∷ [])
    pub long : length rs ≡ 64
    pub bytes : AreBytes rs
    pub id : v ≤ 1
    pub recovers : recover hash (rs ++ ((v + 27) ∷ [])) ≡ some signer

  -- The documented results of the ABI's packing and of `Sign`.
  pub record AreDocumented : Type 0 where
    pub packs : (p : _) → Yields AreBytes (lib.pack_params p)
    pub signs : (hash : List ℕ) → Yields (IsSignature hash) (lib.sign hash key)

  module _ (cfg : Config Key) where
    -- The answer's texts decode to the packed parameters and to a signature of just these bytes, the
    -- chain and the core contract.
    pub record IsSigned (request : Request) (r : Response) : Type 0 where
      pub valid : IsRequest request
      pub bytes : List ℕ
      pub signature : List ℕ
      pub packed :
          lib.pack_params (
            params request r.timestamp
              (request_hash lib request.creator r.timestamp r.nonce)
              r.nonce)
          ≡ ok bytes
      pub sent : decode_hex (trim_0x r.call_data) ≡ some bytes
      pub signed : decode_hex (trim_0x r.signature) ≡ some signature
      pub recovers : recover (digest lib cfg bytes) signature ≡ some signer

    -- a signature in the contract's form
    abbrev Accepted : List ℕ → List ℕ → Type 0
    Accepted bytes sig = AreBytes sig × (recover (digest lib cfg bytes) sig ≡ some signer)

    module _ (doc : AreDocumented) (has_key : cfg.signer ≡ some key) where
      raise_byte-Accepted :
          (bytes sig : List ℕ)
          → IsSignature (digest lib cfg bytes) sig
          → Yields (Accepted bytes) (raise_byte 64 sig)
      raise_byte-Accepted bytes sig s a h =
          let last : raise_byte 64 sig ≡ ok (s.rs ++ ((s.v + 27) % 256 ∷ [])) =
            ap (raise_byte 64) s.ends
            ∙ subst (λ n. raise_byte n (s.rs ++ (s.v ∷ [])) ≡ ok (s.rs ++ ((s.v + 27) % 256 ∷ [])))
                s.long (raise_byte-last s.rs s.v) in
          let small : (s.v + 27) % 256 ≡ s.v + 27 = omega (arith, s.id) in
          let result : a ≡ s.rs ++ ((s.v + 27) ∷ []) =
            ok-injective (sym h ∙ last) ∙ ap (λ b. s.rs ++ (b ∷ [])) small in
          subst (Accepted bytes) (sym result)
            (AreBytes-append s.rs _ s.bytes (omega (arith, s.id), tt), s.recovers)

      sign_digest-Accepted : (bytes : List ℕ) → Yields (Accepted bytes) (sign_digest lib cfg bytes)
      unfolding sign_digest
      sign_digest-Accepted bytes =
          rw (has_key, sign_digest)
            (wrapped-Yields "sign create-token parameters" (doc.signs (digest lib cfg bytes))
              ⟫ (raise_byte-Accepted bytes))

      prepare-IsSigned :
          (timestamp : ℕ) (random : Result (List ℕ)) (request : Request)
          → Yields (IsSigned request) (prepare lib cfg timestamp random request)
      unfolding prepare
      prepare-IsSigned timestamp random request = validate_request-IsRequest request ⟫ λ _ valid.
          self (wrapped "generate nonce" (random_uint64 random)) ⟫ λ nonce _.
          let id = request_hash lib request.creator timestamp nonce in
          wrapped-Yields "ABI encode create-token parameters"
            (self (lib.pack_params (params request timestamp id nonce)))
          ⟫ λ bytes packed.
              self (
                calculate_address lib cfg.factory cfg.token_creation_bytecode
                  (calculate_salt lib request.name request.symbol cfg.core timestamp nonce)
                  request.name request.symbol cfg.core)
              ⟫ λ predicted _. sign_digest-Accepted bytes ⟫ λ sig good.
                  ok-Yields (IsSigned request) (record {
                    valid = valid;
                    bytes = bytes;
                    signature = sig;
                    packed = packed;
                    sent = decode-sent bytes (doc.packs _ bytes packed);
                    signed = decode-sent sig good.0;
                    recovers = good.1;
                  })

      -- If the ABI packs into bytes, signatures are as documented, and the key of the configuration is
      -- there, then each answer that `Create` gives is to a request that passes `validateRequest`, its
      -- createArg decodes to the packed parameters of just that request with the answer's timestamp and
      -- nonce, and its signature decodes to one from which the contract recovers the key's address for
      -- these bytes, the chain and the core contract.
      pub create-IsSigned :
          {S : Type 0} (store : Store S) (timestamp : ℕ) (random : Result (List ℕ))
          (request : Request) (s : S) (r : Response)
          → (create lib cfg store timestamp random request s).0 ≡ ok r
          → IsSigned request r
      create-IsSigned store timestamp random request s r h =
          let answered = create-IsAnswered lib cfg store timestamp random request s r h in
          prepare-IsSigned timestamp random request r answered.prepared
