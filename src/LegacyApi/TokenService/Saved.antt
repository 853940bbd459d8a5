-- ===== src/LegacyApi/TokenService/Saved.antt =====
-- What `CreateToken` saves, and where the saved row and the signed data differ.
use meme_launchpad_backend.Common.{
  ℕ, ◌/◌, ◌%◌, ◌^◌, ◌<◌, ◌≡◌, ◌⊎◌, inl, inr, refl, sym, ◌∙◌, ap, none, List, ◌∷◌, arith, Bool-cases,
  Option-cases, string_eq,
}
use meme_launchpad_backend.Fallible.{
  Error, msg, Result, ok, err, Result-cases, Yields, any, ◌⟫◌, ok-Yields,
}
use meme_launchpad_backend.Go.Strconv.{pos, int_string, to_unsigned}
use meme_launchpad_backend.Postgres.Table.{lookup}
use meme_launchpad_backend.Postgres.Transaction.{World, next_fault}
use meme_launchpad_backend.LegacyApi.{Packages}
use meme_launchpad_backend.LegacyApi.Signer.{or_zero, to_seconds, tuple_data}
use meme_launchpad_backend.LegacyApi.TokenService.Laws.{
  run-refused, run-done, run-failing, run-keeps, update_nonce-keeps, select_nonce-keeps,
}
use meme_launchpad_backend.LegacyApi.TokenService.{
  TokenModel, nil_model, nil_database, connected, TokenService, CreateTokenRequest,
  CreateTokenResponse, CreationRow, Tables, run, update_nonce, select_nonce, insert_nonce, fallback,
  get_next_nonce, insert_creation, vesting_json,
}
use meme_launchpad_backend.LegacyApi.TokenService.Create.{
  place, creation_params, creation_row, signed_by, save_creation_request, prepare, create_token,
}

fallback-keeps :
    (chain_id : ℕ) (o : Result ℕ × World Tables)
    → (fallback chain_id o).1.db.token_creation_requests ≡ o.1.db.token_creation_requests
unfolding fallback
fallback-keeps chain_id (ok n, w) = refl
fallback-keeps chain_id (err e, w) =
    run-keeps (select_nonce chain_id) (run insert_nonce w).1 (λ d. d.token_creation_requests)
      (select_nonce-keeps chain_id (run insert_nonce w).1.db)
    ∙ run-keeps insert_nonce w (λ d. d.token_creation_requests) (λ o h. absurd cc)

get_next_nonce-keeps :
    (model : TokenModel) (chain_id : ℕ) (w : World Tables)
    → (get_next_nonce model chain_id w).1.db.token_creation_requests ≡ w.db.token_creation_requests
unfolding get_next_nonce
get_next_nonce-keeps nil_model chain_id w = refl
get_next_nonce-keeps nil_database chain_id w = refl
get_next_nonce-keeps connected chain_id w =
    fallback-keeps chain_id (run (update_nonce chain_id) w)
    ∙ run-keeps (update_nonce chain_id) w (λ d. d.token_creation_requests)
        (update_nonce-keeps chain_id w.db)

second_of : (t : ℕ) → 10 ^ 10 < t → t < 2 ^ 63 → to_seconds (t % 2 ^ 64) ≡ t / 1000
unfolding to_seconds
second_of t large small = ground arith

module _ {Key : Type 0} (lib : Packages Key) (s : TokenService Key) where
  -- A launch time in milliseconds is saved as it came, while the second it lies in is signed.
  pub launch_time-diverges :
      (req : CreateTokenRequest) (t timestamp nonce predicted : ℕ) (encoded signature salt : List ℕ)
      → req.launch_time ≡ pos t
      → 10 ^ 10 < t
      → t < 2 ^ 63
      → let p = creation_params lib s req timestamp nonce in
        ((tuple_data p).launch_time ≡ t / 1000)
        × ((creation_row lib s req p encoded signature salt predicted).launch_time ≡ pos t)
  unfolding creation_params creation_row tuple_data to_seconds
  launch_time-diverges req t timestamp nonce predicted encoded signature salt came large small =
      (ap (λ z. to_seconds (to_unsigned 64 z)) came ∙ second_of t large small, came)

  -- what a request, its answer and its row have in common
  pub record IsRowOf (req : CreateTokenRequest) (r : CreateTokenResponse) (row : CreationRow)
      : Type 0 where
    pub id : row.request_id ≡ r.request_id
    pub signed : row.signature ≡ r.signature
    pub encoded : row.encoded_data ≡ r.create_arg
    pub salted : row.salt ≡ r.create2_salt
    pub numbered : row.nonce ≡ r.nonce
    pub timed : row.timestamp ≡ r.timestamp
    pub placed : row.predicted_address ≡ lib.to_lower r.predicted_address
    pub creator : row.creator_address ≡ lib.to_lower req.creator
    pub bought : row.initial_buy_percentage ≡ req.initial_buy_percentage
    pub margin : row.margin_bnb ≡ int_string (or_zero req.margin_bnb)
    pub locked : row.margin_time ≡ req.margin_time
    pub vested : row.vesting_allocations ≡ vesting_json req.vesting_allocations

  prepare-IsRowOf :
      (timestamp : ℕ) (req : CreateTokenRequest) (sequence : ℕ)
      → Yields (λ o. IsRowOf req o.0 o.1) (prepare lib s timestamp req sequence)
  unfolding prepare creation_row creation_params
  prepare-IsRowOf timestamp req sequence =
      any (place lib s req.name req.symbol timestamp req.digits 1000000 sequence) ⟫ λ placed _.
      let p = creation_params lib s req timestamp placed.0 in
      any (signed_by lib s p) ⟫ λ both _.
      ok-Yields (λ o. IsRowOf req o.0 o.1)
        (record {
          id = refl;
          signed = refl;
          encoded = refl;
          salted = refl;
          numbered = refl;
          timed = refl;
          placed = refl;
          creator = refl;
          bought = refl;
          margin = refl;
          locked = refl;
          vested = refl;
        })

  -- The requests after a call: an answer is one new row under its request id, and an error leaves them.
  abbrev pub Outcome :
      CreateTokenRequest → Result CreateTokenResponse → World Tables → World Tables → Type 0
  Outcome req (ok r) w w' =
      (lookup r.request_id w.db.token_creation_requests ≡ none)
      × (row : CreationRow) × IsRowOf req r row
      × (w'.db.token_creation_requests ≡ (r.request_id, row) ∷ w.db.token_creation_requests)
  Outcome req (err _) w w' = w'.db.token_creation_requests ≡ w.db.token_creation_requests

  save-cases :
      (model : TokenModel) (row : CreationRow) (w : World Tables)
      → (((save_creation_request lib s model row w).0 ≡ ok tt)
          × (lookup row.request_id w.db.token_creation_requests ≡ none)
          × ((save_creation_request lib s model row w).1.db.token_creation_requests
              ≡ (row.request_id, row) ∷ w.db.token_creation_requests))
        ⊎ ((e : Error) × ((save_creation_request lib s model row w).0 ≡ err e)
            × ((save_creation_request lib s model row w).1.db.token_creation_requests
                ≡ w.db.token_creation_requests))
  unfolding save_creation_request insert_creation
  save-cases nil_model row w = inr (_, refl, refl)
  save-cases nil_database row w = inr (_, refl, refl)
  save-cases connected row w =
      elim (Option-cases (lookup row.request_id w.db.token_creation_requests)) [
        | inr (old, taken) ↦
            let (e, same) =
              run-failing (insert_creation row) w
                (msg "duplicate key value violates unique constraint")
                (rw (taken, insert_creation) refl) in
            inr (e, ap (λ o. o.0) same, ap (λ o. o.1.db.token_creation_requests) same)
        | inl free ↦ elim (Bool-cases (next_fault w.faults).0) [
          | inl bad ↦
              let same = run-refused (insert_creation row) w bad in
              inr (_, ap (λ o. o.0) same, ap (λ o. o.1.db.token_creation_requests) same)
          | inr fine ↦
              let done =
                run-done (insert_creation row) w tt
                  (record w.db {
                    token_creation_requests = (row.request_id, row) ∷ w.db.token_creation_requests;
                  })
                  fine (rw (free, insert_creation) refl) in
              inl (ap (λ o. o.0) done, free, ap (λ o. o.1.db.token_creation_requests) done)
        ]
      ]

  -- a row that was added to the requests of `w`, which an earlier step has left alone
  stored-Outcome :
      (req : CreateTokenRequest) (r : CreateTokenResponse) (row : CreationRow)
      (w w1 w2 : World Tables)
      → IsRowOf req r row
      → w1.db.token_creation_requests ≡ w.db.token_creation_requests
      → lookup row.request_id w1.db.token_creation_requests ≡ none
      → w2.db.token_creation_requests ≡ (row.request_id, row) ∷ w1.db.token_creation_requests
      → Outcome req (ok r) w w2
  stored-Outcome req r row w w1 w2 same left free grown = (
    sym (λ i. lookup (same.id i) (left i)) ∙ free,
    row,
    same,
    grown ∙ (λ i. (same.id i, row) ∷ left i),
  )

  -- `CreateToken` either answers, and then token_creation_requests had no row of the answer's request id
  -- and has gained one under it, with the answer's data, signature, salt, nonce, time and predicted
  -- address and the request's creator, purchase, margin and vesting, or fails and leaves that table as it was, whichever step or statement has failed.
  pub create_token-Outcome :
      (timestamp : ℕ) (req : CreateTokenRequest) (w : World Tables)
      → Outcome req (create_token lib s timestamp req w).0 w (create_token lib s timestamp req w).1
  unfolding create_token
  create_token-Outcome timestamp req w =
      let w1 = (get_next_nonce s.token_model s.chain_id w).1 in
      let left = get_next_nonce-keeps s.token_model s.chain_id w in
      elim (Result-cases (get_next_nonce s.token_model s.chain_id w).0) [
        | inr (e, bad) ↦ rw (bad, create_token) left
        | inl (n, next) ↦ elim (Result-cases (prepare lib s timestamp req n)) [
          | inr (e, bad) ↦ rw (next, create_token) (rw (bad, create_token) left)
          | inl (o, good) ↦ elim (save-cases s.token_model o.1 w1) [
            | inl (kept, free, grown) ↦
                rw (next, create_token)
                  (rw (good, create_token)
                    (rw (kept, create_token)
                      (stored-Outcome req o.0 o.1 w w1
                        (save_creation_request lib s s.token_model o.1 w1).1
                        (prepare-IsRowOf timestamp req n o good) left free grown)))
            | inr (e, lost, same) ↦
                rw (next, create_token)
                  (rw (good, create_token) (rw (lost, create_token) (same ∙ left)))
          ]
        ]
      ]
