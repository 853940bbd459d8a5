-- ===== src/TokenCreation/Stored.antt =====
-- What `Create` leaves in the store.
use mathlib.Core.Path.{subst}
use meme_launchpad_backend.Common.{
  ℕ, ◌≡◌, refl, String, none, Option-cases, List, ◌∷◌, Bool-cases, ◌⊎◌, inl, inr, string_eq,
}
use meme_launchpad_backend.Fallible.{Result, ok, err, Result-cases, ok-injective}
use meme_launchpad_backend.Postgres.Table.{Table, lookup}
use meme_launchpad_backend.Postgres.Transaction.{next_fault}
use meme_launchpad_backend.TokenCreation.{
  Config, Request, Response, Packages, TokenCreationRequest, Store, Requests, insert_request,
  token_creation_repository,
}
use meme_launchpad_backend.TokenCreation.Service.{prepare, row, create}

module _ {Key : Type 0} (lib : Packages Key) (cfg : Config Key) where
  module _ {S : Type 0} (store : Store S) (timestamp : ℕ) (random : Result (List ℕ))
      (request : Request) (s : S) where
    -- the parts of a request that is answered
    pub record IsAnswered (r : Response) : Type 0 where
      pub prepared : prepare lib cfg timestamp random request ≡ ok r
      pub stored : (store.create (row lib request r) s).0 ≡ ok tt
      pub left :
          (create lib cfg store timestamp random request s).1
          ≡ (store.create (row lib request r) s).1

    pub create-IsAnswered :
        (r : Response) → (create lib cfg store timestamp random request s).0 ≡ ok r → IsAnswered r
    unfolding create
    create-IsAnswered r h = elim (Result-cases (prepare lib cfg timestamp random request)) [
      | inr (e, bad) ↦ let k = rw (bad, create) at h in absurd cc
      | inl (r', good) ↦ elim (Result-cases (store.create (row lib request r') s).0) [
        | inr (e, lost) ↦ let k = rw (lost, create) at (rw (good, create) at h) in absurd cc
        | inl (u, kept) ↦
            let same : r' ≡ r = ok-injective (rw (kept, create) at (rw (good, create) at h)) in
            subst IsAnswered same (record {
              prepared = good;
              stored = kept;
              left = rw (good, create) (rw (kept, create) refl);
            })
      ]
    ]

  -- The table after a call: an answer is a row that was not there, and an error leaves the table alone.
  abbrev pub Outcome :
      Request
      → Table String TokenCreationRequest
      → Result Response
      → Table String TokenCreationRequest
      → Type 0
  Outcome request t (ok r) t' =
      (lookup r.request_id t ≡ none) × (t' ≡ (r.request_id, row lib request r) ∷ t)
  Outcome request t (err e) t' = t' ≡ t

  insert_request-cases :
      (v : TokenCreationRequest) (w : Requests)
      → (((insert_request v w).0 ≡ ok tt)
          × (lookup v.request_id w.db ≡ none)
          × ((insert_request v w).1.db ≡ (v.request_id, v) ∷ w.db))
        ⊎ ((e : _) × ((insert_request v w).0 ≡ err e) × ((insert_request v w).1.db ≡ w.db))
  unfolding insert_request
  insert_request-cases v w = elim (Bool-cases (next_fault w.faults).0) [
    | inl bad ↦ rw (bad, insert_request) (inr (_, refl, refl))
    | inr fine ↦ elim (Option-cases (lookup v.request_id w.db)) [
      | inl free ↦ rw (fine, insert_request) (rw (free, insert_request) (inl (refl, refl, refl)))
      | inr (v', taken) ↦
          rw (fine, insert_request) (rw (taken, insert_request) (inr (_, refl, refl)))
    ]
  ]

  -- Over the repository's table `Create` either answers, and then the table had no row of the answer's
  -- request id and has gained the one row that holds the answer under it, or fails and leaves the
  -- table as it was, whichever step or statement has failed.
  pub create-Outcome :
      (timestamp : ℕ) (random : Result (List ℕ)) (request : Request) (w : Requests)
      → Outcome request w.db
          (create lib cfg token_creation_repository timestamp random request w).0
          (create lib cfg token_creation_repository timestamp random request w).1.db
  unfolding create row
  create-Outcome timestamp random request w =
      elim (Result-cases (prepare lib cfg timestamp random request)) [
        | inr (e, bad) ↦ rw (bad, create) refl
        | inl (r, good) ↦ elim (insert_request-cases (row lib request r) w) [
          | inl (kept, free, grown) ↦ rw (good, create) (rw (kept, create) (free, grown))
          | inr (e, lost, same) ↦ rw (good, create) (rw (lost, create) same)
        ]
      ]
