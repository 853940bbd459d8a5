-- ===== src/LegacyIndexer/Sync/Batch.antt =====
-- The batch size and the position of the polling loop.
use meme_launchpad_backend.Common.{
  ℕ, ◌+◌, ◌^◌, ◌≤◌, ◌<◌, ◌≡◌, ap, inl, inr, refl, String, Option, none, some, min, max, arith, ltb,
  Bool-cases,
}
use meme_launchpad_backend.Postgres.Transaction.{Error, Result, Result-cases, ok, err, World}
use meme_launchpad_backend.Ledger.Rows.{Encoding}
use meme_launchpad_backend.ChainIndexer.Client.{Client, Abi}
use meme_launchpad_backend.ChainIndexer.Sync.{range_end}
use meme_launchpad_backend.LegacyIndexer.Rows.{Tables}
use meme_launchpad_backend.LegacyIndexer.Sync.{
  ChainConfig, Poller, limit_exceeded, sync_block_range, after_error, recover, after_success, tick,
}

module _ (lower_go : String → String) (enc : Encoding) (abi : Abi) (client : Client)
    (quotient : ℕ → ℕ → ℕ) (cfg : ChainConfig) where
  -- The batch size lies between the configured one and 10, whichever of them is smaller.
  abbrev pub IsSized : Poller → Type 0
  IsSized p = (min 10 cfg.block_batch_size ≤ p.batch) × (p.batch ≤ max 10 cfg.block_batch_size)

  after_error-IsSized :
      (e : Error) (p : Poller)
      → IsSized p
      → IsSized (after_error lower_go enc abi client quotient cfg e p)
  unfolding after_error
  after_error-IsSized e p h = elim (Bool-cases (limit_exceeded e)) [
    | inl much ↦ rw (much, after_error) (ground arith)
    | inr other ↦ rw (other, after_error) h
  ]

  recover-IsSized :
      (p : Poller)
      → cfg.block_batch_size < 2 ^ 63
      → IsSized p
      → IsSized (recover lower_go enc abi client quotient cfg p)
  unfolding recover
  recover-IsSized p fits h = ground arith

  after_success-batch :
      (to : ℕ) (p : Poller)
      → (after_success lower_go enc abi client quotient cfg to p).batch
        ≡ (recover lower_go enc abi client quotient cfg p).batch
  unfolding after_success
  after_success-batch to p = refl

  abbrev SizedOr : Option Poller → Type 0
  SizedOr none = Unit
  SizedOr (some p) = IsSized p

  tick-SizedOr :
      (p : Poller)
      → cfg.block_batch_size < 2 ^ 63
      → IsSized p
      → SizedOr (tick lower_go enc abi client quotient cfg p)
  unfolding tick
  tick-SizedOr p fits h = elim (Result-cases (client.rpc_block_number p.calls)) [
    | inl (latest, got) ↦ elim (Bool-cases (ltb latest p.current)) [
      | inl behind ↦ rw (got, tick) (rw (behind, tick) h)
      | inr ahead ↦
          rw (got, tick)
            (rw (ahead, tick)
              (go (range_end p.current p.batch latest) (
                sync_block_range lower_go enc abi client quotient p.current
                  (range_end p.current p.batch latest) (p.calls + 1) p.world)))
    ]
    | inr (e, got) ↦ rw (got, tick) h
  ]
    where
      go :
          (to : ℕ) (run : Option (Result (Unit {0}) × ℕ × World Tables))
          → SizedOr (elim run [
            | none ↦ none
            | some (r, calls, w) ↦
                let q = record p { calls = calls; world = w } in
                some (elim r [
                  | err e ↦ after_error lower_go enc abi client quotient cfg e q
                  | ok _ ↦ after_success lower_go enc abi client quotient cfg to q
                ])
          ])
      go to none = tt
      go to (some (err e, calls, w)) =
          after_error-IsSized e (record p { calls = calls; world = w }) h
      go to (some (ok _, calls, w)) =
          let q : Poller = record p { calls = calls; world = w } in
          rw (after_success-batch to q) (recover-IsSized q fits h)

  -- A tick that does not panic keeps the batch size between the configured one and 10, whichever of
  -- them is smaller, whatever the client and the database answer, when the configured size is below
  -- 2^63 and the batch size was between the two before.
  pub tick-IsSized :
      (p p' : Poller)
      → cfg.block_batch_size < 2 ^ 63
      → IsSized p
      → tick lower_go enc abi client quotient cfg p ≡ some p'
      → IsSized p'
  tick-IsSized p p' fits h ends = rw (ap SizedOr ends) at (tick-SizedOr p fits h)
