-- ===== src/LegacyApi/Redis.antt =====
-- The calls of Redis in apps/api/internal/logic/user. Redis is a table of texts with the times at which
-- they end, and a list of faults of its calls.
use meme_launchpad_backend.Common.{
  ℕ, ◌+◌, String, Bool, List, none, some, ltb, string_eq, if◌then◌else◌,
}
use meme_launchpad_backend.Fallible.{msg, Result, ok, err}
use meme_launchpad_backend.Postgres.Table.{Table, lookup, upsert, delete_row}
use meme_launchpad_backend.Postgres.Transaction.{next_fault}

pub record Redis : Type 0 where
  pub entries : Table String (String × ℕ)
  pub faults : List Bool

abbrev pub next : Redis → Redis
next r = record r { faults = (next_fault r.faults).1 }

-- `Get`; an entry is there until its time
unfoldable pub redis_get : ℕ → String → Redis → Result String
unfolding lookup
redis_get now key r =
    if (next_fault r.faults).0
    then err (msg "redis: connection refused")
    else elim (lookup key r.entries) [
      | none ↦ err (msg "redis: nil")
      | some (value, until) ↦ if ltb now until then ok value else err (msg "redis: nil")
    ]

-- `Set` for some seconds and `Del`, whose errors the callers drop
unfoldable pub redis_set : ℕ → String → String → ℕ → Redis → Redis
unfolding upsert
redis_set now key value seconds r = if (next_fault r.faults).0 then next r else record {
  entries = upsert key (value, now + seconds) (λ _. (value, now + seconds)) r.entries;
  faults = (next_fault r.faults).1;
}

unfoldable pub redis_del : String → Redis → Redis
unfolding delete_row
redis_del key r =
    if (next_fault r.faults).0
    then next r
    else record { entries = delete_row key r.entries; faults = (next_fault r.faults).1 }
