-- ===== src/ChainIndexer/Sync/Overflow.antt =====
-- A batch size for which the sum of block numbers wraps.
use meme_launchpad_backend.Common.{ℕ, ◌+◌, ◌≤◌, ◌<◌, arith}
use meme_launchpad_backend.ChainIndexer.Sync.{u64, range_end}

-- If the sum of the next block and the batch size passes 2^64, both the latest block and the
-- batch size have 64 bits, and the next block is not past the latest, then the range ends before
-- it begins.
pub range_end_wraps :
    (next batch latest : ℕ)
    → next ≤ latest
    → latest < u64
    → batch < u64
    → u64 < next + batch
    → range_end next batch latest < next
unfolding range_end
range_end_wraps next batch latest h small fits over = ground arith
