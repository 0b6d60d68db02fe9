-- ===== src/Consensus/Timestamp/Limits.antt =====
-- The time proposed for the next block, and the times that are accepted.
use pacd.Base.{arith, ◌≡◌}
use pacd.Base.Int.{ℤ, pos, ◌<ℤ◌, ◌+ℤ◌, ◌≤ℤ◌, +ℤ_parts}
use pacd.Base.Result.{err, timestamp_not_after}
use pacd.Chaincfg.{Params, Time, unix, second}
use pacd.Consensus.Timestamp.{max_allowed_block_time, next_block_time, check_block_timestamp}

-- Where blocks may lie in the future, and the limit on that lies behind the last block, the
-- proposed time is behind the last block too, and within the limit.
pub next_block_time-allowed :
    (params : Params) (prev : ℤ) (now : Time)
    → pos 0 <ℤ params.max_future_block_time
    → unix prev <ℤ max_allowed_block_time params prev now
    → let t = next_block_time params prev now in
      (unix prev <ℤ t) × (t ≤ℤ max_allowed_block_time params prev now)
unfolding next_block_time max_allowed_block_time
next_block_time-allowed params prev now hf hm = ground (arith, +ℤ_parts (unix prev) second)

-- Where blocks may lie in the future, and the last block lies exactly at the limit, the proposed
-- time is the last block's own, and a block of that time is rejected.
pub next_block_time_at_limit :
    (params : Params) (prev : ℤ) (now : Time)
    → pos 0 <ℤ params.max_future_block_time
    → now +ℤ params.max_future_block_time ≡ unix prev
    → (next_block_time params prev now ≡ unix prev)
      × (check_block_timestamp params prev prev now ≡ err timestamp_not_after)
unfolding next_block_time max_allowed_block_time check_block_timestamp
next_block_time_at_limit params prev now hf e = (
  ground (arith, +ℤ_parts (unix prev) second, +ℤ_parts now params.max_future_block_time),
  ground arith,
)
