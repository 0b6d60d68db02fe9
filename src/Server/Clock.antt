-- ===== src/Server/Clock.antt =====
-- A block that is validated twice, as server.go and node.go do: at the clock of `ValidateBlock`,
-- and at that of `AddBlock`.
use pacd.Base.{◌≡◌, arith, true}
use pacd.Base.Int.{ℤ, pos, ◌≤ℤ◌, ◌<ℤ◌, ◌+ℤ◌, +ℤ_parts}
use pacd.Base.Result.{ok, err, timestamp_future}
use pacd.Chaincfg.{Params, Time, unix, second, mining_open}
use pacd.Consensus.Timestamp.{max_allowed_block_time, check_block_timestamp}

-- The second reading of the clock is not before the first.
pub mining_open-later :
    (params : Params) (now later : Time)
    → now ≤ℤ later
    → mining_open params now ≡ true
    → mining_open params later ≡ true
unfolding mining_open
mining_open-later params now later le open' = ground arith

-- A time that is allowed stays allowed as the clock goes on, where the last block is not ahead of
-- the limit on future times already.
pub check_block_timestamp-later :
    (params : Params) (prev t : ℤ) (now later : Time)
    → now ≤ℤ later
    → unix prev ≤ℤ now +ℤ params.max_future_block_time
    → check_block_timestamp params prev t now ≡ ok tt
    → check_block_timestamp params prev t later ≡ ok tt
unfolding check_block_timestamp max_allowed_block_time
check_block_timestamp-later params prev t now later le within e =
    ground (
      arith,
      +ℤ_parts now params.max_future_block_time,
      +ℤ_parts later params.max_future_block_time,
    )

-- A time may be allowed at one moment and rejected at a later one: where blocks may lie in the
-- future, the last block is ahead of the limit on that at the first moment, and exactly at it at
-- the second, a block that is a second behind the last one is allowed and then rejected.
pub check_block_timestamp_shrinks :
    (params : Params) (prev t : ℤ) (now later : Time)
    → pos 0 <ℤ params.max_future_block_time
    → now +ℤ params.max_future_block_time <ℤ unix prev
    → later +ℤ params.max_future_block_time ≡ unix prev
    → unix t ≡ unix prev +ℤ second
    → (check_block_timestamp params prev t now ≡ ok tt)
      × (check_block_timestamp params prev t later ≡ err timestamp_future)
unfolding check_block_timestamp max_allowed_block_time
check_block_timestamp_shrinks params prev t now later hf early same e =
    (ground (arith, +ℤ_parts (unix prev) second), ground (arith, +ℤ_parts (unix prev) second))
