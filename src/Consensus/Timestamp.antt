-- ===== src/Consensus/Timestamp.antt =====
-- internal/consensus/time.go.
pub mod Limits
use pacd.Base.{not, if◌then◌else◌}
use pacd.Base.Int.{ℤ, pos, ltb_ℤ, leb_ℤ, ◌+ℤ◌}
use pacd.Base.Result.{Result, ok, reject_if, ◌>>◌, timestamp_not_after, timestamp_future}
use pacd.Chaincfg.{Params, Time, unix, second}

-- `futureCatchUpStep`
abbrev pub future_catch_up_step : ℤ
future_catch_up_step = second

unfoldable pub max_allowed_block_time : Params → ℤ → Time → Time
max_allowed_block_time params prev_timestamp now =
    let prev_time = unix prev_timestamp in
    let max_time = now +ℤ params.max_future_block_time in
    if leb_ℤ params.max_future_block_time (pos 0)
    then prev_time +ℤ params.target_time_per_block
    else if ltb_ℤ max_time prev_time
    then prev_time +ℤ future_catch_up_step
    else max_time

unfoldable pub next_block_time : Params → ℤ → Time → Time
unfolding max_allowed_block_time
next_block_time params prev_timestamp now =
    let prev_time = unix prev_timestamp in
    let next_time = if ltb_ℤ prev_time now then now else prev_time +ℤ future_catch_up_step in
    let max_time = max_allowed_block_time params prev_timestamp now in
    if ltb_ℤ max_time next_time then max_time else next_time

unfoldable pub check_block_timestamp : Params → ℤ → ℤ → Time → Result (Unit {0})
unfolding max_allowed_block_time
check_block_timestamp params prev_timestamp block_timestamp now = do
  let prev_time = unix prev_timestamp
  let block_time = unix block_timestamp
  reject_if (not (ltb_ℤ prev_time block_time)) timestamp_not_after
  reject_if (ltb_ℤ (max_allowed_block_time params prev_timestamp now) block_time) timestamp_future
  ok tt
