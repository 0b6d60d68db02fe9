-- ===== src/Tests/ConsensusRuns.antt =====
-- Runs of the consensus rules.
use pacd.Base.{◌≡◌, ◌*◌, ◌^◌, ◌+◌, refl, arith}
use pacd.Base.Int.{pos, ◌≤ℤ◌, ◌<ℤ◌, ◌+ℤ◌, ◌*ℤ◌}
use pacd.Chaincfg.{unix}
use pacd.Consensus.Subsidy.{calc_block_subsidy, calc_block_one_time_split}
use pacd.Consensus.Subsidy.Schedule.{calc_block_subsidy_antitone, calc_block_one_time_split_exact}
use pacd.Consensus.Asert.{asert_radix, asert_factor, calc_asert_target}
use pacd.Consensus.Asert.Factor.{asert_factor_mono}
use pacd.Consensus.Asert.Target.{calc_asert_target_doubles}
use pacd.Consensus.Timestamp.{next_block_time, max_allowed_block_time, check_block_timestamp}
use pacd.Consensus.Timestamp.Limits.{next_block_time-allowed, next_block_time_at_limit}
use pacd.Base.Result.{err, timestamp_not_after}
use pacd.Tests.{toy_params, toy_params-IsSchedule}

calc_block_subsidy_antitone_example :
    (pos 0 ≤ℤ calc_block_subsidy (pos 25) toy_params)
    × (calc_block_subsidy (pos 25) toy_params ≤ℤ calc_block_subsidy (pos 9) toy_params)
    × (calc_block_subsidy (pos 9) toy_params ≤ℤ toy_params.base_subsidy)
calc_block_subsidy_antitone_example =
    calc_block_subsidy_antitone toy_params-IsSchedule 9 25 (omega arith) (omega arith)

calc_block_one_time_split_exact_example :
    let (miner, project) = calc_block_one_time_split (pos 25) toy_params in
    (miner +ℤ project ≡ calc_block_subsidy (pos 25) toy_params)
    × (pos 0 ≤ℤ miner)
    × (pos 0 ≤ℤ project)
calc_block_one_time_split_exact_example =
    calc_block_one_time_split_exact toy_params-IsSchedule 25 (omega arith)

calc_asert_target_doubles_example :
    calc_asert_target
      (pos 12345)
      (pos 1000)
      (pos (1000 + 10 * 60 + 2 * 3600))
      (pos (10 + 1))
      toy_params
    ≡ pos (12345 * 2 ^ 2)
calc_asert_target_doubles_example =
    calc_asert_target_doubles 12345 1000 10 2 60 3600 toy_params refl refl (omega arith)
      (omega arith) (omega arith) (omega arith) (omega arith)

limit : unix (pos 1000) <ℤ max_allowed_block_time toy_params (pos 1000) (pos 1060000000000)
unfolding max_allowed_block_time unix ◌+ℤ◌ ◌*ℤ◌
limit = omega arith

next_block_time-allowed_example :
    let t = next_block_time toy_params (pos 1000) (pos 1060000000000) in
    (unix (pos 1000) <ℤ t) × (t ≤ℤ max_allowed_block_time toy_params (pos 1000) (pos 1060000000000))
next_block_time-allowed_example =
    next_block_time-allowed toy_params (pos 1000) (pos 1060000000000) (omega arith) limit

asert_factor_mono_example :
    (asert_radix ≤ℤ asert_factor (pos 100))
    × (asert_factor (pos 100) ≤ℤ asert_factor (pos 40000))
    × (asert_factor (pos 40000) ≤ℤ pos 131072)
asert_factor_mono_example = asert_factor_mono 100 40000 (omega arith) (omega arith)

at_limit : pos 1000000000000 +ℤ toy_params.max_future_block_time ≡ unix (pos 8200)
unfolding unix ◌+ℤ◌ ◌*ℤ◌
at_limit = refl

next_block_time_at_limit_example :
    (next_block_time toy_params (pos 8200) (pos 1000000000000) ≡ unix (pos 8200))
    × (check_block_timestamp toy_params (pos 8200) (pos 8200) (pos 1000000000000)
        ≡ err timestamp_not_after)
next_block_time_at_limit_example =
    next_block_time_at_limit toy_params (pos 8200) (pos 1000000000000) (omega arith) at_limit
