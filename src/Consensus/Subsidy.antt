-- ===== src/Consensus/Subsidy.antt =====
-- internal/consensus/subsidy.go. Every product is an int64 and wraps.
pub mod Schedule
use pacd.Base.{ℕ, zero, suc, Bool, ◌&&◌, if◌then◌else◌}
use pacd.Base.Int.{ℤ, pos, negsuc, pos_part, leb_ℤ, ltb_ℤ, ◌+ℤ◌, ◌-ℤ◌, ◌*ℤ◌, quot}
use pacd.Base.Words.{wrap64, max_int64}
use pacd.Base.Result.{Result, ok}
use pacd.Chaincfg.{Params}

-- `subsidy *= MulSubsidy; subsidy /= DivSubsidy`.
unfoldable pub reduce : Params → ℤ → ℤ
reduce params subsidy = wrap64 (quot (wrap64 (subsidy *ℤ params.mul_subsidy)) params.div_subsidy)

-- `for i := 0; i < reductions && subsidy > 0; i++`, with the rounds that are left.
unfoldable pub reduce_loop : Params → ℕ → ℤ → ℤ
reduce_loop params zero subsidy = subsidy
reduce_loop params (suc n) subsidy =
    let rest = reduce_loop params n (reduce params subsidy) in
    if ltb_ℤ (pos 0) subsidy then rest else subsidy

unfoldable pub calc_block_subsidy : ℤ → Params → ℤ
unfolding reduce_loop
calc_block_subsidy height params =
    if leb_ℤ height (pos 0)
    then pos 0
    else reduce_loop params (pos_part (quot height params.reduction_interval)) params.base_subsidy

-- `(miner, project)`.
unfoldable pub calc_block_one_time_split : ℤ → Params → ℤ × ℤ
calc_block_one_time_split height params =
    let subsidy = calc_block_subsidy height params in
    let miner = quot (wrap64 (subsidy *ℤ params.miner_reward_percent)) (pos 100) in
    (miner, wrap64 (subsidy -ℤ miner))

-- The loop of `EstimateTotalSubsidy` on fuel.
unfoldable pub estimate_loop : ℕ → Params → ℤ → ℤ → ℤ → ℤ
estimate_loop zero params total subsidy blocks = total
estimate_loop (suc fuel) params total subsidy blocks =
    let add = wrap64 (subsidy *ℤ blocks) in
    let rest =
      estimate_loop fuel params (wrap64 (total +ℤ add)) (reduce params subsidy)
        params.reduction_interval in
    if ltb_ℤ (pos 0) subsidy
    then (if ltb_ℤ (wrap64 (max_int64 -ℤ add)) total then total else rest)
    else total

-- A subsidy that falls at every reduction is gone after as many rounds as it has atoms.
unfoldable pub estimate_total_subsidy : Params → ℤ
unfolding estimate_loop
estimate_total_subsidy params =
    estimate_loop (suc (pos_part params.base_subsidy)) params (pos 0) params.base_subsidy
      (wrap64 (params.reduction_interval -ℤ pos 1))
