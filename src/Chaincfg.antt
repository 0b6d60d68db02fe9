-- ===== src/Chaincfg.antt =====
-- internal/chaincfg/params.go: the parameters that the modelled code reads, and the opening time.
-- A `time.Time` is its distance from the Unix epoch in nanoseconds, without a bound; a
-- `time.Duration` is a number of nanoseconds.
use pacd.Base.{ℕ, Bool, ◌||◌, Bytes, not}
use pacd.Base.Int.{ℤ, pos, ltb_ℤ, eqb_ℤ, ◌*ℤ◌}
use pacd.Wire.Tx.{Hash}
use pacd.Wire.Block.{MsgBlock}

abbrev pub Time : Type 0
Time = ℤ

abbrev pub Duration : Type 0
Duration = ℤ

abbrev pub second : Duration
second = pos 1000000000

-- `time.Unix(sec, 0)`.
unfoldable pub unix : ℤ → Time
unix sec = sec *ℤ second

-- `chaincfg.Coin`
abbrev pub coin : ℕ
coin = 100000000

pub record Params : Type 0 where
  pub network_magic : ℕ
  pub pub_key_hash_addr_id : ℕ
  pub script_hash_addr_id : ℕ
  pub genesis_block : MsgBlock
  pub genesis_hash : Hash
  pub pow_limit : ℤ
  pub pow_limit_bits : ℕ
  pub genesis_bits : ℕ
  pub target_time_per_block : Duration
  pub asert_half_life : Duration
  pub max_future_block_time : Duration
  pub base_subsidy : ℤ
  pub mul_subsidy : ℤ
  pub div_subsidy : ℤ
  pub reduction_interval : ℤ
  pub coinbase_maturity : ℕ
  pub miner_reward_percent : ℤ
  pub project_reward_percent : ℤ
  pub project_payout_script : Bytes
  pub mining_start_time : ℤ

-- `MiningOpen`.
unfoldable pub mining_open : Params → Time → Bool
unfolding unix
mining_open params now =
    eqb_ℤ params.mining_start_time (pos 0) || not (ltb_ℤ now (unix params.mining_start_time))
