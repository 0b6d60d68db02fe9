-- ===== src/Tests.antt =====
-- Data for the runs of the program's parts: small parameters, a genesis block, and functions in
-- place of the cryptography that keep its documented laws.
mod ChainRuns
mod WireRuns
mod ConsensusRuns
mod P2pRuns
mod ScriptRuns
mod ServerRuns
mod NodeRuns
use pacd.Base.{
  ℕ, ◌+◌, ◌*◌, ◌≡◌, refl, ap, suc, arith, Bool, true, List, [], ◌∷◌, ◌++◌, Bytes, length, replicate,
  length-replicate,
}
use pacd.Base.Int.{ℤ, pos}
use pacd.Crypto.{Crypto, IsCrypto}
use pacd.Wire.Reader.{put_le, from_le, length-put_le}
use pacd.Wire.Tx.{Hash, zero_hash, MsgTx, TxIn, TxOut, OutPoint}
use pacd.Wire.Header.{BlockHeader}
use pacd.Wire.Block.{MsgBlock}
use pacd.Chaincfg.{Params}
use pacd.Consensus.Subsidy.Schedule.{IsSchedule}
use pacd.Chain.State.{Instants}

-- A digest that begins with a zero byte, so that every target is met.
abbrev pub toy_hash : Bytes → Hash
toy_hash b = 0 ∷ put_le 31 (from_le b * 31 + length b)

pub length-toy_hash : (b : Bytes) → length (toy_hash b) ≡ 32
length-toy_hash b = ap suc (length-put_le 31 (from_le b * 31 + length b))

abbrev pub toy_crypto : Crypto
toy_crypto = record {
  blake256 = toy_hash;
  sha256 = toy_hash;
  ripemd160 = λ b. put_le 20 (from_le b);
  is_private_key = λ k. true;
  parse_pub_key = λ b. true;
  parse_der_signature = λ b. true;
  verify = λ s h k. true;
  sign = λ k h. 48 ∷ 6 ∷ [];
  compressed_pub_key = λ k. 2 ∷ replicate 32 1;
}

pub toy_crypto-IsCrypto : IsCrypto toy_crypto
toy_crypto-IsCrypto = record {
  blake256_length = length-toy_hash;
  ripemd160_length = λ b. length-put_le 20 (from_le b);
  sha256_length = length-toy_hash;
  pub_key_length = λ k. refl;
  sign_length_low = λ k h. omega arith;
  sign_length_high = λ k h. omega arith;
  pub_key_parses = λ k v. refl;
  sign_parses = λ k h. refl;
  sign_verifies = λ k h v. refl;
}

abbrev pub toy_header : BlockHeader
toy_header = record {
  version = pos 1;
  prev_block = zero_hash;
  merkle_root = zero_hash;
  stake_root = zero_hash;
  vote_bits = 0;
  final_state = replicate 6 0;
  voters = 0;
  fresh_stake = 0;
  revocations = 0;
  pool_size = 0;
  bits = 0x207fffff;
  s_bits = pos 0;
  height = 0;
  size = 0;
  timestamp = pos 1000;
  nonce = 0;
  extra_data = replicate 32 0;
  stake_version = 0;
}

abbrev pub genesis : MsgBlock
genesis = record { header = toy_header; transactions = [] }

abbrev pub project_script : Bytes
project_script = 0xa9 ∷ 0x14 ∷ []

abbrev pub toy_params : Params
toy_params = record {
  network_magic = 7;
  pub_key_hash_addr_id = 0;
  script_hash_addr_id = 5;
  genesis_block = genesis;
  genesis_hash = zero_hash;
  pow_limit = pos 57896037716911750921221705069588091649609539881711309849342236841432341020672;
  pow_limit_bits = 0x207fffff;
  genesis_bits = 0x207fffff;
  target_time_per_block = pos 60000000000;
  asert_half_life = pos 3600000000000;
  max_future_block_time = pos 7200000000000;
  base_subsidy = pos 1000;
  mul_subsidy = pos 100;
  div_subsidy = pos 101;
  reduction_interval = pos 10;
  coinbase_maturity = 1;
  miner_reward_percent = pos 80;
  project_reward_percent = pos 20;
  project_payout_script = project_script;
  mining_start_time = pos 0;
}

pub toy_params-IsSchedule : IsSchedule toy_params
toy_params-IsSchedule = record {
  base = 1000;
  mul = 100;
  div = 101;
  interval = 10;
  percent = 80;
  base_eq = refl;
  mul_eq = refl;
  div_eq = refl;
  interval_eq = refl;
  percent_eq = refl;
  mul-le-div = omega arith;
  div_pos = omega arith;
  interval_pos = omega arith;
  percent-le = omega arith;
  base_fits = omega arith;
  base_percent_fits = omega arith;
  base_small = omega arith;
}

-- The clock shows the time 1060 throughout.
abbrev pub toy_clock : Instants
toy_clock = record { at_opening = pos 1060000000000; at_timestamp = pos 1060000000000 }
