-- ===== src/Mining.antt =====
-- internal/mining/miner.go. Every use of the `timestamp` argument is `timestamp.Unix()`, so the
-- seconds are the argument here.
pub mod Coinbase
pub mod Candidate
pub mod Accepted
use pacd.Base.{ℕ, zero, suc, ◌+◌, ◌%◌, Bool, List, [], ◌∷◌, Bytes, ◌==◌, if◌then◌else◌, replicate}
use pacd.Base.Int.{ℤ, pos, leb_ℤ, ◌+ℤ◌}
use pacd.Base.Words.{u32_mod, wrap64}
use pacd.Base.Result.{
  Result, ok, err, panic, reject_if, ◌>>=◌, ◌>>◌, stale_timestamp, nonce_exhausted,
}
use pacd.Crypto.{Crypto}
use pacd.Wire.Tx.{Hash, TxOut, MsgTx, zero_hash, new_coinbase_tx}
use pacd.Wire.Header.{BlockHeader}
use pacd.Wire.Block.{MsgBlock, refresh_header_size}
use pacd.Wire.Merkle.{refresh_merkle_root}
use pacd.Chaincfg.{Params}
use pacd.Consensus.Subsidy.{calc_block_one_time_split}
use pacd.Consensus.Pow.{check_proof_of_work}
use pacd.Chain.State.{Chain, tip, chain_height, expected_bits, must_block_hash, calc_fees}

unfoldable pub next_height : Chain → ℕ
next_height ch = (chain_height ch + 1) % u32_mod

-- "PAC" in the coinbase's signature script.
abbrev coinbase_message : Bytes
coinbase_message = 80 ∷ 65 ∷ 67 ∷ []

unfoldable pub candidate_coinbase : Params → ℕ → Bytes → ℤ → MsgTx
candidate_coinbase params height miner_script fees =
    let split = calc_block_one_time_split (pos height) params in
    new_coinbase_tx height coinbase_message (
      record { value = wrap64 (split.0 +ℤ fees); pk_script = miner_script }
      ∷ record { value = split.1; pk_script = params.project_payout_script }
      ∷ [])

unfoldable pub candidate_header : Hash → ℤ → ℕ → ℕ → BlockHeader
candidate_header prev_block timestamp bits height = record {
  version = pos 1;
  prev_block = prev_block;
  merkle_root = zero_hash;
  stake_root = zero_hash;
  vote_bits = 0;
  final_state = replicate 6 0;
  voters = 0;
  fresh_stake = 0;
  revocations = 0;
  pool_size = 0;
  bits = bits;
  s_bits = pos 0;
  height = height;
  size = 0;
  timestamp = timestamp;
  nonce = 0;
  extra_data = replicate 32 0;
  stake_version = 0;
}

abbrev pub with_nonce : MsgBlock → ℕ → MsgBlock
with_nonce b n = let header = b.header in record b { header = record header { nonce = n } }

module _ (c : Crypto) where
  -- `NewCandidateWithTransactions`; `NewCandidate` is the call without transactions.
  unfoldable pub new_candidate : Chain → Bytes → ℤ → List MsgTx → Result MsgBlock
  unfolding next_height candidate_coinbase candidate_header
  new_candidate ch miner_script timestamp txs = do
    fees ← calc_fees c ch txs
    let height = next_height ch
    let coinbase = candidate_coinbase ch.params height miner_script fees
    prev_block ← must_block_hash c (tip ch)
    let header = candidate_header prev_block timestamp (expected_bits ch height) height
    refresh_header_size
        (refresh_merkle_root c.blake256 (record { header = header; transactions = coinbase ∷ txs }))

  -- The loop over the nonces `nonce`, `nonce + 1`, …, `n` of them.
  unfoldable pub mine_loop : Params → ℕ → ℕ → MsgBlock → Result MsgBlock
  mine_loop params zero nonce block = err nonce_exhausted
  mine_loop params (suc n) nonce block =
      elim (check_proof_of_work c.blake256 (with_nonce block nonce).header params) [
        | ok _ ↦ ok (with_nonce block nonce)
        | err _ ↦ mine_loop params n (suc nonce) block
        | panic ↦ panic
      ]

  -- `MineBlockWithTransactions`; `MineBlock` is the call without transactions.
  unfoldable pub mine_block : Chain → Bytes → ℤ → List MsgTx → ℕ → Result MsgBlock
  unfolding new_candidate mine_loop
  mine_block ch miner_script timestamp txs max_nonce = do
    let block = tip ch
    let header = block.header
    reject_if (leb_ℤ timestamp header.timestamp) stale_timestamp
    candidate ← new_candidate ch miner_script timestamp txs
    mine_loop ch.params (suc (if max_nonce == 0 then 4294967295 else max_nonce)) 0 candidate
