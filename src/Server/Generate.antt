-- ===== src/Server/Generate.antt =====
-- internal/rpcserver/server.go: `handleGenerate` behind the checks of the request, which mines
-- blocks on the simulation network.
pub mod Mined
use pacd.Base.{
  ℕ, zero, suc, ◌+◌, ◌/◌, ◌≡◌, refl, sym, ap, ◌∙◌, arith, Bool, true, false, List, [], ◌∷◌, ◌++◌,
  Bytes, length, ◌==◌, if◌then◌else◌, ◌≤◌, All, Bool-cases, inl, inr,
}
use pacd.Base.Int.{ℤ, pos, negsuc, pos_part, ltb_ℤ, ◌+ℤ◌}
use pacd.Base.Result.{Result, ok, err, panic, ◌>>=◌, outcome, is_ok, is_err, is_panic}
use pacd.Crypto.{Crypto}
use pacd.Wire.Tx.{MsgTx}
use pacd.Wire.Block.{MsgBlock}
use pacd.Chaincfg.{Params, Time, unix, mining_open}
use pacd.Consensus.Subsidy.{calc_block_subsidy}
use pacd.Consensus.Timestamp.{check_block_timestamp}
use pacd.Chain.State.{Chain, Instants, tip, validate_block, add_block, connect_block}
use pacd.Chain.State.Invariant.{HasOutputs, issued, connect_block_step}
use pacd.Chain.Connect.Money.{max_money, IsOutput}
use pacd.Mempool.{Mempool, prune_mempool}
use pacd.Mining.{next_height, mine_block}
use pacd.Mining.Accepted.{add_block-mine_block}
use pacd.Server.{Server, prune, connect_stored, submit_block}
use pacd.Server.Invariant.{IsLater, IsSound, submit_block-IsSound, validate_block-later}

-- `t.Unix()`, which rounds down.
unfoldable pub unix_seconds : Time → ℤ
unix_seconds (pos n) = pos (n / 1000000000)
unix_seconds (negsuc n) = negsuc (n / 1000000000)

-- What the outside decides in one round.
pub record Round : Type 0 where
  pub validated_at : Instants
  pub added_at : Instants
  pub written : Bool

-- The first time of the loop: the clock's, or the tip's where that is not earlier.
unfoldable pub first_time : Chain → Time → Time
first_time ch now =
    let last = tip ch in
    let header = last.header in
    let tip_time = unix header.timestamp in if ltb_ℤ tip_time now then now else tip_time

module _ (c : Crypto) where
  -- One round of the loop, at its time and with its transactions.
  unfoldable pub generate_round :
      Server → Bytes → Time → List MsgTx → ℕ → Round → Server × Result MsgBlock
  unfolding submit_block unix_seconds
  generate_round s miner_script next_time txs max_nonce o =
      elim (mine_block c s.chain miner_script (unix_seconds next_time) txs max_nonce) [
        | panic ↦ (s, panic)
        | err e ↦ (s, err e)
        | ok block ↦
            (let done = submit_block c s block o.validated_at o.added_at o.written in
              let t = done.0 in
              let cleared = if length txs == 0 then t else record t { mempool = [] } in
              elim (done.1) [
                | ok _ ↦ (cleared, ok block)
                | err e ↦ (t, err e)
                | panic ↦ (t, panic)
              ])
      ]

  -- `n` rounds, of which the first takes the pool's transactions.
  unfoldable pub generate_loop :
      (ℕ → Round)
      → Bytes
      → ℕ
      → ℕ
      → Bool
      → Time
      → List MsgBlock
      → Server
      → Server × Result (List MsgBlock)
  unfolding generate_round
  generate_loop rounds miner_script max_nonce zero first next_time blocks s = (s, ok blocks)
  generate_loop rounds miner_script max_nonce (suc n) first next_time blocks s =
      let params = s.chain.params in
      let at' = next_time +ℤ params.target_time_per_block in
      let txs = if first then s.mempool else [] in
      let done = generate_round s miner_script at' txs max_nonce (rounds n) in
      elim (done.1) [
        | panic ↦ (done.0, panic)
        | err e ↦ (done.0, err e)
        | ok b ↦
            generate_loop rounds miner_script max_nonce n false at' (blocks ++ (b ∷ [])) (done.0)
      ]

  unfoldable pub generate :
      (ℕ → Round) → Bytes → ℕ → ℕ → Time → Server → Server × Result (List MsgBlock)
  unfolding generate_loop first_time
  generate rounds miner_script max_nonce n now s =
      generate_loop rounds miner_script max_nonce n true (first_time s.chain now) [] s
