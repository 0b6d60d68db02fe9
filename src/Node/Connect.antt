-- ===== src/Node/Connect.antt =====
-- internal/p2p/node.go: `connectBlock`.
use pacd.Base.{
  ℕ, ◌+◌, ◌%◌, Bool, true, false, not, ◌&&◌, Option, none, some, [], ◌∷◌, length, ltb, leb, ◌==◌,
  if◌then◌else◌, bytes_eq,
}
use pacd.Base.Words.{u32_mod}
use pacd.Base.Result.{
  Result, ok, err, panic, reject_if, ◌>>◌, no_transactions, bad_height, merkle_mismatch,
}
use pacd.Crypto.{Crypto}
use pacd.Wire.Tx.{Hash}
use pacd.Wire.Block.{MsgBlock}
use pacd.Wire.Merkle.{calc_merkle_root}
use pacd.Chaincfg.{Time}
use pacd.Consensus.Pow.{check_proof_of_work}
use pacd.Consensus.Timestamp.{check_block_timestamp}
use pacd.Chain.State.{Instants, tip, chain_height, block_by_height, must_block_hash}
use pacd.Node.State.{
  NodeState, Attempt, max_orphan_height_gap, add_orphan, add_side_block, append_block,
  connect_orphans,
}
use pacd.Node.Side.{
  Answer, unconnected, attempt_at, side_or_main_block, validate_side_candidate, try_reorganize,
}

-- What the outside decides in one call of `connectBlock`.
pub record Oracle : Type 0 where
  pub attempt : Attempt
  pub orphan_attempt : Hash → Attempt
  pub candidate_at : Instants
  pub checked_at : ℕ → Instants
  pub done_at : ℕ → Instants
  pub replaced : Bool
  pub evicted : ℕ
  -- the best height that the peer has announced, if the peer is known
  pub peer_height : Option ℕ

module _ (c : Crypto) where
  unfoldable pub validate_orphan_candidate : NodeState → MsgBlock → Time → Result (Unit {0})
  validate_orphan_candidate s block now = do
    let header = block.header
    let ch = s.chain
    let last = tip ch
    let last_header = last.header
    reject_if (length block.transactions == 0) no_transactions
    reject_if (leb header.height (chain_height ch)) bad_height
    reject_if (ltb ((chain_height ch + max_orphan_height_gap) % u32_mod) header.height) bad_height
    check_block_timestamp ch.params last_header.timestamp header.timestamp now
    reject_if (not (bytes_eq header.merkle_root (calc_merkle_root c.blake256 block.transactions)))
        merkle_mismatch
    check_proof_of_work c.blake256 header ch.params

  unfoldable pub connect_side_block : NodeState → MsgBlock → Oracle → NodeState × Result Answer
  unfolding validate_side_candidate add_side_block try_reorganize attempt_at
  connect_side_block s block o = elim (validate_side_candidate c s block o.candidate_at) [
    | panic ↦ (s, panic)
    | err e ↦ (s, ok unconnected)
    | ok _ ↦ attempt_at s (add_side_block c s block) (λ t.
        attempt_at t (must_block_hash c block)
          (λ hash. try_reorganize c t hash o.checked_at o.done_at o.replaced))
  ]

  -- `isHistoricalSyncBlockLocked`
  unfoldable pub is_historical_sync_block : NodeState → MsgBlock → Option ℕ → Bool
  is_historical_sync_block s block peer_height = elim peer_height [
    | none ↦ false
    | some best ↦
        let header = block.header in ltb (chain_height s.chain) best && leb header.height best
  ]

  -- The last part of `connectBlock`: a block that extends the tip, and the orphans behind it.
  unfoldable pub connect_main_block : NodeState → MsgBlock → Oracle → NodeState × Result Answer
  unfolding append_block connect_orphans attempt_at is_historical_sync_block
  connect_main_block s block o =
      let enforce = not (is_historical_sync_block s block o.peer_height) in
      let done = append_block c s block enforce o.attempt in
      let t = done.0 in
      attempt_at t (done.1) (λ _. attempt_at t (must_block_hash c block) (λ hash.
        attempt_at t (connect_orphans c o.orphan_attempt (length t.orphans + 1) hash t)
          (λ r. (r.0, ok (record { connected = true; joined = block ∷ r.1; left = [] })))))

  -- A block that does not extend the tip, above the tip's height.
  unfoldable pub connect_other_block : NodeState → MsgBlock → Oracle → NodeState × Result Answer
  unfolding side_or_main_block validate_orphan_candidate add_orphan connect_side_block attempt_at
  connect_other_block s block o =
      let header = block.header in
      let now = o.candidate_at in
      attempt_at s (side_or_main_block c s header.prev_block) (λ known. elim known [
        | some _ ↦ connect_side_block s block o
        | none ↦
            attempt_at s (validate_orphan_candidate s block now.at_timestamp)
              (λ _. attempt_at s (add_orphan c o.evicted s block) (λ t. (t, ok unconnected)))
      ])

  -- A block that is not above the tip: nothing is done if it is in the chain.
  unfoldable pub connect_low_block : NodeState → MsgBlock → Oracle → NodeState × Result Answer
  unfolding connect_side_block attempt_at
  connect_low_block s block o =
      let header = block.header in
      elim (block_by_height s.chain header.height) [
        | none ↦ connect_side_block s block o
        | some existing ↦ attempt_at s (must_block_hash c existing) (λ old.
            attempt_at s (must_block_hash c block) (λ new.
              if bytes_eq old new then (s, ok unconnected) else connect_side_block s block o))
      ]

  -- `connectBlock`
  unfoldable pub connect_block_from : NodeState → MsgBlock → Oracle → NodeState × Result Answer
  unfolding connect_low_block connect_main_block connect_other_block attempt_at
  connect_block_from s block o =
      let header = block.header in
      let ch = s.chain in
      let next_height = (chain_height ch + 1) % u32_mod in
      if leb header.height (chain_height ch)
      then connect_low_block s block o
      else attempt_at s (must_block_hash c (tip ch)) (λ tip_hash.
        if bytes_eq header.prev_block tip_hash && (header.height == next_height)
        then connect_main_block s block o
        else connect_other_block s block o)
