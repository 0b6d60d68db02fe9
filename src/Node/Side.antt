-- ===== src/Node/Side.antt =====
-- internal/p2p/node.go: side blocks, their branches, and the reorganization to one. An answer comes
-- with the state after the call, since some errors leave a changed one.
use pacd.Base.{
  ℕ, zero, suc, ◌+◌, ◌-◌, ◌%◌, Bool, true, false, not, ◌||◌, Option, none, some, List, [], ◌∷◌, map,
  length, ltb, leb, ◌==◌, if◌then◌else◌, bytes_eq,
}
use pacd.Base.Int.{pos}
use pacd.Base.Words.{u32_mod}
use pacd.Base.Result.{
  Result, ok, err, panic, reject_if, ◌>>=◌, ◌>>◌, no_transactions, bad_height, mining_closed,
  prev_mismatch, bad_bits, merkle_mismatch, store_failed, fuel_exhausted,
}
use pacd.Crypto.{Crypto}
use pacd.Wire.Tx.{Hash}
use pacd.Wire.Block.{MsgBlock}
use pacd.Wire.Merkle.{calc_merkle_root}
use pacd.Chaincfg.{mining_open}
use pacd.Consensus.Asert.{calc_asert_next_bits}
use pacd.Consensus.Pow.{check_proof_of_work}
use pacd.Consensus.Timestamp.{check_block_timestamp}
use pacd.Chain.State.{
  Chain, Instants, chain_height, block_by_height, block_by_hash, must_block_hash,
}
use pacd.Chain.Reorg.{reorganize_candidate, reorganize}
use pacd.Mempool.{has_hash}
use pacd.Server.{stored_blocks}
use pacd.Node.HashMap.{find, remove}
use pacd.Node.State.{NodeState, max_orphan_height_gap, detach}

-- Whether the main chain was extended or replaced, with the blocks that joined and that left.
pub record Answer : Type 0 where
  pub connected : Bool
  pub joined : List MsgBlock
  pub left : List MsgBlock

abbrev pub unconnected : Answer
unconnected = record { connected = false; joined = []; left = [] }

-- A failure or a panic leaves the state as it is at that point.
unfoldable pub attempt_at :
    {X : Type 0}
    → NodeState
    → Result X
    → (X → NodeState × Result Answer)
    → NodeState × Result Answer
attempt_at s (ok x) next = next x
attempt_at s (err e) next = (s, err e)
attempt_at s panic next = (s, panic)

-- The loop over the heights above the fork, `k` of them, from the tip down.
unfoldable pub disconnected_loop : Chain → ℕ → ℕ → List MsgBlock
disconnected_loop ch fork_height zero = []
disconnected_loop ch fork_height (suc k) = elim (block_by_height ch (fork_height + suc k)) [
  | none ↦ []
  | some b ↦ b ∷ disconnected_loop ch fork_height k
]

abbrev pub last_height : List MsgBlock → ℕ → ℕ
last_height [] h = h
last_height (b ∷ bs) h = let header = b.header in last_height bs header.height

module _ (c : Crypto) where
  unfoldable pub side_or_main_block : NodeState → Hash → Result (Option MsgBlock)
  side_or_main_block s hash = do
    main ← block_by_hash c s.chain hash
    elim main [ some b ↦ ok (some b) | none ↦ ok (find hash s.side_blocks) ]

  unfoldable pub validate_side_candidate : NodeState → MsgBlock → Instants → Result (Unit {0})
  unfolding side_or_main_block
  validate_side_candidate s block now = do
    let header = block.header
    let ch = s.chain
    let params = ch.params
    reject_if (length block.transactions == 0) no_transactions
    reject_if (header.height == 0) bad_height
    reject_if (not (mining_open params now.at_opening)) mining_closed
    reject_if (ltb ((chain_height ch + max_orphan_height_gap) % u32_mod) header.height) bad_height
    found ← side_or_main_block s header.prev_block
    elim found [
      | none ↦ err prev_mismatch
      | some prev ↦ do
        let prev_header = prev.header
        let genesis = params.genesis_block
        let first = genesis.header
        reject_if (not (header.height == (prev_header.height + 1) % u32_mod)) bad_height
        check_block_timestamp params prev_header.timestamp header.timestamp now.at_timestamp
        reject_if
            (not (
              header.bits
              == calc_asert_next_bits first.bits first.timestamp prev_header.timestamp
                  (pos header.height) params))
            bad_bits
        reject_if
            (not (bytes_eq header.merkle_root (calc_merkle_root c.blake256 block.transactions)))
            merkle_mismatch
        check_proof_of_work c.blake256 header params
    ]

  -- The loop of `sideBranchLocked` with fuel: the hashes seen, the next hash, and the blocks behind
  -- it in the order of the branch.
  unfoldable pub side_branch_loop :
      NodeState → ℕ → List Hash → Hash → List MsgBlock → Result (Option (List MsgBlock))
  side_branch_loop s zero seen hash branch = err fuel_exhausted
  side_branch_loop s (suc fuel) seen hash branch = elim (has_hash hash seen) [
    | true ↦ ok none
    | false ↦ elim (find hash s.side_blocks) [
      | none ↦ ok none
      | some block ↦ do
        let header = block.header
        fork ← block_by_hash c s.chain header.prev_block
        elim fork [
          | some _ ↦ ok (some (block ∷ branch))
          | none ↦ side_branch_loop s fuel (hash ∷ seen) header.prev_block (block ∷ branch)
        ]
    ]
  ]

  unfoldable pub side_branch : NodeState → Hash → Result (Option (List MsgBlock))
  unfolding side_branch_loop
  side_branch s hash = side_branch_loop s (length s.side_blocks + 1) [] hash []

  unfoldable pub prune_side_branch : NodeState → List MsgBlock → Result NodeState
  prune_side_branch s [] = ok s
  prune_side_branch s (b ∷ bs) = do
    hash ← must_block_hash c b
    let header = b.header
    prune_side_branch
        (record s {
          side_blocks = remove hash s.side_blocks;
          side_by_prev = detach header.prev_block hash s.side_by_prev;
        })
        bs

  unfoldable pub disconnected_blocks_for_branch : Chain → List MsgBlock → Result (List MsgBlock)
  unfolding disconnected_loop
  disconnected_blocks_for_branch ch [] = ok []
  disconnected_blocks_for_branch ch (b ∷ bs) = do
    let header = b.header
    found ← block_by_hash c ch header.prev_block
    elim found [
      | none ↦ ok []
      | some fork ↦
          (let fork_header = fork.header in
            ok (disconnected_loop ch fork_header.height (chain_height ch - fork_header.height)))
    ]

  -- `Reorganize` and what follows it in `tryReorganizeLocked`.
  unfoldable pub reorganize_branch :
      NodeState → List MsgBlock → List MsgBlock → (ℕ → Instants) → NodeState × Result Answer
  unfolding attempt_at prune_side_branch
  reorganize_branch s branch left clock =
      attempt_at s (reorganize c clock s.chain (map some branch)) (λ r.
        let t = record s { chain = r.1 } in
        let pruned =
          attempt_at t (prune_side_branch t branch)
            (λ u. (u, ok (record { connected = true; joined = branch; left = left }))) in
        if r.0 then pruned else (s, ok unconnected))

  -- `ReorganizedBlocks`, the new file, and what follows them.
  unfoldable pub replace_branch :
      NodeState
      → List MsgBlock
      → List MsgBlock
      → (ℕ → Instants)
      → (ℕ → Instants)
      → Bool
      → NodeState × Result Answer
  unfolding attempt_at reorganize_branch
  replace_branch s branch left checked_at done_at written =
      attempt_at s (reorganize_candidate c checked_at s.chain (map some branch)) (λ r. elim r [
        | none ↦ (s, ok unconnected)
        | some new ↦
            if written
            then reorganize_branch (record s { stored = stored_blocks new.blocks }) branch left
                done_at
            else (s, err store_failed)
      ])

  -- `tryReorganizeLocked`, with the clocks of `ReorganizedBlocks` and of `Reorganize`, and whether
  -- the file is replaced.
  unfoldable pub try_reorganize :
      NodeState → Hash → (ℕ → Instants) → (ℕ → Instants) → Bool → NodeState × Result Answer
  unfolding attempt_at side_branch replace_branch disconnected_blocks_for_branch
  try_reorganize s tip_hash checked_at done_at written =
      attempt_at s (side_branch s tip_hash) (λ found. elim found [
        | none ↦ (s, ok unconnected)
        | some branch ↦
            if (length branch == 0) || leb (last_height branch 0) (chain_height s.chain)
            then (s, ok unconnected)
            else attempt_at s (disconnected_blocks_for_branch s.chain branch)
                (λ left. replace_branch s branch left checked_at done_at written)
      ])
