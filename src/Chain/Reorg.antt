-- ===== src/Chain/Reorg.antt =====
-- internal/blockchain/chain.go: `reorganizeCandidate`, `ReorganizedBlocks` and `Reorganize`.
-- The clock is a function of the number of blocks that the call has connected.
pub mod Adopted
use pacd.Base.{
  ℕ, zero, suc, ◌+◌, ◌%◌, Bool, true, false, not, Option, none, some, List, [], ◌∷◌, leb, ◌==◌,
}
use pacd.Base.Words.{u32_mod}
use pacd.Base.Result.{
  Result, ok, err, panic, reject_if, ◌>>=◌, ◌>>◌, nil_block, unknown_fork, candidate_height,
  missing_block,
}
use pacd.Crypto.{Crypto}
use pacd.Wire.Block.{MsgBlock}
use pacd.Chain.State.{
  Chain, Instants, new_chain, chain_height, block_by_height, block_by_hash, add_block,
}

-- `candidate[len(candidate)-1].Header.Height`; a nil pointer there panics.
unfoldable pub candidate_tip_height : List (Option MsgBlock) → Result ℕ
candidate_tip_height [] = panic
candidate_tip_height (none ∷ []) = panic
candidate_tip_height (some b ∷ []) = let header = b.header in ok header.height
candidate_tip_height (x ∷ y ∷ ys) = candidate_tip_height (y ∷ ys)

module _ (c : Crypto) (clock : ℕ → Instants) where
  -- The loop over the heights `height`, `height + 1`, … of the old chain, `n` of them.
  unfoldable pub replay : Chain → ℕ → ℕ → Chain → Result Chain
  replay old zero height fresh = ok fresh
  replay old (suc n) height fresh = elim (block_by_height old height) [
    | none ↦ err missing_block
    | some b ↦ (add_block c fresh b (clock height) >>= replay old n (suc height))
  ]

  -- The loop over the candidate's blocks, after `k` blocks have been connected.
  unfoldable pub adopt : ℕ → List (Option MsgBlock) → Chain → Result Chain
  adopt k [] fresh = ok fresh
  adopt k (none ∷ bs) fresh = err nil_block
  adopt k (some b ∷ bs) fresh = add_block c fresh b (clock k) >>= adopt (suc k) bs

  -- The part behind the fork point: `none` where the candidate is not higher.
  unfoldable pub rebuild :
      Chain → MsgBlock → List (Option MsgBlock) → MsgBlock → Result (Option Chain)
  unfolding replay adopt
  rebuild ch first candidate fork = do
    let fork_header = fork.header
    let first_header = first.header
    reject_if (not (first_header.height == (fork_header.height + 1) % u32_mod)) candidate_height
    tip_height ← candidate_tip_height candidate
    let work = do
      replayed ← replay ch fork_header.height 1 (new_chain ch.params)
      adopted ← adopt (suc fork_header.height) candidate replayed
      ok (some adopted)
    elim (leb tip_height (chain_height ch)) [ true ↦ ok none | false ↦ work ]

  unfoldable pub reorganize_candidate : Chain → List (Option MsgBlock) → Result (Option Chain)
  unfolding rebuild
  reorganize_candidate ch [] = ok none
  reorganize_candidate ch (none ∷ bs) = err nil_block
  reorganize_candidate ch (some first ∷ bs) = do
    let header = first.header
    found ← block_by_hash c ch header.prev_block
    elim found [ none ↦ err unknown_fork | some fork ↦ rebuild ch first (some first ∷ bs) fork ]

  -- Whether the chain was replaced, and the chain afterwards.
  unfoldable pub reorganize : Chain → List (Option MsgBlock) → Result (Bool × Chain)
  reorganize ch candidate = do
    r ← reorganize_candidate ch candidate
    elim r [
      | none ↦ ok (false, ch)
      | some new ↦ ok (true, record ch { blocks = new.blocks; utxos = new.utxos })
    ]
