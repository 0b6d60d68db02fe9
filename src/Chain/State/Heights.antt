-- ===== src/Chain/State/Heights.antt =====
-- A block's height is its place in the chain.
use pacd.Base.{ℕ, zero, suc, ◌+◌, ◌<◌, ◌≡◌, arith, some, List, [], ◌∷◌, length, get_elem?}
use pacd.Base.Words.{u32_mod}
use pacd.Crypto.{Crypto}
use pacd.Wire.Block.{MsgBlock}
use pacd.Chaincfg.{Params}
use pacd.Chain.State.{Chain, block_by_height}
use pacd.Chain.State.Invariant.{Linked, IsValid}

module _ (c : Crypto) where
  Linked-height :
      (params : Params) (prev : MsgBlock) (xs : List MsgBlock) (i h : ℕ) (b : MsgBlock)
      → Linked c params prev xs
      → prev.header.height ≡ h
      → h + length xs < u32_mod
      → get_elem? xs i ≡ some b
      → b.header.height ≡ h + 1 + i
  Linked-height params prev [] i h b l e n g = absurd (cc)
  Linked-height params prev (x ∷ xs) zero h b (f, l) e n g =
      let next : x.header.height ≡ h + 1 = omega (arith, f.height, e) in
      let same : b ≡ x = cc in rw same (omega (arith, next))
  Linked-height params prev (x ∷ xs) (suc i) h b (f, l) e n g =
      let next : x.header.height ≡ h + 1 = omega (arith, f.height, e) in
      omega (arith, Linked-height params x xs i (h + 1) b l next (omega arith) g)

  places :
      (params : Params) (g : MsgBlock) (xs : List MsgBlock) (i : ℕ) (b : MsgBlock)
      → Linked c params g xs
      → g.header.height ≡ 0
      → length xs < u32_mod
      → get_elem? (g ∷ xs) i ≡ some b
      → b.header.height ≡ i
  places params g xs zero b l e n h = let same : b ≡ g = cc in rw same e
  places params g xs (suc i) b l e n h =
      omega (arith, Linked-height params g xs i 0 b l e (omega arith) h)

  -- In a valid chain of at most 2^32 blocks, whose genesis block has height 0, the block that
  -- `BlockByHeight` finds at a height has that height in its header.
  pub block_by_height-height :
      (ch : Chain) (height : ℕ) (b : MsgBlock)
      → IsValid c ch
      → ch.params.genesis_block.header.height ≡ 0
      → length ch.blocks < u32_mod + 1
      → block_by_height ch height ≡ some b
      → b.header.height ≡ height
  unfolding block_by_height
  block_by_height-height ch height b v g n h =
      let long : suc (length v.rest) < u32_mod + 1 = rw v.starts at n in
      places ch.params ch.params.genesis_block v.rest height b v.linked g (omega arith)
        (rw v.starts at h)
