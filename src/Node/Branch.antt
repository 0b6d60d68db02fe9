-- ===== src/Node/Branch.antt =====
-- internal/p2p/node.go: `sideBranchLocked`. Its walk ends, although nothing keeps the side blocks
-- from pointing anywhere, and what it finds is a branch of the main chain.
use pacd.Base.{
  ℕ, zero, suc, ◌+◌, ◌≤◌, ◌<◌, ◌≡◌, refl, arith, true, false, Option, none, some, List, [], ◌∷◌,
  length, if◌then◌else◌, inl, inr, Bool-cases, Option-cases, bytes_eq, bytes_eq_refl,
  bytes_eq_sound, All,
}
use pacd.Base.Result.{Result, ok, err, panic, outcome, is_ok, is_err, is_panic}
use pacd.Crypto.{Crypto}
use pacd.Wire.Tx.{Hash}
use pacd.Wire.Block.{MsgBlock, block_hash}
use pacd.Chain.State.{must_block_hash, search_hash, block_by_hash}
use pacd.Chain.State.Invariant.{HasOutputs}
use pacd.Mempool.{has_hash}
use pacd.Node.HashMap.{HashMap, find, Values, Values-find}
use pacd.Node.State.{NodeState}
use pacd.Node.Side.{side_branch_loop, side_branch}

-- The entries whose key has not been seen.
unseen {ℓ} : {V : Type ℓ} → List Hash → HashMap V → ℕ
unseen seen [] = 0
unseen seen ((k, v) ∷ m) = (if has_hash k seen then 0 else 1) + unseen seen m

unseen-le {ℓ} :
    {V : Type ℓ} (h : Hash) (seen : List Hash) (m : HashMap V) → unseen (h ∷ seen) m ≤ unseen seen m
unfolding unseen has_hash
unseen-le h seen [] = omega arith
unseen-le h seen ((k, v) ∷ m) = ground (arith, unseen-le h seen m)

unseen-lt {ℓ} :
    {V : Type ℓ} (h : Hash) (seen : List Hash) (m : HashMap V) (v : V)
    → find h m ≡ some v
    → has_hash h seen ≡ false
    → unseen (h ∷ seen) m < unseen seen m
unfolding unseen has_hash find
unseen-lt h seen [] v e n = absurd (cc)
unseen-lt h seen ((k, w) ∷ m) v e n = elim (Bool-cases (bytes_eq k h)) [
  | inl same ↦
      let here : k ≡ h = bytes_eq_sound k h same in
      let itself : bytes_eq h k ≡ true = rw here (bytes_eq_refl h) in
      let fresh : has_hash k seen ≡ false = rw here n in ground (arith, unseen-le h seen m)
  | inr other ↦ ground (arith, unseen-lt h seen m v)
]

unseen_all {ℓ} : {V : Type ℓ} (m : HashMap V) → unseen [] m ≤ length m
unfolding unseen has_hash
unseen_all [] = omega arith
unseen_all ((k, v) ∷ m) = omega (arith, unseen_all m)

-- From the block with hash `h` on, the blocks lead to the one with hash `end'`: each is a side
-- block whose previous hash is that of the block before it.
abbrev pub Leads : NodeState → Hash → List MsgBlock → Hash → Type 0
Leads s h [] end' = h ≡ end'
Leads s h (b ∷ bs) end' =
    (b.header.prev_block ≡ h) × (k : Hash) × (find k s.side_blocks ≡ some b) × Leads s k bs end'

module _ (c : Crypto) where
  search_hash-total : (hash : Hash) (bs : List MsgBlock) (e : _) → search_hash c hash bs ≡ err e → ⊥
  unfolding search_hash must_block_hash
  search_hash-total hash [] e h = cc
  search_hash-total hash (b ∷ bs) e h = elim (outcome (block_hash c.blake256 b)) [
    | is_ok k e₁ ↦ elim (Bool-cases (bytes_eq k hash)) [
      | inl same ↦ ground arith
      | inr other ↦ search_hash-total hash bs e (ground arith)
    ]
    | is_err x e₁ ↦ ground arith
    | is_panic e₁ ↦ ground arith
  ]

  -- How the walk from a hash ends: with no branch, with a branch that begins behind a block of the
  -- main chain and leads to that hash, or with the panic of a hash.
  pub data Walk (s : NodeState) (tip_hash : Hash) (r : Result (Option (List MsgBlock)))
      : Type 0 where
    no_branch : r ≡ ok none → Walk s tip_hash r
    branch :
        (b : MsgBlock) (bs : List MsgBlock) (fork : MsgBlock)
        → r ≡ ok (some (b ∷ bs))
        → block_by_hash c s.chain b.header.prev_block ≡ ok (some fork)
        → Leads s b.header.prev_block (b ∷ bs) tip_hash
        → Walk s tip_hash r
    panicked : r ≡ panic → Walk s tip_hash r

  side_branch_loop-Walk :
      (s : NodeState) (fuel : ℕ) (seen : List Hash) (hash tip_hash : Hash) (bs : List MsgBlock)
      → unseen seen s.side_blocks < fuel
      → Leads s hash bs tip_hash
      → Walk s tip_hash (side_branch_loop c s fuel seen hash bs)
  unfolding side_branch_loop block_by_hash
  side_branch_loop-Walk s zero seen hash tip_hash bs few l = absurd (omega arith)
  side_branch_loop-Walk s (suc fuel) seen hash tip_hash bs few l =
      elim (Bool-cases (has_hash hash seen)) [
        | inl known ↦ no_branch (rw (side_branch_loop, known) refl)
        | inr fresh ↦ elim (Option-cases (find hash s.side_blocks)) [
          | inl missing ↦ no_branch (rw (side_branch_loop, fresh, missing) refl)
          | inr (b, found) ↦ elim (outcome (block_by_hash c s.chain b.header.prev_block)) [
            | is_ok none e ↦
                let fewer = unseen-lt hash seen s.side_blocks b found fresh in
                rw (side_branch_loop, fresh, found, e)
                  (side_branch_loop-Walk s fuel (hash ∷ seen) b.header.prev_block tip_hash (b ∷ bs)
                    (omega (arith, fewer, few)) (refl, hash, found, l))
            | is_ok (some fork) e ↦
                branch b bs fork (rw (side_branch_loop, fresh, found, e) refl) e
                  (refl, hash, found, l)
            | is_err x e ↦ absurd (search_hash-total b.header.prev_block s.chain.blocks x e)
            | is_panic e ↦ panicked (rw (side_branch_loop, fresh, found, e) refl)
          ]
        ]
      ]

  -- `sideBranchLocked` ends, cycles among the side blocks included: it finds no branch, or a branch
  -- that begins behind a block of the main chain and leads over side blocks, each behind the one
  -- before it, to the hash that it was called with, unless a hash panics on the way.
  pub side_branch-Walk :
      (s : NodeState) (tip_hash : Hash) → Walk s tip_hash (side_branch c s tip_hash)
  unfolding side_branch
  side_branch-Walk s tip_hash =
      side_branch_loop-Walk s (length s.side_blocks + 1) [] tip_hash tip_hash []
        (omega (arith, unseen_all s.side_blocks)) refl

  -- The blocks of a branch are side blocks.
  pub Leads-outputs :
      (s : NodeState) (h tip_hash : Hash) (bs : List MsgBlock)
      → Values HasOutputs s.side_blocks
      → Leads s h bs tip_hash
      → All HasOutputs bs
  Leads-outputs s h tip_hash [] v l = tt
  Leads-outputs s h tip_hash (b ∷ bs) v (_, k, found, l) =
      (Values-find HasOutputs k s.side_blocks b v found, Leads-outputs s k tip_hash bs v l)
