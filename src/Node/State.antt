-- ===== src/Node/State.antt =====
-- internal/p2p/node.go: the chain, the orphans and the side blocks of a node, with what is done to
-- them. The configured chain and store are present here. The clock, the file system and the order
-- in which Go iterates over a map are arguments.
use pacd.Base.{
  ℕ, zero, suc, ◌%◌, Bool, true, none, some, List, [], ◌∷◌, ◌++◌, length, leb, ◌==◌, if◌then◌else◌,
  bytes_eq, get_elem?,
}
use pacd.Base.Result.{Result, ok, err, panic, ◌>>=◌, store_failed, fuel_exhausted}
use pacd.Crypto.{Crypto}
use pacd.Wire.Tx.{Hash}
use pacd.Wire.Block.{MsgBlock}
use pacd.Chain.State.{Chain, Instants, must_block_hash, validate_block, connect_block}
use pacd.Node.HashMap.{HashMap, find, put, remove}

-- `defaultMaxOrphans` and `defaultMaxOrphanHeightGap`.
abbrev pub max_orphans : ℕ
max_orphans = 128

abbrev pub max_orphan_height_gap : ℕ
max_orphan_height_gap = 288

pub record NodeState : Type 0 where
  pub chain : Chain
  pub stored : List MsgBlock
  pub orphans : HashMap MsgBlock
  pub orphans_by_prev : HashMap (List Hash)
  pub side_blocks : HashMap MsgBlock
  pub side_by_prev : HashMap (List Hash)

-- What the outside decides while a block is connected: the clocks of `ValidateBlock` and of
-- `AddBlock`, and whether the file takes the block.
pub record Attempt : Type 0 where
  pub validated_at : Instants
  pub added_at : Instants
  pub written : Bool

unfoldable pub remove_hash : List Hash → Hash → List Hash
remove_hash [] target = []
remove_hash (h ∷ hs) target =
    let rest = remove_hash hs target in if bytes_eq h target then rest else h ∷ rest

-- A missing key reads as an empty list.
unfoldable pub hashes_at : Hash → HashMap (List Hash) → List Hash
unfolding find
hashes_at k m = elim (find k m) [ none ↦ [] | some hs ↦ hs ]

-- The three lines that take a hash out of an index by previous hash.
unfoldable pub detach : Hash → Hash → HashMap (List Hash) → HashMap (List Hash)
unfolding remove_hash hashes_at
detach prev hash m =
    let rest = remove_hash (hashes_at prev m) hash in
    if length rest == 0 then remove prev m else put prev rest m

unfoldable pub attach : Hash → Hash → HashMap (List Hash) → HashMap (List Hash)
unfolding hashes_at
attach prev hash m = put prev (hashes_at prev m ++ (hash ∷ [])) m

-- The loop that deletes the first orphan of an iteration, which is entry number `choice`.
unfoldable pub evict_orphan : ℕ → NodeState → NodeState
unfolding detach
evict_orphan choice s = elim (get_elem? s.orphans (choice % length s.orphans)) [
  | none ↦ s
  | some (hash, orphan) ↦
      (let header = orphan.header in
        record s {
          orphans = remove hash s.orphans;
          orphans_by_prev = detach header.prev_block hash s.orphans_by_prev;
        })
]

module _ (c : Crypto) where
  unfoldable pub add_orphan : ℕ → NodeState → MsgBlock → Result NodeState
  unfolding evict_orphan attach
  add_orphan choice s block = do
    hash ← must_block_hash c block
    let header = block.header
    let room = if leb max_orphans (length s.orphans) then evict_orphan choice s else s
    elim (find hash s.orphans) [
      | some _ ↦ ok s
      | none ↦ ok (record room {
        orphans = put hash block room.orphans;
        orphans_by_prev = attach header.prev_block hash room.orphans_by_prev;
      })
    ]

  unfoldable pub add_side_block : NodeState → MsgBlock → Result NodeState
  unfolding attach
  add_side_block s block = do
    hash ← must_block_hash c block
    let header = block.header
    elim (find hash s.side_blocks) [
      | some _ ↦ ok s
      | none ↦ ok (record s {
        side_blocks = put hash block s.side_blocks;
        side_by_prev = attach header.prev_block hash s.side_by_prev;
      })
    ]

  -- `ValidateBlock` or `ValidateStoredBlock`, then `Append`, then `AddBlock` or `AddStoredBlock`:
  -- the state afterwards, and whether all three succeeded.
  unfoldable pub append_block :
      NodeState → MsgBlock → Bool → Attempt → NodeState × Result (Unit {0})
  append_block s block enforce at' =
      let stored = s.stored ++ (block ∷ []) in
      elim (validate_block c s.chain block enforce at'.validated_at) [
        | panic ↦ (s, panic)
        | err e ↦ (s, err e)
        | ok _ ↦
            if at'.written
            then elim (connect_block c s.chain block enforce at'.added_at) [
              | panic ↦ (record s { stored = stored }, panic)
              | err e ↦ (record s { stored = stored }, err e)
              | ok chain ↦ (record s { chain = chain; stored = stored }, ok tt)
            ]
            else (s, err store_failed)
      ]

  -- The loop of `connectOrphansLocked`; `again` is its recursive call, and `attempt` is what the
  -- outside decides for each orphan.
  unfoldable pub connect_each :
      (Hash → Attempt)
      → (Hash → NodeState → Result (NodeState × List MsgBlock))
      → List Hash
      → NodeState
      → Result (NodeState × List MsgBlock)
  unfolding append_block
  connect_each attempt again [] s = ok (s, [])
  connect_each attempt again (h ∷ hs) s = elim (find h s.orphans) [
    | none ↦ connect_each attempt again hs s
    | some orphan ↦
        (let done =
            append_block (record s { orphans = remove h s.orphans }) orphan true (attempt h) in
          elim (done.1) [
            | panic ↦ panic
            | err e ↦ connect_each attempt again hs (done.0)
            | ok _ ↦ do
              (s₁, behind) ← again h (done.0)
              (s₂, others) ← connect_each attempt again hs s₁
              ok (s₂, orphan ∷ (behind ++ others))
          ])
  ]

  -- `connectOrphansLocked`, with fuel for its recursion.
  unfoldable pub connect_orphans :
      (Hash → Attempt) → ℕ → Hash → NodeState → Result (NodeState × List MsgBlock)
  unfolding connect_each hashes_at
  connect_orphans attempt zero parent s = err fuel_exhausted
  connect_orphans attempt (suc fuel) parent s =
      connect_each attempt (connect_orphans attempt fuel) (hashes_at parent s.orphans_by_prev)
        (record s { orphans_by_prev = remove parent s.orphans_by_prev })
