-- ===== src/Server.antt =====
-- internal/rpcserver/server.go: the state behind the handlers, and what the handlers and the
-- node's callbacks do to it. Whether the file system takes a block is an argument.
pub mod Clock
pub mod Invariant
pub mod Steps
pub mod Generate
use pacd.Base.{Bool, true, false, not, Option, none, some, List, [], ◌∷◌, ◌++◌, if◌then◌else◌, ◌==◌}
use pacd.Base.Int.{ℤ}
use pacd.Base.Result.{Result, ok, err, panic, ◌>>=◌, store_failed}
use pacd.Crypto.{Crypto}
use pacd.Wire.Tx.{MsgTx}
use pacd.Wire.Block.{MsgBlock}
use pacd.Chain.State.{Chain, Instants, validate_block, add_block}
use pacd.Chain.Reorg.{reorganize}
use pacd.Mempool.{Mempool, accept_transaction, prune_mempool, notify_chain_reorganized}

-- The chain, the pool, and the blocks behind genesis that are in the file.
pub record Server : Type 0 where
  pub chain : Chain
  pub mempool : Mempool
  pub stored : List MsgBlock

-- `Replace` leaves out a block of height zero.
unfoldable pub stored_blocks : List MsgBlock → List MsgBlock
stored_blocks [] = []
stored_blocks (b ∷ bs) =
    let header = b.header in if header.height == 0 then stored_blocks bs else b ∷ stored_blocks bs

module _ (c : Crypto) where
  -- `pruneMempoolLocked`, and the answer of the handler; no branch of it is an error.
  unfoldable pub prune : Server → MsgBlock → Server × Result (Unit {0})
  prune s b = elim (prune_mempool c s.chain s.mempool b) [
    | ok pool ↦ (record s { mempool = pool }, ok tt)
    | err e ↦ (s, err e)
    | panic ↦ (s, panic)
  ]

  unfoldable pub connect_stored : Server → MsgBlock → Instants → Server × Result (Unit {0})
  unfolding prune
  connect_stored s b now = elim (add_block c s.chain b now) [
    | ok ch ↦ prune (record s { chain = ch }) b
    | err e ↦ (s, err e)
    | panic ↦ (s, panic)
  ]

  -- `handleSubmitBlock` behind the decoding: `ValidateBlock` at `now`, `Append`, which succeeds if
  -- `written`, `AddBlock` at `later`, and the pruning. The state is that after the call, whatever
  -- the answer.
  unfoldable pub submit_block :
      Server → MsgBlock → Instants → Instants → Bool → Server × Result (Unit {0})
  unfolding connect_stored
  submit_block s b now later written = elim (validate_block c s.chain b true now) [
    | ok utxos ↦
        if written
        then connect_stored (record s { stored = s.stored ++ (b ∷ []) }) b later
        else (s, err store_failed)
    | err e ↦ (s, err e)
    | panic ↦ (s, panic)
  ]
