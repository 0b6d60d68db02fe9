-- ===== src/Mempool.antt =====
-- internal/rpcserver/server.go: the memory pool and the blocks that the server connects. Pointers
-- to transactions are never nil here, as those that wire decodes; the sets of hashes are lists.
pub mod Connects
pub mod Minable
pub mod Stale
use pacd.Base.{Bool, true, false, Option, none, some, List, [], ◌∷◌, ◌++◌, if◌then◌else◌, bytes_eq}
use pacd.Base.Result.{Result, ok, err, panic, reject_if, ◌>>=◌, ◌>>◌, extra_coinbase}
use pacd.Crypto.{Crypto}
use pacd.Wire.Tx.{Hash, MsgTx, is_coinbase, tx_hash}
use pacd.Wire.Block.{MsgBlock}
use pacd.Chain.State.{Chain, calc_fees, rest_of}

abbrev pub Mempool : Type 0
Mempool = List MsgTx

-- A key of a `map[wire.Hash]struct{}`.
unfoldable pub has_hash : Hash → List Hash → Bool
has_hash h [] = false
has_hash h (x ∷ xs) = if bytes_eq x h then true else has_hash h xs

module _ (c : Crypto) where
  unfoldable pub has_transaction : Hash → Mempool → Bool
  has_transaction hash [] = false
  has_transaction hash (tx ∷ txs) =
      if bytes_eq (tx_hash c.blake256 tx) hash then true else has_transaction hash txs

  unfoldable pub transaction_by_hash : Hash → Mempool → Option MsgTx
  transaction_by_hash hash [] = none
  transaction_by_hash hash (tx ∷ txs) =
      if bytes_eq (tx_hash c.blake256 tx) hash then some tx else transaction_by_hash hash txs

  -- `acceptTransactionLocked`: whether the transaction is new, and the pool afterwards. An error
  -- leaves the pool as it is.
  unfoldable pub accept_transaction : Chain → Mempool → MsgTx → Result (Bool × Mempool)
  unfolding has_transaction
  accept_transaction ch pool tx = do
    reject_if (is_coinbase tx) extra_coinbase
    let candidate = pool ++ (tx ∷ [])
    let connect = (calc_fees c ch candidate >>= λ fees. ok (true, candidate))
    elim (has_transaction (tx_hash c.blake256 tx) pool) [
      | true ↦ ok (false, pool)
      | false ↦ connect
    ]

  unfoldable pub included_tx_hashes : List MsgTx → List Hash
  included_tx_hashes [] = []
  included_tx_hashes (tx ∷ txs) = tx_hash c.blake256 tx ∷ included_tx_hashes txs

  -- The loop of `revalidateMempoolLocked`; an empty pool stays empty.
  unfoldable pub revalidate_mempool : Chain → List Hash → Mempool → Mempool → Result Mempool
  revalidate_mempool ch included filtered [] = ok filtered
  revalidate_mempool ch included filtered (tx ∷ txs) =
      elim (has_hash (tx_hash c.blake256 tx) included) [
        | true ↦ revalidate_mempool ch included filtered txs
        | false ↦ elim (calc_fees c ch (filtered ++ (tx ∷ []))) [
          | ok fees ↦ revalidate_mempool ch included (filtered ++ (tx ∷ [])) txs
          | err e ↦ revalidate_mempool ch included filtered txs
          | panic ↦ panic
        ]
      ]

  -- `NotifyBlockConnected`, and `pruneMempoolLocked`, which is the same.
  unfoldable pub prune_mempool : Chain → Mempool → MsgBlock → Result Mempool
  unfolding included_tx_hashes revalidate_mempool
  prune_mempool ch pool block =
      revalidate_mempool ch (included_tx_hashes block.transactions) [] pool

  -- The hashes in the blocks of `connected`.
  unfoldable pub included_in_blocks : List MsgBlock → List Hash
  unfolding included_tx_hashes
  included_in_blocks [] = []
  included_in_blocks (b ∷ bs) = included_tx_hashes b.transactions ++ included_in_blocks bs

  -- The loop over the transactions of a disconnected block behind its coinbase.
  unfoldable pub return_transactions : Chain → List Hash → List MsgTx → Mempool → Result Mempool
  return_transactions ch included [] pool = ok pool
  return_transactions ch included (tx ∷ txs) pool =
      elim (has_hash (tx_hash c.blake256 tx) included) [
        | true ↦ return_transactions ch included txs pool
        | false ↦ elim (accept_transaction ch pool tx) [
          | ok (_, pool') ↦ return_transactions ch included txs pool'
          | err e ↦ return_transactions ch included txs pool
          | panic ↦ panic
        ]
      ]

  -- The loop over the disconnected blocks, from the last one to the first.
  unfoldable pub return_blocks : Chain → List Hash → List MsgBlock → Mempool → Result Mempool
  unfolding return_transactions
  return_blocks ch included [] pool = ok pool
  return_blocks ch included (b ∷ bs) pool = do
    pool' ← return_blocks ch included bs pool
    return_transactions ch included (rest_of b.transactions) pool'

  unfoldable pub notify_chain_reorganized :
      Chain → List MsgBlock → List MsgBlock → Mempool → Result Mempool
  unfolding included_in_blocks return_blocks revalidate_mempool
  notify_chain_reorganized ch disconnected connected pool = do
    let included = included_in_blocks connected
    pool' ← return_blocks ch included disconnected pool
    revalidate_mempool ch included [] pool'
