-- ===== src/Mempool/Stale.antt =====
-- internal/rpcserver/server.go: a memory pool that no longer connects when the chain is
-- reorganized.
use pacd.Base.{◌≡◌, arith, Bool, List, [], ◌∷◌, inl, inr, Bool-cases}
use pacd.Base.Result.{ok, >>=-eq-ok, outcome, is_ok, is_err, is_panic}
use pacd.Crypto.{Crypto}
use pacd.Wire.Tx.{Hash, MsgTx, tx_hash}
use pacd.Wire.Block.{MsgBlock}
use pacd.Chain.State.{Chain, rest_of}
use pacd.Mempool.{
  Mempool, has_hash, accept_transaction, revalidate_mempool, included_in_blocks,
  return_transactions, return_blocks, notify_chain_reorganized,
}
use pacd.Mempool.Connects.{Connects, accept_transaction_step}
use pacd.Mempool.Minable.{Connects-prefix}

module _ (c : Crypto) where
  accept_transaction-stale :
      (ch : Chain) (pool : Mempool) (tx : MsgTx) (fresh : Bool) (pool' : Mempool)
      → ¬ Connects c ch pool
      → accept_transaction c ch pool tx ≡ ok (fresh, pool')
      → pool' ≡ pool
  accept_transaction-stale ch pool tx fresh pool' stale e =
      elim (accept_transaction_step c ch pool tx fresh pool' e) [
        | inl (_, same, _) ↦ same
        | inr (_, _, k, _) ↦ absurd (stale (Connects-prefix c ch pool (tx ∷ []) k))
      ]

  return_transactions-stale :
      (ch : Chain) (included : List Hash) (txs : List MsgTx) (pool pool' : Mempool)
      → ¬ Connects c ch pool
      → return_transactions c ch included txs pool ≡ ok pool'
      → pool' ≡ pool
  unfolding return_transactions
  return_transactions-stale ch included [] pool pool' stale e = cc
  return_transactions-stale ch included (tx ∷ txs) pool pool' stale e =
      elim (Bool-cases (has_hash (tx_hash c.blake256 tx) included)) [
        | inl known ↦ return_transactions-stale ch included txs pool pool' stale (ground arith)
        | inr new ↦ elim (outcome (accept_transaction c ch pool tx)) [
          | is_ok (added, next) e₁ ↦
              let same = accept_transaction-stale ch pool tx added next stale e₁ in
              return_transactions-stale ch included txs pool pool' stale (ground (arith, same))
          | is_err x e₁ ↦ return_transactions-stale ch included txs pool pool' stale (ground arith)
          | is_panic e₁ ↦ absurd (ground arith)
        ]
      ]

  return_blocks-stale :
      (ch : Chain) (included : List Hash) (bs : List MsgBlock) (pool pool' : Mempool)
      → ¬ Connects c ch pool
      → return_blocks c ch included bs pool ≡ ok pool'
      → pool' ≡ pool
  unfolding return_blocks
  return_blocks-stale ch included [] pool pool' stale e = cc
  return_blocks-stale ch included (b ∷ bs) pool pool' stale e =
      let (next, e₁, e₂) = >>=-eq-ok (return_blocks c ch included bs pool) _ e in
      let same = return_blocks-stale ch included bs pool next stale e₁ in
      return_transactions-stale ch included (rest_of b.transactions) pool pool' stale
        (rw (← same) e₂)

  -- Where the pool does not connect to the reorganized chain as a whole, `NotifyChainReorganized`
  -- takes back no transaction of a disconnected block, whatever it spends: what is left is the old
  -- pool, revalidated.
  pub notify_chain_reorganized-stale :
      (ch : Chain) (disconnected connected : List MsgBlock) (pool pool' : Mempool)
      → ¬ Connects c ch pool
      → notify_chain_reorganized c ch disconnected connected pool ≡ ok pool'
      → revalidate_mempool c ch (included_in_blocks c connected) [] pool ≡ ok pool'
  unfolding notify_chain_reorganized
  notify_chain_reorganized-stale ch disconnected connected pool pool' stale e =
      let included = included_in_blocks c connected in
      let (next, e₁, e₂) = >>=-eq-ok (return_blocks c ch included disconnected pool) _ e in
      let same = return_blocks-stale ch included disconnected pool next stale e₁ in rw (← same) e₂
