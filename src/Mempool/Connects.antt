-- ===== src/Mempool/Connects.antt =====
-- What every operation on the memory pool of server.go leaves: transactions that connect.
use pacd.Base.{
  ◌≡◌, refl, arith, Bool, true, false, List, [], ◌∷◌, ◌++◌, ◌⊎◌, inl, inr, All, All-append,
  append-nil, append_assoc, bytes_eq, Bool-cases,
}
use pacd.Base.Int.{ℤ, pos}
use pacd.Base.Result.{ok, >>=-eq-ok, outcome, is_ok, is_err, is_panic}
use pacd.Crypto.{Crypto}
use pacd.Wire.Tx.{Hash, MsgTx, tx_hash}
use pacd.Wire.Block.{MsgBlock}
use pacd.Chain.State.{Chain, calc_fees, rest_of}
use pacd.Chain.Connect.{validate_regular_transactions, connect_regular}
use pacd.Mempool.{
  Mempool, has_hash, has_transaction, accept_transaction, included_tx_hashes, revalidate_mempool,
  prune_mempool, included_in_blocks, return_transactions, return_blocks, notify_chain_reorganized,
}

bytes_ne_sym : (xs ys : Hash) → bytes_eq xs ys ≡ false → bytes_eq ys xs ≡ false
unfolding bytes_eq
bytes_ne_sym [] [] h = h
bytes_ne_sym [] (y ∷ ys) h = refl
bytes_ne_sym (x ∷ xs) [] h = refl
bytes_ne_sym (x ∷ xs) (y ∷ ys) h = ground (arith, bytes_ne_sym xs ys)

module _ (c : Crypto) where
  -- No two transactions of the pool have the same hash.
  abbrev pub IsDistinct : Mempool → Type 0
  IsDistinct [] = Unit {0}
  IsDistinct (tx ∷ txs) = (has_transaction c (tx_hash c.blake256 tx) txs ≡ false) × IsDistinct txs

  -- All transactions of the pool together connect to the chain, in the pool's order.
  pub record Connects (ch : Chain) (pool : Mempool) : Type 0 where
    pub fees : ℤ
    pub accepted : calc_fees c ch pool ≡ ok fees

  pub Connects-empty : (ch : Chain) → Connects ch []
  unfolding calc_fees validate_regular_transactions connect_regular
  Connects-empty ch = record { fees = pos 0; accepted = refl }

  pub has_transaction-append :
      (h : Hash) (pool : Mempool) (tx : MsgTx)
      → has_transaction c h pool ≡ false
      → bytes_eq (tx_hash c.blake256 tx) h ≡ false
      → has_transaction c h (pool ++ (tx ∷ [])) ≡ false
  unfolding has_transaction
  has_transaction-append h [] tx fresh ne = ground arith
  has_transaction-append h (x ∷ xs) tx fresh ne = ground (arith, has_transaction-append h xs tx)

  has_transaction-ne :
      (x tx : MsgTx) (xs : Mempool)
      → has_transaction c (tx_hash c.blake256 tx) (x ∷ xs) ≡ false
      → bytes_eq (tx_hash c.blake256 x) (tx_hash c.blake256 tx) ≡ false
  unfolding has_transaction
  has_transaction-ne x tx xs fresh = ground arith

  has_transaction-tail :
      (x : MsgTx) (h : Hash) (xs : Mempool)
      → has_transaction c h (x ∷ xs) ≡ false
      → has_transaction c h xs ≡ false
  unfolding has_transaction
  has_transaction-tail x h xs fresh = ground arith

  -- A pool without one of its transactions.
  has_transaction-middle :
      (h : Hash) (xs : Mempool) (x : MsgTx) (ys : Mempool)
      → has_transaction c h (xs ++ (x ∷ ys)) ≡ false
      → has_transaction c h (xs ++ ys) ≡ false
  unfolding has_transaction
  has_transaction-middle h [] x ys fresh = has_transaction-tail x h ys fresh
  has_transaction-middle h (y ∷ xs) x ys fresh = ground (arith, has_transaction-middle h xs x ys)

  IsDistinct-middle :
      (xs : Mempool) (x : MsgTx) (ys : Mempool)
      → IsDistinct (xs ++ (x ∷ ys))
      → IsDistinct (xs ++ ys)
  IsDistinct-middle [] x ys d = d.1
  IsDistinct-middle (y ∷ xs) x ys d =
      (has_transaction-middle (tx_hash c.blake256 y) xs x ys d.0, IsDistinct-middle xs x ys d.1)

  IsDistinct-append :
      (pool : Mempool) (tx : MsgTx)
      → IsDistinct pool
      → has_transaction c (tx_hash c.blake256 tx) pool ≡ false
      → IsDistinct (pool ++ (tx ∷ []))
  unfolding has_transaction
  IsDistinct-append [] tx d fresh = (refl, tt)
  IsDistinct-append (x ∷ xs) tx d fresh = (
    has_transaction-append (tx_hash c.blake256 x) xs tx d.0 (
        bytes_ne_sym (tx_hash c.blake256 x) (tx_hash c.blake256 tx)
          (has_transaction-ne x tx xs fresh)),
    IsDistinct-append xs tx d.1 (has_transaction-tail x (tx_hash c.blake256 tx) xs fresh),
  )

  -- What an accepted call has done: nothing for a transaction that is in the pool, else the
  -- transaction is appended, and the new pool connects.
  pub accept_transaction_step :
      (ch : Chain) (pool : Mempool) (tx : MsgTx) (fresh : Bool) (pool' : Mempool)
      → accept_transaction c ch pool tx ≡ ok (fresh, pool')
      → ((fresh ≡ false) × (pool' ≡ pool) × (has_transaction c (tx_hash c.blake256 tx) pool ≡ true))
        ⊎ ((fresh ≡ true)
            × (pool' ≡ pool ++ (tx ∷ []))
            × Connects ch (pool ++ (tx ∷ []))
            × (has_transaction c (tx_hash c.blake256 tx) pool ≡ false))
  unfolding accept_transaction
  accept_transaction_step ch pool tx fresh pool' e =
      elim (Bool-cases (has_transaction c (tx_hash c.blake256 tx) pool)) [
        | inl known ↦ inl (ground arith, ground arith, known)
        | inr new ↦ elim (outcome (calc_fees c ch (pool ++ (tx ∷ [])))) [
          | is_ok f e₁ ↦ inr (ground arith, ground arith, record { fees = f; accepted = e₁ }, new)
          | is_err x e₁ ↦ absurd (ground arith)
          | is_panic e₁ ↦ absurd (ground arith)
        ]
      ]

  pub accept_transaction-IsDistinct :
      (ch : Chain) (pool : Mempool) (tx : MsgTx) (fresh : Bool) (pool' : Mempool)
      → IsDistinct pool
      → accept_transaction c ch pool tx ≡ ok (fresh, pool')
      → IsDistinct pool'
  accept_transaction-IsDistinct ch pool tx fresh pool' d e =
      elim (accept_transaction_step ch pool tx fresh pool' e) [
        | inl (_, same, _) ↦ rw same d
        | inr (_, same, _, new) ↦ rw same (IsDistinct-append pool tx d new)
      ]

  -- The transactions whose hash is not in the set.
  abbrev pub Fresh : List Hash → MsgTx → Type 0
  Fresh included tx = has_hash (tx_hash c.blake256 tx) included ≡ false

  -- What the revalidation leaves.
  pub record IsValid (ch : Chain) (included : List Hash) (pool : Mempool) : Type 0 where
    pub connects : Connects ch pool
    pub distinct : IsDistinct pool
    pub fresh : All (Fresh included) pool

  pub revalidate_mempool-IsValid :
      (ch : Chain) (included : List Hash) (kept txs pool : Mempool)
      → Connects ch kept
      → All (Fresh included) kept
      → IsDistinct (kept ++ txs)
      → revalidate_mempool c ch included kept txs ≡ ok pool
      → IsValid ch included pool
  unfolding revalidate_mempool
  revalidate_mempool-IsValid ch included kept [] pool k f d e =
      let same : kept ≡ pool = cc in
      rw (← same) (record { connects = k; distinct = rw append-nil at d; fresh = f })
  revalidate_mempool-IsValid ch included kept (tx ∷ txs) pool k f d e =
      let fewer = IsDistinct-middle kept tx txs d in
      elim (Bool-cases (has_hash (tx_hash c.blake256 tx) included)) [
        | inl known ↦ revalidate_mempool-IsValid ch included kept txs pool k f fewer (ground arith)
        | inr new ↦ elim (outcome (calc_fees c ch (kept ++ (tx ∷ [])))) [
          | is_ok fees e₁ ↦
              revalidate_mempool-IsValid ch included (kept ++ (tx ∷ [])) txs pool
                (record { fees = fees; accepted = e₁ })
                (All-append (Fresh included) kept (tx ∷ []) f (new, tt))
                (rw (append_assoc kept (tx ∷ []) txs) d) (ground arith)
          | is_err x e₁ ↦
              revalidate_mempool-IsValid ch included kept txs pool k f fewer (ground arith)
          | is_panic e₁ ↦ absurd (ground arith)
        ]
      ]

  -- `NotifyBlockConnected` and the pruning behind a submitted block: where the pool's hashes are
  -- distinct, the pool afterwards connects to the chain, its hashes are distinct, and none of them
  -- is of a transaction in the block. The old pool need not connect.
  pub prune_mempool-IsValid :
      (ch : Chain) (pool pool' : Mempool) (b : MsgBlock)
      → IsDistinct pool
      → prune_mempool c ch pool b ≡ ok pool'
      → IsValid ch (included_tx_hashes c b.transactions) pool'
  unfolding prune_mempool
  prune_mempool-IsValid ch pool pool' b d e =
      revalidate_mempool-IsValid ch (included_tx_hashes c b.transactions) [] pool pool'
        (Connects-empty ch) tt d e

  return_transactions-IsDistinct :
      (ch : Chain) (included : List Hash) (txs : List MsgTx) (pool pool' : Mempool)
      → IsDistinct pool
      → return_transactions c ch included txs pool ≡ ok pool'
      → IsDistinct pool'
  unfolding return_transactions
  return_transactions-IsDistinct ch included [] pool pool' d e =
      let same : pool ≡ pool' = cc in rw (← same) d
  return_transactions-IsDistinct ch included (tx ∷ txs) pool pool' d e =
      elim (Bool-cases (has_hash (tx_hash c.blake256 tx) included)) [
        | inl known ↦ return_transactions-IsDistinct ch included txs pool pool' d (ground arith)
        | inr new ↦ elim (outcome (accept_transaction c ch pool tx)) [
          | is_ok (added, next) e₁ ↦
              return_transactions-IsDistinct ch included txs next pool'
                (accept_transaction-IsDistinct ch pool tx added next d e₁) (ground arith)
          | is_err x e₁ ↦ return_transactions-IsDistinct ch included txs pool pool' d (ground arith)
          | is_panic e₁ ↦ absurd (ground arith)
        ]
      ]

  return_blocks-IsDistinct :
      (ch : Chain) (included : List Hash) (bs : List MsgBlock) (pool pool' : Mempool)
      → IsDistinct pool
      → return_blocks c ch included bs pool ≡ ok pool'
      → IsDistinct pool'
  unfolding return_blocks
  return_blocks-IsDistinct ch included [] pool pool' d e =
      let same : pool ≡ pool' = cc in rw (← same) d
  return_blocks-IsDistinct ch included (b ∷ bs) pool pool' d e =
      let (next, e₁, e₂) = >>=-eq-ok (return_blocks c ch included bs pool) _ e in
      return_transactions-IsDistinct ch included (rest_of b.transactions) next pool'
        (return_blocks-IsDistinct ch included bs pool next d e₁) e₂

  -- `NotifyChainReorganized`: where the pool's hashes are distinct, the pool afterwards connects to
  -- the chain, its hashes are distinct, and none of them is of a transaction in the connected
  -- blocks.
  pub notify_chain_reorganized-IsValid :
      (ch : Chain) (disconnected connected : List MsgBlock) (pool pool' : Mempool)
      → IsDistinct pool
      → notify_chain_reorganized c ch disconnected connected pool ≡ ok pool'
      → IsValid ch (included_in_blocks c connected) pool'
  unfolding notify_chain_reorganized
  notify_chain_reorganized-IsValid ch disconnected connected pool pool' d e =
      let included = included_in_blocks c connected in
      let (next, e₁, e₂) = >>=-eq-ok (return_blocks c ch included disconnected pool) _ e in
      revalidate_mempool-IsValid ch included [] next pool' (Connects-empty ch) tt
        (return_blocks-IsDistinct ch included disconnected pool next d e₁) e₂
