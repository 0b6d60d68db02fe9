-- ===== src/Mempool/Minable.antt =====
-- Memory pools of server.go that connect as they are: what the revalidation keeps of them, and that
-- the miner can take them.
use pacd.Base.{
  ℕ, ◌≡◌, refl, sym, ap, ◌∙◌, arith, true, false, List, [], ◌∷◌, ◌++◌, inl, inr, append_assoc,
  append-nil, Bool-cases, if◌then◌else◌,
}
use pacd.Base.Int.{ℤ, pos, ltb_ℤ, ◌+ℤ◌, ◌-ℤ◌}
use pacd.Base.Words.{wrap64, max_int64}
use pacd.Base.Result.{ok, >>=-eq-ok, guard-eq-ok}
use pacd.Crypto.{Crypto}
use pacd.Wire.Tx.{Hash, MsgTx, is_coinbase, tx_hash}
use pacd.Wire.Block.{MsgBlock}
use pacd.Chaincfg.{Params}
use pacd.Chain.Utxo.{UtxoSet}
use pacd.Chain.State.{Chain, calc_fees}
use pacd.Chain.Connect.{
  validate_regular_transactions, validate_and_connect_regular_tx, connect_regular,
}
use pacd.Mining.{next_height}
use pacd.Mining.Candidate.{calc_fees_step}
use pacd.Mempool.{Mempool, has_hash, included_tx_hashes, revalidate_mempool, prune_mempool}
use pacd.Mempool.Connects.{Connects}

module _ (c : Crypto) where
  connect_regular-prefix :
      (params : Params) (height : ℕ) (xs ys : List MsgTx) (fees : ℤ) (view : UtxoSet)
      (r : ℤ × UtxoSet)
      → connect_regular c params height (xs ++ ys) fees view ≡ ok r
      → (r' : ℤ × UtxoSet) × (connect_regular c params height xs fees view ≡ ok r')
  unfolding connect_regular
  connect_regular-prefix params height [] ys fees view r e = ((fees, view), refl)
  connect_regular-prefix params height (x ∷ xs) ys fees view r e =
      let (plain, e₁) = guard-eq-ok (is_coinbase x) _ _ e in
      let ((fee, view'), e₂, e₃) =
        >>=-eq-ok (validate_and_connect_regular_tx c params x view height) _ e₁ in
      let (low, e₄) = guard-eq-ok (ltb_ℤ (wrap64 (max_int64 -ℤ fee)) fees) _ _ e₃ in
      let (r', e₅) = connect_regular-prefix params height xs ys (wrap64 (fees +ℤ fee)) view' r e₄ in
      (r', simp (plain, e₂, low, e₅))

  -- The first transactions of a pool that connects do so alone.
  pub Connects-prefix : (ch : Chain) (xs ys : Mempool) → Connects c ch (xs ++ ys) → Connects c ch xs
  unfolding calc_fees validate_regular_transactions next_height
  Connects-prefix ch xs ys k =
      let (view, e) = calc_fees_step c ch (xs ++ ys) k.fees k.accepted in
      let (r, e₁) =
        connect_regular-prefix ch.params (next_height ch) xs ys (pos 0) ch.utxos (k.fees, view) e in
      record { fees = r.0; accepted = simp (e₁) }

  -- The pool without the transactions whose hash is in the set.
  unfoldable pub without : List Hash → Mempool → Mempool
  without included [] = []
  without included (tx ∷ txs) =
      if has_hash (tx_hash c.blake256 tx) included
      then without included txs
      else tx ∷ without included txs

  revalidate_mempool-known :
      (ch : Chain) (included : List Hash) (kept : Mempool) (tx : MsgTx) (txs : Mempool)
      → has_hash (tx_hash c.blake256 tx) included ≡ true
      → revalidate_mempool c ch included kept (tx ∷ txs) ≡ revalidate_mempool c ch included kept txs
  unfolding revalidate_mempool
  revalidate_mempool-known ch included kept tx txs known = ground arith

  revalidate_mempool-connected :
      (ch : Chain) (included : List Hash) (kept : Mempool) (tx : MsgTx) (txs : Mempool)
      → has_hash (tx_hash c.blake256 tx) included ≡ false
      → Connects c ch (kept ++ (tx ∷ []))
      → revalidate_mempool c ch included kept (tx ∷ txs)
        ≡ revalidate_mempool c ch included (kept ++ (tx ∷ [])) txs
  unfolding revalidate_mempool
  revalidate_mempool-connected ch included kept tx txs new k = ground (arith, k.accepted)

  revalidate_mempool-without :
      (ch : Chain) (included : List Hash) (kept txs : Mempool)
      → Connects c ch (kept ++ without included txs)
      → revalidate_mempool c ch included kept txs ≡ ok (kept ++ without included txs)
  unfolding revalidate_mempool without
  revalidate_mempool-without ch included kept [] k = rw append-nil refl
  revalidate_mempool-without ch included kept (tx ∷ txs) k =
      elim (Bool-cases (has_hash (tx_hash c.blake256 tx) included)) [
        | inl known ↦
            let rest : without included (tx ∷ txs) ≡ without included txs = rw known refl in
            revalidate_mempool-known ch included kept tx txs known
            ∙ revalidate_mempool-without ch included kept txs (rw rest at k)
            ∙ ap (λ xs. ok (kept ++ xs)) (sym rest)
        | inr new ↦
            let rest : without included (tx ∷ txs) ≡ tx ∷ without included txs = rw new refl in
            let shift = append_assoc kept (tx ∷ []) (without included txs) in
            let k₁ : Connects c ch ((kept ++ (tx ∷ [])) ++ without included txs) =
              rw (shift, ← rest) k in
            revalidate_mempool-connected ch included kept tx txs new
              (Connects-prefix ch (kept ++ (tx ∷ [])) (without included txs) k₁)
            ∙ revalidate_mempool-without ch included (kept ++ (tx ∷ [])) txs k₁
            ∙ ap ok (shift ∙ ap (λ xs. kept ++ xs) (sym rest))
      ]

  -- Pruning is filtering where it may be: if the pool without the block's transactions connects to
  -- the chain as it stands, then the pool afterwards is exactly that, and nothing else is dropped.
  pub prune_mempool-without :
      (ch : Chain) (pool : Mempool) (b : MsgBlock)
      → Connects c ch (without (included_tx_hashes c b.transactions) pool)
      → prune_mempool c ch pool b ≡ ok (without (included_tx_hashes c b.transactions) pool)
  unfolding prune_mempool
  prune_mempool-without ch pool b k =
      revalidate_mempool-without ch (included_tx_hashes c b.transactions) [] pool k
