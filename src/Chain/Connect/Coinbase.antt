-- ===== src/Chain/Connect/Coinbase.antt =====
-- The coinbase adds exactly the subsidy and the fees.
use pacd.Base.{ℕ, ◌+◌, ◌≤◌, ◌≡◌, refl, sym, ◌∙◌, arith, true, false, not, List, [], ◌∷◌, All}
use pacd.Base.Int.{ℤ, pos, pos_part, ◌+ℤ◌, ltb_ℤ, eqb_ℤ, +ℤ-pos}
use pacd.Base.Words.{wrap64, of_u64, to_u64}
use pacd.Base.Result.{ok, outcome, is_ok, is_err, is_panic}
use pacd.Crypto.{Crypto}
use pacd.Wire.Tx.{TxOut, MsgTx, is_coinbase}
use pacd.Chaincfg.{Params}
use pacd.Consensus.Subsidy.{calc_block_one_time_split, calc_block_subsidy}
use pacd.Consensus.Subsidy.Schedule.{IsSchedule, split_shares}
use pacd.Chain.Utxo.{UtxoSet, total, HasMoney}
use pacd.Chain.Connect.{
  validate_tx_outputs, connect_tx_outputs, check_coinbase_outputs, connect_coinbase,
}
use pacd.Chain.Connect.Money.{max_money, IsOutput, outputs_total, validate_tx_outputs-exact}
use pacd.Chain.Connect.Supply.{connect_tx_outputs-money}

-- A wrapped sum of two amounts that is not below the first is exact.
exact_reward :
    (a f : ℕ)
    → a ≤ max_money
    → f ≤ max_money
    → ltb_ℤ (wrap64 (pos a +ℤ pos f)) (pos a) ≡ false
    → (a + f ≤ max_money) × (wrap64 (pos a +ℤ pos f) ≡ pos (a + f))
unfolding wrap64 of_u64 to_u64
exact_reward a f ha hf h = (ground (arith, +ℤ-pos a f), ground (arith, +ℤ-pos a f))

-- The sum that the coinbase is held to, from the shares and the fees.
coinbase_sum :
    (split : ℤ × ℤ) (sum : ℤ) (a b f n : ℕ)
    → split ≡ (pos a, pos b)
    → a + b ≤ max_money
    → f ≤ max_money
    → let reward = wrap64 (split.0 +ℤ pos f) in
      ltb_ℤ reward split.0 ≡ false
      → ltb_ℤ (wrap64 (reward +ℤ split.1)) reward ≡ false
      → sum ≡ wrap64 (reward +ℤ split.1)
      → sum ≡ pos n
      → n ≡ a + f + b
coinbase_sum split sum a b f n e fits hf low low' exact same =
    let (le, first) = exact_reward a f (omega arith) hf (rw e at low) in
    let (_, second) = exact_reward (a + f) b le (omega arith) (rw first at (rw e at low')) in
    let whole : pos n ≡ pos (a + f + b) = sym same ∙ exact ∙ rw e (rw first second) in
    ground (arith, whole)

eqb_sound : (a b : ℤ) → not (eqb_ℤ a b) ≡ false → a ≡ b
eqb_sound a b h = ground arith

module _ (c : Crypto) (params : Params) where
  -- The tests on the coinbase's outputs, and the view that it leaves.
  pub check_coinbase_step :
      (tx : MsgTx) (height : ℕ) (fees sum : ℤ) (outs : List TxOut) (view : UtxoSet) (at' : ℕ)
      (view' : UtxoSet)
      → check_coinbase_outputs c params tx height fees sum outs view at' ≡ ok view'
      → let split = calc_block_one_time_split (pos height) params in
        let reward = wrap64 (split.0 +ℤ fees) in
        (ltb_ℤ reward split.0 ≡ false)
        × (ltb_ℤ (wrap64 (reward +ℤ split.1)) reward ≡ false)
        × (sum ≡ wrap64 (reward +ℤ split.1))
        × (view' ≡ connect_tx_outputs c tx view at' true)
  unfolding check_coinbase_outputs
  check_coinbase_step tx height fees sum [] view at' view' h = absurd (ground arith)
  check_coinbase_step tx height fees sum (o ∷ []) view at' view' h = absurd (ground arith)
  check_coinbase_step tx height fees sum (o ∷ p ∷ outs) view at' view' h =
      (ground arith, ground arith, eqb_sound _ _ (ground arith), ground arith)

  pub connect_coinbase_step :
      (txs : List MsgTx) (height : ℕ) (fees : ℤ) (view : UtxoSet) (at' : ℕ) (view' : UtxoSet)
      → connect_coinbase c params txs height fees view at' ≡ ok view'
      → (tx : MsgTx) × (rest : List MsgTx) × (sum : ℤ) × (txs ≡ tx ∷ rest)
        × (is_coinbase tx ≡ true)
        × (validate_tx_outputs tx ≡ ok sum)
        × (check_coinbase_outputs c params tx height fees sum tx.tx_out view at' ≡ ok view')
  unfolding connect_coinbase
  connect_coinbase_step [] height fees view at' view' h = absurd (cc)
  connect_coinbase_step (tx ∷ txs) height fees view at' view' h =
      elim (outcome (validate_tx_outputs tx)) [
        | is_ok sum e ↦ (tx, txs, sum, refl, ground arith, e, ground arith)
        | is_err x e ↦ absurd (ground arith)
        | is_panic e ↦ absurd (ground arith)
      ]

  -- A coinbase that is accepted with fees of `f` atoms leaves a view that is worth at most the subsidy
  -- of the block's height and the fees more, without negative values. The parameters are a schedule
  -- of subsidies that does not leave int64, the outputs have int64 values, and the view had no
  -- negative value.
  pub connect_coinbase-money :
      (txs : List MsgTx) (height f : ℕ) (view : UtxoSet) (at' : ℕ) (view' : UtxoSet)
      → IsSchedule params
      → f ≤ max_money
      → All (λ tx. All IsOutput tx.tx_out) txs
      → All HasMoney view
      → connect_coinbase c params txs height (pos f) view at' ≡ ok view'
      → (total view' ≤ pos_part (calc_block_subsidy (pos height) params) + (f + total view))
        × All HasMoney view'
  connect_coinbase-money [] height f view at' view' v hf ho hv h =
      absurd (unfold connect_coinbase in cc)
  connect_coinbase-money (tx₀ ∷ txs₀) height f view at' view' v hf ho hv h =
      let (tx, rest, sum, same, _, outputs, checked) =
        connect_coinbase_step (tx₀ ∷ txs₀) height (pos f) view at' view' h in
      let first : tx₀ ≡ tx = cc (same) in
      let (low, low', exact, after) =
        check_coinbase_step tx height (pos f) sum tx.tx_out view at' view' checked in
      let (a, b, split, subsidy, fits) = split_shares v height in
      let (sum_eq, bound, money) = validate_tx_outputs-exact tx sum (rw first at ho.0) outputs in
      let whole =
        coinbase_sum _ sum a b f (outputs_total tx.tx_out) split fits hf low low' exact sum_eq in
      let (added, all) = connect_tx_outputs-money c tx view at' true money hv in
      (rw after (omega (arith, added, whole, subsidy)), rw after all)
