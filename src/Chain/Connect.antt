-- ===== src/Chain/Connect.antt =====
-- internal/blockchain/chain.go: transactions against a view of the unspent outputs. A view that a
-- failed call has changed is dropped by every caller, so an error returns none.
pub mod Money
pub mod Supply
pub mod Coinbase
pub mod Authorized
use pacd.Base.{
  ℕ, zero, suc, ◌+◌, ◌%◌, Bool, true, false, ◌&&◌, not, Option, none, some, List, [], ◌∷◌, Bytes,
  ltb, leb, ◌==◌, if◌then◌else◌, length, bytes_eq,
}
use pacd.Base.Int.{ℤ, pos, ltb_ℤ, eqb_ℤ, ◌+ℤ◌, ◌-ℤ◌}
use pacd.Base.Words.{u32_mod, wrap64, max_int64}
use pacd.Base.Result.{
  Result, ok, err, reject_if, ◌>>=◌, ◌>>◌, no_transactions, not_coinbase, extra_coinbase,
  few_outputs, miner_overflow, miner_reward, project_subsidy, reward_overflow, coinbase_total,
  project_script, no_inputs, duplicate_input, missing_input, immature, input_overflow, overspend,
  fee_overflow, no_outputs, negative_value, output_overflow,
}
use pacd.Crypto.{Crypto}
use pacd.Wire.Tx.{Hash, OutPoint, TxIn, TxOut, MsgTx, is_coinbase, tx_hash}
use pacd.Wire.Block.{MsgBlock}
use pacd.Chaincfg.{Params}
use pacd.Consensus.Subsidy.{calc_block_one_time_split}
use pacd.Txscript.{verify_p2pkh_input}
use pacd.Chain.Utxo.{UtxoEntry, UtxoSet, lookup, insert, erase, contains}

-- The loop of `validateTxOutputs`.
unfoldable pub sum_outputs : ℤ → List TxOut → Result ℤ
sum_outputs total [] = ok total
sum_outputs total (o ∷ outs) = do
  reject_if (ltb_ℤ o.value (pos 0)) negative_value
  reject_if (ltb_ℤ (wrap64 (max_int64 -ℤ o.value)) total) output_overflow
  sum_outputs (wrap64 (total +ℤ o.value)) outs

unfoldable pub validate_tx_outputs : MsgTx → Result ℤ
unfolding sum_outputs
validate_tx_outputs tx = do
  reject_if (length tx.tx_out == 0) no_outputs
  sum_outputs (pos 0) tx.tx_out

-- One round of `connectTxOutputs`: an output of no value is left out.
unfoldable pub connect_output : Hash → ℕ → Bool → ℕ → TxOut → UtxoSet → UtxoSet
connect_output hash height coinbase i o view =
    if eqb_ℤ o.value (pos 0)
    then view
    else insert (record { hash = hash; index = i % u32_mod })
        (record { tx_out = o; block_height = height; coinbase = coinbase }) view

-- The loop of `connectTxOutputs` from output `i` on.
unfoldable pub connect_outputs : Hash → ℕ → Bool → ℕ → List TxOut → UtxoSet → UtxoSet
connect_outputs hash height coinbase i [] view = view
connect_outputs hash height coinbase i (o ∷ outs) view =
    connect_outputs hash height coinbase (suc i) outs (connect_output hash height coinbase i o view)

-- Map lookup with the error for a missing input.
abbrev pub find_input : OutPoint → UtxoSet → Result UtxoEntry
find_input k view = elim (lookup k view) [ none ↦ err missing_input | some e ↦ ok e ]

module _ (c : Crypto) where
  unfoldable pub connect_tx_outputs : MsgTx → UtxoSet → ℕ → Bool → UtxoSet
  unfolding connect_outputs
  connect_tx_outputs tx view height coinbase =
      connect_outputs (tx_hash c.blake256 tx) height coinbase 0 tx.tx_out view

  module _ (params : Params) where
    -- The loop over the inputs, from input `i` on.
    unfoldable pub spend_inputs :
        MsgTx → ℕ → ℕ → List TxIn → List OutPoint → ℤ → UtxoSet → Result (ℤ × UtxoSet)
    spend_inputs tx height i [] spent total view = ok (total, view)
    spend_inputs tx height i (x ∷ xs) spent total view = do
      let point = x.previous_out_point
      reject_if (contains point spent) duplicate_input
      prev ← find_input point view
      reject_if
          (prev.coinbase && ltb height ((prev.block_height + params.coinbase_maturity) % u32_mod))
          immature
      verify_p2pkh_input c tx i prev.tx_out.pk_script
      reject_if (ltb_ℤ (wrap64 (max_int64 -ℤ prev.tx_out.value)) total) input_overflow
      spend_inputs tx height (suc i) xs (point ∷ spent) (wrap64 (total +ℤ prev.tx_out.value))
          (erase point view)

    -- The fee, and the view with the transaction connected.
    unfoldable pub validate_and_connect_regular_tx : MsgTx → UtxoSet → ℕ → Result (ℤ × UtxoSet)
    validate_and_connect_regular_tx tx view height = do
      reject_if (length tx.tx_in == 0) no_inputs
      output_total ← validate_tx_outputs tx
      (input_total, view') ← spend_inputs tx height 0 tx.tx_in [] (pos 0) view
      reject_if (ltb_ℤ input_total output_total) overspend
      ok (wrap64 (input_total -ℤ output_total), connect_tx_outputs tx view' height false)

    -- The loop of `validateRegularTransactions`, with the fees so far.
    unfoldable pub connect_regular : ℕ → List MsgTx → ℤ → UtxoSet → Result (ℤ × UtxoSet)
    connect_regular height [] fees view = ok (fees, view)
    connect_regular height (tx ∷ txs) fees view = do
      reject_if (is_coinbase tx) extra_coinbase
      (fee, view') ← validate_and_connect_regular_tx tx view height
      reject_if (ltb_ℤ (wrap64 (max_int64 -ℤ fee)) fees) fee_overflow
      connect_regular height txs (wrap64 (fees +ℤ fee)) view'

    unfoldable pub validate_regular_transactions : List MsgTx → UtxoSet → ℕ → Result (ℤ × UtxoSet)
    unfolding connect_regular
    validate_regular_transactions txs view height = connect_regular height txs (pos 0) view

    unfoldable pub any_coinbase : List MsgTx → Bool
    any_coinbase [] = false
    any_coinbase (tx ∷ txs) = if is_coinbase tx then true else any_coinbase txs

    -- The first two outputs against the rewards, then the connection of the coinbase.
    unfoldable pub check_coinbase_outputs :
        MsgTx → ℕ → ℤ → ℤ → List TxOut → UtxoSet → ℕ → Result UtxoSet
    check_coinbase_outputs coinbase height fees coinbase_sum (o₀ ∷ o₁ ∷ _) view block_height = do
      let split = calc_block_one_time_split (pos height) params
      let reward = wrap64 (split.0 +ℤ fees)
      reject_if (ltb_ℤ reward split.0) miner_overflow
      reject_if (not (eqb_ℤ o₀.value reward)) miner_reward
      reject_if (not (eqb_ℤ o₁.value split.1)) project_subsidy
      let expected = wrap64 (reward +ℤ split.1)
      reject_if (ltb_ℤ expected reward) reward_overflow
      reject_if (not (eqb_ℤ coinbase_sum expected)) coinbase_total
      reject_if (not (bytes_eq o₁.pk_script params.project_payout_script)) project_script
      ok (connect_tx_outputs coinbase view block_height true)
    check_coinbase_outputs coinbase height fees coinbase_sum _ view block_height = err few_outputs

    unfoldable pub connect_coinbase : List MsgTx → ℕ → ℤ → UtxoSet → ℕ → Result UtxoSet
    unfolding any_coinbase
    connect_coinbase [] height fees view block_height = err no_transactions
    connect_coinbase (coinbase ∷ txs) height fees view block_height = do
      reject_if (not (is_coinbase coinbase)) not_coinbase
      reject_if (any_coinbase txs) extra_coinbase
      reject_if (ltb (length coinbase.tx_out) 2) few_outputs
      coinbase_sum ← validate_tx_outputs coinbase
      check_coinbase_outputs coinbase height fees coinbase_sum coinbase.tx_out view block_height

    unfoldable pub validate_and_connect_coinbase : MsgBlock → ℤ → UtxoSet → ℕ → Result UtxoSet
    unfolding connect_coinbase
    validate_and_connect_coinbase block fees view block_height =
        connect_coinbase block.transactions block.header.height fees view block_height
