-- ===== src/Mining/Coinbase.antt =====
-- The coinbase that the miner builds passes the chain's checks.
use pacd.Base.{ℕ, ◌+◌, ◌-◌, ◌≤◌, ◌≡◌, refl, arith, true, false, List, [], ◌∷◌, Bytes, bytes_eq_refl}
use pacd.Base.Int.{ℤ, pos, ltb_ℤ, eqb_ℤ, +ℤ-pos, -ℤ-pos, pos_part}
use pacd.Base.Words.{wrap64-pos}
use pacd.Base.Result.{ok}
use pacd.Crypto.{Crypto}
use pacd.Wire.Tx.{MsgTx, is_coinbase, new_coinbase_tx, is_coinbase-new_coinbase_tx}
use pacd.Chaincfg.{Params}
use pacd.Consensus.Subsidy.{calc_block_one_time_split, calc_block_subsidy}
use pacd.Consensus.Subsidy.Schedule.{IsSchedule, split_shares}
use pacd.Chain.Utxo.{UtxoSet}
use pacd.Chain.Connect.{
  any_coinbase, connect_regular, sum_outputs, validate_tx_outputs, check_coinbase_outputs,
  connect_coinbase, connect_tx_outputs,
}
use pacd.Chain.Connect.Money.{max_money}
use pacd.Chain.Connect.Supply.{connect_regular_step}
use pacd.Mining.{candidate_coinbase}

-- Two outputs whose sum fits int64 pass the tests on values.
sum_two :
    (a b : ℕ) (s t : Bytes)
    → a + b ≤ max_money
    → sum_outputs
        (pos 0)
        (record { value = pos a; pk_script = s } ∷ record { value = pos b; pk_script = t } ∷ [])
      ≡ ok (pos (a + b))
unfolding sum_outputs
sum_two a b s t h = ground (
  arith,
  -ℤ-pos max_money a (omega arith),
  -ℤ-pos max_money b (omega arith),
  wrap64-pos (max_money - a) (omega arith),
  wrap64-pos (max_money - b) (omega arith),
  +ℤ-pos 0 a,
  wrap64-pos (0 + a) (omega arith),
  +ℤ-pos (0 + a) b,
  wrap64-pos (0 + a + b) (omega arith),
)

same_ℤ : (n : ℕ) → eqb_ℤ (pos n) (pos n) ≡ true
same_ℤ n = ground arith

not_below : (m n : ℕ) → ltb_ℤ (pos (m + n)) (pos m) ≡ false
not_below m n = ground arith

candidate_coinbase-is_coinbase :
    (params : Params) (height : ℕ) (script : Bytes) (fees : ℤ)
    → is_coinbase (candidate_coinbase params height script fees) ≡ true
unfolding candidate_coinbase
candidate_coinbase-is_coinbase params height script fees = is_coinbase-new_coinbase_tx height _ _

candidate_coinbase-tx_out :
    (params : Params) (height f a b : ℕ) (script : Bytes)
    → calc_block_one_time_split (pos height) params ≡ (pos a, pos b)
    → a + f ≤ max_money
    → (candidate_coinbase params height script (pos f)).tx_out
      ≡ record { value = pos (a + f); pk_script = script }
        ∷ record { value = pos b; pk_script = params.project_payout_script }
        ∷ []
unfolding candidate_coinbase new_coinbase_tx
candidate_coinbase-tx_out params height f a b script split fits =
    simp (split, +ℤ-pos a f, wrap64-pos (a + f) fits)

module _ (c : Crypto) (params : Params) where
  pub connect_regular-any_coinbase :
      (height : ℕ) (txs : List MsgTx) (fees : ℤ) (view : UtxoSet) (r : ℤ × UtxoSet)
      → connect_regular c params height txs fees view ≡ ok r
      → any_coinbase c params txs ≡ false
  unfolding any_coinbase
  connect_regular-any_coinbase height [] fees view r h = refl
  connect_regular-any_coinbase height (tx ∷ txs) fees view r h =
      let (fee, next, plain, _, _, rest) =
        connect_regular_step c params height tx txs fees view r h in
      rw plain (connect_regular-any_coinbase height txs _ next r rest)

  -- Outputs that pay the shares, the fees with the miner's, pass the checks.
  check_coinbase_outputs-ok :
      (t : MsgTx) (height f a b : ℕ) (script : Bytes) (view : UtxoSet)
      → calc_block_one_time_split (pos height) params ≡ (pos a, pos b)
      → a + f + b ≤ max_money
      → check_coinbase_outputs c params t height
          (pos f)
          (pos (a + f + b))
          (record { value = pos (a + f); pk_script = script }
            ∷ record { value = pos b; pk_script = params.project_payout_script }
            ∷ [])
          view
          height
        ≡ ok (connect_tx_outputs c t view height true)
  unfolding check_coinbase_outputs
  check_coinbase_outputs-ok t height f a b script view split fits = simp (
    split,
    +ℤ-pos a f,
    wrap64-pos (a + f) (omega arith),
    +ℤ-pos (a + f) b,
    wrap64-pos (a + f + b) fits,
    not_below a f,
    not_below (a + f) b,
    same_ℤ (a + f),
    same_ℤ b,
    same_ℤ (a + f + b),
    bytes_eq_refl params.project_payout_script,
  )

  -- The coinbase of a candidate passes the checks on coinbases.
  pub candidate_coinbase-connects :
      (height f : ℕ) (script : Bytes) (txs : List MsgTx) (view : UtxoSet)
      → IsSchedule params
      → pos_part (calc_block_subsidy (pos height) params) + f ≤ max_money
      → any_coinbase c params txs ≡ false
      → let coinbase = candidate_coinbase params height script (pos f) in
        connect_coinbase c params (coinbase ∷ txs) height (pos f) view height
        ≡ ok (connect_tx_outputs c coinbase view height true)
  unfolding connect_coinbase validate_tx_outputs
  candidate_coinbase-connects height f script txs view s fits plain =
      let (a, b, split, subsidy, _) = split_shares s height in
      let fits' : a + f + b ≤ max_money = omega (arith, subsidy) in
      let sum = sum_two (a + f) b script params.project_payout_script fits' in
      let coinbase = candidate_coinbase params height script (pos f) in
      let checked = check_coinbase_outputs-ok coinbase height f a b script view split fits' in
      let marked = candidate_coinbase-is_coinbase params height script (pos f) in
      let outputs = candidate_coinbase-tx_out params height f a b script split (omega arith) in
      simp (marked, plain, outputs, sum, checked)
