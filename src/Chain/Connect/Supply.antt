-- ===== src/Chain/Connect/Supply.antt =====
-- Transactions create no money: what a block adds to the unspent outputs is at most its subsidy.
use pacd.Base.{
  ℕ, suc, ◌+◌, ◌-◌, ◌≤◌, ◌≡◌, refl, sym, ◌∙◌, arith, Bool, false, ◌&&◌, ltb, ◌%◌, List, [], ◌∷◌,
  inl, inr, Option-cases, All, some,
}
use pacd.Base.Int.{ℤ, pos, ◌+ℤ◌, ◌-ℤ◌, ltb_ℤ, -ℤ-pos}
use pacd.Txscript.{verify_p2pkh_input}
use pacd.Base.Words.{u32_mod, wrap64, wrap64-pos, max_int64}
use pacd.Base.Result.{ok, outcome, is_ok, is_err, is_panic, ok_pair}
use pacd.Crypto.{Crypto}
use pacd.Wire.Tx.{TxIn, MsgTx, OutPoint, is_coinbase}
use pacd.Chaincfg.{Params}
use pacd.Chain.Utxo.{
  UtxoSet, UtxoEntry, amount, total, IsMoney, HasMoney, erase, lookup, contains, total-erase,
  erase-HasMoney, lookup-HasMoney,
}
use pacd.Chain.Connect.Money.{
  max_money, IsOutput, outputs_total, guarded_sum, value_step, validate_tx_outputs-exact,
  connect_outputs-money,
}
use pacd.Chain.Connect.{
  validate_tx_outputs, connect_tx_outputs, spend_inputs, validate_and_connect_regular_tx,
  connect_regular, validate_regular_transactions,
}

module _ (c : Crypto) where
  pub connect_tx_outputs-money :
      (tx : MsgTx) (view : UtxoSet) (height : ℕ) (coinbase : Bool)
      → All (λ o. IsMoney o.value) tx.tx_out
      → All HasMoney view
      → (total (connect_tx_outputs c tx view height coinbase)
          ≤ outputs_total tx.tx_out + total view)
        × All HasMoney (connect_tx_outputs c tx view height coinbase)
  unfolding connect_tx_outputs
  connect_tx_outputs-money tx view height coinbase =
      connect_outputs-money _ height coinbase 0 tx.tx_out view

  module _ (params : Params) where
    -- One round over the inputs that did not stop the loop.
    pub spend_inputs_step :
        (tx : MsgTx) (height i : ℕ) (x : TxIn) (xs : List TxIn) (spent : List OutPoint) (n : ℤ)
        (view : UtxoSet) (r : ℤ × UtxoSet)
        → spend_inputs c params tx height i (x ∷ xs) spent n view ≡ ok r
        → let point = x.previous_out_point in
          (prev : UtxoEntry) × (contains point spent ≡ false)
          × (lookup point view ≡ some prev)
          × ((prev.coinbase
                && ltb height ((prev.block_height + params.coinbase_maturity) % u32_mod))
              ≡ false)
          × (verify_p2pkh_input c tx i prev.tx_out.pk_script ≡ ok tt)
          × (ltb_ℤ (wrap64 (max_int64 -ℤ prev.tx_out.value)) n ≡ false)
          × (spend_inputs c params tx height
                (suc i)
                xs
                (point ∷ spent)
                (wrap64 (n +ℤ prev.tx_out.value))
                (erase point view)
              ≡ ok r)
    unfolding spend_inputs
    spend_inputs_step tx height i x xs spent n view r h =
        elim (Option-cases (lookup x.previous_out_point view)) [
          | inl e ↦ absurd (ground arith)
          | inr (prev, e) ↦
              (prev, ground arith, e, ground arith, ground arith, ground arith, ground arith)
        ]

    pub spend_inputs_nil :
        (tx : MsgTx) (height i : ℕ) (spent : List OutPoint) (n : ℤ) (view : UtxoSet)
        → spend_inputs c params tx height i [] spent n view ≡ ok (n, view)
    unfolding spend_inputs
    spend_inputs_nil tx height i spent n view = refl

    -- Spending inputs moves their value from the view into the sum.
    spend_inputs-money :
        (tx : MsgTx) (height i : ℕ) (xs : List TxIn) (spent : List OutPoint) (n : ℕ)
        (view : UtxoSet) (t : ℤ) (view' : UtxoSet)
        → n ≤ max_money
        → All HasMoney view
        → spend_inputs c params tx height i xs spent (pos n) view ≡ ok (t, view')
        → (m : ℕ) × (t ≡ pos m)
          × (m ≤ max_money)
          × (m + total view' ≤ n + total view)
          × All HasMoney view'
    spend_inputs-money tx height i [] spent n view t view' hn hv h =
        let (same_t, same_view) =
          ok_pair (sym (spend_inputs_nil tx height i spent (pos n) view) ∙ h) in
        (n, same_t, hn, rw same_view (omega arith), rw same_view hv)
    spend_inputs-money tx height i (x ∷ xs) spent n view t view' hn hv h =
        let (prev, fresh, found, mature, verified, high, rest) =
          spend_inputs_step tx height i x xs spent (pos n) view (t, view') h in
        let money = lookup-HasMoney x.previous_out_point view prev hv found in
        let (fits, exact, _) =
          value_step n prev.tx_out.value (omega (arith, money)) (ground (arith, money)) high in
        let (m, e, le, conserved, all) =
          spend_inputs-money tx height (suc i) xs _ (n + amount prev.tx_out) _ t view' fits
            (erase-HasMoney x.previous_out_point view hv) (rw exact at rest) in
        (m, e, le, omega (arith, conserved, total-erase x.previous_out_point view prev found), all)

    -- The parts of a transaction that was accepted.
    pub regular_tx_step :
        (tx : MsgTx) (view : UtxoSet) (height : ℕ) (fee : ℤ) (view' : UtxoSet)
        → validate_and_connect_regular_tx c params tx view height ≡ ok (fee, view')
        → (out_sum in_sum : ℤ) × (left : UtxoSet) × (validate_tx_outputs tx ≡ ok out_sum)
          × (spend_inputs c params tx height 0 tx.tx_in [] (pos 0) view ≡ ok (in_sum, left))
          × (ltb_ℤ in_sum out_sum ≡ false)
          × (fee ≡ wrap64 (in_sum -ℤ out_sum))
          × (view' ≡ connect_tx_outputs c tx left height false)
    unfolding validate_and_connect_regular_tx
    regular_tx_step tx view height fee view' h = elim (outcome (validate_tx_outputs tx)) [
      | is_ok o eo ↦ elim (outcome (spend_inputs c params tx height 0 tx.tx_in [] (pos 0) view)) [
        | is_ok (s, left) es ↦ (o, s, left, eo, es, ground arith, ground arith, ground arith)
        | is_err x e ↦ absurd (ground arith)
        | is_panic e ↦ absurd (ground arith)
      ]
      | is_err x e ↦ absurd (ground arith)
      | is_panic e ↦ absurd (ground arith)
    ]

    -- A transaction pays its fee out of the view.
    regular_tx-money :
        (tx : MsgTx) (view : UtxoSet) (height : ℕ) (fee : ℤ) (view' : UtxoSet)
        → All IsOutput tx.tx_out
        → All HasMoney view
        → validate_and_connect_regular_tx c params tx view height ≡ ok (fee, view')
        → (f : ℕ) × (fee ≡ pos f)
          × (f ≤ max_money)
          × (f + total view' ≤ total view)
          × All HasMoney view'
    regular_tx-money tx view height fee view' ho hv h =
        let (o, s, left, eo, es, enough, fee_eq, view_eq) =
          regular_tx_step tx view height fee view' h in
        let (sum, bound, money) = validate_tx_outputs-exact tx o ho eo in
        let (m, em, hm, conserved, all) =
          spend_inputs-money tx height 0 _ [] 0 view s left (omega arith) hv es in
        let (added, all') = connect_tx_outputs-money tx left height false money all in
        let paid : outputs_total tx.tx_out ≤ m = ground (arith, sum, em, enough) in
        (
          m - outputs_total tx.tx_out,
          rw (fee_eq, em, sum, -ℤ-pos m _ paid) (wrap64-pos _ (omega arith)),
          omega arith,
          rw view_eq (omega (arith, added, conserved)),
          rw view_eq all',
        )

    connect_regular_nil :
        (height : ℕ) (fees : ℤ) (view : UtxoSet)
        → connect_regular c params height [] fees view ≡ ok (fees, view)
    unfolding connect_regular
    connect_regular_nil height fees view = refl

    pub connect_regular_step :
        (height : ℕ) (tx : MsgTx) (txs : List MsgTx) (fees : ℤ) (view : UtxoSet) (r : ℤ × UtxoSet)
        → connect_regular c params height (tx ∷ txs) fees view ≡ ok r
        → (fee : ℤ) × (next : UtxoSet) × (is_coinbase tx ≡ false)
          × (validate_and_connect_regular_tx c params tx view height ≡ ok (fee, next))
          × (ltb_ℤ (wrap64 (max_int64 -ℤ fee)) fees ≡ false)
          × (connect_regular c params height txs (wrap64 (fees +ℤ fee)) next ≡ ok r)
    unfolding connect_regular
    connect_regular_step height tx txs fees view r h =
        elim (outcome (validate_and_connect_regular_tx c params tx view height)) [
          | is_ok (fee, next) e ↦ (fee, next, ground arith, e, ground arith, ground arith)
          | is_err x e ↦ absurd (ground arith)
          | is_panic e ↦ absurd (ground arith)
        ]

    -- The fees of a row of transactions come out of the view.
    connect_regular-money :
        (height : ℕ) (txs : List MsgTx) (n : ℕ) (view : UtxoSet) (t : ℤ) (view' : UtxoSet)
        → n ≤ max_money
        → All (λ tx. All IsOutput tx.tx_out) txs
        → All HasMoney view
        → connect_regular c params height txs (pos n) view ≡ ok (t, view')
        → (m : ℕ) × (t ≡ pos m)
          × (m ≤ max_money)
          × (m + total view' ≤ n + total view)
          × All HasMoney view'
    connect_regular-money height [] n view t view' hn ho hv h =
        let (same_t, same_view) = ok_pair (sym (connect_regular_nil height (pos n) view) ∙ h) in
        (n, same_t, hn, rw same_view (omega arith), rw same_view hv)
    connect_regular-money height (tx ∷ txs) n view t view' hn ho hv h =
        let (fee, next, _, valid, high, rest) =
          connect_regular_step height tx txs (pos n) view (t, view') h in
        let (f, ef, hf, paid, all) = regular_tx-money tx view height fee next ho.0 hv valid in
        let (fits, exact) = guarded_sum n f hf (rw ef at high) in
        let (m, e, le, conserved, all') =
          connect_regular-money height txs (n + f) next t view' fits ho.1 all
            (rw (ef, exact) at rest) in
        (m, e, le, omega (arith, conserved, paid), all')

    -- Regular transactions that are accepted on a view without negative values, and whose outputs have
    -- int64 values, have fees that are an amount of int64; the fees and the view afterwards are worth
    -- at most what the view was worth, and no value in the view afterwards is negative.
    pub regular_transactions-money :
        (txs : List MsgTx) (view : UtxoSet) (height : ℕ) (fees : ℤ) (view' : UtxoSet)
        → All (λ tx. All IsOutput tx.tx_out) txs
        → All HasMoney view
        → validate_regular_transactions c params txs view height ≡ ok (fees, view')
        → (m : ℕ) × (fees ≡ pos m)
          × (m ≤ max_money)
          × (m + total view' ≤ total view)
          × All HasMoney view'
    unfolding validate_regular_transactions
    regular_transactions-money txs view height fees view' ho hv h =
        let (m, e, le, conserved, all) =
          connect_regular-money height txs 0 view fees view' (omega arith) ho hv h in
        (m, e, le, omega (arith, conserved), all)
