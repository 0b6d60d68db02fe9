-- ===== src/Chain/Connect/Money.antt =====
-- Sums of int64 values behind their overflow guards, and what outputs add to a view.
use pacd.Base.{
  ℕ, suc, ◌+◌, ◌-◌, ◌≤◌, ◌≡◌, ap, arith, Bool, false, List, [], ◌∷◌, Bool-cases, inl, inr, All,
}
use pacd.Base.Int.{ℤ, pos, negsuc, pos_part, ◌+ℤ◌, ◌-ℤ◌, ltb_ℤ, eqb_ℤ, +ℤ-pos, -ℤ-pos}
use pacd.Base.Words.{wrap64, wrap64-pos, max_int64, IsInt64}
use pacd.Base.Result.{ok, guard-eq-ok}
use pacd.Wire.Tx.{Hash, TxOut, MsgTx}
use pacd.Chain.Utxo.{UtxoSet, amount, total, IsMoney, HasMoney, total-insert, insert-HasMoney}
use pacd.Chain.Connect.{sum_outputs, validate_tx_outputs, connect_output, connect_outputs}

-- Go's type of `TxOut.Value`.
abbrev pub IsOutput : TxOut → Type 0
IsOutput o = IsInt64 o.value

abbrev pub outputs_total : List TxOut → ℕ
outputs_total [] = 0
outputs_total (o ∷ outs) = amount o + outputs_total outs

abbrev pub max_money : ℕ
max_money = 9223372036854775807

-- The guard against overflow, read off: the sum that follows is exact.
pub guarded_sum :
    (n v : ℕ)
    → v ≤ max_money
    → ltb_ℤ (wrap64 (max_int64 -ℤ pos v)) (pos n) ≡ false
    → (n + v ≤ max_money) × (wrap64 (pos n +ℤ pos v) ≡ pos (n + v))
guarded_sum n v hv h =
    let fits : n + v ≤ max_money =
      ground (arith, -ℤ-pos max_money v hv, wrap64-pos (max_money - v) (omega arith)) in
    (fits, rw (+ℤ-pos n v) (wrap64-pos (n + v) fits))

-- The two tests that a value passes before it is added.
pub value_step :
    (n : ℕ) (z : ℤ)
    → IsInt64 z
    → ltb_ℤ z (pos 0) ≡ false
    → ltb_ℤ (wrap64 (max_int64 -ℤ z)) (pos n) ≡ false
    → (n + pos_part z ≤ max_money) × (wrap64 (pos n +ℤ z) ≡ pos (n + pos_part z)) × IsMoney z
value_step n (pos v) range low high =
    let (fits, exact) = guarded_sum n v (omega arith) high in (fits, exact, omega arith)
value_step n (negsuc v) range low high = ground arith

sum_outputs-exact :
    (outs : List TxOut) (n : ℕ) (t : ℤ)
    → n ≤ max_money
    → All IsOutput outs
    → sum_outputs (pos n) outs ≡ ok t
    → (t ≡ pos (n + outputs_total outs))
      × (n + outputs_total outs ≤ max_money)
      × All (λ o. IsMoney o.value) outs
unfolding sum_outputs
sum_outputs-exact [] n t hn hs h = (ground arith, omega arith, tt)
sum_outputs-exact (o ∷ outs) n t hn hs h =
    let (low, h₁) = guard-eq-ok _ _ _ h in
    let (high, h₂) = guard-eq-ok _ _ _ h₁ in
    let (fits, exact, money) = value_step n o.value hs.0 low high in
    let (sum, bound, all) = sum_outputs-exact outs (n + amount o) t fits hs.1 (rw exact at h₂) in
    (rw sum (ap pos (omega arith)), omega arith, (money, all))

pub validate_tx_outputs-exact :
    (tx : MsgTx) (t : ℤ)
    → All IsOutput tx.tx_out
    → validate_tx_outputs tx ≡ ok t
    → (t ≡ pos (outputs_total tx.tx_out))
      × (outputs_total tx.tx_out ≤ max_money)
      × All (λ o. IsMoney o.value) tx.tx_out
unfolding validate_tx_outputs
validate_tx_outputs-exact tx t hs h =
    let (sum, bound, money) = sum_outputs-exact tx.tx_out 0 t (omega arith) hs (ground arith) in
    (rw sum (ap pos (omega arith)), omega arith, money)

connect_output-money :
    (hash : Hash) (height : ℕ) (coinbase : Bool) (i : ℕ) (o : TxOut) (view : UtxoSet)
    → IsMoney o.value
    → All HasMoney view
    → (total (connect_output hash height coinbase i o view) ≤ amount o + total view)
      × All HasMoney (connect_output hash height coinbase i o view)
unfolding connect_output
connect_output-money hash height coinbase i o view ho hv =
    elim (Bool-cases (eqb_ℤ o.value (pos 0))) [
      | inl e ↦ rw e (omega arith, hv)
      | inr e ↦ rw e (total-insert _ _ view, insert-HasMoney _ _ view ho hv)
    ]

-- Connecting outputs adds at most their values.
pub connect_outputs-money :
    (hash : Hash) (height : ℕ) (coinbase : Bool) (i : ℕ) (outs : List TxOut) (view : UtxoSet)
    → All (λ o. IsMoney o.value) outs
    → All HasMoney view
    → (total (connect_outputs hash height coinbase i outs view) ≤ outputs_total outs + total view)
      × All HasMoney (connect_outputs hash height coinbase i outs view)
unfolding connect_outputs
connect_outputs-money hash height coinbase i [] view hs hv = (omega arith, hv)
connect_outputs-money hash height coinbase i (o ∷ outs) view (ho, hs) hv =
    let (le, money) = connect_output-money hash height coinbase i o view ho hv in
    let (le', money') = connect_outputs-money hash height coinbase (suc i) outs _ hs money in
    (omega arith, money')
