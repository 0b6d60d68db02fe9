-- ===== src/Chain/Connect/Authorized.antt =====
-- Every input of an accepted transaction spends an output that was there, once, and with a
-- signature that its script accepts.
use pacd.Base.{
  ℕ, suc, ◌+◌, ◌%◌, ◌≡◌, ◌≢◌, refl, sym, ap, ◌∙◌, arith, Bool, false, ◌&&◌, ◌||◌, ltb, some, List,
  [], ◌∷◌, All, inl, inr, Bool-cases, if◌then◌else◌,
}
use pacd.Base.Int.{ℤ, pos}
use pacd.Base.Words.{u32_mod}
use pacd.Base.Result.{ok, ok_pair}
use pacd.Crypto.{Crypto}
use pacd.Wire.Tx.{OutPoint, TxIn, MsgTx}
use pacd.Chaincfg.{Params}
use pacd.Txscript.{verify_p2pkh_input}
use pacd.Chain.Utxo.{
  UtxoEntry, UtxoSet, lookup, erase, lookup-erase, out_point_eq, out_point_eq_sound,
}
use pacd.Chain.Connect.{connect_tx_outputs, spend_inputs, validate_and_connect_regular_tx}
use pacd.Chain.Connect.Supply.{spend_inputs_step, spend_inputs_nil, regular_tx_step}

lookup-erase-some :
    (j k : OutPoint) (m : UtxoSet) (e : UtxoEntry)
    → lookup k (erase j m) ≡ some e
    → lookup k m ≡ some e
unfolding lookup erase
lookup-erase-some j k [] e h = h
lookup-erase-some j k ((i, f) ∷ m) e h = ground (
  arith,
  lookup-erase-some j k m e,
  lookup-erase k m,
  out_point_eq_sound k i,
  out_point_eq_sound j i,
)

-- Whether an input names an outpoint, and the entries of a view that no input names.
abbrev is_named : List TxIn → OutPoint → Bool
is_named [] k = false
is_named (x ∷ xs) k = out_point_eq x.previous_out_point k || is_named xs k

abbrev pub unspent : List TxIn → UtxoSet → UtxoSet
unspent xs [] = []
unspent xs ((k, e) ∷ m) = if is_named xs k then unspent xs m else (k, e) ∷ unspent xs m

unspent-nil : (m : UtxoSet) → unspent [] m ≡ m
unspent-nil [] = refl
unspent-nil ((k, e) ∷ m) = ap (λ r. (k, e) ∷ r) (unspent-nil m)

unspent-erase :
    (x : TxIn) (xs : List TxIn) (m : UtxoSet)
    → unspent xs (erase x.previous_out_point m) ≡ unspent (x ∷ xs) m
unfolding erase
unspent-erase x xs [] = refl
unspent-erase x xs ((k, e) ∷ m) = elim (Bool-cases (out_point_eq x.previous_out_point k)) [
  | inl same ↦ rw same (unspent-erase x xs m)
  | inr other ↦ elim (Bool-cases (is_named xs k)) [
    | inl later ↦ rw (other, later) (unspent-erase x xs m)
    | inr never ↦ rw (other, never) (ap (λ r. (k, e) ∷ r) (unspent-erase x xs m))
  ]
]

module _ (c : Crypto) (params : Params) where
  -- Input `i` spends an entry of `view`.
  abbrev IsSpend : MsgTx → ℕ → UtxoSet → ℕ → TxIn → Type 0
  IsSpend tx height view i x =
      (e : UtxoEntry) × (lookup x.previous_out_point view ≡ some e)
      × ((e.coinbase && ltb height ((e.block_height + params.coinbase_maturity) % u32_mod)) ≡ false)
      × (verify_p2pkh_input c tx i e.tx_out.pk_script ≡ ok tt)

  -- Every input from `i` on does, and no two of them name the same output.
  abbrev pub Spends : MsgTx → ℕ → UtxoSet → ℕ → List TxIn → Type 0
  Spends tx height view i [] = Unit
  Spends tx height view i (x ∷ xs) =
      IsSpend tx height view i x
      × All (λ y. y.previous_out_point ≢ x.previous_out_point) xs
      × Spends tx height view (suc i) xs

  Spends-erase :
      (tx : MsgTx) (height : ℕ) (k : OutPoint) (view : UtxoSet) (i : ℕ) (xs : List TxIn)
      → Spends tx height (erase k view) i xs
      → Spends tx height view i xs × All (λ y. y.previous_out_point ≢ k) xs
  Spends-erase tx height k view i [] h = (tt, tt)
  Spends-erase tx height k view i (x ∷ xs) ((e, found, mature, verified), distinct, h) =
      let (h', all) = Spends-erase tx height k view (suc i) xs h in
      let other : x.previous_out_point ≢ k =
        λ same. absurd (cc (found, lookup-erase k view, same)) in
      (
        (
          (e, lookup-erase-some k x.previous_out_point view e found, mature, verified),
          distinct,
          h',
        ),
        (other, all),
      )

  spend_inputs-Spends :
      (tx : MsgTx) (height i : ℕ) (xs : List TxIn) (spent : List OutPoint) (n : ℤ) (view : UtxoSet)
      (t : ℤ) (left : UtxoSet)
      → spend_inputs c params tx height i xs spent n view ≡ ok (t, left)
      → Spends tx height view i xs × (left ≡ unspent xs view)
  spend_inputs-Spends tx height i [] spent n view t left h =
      let (_, same) = ok_pair (sym (spend_inputs_nil c params tx height i spent n view) ∙ h) in
      (tt, same ∙ sym (unspent-nil view))
  spend_inputs-Spends tx height i (x ∷ xs) spent n view t left h =
      let (prev, _, found, mature, verified, _, rest) =
        spend_inputs_step c params tx height i x xs spent n view (t, left) h in
      let (behind, same) = spend_inputs-Spends tx height (suc i) xs _ _ _ t left rest in
      let (later, distinct) = Spends-erase tx height x.previous_out_point view (suc i) xs behind in
      (((prev, found, mature, verified), distinct, later), same ∙ unspent-erase x xs view)

  -- An accepted transaction has inputs that all name different outputs of the view, each mature
  -- where a coinbase made it and each with a signature script that its output script accepts; the
  -- view afterwards is made of exactly the entries that no input names, with the transaction's
  -- outputs connected.
  pub regular_tx-Spends :
      (tx : MsgTx) (view : UtxoSet) (height : ℕ) (fee : ℤ) (view' : UtxoSet)
      → validate_and_connect_regular_tx c params tx view height ≡ ok (fee, view')
      → Spends tx height view 0 tx.tx_in
        × (view' ≡ connect_tx_outputs c tx (unspent tx.tx_in view) height false)
  regular_tx-Spends tx view height fee view' h =
      let (_, t, left, _, spent, _, _, after) =
        regular_tx_step c params tx view height fee view' h in
      let (spends, same) = spend_inputs-Spends tx height 0 tx.tx_in [] (pos 0) view t left spent in
      (spends, after ∙ ap (λ m. connect_tx_outputs c tx m height false) same)
