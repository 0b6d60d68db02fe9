-- ===== src/Wallet/Draft.antt =====
-- internal/wallet/txbuilder.go: `BuildDraftTx`. Package hex is a parameter.
pub mod Balanced
use pacd.Base.{
  ℕ, Bool, true, false, Option, none, some, List, [], ◌∷◌, ◌++◌, Bytes, length, ◌==◌, if◌then◌else◌,
}
use pacd.Base.Int.{ℤ, pos, ltb_ℤ, leb_ℤ, ◌+ℤ◌, ◌-ℤ◌}
use pacd.Base.Words.{wrap64}
use pacd.Base.Result.{
  Result, ok, err, reject_if, ◌>>=◌, ◌>>◌, bad_amount, bad_fee, no_change_address, amount_overflow,
  bad_hex,
}
use pacd.Crypto.{Crypto}
use pacd.Wire.Tx.{Hash, OutPoint, TxIn, TxOut, MsgTx, new_hash_from_bytes}
use pacd.Chaincfg.{Params}
use pacd.Address.Encoded.{decode_address_script}
use pacd.Wallet.{WalletUtxo, select_utxos}

-- `DraftTx`, without the two addresses that it repeats.
pub record DraftTx : Type 0 where
  pub tx : MsgTx
  pub selected : List WalletUtxo
  pub input_total : ℤ
  pub output_total : ℤ
  pub fee : ℤ
  pub change : ℤ

-- The change address that is given, or that of the wallet's first key.
unfoldable pub choose_change_addr : List Bytes → Bytes → Result Bytes
choose_change_addr key_addrs change_addr =
    if length change_addr == 0
    then elim key_addrs [ [] ↦ err no_change_address | a ∷ _ ↦ ok a ]
    else ok change_addr

module _ (c : Crypto) (hex_decode : Bytes → Option Bytes) where
  unfoldable pub draft_input : WalletUtxo → Result TxIn
  draft_input u = do
    hash_bytes ← elim (hex_decode u.tx_hash) [ none ↦ err bad_hex | some b ↦ ok b ]
    hash ← new_hash_from_bytes hash_bytes
    let point : OutPoint = record { hash = hash; index = u.vout }
    ok (record { previous_out_point = point; signature_script = []; sequence = 4294967295 })

  unfoldable pub draft_inputs : List WalletUtxo → Result (List TxIn)
  unfolding draft_input
  draft_inputs [] = ok []
  draft_inputs (u ∷ us) = do x ← draft_input u; xs ← draft_inputs us; ok (x ∷ xs)

  -- The payment, and the change if there is any.
  unfoldable pub draft_outputs : ℤ → Bytes → ℤ → Bytes → List TxOut
  draft_outputs amount dest_script change change_script =
      let payment : TxOut = record { value = amount; pk_script = dest_script } in
      let rest : TxOut = record { value = change; pk_script = change_script } in
      if ltb_ℤ (pos 0) change then payment ∷ rest ∷ [] else payment ∷ []

  -- The draft from what was selected for `need`.
  unfoldable pub finish_draft : List WalletUtxo → ℤ → ℤ → ℤ → ℤ → Bytes → Bytes → Result DraftTx
  unfolding draft_inputs draft_outputs
  finish_draft selected input_total amount fee need dest_script change_script = do
    let change = wrap64 (input_total -ℤ need)
    inputs ← draft_inputs selected
    let tx : MsgTx = record {
      version = pos 1;
      tx_in = inputs;
      tx_out = draft_outputs amount dest_script change change_script;
      lock_time = 0;
    }
    ok (record {
      tx = tx;
      selected = selected;
      input_total = input_total;
      output_total = wrap64 (amount +ℤ change);
      fee = fee;
      change = change;
    })

  -- The part behind the two scripts.
  unfoldable pub build_draft : List WalletUtxo → ℤ → ℤ → Bytes → Bytes → Result DraftTx
  unfolding finish_draft
  build_draft utxos amount fee dest_script change_script = do
    let need = wrap64 (amount +ℤ fee)
    reject_if (ltb_ℤ need amount) amount_overflow
    (selected, input_total) ← select_utxos utxos need
    finish_draft selected input_total amount fee need dest_script change_script

  unfoldable pub build_draft_tx :
      Params → List Bytes → List WalletUtxo → Bytes → ℤ → ℤ → Bytes → Result DraftTx
  unfolding build_draft choose_change_addr
  build_draft_tx params key_addrs utxos destination amount fee change_addr = do
    reject_if (leb_ℤ amount (pos 0)) bad_amount
    reject_if (ltb_ℤ fee (pos 0)) bad_fee
    change_to ← choose_change_addr key_addrs change_addr
    dest_script ← decode_address_script c params destination
    change_script ← decode_address_script c params change_to
    build_draft utxos amount fee dest_script change_script
