-- ===== src/Wallet.antt =====
-- internal/wallet/txbuilder.go and balance.go: which outputs a draft spends.
pub mod Selection
pub mod Draft
use pacd.Base.{ℕ, ◌+◌, ◌%◌, Bool, true, false, not, List, [], ◌∷◌, ◌++◌, Bytes, leb, if◌then◌else◌}
use pacd.Base.Int.{ℤ, pos, leb_ℤ, ◌+ℤ◌}
use pacd.Base.Words.{u32_mod, wrap64}
use pacd.Base.Result.{Result, ok, err, insufficient_funds}
use pacd.Chaincfg.{Params}

-- `UTXO`; its texts are their bytes.
pub record WalletUtxo : Type 0 where
  pub address : Bytes
  pub tx_hash : Bytes
  pub vout : ℕ
  pub value : ℤ
  pub height : ℕ
  pub coinbase : Bool
  pub mature : Bool
  pub pending : Bool

unfoldable pub is_mature : Params → Bool → ℕ → ℕ → Bool
is_mature params coinbase height tip_height =
    if not coinbase
    then true
    else leb ((height + params.coinbase_maturity) % u32_mod) ((tip_height + 1) % u32_mod)

unfoldable pub is_spendable_utxo : WalletUtxo → Bool
is_spendable_utxo u = if u.pending then false else if u.coinbase then u.mature else true

-- The loop of `selectUTXOs`, with the outputs selected so far and their sum.
unfoldable pub select_loop :
    ℤ → List WalletUtxo → ℤ → List WalletUtxo → Result (List WalletUtxo × ℤ)
unfolding is_spendable_utxo
select_loop need selected total [] = err insufficient_funds
select_loop need selected total (u ∷ us) =
    let next = wrap64 (total +ℤ u.value) in
    let more = select_loop need (selected ++ (u ∷ [])) next us in
    let skip = select_loop need selected total us in
    if not (is_spendable_utxo u)
    then skip
    else if leb_ℤ need next
    then ok (selected ++ (u ∷ []), next)
    else more

unfoldable pub select_utxos : List WalletUtxo → ℤ → Result (List WalletUtxo × ℤ)
unfolding select_loop
select_utxos utxos need = select_loop need [] (pos 0) utxos
