-- ===== src/Wallet/Selection.antt =====
-- What `selectUTXOs` promises, and that the chain spends what the wallet takes for mature.
use pacd.Base.{
  ℕ, ◌+◌, ◌%◌, ◌≤◌, ◌<◌, ◌≡◌, refl, sym, ap, ◌∙◌, arith, Bool, true, false, not, ◌&&◌, List, [],
  ◌∷◌, ◌++◌, append_assoc, append-nil, ltb, if◌then◌else◌, inl, inr, Bool-cases, All,
}
use pacd.Base.Int.{ℤ, pos, pos_part, leb_ℤ, ◌+ℤ◌, ◌≤ℤ◌, +ℤ-pos, nonneg_cases}
use pacd.Base.Words.{u32_mod, wrap64, wrap64_id}
use pacd.Base.Result.{Result, ok, err, insufficient_funds}
use pacd.Chaincfg.{Params}
use pacd.Chain.Connect.Money.{max_money}
use pacd.Wallet.{WalletUtxo, is_mature, is_spendable_utxo, select_loop, select_utxos}

-- The outputs that may be spent, in their order.
unfoldable pub spendable : List WalletUtxo → List WalletUtxo
spendable [] = []
spendable (u ∷ us) = if is_spendable_utxo u then u ∷ spendable us else spendable us

-- The atoms of a list of outputs.
abbrev pub worth : List WalletUtxo → ℕ
worth [] = 0
worth (u ∷ us) = pos_part u.value + worth us

-- A value that is not negative.
abbrev pub HasValue : WalletUtxo → Type 0
HasValue u = pos 0 ≤ℤ u.value

worth-append : (us vs : List WalletUtxo) → worth (us ++ vs) ≡ worth us + worth vs
worth-append [] vs = omega arith
worth-append (u ∷ us) vs = omega (arith, worth-append us vs)

-- The answer for a list of candidates: the shortest part of it from the front that is worth enough,
-- or that all of it is not.
pub data Selects (candidates : List WalletUtxo) (need : ℕ) (r : Result (List WalletUtxo × ℤ))
    : Type 0 where
  enough :
      (front rest : List WalletUtxo) (u : WalletUtxo)
      → candidates ≡ front ++ (u ∷ rest)
      → r ≡ ok (front ++ (u ∷ []), pos (worth (front ++ (u ∷ []))))
      → worth front < need
      → need ≤ worth (front ++ (u ∷ []))
      → Selects candidates need r
  short : r ≡ err insufficient_funds → worth candidates < need → Selects candidates need r

next_total :
    (t : ℕ) (u : WalletUtxo)
    → HasValue u
    → t + pos_part u.value ≤ max_money
    → wrap64 (pos t +ℤ u.value) ≡ pos (t + pos_part u.value)
next_total t u h few =
    let (v, same) = nonneg_cases u.value h in
    let few' : t + v ≤ max_money = ground arith in
    rw same (rw (+ℤ-pos t v) (wrap64_id (pos (t + v)) (ground arith)))

select_loop-Selects :
    (need : ℕ) (selected us : List WalletUtxo)
    → worth selected < need
    → All HasValue us
    → worth selected + worth us ≤ max_money
    → Selects
        (selected ++ spendable us)
        need
        (select_loop (pos need) selected (pos (worth selected)) us)
unfolding select_loop spendable
select_loop-Selects need selected [] few h bound = short refl (rw (append-nil selected) few)
select_loop-Selects need selected (u ∷ us) few (v, h) bound =
    let one : worth (selected ++ (u ∷ [])) ≡ worth selected + pos_part u.value =
      omega (arith, worth-append selected (u ∷ [])) in
    let next : wrap64 (pos (worth selected) +ℤ u.value) ≡ pos (worth (selected ++ (u ∷ []))) =
      next_total (worth selected) u v (omega (arith, bound)) ∙ ap pos (sym one) in
    elim (Bool-cases (is_spendable_utxo u)) [
      | inr locked ↦ rw locked (select_loop-Selects need selected us few h (omega (arith, bound)))
      | inl free ↦ elim (Bool-cases (leb_ℤ (pos need) (pos (worth (selected ++ (u ∷ [])))))) [
        | inl done ↦
            rw (free, next, done) (enough selected (spendable us) u refl refl few (ground arith))
        | inr more ↦
            let again =
              select_loop-Selects need (selected ++ (u ∷ [])) us (ground arith) h
                (omega (arith, bound, one)) in
            rw (free, next, more) (rw (append_assoc selected (u ∷ []) (spendable us)) at again)
      ]
    ]

-- Where something is needed, no value is negative and all of them together are within int64,
-- `selectUTXOs` takes the outputs that may be spent in their order, until they are worth what is
-- needed and no longer, and adds up what it takes; it fails only if all of them are not worth that.
pub select_utxos-Selects :
    (utxos : List WalletUtxo) (need : ℕ)
    → 0 < need
    → All HasValue utxos
    → worth utxos ≤ max_money
    → Selects (spendable utxos) need (select_utxos utxos (pos need))
unfolding select_utxos
select_utxos-Selects utxos need some_need h bound =
    select_loop-Selects need [] utxos some_need h (omega (arith, bound))

-- The wallet takes an output for mature at a tip exactly if a transaction in the next block may
-- spend it by the chain's rule.
pub is_mature-connect :
    (params : Params) (coinbase : Bool) (height tip_height : ℕ)
    → is_mature params coinbase height tip_height
      ≡ not (
          coinbase
          && ltb ((tip_height + 1) % u32_mod) ((height + params.coinbase_maturity) % u32_mod))
unfolding is_mature
is_mature-connect params true height tip_height = ground arith
is_mature-connect params false height tip_height = refl
