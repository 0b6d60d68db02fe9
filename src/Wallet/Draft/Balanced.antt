-- ===== src/Wallet/Draft/Balanced.antt =====
-- A draft spends what it selects: the outputs and the fee are worth the inputs.
use pacd.Base.{
  ℕ, ◌+◌, ◌-◌, ◌≤◌, ◌<◌, ◌≡◌, refl, sym, ap, ◌∙◌, arith, List, [], ◌∷◌, ◌++◌, append_assoc, Bytes,
  Option, none, some, All, inl, inr, Bool-cases,
}
use pacd.Base.Int.{ℤ, pos, pos_part, leb_ℤ, ltb_ℤ, ◌+ℤ◌, ◌-ℤ◌, +ℤ-pos, -ℤ-pos}
use pacd.Base.Words.{wrap64, wrap64_id}
use pacd.Base.Result.{ok, ok-injective, >>=-eq-ok, guard-eq-ok}
use pacd.Crypto.{Crypto}
use pacd.Wire.Tx.{TxIn, TxOut}
use pacd.Chaincfg.{Params}
use pacd.Chain.Connect.Money.{max_money}
use pacd.Address.Encoded.{decode_address_script}
use pacd.Wallet.{WalletUtxo, select_utxos}
use pacd.Wallet.Selection.{worth, HasValue, spendable, enough, short, select_utxos-Selects}
use pacd.Wire.Tx.{new_hash_from_bytes}
use pacd.Base.Result.{err, bad_hex}
use pacd.Wallet.Draft.{
  DraftTx, choose_change_addr, draft_input, draft_inputs, draft_outputs, finish_draft, build_draft,
  build_draft_tx,
}

-- The atoms that outputs carry.
abbrev pub paid : List TxOut → ℕ
paid [] = 0
paid (o ∷ os) = pos_part o.value + paid os

module _ (c : Crypto) (hex_decode : Bytes → Option Bytes) where
  -- An input spends one output of the wallet: its hash is what the text of the output's hash reads
  -- as, and its index is the output's.
  pub record SpendsUtxo (u : WalletUtxo) (x : TxIn) : Type 0 where
    pub hash_bytes : Bytes
    pub decoded : hex_decode u.tx_hash ≡ some hash_bytes
    pub hash : new_hash_from_bytes hash_bytes ≡ ok x.previous_out_point.hash
    pub index : x.previous_out_point.index ≡ u.vout
    pub unsigned : x.signature_script ≡ []

  -- The inputs spend the outputs, one each and in their order.
  abbrev pub SpendsAll : List WalletUtxo → List TxIn → Type 0
  SpendsAll [] [] = Unit
  SpendsAll [] (x ∷ xs) = ⊥
  SpendsAll (u ∷ us) [] = ⊥
  SpendsAll (u ∷ us) (x ∷ xs) = SpendsUtxo u x × SpendsAll us xs

  hash_text :
      (o : Option Bytes) (b : Bytes)
      → elim o [ none ↦ err bad_hex | some a ↦ ok a ] ≡ ok b
      → o ≡ some b
  hash_text none b e = cc
  hash_text (some a) b e = cc

  draft_input-SpendsUtxo :
      (u : WalletUtxo) (x : TxIn) → draft_input c hex_decode u ≡ ok x → SpendsUtxo u x
  unfolding draft_input
  draft_input-SpendsUtxo u x e =
      let (hash_bytes, e₁, e₂) =
        >>=-eq-ok (elim (hex_decode u.tx_hash) [ none ↦ err bad_hex | some b ↦ ok b ]) _ e in
      let (hash, e₃, e₄) = >>=-eq-ok (new_hash_from_bytes hash_bytes) _ e₂ in
      let made : TxIn = record {
        previous_out_point = record { hash = hash; index = u.vout };
        signature_script = [];
        sequence = 4294967295;
      } in
      let same : x ≡ made = ok-injective e₄ in
      let spends : SpendsUtxo u made = record {
        hash_bytes = hash_bytes;
        decoded = hash_text (hex_decode u.tx_hash) hash_bytes e₁;
        hash = e₃;
        index = refl;
        unsigned = refl;
      } in
      rw same spends

  draft_inputs-SpendsAll :
      (us : List WalletUtxo) (xs : List TxIn)
      → draft_inputs c hex_decode us ≡ ok xs
      → SpendsAll us xs
  unfolding draft_inputs
  draft_inputs-SpendsAll [] xs e = let same : xs ≡ [] = cc in rw same tt
  draft_inputs-SpendsAll (u ∷ us) xs e =
      let (x, e₁, e₂) = >>=-eq-ok (draft_input c hex_decode u) _ e in
      let (ys, e₃, e₄) = >>=-eq-ok (draft_inputs c hex_decode us) _ e₂ in
      let same : xs ≡ x ∷ ys = cc in
      rw same (draft_input-SpendsUtxo u x e₁, draft_inputs-SpendsAll us ys e₃)

  paid-draft_outputs :
      (a k : ℕ) (dest change : Bytes)
      → paid (draft_outputs c hex_decode (pos a) dest (pos k) change) ≡ a + k
  unfolding draft_outputs
  paid-draft_outputs a k dest change = ground arith

  -- The first output pays `a` to the script `dest`, and all others pay to the script `change`.
  abbrev pub Pays : ℕ → Bytes → Bytes → List TxOut → Type 0
  Pays a dest change [] = ⊥
  Pays a dest change (o ∷ os) =
      (o.value ≡ pos a) × (o.pk_script ≡ dest) × All (λ p. p.pk_script ≡ change) os

  draft_outputs-Pays :
      (a : ℕ) (k : ℤ) (dest change : Bytes)
      → Pays a dest change (draft_outputs c hex_decode (pos a) dest k change)
  unfolding draft_outputs
  draft_outputs-Pays a k dest change = elim (Bool-cases (ltb_ℤ (pos 0) k)) [
    | inl some_change ↦ rw some_change (refl, refl, (refl, tt))
    | inr none_left ↦ rw none_left (refl, refl, tt)
  ]

  -- The draft is made of what was selected, and nothing is lost but the fee.
  pub record IsBalanced (utxos : List WalletUtxo) (a f : ℕ) (dest change : Bytes) (d : DraftTx)
      : Type 0 where
    pub rest : List WalletUtxo
    pub first : spendable utxos ≡ d.selected ++ rest
    pub inputs : SpendsAll d.selected d.tx.tx_in
    pub outputs : Pays a dest change d.tx.tx_out
    pub total : d.input_total ≡ pos (worth d.selected)
    pub balance : paid d.tx.tx_out + f ≡ worth d.selected

  finish_draft-IsBalanced :
      (utxos selected rest : List WalletUtxo) (a f n w : ℕ) (dest change : Bytes) (d : DraftTx)
      → spendable utxos ≡ selected ++ rest
      → w ≡ worth selected
      → n ≡ a + f
      → n ≤ w
      → w ≤ max_money
      → finish_draft c hex_decode selected (pos w) (pos a) (pos f) (pos n) dest change ≡ ok d
      → IsBalanced utxos a f dest change d
  unfolding finish_draft
  finish_draft-IsBalanced utxos selected rest a f n w dest change d first wo ne low high e =
      let back : wrap64 (pos w -ℤ pos n) ≡ pos (w - n) =
        ap wrap64 (-ℤ-pos w n low) ∙ wrap64_id (pos (w - n)) (ground arith) in
      let (xs, e₁, e₂) = >>=-eq-ok (draft_inputs c hex_decode selected) _ e in
      let total : DraftTx = record {
        tx = record {
          version = pos 1;
          tx_in = xs;
          tx_out = draft_outputs c hex_decode (pos a) dest (wrap64 (pos w -ℤ pos n)) change;
          lock_time = 0;
        };
        selected = selected;
        input_total = pos w;
        output_total = wrap64 (pos a +ℤ wrap64 (pos w -ℤ pos n));
        fee = pos f;
        change = wrap64 (pos w -ℤ pos n);
      } in
      let same : d ≡ total = ok-injective e₂ in
      let outputs : paid total.tx.tx_out ≡ a + (w - n) =
        ap (λ z. paid (draft_outputs c hex_decode (pos a) dest z change)) back
        ∙ paid-draft_outputs a (w - n) dest change in
      let made : IsBalanced utxos a f dest change total = record {
        rest = rest;
        first = first;
        inputs = draft_inputs-SpendsAll selected xs e₁;
        outputs = draft_outputs-Pays a (wrap64 (pos w -ℤ pos n)) dest change;
        total = ap pos wo;
        balance = omega (arith, outputs, wo, ne, low);
      } in
      rw same made

  worth-spendable-le : (us : List WalletUtxo) → worth (spendable us) ≤ worth us
  unfolding spendable
  worth-spendable-le [] = omega arith
  worth-spendable-le (u ∷ us) = ground (arith, worth-spendable-le us)

  worth-front-le : (xs ys : List WalletUtxo) → worth xs ≤ worth (xs ++ ys)
  worth-front-le [] ys = omega arith
  worth-front-le (x ∷ xs) ys = omega (arith, worth-front-le xs ys)

  build_draft-IsBalanced :
      (utxos : List WalletUtxo) (a f : ℕ) (dest change : Bytes) (d : DraftTx)
      → 0 < a
      → a + f ≤ max_money
      → All HasValue utxos
      → worth utxos ≤ max_money
      → build_draft c hex_decode utxos (pos a) (pos f) dest change ≡ ok d
      → IsBalanced utxos a f dest change d
  unfolding build_draft
  build_draft-IsBalanced utxos a f dest change d ha fits hv bound e =
      let need : wrap64 (pos a +ℤ pos f) ≡ pos (a + f) =
        ap wrap64 (+ℤ-pos a f) ∙ wrap64_id (pos (a + f)) (ground arith) in
      let (_, e₁) = guard-eq-ok (ltb_ℤ (wrap64 (pos a +ℤ pos f)) (pos a)) _ _ e in
      let (r, e₂, e₃) = >>=-eq-ok (select_utxos utxos (wrap64 (pos a +ℤ pos f))) _ e₁ in
      let e₂' = ap (select_utxos utxos) (sym need) ∙ e₂ in
      elim (select_utxos-Selects utxos (a + f) (omega (arith, ha)) hv bound) [
        | short x _ ↦ absurd (ground arith)
        | enough front rest u whole x lt le ↦
            let selected = front ++ (u ∷ []) in
            let same : r ≡ (selected, pos (worth selected)) = ground arith in
            let split : spendable utxos ≡ selected ++ rest =
              whole ∙ sym (append_assoc front (u ∷ []) rest) in
            let high : worth selected ≤ max_money = omega (
              arith,
              worth-front-le selected rest,
              ap worth split,
              worth-spendable-le utxos,
              bound,
            ) in
            let e₄ : finish_draft c hex_decode selected (pos (worth selected)) (pos a) (pos f)
                  (pos (a + f)) dest change
                ≡ ok d =
              ap
                (λ z.
                  finish_draft c hex_decode selected (pos (worth selected)) (pos a) (pos f) z dest
                    change)
                (sym need)
              ∙ ap
                  (λ q.
                    finish_draft c hex_decode (q.0) (q.1) (pos a) (pos f) (wrap64 (pos a +ℤ pos f))
                      dest change)
                  (sym same)
              ∙ e₃ in
            finish_draft-IsBalanced utxos selected rest a f (a + f) (worth selected) dest change d
              split refl refl le high e₄
      ]

  -- A draft that `BuildDraftTx` makes is balanced: it selects the first outputs that may be spent,
  -- its inputs name these outputs, hash and index, one each and in their order, its first output pays
  -- the amount to the script of the destination, any other pays to the script of the chosen change
  -- address, its input total is what the selected outputs are worth, and its outputs and the fee are
  -- worth exactly that. The amount and the fee together are within int64, no value is negative, and
  -- all outputs of the wallet together are within int64.
  pub build_draft_tx-IsBalanced :
      (params : Params) (key_addrs : List Bytes) (utxos : List WalletUtxo) (destination : Bytes)
      (a f : ℕ) (change_addr : Bytes) (d : DraftTx)
      → a + f ≤ max_money
      → All HasValue utxos
      → worth utxos ≤ max_money
      → build_draft_tx c hex_decode params key_addrs utxos destination (pos a) (pos f) change_addr
        ≡ ok d
      → (to dest change : Bytes) × (choose_change_addr key_addrs change_addr ≡ ok to)
        × (decode_address_script c params destination ≡ ok dest)
        × (decode_address_script c params to ≡ ok change)
        × IsBalanced utxos a f dest change d
  unfolding build_draft_tx
  build_draft_tx-IsBalanced params key_addrs utxos destination a f change_addr d fits hv bound e =
      let (some_amount, e₁) = guard-eq-ok (leb_ℤ (pos a) (pos 0)) _ _ e in
      let (_, e₂) = guard-eq-ok (ltb_ℤ (pos f) (pos 0)) _ _ e₁ in
      let (to, chosen, e₃) = >>=-eq-ok (choose_change_addr key_addrs change_addr) _ e₂ in
      let (dest, paid_to, e₄) = >>=-eq-ok (decode_address_script c params destination) _ e₃ in
      let (change, back_to, e₅) = >>=-eq-ok (decode_address_script c params to) _ e₄ in
      let balanced =
        build_draft-IsBalanced utxos a f dest change d (ground arith) fits hv bound e₅ in
      (to, dest, change, chosen, paid_to, back_to, balanced)
