-- ===== src/Chain/State/Invariant.antt =====
-- What holds of every chain that `AddBlock` and `AddStoredBlock` build.
use pacd.Base.{
  ℕ, ◌+◌, ◌%◌, ◌≤◌, ◌≡◌, refl, sym, ap, ◌∙◌, arith, Bool, true, false, not, List, [], ◌∷◌, ◌++◌,
  All, All-append, ◌==◌, bytes_eq_sound, last_or,
}
use pacd.Base.Int.{ℤ, pos, pos_part, ◌<ℤ◌, ltb_ℤ, ◌*ℤ◌}
use pacd.Base.Words.{u32_mod}
use pacd.Base.Result.{ok, outcome, is_ok, is_err, is_panic}
use pacd.Crypto.{Crypto}
use pacd.Wire.Tx.{MsgTx}
use pacd.Wire.Block.{MsgBlock}
use pacd.Wire.Merkle.{calc_merkle_root}
use pacd.Chaincfg.{Params, unix, mining_open}
use pacd.Consensus.Subsidy.{calc_block_subsidy}
use pacd.Consensus.Subsidy.Schedule.{IsSchedule}
use pacd.Consensus.Asert.{calc_asert_next_bits}
use pacd.Consensus.Pow.{check_proof_of_work}
use pacd.Consensus.Timestamp.{check_block_timestamp}
use pacd.Chain.Utxo.{UtxoSet, total, HasMoney}
use pacd.Chain.Connect.{validate_regular_transactions, validate_and_connect_coinbase}
use pacd.Chain.Connect.Money.{IsOutput}
use pacd.Chain.Connect.Supply.{regular_transactions-money}
use pacd.Chain.Connect.Coinbase.{connect_coinbase-money}
use pacd.Chain.State.{
  Chain, Instants, new_chain, tip, chain_height, expected_bits, must_block_hash, check_timestamp,
  rest_of, validate_block, connect_block,
}

-- The atoms that the blocks of a list may have issued.
abbrev pub issued : Params → List MsgBlock → ℕ
issued params [] = 0
issued params (b ∷ bs) =
    let header = b.header in
    pos_part (calc_block_subsidy (pos header.height) params) + issued params bs

issued-append :
    (params : Params) (bs : List MsgBlock) (b : MsgBlock)
    → issued params (bs ++ (b ∷ [])) ≡ issued params bs + issued params (b ∷ [])
issued-append params [] b = omega arith
issued-append params (x ∷ bs) b = omega (arith, issued-append params bs b)

-- The values of Go's type int64 in all outputs of a block.
abbrev pub HasOutputs : MsgBlock → Type 0
HasOutputs b = All (λ tx. All IsOutput tx.tx_out) b.transactions

unix-ltb : (a b : ℤ) → ltb_ℤ (unix a) (unix b) ≡ true → a <ℤ b
unfolding unix ◌*ℤ◌
unix-ltb a b h = ground arith

not-false : (b : Bool) → not b ≡ false → b ≡ true
not-false true h = refl
not-false false h = cc

==-sound : (a b : ℕ) → (a == b) ≡ true → a ≡ b
==-sound a b h = ground arith

rest_outputs :
    (txs : List MsgTx)
    → All (λ tx. All IsOutput tx.tx_out) txs
    → All (λ tx. All IsOutput tx.tx_out) (rest_of txs)
rest_outputs [] h = tt
rest_outputs (tx ∷ txs) h = h.1

module _ (c : Crypto) where
  -- What one block says of the block before it, and of itself.
  pub record Follows (params : Params) (prev b : MsgBlock) : Type 0 where
    pub height : b.header.height ≡ (prev.header.height + 1) % u32_mod
    pub prev_block : must_block_hash c prev ≡ ok b.header.prev_block
    pub timestamp : prev.header.timestamp <ℤ b.header.timestamp
    pub bits :
        b.header.bits
        ≡ calc_asert_next_bits params.genesis_block.header.bits
            params.genesis_block.header.timestamp prev.header.timestamp
            (pos b.header.height)
            params
    pub merkle_root : b.header.merkle_root ≡ calc_merkle_root c.blake256 b.transactions
    pub work : check_proof_of_work c.blake256 b.header params ≡ ok tt

  abbrev pub Linked : Params → MsgBlock → List MsgBlock → Type 0
  Linked params b [] = Unit
  Linked params b (x ∷ xs) = Follows params b x × Linked params x xs

  Linked-append :
      (params : Params) (b : MsgBlock) (xs : List MsgBlock) (y : MsgBlock)
      → Linked params b xs
      → Follows params (last_or b xs) y
      → Linked params b (xs ++ (y ∷ []))
  Linked-append params b [] y h f = (f, tt)
  Linked-append params b (x ∷ xs) y (hx, h) f = (hx, Linked-append params x xs y h f)

  -- The chain begins with the genesis block, every block follows the one before it, no unspent
  -- output is negative, and all of them together are worth no more than was issued.
  pub record IsValid (ch : Chain) : Type 0 where
    pub rest : List MsgBlock
    pub starts : ch.blocks ≡ ch.params.genesis_block ∷ rest
    pub linked : Linked ch.params ch.params.genesis_block rest
    pub outputs : All HasOutputs ch.blocks
    pub money : All HasMoney ch.utxos
    pub supply : total ch.utxos ≤ issued ch.params ch.blocks

  check_timestamp-lt :
      (ch : Chain) (b : MsgBlock) (enforce : Bool) (now : ℤ)
      → check_timestamp c ch b enforce now ≡ ok tt
      → (tip ch).header.timestamp <ℤ b.header.timestamp
  unfolding check_timestamp check_block_timestamp
  check_timestamp-lt ch b true now h =
      unix-ltb (tip ch).header.timestamp b.header.timestamp (ground arith)
  check_timestamp-lt ch b false now h = ground arith

  same_bits :
      (ch : Chain) (b : MsgBlock)
      → b.header.height ≡ (chain_height ch + 1) % u32_mod
      → b.header.bits ≡ expected_bits ch ((chain_height ch + 1) % u32_mod)
      → b.header.bits
        ≡ calc_asert_next_bits ch.params.genesis_block.header.bits
            ch.params.genesis_block.header.timestamp
            (tip ch).header.timestamp
            (pos b.header.height)
            ch.params
  unfolding expected_bits
  same_bits ch b height bits = rw height bits

  -- The parts of a block that was accepted.
  pub validate_block_step :
      (ch : Chain) (b : MsgBlock) (enforce : Bool) (now : Instants) (utxos : UtxoSet)
      → validate_block c ch b enforce now ≡ ok utxos
      → let expected = (chain_height ch + 1) % u32_mod in
        (fees : ℤ) × (view : UtxoSet) × Follows ch.params (tip ch) b
        × (b.header.bits ≡ expected_bits ch expected)
        × (mining_open ch.params now.at_opening ≡ true)
        × (validate_regular_transactions c ch.params (rest_of b.transactions) ch.utxos expected
            ≡ ok (fees, view))
        × (validate_and_connect_coinbase c ch.params b fees view expected ≡ ok utxos)
  unfolding validate_block chain_height
  validate_block_step ch b enforce now utxos h = elim (outcome (must_block_hash c (tip ch))) [
    | is_ok hash e₁ ↦ elim (outcome (check_timestamp c ch b enforce now.at_timestamp)) [
      | is_ok u e₂ ↦ elim (outcome (check_proof_of_work c.blake256 b.header ch.params)) [
        | is_ok u' e₃ ↦
            elim (outcome (
              validate_regular_transactions c ch.params (rest_of b.transactions) ch.utxos
                ((chain_height ch + 1) % u32_mod))) [
                  | is_ok r e₄ ↦ (
                    r.0,
                    r.1,
                    record {
                      height = ==-sound _ _ (not-false _ (ground arith));
                      prev_block =
                          e₁ ∙ ap ok (sym (bytes_eq_sound _ _ (not-false _ (ground arith))));
                      timestamp = check_timestamp-lt ch b enforce now.at_timestamp e₂;
                      bits =
                          same_bits ch b (==-sound _ _ (not-false _ (ground arith)))
                            (==-sound _ _ (not-false _ (ground arith)));
                      merkle_root = bytes_eq_sound _ _ (not-false _ (ground arith));
                      work = e₃;
                    },
                    ==-sound _ _ (not-false _ (ground arith)),
                    not-false _ (ground arith),
                    e₄,
                    ground arith,
                  )
                  | is_err x e₄ ↦ absurd (ground arith)
                  | is_panic e₄ ↦ absurd (ground arith)
                ]
        | is_err x e₃ ↦ absurd (ground arith)
        | is_panic e₃ ↦ absurd (ground arith)
      ]
      | is_err x e₂ ↦ absurd (ground arith)
      | is_panic e₂ ↦ absurd (ground arith)
    ]
    | is_err x e₁ ↦ absurd (ground arith)
    | is_panic e₁ ↦ absurd (ground arith)
  ]

  -- A block that was accepted is the new tip.
  pub connect_block_step :
      (ch : Chain) (b : MsgBlock) (enforce : Bool) (now : Instants) (ch' : Chain)
      → connect_block c ch b enforce now ≡ ok ch'
      → (utxos : UtxoSet) × (validate_block c ch b enforce now ≡ ok utxos)
        × (ch' ≡ record ch { blocks = ch.blocks ++ (b ∷ []); utxos = utxos })
  unfolding connect_block
  connect_block_step ch b enforce now ch' h = elim (outcome (validate_block c ch b enforce now)) [
    | is_ok u e ↦ (u, e, ground arith)
    | is_err x e ↦ absurd (ground arith)
    | is_panic e ↦ absurd (ground arith)
  ]

  -- The money of the two halves of a block, put together.
  block_money :
      (params : Params) (b : MsgBlock) (view₀ view utxos : UtxoSet) (fees : ℤ) (at' : ℕ)
      → IsSchedule params
      → HasOutputs b
      → All HasMoney view₀
      → validate_regular_transactions c params (rest_of b.transactions) view₀ at' ≡ ok (fees, view)
      → validate_and_connect_coinbase c params b fees view at' ≡ ok utxos
      → (total utxos ≤ issued params (b ∷ []) + total view₀) × All HasMoney utxos
  unfolding validate_and_connect_coinbase
  block_money params b view₀ view utxos fees at' s ho hv hr hc =
      let (m, e, le, kept, all) =
        regular_transactions-money c params (rest_of b.transactions) view₀ at' fees view
          (rest_outputs b.transactions ho) hv hr in
      let (added, all') =
        connect_coinbase-money c params b.transactions b.header.height m view at' utxos s le ho all
          (rw e at hc) in
      (omega (arith, added, kept), all')

  -- A chain of the genesis block alone is valid.
  pub new_chain-IsValid :
      (params : Params) → HasOutputs params.genesis_block → IsValid (new_chain params)
  unfolding new_chain
  new_chain-IsValid params h = record {
    rest = [];
    starts = refl;
    linked = tt;
    outputs = (h, tt);
    money = tt;
    supply = omega arith;
  }

  -- The tip of a valid chain is the last block behind the genesis block.
  pub tip_lem : (ch : Chain) (v : IsValid ch) → tip ch ≡ last_or ch.params.genesis_block v.rest
  unfolding tip
  tip_lem ch v = rw v.starts refl

  -- A block that a valid chain accepts becomes its last block, the parameters stay, and the chain
  -- stays valid. The parameters are a schedule of subsidies that does not leave int64, and the
  -- block's outputs have int64 values.
  pub connect_block-IsValid :
      (ch : Chain) (b : MsgBlock) (enforce : Bool) (now : Instants) (ch' : Chain)
      → IsSchedule ch.params
      → IsValid ch
      → HasOutputs b
      → connect_block c ch b enforce now ≡ ok ch'
      → IsValid ch' × (ch'.blocks ≡ ch.blocks ++ (b ∷ [])) × (ch'.params ≡ ch.params)
  connect_block-IsValid ch b enforce now ch' s v ho h =
      let (utxos, valid, same) = connect_block_step ch b enforce now ch' h in
      let (fees, view, follows, _, _, regular, coinbase) =
        validate_block_step ch b enforce now utxos valid in
      let (supply, money) =
        block_money ch.params b ch.utxos view utxos fees _ s ho v.money regular coinbase in
      let next : IsValid (record ch { blocks = ch.blocks ++ (b ∷ []); utxos = utxos }) = record {
        rest = v.rest ++ (b ∷ []);
        starts = rw v.starts refl;
        linked =
            Linked-append ch.params ch.params.genesis_block v.rest b v.linked
              (rw (tip_lem ch v) at follows);
        outputs = All-append HasOutputs ch.blocks (b ∷ []) v.outputs (ho, tt);
        money = money;
        supply = omega (arith, supply, v.supply, issued-append ch.params ch.blocks b);
      } in
      rw same (next, refl, refl)
