-- ===== src/Mining/Accepted.antt =====
-- The chain accepts the blocks that the miner finds.
use pacd.Base.{
  ℕ, ◌+◌, ◌≤◌, ◌≡◌, refl, sym, ap, ◌∙◌, arith, true, false, ◌==◌, List, [], ◌∷◌, ◌++◌, Bytes,
  bytes_eq_refl, All, bytes_eq, length,
}
use pacd.Base.Int.{ℤ, pos, leb_ℤ, pos_part}
use pacd.Base.Result.{ok}
use pacd.Crypto.{Crypto}
use pacd.Wire.Tx.{Hash, MsgTx}
use pacd.Wire.Block.{MsgBlock}
use pacd.Wire.Merkle.{calc_merkle_root}
use pacd.Chaincfg.{mining_open}
use pacd.Consensus.Subsidy.{calc_block_subsidy}
use pacd.Consensus.Subsidy.Schedule.{IsSchedule}
use pacd.Consensus.Pow.{check_proof_of_work}
use pacd.Consensus.Timestamp.{check_block_timestamp}
use pacd.Chain.Utxo.{UtxoSet}
use pacd.Chain.Connect.{
  validate_regular_transactions, connect_tx_outputs, validate_and_connect_coinbase,
}
use pacd.Chain.Connect.Money.{IsOutput, max_money}
use pacd.Chain.Connect.Supply.{regular_transactions-money}
use pacd.Chain.State.{
  Chain, Instants, tip, chain_height, expected_bits, must_block_hash, check_timestamp,
  validate_block, connect_block, rest_of, add_block,
}
use pacd.Chain.State.Invariant.{IsValid, Follows, issued}
use pacd.Mining.{next_height, candidate_coinbase, candidate_header, with_nonce, mine_block}
use pacd.Mining.Coinbase.{connect_regular-any_coinbase, candidate_coinbase-connects}
use pacd.Mining.Candidate.{calc_fees_step, new_candidate_step, mine_block_step, template}

module _ (c : Crypto) where
  -- A block that follows the tip, and whose parts are accepted, is connected.
  validate_block-ok :
      (ch : Chain) (b : MsgBlock) (now : Instants) (coinbase : MsgTx) (txs : List MsgTx) (fees : ℤ)
      (view utxos : UtxoSet)
      → Follows c ch.params (tip ch) b
      → b.header.bits ≡ expected_bits ch (next_height ch)
      → mining_open ch.params now.at_opening ≡ true
      → check_timestamp c ch b true now.at_timestamp ≡ ok tt
      → b.transactions ≡ coinbase ∷ txs
      → validate_regular_transactions c ch.params txs ch.utxos (next_height ch) ≡ ok (fees, view)
      → validate_and_connect_coinbase c ch.params b fees view (next_height ch) ≡ ok utxos
      → validate_block c ch b true now ≡ ok utxos
  unfolding validate_block next_height chain_height
  validate_block-ok ch b now coinbase txs fees view utxos f bits opened time parts regular paid =
      let some_txs : (length b.transactions == 0) ≡ false = rw parts (ground arith) in
      let same_height : (b.header.height == next_height ch) ≡ true = ground (arith, f.height) in
      let same_prev = bytes_eq_refl b.header.prev_block in
      let same_bits : (b.header.bits == expected_bits ch (next_height ch)) ≡ true = ground arith in
      let same_root : bytes_eq b.header.merkle_root (calc_merkle_root c.blake256 b.transactions)
          ≡ true =
        ap (bytes_eq b.header.merkle_root) (sym f.merkle_root)
        ∙ bytes_eq_refl b.header.merkle_root in
      let rest : rest_of b.transactions ≡ txs = rw parts refl in
      simp (
        some_txs, same_height, opened, f.prev_block, same_prev, time, same_bits, same_root, f.work,
        rest, regular, paid,
      )

  template-Follows :
      (ch : Chain) (script : Bytes) (ts : ℤ) (txs : List MsgTx) (fees : ℤ) (prev : Hash) (n k : ℕ)
      → leb_ℤ ts (tip ch).header.timestamp ≡ false
      → must_block_hash c (tip ch) ≡ ok prev
      → check_proof_of_work c.blake256 (template c ch script ts txs fees prev n k).header ch.params
        ≡ ok tt
      → Follows c ch.params (tip ch) (template c ch script ts txs fees prev n k)
  unfolding candidate_header next_height chain_height expected_bits
  template-Follows ch script ts txs fees prev n k later hashed work = record {
    height = refl;
    prev_block = hashed;
    timestamp = ground arith;
    bits = refl;
    merkle_root = refl;
    work = work;
  }

  -- The chain's answer to a block that the miner found.
  template-accepted :
      (ch : Chain) (script : Bytes) (ts : ℤ) (txs : List MsgTx) (f : ℕ) (view : UtxoSet)
      (prev : Hash) (n k : ℕ) (now : Instants)
      → IsSchedule ch.params
      → pos_part (calc_block_subsidy (pos (next_height ch)) ch.params) + f ≤ max_money
      → mining_open ch.params now.at_opening ≡ true
      → check_block_timestamp ch.params (tip ch).header.timestamp ts now.at_timestamp ≡ ok tt
      → leb_ℤ ts (tip ch).header.timestamp ≡ false
      → must_block_hash c (tip ch) ≡ ok prev
      → validate_regular_transactions c ch.params txs ch.utxos (next_height ch) ≡ ok (pos f, view)
      → check_proof_of_work c.blake256
          (template c ch script ts txs (pos f) prev n k).header
          ch.params
        ≡ ok tt
      → (utxos : UtxoSet) × (validate_block c ch
            (template c ch script ts txs (pos f) prev n k)
            true
            now
          ≡ ok utxos)
  unfolding check_timestamp validate_and_connect_coinbase validate_regular_transactions
      candidate_header
  template-accepted ch script ts txs f view prev n k now s fits opened allowed later hashed regular
        work =
      let height = next_height ch in
      let coinbase = candidate_coinbase ch.params height script (pos f) in
      let b = template c ch script ts txs (pos f) prev n k in
      let plain =
        connect_regular-any_coinbase c ch.params height txs (pos 0) ch.utxos (pos f, view)
          regular in
      let paid = candidate_coinbase-connects c ch.params height f script txs view s fits plain in
      (
        connect_tx_outputs c coinbase view height true,
        validate_block-ok ch b now coinbase txs (pos f) view _
            (template-Follows ch script ts txs (pos f) prev n k later hashed work) refl opened
            allowed refl regular paid,
      )

  connected :
      (ch : Chain) (b : MsgBlock) (now : Instants) (utxos : UtxoSet)
      → validate_block c ch b true now ≡ ok utxos
      → (ch' : Chain) × (add_block c ch b now ≡ ok ch')
  unfolding add_block connect_block
  connected ch b now utxos h =
      (record ch { blocks = ch.blocks ++ (b ∷ []); utxos = utxos }, rw h refl)

  -- What the miner finds on a valid chain, the chain accepts: with a clock at which mining is
  -- open and at which the timestamp is allowed, where the transactions have int64 values, and
  -- where all money that may have been issued and the next subsidy still fit int64.
  pub add_block-mine_block :
      (ch : Chain) (script : Bytes) (ts : ℤ) (txs : List MsgTx) (max : ℕ) (b : MsgBlock)
      (now : Instants)
      → IsSchedule ch.params
      → IsValid c ch
      → All (λ tx. All IsOutput tx.tx_out) txs
      → pos_part (calc_block_subsidy (pos (next_height ch)) ch.params) + issued ch.params ch.blocks
        ≤ max_money
      → mining_open ch.params now.at_opening ≡ true
      → check_block_timestamp ch.params (tip ch).header.timestamp ts now.at_timestamp ≡ ok tt
      → mine_block c ch script ts txs max ≡ ok b
      → (ch' : Chain) × (add_block c ch b now ≡ ok ch')
  add_block-mine_block ch script ts txs max b now s v ho fits opened allowed h =
      let (block, k, later, made, same, work) = mine_block_step c ch script ts txs max b h in
      let (fees, prev, n, paid, hashed, same') = new_candidate_step c ch script ts txs block made in
      let (view, regular) = calc_fees_step c ch txs fees paid in
      let (f, is_f, _, kept, _) =
        regular_transactions-money c ch.params txs ch.utxos (next_height ch) fees view ho v.money
          regular in
      let whole : b ≡ template c ch script ts txs (pos f) prev n k =
        same
        ∙ ap (λ x. with_nonce x k) same'
        ∙ ap (λ z. template c ch script ts txs z prev n k) is_f in
      let enough : pos_part (calc_block_subsidy (pos (next_height ch)) ch.params) + f ≤ max_money =
        omega (arith, fits, kept, v.supply) in
      let worked = ap (λ x. check_proof_of_work c.blake256 x.header ch.params) (sym whole) ∙ work in
      let (utxos, valid) =
        template-accepted ch script ts txs f view prev n k now s enough opened allowed later hashed
          (regular ∙ ap (λ z. ok (z, view)) is_f) worked in
      connected ch b now utxos (ap (λ x. validate_block c ch x true now) whole ∙ valid)
