-- ===== src/Mining/Candidate.antt =====
-- What a block that the miner found is made of.
use pacd.Base.{ℕ, zero, suc, ◌≡◌, ap, ◌∙◌, arith, false, ◌==◌, List, ◌∷◌, Bytes, if◌then◌else◌}
use pacd.Base.Int.{ℤ, leb_ℤ}
use pacd.Base.Result.{ok, outcome, is_ok, is_err, is_panic}
use pacd.Crypto.{Crypto}
use pacd.Wire.Tx.{Hash, MsgTx}
use pacd.Wire.Block.{MsgBlock, refresh_header_size, serialized_size}
use pacd.Wire.Merkle.{refresh_merkle_root, calc_merkle_root}
use pacd.Chaincfg.{Params}
use pacd.Consensus.Pow.{check_proof_of_work}
use pacd.Chain.Utxo.{UtxoSet}
use pacd.Chain.Connect.{validate_regular_transactions}
use pacd.Chain.State.{Chain, tip, expected_bits, must_block_hash, calc_fees}
use pacd.Mining.{
  next_height, candidate_coinbase, candidate_header, with_nonce, new_candidate, mine_loop,
  mine_block,
}

module _ (c : Crypto) where
  -- A nonce that the loop returns is one that passes the test.
  mine_loop_step :
      (params : Params) (n nonce : ℕ) (block b : MsgBlock)
      → mine_loop c params n nonce block ≡ ok b
      → (k : ℕ) × (b ≡ with_nonce block k)
        × (check_proof_of_work c.blake256 b.header params ≡ ok tt)
  unfolding mine_loop
  mine_loop_step params zero nonce block b h = absurd (cc)
  mine_loop_step params (suc n) nonce block b h =
      elim (outcome (check_proof_of_work c.blake256 (with_nonce block nonce).header params)) [
        | is_ok u e ↦
            let same : b ≡ with_nonce block nonce = ground arith in (nonce, same, rw same e)
        | is_err x e ↦ mine_loop_step params n (suc nonce) block b (ground arith)
        | is_panic e ↦ absurd (ground arith)
      ]

  refreshed :
      (block b : MsgBlock)
      → refresh_header_size (refresh_merkle_root c.blake256 block) ≡ ok b
      → (n : ℕ) × (b ≡ record {
        header = record block.header {
          merkle_root = calc_merkle_root c.blake256 block.transactions;
          size = n;
        };
        transactions = block.transactions;
      })
  unfolding refresh_header_size refresh_merkle_root
  refreshed block b h = elim (outcome (serialized_size (refresh_merkle_root c.blake256 block))) [
    | is_ok n e ↦ (n, ground arith)
    | is_err x e ↦ absurd (ground arith)
    | is_panic e ↦ absurd (ground arith)
  ]

  pub calc_fees_step :
      (ch : Chain) (txs : List MsgTx) (fees : ℤ)
      → calc_fees c ch txs ≡ ok fees
      → (view : UtxoSet) × (validate_regular_transactions c ch.params txs ch.utxos (next_height ch)
          ≡ ok (fees, view))
  unfolding calc_fees next_height
  calc_fees_step ch txs fees h =
      elim (outcome (validate_regular_transactions c ch.params txs ch.utxos (next_height ch))) [
        | is_ok (f, view) e ↦
            let same : f ≡ fees = ground arith in (view, e ∙ ap (λ x. ok (x, view)) same)
        | is_err x e ↦ absurd (ground arith)
        | is_panic e ↦ absurd (ground arith)
      ]

  -- The block that is mined, up to the nonce.
  abbrev pub template : Chain → Bytes → ℤ → List MsgTx → ℤ → Hash → ℕ → ℕ → MsgBlock
  template ch script ts txs fees prev n k =
      let height = next_height ch in
      let coinbase = candidate_coinbase ch.params height script fees in
      let header = candidate_header prev ts (expected_bits ch height) height in
      record {
        header = record header {
          merkle_root = calc_merkle_root c.blake256 (coinbase ∷ txs);
          size = n;
          nonce = k;
        };
        transactions = coinbase ∷ txs;
      }

  abbrev draft : Chain → Bytes → ℤ → List MsgTx → ℤ → Hash → MsgBlock
  draft ch script ts txs fees prev =
      let height = next_height ch in
      record {
        header = candidate_header prev ts (expected_bits ch height) height;
        transactions = candidate_coinbase ch.params height script fees ∷ txs;
      }

  pub new_candidate_step :
      (ch : Chain) (script : Bytes) (ts : ℤ) (txs : List MsgTx) (block : MsgBlock)
      → new_candidate c ch script ts txs ≡ ok block
      → (fees : ℤ) × (prev : Hash) × (n : ℕ) × (calc_fees c ch txs ≡ ok fees)
        × (must_block_hash c (tip ch) ≡ ok prev)
        × (block ≡ template ch script ts txs fees prev n 0)
  unfolding new_candidate candidate_header
  new_candidate_step ch script ts txs block h = elim (outcome (calc_fees c ch txs)) [
    | is_ok fees e ↦ elim (outcome (must_block_hash c (tip ch))) [
      | is_ok prev e₁ ↦
          let (n, same) = refreshed (draft ch script ts txs fees prev) block (ground arith) in
          (fees, prev, n, e, e₁, same)
      | is_err x e₁ ↦ absurd (ground arith)
      | is_panic e₁ ↦ absurd (ground arith)
    ]
    | is_err x e ↦ absurd (ground arith)
    | is_panic e ↦ absurd (ground arith)
  ]

  pub mine_block_step :
      (ch : Chain) (script : Bytes) (ts : ℤ) (txs : List MsgTx) (max : ℕ) (b : MsgBlock)
      → mine_block c ch script ts txs max ≡ ok b
      → (block : MsgBlock) × (k : ℕ) × (leb_ℤ ts (tip ch).header.timestamp ≡ false)
        × (new_candidate c ch script ts txs ≡ ok block)
        × (b ≡ with_nonce block k)
        × (check_proof_of_work c.blake256 b.header ch.params ≡ ok tt)
  unfolding mine_block
  mine_block_step ch script ts txs max b h = elim (outcome (new_candidate c ch script ts txs)) [
    | is_ok block e ↦
        let (k, same, work) =
          mine_loop_step ch.params (suc (if max == 0 then 4294967295 else max)) 0 block b
            (ground arith) in
        (block, k, ground arith, e, same, work)
    | is_err x e ↦ absurd (ground arith)
    | is_panic e ↦ absurd (ground arith)
  ]
