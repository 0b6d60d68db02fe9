-- ===== src/Chain/State.antt =====
-- internal/blockchain/chain.go: the state, its queries, and the connection of one block.
pub mod Invariant
pub mod Heights
use pacd.Base.{
  ℕ, zero, suc, ◌+◌, ◌%◌, Bool, true, false, ◌&&◌, not, Option, none, some, List, [], ◌∷◌, ◌++◌,
  Bytes, ltb, leb, ◌==◌, if◌then◌else◌, length, bytes_eq, get_elem?, last_or,
}
use pacd.Base.Int.{ℤ, pos, leb_ℤ, ltb_ℤ, ◌+ℤ◌}
use pacd.Base.Words.{u32_mod, wrap64}
use pacd.Base.Result.{
  Result, ok, err, panic, reject_if, ◌>>=◌, ◌>>◌, no_transactions, bad_height, mining_closed,
  prev_mismatch, bad_bits, merkle_mismatch, timestamp_not_after,
}
use pacd.Crypto.{Crypto}
use pacd.Wire.Tx.{Hash, OutPoint, TxOut, MsgTx}
use pacd.Wire.Block.{MsgBlock, block_hash}
use pacd.Wire.Merkle.{calc_merkle_root}
use pacd.Chaincfg.{Params, Time, mining_open}
use pacd.Consensus.Subsidy.{calc_block_subsidy}
use pacd.Consensus.Asert.{calc_asert_next_bits}
use pacd.Consensus.Pow.{check_proof_of_work}
use pacd.Consensus.Timestamp.{check_block_timestamp}
use pacd.Chain.Utxo.{UtxoEntry, UtxoSet, lookup}
use pacd.Chain.Connect.{validate_regular_transactions, validate_and_connect_coinbase}

pub record Chain : Type 0 where
  pub params : Params
  pub blocks : List MsgBlock
  pub utxos : UtxoSet

-- The two readings of the clock in one call of `validateBlock`.
pub record Instants : Type 0 where
  pub at_opening : Time
  pub at_timestamp : Time

-- `New`
unfoldable pub new_chain : Params → Chain
new_chain params = record { params = params; blocks = params.genesis_block ∷ []; utxos = [] }

-- `c.blocks` begins with the genesis block, so the default is not reached.
unfoldable pub tip : Chain → MsgBlock
tip ch = let params = ch.params in last_or params.genesis_block ch.blocks

unfoldable pub chain_height : Chain → ℕ
unfolding tip
chain_height ch = let block = tip ch in let header = block.header in header.height

unfoldable pub block_by_height : Chain → ℕ → Option MsgBlock
block_by_height ch height = get_elem? ch.blocks height

unfoldable pub sum_subsidies : Params → ℤ → List MsgBlock → ℤ
sum_subsidies params total [] = total
sum_subsidies params total (b ∷ bs) =
    let header = b.header in
    sum_subsidies params (wrap64 (total +ℤ calc_block_subsidy (pos header.height) params)) bs

unfoldable pub total_subsidy : Chain → ℤ
unfolding sum_subsidies
total_subsidy ch = sum_subsidies ch.params (pos 0) ch.blocks

unfoldable pub lookup_utxo : Chain → OutPoint → Option TxOut
lookup_utxo ch point = elim (lookup point ch.utxos) [ none ↦ none | some e ↦ some e.tx_out ]

unfoldable pub expected_bits : Chain → ℕ → ℕ
unfolding tip
expected_bits ch next_height =
    let params = ch.params in
    let genesis = params.genesis_block in
    let genesis_header = genesis.header in
    let block = tip ch in
    let header = block.header in
    calc_asert_next_bits genesis_header.bits genesis_header.timestamp header.timestamp
      (pos next_height) params

-- A panic where the Go method panics on the error.
abbrev pub or_panic {ℓ} : {A : Type ℓ} → Result A → Result A
or_panic (ok a) = ok a
or_panic (err e) = panic
or_panic panic = panic

-- `block.Transactions[1:]`, behind the test for an empty list.
abbrev pub rest_of : List MsgTx → List MsgTx
rest_of [] = []
rest_of (tx ∷ txs) = txs

module _ (c : Crypto) where
  -- `MustBlockHash`
  unfoldable pub must_block_hash : MsgBlock → Result Hash
  must_block_hash block = or_panic (block_hash c.blake256 block)

  unfoldable pub search_hash : Hash → List MsgBlock → Result (Option MsgBlock)
  search_hash hash [] = ok none
  search_hash hash (b ∷ bs) = do
    h ← must_block_hash b
    elim (bytes_eq h hash) [ true ↦ ok (some b) | false ↦ search_hash hash bs ]

  unfoldable pub block_by_hash : Chain → Hash → Result (Option MsgBlock)
  unfolding search_hash
  block_by_hash ch hash = search_hash hash ch.blocks

  unfoldable pub check_timestamp : Chain → MsgBlock → Bool → Time → Result (Unit {0})
  unfolding tip
  check_timestamp ch block enforce now =
      let last = tip ch in
      let last_header = last.header in
      let header = block.header in
      if enforce
      then check_block_timestamp ch.params last_header.timestamp header.timestamp now
      else reject_if (leb_ℤ header.timestamp last_header.timestamp) timestamp_not_after

  -- The unspent outputs behind the block.
  unfoldable pub validate_block : Chain → MsgBlock → Bool → Instants → Result UtxoSet
  unfolding chain_height
  validate_block ch block enforce now = do
    let header = block.header
    let expected = (chain_height ch + 1) % u32_mod
    reject_if (length block.transactions == 0) no_transactions
    reject_if (not (header.height == expected)) bad_height
    reject_if (not (mining_open ch.params now.at_opening)) mining_closed
    tip_hash ← must_block_hash (tip ch)
    reject_if (not (bytes_eq header.prev_block tip_hash)) prev_mismatch
    check_timestamp ch block enforce now.at_timestamp
    reject_if (not (header.bits == expected_bits ch expected)) bad_bits
    reject_if (not (bytes_eq header.merkle_root (calc_merkle_root c.blake256 block.transactions)))
        merkle_mismatch
    check_proof_of_work c.blake256 header ch.params
    (fees, view) ←
        validate_regular_transactions c ch.params (rest_of block.transactions) ch.utxos expected
    validate_and_connect_coinbase c ch.params block fees view expected

  -- `AddBlock` and `AddStoredBlock`, which do not enforce the limit on future times.
  unfoldable pub connect_block : Chain → MsgBlock → Bool → Instants → Result Chain
  connect_block ch block enforce now = do
    utxos ← validate_block ch block enforce now
    ok (record ch { blocks = ch.blocks ++ (block ∷ []); utxos = utxos })

  unfoldable pub add_block : Chain → MsgBlock → Instants → Result Chain
  unfolding connect_block
  add_block ch block now = connect_block ch block true now

  unfoldable pub add_stored_block : Chain → MsgBlock → Instants → Result Chain
  unfolding connect_block
  add_stored_block ch block now = connect_block ch block false now

  unfoldable pub calc_fees : Chain → List MsgTx → Result ℤ
  calc_fees ch txs = do
    (fees, view) ←
        validate_regular_transactions c ch.params txs ch.utxos ((chain_height ch + 1) % u32_mod)
    ok fees
