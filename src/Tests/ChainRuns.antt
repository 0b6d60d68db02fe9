-- ===== src/Tests/ChainRuns.antt =====
-- Runs of the chain: blocks that are connected, mined and reorganized.
use pacd.Base.{ℕ, ◌+◌, ◌≤◌, ◌≡◌, refl, arith, Bool, true, false, some, [], ◌∷◌, ◌++◌, Bytes, All}
use pacd.Base.Int.{ℤ, pos}
use pacd.Base.Result.{Result, ok, err, panic}
use pacd.Wire.Block.{MsgBlock}
use pacd.Chain.State.{Chain}
use pacd.Chain.State.Invariant.{IsValid, HasOutputs, connect_block-IsValid}
use pacd.Base.Int.{quot, ◌*ℤ◌, ◌+ℤ◌, ◌-ℤ◌}
use pacd.Base.{bytes_eq}
use pacd.Base.Words.{of_u32, of_u64, to_u32, to_u64, wrap64}
use pacd.Chain.Connect.{
  any_coinbase, check_coinbase_outputs, connect_coinbase, connect_output, connect_outputs,
  connect_regular, connect_tx_outputs, spend_inputs, sum_outputs, validate_and_connect_coinbase,
  validate_and_connect_regular_tx, validate_regular_transactions, validate_tx_outputs,
}
use pacd.Chain.Reorg.{
  adopt, candidate_tip_height, rebuild, reorganize, reorganize_candidate, replay,
}
use pacd.Chain.State.{
  add_block, block_by_hash, block_by_height, block_by_hash, calc_fees, chain_height,
  check_timestamp, connect_block, expected_bits, must_block_hash, new_chain, search_hash, tip,
  validate_block,
}
use pacd.Chain.Utxo.{contains, erase, insert, lookup, out_point_eq}
use pacd.Chaincfg.{mining_open, unix}
use pacd.Consensus.Asert.{calc_asert_next_bits}
use pacd.Consensus.Pow.{
  check_proof_of_work, compact_magnitude, compact_to_big, from_be, hash_to_big,
}
use pacd.Consensus.Subsidy.{calc_block_one_time_split, calc_block_subsidy, reduce, reduce_loop}
use pacd.Consensus.Timestamp.{check_block_timestamp, max_allowed_block_time}
use pacd.Mining.{
  candidate_coinbase, candidate_header, mine_block, mine_loop, new_candidate, next_height,
}
use pacd.Wire.Block.{
  block_hash, refresh_header_size, serialize_block, serialized_size, write_block_tx,
}
use pacd.Wire.Header.{header_bytes, header_hash, serialize_header}
use pacd.Wire.Merkle.{calc_merkle_root, merkle_loop, next_layer, refresh_merkle_root}
use pacd.Wire.Reader.{from_le, put_le}
use pacd.Wire.Tx.{
  is_coinbase, new_coinbase_tx, serialize_tx, tx_hash, write_tx_in, write_tx_out, zero_hash,
}
use pacd.Wire.VarInt.{write_var_bytes, write_var_int}
use pacd.Base.{◌⊎◌, replicate}
use pacd.Base.Int.{pos_part}
use pacd.Wire.Tx.{OutPoint, TxIn, MsgTx}
use pacd.Chain.Utxo.{UtxoEntry, UtxoSet, total, HasMoney}
use pacd.Chain.Connect.Money.{max_money}
use pacd.Chain.Connect.Supply.{regular_transactions-money}
use pacd.Chain.Connect.Coinbase.{connect_coinbase-money}
use pacd.Chain.Connect.Authorized.{unspent, Spends, regular_tx-Spends}
use pacd.Chain.Reorg.Adopted.{IsAdopted, reorganize-IsAdopted}
use pacd.Chain.State.Invariant.{issued}
use pacd.Mining.Accepted.{add_block-mine_block}
use pacd.Address.Script.{hash160}
use pacd.Txscript.{
  verify_p2pkh_input, verify_pushes, parse_pushes, parse_pushes_loop, extract_pay_to_pub_key_hash,
  is_p2pkh, signature_hash, clear_scripts,
}
use pacd.Chain.State.Heights.{block_by_height-height}
use pacd.Base.{length, ◌<◌}
use pacd.Tests.{toy_hash, project_script}
use pacd.Tests.{toy_crypto, toy_params, toy_params-IsSchedule, toy_clock, genesis}

abbrev pub miner_script : Bytes
miner_script = 0x51 ∷ []

abbrev pub start : Chain
start = record { params = toy_params; blocks = genesis ∷ []; utxos = [] }

abbrev block_or : {A : Type 0} → A → Result A → A
block_or d (ok a) = a
block_or d (err e) = d
block_or d panic = d

-- The block that the miner finds with the first nonce.
abbrev pub first_block : MsgBlock
first_block = block_or genesis (mine_block toy_crypto start miner_script (pos 1060) [] 3)

pub mined_run : mine_block toy_crypto start miner_script (pos 1060) [] 3 ≡ ok first_block
unfolding mine_block mine_loop new_candidate next_height candidate_coinbase candidate_header
    refresh_header_size refresh_merkle_root serialized_size serialize_block write_block_tx add_block
    tip chain_height connect_block validate_block must_block_hash check_timestamp expected_bits
    calc_fees block_hash header_hash serialize_header header_bytes put_le from_le to_u32 to_u64
    of_u32 of_u64 wrap64 ◌+ℤ◌ ◌-ℤ◌ ◌*ℤ◌ quot calc_asert_next_bits calc_block_one_time_split
    calc_block_subsidy reduce_loop reduce check_block_timestamp max_allowed_block_time mining_open
    unix calc_merkle_root merkle_loop next_layer tx_hash serialize_tx write_var_int write_var_bytes
    write_tx_in write_tx_out check_proof_of_work compact_to_big compact_magnitude hash_to_big
    from_be bytes_eq validate_regular_transactions connect_regular validate_and_connect_coinbase
    connect_coinbase any_coinbase is_coinbase check_coinbase_outputs connect_tx_outputs
    connect_outputs connect_output validate_tx_outputs sum_outputs insert out_point_eq zero_hash
    new_coinbase_tx
mined_run = refl

pub first_block-HasOutputs : HasOutputs first_block
unfolding mine_block mine_loop new_candidate next_height candidate_coinbase candidate_header
    refresh_header_size refresh_merkle_root serialized_size serialize_block write_block_tx add_block
    tip chain_height connect_block validate_block must_block_hash check_timestamp expected_bits
    calc_fees block_hash header_hash serialize_header header_bytes put_le from_le to_u32 to_u64
    of_u32 of_u64 wrap64 ◌+ℤ◌ ◌-ℤ◌ ◌*ℤ◌ quot calc_asert_next_bits calc_block_one_time_split
    calc_block_subsidy reduce_loop reduce check_block_timestamp max_allowed_block_time mining_open
    unix calc_merkle_root merkle_loop next_layer tx_hash serialize_tx write_var_int write_var_bytes
    write_tx_in write_tx_out check_proof_of_work compact_to_big compact_magnitude hash_to_big
    from_be bytes_eq validate_regular_transactions connect_regular validate_and_connect_coinbase
    connect_coinbase any_coinbase is_coinbase check_coinbase_outputs connect_tx_outputs
    connect_outputs connect_output validate_tx_outputs sum_outputs insert out_point_eq zero_hash
    new_coinbase_tx
first_block-HasOutputs = (((omega arith, omega arith), ((omega arith, omega arith), tt)), tt)

pub start-IsValid : IsValid toy_crypto start
start-IsValid = record {
  rest = [];
  starts = refl;
  linked = tt;
  outputs = (tt, tt);
  money = tt;
  supply = omega arith;
}

abbrev chain_or : Result Chain → Chain
chain_or (ok a) = a
chain_or (err e) = start
chain_or panic = start

abbrev pub second_chain : Chain
second_chain = chain_or (connect_block toy_crypto start first_block true toy_clock)

pub connected_run : connect_block toy_crypto start first_block true toy_clock ≡ ok second_chain
unfolding mine_block mine_loop new_candidate next_height candidate_coinbase candidate_header
    refresh_header_size refresh_merkle_root serialized_size serialize_block write_block_tx add_block
    tip chain_height connect_block validate_block must_block_hash check_timestamp expected_bits
    calc_fees block_hash header_hash serialize_header header_bytes put_le from_le to_u32 to_u64
    of_u32 of_u64 wrap64 ◌+ℤ◌ ◌-ℤ◌ ◌*ℤ◌ quot calc_asert_next_bits calc_block_one_time_split
    calc_block_subsidy reduce_loop reduce check_block_timestamp max_allowed_block_time mining_open
    unix calc_merkle_root merkle_loop next_layer tx_hash serialize_tx write_var_int write_var_bytes
    write_tx_in write_tx_out check_proof_of_work compact_to_big compact_magnitude hash_to_big
    from_be bytes_eq validate_regular_transactions connect_regular validate_and_connect_coinbase
    connect_coinbase any_coinbase is_coinbase check_coinbase_outputs connect_tx_outputs
    connect_outputs connect_output validate_tx_outputs sum_outputs insert out_point_eq zero_hash
    new_coinbase_tx
connected_run = refl

connect_block-IsValid_example :
    IsValid toy_crypto second_chain
    × (second_chain.blocks ≡ start.blocks ++ (first_block ∷ []))
    × (second_chain.params ≡ start.params)
connect_block-IsValid_example =
    connect_block-IsValid toy_crypto start first_block true toy_clock second_chain
      toy_params-IsSchedule start-IsValid first_block-HasOutputs connected_run

abbrev adopted_run : Result (Bool × Chain)
adopted_run = reorganize toy_crypto (λ k. toy_clock) start (some first_block ∷ [])

abbrev replaced_or : Result (Bool × Chain) → Bool × Chain
replaced_or (ok a) = a
replaced_or (err e) = (false, start)
replaced_or panic = (false, start)

reorganized : adopted_run ≡ ok (true, (replaced_or adopted_run).1)
unfolding reorganize reorganize_candidate rebuild replay adopt candidate_tip_height block_by_hash
    search_hash block_by_height new_chain mine_block mine_loop new_candidate next_height
    candidate_coinbase candidate_header refresh_header_size refresh_merkle_root serialized_size
    serialize_block write_block_tx add_block tip chain_height connect_block validate_block
    must_block_hash check_timestamp expected_bits calc_fees block_hash header_hash serialize_header
    header_bytes put_le from_le to_u32 to_u64 of_u32 of_u64 wrap64 ◌+ℤ◌ ◌-ℤ◌ ◌*ℤ◌ quot
    calc_asert_next_bits calc_block_one_time_split calc_block_subsidy reduce_loop reduce
    check_block_timestamp max_allowed_block_time mining_open unix calc_merkle_root merkle_loop
    next_layer tx_hash serialize_tx write_var_int write_var_bytes write_tx_in write_tx_out
    check_proof_of_work compact_to_big compact_magnitude hash_to_big from_be bytes_eq
    validate_regular_transactions connect_regular validate_and_connect_coinbase connect_coinbase
    any_coinbase is_coinbase check_coinbase_outputs connect_tx_outputs connect_outputs
    connect_output validate_tx_outputs sum_outputs insert out_point_eq zero_hash new_coinbase_tx
reorganized = refl

reorganize-IsAdopted_example :
    ((true ≡ false) × ((replaced_or adopted_run).1 ≡ start))
    ⊎ ((true ≡ true)
        × IsAdopted toy_crypto
            (λ k. toy_clock)
            start
            (some first_block ∷ [])
            (replaced_or adopted_run).1)
reorganize-IsAdopted_example =
    reorganize-IsAdopted toy_crypto (λ k. toy_clock) start (some first_block ∷ []) true
      (replaced_or adopted_run).1 toy_params-IsSchedule start-IsValid (first_block-HasOutputs, tt)
      reorganized

pub opening : mining_open start.params toy_clock.at_opening ≡ true
unfolding mining_open ◌*ℤ◌ unix
opening = refl

pub allowed :
    check_block_timestamp start.params
      (tip start).header.timestamp
      (pos 1060)
      toy_clock.at_timestamp
    ≡ ok tt
unfolding check_block_timestamp tip ◌*ℤ◌ ◌+ℤ◌ unix max_allowed_block_time
allowed = refl

pub room :
    pos_part (calc_block_subsidy (pos (next_height start)) start.params)
      + issued start.params start.blocks
    ≤ max_money
unfolding calc_block_subsidy next_height chain_height tip reduce_loop reduce quot wrap64 of_u64
    to_u64 ◌*ℤ◌
room = omega arith

add_block-mine_block_example :
    (ch' : Chain) × (add_block toy_crypto start first_block toy_clock ≡ ok ch')
add_block-mine_block_example =
    add_block-mine_block toy_crypto start miner_script (pos 1060) [] 3 first_block toy_clock
      toy_params-IsSchedule start-IsValid tt room opening allowed mined_run

-- A transaction that spends the miner's output of the first block, and pays a fee.
abbrev pub spent_point : OutPoint
spent_point = record { hash = replicate 32 9; index = 0 }

abbrev toy_input : TxIn
toy_input = record {
  previous_out_point = spent_point;
  signature_script = 2 ∷ 48 ∷ 1 ∷ 1 ∷ 2 ∷ [];
  sequence = 0;
}

abbrev pub payment : MsgTx
payment = record {
  version = pos 1;
  tx_in = toy_input ∷ [];
  tx_out = record { value = pos 700; pk_script = miner_script } ∷ [];
  lock_time = 0;
}

abbrev key_script : Bytes
key_script = 0x76 ∷ 0xa9 ∷ 0x14 ∷ (put_le 20 (from_le (toy_hash (2 ∷ []))) ++ (0x88 ∷ 0xac ∷ []))

abbrev pub entry : UtxoEntry
entry = record {
  tx_out = record { value = pos 800; pk_script = key_script };
  block_height = 1;
  coinbase = true;
}

abbrev view : UtxoSet
view = (spent_point, entry) ∷ []

abbrev pair_or : Result (ℤ × UtxoSet) → ℤ × UtxoSet
pair_or (ok a) = a
pair_or (err e) = (pos 0, [])
pair_or panic = (pos 0, [])

abbrev after_payment : UtxoSet
after_payment = (pair_or (validate_and_connect_regular_tx toy_crypto toy_params payment view 2)).1

paid_run :
    validate_and_connect_regular_tx toy_crypto toy_params payment view 2
    ≡ ok (pos 100, after_payment)
unfolding validate_and_connect_regular_tx spend_inputs lookup erase contains verify_p2pkh_input
    verify_pushes parse_pushes parse_pushes_loop extract_pay_to_pub_key_hash is_p2pkh hash160
    signature_hash clear_scripts sum_outputs validate_tx_outputs connect_tx_outputs connect_outputs
    connect_output insert out_point_eq serialize_tx write_var_int write_var_bytes write_tx_in
    write_tx_out bytes_eq wrap64 of_u64 to_u64 to_u32 ◌+ℤ◌ ◌-ℤ◌ put_le from_le tx_hash
paid_run = refl

regular_tx-Spends_example :
    Spends toy_crypto toy_params payment 2 view 0 payment.tx_in
    × (after_payment ≡ connect_tx_outputs toy_crypto payment (unspent payment.tx_in view) 2 false)
regular_tx-Spends_example =
    regular_tx-Spends toy_crypto toy_params payment view 2 (pos 100) after_payment paid_run

regular_run :
    validate_regular_transactions toy_crypto toy_params (payment ∷ []) view 2
    ≡ ok (pos 100, after_payment)
unfolding validate_regular_transactions connect_regular is_coinbase validate_and_connect_regular_tx
    spend_inputs lookup erase contains verify_p2pkh_input verify_pushes parse_pushes
    parse_pushes_loop extract_pay_to_pub_key_hash is_p2pkh hash160 signature_hash clear_scripts
    sum_outputs validate_tx_outputs connect_tx_outputs connect_outputs connect_output insert
    out_point_eq serialize_tx write_var_int write_var_bytes write_tx_in write_tx_out bytes_eq wrap64
    of_u64 to_u64 to_u32 ◌+ℤ◌ ◌-ℤ◌ put_le from_le tx_hash zero_hash
regular_run = refl

regular_transactions-money_example :
    (m : ℕ) × (pos 100 ≡ pos m)
    × (m ≤ max_money)
    × (m + total after_payment ≤ total view)
    × All HasMoney after_payment
regular_transactions-money_example =
    regular_transactions-money toy_crypto toy_params (payment ∷ []) view 2 (pos 100) after_payment
      (((omega arith, omega arith), tt), tt) ((omega arith, omega arith), tt) regular_run

abbrev pub rewards : MsgTx
rewards = record {
  version = pos 1;
  tx_in =
      record {
        previous_out_point = record { hash = zero_hash; index = 4294967295 };
        signature_script = [];
        sequence = 0;
      }
      ∷ [];
  tx_out =
      record { value = pos 900; pk_script = miner_script }
      ∷ record { value = pos 200; pk_script = project_script }
      ∷ [];
  lock_time = 0;
}

abbrev set_or : Result UtxoSet → UtxoSet
set_or (ok a) = a
set_or (err e) = []
set_or panic = []

abbrev after_rewards : UtxoSet
after_rewards =
    set_or (connect_coinbase toy_crypto toy_params (rewards ∷ payment ∷ []) 2 (pos 100) [] 2)

rewards_run :
    connect_coinbase toy_crypto toy_params (rewards ∷ payment ∷ []) 2 (pos 100) [] 2
    ≡ ok after_rewards
unfolding connect_coinbase any_coinbase is_coinbase check_coinbase_outputs calc_block_one_time_split
    calc_block_subsidy reduce_loop reduce quot sum_outputs validate_tx_outputs connect_tx_outputs
    connect_outputs connect_output insert out_point_eq serialize_tx write_var_int write_var_bytes
    write_tx_in write_tx_out bytes_eq wrap64 of_u64 to_u64 to_u32 ◌+ℤ◌ ◌-ℤ◌ ◌*ℤ◌ put_le from_le
    tx_hash zero_hash
rewards_run = refl

connect_coinbase-money_example :
    (total after_rewards ≤ pos_part (calc_block_subsidy (pos 2) toy_params) + (100 + total []))
    × All HasMoney after_rewards
connect_coinbase-money_example =
    connect_coinbase-money toy_crypto toy_params (rewards ∷ payment ∷ []) 2 100 [] 2 after_rewards
      toy_params-IsSchedule (omega arith)
      (
        ((omega arith, omega arith), ((omega arith, omega arith), tt)),
        (((omega arith, omega arith), tt), tt),
      )
      tt rewards_run

pub second_chain-IsValid : IsValid toy_crypto second_chain
second_chain-IsValid =
    (connect_block-IsValid toy_crypto start first_block true toy_clock second_chain
      toy_params-IsSchedule start-IsValid first_block-HasOutputs connected_run).0

second_chain-genesis : second_chain.params.genesis_block.header.height ≡ 0
unfolding mine_block mine_loop new_candidate next_height candidate_coinbase candidate_header
    refresh_header_size refresh_merkle_root serialized_size serialize_block write_block_tx add_block
    tip chain_height connect_block validate_block must_block_hash check_timestamp expected_bits
    calc_fees block_hash header_hash serialize_header header_bytes put_le from_le to_u32 to_u64
    of_u32 of_u64 wrap64 ◌+ℤ◌ ◌-ℤ◌ ◌*ℤ◌ quot calc_asert_next_bits calc_block_one_time_split
    calc_block_subsidy reduce_loop reduce check_block_timestamp max_allowed_block_time mining_open
    unix calc_merkle_root merkle_loop next_layer tx_hash serialize_tx write_var_int write_var_bytes
    write_tx_in write_tx_out check_proof_of_work compact_to_big compact_magnitude hash_to_big
    from_be bytes_eq validate_regular_transactions connect_regular validate_and_connect_coinbase
    connect_coinbase any_coinbase is_coinbase check_coinbase_outputs connect_tx_outputs
    connect_outputs connect_output validate_tx_outputs sum_outputs insert out_point_eq zero_hash
    new_coinbase_tx
second_chain-genesis = refl

second_chain_short : length second_chain.blocks < 4294967297
unfolding mine_block mine_loop new_candidate next_height candidate_coinbase candidate_header
    refresh_header_size refresh_merkle_root serialized_size serialize_block write_block_tx add_block
    tip chain_height connect_block validate_block must_block_hash check_timestamp expected_bits
    calc_fees block_hash header_hash serialize_header header_bytes put_le from_le to_u32 to_u64
    of_u32 of_u64 wrap64 ◌+ℤ◌ ◌-ℤ◌ ◌*ℤ◌ quot calc_asert_next_bits calc_block_one_time_split
    calc_block_subsidy reduce_loop reduce check_block_timestamp max_allowed_block_time mining_open
    unix calc_merkle_root merkle_loop next_layer tx_hash serialize_tx write_var_int write_var_bytes
    write_tx_in write_tx_out check_proof_of_work compact_to_big compact_magnitude hash_to_big
    from_be bytes_eq validate_regular_transactions connect_regular validate_and_connect_coinbase
    connect_coinbase any_coinbase is_coinbase check_coinbase_outputs connect_tx_outputs
    connect_outputs connect_output validate_tx_outputs sum_outputs insert out_point_eq zero_hash
    new_coinbase_tx
second_chain_short = omega arith

found_at_one : block_by_height second_chain 1 ≡ some first_block
unfolding block_by_height mine_block mine_loop new_candidate next_height candidate_coinbase
    candidate_header refresh_header_size refresh_merkle_root serialized_size serialize_block
    write_block_tx add_block tip chain_height connect_block validate_block must_block_hash
    check_timestamp expected_bits calc_fees block_hash header_hash serialize_header header_bytes
    put_le from_le to_u32 to_u64 of_u32 of_u64 wrap64 ◌+ℤ◌ ◌-ℤ◌ ◌*ℤ◌ quot calc_asert_next_bits
    calc_block_one_time_split calc_block_subsidy reduce_loop reduce check_block_timestamp
    max_allowed_block_time mining_open unix calc_merkle_root merkle_loop next_layer tx_hash
    serialize_tx write_var_int write_var_bytes write_tx_in write_tx_out check_proof_of_work
    compact_to_big compact_magnitude hash_to_big from_be bytes_eq validate_regular_transactions
    connect_regular validate_and_connect_coinbase connect_coinbase any_coinbase is_coinbase
    check_coinbase_outputs connect_tx_outputs connect_outputs connect_output validate_tx_outputs
    sum_outputs insert out_point_eq zero_hash new_coinbase_tx
found_at_one = refl

block_by_height-height_example : first_block.header.height ≡ 1
block_by_height-height_example =
    block_by_height-height toy_crypto second_chain 1 first_block second_chain-IsValid
      second_chain-genesis second_chain_short found_at_one
