-- ===== src/Tests/ServerRuns.antt =====
-- Runs of the memory pool and of the server.
use pacd.Base.{◌++◌, ◌≡◌, refl, arith, true, false, [], ◌∷◌}
use pacd.Base.Int.{ℤ, pos, ◌<ℤ◌}
use pacd.Base.Result.{Result, ok, err, missing_input, timestamp_future}
use pacd.Wire.Tx.{MsgTx}
use pacd.Wire.Block.{MsgBlock}
use pacd.Chaincfg.{second}
use pacd.Chain.State.{Chain}
use pacd.Base.Int.{quot, ◌*ℤ◌, ◌+ℤ◌, ◌-ℤ◌}
use pacd.Base.{bytes_eq}
use pacd.Base.Words.{of_u32, of_u64, to_u32, to_u64, wrap64}
use pacd.Chain.Connect.{
  any_coinbase, check_coinbase_outputs, connect_coinbase, connect_output, connect_outputs,
  connect_regular, connect_tx_outputs, spend_inputs, sum_outputs, validate_and_connect_coinbase,
  validate_and_connect_regular_tx, validate_regular_transactions, validate_tx_outputs,
}
use pacd.Chain.State.{
  add_block, calc_fees, chain_height, check_timestamp, connect_block, expected_bits,
  must_block_hash, tip, validate_block,
}
use pacd.Chain.Utxo.{contains, erase, insert, lookup, out_point_eq}
use pacd.Chaincfg.{mining_open, unix}
use pacd.Consensus.Asert.{calc_asert_next_bits}
use pacd.Consensus.Pow.{
  check_proof_of_work, compact_magnitude, compact_to_big, from_be, hash_to_big,
}
use pacd.Consensus.Subsidy.{calc_block_one_time_split, calc_block_subsidy, reduce, reduce_loop}
use pacd.Consensus.Timestamp.{check_block_timestamp, max_allowed_block_time}
use pacd.Mining.{
  candidate_coinbase, candidate_header, mine_block, mine_loop, new_candidate, next_height,
}
use pacd.Wire.Block.{
  block_hash, refresh_header_size, serialize_block, serialized_size, write_block_tx,
}
use pacd.Wire.Header.{header_bytes, header_hash, serialize_header}
use pacd.Wire.Merkle.{calc_merkle_root, merkle_loop, next_layer, refresh_merkle_root}
use pacd.Wire.Reader.{from_le, put_le}
use pacd.Wire.Tx.{
  is_coinbase, new_coinbase_tx, serialize_tx, tx_hash, write_tx_in, write_tx_out, zero_hash,
}
use pacd.Wire.VarInt.{write_var_bytes, write_var_int}
use pacd.Address.Script.{hash160}
use pacd.Txscript.{
  verify_p2pkh_input, verify_pushes, parse_pushes, parse_pushes_loop, extract_pay_to_pub_key_hash,
  is_p2pkh, signature_hash, clear_scripts,
}
use pacd.Mempool.{
  has_hash, has_transaction, accept_transaction, included_tx_hashes, revalidate_mempool,
  prune_mempool, included_in_blocks, return_transactions, return_blocks, notify_chain_reorganized,
}
use pacd.Mempool.Connects.{Connects, IsValid, notify_chain_reorganized-IsValid}
use pacd.Mempool.Minable.{without, prune_mempool-without}
use pacd.Mempool.Stale.{notify_chain_reorganized-stale}
use pacd.Server.{Server}
use pacd.Server.Clock.{check_block_timestamp_shrinks}
use pacd.Server.Invariant.{IsLater, IsSound}
use pacd.Tests.{toy_crypto, toy_params, toy_params-IsSchedule, toy_clock, genesis}
use pacd.Server.Generate.{Round, unix_seconds, generate_round}
use pacd.Server.Generate.Mined.{generate_round-mine_block}
use pacd.Tests.ChainRuns.{
  miner_script, mined_run, room, opening, allowed, start, start-IsValid, first_block,
  first_block-HasOutputs, payment, spent_point, entry, rewards,
}

-- A chain on which the payment's input is unspent, and a block that held the payment.
abbrev funded : Chain
funded = record start { utxos = (spent_point, record entry { coinbase = false }) ∷ [] }

abbrev paid_block : MsgBlock
paid_block = record genesis { transactions = rewards ∷ payment ∷ [] }

abbrev fee_or : Result ℤ → ℤ
fee_or (ok z) = z
fee_or _ = pos 0

payment-Connects : Connects toy_crypto funded (payment ∷ [])
unfolding calc_fees without add_block any_coinbase block_hash bytes_eq calc_asert_next_bits
    calc_block_one_time_split calc_block_subsidy calc_merkle_root candidate_coinbase
    candidate_header chain_height check_block_timestamp check_coinbase_outputs check_proof_of_work
    check_timestamp clear_scripts compact_magnitude compact_to_big connect_block connect_coinbase
    connect_output connect_outputs connect_regular connect_tx_outputs contains erase expected_bits
    extract_pay_to_pub_key_hash from_be from_le hash160 hash_to_big header_bytes header_hash insert
    is_coinbase is_p2pkh lookup max_allowed_block_time merkle_loop mine_block mine_loop mining_open
    must_block_hash new_candidate new_coinbase_tx next_height next_layer of_u32 of_u64 out_point_eq
    parse_pushes parse_pushes_loop put_le quot reduce reduce_loop refresh_header_size
    refresh_merkle_root serialize_block serialize_header serialize_tx serialized_size signature_hash
    spend_inputs sum_outputs tip to_u32 to_u64 tx_hash unix validate_and_connect_coinbase
    validate_and_connect_regular_tx validate_block validate_regular_transactions validate_tx_outputs
    verify_p2pkh_input verify_pushes wrap64 write_block_tx write_tx_in write_tx_out write_var_bytes
    write_var_int zero_hash ◌*ℤ◌ ◌+ℤ◌ ◌-ℤ◌
payment-Connects = record { fees = pos 100; accepted = refl }

pruned-Connects :
    Connects toy_crypto funded
      (without toy_crypto (included_tx_hashes toy_crypto genesis.transactions) (payment ∷ []))
unfolding without included_tx_hashes has_hash
pruned-Connects = payment-Connects

prune_mempool-without_example :
    prune_mempool toy_crypto funded (payment ∷ []) genesis
    ≡ ok (without toy_crypto (included_tx_hashes toy_crypto genesis.transactions) (payment ∷ []))
prune_mempool-without_example =
    prune_mempool-without toy_crypto funded (payment ∷ []) genesis pruned-Connects

-- The payment comes back into an empty pool.
returned_run :
    notify_chain_reorganized toy_crypto funded (paid_block ∷ []) [] [] ≡ ok (payment ∷ [])
unfolding notify_chain_reorganized return_blocks return_transactions accept_transaction
    has_transaction has_hash revalidate_mempool included_in_blocks calc_fees add_block any_coinbase
    block_hash bytes_eq calc_asert_next_bits calc_block_one_time_split calc_block_subsidy
    calc_merkle_root candidate_coinbase candidate_header chain_height check_block_timestamp
    check_coinbase_outputs check_proof_of_work check_timestamp clear_scripts compact_magnitude
    compact_to_big connect_block connect_coinbase connect_output connect_outputs connect_regular
    connect_tx_outputs contains erase expected_bits extract_pay_to_pub_key_hash from_be from_le
    hash160 hash_to_big header_bytes header_hash insert is_coinbase is_p2pkh lookup
    max_allowed_block_time merkle_loop mine_block mine_loop mining_open must_block_hash
    new_candidate new_coinbase_tx next_height next_layer of_u32 of_u64 out_point_eq parse_pushes
    parse_pushes_loop put_le quot reduce reduce_loop refresh_header_size refresh_merkle_root
    serialize_block serialize_header serialize_tx serialized_size signature_hash spend_inputs
    sum_outputs tip to_u32 to_u64 tx_hash unix validate_and_connect_coinbase
    validate_and_connect_regular_tx validate_block validate_regular_transactions validate_tx_outputs
    verify_p2pkh_input verify_pushes wrap64 write_block_tx write_tx_in write_tx_out write_var_bytes
    write_var_int zero_hash ◌*ℤ◌ ◌+ℤ◌ ◌-ℤ◌
returned_run = refl

notify_chain_reorganized-IsValid_example :
    IsValid toy_crypto funded (included_in_blocks toy_crypto []) (payment ∷ [])
notify_chain_reorganized-IsValid_example =
    notify_chain_reorganized-IsValid toy_crypto funded (paid_block ∷ []) [] [] (payment ∷ []) tt
      returned_run

-- A payment whose input is not there.
abbrev lost_payment : MsgTx
lost_payment = record payment {
  lock_time = 9;
  tx_in =
      record {
        previous_out_point = record { hash = []; index = 3 };
        signature_script = [];
        sequence = 0;
      }
      ∷ [];
}

lost_run : calc_fees toy_crypto funded (lost_payment ∷ []) ≡ err missing_input
unfolding calc_fees add_block any_coinbase block_hash bytes_eq calc_asert_next_bits
    calc_block_one_time_split calc_block_subsidy calc_merkle_root candidate_coinbase
    candidate_header chain_height check_block_timestamp check_coinbase_outputs check_proof_of_work
    check_timestamp clear_scripts compact_magnitude compact_to_big connect_block connect_coinbase
    connect_output connect_outputs connect_regular connect_tx_outputs contains erase expected_bits
    extract_pay_to_pub_key_hash from_be from_le hash160 hash_to_big header_bytes header_hash insert
    is_coinbase is_p2pkh lookup max_allowed_block_time merkle_loop mine_block mine_loop mining_open
    must_block_hash new_candidate new_coinbase_tx next_height next_layer of_u32 of_u64 out_point_eq
    parse_pushes parse_pushes_loop put_le quot reduce reduce_loop refresh_header_size
    refresh_merkle_root serialize_block serialize_header serialize_tx serialized_size signature_hash
    spend_inputs sum_outputs tip to_u32 to_u64 tx_hash unix validate_and_connect_coinbase
    validate_and_connect_regular_tx validate_block validate_regular_transactions validate_tx_outputs
    verify_p2pkh_input verify_pushes wrap64 write_block_tx write_tx_in write_tx_out write_var_bytes
    write_var_int zero_hash ◌*ℤ◌ ◌+ℤ◌ ◌-ℤ◌
lost_run = refl

lost_stale : ¬ Connects toy_crypto funded (lost_payment ∷ [])
lost_stale k = absurd (ground (arith, lost_run, k.accepted))

not_returned_run :
    notify_chain_reorganized toy_crypto funded (paid_block ∷ []) [] (lost_payment ∷ []) ≡ ok []
unfolding notify_chain_reorganized return_blocks return_transactions accept_transaction
    has_transaction has_hash revalidate_mempool included_in_blocks calc_fees add_block any_coinbase
    block_hash bytes_eq calc_asert_next_bits calc_block_one_time_split calc_block_subsidy
    calc_merkle_root candidate_coinbase candidate_header chain_height check_block_timestamp
    check_coinbase_outputs check_proof_of_work check_timestamp clear_scripts compact_magnitude
    compact_to_big connect_block connect_coinbase connect_output connect_outputs connect_regular
    connect_tx_outputs contains erase expected_bits extract_pay_to_pub_key_hash from_be from_le
    hash160 hash_to_big header_bytes header_hash insert is_coinbase is_p2pkh lookup
    max_allowed_block_time merkle_loop mine_block mine_loop mining_open must_block_hash
    new_candidate new_coinbase_tx next_height next_layer of_u32 of_u64 out_point_eq parse_pushes
    parse_pushes_loop put_le quot reduce reduce_loop refresh_header_size refresh_merkle_root
    serialize_block serialize_header serialize_tx serialized_size signature_hash spend_inputs
    sum_outputs tip to_u32 to_u64 tx_hash unix validate_and_connect_coinbase
    validate_and_connect_regular_tx validate_block validate_regular_transactions validate_tx_outputs
    verify_p2pkh_input verify_pushes wrap64 write_block_tx write_tx_in write_tx_out write_var_bytes
    write_var_int zero_hash ◌*ℤ◌ ◌+ℤ◌ ◌-ℤ◌
not_returned_run = refl

notify_chain_reorganized-stale_example :
    revalidate_mempool toy_crypto funded (included_in_blocks toy_crypto []) [] (lost_payment ∷ [])
    ≡ ok []
notify_chain_reorganized-stale_example =
    notify_chain_reorganized-stale toy_crypto funded (paid_block ∷ []) [] (lost_payment ∷ []) []
      lost_stale not_returned_run

abbrev server : Server
server = record { chain = start; mempool = []; stored = [] }

server-IsSound : IsSound toy_crypto server
server-IsSound = record {
  schedule = toy_params-IsSchedule;
  valid = start-IsValid;
  in_sync = refl;
  distinct = tt;
}

clock-IsLater : IsLater start toy_clock toy_clock
unfolding unix tip ◌*ℤ◌ ◌+ℤ◌
clock-IsLater = record { opening = omega arith; timestamp = omega arith; within = omega arith }

shrinks_limit : pos 1000000000000 +ℤ toy_params.max_future_block_time <ℤ unix (pos 9000)
unfolding unix ◌*ℤ◌ ◌+ℤ◌
shrinks_limit = omega arith

shrinks_later : pos 1800000000000 +ℤ toy_params.max_future_block_time ≡ unix (pos 9000)
unfolding unix ◌*ℤ◌ ◌+ℤ◌
shrinks_later = refl

shrinks_next : unix (pos 9001) ≡ unix (pos 9000) +ℤ second
unfolding unix ◌*ℤ◌ ◌+ℤ◌
shrinks_next = refl

check_block_timestamp_shrinks_example :
    (check_block_timestamp toy_params (pos 9000) (pos 9001) (pos 1000000000000) ≡ ok tt)
    × (check_block_timestamp toy_params (pos 9000) (pos 9001) (pos 1800000000000)
        ≡ err timestamp_future)
check_block_timestamp_shrinks_example =
    check_block_timestamp_shrinks toy_params (pos 9000) (pos 9001) (pos 1000000000000)
      (pos 1800000000000) (omega arith) shrinks_limit shrinks_later shrinks_next

abbrev round : Round
round = record { validated_at = toy_clock; added_at = toy_clock; written = true }

abbrev generated : Server
generated = (generate_round toy_crypto server miner_script (pos 1060500000000) [] 3 round).0

generate_round-mine_block_example :
    IsSound toy_crypto generated
    × (generated.chain.blocks ≡ server.chain.blocks ++ (first_block ∷ []))
    × (generated.stored ≡ server.stored ++ (first_block ∷ []))
unfolding unix_seconds
generate_round-mine_block_example =
    generate_round-mine_block toy_crypto server miner_script (pos 1060500000000) [] 3 first_block
      round server-IsSound tt first_block-HasOutputs room opening allowed clock-IsLater refl
      mined_run
