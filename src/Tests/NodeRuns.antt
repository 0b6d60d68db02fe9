-- ===== src/Tests/NodeRuns.antt =====
-- Runs of the node, and of the wallet's selection.
use pacd.Base.{
  All, ℕ, ◌≢◌, ◌≤◌, ◌<◌, ◌≡◌, refl, arith, Bool, true, false, ◌||◌, ◌⊎◌, some, none, List, [], ◌∷◌,
  ◌++◌, Bytes, take, length,
}
use pacd.Base.Int.{pos, ltb_ℤ}
use pacd.Base.Result.{Result, ok, err, panic}
use pacd.Wire.Tx.{Hash}
use pacd.Chain.State.Invariant.{connect_block-IsValid}
use pacd.Base.Int.{quot, ◌*ℤ◌, ◌+ℤ◌, ◌-ℤ◌}
use pacd.Base.{bytes_eq}
use pacd.Base.Words.{of_u32, of_u64, to_u32, to_u64, wrap64}
use pacd.Chain.Connect.{
  any_coinbase, check_coinbase_outputs, connect_coinbase, connect_output, connect_outputs,
  connect_regular, connect_tx_outputs, spend_inputs, sum_outputs, validate_and_connect_coinbase,
  validate_and_connect_regular_tx, validate_regular_transactions, validate_tx_outputs,
}
use pacd.Chain.State.{
  add_block, calc_fees, chain_height, check_timestamp, connect_block, expected_bits,
  must_block_hash, tip, validate_block,
}
use pacd.Chain.Utxo.{contains, erase, insert, lookup, out_point_eq}
use pacd.Chaincfg.{mining_open, unix}
use pacd.Consensus.Asert.{calc_asert_next_bits}
use pacd.Consensus.Pow.{
  check_proof_of_work, compact_magnitude, compact_to_big, from_be, hash_to_big,
}
use pacd.Consensus.Subsidy.{calc_block_one_time_split, calc_block_subsidy, reduce, reduce_loop}
use pacd.Consensus.Timestamp.{check_block_timestamp, max_allowed_block_time}
use pacd.Mining.{
  candidate_coinbase, candidate_header, mine_block, mine_loop, new_candidate, next_height,
}
use pacd.Wire.Block.{
  block_hash, refresh_header_size, serialize_block, serialized_size, write_block_tx,
}
use pacd.Wire.Header.{header_bytes, header_hash, serialize_header}
use pacd.Wire.Merkle.{calc_merkle_root, merkle_loop, next_layer, refresh_merkle_root}
use pacd.Wire.Reader.{from_le, put_le}
use pacd.Wire.Tx.{
  is_coinbase, new_coinbase_tx, serialize_tx, tx_hash, write_tx_in, write_tx_out, zero_hash,
}
use pacd.Wire.VarInt.{write_var_bytes, write_var_int}
use pacd.Address.Script.{hash160}
use pacd.Txscript.{
  verify_p2pkh_input, verify_pushes, parse_pushes, parse_pushes_loop, extract_pay_to_pub_key_hash,
  is_p2pkh, signature_hash, clear_scripts,
}
use pacd.P2p.Sync.{max_headers_per_message}
use pacd.Node.State.{NodeState, Attempt, connect_orphans}
use pacd.Node.Orphans.{IsSound}
use pacd.Node.Orphans.Joined.{Ends, connect_orphans-Ends}
use pacd.Node.Side.{side_branch}
use pacd.Node.Branch.{Walk, side_branch-Walk}
use pacd.Node.Connect.{Oracle, connect_block_from}
use pacd.Server.{submit_block}
use pacd.Server.Steps as Steps
use pacd.Server.Steps.{
  Daemon, server_of, with_server, Reach, here, next, submitted, received, Reach-IsSound,
}
use pacd.Node.Accepted.{connect_block_from-IsSound}
use pacd.Node.Headers.{headers_after, validate_header_chain}
use pacd.Node.Headers.Honest.{AreHashes, validate_header_chain-headers_after}
use pacd.Node.Peers.{
  Net, PeerTable, PeerConfig, ban_key, ban_score, ban_threshold, is_known_self_addr, is_static_peer,
  pending_peer_count, max_pending_peers, reserve_peer, reserve_host, reserve_place, normalize_addr,
  has_peer_for_host, is_exempt, any_peer, is_peer_of, active_peer_count, has_addr, has_key,
}
use pacd.Node.HashMap.{find, put}
use pacd.Node.Peers.Banned.{reserve_peer-room}
use pacd.Node.HashMap.{HashMap}
use pacd.Node.AddrBook.{
  AddrBookEntry, seed, discovery_retry, candidates_loop, is_candidate, has_peer_for_advertised_addr,
  dialled_recently,
}
use pacd.Node.AddrBook.Dials.{candidates_loop_again}
use pacd.Wallet.{WalletUtxo, select_utxos}
use pacd.Wallet.Selection.{spendable, Selects, select_utxos-Selects}
use pacd.Tests.{toy_crypto, toy_params-IsSchedule, toy_clock, genesis, toy_header}
use pacd.Tests.ChainRuns.{
  start, start-IsValid, first_block, first_block-HasOutputs, second_chain, second_chain-IsValid,
  connected_run,
}

abbrev attempt : Attempt
attempt = record { validated_at = toy_clock; added_at = toy_clock; written = true }

abbrev oracle : Oracle
oracle = record {
  attempt = attempt;
  orphan_attempt = λ h. attempt;
  candidate_at = toy_clock;
  checked_at = λ k. toy_clock;
  done_at = λ k. toy_clock;
  replaced = true;
  evicted = 0;
  peer_height = none;
}

abbrev node : NodeState
node = record {
  chain = start;
  stored = [];
  orphans = [];
  orphans_by_prev = [];
  side_blocks = [];
  side_by_prev = [];
}

node-IsSound : IsSound toy_crypto node
node-IsSound = record {
  schedule = toy_params-IsSchedule;
  valid = start-IsValid;
  orphan_outputs = tt;
  side_outputs = tt;
  bounded = omega arith;
}

connect_block_from-IsSound_example :
    IsSound toy_crypto (connect_block_from toy_crypto node first_block oracle).0
connect_block_from-IsSound_example =
    connect_block_from-IsSound toy_crypto node first_block oracle first_block-HasOutputs
      node-IsSound

-- A daemon that gets a block from a miner and then from a peer.
abbrev daemon : Daemon
daemon = record { node = node; mempool = [] }

daemon-IsSound : Steps.IsSound toy_crypto daemon
daemon-IsSound = record { node = node-IsSound; distinct = tt }

abbrev mined : Daemon
mined =
    with_server daemon
      (submit_block toy_crypto (server_of daemon) first_block toy_clock toy_clock true).0

abbrev relayed : Daemon
relayed = record mined { node = (connect_block_from toy_crypto mined.node first_block oracle).0 }

relayed-Reach : Reach toy_crypto daemon relayed
relayed-Reach =
    next (next here (submitted first_block toy_clock toy_clock true first_block-HasOutputs refl))
      (received first_block oracle first_block-HasOutputs refl)

Reach-IsSound_example : Steps.IsSound toy_crypto relayed
Reach-IsSound_example = Reach-IsSound toy_crypto daemon relayed relayed-Reach daemon-IsSound

-- A node with an orphan behind some parent.
abbrev parent_hash : Hash
parent_hash = 1 ∷ []

abbrev waiting : NodeState
waiting = record node {
  orphans = (2 ∷ [], first_block) ∷ [];
  orphans_by_prev = (parent_hash, (2 ∷ []) ∷ []) ∷ [];
}

waiting-IsSound : IsSound toy_crypto waiting
waiting-IsSound = record {
  schedule = toy_params-IsSchedule;
  valid = start-IsValid;
  orphan_outputs = (first_block-HasOutputs, tt);
  side_outputs = tt;
  bounded = omega arith;
}

connect_orphans-Ends_example :
    Ends toy_crypto waiting (connect_orphans toy_crypto (λ h. attempt) 2 parent_hash waiting)
connect_orphans-Ends_example =
    connect_orphans-Ends toy_crypto (λ h. attempt) 2 parent_hash waiting (omega arith)
      waiting-IsSound

-- A side block that is its own previous block.
abbrev looping : NodeState
looping = record node {
  side_blocks =
      (3 ∷ [], record genesis { header = record toy_header { prev_block = 3 ∷ [] } }) ∷ [];
}

side_branch-Walk_example :
    Walk toy_crypto looping (3 ∷ []) (side_branch toy_crypto looping (3 ∷ []))
side_branch-Walk_example = side_branch-Walk toy_crypto looping (3 ∷ [])

abbrev hash_or : Result Hash → Hash
hash_or (ok h) = h
hash_or (err e) = []
hash_or panic = []

abbrev start_hash : Hash
start_hash = hash_or (must_block_hash toy_crypto genesis)

start_hash_run : must_block_hash toy_crypto (tip start) ≡ ok start_hash
unfolding add_block any_coinbase block_hash bytes_eq calc_asert_next_bits calc_block_one_time_split
    calc_block_subsidy calc_fees calc_merkle_root candidate_coinbase candidate_header chain_height
    check_block_timestamp check_coinbase_outputs check_proof_of_work check_timestamp clear_scripts
    compact_magnitude compact_to_big connect_block connect_coinbase connect_output connect_outputs
    connect_regular connect_tx_outputs contains erase expected_bits extract_pay_to_pub_key_hash
    from_be from_le hash160 hash_to_big header_bytes header_hash insert is_coinbase is_p2pkh lookup
    max_allowed_block_time merkle_loop mine_block mine_loop mining_open must_block_hash
    new_candidate new_coinbase_tx next_height next_layer of_u32 of_u64 out_point_eq parse_pushes
    parse_pushes_loop put_le quot reduce reduce_loop refresh_header_size refresh_merkle_root
    serialize_block serialize_header serialize_tx serialized_size signature_hash spend_inputs
    sum_outputs tip to_u32 to_u64 tx_hash unix validate_and_connect_coinbase
    validate_and_connect_regular_tx validate_block validate_regular_transactions validate_tx_outputs
    verify_p2pkh_input verify_pushes wrap64 write_block_tx write_tx_in write_tx_out write_var_bytes
    write_var_int zero_hash ◌*ℤ◌ ◌+ℤ◌ ◌-ℤ◌
start_hash_run = refl

second_chain_short : length second_chain.blocks < 4294967296
unfolding add_block any_coinbase block_hash bytes_eq calc_asert_next_bits calc_block_one_time_split
    calc_block_subsidy calc_fees calc_merkle_root candidate_coinbase candidate_header chain_height
    check_block_timestamp check_coinbase_outputs check_proof_of_work check_timestamp clear_scripts
    compact_magnitude compact_to_big connect_block connect_coinbase connect_output connect_outputs
    connect_regular connect_tx_outputs contains erase expected_bits extract_pay_to_pub_key_hash
    from_be from_le hash160 hash_to_big header_bytes header_hash insert is_coinbase is_p2pkh lookup
    max_allowed_block_time merkle_loop mine_block mine_loop mining_open must_block_hash
    new_candidate new_coinbase_tx next_height next_layer of_u32 of_u64 out_point_eq parse_pushes
    parse_pushes_loop put_le quot reduce reduce_loop refresh_header_size refresh_merkle_root
    serialize_block serialize_header serialize_tx serialized_size signature_hash spend_inputs
    sum_outputs tip to_u32 to_u64 tx_hash unix validate_and_connect_coinbase
    validate_and_connect_regular_tx validate_block validate_regular_transactions validate_tx_outputs
    verify_p2pkh_input verify_pushes wrap64 write_block_tx write_tx_in write_tx_out write_var_bytes
    write_var_int zero_hash ◌*ℤ◌ ◌+ℤ◌ ◌-ℤ◌
second_chain_short = omega arith

mining_run : mining_open start.params toy_clock.at_opening ≡ true
unfolding add_block any_coinbase block_hash bytes_eq calc_asert_next_bits calc_block_one_time_split
    calc_block_subsidy calc_fees calc_merkle_root candidate_coinbase candidate_header chain_height
    check_block_timestamp check_coinbase_outputs check_proof_of_work check_timestamp clear_scripts
    compact_magnitude compact_to_big connect_block connect_coinbase connect_output connect_outputs
    connect_regular connect_tx_outputs contains erase expected_bits extract_pay_to_pub_key_hash
    from_be from_le hash160 hash_to_big header_bytes header_hash insert is_coinbase is_p2pkh lookup
    max_allowed_block_time merkle_loop mine_block mine_loop mining_open must_block_hash
    new_candidate new_coinbase_tx next_height next_layer of_u32 of_u64 out_point_eq parse_pushes
    parse_pushes_loop put_le quot reduce reduce_loop refresh_header_size refresh_merkle_root
    serialize_block serialize_header serialize_tx serialized_size signature_hash spend_inputs
    sum_outputs tip to_u32 to_u64 tx_hash unix validate_and_connect_coinbase
    validate_and_connect_regular_tx validate_block validate_regular_transactions validate_tx_outputs
    verify_p2pkh_input verify_pushes wrap64 write_block_tx write_tx_in write_tx_out write_var_bytes
    write_var_int zero_hash ◌*ℤ◌ ◌+ℤ◌ ◌-ℤ◌
mining_run = refl

second_chain_blocks :
    (second_chain.blocks ≡ start.blocks ++ (first_block ∷ []))
    × (second_chain.params ≡ start.params)
second_chain_blocks =
    let (_, blocks, params) =
      connect_block-IsValid toy_crypto start first_block true toy_clock second_chain
        toy_params-IsSchedule start-IsValid first_block-HasOutputs connected_run in
    (blocks, params)

validate_header_chain-headers_after_example :
    (hashes : List Hash) × AreHashes toy_crypto
      (take max_headers_per_message (first_block ∷ []))
      hashes
    × (validate_header_chain toy_crypto start
          (headers_after second_chain (chain_height start))
          toy_clock.at_opening
        ≡ ok hashes)
validate_header_chain-headers_after_example =
    validate_header_chain-headers_after toy_crypto start second_chain (first_block ∷ [])
      toy_clock.at_opening start_hash start-IsValid second_chain-IsValid second_chain_blocks.1
      second_chain_blocks.0 refl second_chain_short mining_run start_hash_run

-- Texts are taken as they are, and a host is their first byte.
abbrev toy_net : Net
toy_net = record {
  trim_space = λ b. b;
  split_host_port = λ b. some (take 1 b, 57 ∷ []);
  join_host_port = λ h p. h ++ p;
  is_loopback = λ h. false;
  is_unspecified = λ h. false;
}

abbrev config : PeerConfig
config = record { connect = []; max_peers = 8 }

abbrev table : PeerTable
table = record { peers = []; self_addrs = []; ban_scores = [] }

abbrev peer_addr : Bytes
peer_addr = 65 ∷ 57 ∷ []

abbrev reserved_table : PeerTable
reserved_table = (reserve_peer toy_net config table peer_addr true false).1

reserved_run : reserve_peer toy_net config table peer_addr true false ≡ (true, reserved_table)
unfolding reserve_peer reserve_host reserve_place is_known_self_addr is_static_peer normalize_addr
    has_peer_for_host is_exempt any_peer is_peer_of active_peer_count pending_peer_count
    max_pending_peers ban_score ban_key find put has_addr has_key bytes_eq
reserved_run = refl

reserve_peer-room_example :
    (is_known_self_addr toy_net peer_addr table.self_addrs ≡ false)
    × (ban_score (ban_key toy_net peer_addr) table.ban_scores < ban_threshold)
    × (((false || is_static_peer toy_net peer_addr config.connect) ≡ true)
        ⊎ (pending_peer_count reserved_table.peers ≤ max_pending_peers config.max_peers))
reserve_peer-room_example =
    reserve_peer-room toy_net config table reserved_table peer_addr true false reserved_run

-- Two invalid blocks, and between them a malformed message from elsewhere.
abbrev penalties : List (Bytes × ℕ)
penalties = (peer_addr, 50) ∷ (66 ∷ 66 ∷ [], 100) ∷ (peer_addr, 50) ∷ []

abbrev utxo : ℕ → Bool → WalletUtxo
utxo v locked = record {
  address = [];
  tx_hash = [];
  vout = 0;
  value = pos v;
  height = 0;
  coinbase = false;
  mature = true;
  pending = locked;
}

abbrev utxos : List WalletUtxo
utxos = utxo 5 false ∷ utxo 9 true ∷ utxo 7 false ∷ utxo 1 false ∷ []

select_utxos-Selects_example : Selects (spendable utxos) 8 (select_utxos utxos (pos 8))
select_utxos-Selects_example =
    select_utxos-Selects utxos 8 (omega arith)
      (omega arith, (omega arith, (omega arith, (omega arith, tt)))) (omega arith)

abbrev book_entries : HashMap AddrBookEntry
book_entries =
    (
      peer_addr,
      record { address = peer_addr; source = seed; last_success = pos 0; failures = pos 1 },
    )
    ∷ []

early_run : ltb_ℤ (pos 1000000009 -ℤ pos 9) (pos discovery_retry) ≡ true
unfolding ◌-ℤ◌
early_run = refl

-- A second run, a second later.
candidates_loop_again_example :
    let run = candidates_loop toy_net config table (67 ∷ []) (pos 9) [] book_entries in
    let again =
      candidates_loop toy_net config table (67 ∷ []) (pos 1000000009) (run.1) book_entries in
    All (λ a. All (λ b. b ≢ a) (again.0)) (run.0)
candidates_loop_again_example =
    candidates_loop_again toy_net config config table table (67 ∷ []) (67 ∷ []) (pos 9)
      (pos 1000000009) [] book_entries book_entries early_run

first_candidates :
    (candidates_loop toy_net config table (67 ∷ []) (pos 9) [] book_entries).0 ≡ peer_addr ∷ []
unfolding candidates_loop is_candidate has_peer_for_advertised_addr dialled_recently
    is_known_self_addr is_static_peer normalize_addr has_peer_for_host is_exempt any_peer is_peer_of
    ban_score ban_key find has_addr has_key bytes_eq
first_candidates = refl
