-- ===== src/Tests/WireRuns.antt =====
-- Runs of the binary format.
use pacd.Base.{
  ℕ, zero, suc, ◌≡◌, ◌<◌, refl, arith, [], ◌∷◌, ◌++◌, Bytes, length, replicate, ◌⊎◌, IsByte, All,
}
use pacd.Base.Int.{pos}
use pacd.Base.Result.{ok, panic}
use pacd.Wire.Reader.{put_le}
use pacd.Wire.VarInt.{write_var_int, write_var_bytes}
use pacd.Wire.Tx.{MsgTx, zero_hash, serialize_tx, deserialize_tx, write_tx_in, write_tx_out}
use pacd.Wire.Tx.RoundTrip.{IsMsgTx, deserialize-serialize_tx, deserialize_tx_panics}
use pacd.Wire.Header.{BlockHeader, serialize_header, read_header, deserialize_header}
use pacd.Wire.Header.RoundTrip.{IsHeader, read-serialize_header}
use pacd.Wire.Header.Decode.{serialize-deserialize_header}
use pacd.Wire.Block.{MsgBlock, serialize_block, deserialize_block}
use pacd.Wire.Block.RoundTrip.{IsBlock, deserialize-serialize_block}
use pacd.Wire.Merkle.Binding.{Collision, calc_merkle_root_binding}
use pacd.Tests.{toy_hash, length-toy_hash, toy_header}

abbrev transfer : MsgTx
transfer = record {
  version = pos 1;
  tx_in =
      record {
        previous_out_point = record { hash = replicate 32 4; index = 1 };
        signature_script = 9 ∷ [];
        sequence = 7;
      }
      ∷ [];
  tx_out = record { value = pos 5; pk_script = 0x51 ∷ [] } ∷ [];
  lock_time = 0;
}

transfer-IsMsgTx : IsMsgTx transfer
transfer-IsMsgTx = record {
  version = (omega arith, omega arith);
  inputs = ((refl, omega arith, omega arith, omega arith), tt);
  input_count = omega arith;
  outputs = (((omega arith, omega arith), omega arith), tt);
  output_count = omega arith;
  lock_time = omega arith;
}

deserialize-serialize_tx_example : deserialize_tx (serialize_tx transfer) ≡ ok transfer
deserialize-serialize_tx_example = deserialize-serialize_tx transfer transfer-IsMsgTx

deserialize_tx_panics_example :
    deserialize_tx (put_le 4 1 ++ (write_var_int 9223372036854775808 ++ (1 ∷ []))) ≡ panic
deserialize_tx_panics_example =
    deserialize_tx_panics 1 9223372036854775808 (1 ∷ []) (omega arith) (omega arith) (omega arith)

toy_header-IsHeader : IsHeader toy_header
unfolding zero_hash
toy_header-IsHeader = record {
  version = (omega arith, omega arith);
  prev_block = refl;
  merkle_root = refl;
  stake_root = refl;
  vote_bits = omega arith;
  final_state = refl;
  voters = omega arith;
  fresh_stake = omega arith;
  revocations = omega arith;
  pool_size = omega arith;
  bits = omega arith;
  s_bits = (omega arith, omega arith);
  height = omega arith;
  size = omega arith;
  timestamp_low = omega arith;
  timestamp_high = omega arith;
  nonce = omega arith;
  extra_data = refl;
  stake_version = omega arith;
}

read-serialize_header_example :
    (s : Bytes) × (serialize_header toy_header ≡ ok s)
    × (length s ≡ 180)
    × (read_header (s ++ (1 ∷ [])) ≡ ok (toy_header, 1 ∷ []))
read-serialize_header_example = read-serialize_header toy_header (1 ∷ []) toy_header-IsHeader

ones-IsByte : (n : ℕ) → All IsByte (replicate n 1)
ones-IsByte zero = tt
ones-IsByte (suc n) = (omega arith, ones-IsByte n)

abbrev all_ones : Bytes
all_ones = replicate 180 1

serialize-deserialize_header_example :
    (h : BlockHeader) × (deserialize_header all_ones ≡ ok h) × (serialize_header h ≡ ok all_ones)
serialize-deserialize_header_example = serialize-deserialize_header all_ones (ones-IsByte 180) refl

abbrev small_block : MsgBlock
small_block = record { header = toy_header; transactions = transfer ∷ [] }

transfer-short : length (serialize_tx transfer) < 18446744073709551616
unfolding serialize_tx write_var_int write_var_bytes write_tx_in write_tx_out put_le
transfer-short = omega arith

small_block-IsBlock : IsBlock small_block
small_block-IsBlock = record {
  header = toy_header-IsHeader;
  transactions = ((transfer-IsMsgTx, transfer-short), tt);
  count = omega arith;
}

deserialize-serialize_block_example :
    (s : Bytes) × (serialize_block small_block ≡ ok s) × (deserialize_block s ≡ ok small_block)
deserialize-serialize_block_example = deserialize-serialize_block small_block small_block-IsBlock

calc_merkle_root_binding_example : (transfer ∷ [] ≡ transfer ∷ []) ⊎ Collision toy_hash
calc_merkle_root_binding_example =
    calc_merkle_root_binding toy_hash length-toy_hash (transfer ∷ []) (transfer ∷ []) refl
      (transfer-IsMsgTx, tt) (transfer-IsMsgTx, tt) refl
