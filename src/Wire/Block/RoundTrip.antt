-- ===== src/Wire/Block/RoundTrip.antt =====
-- Blocks survive serialization, and `RefreshHeaderSize` states the true size.
use pacd.Base.{ℕ, ◌<◌, ◌≤◌, ◌≡◌, sym, ◌++◌, arith, Bytes, length, length-append, All, concat_map}
use pacd.Base.Words.{u64_mod, u32_mod}
use pacd.Base.Result.{ok}
use pacd.Wire.Reader.{read_many-write_end}
use pacd.Wire.VarInt.{write_var_int, read-write_var_int, read-write_var_bytes}
use pacd.Wire.Tx.{MsgTx, serialize_tx, max_pointers}
use pacd.Wire.Tx.RoundTrip.{IsMsgTx, make_pointers-eq-ok, deserialize-serialize_tx}
use pacd.Wire.Header.{header_bytes}
use pacd.Wire.Header.RoundTrip.{
  IsHeader, serialize_header-eq-ok, read_header-header_bytes, length-header_bytes,
}
use pacd.Wire.Block.{
  MsgBlock, write_block_tx, serialize_block, serialized_size, refresh_header_size, read_block_tx,
  deserialize_block,
}

abbrev pub IsBlockTx : MsgTx → Type 0
IsBlockTx tx = IsMsgTx tx × (length (serialize_tx tx) < u64_mod)

pub record IsBlock (b : MsgBlock) : Type 0 where
  pub header : IsHeader b.header
  pub transactions : All IsBlockTx b.transactions
  pub count : length b.transactions ≤ max_pointers

read-write_block_tx :
    (tx : MsgTx) (rest : Bytes)
    → IsBlockTx tx
    → read_block_tx (write_block_tx tx ++ rest) ≡ ok (tx, rest)
unfolding read_block_tx write_block_tx
read-write_block_tx tx rest (valid, short) =
    simp (read-write_var_bytes (serialize_tx tx) rest short, deserialize-serialize_tx tx valid)

pub block_bytes : MsgBlock → Bytes
block_bytes b =
    header_bytes b.header
    ++ (write_var_int (length b.transactions) ++ concat_map write_block_tx b.transactions)

pub serialize_block-eq-ok :
    (b : MsgBlock) → IsHeader b.header → serialize_block b ≡ ok (block_bytes b)
unfolding serialize_block block_bytes
serialize_block-eq-ok b v = rw (serialize_header-eq-ok b.header v)

deserialize-block_bytes : (b : MsgBlock) → IsBlock b → deserialize_block (block_bytes b) ≡ ok b
unfolding deserialize_block block_bytes
deserialize-block_bytes b v = simp (
  read_header-header_bytes b.header _ v.header,
  read-write_var_int (length b.transactions) _ (omega (arith, v.count)),
  make_pointers-eq-ok (length b.transactions) v.count,
  read_many-write_end IsBlockTx write_block_tx read_block_tx read-write_block_tx b.transactions
      v.transactions,
)

-- A block whose fields are in range is serialized, and read back from its serialization.
pub deserialize-serialize_block :
    (b : MsgBlock)
    → IsBlock b
    → (s : Bytes) × (serialize_block b ≡ ok s) × (deserialize_block s ≡ ok b)
deserialize-serialize_block b v =
    (block_bytes b, serialize_block-eq-ok b v.header, deserialize-block_bytes b v)

abbrev with_size : MsgBlock → ℕ → MsgBlock
with_size b n = let header = b.header in record b { header = record header { size = n } }

resize-IsHeader :
    (b : MsgBlock) (n : ℕ) → IsHeader b.header → n < u32_mod → IsHeader (with_size b n).header
resize-IsHeader b n v h = record {
  version = v.version;
  prev_block = v.prev_block;
  merkle_root = v.merkle_root;
  stake_root = v.stake_root;
  vote_bits = v.vote_bits;
  final_state = v.final_state;
  voters = v.voters;
  fresh_stake = v.fresh_stake;
  revocations = v.revocations;
  pool_size = v.pool_size;
  bits = v.bits;
  s_bits = v.s_bits;
  height = v.height;
  size = h;
  timestamp_low = v.timestamp_low;
  timestamp_high = v.timestamp_high;
  nonce = v.nonce;
  extra_data = v.extra_data;
  stake_version = v.stake_version;
}

length-block_bytes :
    (b : MsgBlock) (n : ℕ)
    → IsHeader b.header
    → n < u32_mod
    → length (block_bytes (with_size b n)) ≡ length (block_bytes b)
unfolding block_bytes
length-block_bytes b n v h = simp (
  length-append,
  length-header_bytes b.header v,
  length-header_bytes (with_size b n).header (resize-IsHeader b n v h),
)

-- `RefreshHeaderSize` succeeds on a header in range whose block fits 32 bits; it changes the size
-- field alone, and the new field is the length of the new block's serialization.
pub refresh_header_size_lem :
    (b : MsgBlock)
    → IsHeader b.header
    → length (block_bytes b) < u32_mod
    → (n : ℕ) × (s : Bytes) × (refresh_header_size b ≡ ok (with_size b n))
      × (serialize_block (with_size b n) ≡ ok s)
      × (n ≡ length s)
unfolding refresh_header_size serialized_size
refresh_header_size_lem b v h = (
  length (block_bytes b),
  block_bytes (with_size b (length (block_bytes b))),
  rw (serialize_block-eq-ok b v) (ground arith),
  serialize_block-eq-ok (with_size b (length (block_bytes b))) (resize-IsHeader b _ v h),
  sym (length-block_bytes b _ v h),
)
