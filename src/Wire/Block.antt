-- ===== src/Wire/Block.antt =====
-- internal/wire/block.go: blocks and their serialization.
pub mod RoundTrip
use pacd.Base.{ℕ, ◌^◌, Bytes, List, [], ◌∷◌, ◌++◌, ltb, length}
use pacd.Base.Result.{Result, ok, reject_if, ◌>>=◌, ◌>>◌, trailing_bytes, block_size}
use pacd.Wire.Reader.{Reader, read_many}
use pacd.Wire.VarInt.{write_var_int, read_var_int, write_var_bytes, read_var_bytes}
use pacd.Wire.Tx.{Hash, MsgTx, serialize_tx, deserialize_tx, make_pointers}
use pacd.Wire.Header.{BlockHeader, serialize_header, read_header, header_hash}
use pacd.Base.{concat_map}

pub record MsgBlock : Type 0 where
  pub header : BlockHeader
  pub transactions : List MsgTx

unfoldable pub write_block_tx : MsgTx → Bytes
write_block_tx tx = write_var_bytes (serialize_tx tx)

unfoldable pub serialize_block : MsgBlock → Result Bytes
unfolding write_block_tx
serialize_block b = do
  header ← serialize_header b.header
  ok (header ++ (write_var_int (length b.transactions) ++ concat_map write_block_tx b.transactions))

unfoldable pub serialized_size : MsgBlock → Result ℕ
unfolding serialize_block
serialized_size b = do
  serialized ← serialize_block b
  reject_if (ltb 4294967295 (length serialized)) block_size
  ok (length serialized)

unfoldable pub refresh_header_size : MsgBlock → Result MsgBlock
unfolding serialized_size
refresh_header_size b = do
  size ← serialized_size b
  let header = b.header
  ok (record b { header = record header { size = size } })

-- One round of the loop over transactions.
unfoldable pub read_block_tx : Reader MsgTx
read_block_tx s = do
  (serialized, s₁) ← read_var_bytes s
  tx ← deserialize_tx serialized
  ok (tx, s₁)

unfoldable pub deserialize_block : Bytes → Result MsgBlock
deserialize_block s = do
  (header, s₁) ← read_header s
  (count, s₂) ← read_var_int s₁
  make_pointers count
  (txs, s₃) ← read_many count read_block_tx s₂
  reject_if (ltb 0 (length s₃)) trailing_bytes
  ok (record { header = header; transactions = txs })

-- `BlockHash` of a block. `MustBlockHash` panics where this returns an error.
unfoldable pub block_hash : (Bytes → Hash) → MsgBlock → Result Hash
block_hash sum256 b = header_hash sum256 b.header
