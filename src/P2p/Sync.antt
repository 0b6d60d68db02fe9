-- ===== src/P2p/Sync.antt =====
-- internal/p2p/sync.go: lists of headers, hashes, inventory vectors and addresses.
pub mod RoundTrip
use pacd.Base.{
  ℕ, ◌^◌, ◌%◌, List, [], ◌∷◌, ◌++◌, Bytes, ltb, not, ◌==◌, if◌then◌else◌, length, concat_map,
}
use pacd.Base.Result.{
  Result, ok, err, reject_if, ◌>>=◌, ◌>>◌, item_count, addr_length, trailing_bytes, payload_length,
}
use pacd.Wire.Reader.{Reader, read_full, read_le, put_le, from_le, read_many}
use pacd.Wire.Tx.{Hash}
use pacd.Wire.Header.{BlockHeader, serialize_header, deserialize_header, max_block_header_payload}

abbrev pub max_headers_per_message : ℕ
max_headers_per_message = 2000

abbrev pub max_blocks_per_request : ℕ
max_blocks_per_request = max_headers_per_message

abbrev pub max_inventory_items : ℕ
max_inventory_items = 1000

abbrev pub max_addr_items : ℕ
max_addr_items = 1000

abbrev pub max_addr_length : ℕ
max_addr_length = 255

pub record InvVector : Type 0 where
  pub kind : ℕ
  pub hash : Hash

unfoldable pub serialize_get_headers : ℕ → Bytes
serialize_get_headers start_height = put_le 4 start_height

unfoldable pub deserialize_get_headers : Bytes → Result ℕ
deserialize_get_headers payload = do
  reject_if (not (length payload == 4)) payload_length
  ok (from_le payload)

-- The loop of `Headers.Serialize`.
unfoldable pub write_headers : List BlockHeader → Result Bytes
write_headers [] = ok []
write_headers (h ∷ hs) = do
  serialized ← serialize_header h
  rest ← write_headers hs
  ok (serialized ++ rest)

unfoldable pub serialize_headers : List BlockHeader → Result Bytes
unfolding write_headers
serialize_headers hs = do
  reject_if (ltb max_headers_per_message (length hs)) item_count
  serialized ← write_headers hs
  ok (put_le 4 (length hs) ++ serialized)

unfoldable pub read_message_header : Reader BlockHeader
read_message_header s = do
  (header_bytes, s₁) ← read_full max_block_header_payload s
  header ← deserialize_header header_bytes
  ok (header, s₁)

-- What the four list readers share: the count, its limit, the items, and no byte behind them.
unfoldable pub read_list : {A : Type 0} → ℕ → Reader A → Bytes → Result (List A)
read_list max read payload = do
  (count, s₁) ← read_le 4 payload
  reject_if (ltb max count) item_count
  (items, s₂) ← read_many count read s₁
  reject_if (not (length s₂ == 0)) trailing_bytes
  ok items

unfoldable pub deserialize_headers : Bytes → Result (List BlockHeader)
unfolding read_list
deserialize_headers payload = read_list max_headers_per_message read_message_header payload

unfoldable pub serialize_get_blocks : List Hash → Result Bytes
serialize_get_blocks hashes = do
  reject_if (ltb max_blocks_per_request (length hashes)) item_count
  ok (put_le 4 (length hashes) ++ concat_map (λ hash. hash) hashes)

unfoldable pub deserialize_get_blocks : Bytes → Result (List Hash)
unfolding read_list
deserialize_get_blocks payload = read_list max_blocks_per_request (read_full 32) payload

unfoldable pub write_inv_vector : InvVector → Bytes
write_inv_vector item = put_le 4 item.kind ++ item.hash

unfoldable pub serialize_inventory : List InvVector → Result Bytes
unfolding write_inv_vector
serialize_inventory items = do
  reject_if (ltb max_inventory_items (length items)) item_count
  ok (put_le 4 (length items) ++ concat_map write_inv_vector items)

unfoldable pub read_inv_vector : Reader InvVector
read_inv_vector s = do
  (kind, s₁) ← read_le 4 s
  (hash, s₂) ← read_full 32 s₁
  ok (record { kind = kind; hash = hash }, s₂)

unfoldable pub deserialize_inventory : Bytes → Result (List InvVector)
unfolding read_list
deserialize_inventory payload = read_list max_inventory_items read_inv_vector payload

-- The loop of `AddrList.Serialize`.
unfoldable pub write_addrs : List Bytes → Result Bytes
write_addrs [] = ok []
write_addrs (addr ∷ addrs) = do
  reject_if (ltb max_addr_length (length addr)) addr_length
  rest ← write_addrs addrs
  ok (((length addr % 256) ∷ addr) ++ rest)

unfoldable pub serialize_addr_list : List Bytes → Result Bytes
unfolding write_addrs
serialize_addr_list addrs = do
  reject_if (ltb max_addr_items (length addrs)) item_count
  serialized ← write_addrs addrs
  ok (put_le 4 (length addrs) ++ serialized)

unfoldable pub read_addr : Reader Bytes
read_addr s = do (n, s₁) ← read_le 1 s; read_full n s₁

unfoldable pub deserialize_addr_list : Bytes → Result (List Bytes)
unfolding read_list
deserialize_addr_list payload = read_list max_addr_items read_addr payload
