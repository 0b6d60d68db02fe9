-- ===== src/P2p/Sync/RoundTrip.antt =====
-- The payloads of list messages are read back, and are accepted only within their limits.
use pacd.Base.{
  ℕ, ◌≤◌, ◌<◌, ◌≡◌, refl, arith, false, ltb, List, [], ◌∷◌, ◌++◌, append_assoc, append-nil, Bytes,
  length, All, concat_map,
}
use pacd.Base.Words.{u32_mod}
use pacd.Base.Result.{ok}
use pacd.Wire.Reader.{
  Reader, read_full, read_full-append, put_le, read_le-put_le, read_many-write_end,
}
use pacd.Wire.Tx.{Hash}
use pacd.Wire.Header.{BlockHeader, header_bytes, deserialize_header}
use pacd.Wire.Header.RoundTrip.{
  IsHeader, read_header-header_bytes, serialize_header-eq-ok, length-header_bytes,
}
use pacd.P2p.Sync.{
  InvVector, write_headers, serialize_headers, read_message_header, read_list, deserialize_headers,
  serialize_get_blocks, deserialize_get_blocks, write_inv_vector, serialize_inventory,
  read_inv_vector, deserialize_inventory, write_addrs, serialize_addr_list, read_addr,
  deserialize_addr_list,
}

read_list-write :
    {A : Type 0} (P : A → Type 0) (write : A → Bytes) (read : Reader A) (max : ℕ) (xs : List A)
    → ((a : A) (rest : Bytes) → P a → read (write a ++ rest) ≡ ok (a, rest))
    → All P xs
    → length xs ≤ max
    → max < u32_mod
    → read_list max read (put_le 4 (length xs) ++ concat_map write xs) ≡ ok xs
unfolding read_list
read_list-write P write read max xs one h hl hm =
    let few : ltb max (length xs) ≡ false = ground arith in
    simp (
      read_le-put_le 4 (length xs) (concat_map write xs) (omega arith),
      few,
      read_many-write_end P write read one xs h,
    )

module _ (h : BlockHeader) (v : IsHeader h) where
  deserialize-header_bytes : deserialize_header (header_bytes h) ≡ ok h
  unfolding deserialize_header
  deserialize-header_bytes = simp (rw append-nil at (read_header-header_bytes h [] v))

  read_message_header-header_bytes :
      (rest : Bytes) → read_message_header (header_bytes h ++ rest) ≡ ok (h, rest)
  unfolding read_message_header
  read_message_header-header_bytes rest = simp (
    read_full-append 180 (header_bytes h) rest (length-header_bytes h v),
    deserialize-header_bytes,
  )

write_headers-eq-ok :
    (hs : List BlockHeader) → All IsHeader hs → write_headers hs ≡ ok (concat_map header_bytes hs)
unfolding write_headers
write_headers-eq-ok [] v = refl
write_headers-eq-ok (h ∷ hs) (v, vs) = simp (serialize_header-eq-ok h v, write_headers-eq-ok hs vs)

-- Up to 2000 headers whose fields are in range are serialized, and read back from the payload.
deserialize-serialize_headers :
    (hs : List BlockHeader)
    → All IsHeader hs
    → length hs ≤ 2000
    → (s : Bytes) × (serialize_headers hs ≡ ok s) × (deserialize_headers s ≡ ok hs)
unfolding serialize_headers deserialize_headers
deserialize-serialize_headers hs v n =
    let few : ltb 2000 (length hs) ≡ false = ground arith in
    (
      put_le 4 (length hs) ++ concat_map header_bytes hs,
      simp (few, write_headers-eq-ok hs v),
      read_list-write IsHeader header_bytes read_message_header 2000 hs
          (λ h rest vh. read_message_header-header_bytes h vh rest) v n (omega arith),
    )

abbrev pub IsHash : Hash → Type 0
IsHash h = length h ≡ 32

-- Up to 2000 hashes are serialized, and read back from the payload.
pub deserialize-serialize_get_blocks :
    (hashes : List Hash)
    → All IsHash hashes
    → length hashes ≤ 2000
    → (s : Bytes) × (serialize_get_blocks hashes ≡ ok s) × (deserialize_get_blocks s ≡ ok hashes)
unfolding serialize_get_blocks deserialize_get_blocks
deserialize-serialize_get_blocks hashes v n =
    let few : ltb 2000 (length hashes) ≡ false = ground arith in
    (
      _,
      rw few refl,
      read_list-write IsHash (λ hash. hash) (read_full 32) 2000 hashes
          (λ h rest vh. read_full-append 32 h rest vh) v n (omega arith),
    )

-- The ranges of the fields of an inventory vector.
abbrev pub IsInvVector : InvVector → Type 0
IsInvVector item = (item.kind < u32_mod) × (length item.hash ≡ 32)

read-write_inv_vector :
    (item : InvVector) (rest : Bytes)
    → IsInvVector item
    → read_inv_vector (write_inv_vector item ++ rest) ≡ ok (item, rest)
unfolding read_inv_vector write_inv_vector
read-write_inv_vector item rest (hk, hh) =
    simp (append_assoc, read_le-put_le 4 item.kind _ hk, read_full-append 32 item.hash rest hh)

-- Up to 1000 inventory vectors are serialized, and read back from the payload.
pub deserialize-serialize_inventory :
    (items : List InvVector)
    → All IsInvVector items
    → length items ≤ 1000
    → (s : Bytes) × (serialize_inventory items ≡ ok s) × (deserialize_inventory s ≡ ok items)
unfolding serialize_inventory deserialize_inventory
deserialize-serialize_inventory items v n =
    let few : ltb 1000 (length items) ≡ false = ground arith in
    (
      _,
      rw few refl,
      read_list-write IsInvVector write_inv_vector read_inv_vector 1000 items read-write_inv_vector
          v n (omega arith),
    )

-- The length byte and the bytes of an address.
abbrev addr_bytes : Bytes → Bytes
addr_bytes addr = put_le 1 (length addr) ++ addr

abbrev pub IsAddr : Bytes → Type 0
IsAddr addr = length addr ≤ 255

read_addr-addr_bytes :
    (addr rest : Bytes) → IsAddr addr → read_addr (addr_bytes addr ++ rest) ≡ ok (addr, rest)
unfolding read_addr
read_addr-addr_bytes addr rest h = simp (
  append_assoc,
  read_le-put_le 1 (length addr) (addr ++ rest) (omega arith),
  read_full-append (length addr) addr rest refl,
)

write_addrs-eq-ok :
    (addrs : List Bytes) → All IsAddr addrs → write_addrs addrs ≡ ok (concat_map addr_bytes addrs)
unfolding write_addrs put_le
write_addrs-eq-ok [] v = refl
write_addrs-eq-ok (a ∷ as') (v, vs) =
    let short : ltb 255 (length a) ≡ false = ground arith in simp (short, write_addrs-eq-ok as' vs)

-- Up to 1000 addresses of at most 255 bytes are serialized, and read back from the payload.
pub deserialize-serialize_addr_list :
    (addrs : List Bytes)
    → All IsAddr addrs
    → length addrs ≤ 1000
    → (s : Bytes) × (serialize_addr_list addrs ≡ ok s) × (deserialize_addr_list s ≡ ok addrs)
unfolding serialize_addr_list deserialize_addr_list
deserialize-serialize_addr_list addrs v n =
    let few : ltb 1000 (length addrs) ≡ false = ground arith in
    (
      put_le 4 (length addrs) ++ concat_map addr_bytes addrs,
      simp (few, write_addrs-eq-ok addrs v),
      read_list-write IsAddr addr_bytes read_addr 1000 addrs read_addr-addr_bytes v n (omega arith),
    )
