-- ===== src/Wire/Header/RoundTrip.antt =====
-- Headers and 180-byte strings correspond, one to one.
use pacd.Base.{◌<◌, ◌≡◌, ◌++◌, append_assoc, arith, Bytes, length, length-append}
use pacd.Base.Int.{ℤ, pos, ◌≤ℤ◌}
use pacd.Base.Words.{
  u16_mod, u32_mod, IsInt32, IsInt64, to_u32, to_u32-lt, to_u64-lt, of_u32-to_u32, of_u64-to_u64,
}
use pacd.Base.Result.{ok}
use pacd.Wire.Reader.{read_full-append, read_le-put_le, length-put_le}
use pacd.Wire.Header.{BlockHeader, header_bytes, serialize_header, read_header}

-- The ranges of the Go fields, with a timestamp that fits 32 bits.
pub record IsHeader (h : BlockHeader) : Type 0 where
  pub version : IsInt32 h.version
  pub prev_block : length h.prev_block ≡ 32
  pub merkle_root : length h.merkle_root ≡ 32
  pub stake_root : length h.stake_root ≡ 32
  pub vote_bits : h.vote_bits < u16_mod
  pub final_state : length h.final_state ≡ 6
  pub voters : h.voters < u16_mod
  pub fresh_stake : h.fresh_stake < 256
  pub revocations : h.revocations < 256
  pub pool_size : h.pool_size < u32_mod
  pub bits : h.bits < u32_mod
  pub s_bits : IsInt64 h.s_bits
  pub height : h.height < u32_mod
  pub size : h.size < u32_mod
  pub timestamp_low : pos 0 ≤ℤ h.timestamp
  pub timestamp_high : h.timestamp ≤ℤ pos 4294967295
  pub nonce : h.nonce < u32_mod
  pub extra_data : length h.extra_data ≡ 32
  pub stake_version : h.stake_version < u32_mod

-- The fields fill the 180 bytes exactly.
pub length-header_bytes : (h : BlockHeader) → IsHeader h → length (header_bytes h) ≡ 180
unfolding header_bytes
length-header_bytes h v = simp (length-append, length-put_le) (omega arith)

pub serialize_header-eq-ok :
    (h : BlockHeader) → IsHeader h → serialize_header h ≡ ok (header_bytes h)
unfolding serialize_header
serialize_header-eq-ok h v = ground (arith, length-header_bytes h v)

pos-to_u32 : (z : ℤ) → pos 0 ≤ℤ z → z ≤ℤ pos 4294967295 → pos (to_u32 z) ≡ z
unfolding to_u32
pos-to_u32 z lo hi = ground arith

pub read_header-header_bytes :
    (h : BlockHeader) (rest : Bytes)
    → IsHeader h
    → read_header (header_bytes h ++ rest) ≡ ok (h, rest)
unfolding read_header header_bytes
read_header-header_bytes h rest v = simp (
  append_assoc,
  read_le-put_le 4 _ _ (to_u32-lt h.version),
  of_u32-to_u32 h.version v.version,
  read_full-append 32 h.prev_block _ v.prev_block,
  read_full-append 32 h.merkle_root _ v.merkle_root,
  read_full-append 32 h.stake_root _ v.stake_root,
  read_le-put_le 2 h.vote_bits _ v.vote_bits,
  read_full-append 6 h.final_state _ v.final_state,
  read_le-put_le 2 h.voters _ v.voters,
  read_le-put_le 1 h.fresh_stake _ v.fresh_stake,
  read_le-put_le 1 h.revocations _ v.revocations,
  read_le-put_le 4 h.pool_size _ v.pool_size,
  read_le-put_le 4 h.bits _ v.bits,
  read_le-put_le 8 _ _ (to_u64-lt h.s_bits),
  of_u64-to_u64 h.s_bits v.s_bits,
  read_le-put_le 4 h.height _ v.height,
  read_le-put_le 4 h.size _ v.size,
  read_le-put_le 4 _ _ (to_u32-lt h.timestamp),
  pos-to_u32 h.timestamp v.timestamp_low v.timestamp_high,
  read_le-put_le 4 h.nonce _ v.nonce,
  read_full-append 32 h.extra_data _ v.extra_data,
  read_le-put_le 4 h.stake_version _ v.stake_version,
)

-- A header whose fields are in range is serialized, and read back from its serialization; the
-- reader stops right behind it.
pub read-serialize_header :
    (h : BlockHeader) (rest : Bytes)
    → IsHeader h
    → (s : Bytes) × (serialize_header h ≡ ok s)
      × (length s ≡ 180)
      × (read_header (s ++ rest) ≡ ok (h, rest))
read-serialize_header h rest v = (
  header_bytes h,
  serialize_header-eq-ok h v,
  length-header_bytes h v,
  read_header-header_bytes h rest v,
)
