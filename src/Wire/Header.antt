-- ===== src/Wire/Header.antt =====
-- internal/wire/block.go: block headers, 180 bytes on the wire.
pub mod RoundTrip
pub mod Decode
use pacd.Base.{
  ℕ, ◌^◌, ◌≡◌, ◌||◌, List, [], ◌∷◌, ◌++◌, Bytes, ltb, not, ◌==◌, if◌then◌else◌, length, writes,
}
use pacd.Base.Int.{ℤ, pos, ltb_ℤ}
use pacd.Base.Words.{to_u32, of_u32, to_u64, of_u64}
use pacd.Base.Result.{
  Result, ok, err, reject_if, ◌>>=◌, ◌>>◌, timestamp_range, header_length, trailing_bytes,
}
use pacd.Wire.Reader.{Reader, read_full, read_le, put_le}
use pacd.Wire.Tx.{Hash}

abbrev pub max_block_header_payload : ℕ
max_block_header_payload = 180

pub record BlockHeader : Type 0 where
  pub version : ℤ
  pub prev_block : Hash
  pub merkle_root : Hash
  pub stake_root : Hash
  pub vote_bits : ℕ
  pub final_state : Bytes
  pub voters : ℕ
  pub fresh_stake : ℕ
  pub revocations : ℕ
  pub pool_size : ℕ
  pub bits : ℕ
  pub s_bits : ℤ
  pub height : ℕ
  pub size : ℕ
  pub timestamp : ℤ
  pub nonce : ℕ
  pub extra_data : Bytes
  pub stake_version : ℕ

unfoldable pub header_bytes : BlockHeader → Bytes
header_bytes h = writes (
    put_le 4 (to_u32 h.version)
    ∷ h.prev_block
    ∷ h.merkle_root
    ∷ h.stake_root
    ∷ put_le 2 h.vote_bits
    ∷ h.final_state
    ∷ put_le 2 h.voters
    ∷ put_le 1 h.fresh_stake
    ∷ put_le 1 h.revocations
    ∷ put_le 4 h.pool_size
    ∷ put_le 4 h.bits
    ∷ put_le 8 (to_u64 h.s_bits)
    ∷ put_le 4 h.height
    ∷ put_le 4 h.size
    ∷ put_le 4 (to_u32 h.timestamp)
    ∷ put_le 4 h.nonce
    ∷ h.extra_data
    ∷ put_le 4 h.stake_version
    ∷ [])

unfoldable pub serialize_header : BlockHeader → Result Bytes
unfolding header_bytes
serialize_header h = do
  reject_if (ltb_ℤ h.timestamp (pos 0) || ltb_ℤ (pos 4294967295) h.timestamp) timestamp_range
  reject_if (not (length (header_bytes h) == max_block_header_payload)) header_length
  ok (header_bytes h)

-- `deserializeBlockHeader`.
unfoldable pub read_header : Reader BlockHeader
read_header s = do
  (version, s₁) ← read_le 4 s
  (prev, s₂) ← read_full 32 s₁
  (merkle, s₃) ← read_full 32 s₂
  (stake, s₄) ← read_full 32 s₃
  (vote_bits, s₅) ← read_le 2 s₄
  (final_state, s₆) ← read_full 6 s₅
  (voters, s₇) ← read_le 2 s₆
  (fresh, s₈) ← read_le 1 s₇
  (revocations, s₉) ← read_le 1 s₈
  (pool, s₁₀) ← read_le 4 s₉
  (bits, s₁₁) ← read_le 4 s₁₀
  (s_bits, s₁₂) ← read_le 8 s₁₁
  (height, s₁₃) ← read_le 4 s₁₂
  (size, s₁₄) ← read_le 4 s₁₃
  (timestamp, s₁₅) ← read_le 4 s₁₄
  (nonce, s₁₆) ← read_le 4 s₁₅
  (extra, s₁₇) ← read_full 32 s₁₆
  (stake_version, s₁₈) ← read_le 4 s₁₇
  ok (
    record {
      version = of_u32 version;
      prev_block = prev;
      merkle_root = merkle;
      stake_root = stake;
      vote_bits = vote_bits;
      final_state = final_state;
      voters = voters;
      fresh_stake = fresh;
      revocations = revocations;
      pool_size = pool;
      bits = bits;
      s_bits = of_u64 s_bits;
      height = height;
      size = size;
      timestamp = pos timestamp;
      nonce = nonce;
      extra_data = extra;
      stake_version = stake_version;
    },
    s₁₈,
  )

-- `DeserializeBlockHeader`.
unfoldable pub deserialize_header : Bytes → Result BlockHeader
deserialize_header s = do
  (h, rest) ← read_header s
  reject_if (ltb 0 (length rest)) trailing_bytes
  ok h

-- `BlockHash`.
unfoldable pub header_hash : (Bytes → Hash) → BlockHeader → Result Hash
header_hash sum256 h = do serialized ← serialize_header h; ok (sum256 serialized)
