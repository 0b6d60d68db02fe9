-- ===== src/P2p/Message.antt =====
-- internal/p2p/message.go. A string is its bytes; `strings.TrimSpace` is a parameter.
pub mod RoundTrip
use pacd.Base.{
  ℕ, zero, suc, ◌-◌, ◌^◌, Bool, List, [], ◌∷◌, ◌++◌, Bytes, ltb, not, ◌==◌, if◌then◌else◌, length,
  take, drop, bytes_eq,
}
use pacd.Base.Result.{
  Result, ok, err, reject_if, ◌>>=◌, ◌>>◌, payload_length, magic_mismatch, checksum_mismatch,
}
use pacd.Wire.Reader.{Reader, read_full, put_le, from_le}
use pacd.Wire.Tx.{Hash}

abbrev pub header_size : ℕ
header_size = 24

abbrev pub command_size : ℕ
command_size = 12

abbrev pub max_payload_size : ℕ
max_payload_size = 1048576

pub record Message : Type 0 where
  pub command : Bytes
  pub payload : Bytes

-- `b[i : i+n]`, which is in range in every use.
abbrev pub slice : ℕ → ℕ → Bytes → Bytes
slice i n b = take n (drop i b)

-- `copy` into a fresh array of `n` bytes.
unfoldable pub copy_into : ℕ → Bytes → Bytes
copy_into zero b = []
copy_into (suc n) [] = 0 ∷ copy_into n []
copy_into (suc n) (x ∷ xs) = x ∷ copy_into n xs

-- The bytes before the first zero byte, all of them where there is none.
unfoldable pub parse_command : Bytes → Bytes
parse_command [] = []
parse_command (b ∷ bs) = let rest = parse_command bs in if b == 0 then [] else b ∷ rest

unfoldable pub checksum : (Bytes → Hash) → Bytes → Bytes
checksum sum256 payload = take 4 (sum256 payload)

module _ (sum256 : Bytes → Hash) (trim_space : Bytes → Bytes) where
  unfoldable pub command_bytes : Bytes → Bytes
  command_bytes command = copy_into command_size (trim_space command)

  -- The bytes that are written: the header and the payload.
  unfoldable pub write_message : ℕ → Message → Result Bytes
  write_message magic msg = do
    reject_if (ltb max_payload_size (length msg.payload)) payload_length
    ok (
        (put_le 4 magic
          ++ (command_bytes msg.command
              ++ (put_le 4 (length msg.payload) ++ checksum sum256 msg.payload)))
        ++ msg.payload)

  unfoldable pub read_message : ℕ → Reader Message
  read_message magic s = do
    (header, s₁) ← read_full header_size s
    reject_if (not (from_le (slice 0 4 header) == magic)) magic_mismatch
    let n = from_le (slice 16 4 header)
    reject_if (ltb max_payload_size n) payload_length
    (payload, s₂) ← if ltb 0 n then read_full n s₁ else ok ([], s₁)
    reject_if (not (bytes_eq (slice 20 4 header) (checksum sum256 payload))) checksum_mismatch
    ok (record { command = parse_command (slice 4 12 header); payload = payload }, s₂)
