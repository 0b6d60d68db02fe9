-- ===== src/P2p/Version.antt =====
-- internal/p2p/version.go. A string is its bytes.
pub mod RoundTrip
use pacd.Base.{ℕ, ◌^◌, ◌%◌, List, [], ◌∷◌, ◌++◌, Bytes, ltb, if◌then◌else◌, length, take, writes}
use pacd.Base.Int.{ℤ}
use pacd.Base.Words.{to_u64, of_u64}
use pacd.Base.Result.{Result, ok, reject_if, ◌>>=◌, ◌>>◌, string_length, trailing_bytes}
use pacd.Wire.Reader.{Reader, read_full, read_le, put_le}
use pacd.Wire.Tx.{Hash}

abbrev pub protocol_version : ℕ
protocol_version = 1

pub record Version : Type 0 where
  pub protocol : ℕ
  pub network : Bytes
  pub genesis_hash : Hash
  pub best_height : ℕ
  pub nonce : ℕ
  pub listen_addr : Bytes
  pub user_agent : Bytes
  pub timestamp : ℤ

-- `NewVersion`, with the clock's seconds as an argument.
unfoldable pub new_version : Bytes → Hash → ℕ → ℕ → Bytes → Bytes → ℤ → Version
new_version network genesis_hash best_height nonce listen_addr user_agent now = record {
  protocol = protocol_version;
  network = network;
  genesis_hash = genesis_hash;
  best_height = best_height;
  nonce = nonce;
  listen_addr = listen_addr;
  user_agent = user_agent;
  timestamp = now;
}

unfoldable pub write_string : Bytes → Bytes
write_string s = let t = if ltb 255 (length s) then take 255 s else s in (length t % 256) ∷ t

-- The tests on the length, and the read.
read_string_tail : ℕ → ℕ → Reader Bytes
read_string_tail max n s = do
  reject_if (ltb max n) string_length
  reject_if (ltb (length s) n) string_length
  read_full n s

unfoldable pub read_string : ℕ → Reader Bytes
unfolding read_string_tail
read_string max s = do (n, s₁) ← read_le 1 s; read_string_tail max n s₁

unfoldable pub serialize_version : Version → Bytes
unfolding write_string
serialize_version v = writes (
    put_le 4 v.protocol
    ∷ write_string v.network
    ∷ v.genesis_hash
    ∷ put_le 4 v.best_height
    ∷ put_le 8 v.nonce
    ∷ write_string v.listen_addr
    ∷ write_string v.user_agent
    ∷ put_le 8 (to_u64 v.timestamp)
    ∷ [])

unfoldable pub deserialize_version : Bytes → Result Version
deserialize_version payload = do
  (protocol, s₁) ← read_le 4 payload
  (network, s₂) ← read_string 32 s₁
  (genesis_hash, s₃) ← read_full 32 s₂
  (best_height, s₄) ← read_le 4 s₃
  (nonce, s₅) ← read_le 8 s₄
  (listen_addr, s₆) ← read_string 255 s₅
  (user_agent, s₇) ← read_string 128 s₆
  (timestamp, s₈) ← read_le 8 s₇
  reject_if (ltb 0 (length s₈)) trailing_bytes
  ok (record {
    protocol = protocol;
    network = network;
    genesis_hash = genesis_hash;
    best_height = best_height;
    nonce = nonce;
    listen_addr = listen_addr;
    user_agent = user_agent;
    timestamp = of_u64 timestamp;
  })
