-- ===== src/P2p/Version/RoundTrip.antt =====
-- A version message is read back from its payload.
use pacd.Base.{
  ℕ, ◌≤◌, ◌<◌, ◌≡◌, refl, arith, false, ltb, ◌++◌, append_assoc, append-nil, Bytes, length,
  length-append,
}
use pacd.Base.Words.{u32_mod, u64_mod, IsInt64, to_u64-lt, of_u64-to_u64}
use pacd.Base.Result.{ok}
use pacd.Wire.Reader.{read_full-append, put_le, read_le-put_le, read_le-put_le_end}
use pacd.P2p.Version.{
  Version, write_string, read_string, read_string_tail, serialize_version, deserialize_version,
}

-- The ranges of the Go fields, and strings no longer than their readers allow.
pub record IsVersion (v : Version) : Type 0 where
  pub protocol : v.protocol < u32_mod
  pub network : length v.network ≤ 32
  pub genesis_hash : length v.genesis_hash ≡ 32
  pub best_height : v.best_height < u32_mod
  pub nonce : v.nonce < u64_mod
  pub listen_addr : length v.listen_addr ≤ 255
  pub user_agent : length v.user_agent ≤ 128
  pub timestamp : IsInt64 v.timestamp

read_string_tail-append :
    (max : ℕ) (b rest : Bytes)
    → length b ≤ max
    → read_string_tail max (length b) (b ++ rest) ≡ ok (b, rest)
unfolding read_string_tail
read_string_tail-append max b rest h =
    let short : ltb max (length b) ≡ false = ground arith in
    let inside : ltb (length (b ++ rest)) (length b) ≡ false =
      ground (arith, length-append b rest) in
    simp (short, inside, read_full-append (length b) b rest refl)

write_string_short : (b : Bytes) → length b ≤ 255 → write_string b ≡ put_le 1 (length b) ++ b
unfolding write_string put_le
write_string_short b h = let short : ltb 255 (length b) ≡ false = ground arith in simp (short)

-- A string of at most 255 bytes that its reader allows is read back from what was written.
pub read-write_string :
    (max : ℕ) (b rest : Bytes)
    → length b ≤ max
    → max ≤ 255
    → read_string max (write_string b ++ rest) ≡ ok (b, rest)
unfolding read_string
read-write_string max b rest h hm = simp (
  write_string_short b (omega arith),
  append_assoc,
  read_le-put_le 1 (length b) (b ++ rest) (omega arith),
  read_string_tail-append max b rest h,
)

-- A version message whose fields are in range is read back from its payload.
pub deserialize-serialize_version :
    (v : Version) → IsVersion v → deserialize_version (serialize_version v) ≡ ok v
unfolding deserialize_version serialize_version
deserialize-serialize_version v h = simp (
  append_assoc,
  append-nil,
  read_le-put_le 4 v.protocol _ h.protocol,
  read-write_string 32 v.network _ h.network (omega arith),
  read_full-append 32 v.genesis_hash _ h.genesis_hash,
  read_le-put_le 4 v.best_height _ h.best_height,
  read_le-put_le 8 v.nonce _ h.nonce,
  read-write_string 255 v.listen_addr _ h.listen_addr (omega arith),
  read-write_string 128 v.user_agent _ h.user_agent (omega arith),
  read_le-put_le_end 8 _ (to_u64-lt v.timestamp),
  of_u64-to_u64 v.timestamp h.timestamp,
)
