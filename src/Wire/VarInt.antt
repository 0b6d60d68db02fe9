-- ===== src/Wire/VarInt.antt =====
-- internal/wire/tx.go: `writeVarInt`, `writeVarBytes` and their readers.
use pacd.Base.{
  ℕ, ◌<◌, ◌≡◌, refl, Bytes, ◌∷◌, ◌++◌, append_assoc, arith, ltb, leb, ◌==◌, if◌then◌else◌, length,
  length-append,
}
use pacd.Base.Words.{u64_mod}
use pacd.Base.Result.{ok, err, ◌>>=◌, var_bytes_length}
use pacd.Wire.Reader.{Reader, read_full, from_le, read_le, put_le, read_le-put_le, read_full-append}

unfoldable pub write_var_int : ℕ → Bytes
write_var_int val =
    if ltb val 0xfd
    then put_le 1 val
    else if leb val 0xffff
    then 0xfd ∷ put_le 2 val
    else if leb val 0xffffffff
    then 0xfe ∷ put_le 4 val
    else 0xff ∷ put_le 8 val

-- The `switch` on the prefix byte.
read_var_int_tail : ℕ → Reader ℕ
read_var_int_tail prefix s =
    if prefix == 0xfd
    then read_le 2 s
    else if prefix == 0xfe
    then read_le 4 s
    else if prefix == 0xff
    then read_le 8 s
    else ok (prefix, s)

unfoldable pub read_var_int : Reader ℕ
unfolding read_var_int_tail
read_var_int s = do (prefix, s₁) ← read_le 1 s; read_var_int_tail prefix s₁

unfoldable pub write_var_bytes : Bytes → Bytes
write_var_bytes b = write_var_int (length b) ++ b

-- `make([]byte, length)` and `io.ReadFull` after the test against what is left.
read_var_bytes_tail : ℕ → Reader Bytes
read_var_bytes_tail n s = if leb n (length s) then read_full n s else err var_bytes_length

unfoldable pub read_var_bytes : Reader Bytes
unfolding read_var_bytes_tail
read_var_bytes s = do (n, s₁) ← read_var_int s; read_var_bytes_tail n s₁

read_le-one : (b : ℕ) (s : Bytes) → read_le 1 (b ∷ s) ≡ ok (b, s)
unfolding read_le read_full from_le
read_le-one b s = ground arith

put_le_one : (b : ℕ) (s : Bytes) → b < 256 → put_le 1 b ++ s ≡ b ∷ s
unfolding put_le
put_le_one b s h = ground arith

-- A value of up to 64 bits is read back from what was written, whatever follows.
pub read-write_var_int :
    (val : ℕ) (rest : Bytes)
    → val < u64_mod
    → read_var_int (write_var_int val ++ rest) ≡ ok (val, rest)
unfolding read_var_int write_var_int
read-write_var_int val rest h = ground (
  arith,
  put_le_one val rest,
  read_le-one val rest,
  read_le-one 0xfd (put_le 2 val ++ rest),
  read_le-one 0xfe (put_le 4 val ++ rest),
  read_le-one 0xff (put_le 8 val ++ rest),
  read_le-put_le 2 val rest,
  read_le-put_le 4 val rest,
  read_le-put_le 8 val rest,
)

-- A byte string is read back from its length-prefixed form, whatever follows.
pub read-write_var_bytes :
    (b rest : Bytes)
    → length b < u64_mod
    → read_var_bytes (write_var_bytes b ++ rest) ≡ ok (b, rest)
unfolding read_var_bytes write_var_bytes
read-write_var_bytes b rest h = rw (append_assoc (write_var_int (length b)) b rest) (
    rw (read-write_var_int (length b) (b ++ rest) h)
      (ground (arith, length-append b rest, read_full-append (length b) b rest refl)))
