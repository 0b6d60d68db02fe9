-- ===== src/Wire/Tx/RoundTrip.antt =====
-- Transactions survive serialization.
use pacd.Base.{ℕ, ◌<◌, ◌≤◌, ◌≡◌, ◌++◌, append_assoc, arith, Bytes, length, All, lt→ltb}
use pacd.Base.Words.{
  u32_mod, u64_mod, IsInt32, IsInt64, to_u32-lt, to_u64-lt, of_u32-to_u32, of_u64-to_u64,
}
use pacd.Base.Result.{ok, panic}
use pacd.Wire.Reader.{put_le, read_full-append, read_le-put_le, read_le-put_le_end, read_many-write}
use pacd.Wire.VarInt.{write_var_int, read-write_var_int, read-write_var_bytes}
use pacd.Wire.Tx.{
  TxIn, TxOut, MsgTx, write_tx_in, write_tx_out, read_tx_in, read_tx_out, serialize_tx,
  deserialize_tx, make_pointers, max_pointers,
}

-- The ranges of the Go fields.
abbrev pub IsTxIn : TxIn → Type 0
IsTxIn i =
    (length i.previous_out_point.hash ≡ 32)
    × (i.previous_out_point.index < u32_mod)
    × (length i.signature_script < u64_mod)
    × (i.sequence < u32_mod)

abbrev pub IsTxOut : TxOut → Type 0
IsTxOut o = IsInt64 o.value × (length o.pk_script < u64_mod)

pub record IsMsgTx (tx : MsgTx) : Type 0 where
  pub version : IsInt32 tx.version
  pub inputs : All IsTxIn tx.tx_in
  pub input_count : length tx.tx_in ≤ max_pointers
  pub outputs : All IsTxOut tx.tx_out
  pub output_count : length tx.tx_out ≤ max_pointers
  pub lock_time : tx.lock_time < u32_mod

read-write_tx_in :
    (i : TxIn) (rest : Bytes) → IsTxIn i → read_tx_in (write_tx_in i ++ rest) ≡ ok (i, rest)
unfolding read_tx_in write_tx_in
read-write_tx_in i rest (hash, index, script, sequence) = simp (
  append_assoc,
  read_full-append 32 i.previous_out_point.hash _ hash,
  read_le-put_le 4 i.previous_out_point.index _ index,
  read-write_var_bytes i.signature_script _ script,
  read_le-put_le 4 i.sequence rest sequence,
)

read-write_tx_out :
    (o : TxOut) (rest : Bytes) → IsTxOut o → read_tx_out (write_tx_out o ++ rest) ≡ ok (o, rest)
unfolding read_tx_out write_tx_out
read-write_tx_out o rest (value, script) = simp (
  append_assoc,
  read_le-put_le 8 _ _ (to_u64-lt o.value),
  read-write_var_bytes o.pk_script rest script,
  of_u64-to_u64 o.value value,
)

pub make_pointers-eq-ok : (n : ℕ) → n ≤ max_pointers → make_pointers n ≡ ok tt
unfolding make_pointers
make_pointers-eq-ok n h = ground arith

-- A transaction whose fields are in range is read back from what `Serialize` wrote.
pub deserialize-serialize_tx : (tx : MsgTx) → IsMsgTx tx → deserialize_tx (serialize_tx tx) ≡ ok tx
unfolding deserialize_tx serialize_tx
deserialize-serialize_tx tx h = simp (
  read_le-put_le 4 _ _ (to_u32-lt tx.version),
  of_u32-to_u32 tx.version h.version,
  read-write_var_int (length tx.tx_in) _ (omega (arith, h.input_count)),
  make_pointers-eq-ok (length tx.tx_in) h.input_count,
  read_many-write IsTxIn write_tx_in read_tx_in read-write_tx_in tx.tx_in _ h.inputs,
  read-write_var_int (length tx.tx_out) _ (omega (arith, h.output_count)),
  make_pointers-eq-ok (length tx.tx_out) h.output_count,
  read_many-write IsTxOut write_tx_out read_tx_out read-write_tx_out tx.tx_out _ h.outputs,
  read_le-put_le_end 4 tx.lock_time h.lock_time,
)

-- A peer's transaction that announces between 2 ^ 45 and 2 ^ 64 inputs makes `DeserializeTx` panic,
-- whatever bytes follow the count.
pub deserialize_tx_panics :
    (version count : ℕ) (rest : Bytes)
    → version < u32_mod
    → max_pointers < count
    → count < u64_mod
    → deserialize_tx (put_le 4 version ++ (write_var_int count ++ rest)) ≡ panic
unfolding deserialize_tx make_pointers
deserialize_tx_panics version count rest hv lo hi =
    simp (
      read_le-put_le 4 version _ hv,
      read-write_var_int count rest hi,
      lt→ltb max_pointers count lo,
    )
