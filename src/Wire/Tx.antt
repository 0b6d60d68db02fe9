-- ===== src/Wire/Tx.antt =====
-- internal/wire/tx.go: transactions and their serialization; internal/wire/hash.go: hashes.
-- `binary.Write` into a `bytes.Buffer` does not fail, so `Serialize` is a total function here.
pub mod RoundTrip
use pacd.Base.{
  ℕ, ◌^◌, ◌≡◌, Bool, true, false, bytes_eq_refl, ◌&&◌, List, [], ◌∷◌, ◌++◌, Bytes, ltb, ◌==◌,
  if◌then◌else◌, length, replicate, bytes_eq, concat_map,
}
use pacd.Base.Int.{ℤ, pos}
use pacd.Base.Words.{to_u32, of_u32, to_u64, of_u64, u32_mod}
use pacd.Base.Result.{Result, ok, err, panic, reject_if, ◌>>=◌, ◌>>◌, trailing_bytes, hash_length}
use pacd.Wire.Reader.{Reader, read_full, read_le, put_le, read_many}
use pacd.Wire.VarInt.{write_var_int, read_var_int, write_var_bytes, read_var_bytes}

-- `Hash` is an array of 32 bytes.
abbrev pub Hash : Type 0
Hash = Bytes

unfoldable pub zero_hash : Hash
zero_hash = replicate 32 0

unfoldable pub new_hash_from_bytes : Bytes → Result Hash
new_hash_from_bytes b = if length b == 32 then ok b else err hash_length

abbrev pub max_uint32 : ℕ
max_uint32 = 4294967295

pub record OutPoint : Type 0 where
  pub hash : Hash
  pub index : ℕ

pub record TxIn : Type 0 where
  pub previous_out_point : OutPoint
  pub signature_script : Bytes
  pub sequence : ℕ

pub record TxOut : Type 0 where
  pub value : ℤ
  pub pk_script : Bytes

pub record MsgTx : Type 0 where
  pub version : ℤ
  pub tx_in : List TxIn
  pub tx_out : List TxOut
  pub lock_time : ℕ

unfoldable pub new_coinbase_tx : ℕ → Bytes → List TxOut → MsgTx
new_coinbase_tx height message outputs = record {
  version = pos 1;
  tx_in =
      record {
        previous_out_point = record { hash = zero_hash; index = max_uint32 };
        signature_script = put_le 4 height ++ message;
        sequence = max_uint32;
      }
      ∷ [];
  tx_out = outputs;
  lock_time = 0;
}

is_coinbase_inputs : List TxIn → Bool
is_coinbase_inputs (i ∷ []) =
    bytes_eq i.previous_out_point.hash zero_hash && (i.previous_out_point.index == max_uint32)
is_coinbase_inputs _ = false

unfoldable pub is_coinbase : MsgTx → Bool
unfolding is_coinbase_inputs
is_coinbase tx = is_coinbase_inputs tx.tx_in

pub is_coinbase-new_coinbase_tx :
    (height : ℕ) (message : Bytes) (outputs : List TxOut)
    → is_coinbase (new_coinbase_tx height message outputs) ≡ true
unfolding is_coinbase is_coinbase_inputs new_coinbase_tx
is_coinbase-new_coinbase_tx height message outputs = simp (bytes_eq_refl zero_hash)

unfoldable pub write_tx_in : TxIn → Bytes
write_tx_in i =
    i.previous_out_point.hash
    ++ (put_le 4 i.previous_out_point.index
        ++ (write_var_bytes i.signature_script ++ put_le 4 i.sequence))

unfoldable pub write_tx_out : TxOut → Bytes
write_tx_out o = put_le 8 (to_u64 o.value) ++ write_var_bytes o.pk_script

unfoldable pub serialize_tx : MsgTx → Bytes
serialize_tx tx =
    put_le 4 (to_u32 tx.version)
    ++ (write_var_int (length tx.tx_in)
        ++ (concat_map write_tx_in tx.tx_in
            ++ (write_var_int (length tx.tx_out)
                ++ (concat_map write_tx_out tx.tx_out ++ put_le 4 tx.lock_time))))

unfoldable pub read_tx_in : Reader TxIn
read_tx_in s = do
  (hash, s₁) ← read_full 32 s
  (index, s₂) ← read_le 4 s₁
  (script, s₃) ← read_var_bytes s₂
  (sequence, s₄) ← read_le 4 s₃
  ok (
    record {
      previous_out_point = record { hash = hash; index = index };
      signature_script = script;
      sequence = sequence;
    },
    s₄,
  )

unfoldable pub read_tx_out : Reader TxOut
read_tx_out s = do
  (value, s₁) ← read_le 8 s
  (script, s₂) ← read_var_bytes s₁
  ok (record { value = of_u64 value; pk_script = script }, s₂)

-- The greatest capacity at which `make([]*T, 0, n)` does not panic: the runtime's limit of 2 ^ 48
-- bytes for one allocation, at 8 bytes a pointer. Running out of memory below it is not modelled.
abbrev pub max_pointers : ℕ
max_pointers = 35184372088832

unfoldable pub make_pointers : ℕ → Result (Unit {0})
make_pointers n = if ltb max_pointers n then panic else ok tt

unfoldable pub deserialize_tx : Bytes → Result MsgTx
deserialize_tx s = do
  (version, s₁) ← read_le 4 s
  (input_count, s₂) ← read_var_int s₁
  make_pointers input_count
  (inputs, s₃) ← read_many input_count read_tx_in s₂
  (output_count, s₄) ← read_var_int s₃
  make_pointers output_count
  (outputs, s₅) ← read_many output_count read_tx_out s₄
  (lock_time, s₆) ← read_le 4 s₅
  reject_if (ltb 0 (length s₆)) trailing_bytes
  ok (record { version = of_u32 version; tx_in = inputs; tx_out = outputs; lock_time = lock_time })

-- `TxHash` and `MustTxHash`; serialization does not fail, so the panic is not reached.
unfoldable pub tx_hash : (Bytes → Hash) → MsgTx → Hash
tx_hash sum256 tx = sum256 (serialize_tx tx)
