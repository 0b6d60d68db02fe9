-- ===== src/Txscript.antt =====
-- internal/txscript/p2pkh.go: signature hashes and pay-to-public-key-hash inputs.
pub mod Pushes
pub mod Sign
use pacd.Base.{
  ℕ, zero, suc, ◌-◌, ◌%◌, ◌==◌, ltb, leb, not, ◌||◌, ◌&&◌, Bool, true, false, Option, none, some,
  List, [], ◌∷◌, ◌++◌, Bytes, length, take, drop, get_elem?, last_or, map, bytes_eq, if◌then◌else◌,
}
use pacd.Base.Result.{
  Result, ok, err, panic, reject_if, ◌>>=◌, ◌>>◌, input_index, bad_prev_script, push_truncated,
  push_length, push_count, sighash_type, pubkey_mismatch, bad_pubkey, bad_signature, verify_failed,
}
use pacd.Wire.Tx.{Hash, TxIn, MsgTx, serialize_tx}
use pacd.Crypto.{Crypto}
use pacd.Address.Script.{hash160}

abbrev pub sig_hash_all : ℕ
sig_hash_all = 1

-- `script[i]`, with a default where `i` is out of range; every use is behind a test of the length.
abbrev pub byte_at : Bytes → ℕ → ℕ
byte_at [] i = 0
byte_at (b ∷ bs) zero = b
byte_at (b ∷ bs) (suc i) = byte_at bs i

-- Every signature script is cleared; the signed input gets the script that it spends.
unfoldable pub clear_scripts : ℕ → ℕ → Bytes → List TxIn → List TxIn
clear_scripts i index prev_script [] = []
clear_scripts i index prev_script (x ∷ xs) =
    record x { signature_script = if i == index then prev_script else [] }
    ∷ clear_scripts (suc i) index prev_script xs

unfoldable pub signature_hash : (Bytes → Hash) → MsgTx → ℕ → Bytes → Result Hash
unfolding clear_scripts
signature_hash sum256 tx index prev_script = do
  reject_if (leb (length tx.tx_in) index) input_index
  let copy = record tx { tx_in = clear_scripts 0 index prev_script tx.tx_in }
  ok (sum256 (serialize_tx copy ++ (sig_hash_all ∷ [])))

unfoldable pub push_data : Bytes → Bytes → Bytes
push_data script data' =
    if leb 0x4c (length data')
    then script ++ (0x4c ∷ (length data' % 256) ∷ data')
    else script ++ ((length data' % 256) ∷ data')

-- `script[0]`, `script[:n]` and `script[n:]`: each panics where the script is too short.
first_byte : Bytes → Result ℕ
first_byte [] = panic
first_byte (b ∷ bs) = ok b

slice_to : Bytes → ℕ → Result Bytes
slice_to script n = if ltb (length script) n then panic else ok (take n script)

slice_from : Bytes → ℕ → Result Bytes
slice_from script n = if ltb (length script) n then panic else ok (drop n script)

-- The length of a push whose opcode is taken, and what is behind the length.
push_head : ℕ → Bytes → Result (ℕ × Bytes)
unfolding first_byte slice_from
push_head op script =
    let long = (do
      reject_if (length script == 0) push_truncated
      n ← first_byte script
      behind ← slice_from script 1
      ok (n, behind)) in
    if op == 0x4c then long else ok (op, script)

-- What follows the length of a push: `rest` is the loop on what is behind the data.
take_push : ℕ → Bytes → (Bytes → Result (List Bytes)) → Result (List Bytes)
unfolding slice_to slice_from
take_push n script rest = do
  reject_if (ltb (length script) n) push_length
  data' ← slice_to script n
  behind ← slice_from script n
  pushes ← rest behind
  ok (data' ∷ pushes)

-- The loop of `parsePushes`; each round takes a byte at least, so the length is fuel enough. The
-- end of the fuel counts as a panic too.
unfoldable pub parse_pushes_loop : ℕ → Bytes → Result (List Bytes)
unfolding push_head take_push
parse_pushes_loop fuel [] = ok []
parse_pushes_loop zero (op ∷ script) = panic
parse_pushes_loop (suc fuel) (op ∷ script) =
    push_head op script >>= λ (n, body). take_push n body (parse_pushes_loop fuel)

unfoldable pub parse_pushes : Bytes → Result (List Bytes)
unfolding parse_pushes_loop
parse_pushes script = parse_pushes_loop (length script) script

-- The test shared by `ExtractPayToPubKeyHash` and `AddressFromPkScript`.
unfoldable pub is_p2pkh : Bytes → Bool
is_p2pkh s =
    (length s == 25)
    && (byte_at s 0 == 0x76)
    && (byte_at s 1 == 0xa9)
    && (byte_at s 2 == 0x14)
    && (byte_at s 23 == 0x88)
    && (byte_at s 24 == 0xac)

unfoldable pub extract_pay_to_pub_key_hash : Bytes → Option Bytes
unfolding is_p2pkh
extract_pay_to_pub_key_hash s = if is_p2pkh s then some (take 20 (drop 3 s)) else none

-- `tx.TxIn[inputIndex]` panics out of range.
script_of : List TxIn → ℕ → Result Bytes
script_of [] i = panic
script_of (x ∷ xs) zero = ok x.signature_script
script_of (x ∷ xs) (suc i) = script_of xs i

-- The public key hash that the previous script names, or its error.
key_hash_of : Bytes → Result Bytes
key_hash_of prev_script = elim (extract_pay_to_pub_key_hash prev_script) [
  | none ↦ err bad_prev_script
  | some h ↦ ok h
]

set_script : List TxIn → ℕ → Bytes → List TxIn
set_script [] i script = []
set_script (x ∷ xs) zero script = record x { signature_script = script } ∷ xs
set_script (x ∷ xs) (suc i) script = x ∷ set_script xs i script

module _ (c : Crypto) where
  -- The checks behind the two pushes.
  unfoldable pub verify_pushes : MsgTx → ℕ → Bytes → Bytes → List Bytes → Result (Unit {0})
  verify_pushes tx index prev_script key_hash (sig_bytes ∷ pub_key ∷ []) = do
    let sig = take (length sig_bytes - 1) sig_bytes
    reject_if (ltb (length sig_bytes) 2 || not (last_or 0 sig_bytes == sig_hash_all)) sighash_type
    reject_if (not (bytes_eq (hash160 c pub_key) key_hash)) pubkey_mismatch
    reject_if (not (c.parse_pub_key pub_key)) bad_pubkey
    reject_if (not (c.parse_der_signature sig)) bad_signature
    hash ← signature_hash c.blake256 tx index prev_script
    reject_if (not (c.verify sig hash pub_key)) verify_failed
    ok tt
  verify_pushes tx index prev_script key_hash _ = err push_count

  unfoldable pub verify_p2pkh_input : MsgTx → ℕ → Bytes → Result (Unit {0})
  unfolding script_of key_hash_of
  verify_p2pkh_input tx index prev_script = do
    key_hash ← key_hash_of prev_script
    script ← script_of tx.tx_in index
    pushes ← parse_pushes script
    verify_pushes tx index prev_script key_hash pushes

  -- `SignP2PKHInput` returns the transaction that it changes in place.
  unfoldable pub sign_p2pkh_input : MsgTx → ℕ → Bytes → Bytes → Result MsgTx
  unfolding set_script
  sign_p2pkh_input tx index prev_script key = do
    hash ← signature_hash c.blake256 tx index prev_script
    let sig = c.sign key hash ++ (sig_hash_all ∷ [])
    let script = push_data (push_data [] sig) (c.compressed_pub_key key)
    ok (record tx { tx_in = set_script tx.tx_in index script })
