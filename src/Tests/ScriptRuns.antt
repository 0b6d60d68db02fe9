-- ===== src/Tests/ScriptRuns.antt =====
-- Runs of the scripts: pushes, and an input that is signed and verified.
use pacd.Base.{
  ℕ, zero, suc, ◌+◌, ◌*◌, ◌≡◌, ◌≢◌, refl, arith, [], ◌∷◌, Bytes, All, IsByte, replicate, length,
}
use pacd.Wire.Reader.{from_le, put_le-IsByte}
use pacd.Base.Int.{pos}
use pacd.Base.Result.{ok, panic, ◌>>=◌}
use pacd.Wire.Tx.{MsgTx}
use pacd.Address.Script.{hash160, pay_to_pub_key_hash_script, pay_to_script_hash_script}
use pacd.Address.Encoded.{pub_key_hash_address, script_hash_address, decode_address_script}
use pacd.Address.Encoded.RoundTrip.{decode_address_script-address}
use pacd.Txscript.{parse_pushes, sign_p2pkh_input, verify_p2pkh_input}
use pacd.Txscript.Pushes.{parse_pushes-total}
use pacd.Txscript.Sign.{verify-sign_p2pkh_input}
use pacd.Wire.Tx.{zero_hash}
use pacd.Base.{true, false, Option, some, List, bytes_eq}
use pacd.Base.Int.{◌+ℤ◌, ◌-ℤ◌}
use pacd.Base.Words.{wrap64, of_u64, to_u64}
use pacd.Base.Result.{Result}
use pacd.Wire.Tx.{new_hash_from_bytes}
use pacd.Wire.Reader.{put_le}
use pacd.Address.Encoded.{address_script}
use pacd.Address.Base58.{
  decode_base58_check, encode_base58_check, decode_base58, encode_base58, decode_loop, encode_loop,
  prepend_zeros, leading_ones, int_bytes, set_bytes, digits, value, char_at, index_from,
  base58_checksum,
}
use pacd.Wallet.{WalletUtxo, is_spendable_utxo, select_loop, select_utxos}
use pacd.Wallet.Draft.{
  DraftTx, choose_change_addr, draft_input, draft_inputs, draft_outputs, finish_draft, build_draft,
  build_draft_tx,
}
use pacd.Wallet.Draft.Balanced.{IsBalanced, build_draft_tx-IsBalanced}
use pacd.Tests.{toy_params, toy_crypto, toy_crypto-IsCrypto}

parse_pushes-total_example : parse_pushes (0x4c ∷ 9 ∷ 1 ∷ []) ≢ panic
parse_pushes-total_example = parse_pushes-total (0x4c ∷ 9 ∷ 1 ∷ [])

abbrev unsigned : MsgTx
unsigned = record {
  version = pos 1;
  tx_in =
      record {
        previous_out_point = record { hash = zero_hash; index = 0 };
        signature_script = [];
        sequence = 0;
      }
      ∷ [];
  tx_out = record { value = pos 5; pk_script = 0x51 ∷ [] } ∷ [];
  lock_time = 0;
}

verify-sign_p2pkh_input_example :
    let prev =
      pay_to_pub_key_hash_script (hash160 toy_crypto (toy_crypto.compressed_pub_key (5 ∷ []))) in
    (signed : MsgTx) × (sign_p2pkh_input toy_crypto unsigned 0 prev (5 ∷ []) ≡ ok signed)
    × (verify_p2pkh_input toy_crypto signed 0 prev ≡ ok tt)
verify-sign_p2pkh_input_example =
    verify-sign_p2pkh_input toy_crypto toy_crypto-IsCrypto unsigned 0 (5 ∷ []) refl (omega arith)

toy_sums : (b : Bytes) → All IsByte (toy_crypto.sha256 b)
toy_sums b = (omega arith, put_le-IsByte 31 (from_le b * 31 + length b))

abbrev key_hash : Bytes
key_hash = 0 ∷ 0 ∷ replicate 18 7

sevens : (n : ℕ) → All IsByte (replicate n 7)
sevens zero = tt
sevens (suc n) = (omega arith, sevens n)

key_hash-bytes : All IsByte key_hash
key_hash-bytes = (omega arith, (omega arith, sevens 18))

decode_address_script-address_example :
    ((pub_key_hash_address toy_crypto toy_params key_hash
        >>= decode_address_script toy_crypto toy_params)
      ≡ ok (pay_to_pub_key_hash_script key_hash))
    × ((script_hash_address toy_crypto toy_params key_hash
          >>= decode_address_script toy_crypto toy_params)
        ≡ ok (pay_to_script_hash_script key_hash))
decode_address_script-address_example =
    decode_address_script-address toy_crypto toy_crypto-IsCrypto toy_sums toy_params key_hash
      (omega arith) (omega arith) key_hash-bytes refl refl

abbrev text_or : Result Bytes → Bytes
text_or (ok b) = b
text_or _ = []

abbrev key_address : Bytes
key_address = text_or (pub_key_hash_address toy_crypto toy_params key_hash)

-- Every text is taken for the hash of 32 ones.
abbrev toy_hex : Bytes → Option Bytes
toy_hex = λ b. some (replicate 32 1)

abbrev coin : ℕ → WalletUtxo
coin v = record {
  address = key_address;
  tx_hash = [];
  vout = 0;
  value = pos v;
  height = 0;
  coinbase = false;
  mature = true;
  pending = false;
}

abbrev coins : List WalletUtxo
coins = coin 5 ∷ coin 7 ∷ coin 1 ∷ []

abbrev drafted : Result DraftTx
drafted =
    build_draft_tx toy_crypto toy_hex toy_params (key_address ∷ []) coins key_address (pos 6)
      (pos 2) []

abbrev no_draft : DraftTx
no_draft = record {
  tx = unsigned;
  selected = [];
  input_total = pos 0;
  output_total = pos 0;
  fee = pos 0;
  change = pos 0;
}

abbrev draft_or : Result DraftTx → DraftTx
draft_or (ok d) = d
draft_or _ = no_draft

drafted_run : drafted ≡ ok (draft_or drafted)
unfolding build_draft_tx build_draft finish_draft draft_inputs draft_input draft_outputs
    choose_change_addr select_utxos select_loop is_spendable_utxo decode_address_script
    address_script decode_base58_check encode_base58_check decode_base58 encode_base58 decode_loop
    encode_loop prepend_zeros leading_ones int_bytes set_bytes digits value char_at index_from
    base58_checksum pub_key_hash_address put_le from_le bytes_eq wrap64 of_u64 to_u64 ◌+ℤ◌ ◌-ℤ◌
    new_hash_from_bytes pay_to_pub_key_hash_script pay_to_script_hash_script
drafted_run = refl

build_draft_tx-IsBalanced_example :
    (to dest change : Bytes) × (choose_change_addr (key_address ∷ []) [] ≡ ok to)
    × (decode_address_script toy_crypto toy_params key_address ≡ ok dest)
    × (decode_address_script toy_crypto toy_params to ≡ ok change)
    × IsBalanced toy_crypto toy_hex coins 6 2 dest change (draft_or drafted)
build_draft_tx-IsBalanced_example =
    build_draft_tx-IsBalanced toy_crypto toy_hex toy_params (key_address ∷ []) coins key_address 6 2
      [] (draft_or drafted) (omega arith) (omega arith, (omega arith, (omega arith, tt)))
      (omega arith) drafted_run
