-- ===== src/Address/Script.antt =====
-- internal/address/address.go: hashes of keys and scripts, and the scripts that pay to them.
use pacd.Base.{
  ℕ, ◌+◌, ◌%◌, ◌==◌, ltb, ◌&&◌, ◌||◌, Bool, false, not, List, [], ◌∷◌, ◌++◌, Bytes, length,
  if◌then◌else◌,
}
use pacd.Base.Result.{
  Result, ok, reject_if, ◌>>=◌, ◌>>◌, required_range, pubkey_count, pubkey_format,
}
use pacd.Crypto.{Crypto}

abbrev pub hash160_size : ℕ
hash160_size = 20

unfoldable pub hash160 : Crypto → Bytes → Bytes
hash160 c b = c.ripemd160 (c.sha256 b)

unfoldable pub pay_to_pub_key_hash_script : Bytes → Bytes
pay_to_pub_key_hash_script pub_key_hash = 0x76 ∷ 0xa9 ∷ 0x14 ∷ (pub_key_hash ++ (0x88 ∷ 0xac ∷ []))

unfoldable pub pay_to_script_hash_script : Bytes → Bytes
pay_to_script_hash_script script_hash = 0xa9 ∷ 0x14 ∷ (script_hash ++ (0x87 ∷ []))

-- `validatePubKey`, as whether it returns nil.
unfoldable pub is_pub_key : Bytes → Bool
is_pub_key [] = false
is_pub_key (b ∷ bs) =
    ((length bs == 32) && ((b == 2) || (b == 3))) || ((length bs == 64) && (b == 4))

unfoldable pub small_int_opcode : ℕ → ℕ
small_int_opcode v = if v == 0 then 0 else (0x50 + v) % 256

unfoldable pub append_push_data : Bytes → Bytes → Bytes
append_push_data script data' =
    if ltb (length data') 0x4c
    then script ++ ((length data' % 256) ∷ data')
    else script ++ (0x4c ∷ (length data' % 256) ∷ data')

unfoldable pub push_pub_keys : Bytes → List Bytes → Result Bytes
push_pub_keys script [] = ok script
push_pub_keys script (k ∷ ks) = do
  reject_if (not (is_pub_key k)) pubkey_format
  push_pub_keys (append_push_data script k) ks

-- `required` is an int that is not negative here.
unfoldable pub multi_sig_redeem_script : ℕ → List Bytes → Result Bytes
unfolding push_pub_keys
multi_sig_redeem_script required pub_keys = do
  reject_if (ltb required 1 || ltb 16 required) required_range
  reject_if (ltb (length pub_keys) required) pubkey_count
  reject_if (ltb 16 (length pub_keys)) pubkey_count
  script ← push_pub_keys (small_int_opcode required ∷ []) pub_keys
  ok (script ++ (small_int_opcode (length pub_keys) ∷ 0xae ∷ []))
