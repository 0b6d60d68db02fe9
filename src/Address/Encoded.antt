-- ===== src/Address/Encoded.antt =====
-- internal/address/address.go: addresses, and the scripts that they stand for.
pub mod RoundTrip
use pacd.Base.{
  ℕ, ◌+◌, Bool, true, false, not, ◌&&◌, Option, none, some, List, [], ◌∷◌, Bytes, length, take,
  drop, ◌==◌, if◌then◌else◌, get_elem?,
}
use pacd.Base.Result.{
  Result, ok, err, reject_if, ◌>>=◌, ◌>>◌, hash160_length, address_version, pubkey_format,
}
use pacd.Crypto.{Crypto}
use pacd.Chaincfg.{Params}
use pacd.Address.Script.{
  hash160_size, hash160, pay_to_pub_key_hash_script, pay_to_script_hash_script, is_pub_key,
}
use pacd.Address.Base58.{encode_base58_check, decode_base58_check}

-- `script[i] == b`, on a script whose length has been tested.
unfoldable pub byte_is : Bytes → ℕ → ℕ → Bool
byte_is script i b = elim (get_elem? script i) [ none ↦ false | some x ↦ x == b ]

module _ (c : Crypto) where
  unfoldable pub pub_key_hash_address : Params → Bytes → Result Bytes
  pub_key_hash_address params pub_key_hash = do
    reject_if (not (length pub_key_hash == hash160_size)) hash160_length
    ok (encode_base58_check c params.pub_key_hash_addr_id pub_key_hash)

  unfoldable pub script_hash_address : Params → Bytes → Result Bytes
  script_hash_address params script_hash = do
    reject_if (not (length script_hash == hash160_size)) hash160_length
    ok (encode_base58_check c params.script_hash_addr_id script_hash)

  -- The switch on the version, whose first case is tried first.
  unfoldable pub address_script : Params → ℕ → Bytes → Result Bytes
  address_script params version payload =
      let sized = λ (script : Bytes).
        (reject_if (not (length payload == hash160_size)) hash160_length >> ok script) in
      if version == params.pub_key_hash_addr_id
      then sized (pay_to_pub_key_hash_script payload)
      else if version == params.script_hash_addr_id
      then sized (pay_to_script_hash_script payload)
      else err address_version

  unfoldable pub decode_address_script : Params → Bytes → Result Bytes
  unfolding address_script
  decode_address_script params encoded = do
    (version, payload) ← decode_base58_check c encoded
    address_script params version payload

  -- The error of an address is the `false` of the result.
  unfoldable pub address_or_none : Result Bytes → Option Bytes
  address_or_none (ok a) = some a
  address_or_none _ = none

  unfoldable pub address_from_pk_script : Params → Bytes → Option Bytes
  unfolding byte_is pub_key_hash_address script_hash_address address_or_none
  address_from_pk_script params script =
      if (length script == 25)
        && (byte_is script 0 0x76
            && (byte_is script 1 0xa9
                && (byte_is script 2 0x14 && (byte_is script 23 0x88 && byte_is script 24 0xac))))
      then address_or_none (pub_key_hash_address params (take 20 (drop 3 script)))
      else if (length script == 23)
          && (byte_is script 0 0xa9 && (byte_is script 1 0x14 && byte_is script 22 0x87))
      then address_or_none (script_hash_address params (take 20 (drop 2 script)))
      else none

  -- The address, the hash and the script.
  unfoldable pub address_from_pub_key : Params → Bytes → Result (Bytes × Bytes × Bytes)
  unfolding pub_key_hash_address
  address_from_pub_key params pub_key = do
    reject_if (not (is_pub_key pub_key)) pubkey_format
    let h = hash160 c pub_key
    addr ← pub_key_hash_address params h
    ok (addr, h, pay_to_pub_key_hash_script h)

  unfoldable pub address_from_script : Params → Bytes → Result (Bytes × Bytes × Bytes)
  unfolding script_hash_address
  address_from_script params script = do
    let h = hash160 c script
    addr ← script_hash_address params h
    ok (addr, h, pay_to_script_hash_script h)
