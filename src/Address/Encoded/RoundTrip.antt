-- ===== src/Address/Encoded/RoundTrip.antt =====
-- An address is decoded to the script that it was made for.
use pacd.Base.{
  ℕ, ◌+◌, ◌-◌, ◌≡◌, ap, ◌∙◌, arith, true, false, ◌∷◌, ◌++◌, Bytes, All, All-append, All-take,
  IsByte, length, length-append, length-take, take, drop, take-length-append, drop-length-append,
  ltb, ◌==◌, bytes_eq, bytes_eq_refl,
}
use pacd.Base.Result.{ok, ◌>>=◌}
use pacd.Crypto.{Crypto, IsCrypto}
use pacd.Chaincfg.{Params}
use pacd.Address.Script.{hash160_size, pay_to_pub_key_hash_script, pay_to_script_hash_script}
use pacd.Address.Base58.{base58_checksum, encode_base58_check, decode_base58_check}
use pacd.Address.Base58.RoundTrip.{decode-encode_base58}
use pacd.Address.Encoded.{
  pub_key_hash_address, script_hash_address, address_script, decode_address_script,
}

module _ (c : Crypto) (laws : IsCrypto c) (sums : (b : Bytes) → All IsByte (c.sha256 b)) where
  length-base58_checksum : (b : Bytes) → length (base58_checksum c b) ≡ 4
  unfolding base58_checksum
  length-base58_checksum b =
      omega (arith, length-take 4 (c.sha256 (c.sha256 b)), laws.sha256_length (c.sha256 b))

  base58_checksum-bytes : (b : Bytes) → All IsByte (base58_checksum c b)
  unfolding base58_checksum
  base58_checksum-bytes b = All-take IsByte 4 (c.sha256 (c.sha256 b)) (sums (c.sha256 b))

  decode-encode_base58_check :
      (version : ℕ) (payload : Bytes)
      → IsByte version
      → All IsByte payload
      → decode_base58_check c (encode_base58_check c version payload) ≡ ok (version, payload)
  unfolding decode_base58_check encode_base58_check
  decode-encode_base58_check version payload hv hp =
      let body = version ∷ payload in
      let sum' = base58_checksum c body in
      let read =
        decode-encode_base58 (body ++ sum')
          (All-append IsByte body sum' (hv, hp) (base58_checksum-bytes body)) in
      let long : length (body ++ sum') ≡ length body + 4 =
        length-append body sum' ∙ ap (λ k. length body + k) (length-base58_checksum body) in
      let enough : ltb (length (body ++ sum')) 5 ≡ false = ground (arith, long) in
      let cut : length (body ++ sum') - 4 ≡ length body = omega (arith, long) in
      let front : take (length (body ++ sum') - 4) (body ++ sum') ≡ body =
        ap (λ k. take k (body ++ sum')) cut ∙ take-length-append body sum' in
      let back : drop (length (body ++ sum') - 4) (body ++ sum') ≡ sum' =
        ap (λ k. drop k (body ++ sum')) cut ∙ drop-length-append body sum' in
      let same : bytes_eq sum' (base58_checksum c body) ≡ true = bytes_eq_refl sum' in
      simp (read, enough, front, back, same)

  -- A payment to an address pays to the script of the hash that the address was made from: for a
  -- hash of 20 bytes, both kinds of addresses are decoded to their script, the second kind where
  -- the parameters tell the two apart. SHA-256 yields 32 bytes.
  pub decode_address_script-address :
      (params : Params) (h : Bytes)
      → IsByte params.pub_key_hash_addr_id
      → IsByte params.script_hash_addr_id
      → All IsByte h
      → length h ≡ hash160_size
      → (params.script_hash_addr_id == params.pub_key_hash_addr_id) ≡ false
      → ((pub_key_hash_address c params h >>= decode_address_script c params)
          ≡ ok (pay_to_pub_key_hash_script h))
        × ((script_hash_address c params h >>= decode_address_script c params)
            ≡ ok (pay_to_script_hash_script h))
  unfolding pub_key_hash_address script_hash_address decode_address_script address_script
  decode_address_script-address params h hv hs hb n apart =
      let sized : (length h == hash160_size) ≡ true = ground arith in
      let itself : (params.pub_key_hash_addr_id == params.pub_key_hash_addr_id) ≡ true =
        ground arith in
      let itself' : (params.script_hash_addr_id == params.script_hash_addr_id) ≡ true =
        ground arith in
      (
        simp (sized, decode-encode_base58_check params.pub_key_hash_addr_id h hv hb, itself),
        simp (sized, decode-encode_base58_check params.script_hash_addr_id h hs hb, apart, itself'),
      )
