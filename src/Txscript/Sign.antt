-- ===== src/Txscript/Sign.antt =====
-- `SignP2PKHInput` and `VerifyP2PKHInput` agree.
use pacd.Base.{
  true, ℕ, zero, suc, ◌+◌, ◌-◌, ◌<◌, ◌≡◌, refl, ap, ◌∙◌, arith, false, ltb, some, List, [], ◌∷◌,
  ◌++◌, Bytes, length, length-append, take, drop, take-length-append, last_or, last_or-append,
  bytes_eq_refl,
}
use pacd.Base.Result.{ok, outcome, is_ok, is_err, is_panic}
use pacd.Crypto.{Crypto, IsCrypto}
use pacd.Wire.Tx.{Hash, TxIn, MsgTx}
use pacd.Address.Script.{hash160, pay_to_pub_key_hash_script}
use pacd.Txscript.{
  sig_hash_all, byte_at, clear_scripts, signature_hash, push_data, is_p2pkh,
  extract_pay_to_pub_key_hash, verify_pushes, script_of, key_hash_of, verify_p2pkh_input,
  set_script, sign_p2pkh_input,
}
use pacd.Txscript.Pushes.{parse_pushes-push_data}

byte_at-append : (h t : Bytes) (i : ℕ) → byte_at (h ++ t) (length h + i) ≡ byte_at t i
byte_at-append [] t i = let start : 0 + i ≡ i = omega arith in ap (byte_at t) start
byte_at-append (x ∷ h) t i =
    let next : length (x ∷ h) + i ≡ suc (length h + i) = omega arith in
    rw next (byte_at-append h t i)

-- The opcodes around a public key hash.
extract_at :
    (s : Bytes)
    → length s ≡ 25
    → byte_at s 0 ≡ 0x76
    → byte_at s 1 ≡ 0xa9
    → byte_at s 2 ≡ 0x14
    → byte_at s 23 ≡ 0x88
    → byte_at s 24 ≡ 0xac
    → extract_pay_to_pub_key_hash s ≡ some (take 20 (drop 3 s))
unfolding extract_pay_to_pub_key_hash is_p2pkh
extract_at s n e₀ e₁ e₂ e₃ e₄ = rw (n, e₀, e₁, e₂, e₃, e₄) refl

abbrev end_opcodes : Bytes
end_opcodes = 0x88 ∷ 0xac ∷ []

-- The public key hash that a pay-to-public-key-hash script was made with is the one that is found
-- in it.
pub extract-pay_to_pub_key_hash_script :
    (h : Bytes)
    → length h ≡ 20
    → extract_pay_to_pub_key_hash (pay_to_pub_key_hash_script h) ≡ some h
unfolding pay_to_pub_key_hash_script
extract-pay_to_pub_key_hash_script h e =
    let first : byte_at (h ++ end_opcodes) 20 ≡ 0x88 = rw e at (byte_at-append h end_opcodes 0) in
    let second : byte_at (h ++ end_opcodes) 21 ≡ 0xac = rw e at (byte_at-append h end_opcodes 1) in
    let body : take 20 (h ++ end_opcodes) ≡ h = rw e at (take-length-append h end_opcodes) in
    let size : length (pay_to_pub_key_hash_script h) ≡ 25 =
      omega (arith, length-append h end_opcodes, e) in
    extract_at (pay_to_pub_key_hash_script h) size refl refl refl first second ∙ ap some body

length-set_script : (xs : List TxIn) (i : ℕ) (s : Bytes) → length (set_script xs i s) ≡ length xs
unfolding set_script
length-set_script [] i s = refl
length-set_script (x ∷ xs) zero s = refl
length-set_script (x ∷ xs) (suc i) s = ap suc (length-set_script xs i s)

clear-set_script :
    (k : ℕ) (xs : List TxIn) (i j : ℕ) (s p : Bytes)
    → clear_scripts k j p (set_script xs i s) ≡ clear_scripts k j p xs
unfolding clear_scripts set_script
clear-set_script k [] i j s p = refl
clear-set_script k (x ∷ xs) zero j s p = refl
clear-set_script k (x ∷ xs) (suc i) j s p = rw (clear-set_script (suc k) xs i j s p) refl

script_of-set_script :
    (xs : List TxIn) (i : ℕ) (s : Bytes) → i < length xs → script_of (set_script xs i s) i ≡ ok s
unfolding script_of set_script
script_of-set_script [] i s h = absurd (omega arith)
script_of-set_script (x ∷ xs) zero s h = refl
script_of-set_script (x ∷ xs) (suc i) s h = script_of-set_script xs i s (omega arith)

-- The signature hash does not depend on any signature script.
signature_hash-set_script :
    (sum256 : Bytes → Hash) (tx : MsgTx) (i j : ℕ) (s p : Bytes)
    → signature_hash sum256 (record tx { tx_in = set_script tx.tx_in i s }) j p
      ≡ signature_hash sum256 tx j p
unfolding signature_hash
signature_hash-set_script sum256 tx i j s p =
    simp (length-set_script tx.tx_in i s, clear-set_script 0 tx.tx_in i j s p)

signature_hash-ok :
    (sum256 : Bytes → Hash) (tx : MsgTx) (i : ℕ) (p : Bytes)
    → i < length tx.tx_in
    → (hash : Hash) × (signature_hash sum256 tx i p ≡ ok hash)
unfolding signature_hash
signature_hash-ok sum256 tx i p h = elim (outcome (signature_hash sum256 tx i p)) [
  | is_ok hash e ↦ (hash, e)
  | is_err x e ↦ absurd (ground arith)
  | is_panic e ↦ absurd (ground arith)
]

key_hash_of_lem : (s h : Bytes) → extract_pay_to_pub_key_hash s ≡ some h → key_hash_of s ≡ ok h
unfolding key_hash_of
key_hash_of_lem s h e = ground (arith, e)

last_or-append_one : (xs : Bytes) → last_or 0 (xs ++ (1 ∷ [])) ≡ 1
last_or-append_one xs = last_or-append 0 xs 1

module _ (c : Crypto) (laws : IsCrypto c) where
  -- The two pushes of a signed input pass the checks.
  verify_pushes-signed :
      (tx : MsgTx) (i : ℕ) (p key : Bytes) (hash : Hash)
      → c.is_private_key key ≡ true
      → signature_hash c.blake256 tx i p ≡ ok hash
      → verify_pushes c tx i p
          (hash160 c (c.compressed_pub_key key))
          ((c.sign key hash ++ (sig_hash_all ∷ [])) ∷ c.compressed_pub_key key ∷ [])
        ≡ ok tt
  unfolding verify_pushes
  verify_pushes-signed tx i p key hash valid h =
      let sig = c.sign key hash in
      let low = laws.sign_length_low key hash in
      let size : length (sig ++ (1 ∷ [])) ≡ length sig + 1 = length-append sig (1 ∷ []) in
      let short : length (sig ++ (1 ∷ [])) - 1 ≡ length sig = omega (arith, size) in
      let long : ltb (length (sig ++ (1 ∷ []))) 2 ≡ false = ground (arith, size) in
      let body : take (length sig) (sig ++ (1 ∷ [])) ≡ sig = take-length-append sig (1 ∷ []) in
      simp (
        h,
        short,
        long,
        body,
        last_or-append_one sig,
        bytes_eq_refl (hash160 c (c.compressed_pub_key key)),
        laws.pub_key_parses key valid,
        laws.sign_parses key hash,
        laws.sign_verifies key hash valid,
      )

  hash160-length : (key : Bytes) → length (hash160 c (c.compressed_pub_key key)) ≡ 20
  unfolding hash160
  hash160-length key = laws.ripemd160_length _

  sig_size : (key : Bytes) (hash : Hash) → length (c.sign key hash ++ (sig_hash_all ∷ [])) < 256
  sig_size key hash =
      omega (arith, length-append (c.sign key hash) (1 ∷ []), laws.sign_length_high key hash)

  key_size : (key : Bytes) → length (c.compressed_pub_key key) < 256
  key_size key = omega (arith, laws.pub_key_length key)

  -- Under the documented laws of the cryptography, signing an input that exists with a private key, to
  -- spend a script that pays to the hash of the key's public key, succeeds, and the transaction that it leaves
  -- passes verification of that input.
  pub verify-sign_p2pkh_input :
      (tx : MsgTx) (i : ℕ) (key : Bytes)
      → c.is_private_key key ≡ true
      → i < length tx.tx_in
      → let prev = pay_to_pub_key_hash_script (hash160 c (c.compressed_pub_key key)) in
        (signed : MsgTx) × (sign_p2pkh_input c tx i prev key ≡ ok signed)
        × (verify_p2pkh_input c signed i prev ≡ ok tt)
  unfolding sign_p2pkh_input verify_p2pkh_input
  verify-sign_p2pkh_input tx i key valid inside =
      let key_hash = hash160 c (c.compressed_pub_key key) in
      let prev = pay_to_pub_key_hash_script key_hash in
      let (hash, hashed) = signature_hash-ok c.blake256 tx i prev inside in
      let script =
        push_data (push_data [] (c.sign key hash ++ (sig_hash_all ∷ [])))
          (c.compressed_pub_key key) in
      let signed : MsgTx = record tx { tx_in = set_script tx.tx_in i script } in
      let found =
        key_hash_of_lem prev key_hash
          (extract-pay_to_pub_key_hash_script key_hash (hash160-length key)) in
      let placed = script_of-set_script tx.tx_in i script inside in
      let parsed =
        parse_pushes-push_data (c.sign key hash ++ (sig_hash_all ∷ [])) (c.compressed_pub_key key)
          (sig_size key hash) (key_size key) in
      let again = signature_hash-set_script c.blake256 tx i i script prev ∙ hashed in
      let checked = verify_pushes-signed signed i prev key hash valid again in
      (signed, simp (hashed), simp (found, placed, parsed, checked))
