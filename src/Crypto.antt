-- ===== src/Crypto.antt =====
-- The cryptography that pacd calls: dcrd's BLAKE-256 and secp256k1, Go's SHA-256 and RIPEMD-160.
-- None of it is in the repository, so it is a parameter of what uses it. Keys and signatures are
-- the byte strings that they are parsed from.
use pacd.Base.{◌≡◌, Bool, true, Bytes, length, ◌≤◌}

pub record Crypto : Type 0 where
  -- `blake256.Sum256`, `sha256.Sum256`, and a RIPEMD-160 hasher's `Sum`
  pub blake256 : Bytes → Bytes
  pub sha256 : Bytes → Bytes
  pub ripemd160 : Bytes → Bytes
  -- whether the bytes are a private key: a scalar of secp256k1 that is not zero
  pub is_private_key : Bytes → Bool
  -- whether `secp256k1.ParsePubKey` and `ecdsa.ParseDERSignature` succeed
  pub parse_pub_key : Bytes → Bool
  pub parse_der_signature : Bytes → Bool
  -- `sig.Verify(hash, pubKey)` on what they parse
  pub verify : Bytes → Bytes → Bytes → Bool
  -- `ecdsa.Sign(key, hash).Serialize()` and `key.PubKey().SerializeCompressed()`
  pub sign : Bytes → Bytes → Bytes
  pub compressed_pub_key : Bytes → Bytes

-- What the code relies on: the sizes of digests, keys and signatures, and that a signature made
-- with a private key is accepted under its public key.
pub record IsCrypto (c : Crypto) : Type 0 where
  pub blake256_length : (b : Bytes) → length (c.blake256 b) ≡ 32
  pub ripemd160_length : (b : Bytes) → length (c.ripemd160 b) ≡ 20
  pub sha256_length : (b : Bytes) → length (c.sha256 b) ≡ 32
  pub pub_key_length : (k : Bytes) → length (c.compressed_pub_key k) ≡ 33
  pub sign_length_low : (k h : Bytes) → 1 ≤ length (c.sign k h)
  pub sign_length_high : (k h : Bytes) → length (c.sign k h) ≤ 72
  pub pub_key_parses :
      (k : Bytes) → c.is_private_key k ≡ true → c.parse_pub_key (c.compressed_pub_key k) ≡ true
  pub sign_parses : (k h : Bytes) → c.parse_der_signature (c.sign k h) ≡ true
  pub sign_verifies :
      (k h : Bytes)
      → c.is_private_key k ≡ true
      → c.verify (c.sign k h) h (c.compressed_pub_key k) ≡ true
