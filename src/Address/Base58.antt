-- ===== src/Address/Base58.antt =====
-- internal/address/base58.go. A big.Int is a natural number here: none of them is negative.
pub mod Digits
pub mod RoundTrip
use pacd.Base.{
  ℕ, zero, suc, ◌+◌, ◌*◌, ◌/◌, ◌%◌, Bool, true, false, not, Option, none, some, List, [], ◌∷◌, ◌++◌,
  Bytes, length, take, drop, ltb, ◌==◌, if◌then◌else◌, bytes_eq, get_elem?, ◌-◌,
}
use mathlib.Core.List.{reverse}
use pacd.Base.Result.{
  Result, ok, err, reject_if, ◌>>=◌, ◌>>◌, base58_char, base58_short, checksum_mismatch,
}
use pacd.Crypto.{Crypto}

abbrev pub alphabet : Bytes
alphabet =
    49 ∷ 50 ∷ 51 ∷ 52 ∷ 53 ∷ 54 ∷ 55 ∷ 56 ∷ 57 ∷ 65 ∷ 66 ∷ 67 ∷ 68 ∷ 69 ∷ 70 ∷ 71 ∷ 72 ∷ 74 ∷ 75
    ∷ 76 ∷ 77 ∷ 78 ∷ 80 ∷ 81 ∷ 82 ∷ 83 ∷ 84 ∷ 85 ∷ 86 ∷ 87 ∷ 88 ∷ 89 ∷ 90 ∷ 97 ∷ 98 ∷ 99 ∷ 100 ∷ 101
    ∷ 102 ∷ 103 ∷ 104 ∷ 105 ∷ 106 ∷ 107 ∷ 109 ∷ 110 ∷ 111 ∷ 112 ∷ 113 ∷ 114 ∷ 115 ∷ 116 ∷ 117 ∷ 118
    ∷ 119 ∷ 120 ∷ 121 ∷ 122 ∷ []

-- `alphabet[i]`; the default is not reached below 58.
unfoldable pub char_at : ℕ → ℕ
char_at i = elim (get_elem? alphabet i) [ none ↦ 0 | some c ↦ c ]

-- `bytes.IndexRune`. A rune above 127 is in no alphabet, and neither are the bytes of its encoding.
unfoldable pub index_from : ℕ → ℕ → Bytes → Option ℕ
index_from i c [] = none
index_from i c (a ∷ as') = if a == c then some i else index_from (suc i) c as'

-- What the digits of a number are worth, the least first.
unfoldable pub value : ℕ → List ℕ → ℕ
value base [] = 0
value base (d ∷ ds) = d + base * value base ds

-- The digits of a number, the least first; the number itself is fuel enough.
unfoldable pub digits : ℕ → ℕ → ℕ → List ℕ
digits base zero x = []
digits base (suc fuel) x =
    let rest = digits base fuel (x / base) in if x == 0 then [] else (x % base) ∷ rest

-- `SetBytes` and `Bytes` of a big.Int.
unfoldable pub set_bytes : Bytes → ℕ
unfolding value
set_bytes b = value 256 (reverse b)

unfoldable pub int_bytes : ℕ → Bytes
unfolding digits
int_bytes x = reverse (digits 256 x x)

-- The loop of `encodeBase58` over the quotients.
unfoldable pub encode_loop : ℕ → ℕ → Bytes → Bytes
unfolding char_at
encode_loop zero x answer = answer
encode_loop (suc fuel) x answer =
    let rest = encode_loop fuel (x / 58) (answer ++ (char_at (x % 58) ∷ [])) in
    if x == 0 then answer else rest

-- Its loop over the leading zero bytes.
unfoldable pub leading_ones : Bytes → Bytes
leading_ones [] = []
leading_ones (v ∷ vs) = let rest = leading_ones vs in if v == 0 then 49 ∷ rest else []

unfoldable pub encode_base58 : Bytes → Bytes
unfolding set_bytes encode_loop leading_ones
encode_base58 b = let x = set_bytes b in reverse (encode_loop x x [] ++ leading_ones b)

-- The two loops of `decodeBase58`.
unfoldable pub decode_loop : ℕ → Bytes → Result ℕ
unfolding index_from
decode_loop answer [] = ok answer
decode_loop answer (r ∷ rs) = elim (index_from 0 r alphabet) [
  | none ↦ err base58_char
  | some index ↦ decode_loop (answer * 58 + index) rs
]

unfoldable pub prepend_zeros : Bytes → Bytes → Bytes
prepend_zeros [] decoded = decoded
prepend_zeros (r ∷ rs) decoded =
    let rest = prepend_zeros rs (0 ∷ decoded) in if r == 49 then rest else decoded

unfoldable pub decode_base58 : Bytes → Result Bytes
unfolding decode_loop int_bytes prepend_zeros
decode_base58 s = do answer ← decode_loop 0 s; ok (prepend_zeros s (int_bytes answer))

module _ (c : Crypto) where
  unfoldable pub base58_checksum : Bytes → Bytes
  base58_checksum data' = take 4 (c.sha256 (c.sha256 data'))

  unfoldable pub encode_base58_check : ℕ → Bytes → Bytes
  unfolding base58_checksum encode_base58
  encode_base58_check version payload =
      let data' = version ∷ payload in encode_base58 (data' ++ base58_checksum data')

  -- The version, and the payload.
  unfoldable pub decode_base58_check : Bytes → Result (ℕ × Bytes)
  unfolding base58_checksum decode_base58
  decode_base58_check encoded = do
    decoded ← decode_base58 encoded
    reject_if (ltb (length decoded) 5) base58_short
    let n = length decoded - 4
    let body = take n decoded
    reject_if (not (bytes_eq (drop n decoded) (base58_checksum body))) checksum_mismatch
    elim body [ [] ↦ err base58_short | version ∷ payload ↦ ok (version, payload) ]
