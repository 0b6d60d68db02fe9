-- ===== src/Consensus/Pow.antt =====
-- internal/consensus/pow.go. `DifficultyRatio` is the fraction pow_limit / target.
use pacd.Base.{ℕ, zero, suc, ◌+◌, ◌-◌, ◌*◌, ◌/◌, ◌%◌, ◌^◌, [], ◌∷◌, Bytes, leb, ◌==◌, if◌then◌else◌}
use pacd.Base.Int.{ℤ, pos, sub_ℕ, pos_part, neg_part, ltb_ℤ, leb_ℤ}
use pacd.Base.Words.{u32_mod, u64_mod}
use pacd.Base.Result.{
  Result, ok, reject_if, ◌>>=◌, ◌>>◌, target_not_positive, target_above_limit, hash_above_target,
}
use pacd.Wire.Tx.{Hash}
use pacd.Wire.Header.{BlockHeader, header_hash}
use pacd.Chaincfg.{Params}

-- `compact & 0x007fffff` with the shift by the exponent.
unfoldable pub compact_magnitude : ℕ → ℕ
compact_magnitude compact =
    let mantissa = compact % 0x800000 in
    let exponent = compact / 0x1000000 in
    if leb exponent 3
    then mantissa / 2 ^ (8 * (3 - exponent))
    else mantissa * 2 ^ (8 * (exponent - 3))

-- Bit 0x00800000 is the sign.
unfoldable pub compact_to_big : ℕ → ℤ
unfolding compact_magnitude
compact_to_big compact =
    if compact / 0x800000 % 2 == 0
    then pos (compact_magnitude compact)
    else sub_ℕ 0 (compact_magnitude compact)

-- `len(n.Bytes())`: the bytes of a number without leading zeros, on fuel; a number is below
-- 256 to the power of itself, so the number plus one is enough.
unfoldable pub byte_count_loop : ℕ → ℕ → ℕ
byte_count_loop zero n = 0
byte_count_loop (suc fuel) n =
    let rest = byte_count_loop fuel (n / 256) in if n == 0 then 0 else suc rest

unfoldable pub byte_count : ℕ → ℕ
unfolding byte_count_loop
byte_count n = byte_count_loop (suc n) n

-- Mantissa and exponent of a positive number, before the sign bit of the mantissa is freed.
unfoldable pub raw_mantissa : ℕ → ℕ → ℕ
raw_mantissa exponent n =
    if leb exponent 3
    then n % u64_mod * 2 ^ (8 * (3 - exponent)) % u32_mod
    else n / 2 ^ (8 * (exponent - 3)) % u64_mod % u32_mod

-- `uint32(exponent<<24) | (mantissa & 0x007fffff)`, the shift freeing bit 0x00800000 first.
unfoldable pub pack_compact : ℕ → ℕ → ℕ
pack_compact exponent mantissa =
    if mantissa / 0x800000 % 2 == 0
    then exponent * 0x1000000 % u32_mod + mantissa % 0x800000
    else suc exponent * 0x1000000 % u32_mod + mantissa / 256 % 0x800000

-- `compact |= 0x00800000` for a negative number: the bit is clear before.
unfoldable pub big_to_compact : ℤ → ℕ
unfolding byte_count raw_mantissa pack_compact
big_to_compact n =
    let magnitude = pos_part n + neg_part n in
    let exponent = byte_count magnitude in
    let compact = pack_compact exponent (raw_mantissa exponent magnitude) in
    if magnitude == 0 then 0 else if ltb_ℤ n (pos 0) then compact + 0x800000 else compact

-- `big.Int.SetBytes`, highest byte first.
unfoldable pub from_be : ℕ → Bytes → ℕ
from_be acc [] = acc
from_be acc (b ∷ bs) = from_be (acc * 256 + b) bs

unfoldable pub hash_to_big : Hash → ℤ
unfolding from_be
hash_to_big hash = pos (from_be 0 hash)

module _ (sum256 : Bytes → Hash) where
  unfoldable pub check_proof_of_work : BlockHeader → Params → Result (Unit {0})
  check_proof_of_work header params = do
    let target = compact_to_big header.bits
    reject_if (leb_ℤ target (pos 0)) target_not_positive
    reject_if (ltb_ℤ params.pow_limit target) target_above_limit
    hash ← header_hash sum256 header
    reject_if (ltb_ℤ target (hash_to_big hash)) hash_above_target
    ok tt
