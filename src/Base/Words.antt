-- ===== src/Base/Words.antt =====
-- Go's fixed-width integers: the bit pattern of a signed value, and the wrap-around of its arithmetic.
use Prim.Native.Nat.{ℕ, ◌-◌, ◌%◌, ◌<◌, ◌≤◌}
use mathlib.Core.Path.{◌≡◌}
use native.Mathlib.Omega.{arith}
use pacd.Base.Tests.{ltb, if◌then◌else◌}
use pacd.Base.Int.{ℤ, pos, negsuc, ◌≤ℤ◌}

abbrev pub u16_mod : ℕ
u16_mod = 65536

abbrev pub u32_mod : ℕ
u32_mod = 4294967296

abbrev pub u64_mod : ℕ
u64_mod = 18446744073709551616

-- math.MaxInt64
abbrev pub max_int64 : ℤ
max_int64 = pos 9223372036854775807

unfoldable pub to_u32 : ℤ → ℕ
to_u32 (pos n) = n % u32_mod
to_u32 (negsuc n) = u32_mod - 1 - n % u32_mod

unfoldable pub of_u32 : ℕ → ℤ
of_u32 w = if ltb w 2147483648 then pos w else negsuc (u32_mod - 1 - w)

unfoldable pub to_u64 : ℤ → ℕ
to_u64 (pos n) = n % u64_mod
to_u64 (negsuc n) = u64_mod - 1 - n % u64_mod

unfoldable pub of_u64 : ℕ → ℤ
of_u64 w = if ltb w 9223372036854775808 then pos w else negsuc (u64_mod - 1 - w)

abbrev pub IsInt32 : ℤ → Type 0
IsInt32 z = (negsuc 2147483647 ≤ℤ z) × (z ≤ℤ pos 2147483647)

abbrev pub IsInt64 : ℤ → Type 0
IsInt64 z = (negsuc 9223372036854775807 ≤ℤ z) × (z ≤ℤ max_int64)

-- What int64 arithmetic keeps of an exact result.
unfoldable pub wrap64 : ℤ → ℤ
wrap64 z = of_u64 (to_u64 z)

pub wrap64_id : (z : ℤ) → IsInt64 z → wrap64 z ≡ z
unfolding wrap64 of_u64 to_u64
wrap64_id (pos n) h = ground arith
wrap64_id (negsuc n) h = ground arith

pub to_u32-lt : (z : ℤ) → to_u32 z < u32_mod
unfolding to_u32
to_u32-lt (pos n) = omega arith
to_u32-lt (negsuc n) = omega arith

pub to_u64-lt : (z : ℤ) → to_u64 z < u64_mod
unfolding to_u64
to_u64-lt (pos n) = omega arith
to_u64-lt (negsuc n) = omega arith

pub of_u32-to_u32 : (z : ℤ) → IsInt32 z → of_u32 (to_u32 z) ≡ z
unfolding of_u32 to_u32
of_u32-to_u32 (pos n) h = ground arith
of_u32-to_u32 (negsuc n) h = ground arith

pub of_u64-to_u64 : (z : ℤ) → IsInt64 z → of_u64 (to_u64 z) ≡ z
unfolding of_u64 to_u64
of_u64-to_u64 (pos n) h = ground arith
of_u64-to_u64 (negsuc n) h = ground arith

pub to_u32-of_u32 : (w : ℕ) → w < u32_mod → to_u32 (of_u32 w) ≡ w
unfolding of_u32 to_u32
to_u32-of_u32 w h = ground arith

pub to_u64-of_u64 : (w : ℕ) → w < u64_mod → to_u64 (of_u64 w) ≡ w
unfolding of_u64 to_u64
to_u64-of_u64 w h = ground arith

pub of_u32-IsInt32 : (w : ℕ) → w < u32_mod → IsInt32 (of_u32 w)
unfolding of_u32
of_u32-IsInt32 w h = ground arith

pub of_u64-IsInt64 : (w : ℕ) → w < u64_mod → IsInt64 (of_u64 w)
unfolding of_u64
of_u64-IsInt64 w h = ground arith

pub wrap64-IsInt64 : (z : ℤ) → IsInt64 (wrap64 z)
unfolding wrap64
wrap64-IsInt64 z = of_u64-IsInt64 (to_u64 z) (to_u64-lt z)

pub wrap64-pos : (n : ℕ) → n ≤ 9223372036854775807 → wrap64 (pos n) ≡ pos n
wrap64-pos n h = wrap64_id (pos n) (omega arith, omega arith)
