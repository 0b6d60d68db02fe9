-- ===== src/Consensus/Asert/Factor.antt =====
-- The polynomial of `asertFactor` rises, and lies between the radix and twice the radix.
use pacd.Base.{ℕ, ◌+◌, ◌*◌, ◌/◌, ◌^◌, ◌≤◌, ◌<◌, ◌≡◌, arith}
use pacd.Base.Int.{pos, ◌≤ℤ◌, shift_right, *ℤ-pos, +ℤ-pos}
use pacd.Base.Words.{wrap64-pos}
use pacd.Consensus.Asert.{asert_radix, asert_factor}
use native.Mathlib.Nat.{mul-le-mul}

-- The polynomial's numerator.
abbrev numerator : ℕ → ℕ
numerator f = 195766423245049 * f + 971821376 * (f * f) + 5127 * (f * f * f) + 140737488355328

numerator_mono : (f g : ℕ) → f ≤ g → numerator f ≤ numerator g
numerator_mono f g h =
    let squares : f * f ≤ g * g = mul-le-mul h h in
    let cubes : f * f * f ≤ g * g * g = mul-le-mul squares h in omega (arith, squares, cubes)

numerator_top : (f : ℕ) → f ≤ 65535 → numerator f ≤ 18446744073709551615
numerator_top f h = let top = numerator_mono f 65535 h in omega (arith, top)

factor_eq : (f : ℕ) → f ≤ 65535 → asert_factor (pos f) ≡ pos (numerator f / 2 ^ 48 + 65536)
unfolding asert_factor shift_right
factor_eq f h =
    let top = numerator_top f h in
    simp (*ℤ-pos, +ℤ-pos, wrap64-pos (numerator f / 2 ^ 48 + 65536) (omega (arith, top)))

-- On fractions below the radix the factor never falls, and it is between the radix, a factor of
-- one, and twice the radix, a factor of two.
pub asert_factor_mono :
    (f g : ℕ)
    → f ≤ g
    → g < 65536
    → (asert_radix ≤ℤ asert_factor (pos f))
      × (asert_factor (pos f) ≤ℤ asert_factor (pos g))
      × (asert_factor (pos g) ≤ℤ pos 131072)
asert_factor_mono f g h lt =
    let top = numerator_top g (omega arith) in
    let order = numerator_mono f g h in
    rw (factor_eq f (omega arith), factor_eq g (omega arith))
      (omega arith, omega (arith, order), omega (arith, top))
