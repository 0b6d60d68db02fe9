-- ===== src/Consensus/Asert/Target.antt =====
-- The target doubles with every half life of delay.
use pacd.Base.{ℕ, zero, suc, ◌+◌, ◌-◌, ◌*◌, ◌/◌, ◌^◌, ◌≤◌, ◌<◌, ◌≡◌, refl, arith, false}
use pacd.Base.Int.{pos, leb_ℤ, ltb_ℤ, ◌+ℤ◌, ◌*ℤ◌, shift_left, shift_right, *ℤ-pos, quot-pos, -ℤ-pos}
use pacd.Base.Words.{wrap64, wrap64-pos, of_u64, to_u64}
use native.Mathlib.Nat.{mul-div_cancel, mul-suc}
use pacd.Chaincfg.{Params}
use pacd.Consensus.Asert.{asert_factor, calc_asert_target}

-- The polynomial is exact at zero.
asert_factor_zero : asert_factor (pos 0) ≡ pos 65536
unfolding asert_factor wrap64 of_u64 to_u64 ◌+ℤ◌ shift_right ◌*ℤ◌
asert_factor_zero = refl

order : (k l : ℕ) → k * l * 65536 ≡ k * 65536 * l
order k l = grind arith

grow : (k l : ℕ) → 0 < l → k * l * 65536 ≤ 9223372036854775807 → k * 65536 ≤ 9223372036854775807
grow k zero hl h = absurd (omega arith)
grow k (suc l) hl h = omega (arith, mul-suc k l)

-- Where the last block is `k` half lives late, in whole seconds, with a positive spacing and half
-- life and with no product that leaves int64, the target is the anchor's, doubled `k` times; on
-- schedule it is the anchor's.
pub calc_asert_target_doubles :
    (n t h k spacing half_life : ℕ) (params : Params)
    → params.target_time_per_block ≡ pos (spacing * 1000000000)
    → params.asert_half_life ≡ pos (half_life * 1000000000)
    → 0 < spacing
    → 0 < half_life
    → t + h * spacing + k * half_life ≤ 9223372036854775807
    → k * half_life * 65536 ≤ 9223372036854775807
    → h ≤ 9223372036854775807
    → calc_asert_target (pos n) (pos t) (pos (t + h * spacing + k * half_life)) (pos (h + 1)) params
      ≡ pos (n * 2 ^ k)
unfolding calc_asert_target shift_right shift_left
calc_asert_target_doubles n t h k spacing half_life params es eh hs hl fits fits' fits'' =
    let whole : k * 65536 / 65536 ≡ k = omega arith in
    let none_left : k * 65536 - k * 65536 ≡ 0 = omega arith in
    let below : ltb_ℤ (pos 0) (pos 0) ≡ false = ground arith in
    let ahead : ltb_ℤ (pos k) (pos 0) ≡ false = ground arith in
    let target : n * 65536 / 65536 ≡ n = omega arith in
    let spacing_eq : spacing * 1000000000 / 1000000000 ≡ spacing = omega arith in
    let half_eq : half_life * 1000000000 / 1000000000 ≡ half_life = omega arith in
    let passed : t + h * spacing + k * half_life - t ≡ h * spacing + k * half_life = omega arith in
    let late : h * spacing + k * half_life - h * spacing ≡ k * half_life = omega arith in
    let one_less : h + 1 - 1 ≡ h = omega arith in
    let some_spacing : leb_ℤ (pos spacing) (pos 0) ≡ false = ground arith in
    let some_half : leb_ℤ (pos half_life) (pos 0) ≡ false = ground arith in
    let halves : k * half_life * 65536 / half_life ≡ k * 65536 =
      rw (order k half_life) (mul-div_cancel (k * 65536) hl) in
    let small : k * 65536 ≤ 9223372036854775807 = grow k half_life hl fits' in
    simp (
      es,
      eh,
      quot-pos,
      spacing_eq,
      half_eq,
      some_spacing,
      some_half,
      -ℤ-pos (t + h * spacing + k * half_life) t (omega arith),
      passed,
      wrap64-pos (h * spacing + k * half_life) (omega arith),
      -ℤ-pos (h + 1) 1 (omega arith),
      one_less,
      wrap64-pos h fits'',
      *ℤ-pos,
      wrap64-pos (h * spacing) (omega arith),
      -ℤ-pos (h * spacing + k * half_life) (h * spacing) (omega arith),
      late,
      wrap64-pos (k * half_life) (omega arith),
      wrap64-pos (k * half_life * 65536) fits',
      halves,
      wrap64-pos (k * 65536) small,
      whole,
      none_left,
      -ℤ-pos (k * 65536) (k * 65536) (omega arith),
      wrap64-pos 0 (omega arith),
      below,
      ahead,
      asert_factor_zero,
      target,
    )
