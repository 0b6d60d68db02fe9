-- ===== src/Consensus/Asert.antt =====
-- internal/consensus/asert.go. `int64` arithmetic wraps; a `big.Int` is an integer.
pub mod Target
pub mod Factor
use pacd.Base.{ℕ, Bool, ◌||◌, if◌then◌else◌}
use pacd.Base.Int.{
  ℤ, pos, neg_part, pos_part, leb_ℤ, ltb_ℤ, ◌+ℤ◌, ◌-ℤ◌, ◌*ℤ◌, quot, shift_left, shift_right,
}
use pacd.Base.Words.{wrap64}
use pacd.Chaincfg.{Params, second}
use pacd.Consensus.Pow.{compact_to_big, big_to_compact}

abbrev pub asert_radix : ℤ
asert_radix = pos 65536

unfoldable pub asert_factor : ℤ → ℤ
asert_factor frac =
    let x2 = frac *ℤ frac in
    let x3 = x2 *ℤ frac in
    let sum =
      pos 195766423245049 *ℤ frac +ℤ pos 971821376 *ℤ x2 +ℤ pos 5127 *ℤ x3 +ℤ pos 140737488355328 in
    wrap64 (shift_right sum 48 +ℤ asert_radix)

-- The whole shifts and the fraction below them, `frac` in [0, radix).
unfoldable pub split_exponent : ℤ → ℤ × ℤ
split_exponent exponent =
    let shifts = quot exponent asert_radix in
    let frac = wrap64 (exponent -ℤ wrap64 (shifts *ℤ asert_radix)) in
    if ltb_ℤ frac (pos 0)
    then (wrap64 (shifts -ℤ pos 1), wrap64 (frac +ℤ asert_radix))
    else (shifts, frac)

-- `uint(-shifts)` and `uint(shifts)` are the two parts of the number of shifts.
unfoldable pub scale : ℤ → ℤ × ℤ → ℤ
scale anchor_target (shifts, frac) =
    let next = shift_right (anchor_target *ℤ asert_factor frac) 16 in
    if ltb_ℤ shifts (pos 0)
    then shift_right next (neg_part shifts)
    else shift_left next (pos_part shifts)

unfoldable pub calc_asert_target : ℤ → ℤ → ℤ → ℤ → Params → ℤ
unfolding split_exponent scale
calc_asert_target anchor_target anchor_time prev_time next_height params =
    let target_spacing = quot params.target_time_per_block second in
    let half_life = quot params.asert_half_life second in
    let time_diff = wrap64 (prev_time -ℤ anchor_time) in
    let height_diff = wrap64 (next_height -ℤ pos 1) in
    let ideal_time = wrap64 (height_diff *ℤ target_spacing) in
    let exponent =
      wrap64 (quot (wrap64 (wrap64 (time_diff -ℤ ideal_time) *ℤ asert_radix)) half_life) in
    if leb_ℤ target_spacing (pos 0) || leb_ℤ half_life (pos 0)
    then anchor_target
    else scale anchor_target (split_exponent exponent)

unfoldable pub calc_asert_next_bits : ℕ → ℤ → ℤ → ℤ → Params → ℕ
calc_asert_next_bits anchor_bits anchor_time prev_time next_height params =
    let target =
      calc_asert_target (compact_to_big anchor_bits) anchor_time prev_time next_height params in
    if leb_ℤ next_height (pos 1)
    then anchor_bits
    else if leb_ℤ target (pos 0)
    then 1
    else if ltb_ℤ params.pow_limit target
    then big_to_compact params.pow_limit
    else big_to_compact target
