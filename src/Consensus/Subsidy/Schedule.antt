-- ===== src/Consensus/Subsidy/Schedule.antt =====
-- The subsidy as a schedule over the natural numbers: no product wraps, and it only falls.
use pacd.Base.{ℕ, zero, suc, ◌-◌, ◌*◌, ◌/◌, ◌<◌, ◌≤◌, ◌+◌, ◌≡◌, refl, ap, arith}
use pacd.Base.Int.{
  pos, ◌≤ℤ◌, ◌+ℤ◌, +ℤ-pos, -ℤ-pos, *ℤ-pos, quot-pos, quot, ◌-ℤ◌, pos_part, nonneg_cases,
}
use pacd.Base.Words.{wrap64, of_u64, to_u64, wrap64-pos}
use pacd.Chaincfg.{Params}
use pacd.Consensus.Subsidy.{reduce, reduce_loop, calc_block_subsidy, calc_block_one_time_split}
use native.Mathlib.Nat.{le-div_iff_mul-le, div-mul-le_self}

-- Parameters that are positive, that never raise a subsidy, and at which no product of a subsidy
-- leaves int64.
pub record IsSchedule (params : Params) : Type 0 where
  pub base : ℕ
  pub mul : ℕ
  pub div : ℕ
  pub interval : ℕ
  pub percent : ℕ
  pub base_eq : params.base_subsidy ≡ pos base
  pub mul_eq : params.mul_subsidy ≡ pos mul
  pub div_eq : params.div_subsidy ≡ pos div
  pub interval_eq : params.reduction_interval ≡ pos interval
  pub percent_eq : params.miner_reward_percent ≡ pos percent
  pub mul-le-div : mul ≤ div
  pub div_pos : 0 < div
  pub interval_pos : 0 < interval
  pub percent-le : percent ≤ 100
  pub base_fits : base * mul ≤ 9223372036854775807
  pub base_percent_fits : base * percent ≤ 9223372036854775807
  pub base_small : base ≤ 9223372036854775807

-- What one reduction leaves of `s` atoms, and what `n` reductions leave.
abbrev pub reduced : ℕ → ℕ → ℕ → ℕ
reduced mul div s = s * mul / div

unfoldable pub after : ℕ → ℕ → ℕ → ℕ → ℕ
after mul div zero s = s
after mul div (suc n) s = after mul div n (reduced mul div s)

reduced-le : (mul div s : ℕ) → mul ≤ div → reduced mul div s ≤ s
reduced-le mul div s h = grind arith

after-suc : (mul div n s : ℕ) → after mul div (suc n) s ≡ after mul div n (reduced mul div s)
unfolding after
after-suc mul div n s = refl

pub after-le : (mul div n s : ℕ) → mul ≤ div → after mul div n s ≤ s
unfolding after
after-le mul div zero s h = omega arith
after-le mul div (suc n) s h =
    omega (arith, after-le mul div n (reduced mul div s) h, reduced-le mul div s h)

-- More reductions leave no more.
pub after_antitone : (mul div n m s : ℕ) → mul ≤ div → n ≤ m → after mul div m s ≤ after mul div n s
unfolding after
after_antitone mul div zero m s h le = after-le mul div m s h
after_antitone mul div (suc n) zero s h le = absurd (omega arith)
after_antitone mul div (suc n) (suc m) s h le =
    after_antitone mul div n m (reduced mul div s) h (omega arith)

div_mono : (a b d : ℕ) → 0 < d → a ≤ b → a / d ≤ b / d
div_mono a b d pd h = (le-div_iff_mul-le pd).1 (omega (arith, div-mul-le_self a d))

after-zero : (mul div n : ℕ) → after mul div n 0 ≡ 0
unfolding after
after-zero mul div zero = refl
after-zero mul div (suc n) = rw (reduced-zero) (after-zero mul div n)
  where
    reduced-zero : 0 * mul / div ≡ 0
    reduced-zero = omega arith

module _ {params : Params} (v : IsSchedule params) where
  open v use {
    base, mul, div, interval, percent, base_eq, mul_eq, div_eq, interval_eq, percent_eq, mul-le-div,
    div_pos, interval_pos, percent-le, base_fits, base_percent_fits, base_small,
  }

  product_fits : (s k : ℕ) → s ≤ base → base * k ≤ 9223372036854775807 → s * k ≤ 9223372036854775807
  product_fits s k h f = grind arith

  pub reduce-pos : (s : ℕ) → s ≤ base → reduce params (pos s) ≡ pos (reduced mul div s)
  unfolding reduce
  reduce-pos s h =
      let f = product_fits s mul h base_fits in
      let g = reduced-le mul div s mul-le-div in
      rw (mul_eq, div_eq)
        (simp (
          *ℤ-pos s mul,
          wrap64-pos (s * mul) f,
          quot-pos (s * mul) div,
          wrap64-pos (s * mul / div) (omega arith),
        ))

  reduce_loop-pos : (n s : ℕ) → s ≤ base → reduce_loop params n (pos s) ≡ pos (after mul div n s)
  unfolding reduce_loop
  reduce_loop-pos zero s h = unfold after in refl
  reduce_loop-pos (suc n) zero h = rw (after-zero mul div (suc n))
  reduce_loop-pos (suc n) (suc s) h = rw (reduce-pos (suc s) h) (
      rw (after-suc mul div n (suc s)) (
        ground (
          arith,
          reduce_loop-pos n (reduced mul div (suc s))
              (omega (arith, reduced-le mul div (suc s) mul-le-div)),
        )))

  -- The subsidy of a height of at least one, in natural numbers: it is exact, no step wraps.
  pub calc_block_subsidy-pos :
      (h : ℕ) → 0 < h → calc_block_subsidy (pos h) params ≡ pos (after mul div (h / interval) base)
  unfolding calc_block_subsidy
  calc_block_subsidy-pos h lt =
      rw (interval_eq, base_eq)
        (ground (arith, quot-pos h interval, reduce_loop-pos (h / interval) base (omega arith)))

  -- Under a schedule of subsidies that does not leave int64, the subsidy of every block behind the
  -- genesis block is between zero and the base subsidy, and a later block never has the greater one.
  pub calc_block_subsidy_antitone :
      (h k : ℕ)
      → 0 < h
      → h ≤ k
      → (pos 0 ≤ℤ calc_block_subsidy (pos k) params)
        × (calc_block_subsidy (pos k) params ≤ℤ calc_block_subsidy (pos h) params)
        × (calc_block_subsidy (pos h) params ≤ℤ params.base_subsidy)
  calc_block_subsidy_antitone h k lt le =
      rw (calc_block_subsidy-pos h lt, calc_block_subsidy-pos k (omega arith), base_eq)
        (
          omega arith,
          omega (
            arith,
            after_antitone mul div (h / interval) (k / interval) base mul-le-div
                (div_mono h k interval interval_pos le),
          ),
          omega (arith, after-le mul div (h / interval) base mul-le-div),
        )

  -- Under such a schedule, miner and project share the subsidy of every block behind the genesis block
  -- without a rest, and neither share is negative.
  pub calc_block_one_time_split_exact :
      (h : ℕ)
      → 0 < h
      → let (miner, project) = calc_block_one_time_split (pos h) params in
        (miner +ℤ project ≡ calc_block_subsidy (pos h) params)
        × (pos 0 ≤ℤ miner)
        × (pos 0 ≤ℤ project)
  unfolding calc_block_one_time_split
  calc_block_one_time_split_exact h lt =
      let s = after mul div (h / interval) base in
      let le : s ≤ base = after-le mul div (h / interval) base mul-le-div in
      let f : s * percent ≤ 9223372036854775807 = product_fits s percent le base_percent_fits in
      let g : s * percent / 100 ≤ s = grind arith in
      rw (calc_block_subsidy-pos h lt, percent_eq)
        (simp
          (
            *ℤ-pos s percent,
            wrap64-pos (s * percent) f,
            quot-pos (s * percent) 100,
            -ℤ-pos s (s * percent / 100) g,
            wrap64-pos (s - s * percent / 100) (omega arith),
            +ℤ-pos (s * percent / 100) (s - s * percent / 100),
          )
          (ap pos (omega arith), omega arith, omega arith))

  split_zero : calc_block_one_time_split (pos 0) params ≡ (pos 0, pos 0)
  unfolding calc_block_one_time_split calc_block_subsidy quot wrap64 of_u64 to_u64 ◌-ℤ◌
  split_zero = let z : 0 * percent ≡ 0 = omega arith in rw percent_eq (rw (*ℤ-pos 0 percent) (rw z))

  -- The two shares as natural numbers.
  pub split_shares :
      (h : ℕ)
      → (a b : ℕ) × (calc_block_one_time_split (pos h) params ≡ (pos a, pos b))
        × (a + b ≡ pos_part (calc_block_subsidy (pos h) params))
        × (a + b ≤ 9223372036854775807)
  split_shares zero = (0, 0, split_zero, unfold calc_block_subsidy in refl, omega arith)
  split_shares (suc h) =
      let (sum, low, low') = calc_block_one_time_split_exact (suc h) (omega arith) in
      let (a, ea) = nonneg_cases _ low in
      let (b, eb) = nonneg_cases _ low' in
      let exact = calc_block_subsidy-pos (suc h) (omega arith) in
      let le = after-le mul div (suc h / interval) base mul-le-div in
      let total : a + b ≡ after mul div (suc h / interval) base =
        ground (arith, sum, ea, eb, exact, +ℤ-pos a b) in
      (a, b, cc (ea, eb), rw exact total, omega (arith, total, le, base_small))
