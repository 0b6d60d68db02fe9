-- ===== src/Address/Base58/Digits.antt =====
-- Positional numbers: the digits of a number are worth it, and digits are those of what they are
-- worth.
use Prim.Native.Nat.{◌≤◌}
use native.Mathlib.Nat as Nat
use pacd.Base.{
  ℕ, zero, suc, ◌+◌, ◌*◌, ◌/◌, ◌%◌, ◌<◌, ◌≡◌, refl, sym, ap, ◌∙◌, arith, false, inl, inr,
  Bool-cases, List, [], ◌∷◌, All, ◌==◌,
}
use pacd.Address.Base58.{value, digits}

-- The last digit, which is the most significant one, is not zero.
abbrev pub IsTrimmed : List ℕ → Type 0
IsTrimmed [] = Unit {0}
IsTrimmed (d ∷ []) = 0 < d
IsTrimmed (d ∷ e ∷ es) = IsTrimmed (e ∷ es)

pub IsTrimmed-cons : (d : ℕ) (ds : List ℕ) → IsTrimmed (d ∷ ds) → IsTrimmed ds
IsTrimmed-cons d [] t = tt
IsTrimmed-cons d (e ∷ es) t = t

zero_left : (n : ℕ) → 0 + n ≡ n
zero_left n = omega arith

module _ (base : ℕ) (large : 1 < base) where
  twice-le : (n : ℕ) → n + n ≤ base * n
  twice-le n = grind arith

  pub value-digits : (fuel x : ℕ) → x ≤ fuel → value base (digits base fuel x) ≡ x
  unfolding value digits
  value-digits zero x h = omega arith
  value-digits (suc fuel) x h = elim (Bool-cases (x == 0)) [
    | inl none_left ↦ rw none_left (ground arith)
    | inr more ↦
        let less : x / base < x = Nat.div-lt_self (ground arith) large in
        rw more
          (rw (value-digits fuel (x / base) (omega (arith, less, h))) (Nat.mod-add-div x base))
  ]

  pub digits-small : (fuel x : ℕ) → All (λ d. d < base) (digits base fuel x)
  unfolding digits
  digits-small zero x = tt
  digits-small (suc fuel) x = elim (Bool-cases (x == 0)) [
    | inl none_left ↦ rw none_left tt
    | inr more ↦ rw more (Nat.mod-lt x (omega (arith, large)), digits-small fuel (x / base))
  ]

  pub value_pos : (ds : List ℕ) (d : ℕ) → IsTrimmed (d ∷ ds) → 0 < value base (d ∷ ds)
  unfolding value
  value_pos [] d t = omega (arith, t)
  value_pos (e ∷ es) d t =
      let rest = value_pos es e t in omega (arith, rest, twice-le (value base (e ∷ es)))

  pub digits-value :
      (fuel : ℕ) (ds : List ℕ)
      → All (λ d. d < base) ds
      → IsTrimmed ds
      → value base ds ≤ fuel
      → digits base fuel (value base ds) ≡ ds
  unfolding value digits
  digits-value zero [] a t h = refl
  digits-value (suc fuel) [] a t h = refl
  digits-value zero (d ∷ ds) a t h = absurd (omega (arith, value_pos ds d t))
  digits-value (suc fuel) (d ∷ ds) (small, a) t h =
      let v = value base ds in
      let positive : 0 < base = omega (arith, large) in
      let some_left : (d + base * v == 0) ≡ false = ground (arith, value_pos ds d t) in
      let low : (d + base * v) % base ≡ d =
        Nat.add-mul-mod_self_left d base v ∙ Nat.mod-eq_of_lt small in
      let none_low : d / base ≡ 0 = Nat.div-eq_of_lt small in
      let high : (d + base * v) / base ≡ v =
        Nat.add-mul-div_left d v positive ∙ ap (λ q. q + v) none_low ∙ zero_left v in
      let fewer : v ≤ fuel = omega (arith, h, twice-le v, value_pos ds d t) in
      let rest = digits-value fuel ds a (IsTrimmed-cons d ds t) fewer in
      rw (some_left, low, high) (ap (λ xs. d ∷ xs) rest)

  IsTrimmed-push :
      (d : ℕ) (ds : List ℕ) → IsTrimmed ds → (value base ds ≡ 0 → 0 < d) → IsTrimmed (d ∷ ds)
  unfolding value
  IsTrimmed-push d [] t f = f refl
  IsTrimmed-push d (e ∷ es) t f = t

  rest_only : (x : ℕ) → 0 < x → x / base ≡ 0 → 0 < x % base
  rest_only x h none_high =
      let whole : x % base + base * 0 ≡ x =
        ap (λ q. x % base + base * q) (sym none_high) ∙ Nat.mod-add-div x base in
      omega (arith, whole, h)

  pub digits-IsTrimmed : (fuel x : ℕ) → x ≤ fuel → IsTrimmed (digits base fuel x)
  unfolding digits
  digits-IsTrimmed zero x h = tt
  digits-IsTrimmed (suc fuel) x h = elim (Bool-cases (x == 0)) [
    | inl none_left ↦ rw none_left tt
    | inr more ↦
        let less : x / base < x = Nat.div-lt_self (ground arith) large in
        let few : x / base ≤ fuel = omega (arith, less, h) in
        rw more (
          IsTrimmed-push (x % base) (digits base fuel (x / base))
            (digits-IsTrimmed fuel (x / base) few)
            (λ e. rest_only x (ground arith) (sym (value-digits fuel (x / base) few) ∙ e)))
  ]
