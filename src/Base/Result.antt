-- ===== src/Base/Result.antt =====
-- Go's `(value, error)` results, with a run-time panic as a third outcome.
use mathlib.Core.Path.{◌≡◌, refl}
use mathlib.Core.Bool.{Bool, true, false}

-- One constructor for each message that the modelled code can return.
pub data Error : Type 0 where
  eof unexpected_eof var_bytes_length trailing_bytes hash_length : Error
  timestamp_range header_length block_size : Error
  payload_length magic_mismatch checksum_mismatch string_length item_count addr_length : Error
  target_not_positive target_above_limit hash_above_target : Error
  timestamp_not_after timestamp_future : Error
  no_transactions bad_height mining_closed prev_mismatch bad_bits merkle_mismatch : Error
  not_coinbase extra_coinbase few_outputs miner_overflow miner_reward project_subsidy : Error
  reward_overflow coinbase_total project_script : Error
  no_inputs duplicate_input missing_input immature input_overflow overspend fee_overflow : Error
  no_outputs negative_value output_overflow : Error
  nil_block unknown_fork candidate_height missing_block : Error
  input_index bad_prev_script push_truncated push_length push_count sighash_type : Error
  pubkey_mismatch bad_pubkey bad_signature verify_failed : Error
  base58_char base58_short hash160_length address_version : Error
  pubkey_format required_range pubkey_count : Error
  stale_timestamp nonce_exhausted store_failed fuel_exhausted : Error
  bad_amount bad_fee insufficient_funds no_change_address amount_overflow bad_hex : Error

pub data Result {ℓ} (A : Type ℓ) : Type ℓ where
  ok : A → Result A
  err : Error → Result A
  panic : Result A

-- What follows a failure or a panic is not run.
infixl 5 ◌>>=◌ ◌>>◌
abbrev pub ◌>>=◌ {κ₁ κ₂} :
    {X : Type κ₁} {Y : Type κ₂} (run : Result X) (next : X → Result Y) → Result Y
panic >>= next = panic
err why >>= next = err why
ok x >>= next = next x

abbrev pub ◌>>◌ {κ} : {Y : Type κ} (check : Result (Unit {0})) (next : Result Y) → Result Y
check >> next = check >>= λ done. next

-- `if bad { return ..., err }`.
abbrev pub reject_if : (bad : Bool) (why : Error) → Result (Unit {0})
reject_if false why = ok tt
reject_if true why = err why

-- A run that ended well did so in its first step too.
pub >>=-eq-ok {κ₁ κ₂} :
    {X : Type κ₁} {Y : Type κ₂} (run : Result X) (next : X → Result Y) {y : Y}
    → (run >>= next) ≡ ok y
    → (x : X) × (run ≡ ok x) × (next x ≡ ok y)
>>=-eq-ok panic next h = cc
>>=-eq-ok (err why) next h = cc
>>=-eq-ok (ok x) next h = (x, refl, h)

-- A guard that let the rest of a successful run pass.
pub guard-eq-ok {ℓ} :
    {B : Type ℓ} (b : Bool) (e : Error) (k : Result B) {t : B}
    → (reject_if b e >> k) ≡ ok t
    → (b ≡ false) × (k ≡ ok t)
guard-eq-ok true e k h = cc
guard-eq-ok false e k h = (refl, h)

-- A step without a result that let the rest of a successful run pass.
pub step-eq-ok {ℓ} :
    {B : Type ℓ} (m : Result (Unit {0})) (k : Result B) {t : B}
    → (m >> k) ≡ ok t
    → (m ≡ ok tt) × (k ≡ ok t)
step-eq-ok (ok u) k h = (refl, h)
step-eq-ok (err e) k h = cc
step-eq-ok panic k h = cc

-- A split on how a run ended, with the equation.
pub data Outcome {ℓ} {A : Type ℓ} (r : Result A) : Type ℓ where
  is_ok : (a : A) → r ≡ ok a → Outcome r
  is_err : (e : Error) → r ≡ err e → Outcome r
  is_panic : r ≡ panic → Outcome r

pub outcome {ℓ} : {A : Type ℓ} (r : Result A) → Outcome r
outcome (ok a) = is_ok a refl
outcome (err e) = is_err e refl
outcome panic = is_panic refl

pub ok-injective {ℓ} : {A : Type ℓ} {a b : A} → ◌≡◌ {A = Result A} (ok a) (ok b) → b ≡ a
ok-injective e = cc

pub ok_pair {ℓ κ} :
    {A : Type ℓ} {B : Type κ} {a a' : A} {b b' : B}
    → ◌≡◌ {A = Result (A × B)} (ok (a, b)) (ok (a', b'))
    → (a' ≡ a) × (b' ≡ b)
ok_pair e = (cc, cc)
