-- ===== src/Address/Base58/RoundTrip.antt =====
-- `decodeBase58` after `encodeBase58`.
use mathlib.Core.List.{reverse, reverse-append, reverse-reverse}
use pacd.Base.{
  ℕ, zero, suc, ◌+◌, ◌*◌, ◌/◌, ◌%◌, ◌<◌, ◌≡◌, refl, sym, ap, ◌∙◌, arith, Bool, true, false, not,
  ◌&&◌, ◌||◌, inl, inr, Bool-cases, none, some, Option-cases, List, [], ◌∷◌, ◌++◌, map, append-nil,
  append_assoc, Bytes, All, IsByte, replicate, ◌==◌, All-append,
}
use pacd.Base.Result.{ok, err, ◌>>=◌, base58_char}
use pacd.Address.Base58.{
  alphabet, char_at, index_from, value, digits, set_bytes, int_bytes, encode_loop, leading_ones,
  encode_base58, decode_loop, prepend_zeros, decode_base58,
}
use pacd.Address.Base58.Digits.{
  IsTrimmed, value-digits, digits-small, digits-IsTrimmed, digits-value,
}

all_below : ℕ → (ℕ → Bool) → Bool
all_below zero f = true
all_below (suc n) f = f n && all_below n f

all_below_sound : (n : ℕ) (f : ℕ → Bool) (k : ℕ) → all_below n f ≡ true → k < n → f k ≡ true
unfolding all_below
all_below_sound zero f k e h = absurd (omega arith)
all_below_sound (suc n) f k e h = elim (Bool-cases (k == n)) [
  | inl same ↦ let it : k ≡ n = ground arith in rw it (ground arith)
  | inr other ↦ all_below_sound n f k (ground arith) (ground arith)
]

-- Each digit's character has the digit as its index, and only zero's is a one.
is_digit_char : ℕ → Bool
is_digit_char k = elim (index_from 0 (char_at k) alphabet) [
  | none ↦ false
  | some i ↦ (i == k) && ((k == 0) || not (char_at k == 49))
]

digit_chars : all_below 58 is_digit_char ≡ true
unfolding all_below is_digit_char index_from char_at
digit_chars = refl

index-char : (k : ℕ) → k < 58 → index_from 0 (char_at k) alphabet ≡ some k
unfolding is_digit_char
index-char k h =
    let e = all_below_sound 58 is_digit_char k digit_chars h in
    elim (Option-cases (index_from 0 (char_at k) alphabet)) [
      | inl missing ↦ absurd (ground arith)
      | inr (i, found) ↦ let same : i ≡ k = ground arith in found ∙ ap some same
    ]

char-ne-one : (k : ℕ) → k < 58 → 0 < k → (char_at k == 49) ≡ false
unfolding is_digit_char
char-ne-one k h p =
    let e = all_below_sound 58 is_digit_char k digit_chars h in
    elim (Option-cases (index_from 0 (char_at k) alphabet)) [
      | inl missing ↦ absurd (ground arith)
      | inr (i, found) ↦ ground arith
    ]

decode_loop-known :
    (a r i : ℕ) (rs : Bytes)
    → index_from 0 r alphabet ≡ some i
    → decode_loop a (r ∷ rs) ≡ decode_loop (a * 58 + i) rs
unfolding decode_loop
decode_loop-known a r i rs found = rw (decode_loop, found) refl

decode_loop-unknown :
    (a r : ℕ) (rs : Bytes)
    → index_from 0 r alphabet ≡ none
    → decode_loop a (r ∷ rs) ≡ err base58_char
unfolding decode_loop
decode_loop-unknown a r rs missing = rw (decode_loop, missing) refl

decode_loop-append :
    (a : ℕ) (s t : Bytes) → decode_loop a (s ++ t) ≡ (decode_loop a s >>= λ a'. decode_loop a' t)
unfolding decode_loop
decode_loop-append a [] t = refl
decode_loop-append a (r ∷ rs) t = elim (Option-cases (index_from 0 r alphabet)) [
  | inl missing ↦
      decode_loop-unknown a r (rs ++ t) missing
      ∙ ap (λ m. m >>= λ a'. decode_loop a' t) (sym (decode_loop-unknown a r rs missing))
  | inr (i, found) ↦
      decode_loop-known a r i (rs ++ t) found
      ∙ decode_loop-append (a * 58 + i) rs t
      ∙ ap (λ m. m >>= λ a'. decode_loop a' t) (sym (decode_loop-known a r i rs found))
]

-- The characters of digits are read as what the digits are worth.
decode_loop-digits :
    (ds : List ℕ)
    → All (λ d. d < 58) ds
    → decode_loop 0 (reverse (map char_at ds)) ≡ ok (value 58 ds)
unfolding decode_loop value
decode_loop-digits [] a = refl
decode_loop-digits (d ∷ ds) (h, a) =
    let last : decode_loop (value 58 ds) (char_at d ∷ []) ≡ ok (value 58 ds * 58 + d) =
      decode_loop-known (value 58 ds) (char_at d) d [] (index-char d h) in
    ap (decode_loop 0) (reverse-append (char_at d ∷ []) (map char_at ds))
    ∙ decode_loop-append 0 (reverse (map char_at ds)) (char_at d ∷ [])
    ∙ ap (λ r. r >>= λ a'. decode_loop a' (char_at d ∷ [])) (decode_loop-digits ds a)
    ∙ last
    ∙ ap ok (omega arith)

encode_loop_lem :
    (fuel x : ℕ) (answer : Bytes)
    → encode_loop fuel x answer ≡ answer ++ map char_at (digits 58 fuel x)
unfolding encode_loop digits
encode_loop_lem zero x answer = sym (append-nil answer)
encode_loop_lem (suc fuel) x answer = elim (Bool-cases (x == 0)) [
  | inl done ↦ rw done (sym (append-nil answer))
  | inr more ↦ rw more (
      encode_loop_lem fuel (x / 58) (answer ++ (char_at (x % 58) ∷ []))
      ∙ append_assoc answer (char_at (x % 58) ∷ []) (map char_at (digits 58 fuel (x / 58))))
]

-- A text whose first character is not a one.
abbrev NoOne : Bytes → Type 0
NoOne s = (ch : ℕ) × (rest : Bytes) × (s ≡ ch ∷ rest) × ((ch == 49) ≡ false)

digits-NoOne :
    (d : ℕ) (ds : List ℕ)
    → All (λ k. k < 58) (d ∷ ds)
    → IsTrimmed (d ∷ ds)
    → NoOne (reverse (map char_at (d ∷ ds)))
digits-NoOne d [] (h, a) t = (char_at d, [], refl, char-ne-one d h t)
digits-NoOne d (e ∷ es) (h, a) t =
    let (ch, rest, same, ne) = digits-NoOne e es a t in
    (
      ch,
      rest ++ (char_at d ∷ []),
      reverse-append (char_at d ∷ []) (map char_at (e ∷ es)) ∙ ap (λ s. s ++ (char_at d ∷ [])) same,
      ne,
    )

prepend_zeros-digits :
    (ds : List ℕ) (b : Bytes)
    → All (λ k. k < 58) ds
    → IsTrimmed ds
    → prepend_zeros (reverse (map char_at ds)) b ≡ b
unfolding prepend_zeros
prepend_zeros-digits [] b a t = refl
prepend_zeros-digits (d ∷ ds) b a t =
    let (ch, rest, same, ne) = digits-NoOne d ds a t in
    let first : prepend_zeros (ch ∷ rest) b ≡ b = rw ne refl in
    ap (λ s. prepend_zeros s b) same ∙ first

replicate-snoc {ℓ} :
    {A : Type ℓ} (z : ℕ) (a : A) (xs : List A)
    → replicate z a ++ (a ∷ xs) ≡ a ∷ (replicate z a ++ xs)
replicate-snoc zero a xs = refl
replicate-snoc (suc z) a xs = ap (λ ys. a ∷ ys) (replicate-snoc z a xs)

reverse-replicate {ℓ} : {A : Type ℓ} (z : ℕ) (a : A) → reverse (replicate z a) ≡ replicate z a
reverse-replicate zero a = refl
reverse-replicate (suc z) a =
    reverse-append (a ∷ []) (replicate z a)
    ∙ ap (λ xs. xs ++ (a ∷ [])) (reverse-replicate z a)
    ∙ replicate-snoc z a []
    ∙ ap (λ xs. a ∷ xs) (append-nil (replicate z a))

decode_loop-ones : (z : ℕ) (s : Bytes) → decode_loop 0 (replicate z 49 ++ s) ≡ decode_loop 0 s
unfolding char_at
decode_loop-ones zero s = refl
decode_loop-ones (suc z) s =
    decode_loop-known 0 49 0 (replicate z 49 ++ s) (index-char 0 (omega arith))
    ∙ decode_loop-ones z s

prepend_zeros-ones :
    (z : ℕ) (s d : Bytes)
    → prepend_zeros (replicate z 49 ++ s) d ≡ prepend_zeros s (replicate z 0 ++ d)
unfolding prepend_zeros
prepend_zeros-ones zero s d = refl
prepend_zeros-ones (suc z) s d =
    prepend_zeros-ones z s (0 ∷ d) ∙ ap (prepend_zeros s) (replicate-snoc z 0 d)

IsTrimmed-snoc : (ds : List ℕ) (d : ℕ) → 0 < d → IsTrimmed (ds ++ (d ∷ []))
IsTrimmed-snoc [] d h = h
IsTrimmed-snoc (e ∷ []) d h = h
IsTrimmed-snoc (e ∷ f ∷ fs) d h = IsTrimmed-snoc (f ∷ fs) d h

All-reverse : (b : Bytes) → All IsByte b → All IsByte (reverse b)
All-reverse [] a = tt
All-reverse (x ∷ xs) (h, a) =
    rw (reverse-append (x ∷ []) xs)
      (All-append IsByte (reverse xs) (x ∷ []) (All-reverse xs a) (h, tt))

-- A byte string is zeros and a part that does not begin with one.
leading :
    (b : Bytes)
    → All IsByte b
    → (z : ℕ) × (rest : Bytes) × (b ≡ replicate z 0 ++ rest)
      × (leading_ones b ≡ replicate z 49)
      × IsTrimmed (reverse rest)
      × All IsByte rest
unfolding leading_ones
leading [] a = (0, [], refl, refl, tt, tt)
leading (v ∷ vs) (h, a) = elim (Bool-cases (v == 0)) [
  | inl zero_byte ↦
      let (z, rest, same, ones, t, small) = leading vs a in
      let it : v ≡ 0 = ground arith in
      (
        suc z,
        rest,
        ap (λ x. x ∷ vs) it ∙ ap (λ xs. 0 ∷ xs) same,
        rw zero_byte (ap (λ xs. 49 ∷ xs) ones),
        t,
        small,
      )
  | inr other ↦ (
    0,
    v ∷ vs,
    refl,
    rw other refl,
    rw (reverse-append (v ∷ []) vs) (IsTrimmed-snoc (reverse vs) v (ground arith)),
    (h, a),
  )
]

value-zeros : (xs : List ℕ) (z : ℕ) → value 256 (xs ++ replicate z 0) ≡ value 256 xs
unfolding value
value-zeros [] zero = refl
value-zeros [] (suc z) = omega (arith, value-zeros [] z)
value-zeros (x ∷ xs) z = omega (arith, value-zeros xs z)

set_bytes-zeros :
    (z : ℕ) (rest : Bytes) → set_bytes (replicate z 0 ++ rest) ≡ value 256 (reverse rest)
unfolding set_bytes
set_bytes-zeros z rest =
    ap (value 256)
      (reverse-append (replicate z 0) rest ∙ ap (λ xs. reverse rest ++ xs) (reverse-replicate z 0))
    ∙ value-zeros (reverse rest) z

int_bytes-value :
    (rest : Bytes)
    → IsTrimmed (reverse rest)
    → All IsByte rest
    → int_bytes (value 256 (reverse rest)) ≡ rest
unfolding int_bytes
int_bytes-value rest t a =
    ap reverse (
      digits-value 256 (omega arith) (value 256 (reverse rest)) (reverse rest) (All-reverse rest a)
        t (omega arith))
    ∙ reverse-reverse rest

encode_base58-ones :
    (b : Bytes) (z : ℕ)
    → leading_ones b ≡ replicate z 49
    → encode_base58 b
      ≡ replicate z 49 ++ reverse (map char_at (digits 58 (set_bytes b) (set_bytes b)))
unfolding encode_base58
encode_base58-ones b z ones =
    let chars = map char_at (digits 58 (set_bytes b) (set_bytes b)) in
    ap (λ xs. reverse (xs ++ leading_ones b)) (encode_loop_lem (set_bytes b) (set_bytes b) [])
    ∙ reverse-append chars (leading_ones b)
    ∙ ap (λ xs. reverse xs ++ reverse chars) ones
    ∙ ap (λ xs. xs ++ reverse chars) (reverse-replicate z 49)

decode_base58-ones :
    (z x : ℕ)
    → decode_base58 (replicate z 49 ++ reverse (map char_at (digits 58 x x)))
      ≡ ok (replicate z 0 ++ int_bytes x)
unfolding decode_base58
decode_base58-ones z x =
    let ds = digits 58 x x in
    let s = reverse (map char_at ds) in
    let small = digits-small 58 (omega arith) x x in
    let read : decode_loop 0 (replicate z 49 ++ s) ≡ ok x =
      decode_loop-ones z s
      ∙ decode_loop-digits ds small
      ∙ ap ok (value-digits 58 (omega arith) x x (omega arith)) in
    let trimmed = digits-IsTrimmed 58 (omega arith) x x (omega arith) in
    ap (λ m. m >>= λ answer. ok (prepend_zeros (replicate z 49 ++ s) (int_bytes answer))) read
    ∙ ap ok (
        prepend_zeros-ones z s (int_bytes x)
        ∙ prepend_zeros-digits ds (replicate z 0 ++ int_bytes x) small trimmed)

-- Every byte string, with its leading zeros, is decoded from its base 58 encoding.
pub decode-encode_base58 : (b : Bytes) → All IsByte b → decode_base58 (encode_base58 b) ≡ ok b
decode-encode_base58 b a =
    let (z, rest, same, ones, t, small) = leading b a in
    let number : set_bytes b ≡ value 256 (reverse rest) =
      ap set_bytes same ∙ set_bytes-zeros z rest in
    ap decode_base58 (encode_base58-ones b z ones)
    ∙ decode_base58-ones z (set_bytes b)
    ∙ ap ok (
        ap (λ xs. replicate z 0 ++ xs) (ap int_bytes number ∙ int_bytes-value rest t small)
        ∙ sym same)
