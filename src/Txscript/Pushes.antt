-- ===== src/Txscript/Pushes.antt =====
-- Data pushes: what `pushData` writes, `parsePushes` reads.
use pacd.Base.{
  ℕ, zero, suc, ◌%◌, ◌≤◌, ◌<◌, ◌≡◌, ◌≢◌, refl, sym, ap, ◌∙◌, arith, true, false, leb, ltb, ◌==◌,
  List, [], ◌∷◌, ◌++◌, Bytes, length, length-append, length-drop, drop, take-length-append,
  drop-length-append, append-nil, Bool-cases, inl, inr,
}
use pacd.Base.Result.{Result, ok, panic, ◌>>=◌, outcome, is_ok, is_err, is_panic}
use pacd.Txscript.{push_head, take_push, parse_pushes_loop, parse_pushes, push_data}

take_push-exact :
    (d rest : Bytes) (k : Bytes → Result (List Bytes))
    → take_push (length d) (d ++ rest) k ≡ (k rest >>= λ ps. ok (d ∷ ps))
unfolding take_push
take_push-exact d rest k =
    let fits : ltb (length (d ++ rest)) (length d) ≡ false = ground (arith, length-append d rest) in
    simp (fits, take-length-append d rest, drop-length-append d rest)

nothing_left : (fuel : ℕ) → parse_pushes_loop fuel [] ≡ ok []
unfolding parse_pushes_loop
nothing_left fuel = refl

parse_short :
    (fuel op : ℕ) (script : Bytes)
    → (op == 0x4c) ≡ false
    → parse_pushes_loop (suc fuel) (op ∷ script) ≡ take_push op script (parse_pushes_loop fuel)
unfolding parse_pushes_loop push_head
parse_short fuel op script h = rw h refl

parse_long :
    (fuel n : ℕ) (script : Bytes)
    → parse_pushes_loop (suc fuel) (0x4c ∷ n ∷ script) ≡ take_push n script (parse_pushes_loop fuel)
unfolding parse_pushes_loop push_head
parse_long fuel n script = ground arith

length-lt-mod : (n : ℕ) → n < 256 → n % 256 ≡ n
length-lt-mod n h = omega arith

-- One round of the loop takes one push.
parse_push :
    (fuel : ℕ) (d rest : Bytes)
    → length d < 256
    → parse_pushes_loop (suc fuel) (push_data [] d ++ rest)
      ≡ (parse_pushes_loop fuel rest >>= λ ps. ok (d ∷ ps))
unfolding push_data
parse_push fuel d rest h =
    let small = length-lt-mod (length d) h in
    elim (Bool-cases (leb 0x4c (length d))) [
      | inl e ↦ simp (e, small, parse_long fuel (length d) (d ++ rest), take_push-exact d rest)
      | inr e ↦
          let short : (length d == 0x4c) ≡ false = ground arith in
          simp (e, small, parse_short fuel (length d) (d ++ rest) short, take_push-exact d rest)
    ]

push_data_append : (script d : Bytes) → push_data script d ≡ script ++ push_data [] d
unfolding push_data
push_data_append script d = elim (Bool-cases (leb 0x4c (length d))) [
  | inl e ↦ rw e refl
  | inr e ↦ rw e refl
]

length-push_data : (d : Bytes) → 1 ≤ length (push_data [] d)
unfolding push_data
length-push_data d = ground arith

two_pushes :
    (n : ℕ) (a b : Bytes)
    → 2 ≤ n
    → length a < 256
    → length b < 256
    → parse_pushes_loop n (push_data [] a ++ (push_data [] b ++ [])) ≡ ok (a ∷ b ∷ [])
two_pushes zero a b hn ha hb = absurd (omega arith)
two_pushes (suc zero) a b hn ha hb = absurd (omega arith)
two_pushes (suc (suc fuel)) a b hn ha hb =
    rw (parse_push (suc fuel) a (push_data [] b ++ []) ha)
      (rw (parse_push fuel b [] hb) (rw (nothing_left fuel) refl))

take_push-total :
    (n : ℕ) (script : Bytes) (k : Bytes → Result (List Bytes))
    → k (drop n script) ≢ panic
    → take_push n script k ≢ panic
unfolding take_push
take_push-total n script k h e = elim (Bool-cases (ltb (length script) n)) [
  | inl over ↦ absurd (ground arith)
  | inr fits ↦ elim (outcome (k (drop n script))) [
    | is_ok a e₁ ↦ absurd (ground arith)
    | is_err x e₁ ↦ absurd (ground arith)
    | is_panic e₁ ↦ h e₁
  ]
]

long_total :
    (fuel op : ℕ) (script : Bytes)
    → ((rest : Bytes) → length rest ≤ fuel → parse_pushes_loop fuel rest ≢ panic)
    → length (op ∷ script) ≤ suc fuel
    → (op == 0x4c) ≡ true
    → parse_pushes_loop (suc fuel) (op ∷ script) ≢ panic
unfolding parse_pushes_loop push_head
long_total fuel op [] again h e₁ e = absurd (ground arith)
long_total fuel op (n ∷ script) again h e₁ e =
    let same : op ≡ 0x4c = ground arith in
    take_push-total n script (parse_pushes_loop fuel)
      (again (drop n script) (omega (arith, h, length-drop n script)))
      (sym (parse_long fuel n script) ∙ rw same at e)

loop-total :
    (fuel : ℕ) (script : Bytes) → length script ≤ fuel → parse_pushes_loop fuel script ≢ panic
unfolding parse_pushes_loop push_head
loop-total fuel [] h e = cc
loop-total zero (op ∷ script) h e = absurd (omega arith)
loop-total (suc fuel) (op ∷ script) h e = elim (Bool-cases (op == 0x4c)) [
  | inr e₁ ↦
      take_push-total op script (parse_pushes_loop fuel)
        (loop-total fuel (drop op script) (omega (arith, h, length-drop op script)))
        (sym (parse_short fuel op script e₁) ∙ e)
  | inl e₁ ↦ long_total fuel op script (loop-total fuel) h e₁ e
]

-- `parsePushes` returns on every script, with fuel as long as the script: no index and no slice of
-- it is out of range.
pub parse_pushes-total : (script : Bytes) → parse_pushes script ≢ panic
unfolding parse_pushes
parse_pushes-total script = loop-total (length script) script (omega arith)

-- Two pushes of fewer than 256 bytes each are read back as they were written.
pub parse_pushes-push_data :
    (a b : Bytes)
    → length a < 256
    → length b < 256
    → parse_pushes (push_data (push_data [] a) b) ≡ ok (a ∷ b ∷ [])
unfolding parse_pushes
parse_pushes-push_data a b ha hb =
    let split : push_data (push_data [] a) b ≡ push_data [] a ++ (push_data [] b ++ []) =
      push_data_append (push_data [] a) b
      ∙ ap (λ xs. push_data [] a ++ xs) (sym (append-nil (push_data [] b))) in
    let long : 2 ≤ length (push_data [] a ++ (push_data [] b ++ [])) = omega (
      arith,
      length-append (push_data [] a) (push_data [] b ++ []),
      length-append (push_data [] b) [],
      length-push_data a,
      length-push_data b,
    ) in
    rw split (two_pushes _ a b long ha hb)
