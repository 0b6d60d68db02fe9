-- ===== src/Wire/Reader.antt =====
-- `bytes.Reader` with `io.ReadFull` and `binary.Read`, and the bytes that `binary.Write` appends.
-- The reader's state is the input that is left; a caller that gets an error drops it.
use pacd.Base.{
  ℕ, zero, suc, ◌+◌, ◌*◌, ◌/◌, ◌%◌, ◌^◌, ◌<◌, ◌≡◌, refl, sym, ap, List, [], ◌∷◌, ◌++◌, append_assoc,
  append-nil, arith, leb, ◌==◌, if◌then◌else◌, length, take, drop, length-append, length-take,
  take-length-append, drop-length-append, take-append-drop, All, concat_map, Bytes, IsByte,
  Bool-cases, inl, inr, length-drop, All-drop,
}
use pacd.Base.Result.{Result, ok, err, ◌>>=◌, eof, unexpected_eof}
use native.Mathlib.Nat.{pow-suc}

abbrev pub Reader {ℓ} : Type ℓ → Type ℓ
Reader A = Bytes → Result (A × Bytes)

-- `io.ReadFull`: `io.EOF` if nothing was there to read, `io.ErrUnexpectedEOF` if too little was.
unfoldable pub read_full : ℕ → Reader Bytes
read_full n s =
    if leb n (length s)
    then ok (take n s, drop n s)
    else if length s == 0
    then err eof
    else err unexpected_eof

-- `binary.Write` of an unsigned value of `n` bytes, lowest byte first.
unfoldable pub put_le : ℕ → ℕ → Bytes
put_le zero x = []
put_le (suc n) x = (x % 256) ∷ put_le n (x / 256)

unfoldable pub from_le : Bytes → ℕ
from_le [] = 0
from_le (b ∷ bs) = b + 256 * from_le bs

-- `binary.Read` of an unsigned value of `n` bytes.
unfoldable pub read_le : ℕ → Reader ℕ
unfolding read_full from_le
read_le n s = do (b, rest) ← read_full n s; ok (from_le b, rest)

-- A loop that reads `n` items with `read` and appends each to a slice.
unfoldable pub read_many {ℓ} : {A : Type ℓ} → ℕ → Reader A → Reader (List A)
read_many zero read s = ok ([], s)
read_many (suc n) read s = do (x, s₁) ← read s; (xs, s₂) ← read_many n read s₁; ok (x ∷ xs, s₂)

pub length-put_le : (n x : ℕ) → length (put_le n x) ≡ n
unfolding put_le
length-put_le zero x = refl
length-put_le (suc n) x = ap suc (length-put_le n (x / 256))

pub put_le-IsByte : (n x : ℕ) → All IsByte (put_le n x)
unfolding put_le
put_le-IsByte zero x = tt
put_le-IsByte (suc n) x = (omega arith, put_le-IsByte n (x / 256))

pub from_le-put_le : (n x : ℕ) → x < 256 ^ n → from_le (put_le n x) ≡ x
unfolding put_le from_le
from_le-put_le zero x h = omega arith
from_le-put_le (suc n) x h =
    omega (arith, from_le-put_le n (x / 256) (omega (arith, pow-suc 256 n)))

pub put_le-from_le : (bs : Bytes) → All IsByte bs → put_le (length bs) (from_le bs) ≡ bs
unfolding put_le from_le
put_le-from_le [] h = refl
put_le-from_le (b ∷ bs) (hb, h) = ground (arith, put_le-from_le bs h)

pub from_le-lt : (bs : Bytes) → All IsByte bs → from_le bs < 256 ^ length bs
unfolding from_le
from_le-lt [] h = omega arith
from_le-lt (b ∷ bs) (hb, h) = omega (arith, from_le-lt bs h, pow-suc 256 (length bs))

pub read_full-append :
    (n : ℕ) (bs rest : Bytes) → length bs ≡ n → read_full n (bs ++ rest) ≡ ok (bs, rest)
unfolding read_full
read_full-append n bs rest h = rw (← h) (
    rw (take-length-append bs rest, drop-length-append bs rest)
      (ground (arith, length-append bs rest)))

pub read_le-put_le :
    (n x : ℕ) (rest : Bytes) → x < 256 ^ n → read_le n (put_le n x ++ rest) ≡ ok (x, rest)
unfolding read_le
read_le-put_le n x rest h =
    rw (read_full-append n (put_le n x) rest (length-put_le n x)) (rw (from_le-put_le n x h))

pub read_le-put_le_end : (n x : ℕ) → x < 256 ^ n → read_le n (put_le n x) ≡ ok (x, [])
read_le-put_le_end n x h = rw append-nil at (read_le-put_le n x [] h)

pub read_full_end : (n : ℕ) (bs : Bytes) → length bs ≡ n → read_full n bs ≡ ok (bs, [])
read_full_end n bs h = rw append-nil at (read_full-append n bs [] h)

-- What a successful `read_full` took.
pub read_full-eq-ok :
    (n : ℕ) (s bs rest : Bytes) → read_full n s ≡ ok (bs, rest) → (s ≡ bs ++ rest) × (length bs ≡ n)
unfolding read_full
read_full-eq-ok n s bs rest h = elim (Bool-cases (leb n (length s))) [
  | inl e ↦ ground (arith, take-append-drop n s, length-take n s)
  | inr e ↦ ground arith
]

pub read_many-write {ℓ κ} :
    {A : Type ℓ} (P : A → Type κ) (write : A → Bytes) (read : Reader A)
    → ((a : A) (rest : Bytes) → P a → read (write a ++ rest) ≡ ok (a, rest))
    → (xs : List A) (rest : Bytes) → All P xs
    → read_many (length xs) read (concat_map write xs ++ rest) ≡ ok (xs, rest)
unfolding read_many
read_many-write P write read one [] rest h = refl
read_many-write P write read one (a ∷ xs) rest (pa, h) =
    rw (append_assoc (write a) (concat_map write xs) rest) (
      rw (one a (concat_map write xs ++ rest) pa) (rw (read_many-write P write read one xs rest h)))

from_le_cons : (b x : ℕ) → b < 256 → ((b + 256 * x) % 256 ≡ b) × ((b + 256 * x) / 256 ≡ x)
from_le_cons b x h = (omega arith, omega arith)

-- A string of `n + m` bytes begins with an encoded number, and with a byte string.
pub data LeFront (n m : ℕ) (s : Bytes) : Type 0 where
  front :
      (x : ℕ) (rest : Bytes)
      → s ≡ put_le n x ++ rest
      → x < 256 ^ n
      → All IsByte rest
      → length rest ≡ m
      → LeFront n m s

pub data BytesFront (n m : ℕ) (s : Bytes) : Type 0 where
  front :
      (bs rest : Bytes)
      → s ≡ bs ++ rest
      → length bs ≡ n
      → All IsByte rest
      → length rest ≡ m
      → BytesFront n m s

pub take_le : (n m : ℕ) (s : Bytes) → All IsByte s → length s ≡ n + m → LeFront n m s
unfolding put_le
take_le zero m s hs h = LeFront.front 0 s refl (omega arith) hs (omega arith)
take_le (suc n) m [] hs h = absurd (omega arith)
take_le (suc n) m (b ∷ s) (hb, hs) h = elim (take_le n m s hs (omega arith)) [
  | LeFront.front x rest e hx hr hl ↦
      LeFront.front (b + 256 * x) rest (simp ((from_le_cons b x hb).0, (from_le_cons b x hb).1, e))
        (omega (arith, pow-suc 256 n)) hr hl
]

pub take_bytes : (n m : ℕ) (s : Bytes) → All IsByte s → length s ≡ n + m → BytesFront n m s
take_bytes n m s hs h =
    BytesFront.front (take n s) (drop n s) (sym (take-append-drop n s))
      (omega (arith, length-take n s)) (All-drop IsByte n s hs) (omega (arith, length-drop n s))

pub read_many-write_end {ℓ κ} :
    {A : Type ℓ} (P : A → Type κ) (write : A → Bytes) (read : Reader A)
    → ((a : A) (rest : Bytes) → P a → read (write a ++ rest) ≡ ok (a, rest))
    → (xs : List A) → All P xs
    → read_many (length xs) read (concat_map write xs) ≡ ok (xs, [])
read_many-write_end P write read one xs h =
    rw append-nil at (read_many-write P write read one xs [] h)
