-- ===== src/Chain/Utxo.antt =====
-- The `map[wire.OutPoint]*UTXOEntry` as an association list. Entries are immutable here, so the
-- clones that chain.go makes are the values themselves.
use pacd.Base.{
  ℕ, ◌+◌, ◌≤◌, ◌≡◌, refl, arith, Bool, true, false, ◌&&◌, Option, none, some, List, [], ◌∷◌, ◌==◌,
  if◌then◌else◌, bytes_eq, bytes_eq_sound, bytes_eq_refl, All,
}
use pacd.Base.Words.{max_int64}
use pacd.Base.Int.{ℤ, pos, pos_part, ◌≤ℤ◌}
use pacd.Wire.Tx.{OutPoint, TxOut}

pub record UtxoEntry : Type 0 where
  pub tx_out : TxOut
  pub block_height : ℕ
  pub coinbase : Bool

abbrev pub UtxoSet : Type 0
UtxoSet = List (OutPoint × UtxoEntry)

-- `==` on `wire.OutPoint`.
unfoldable pub out_point_eq : OutPoint → OutPoint → Bool
out_point_eq a b = bytes_eq a.hash b.hash && (a.index == b.index)

unfoldable pub lookup : OutPoint → UtxoSet → Option UtxoEntry
lookup k [] = none
lookup k ((j, e) ∷ m) = if out_point_eq k j then some e else lookup k m

-- `view[k] = e`.
unfoldable pub insert : OutPoint → UtxoEntry → UtxoSet → UtxoSet
insert k e [] = (k, e) ∷ []
insert k e ((j, f) ∷ m) = if out_point_eq k j then (k, e) ∷ m else (j, f) ∷ insert k e m

-- `delete(view, k)`.
unfoldable pub erase : OutPoint → UtxoSet → UtxoSet
erase k [] = []
erase k ((j, e) ∷ m) = if out_point_eq k j then erase k m else (j, e) ∷ erase k m

unfoldable pub contains : OutPoint → List OutPoint → Bool
contains k [] = false
contains k (j ∷ ks) = if out_point_eq k j then true else contains k ks

-- The atoms that a set of outputs holds.
abbrev pub amount : TxOut → ℕ
amount o = pos_part o.value

abbrev pub total : UtxoSet → ℕ
total [] = 0
total ((k, e) ∷ m) = amount e.tx_out + total m

-- An int64 that is not negative.
abbrev pub IsMoney : ℤ → Type 0
IsMoney v = (pos 0 ≤ℤ v) × (v ≤ℤ max_int64)

abbrev pub HasMoney : OutPoint × UtxoEntry → Type 0
HasMoney (k, e) = IsMoney e.tx_out.value

pub out_point_eq_refl : (k : OutPoint) → out_point_eq k k ≡ true
unfolding out_point_eq
out_point_eq_refl k = ground (arith, bytes_eq_refl k.hash)

pub out_point_eq_sound : (a b : OutPoint) → out_point_eq a b ≡ true → a ≡ b
unfolding out_point_eq
out_point_eq_sound a b h = ground (arith, bytes_eq_sound a.hash b.hash)

pub total-insert :
    (k : OutPoint) (e : UtxoEntry) (m : UtxoSet) → total (insert k e m) ≤ amount e.tx_out + total m
unfolding insert
total-insert k e [] = omega arith
total-insert k e ((j, f) ∷ m) = ground (arith, total-insert k e m)

pub total-erase-le : (k : OutPoint) (m : UtxoSet) → total (erase k m) ≤ total m
unfolding erase
total-erase-le k [] = omega arith
total-erase-le k ((j, e) ∷ m) = ground (arith, total-erase-le k m)

-- Spending an entry takes its value out of the set.
pub total-erase :
    (k : OutPoint) (m : UtxoSet) (e : UtxoEntry)
    → lookup k m ≡ some e
    → amount e.tx_out + total (erase k m) ≤ total m
unfolding lookup erase
total-erase k [] e h = cc
total-erase k ((j, f) ∷ m) e h = ground (arith, total-erase k m e, total-erase-le k m)

pub lookup-erase : (k : OutPoint) (m : UtxoSet) → lookup k (erase k m) ≡ none
unfolding lookup erase
lookup-erase k [] = refl
lookup-erase k ((j, e) ∷ m) = ground (arith, lookup-erase k m)

pub insert-HasMoney :
    (k : OutPoint) (e : UtxoEntry) (m : UtxoSet)
    → IsMoney e.tx_out.value
    → All HasMoney m
    → All HasMoney (insert k e m)
unfolding insert
insert-HasMoney k e [] p h = (p, tt)
insert-HasMoney k e ((j, f) ∷ m) p h = ground (arith, insert-HasMoney k e m p h.1)

pub erase-HasMoney : (k : OutPoint) (m : UtxoSet) → All HasMoney m → All HasMoney (erase k m)
unfolding erase
erase-HasMoney k [] h = tt
erase-HasMoney k ((j, e) ∷ m) h = ground (arith, erase-HasMoney k m h.1)

pub lookup-HasMoney :
    (k : OutPoint) (m : UtxoSet) (e : UtxoEntry)
    → All HasMoney m
    → lookup k m ≡ some e
    → IsMoney e.tx_out.value
unfolding lookup
lookup-HasMoney k [] e h p = cc
lookup-HasMoney k ((j, f) ∷ m) e h p = ground (arith, lookup-HasMoney k m e h.1)
