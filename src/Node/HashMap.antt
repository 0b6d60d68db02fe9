-- ===== src/Node/HashMap.antt =====
-- Go's maps with block hashes as keys, as association lists: internal/p2p/node.go uses them for
-- orphans and side blocks. The order of the list is the order of an iteration.
use pacd.Base.{
  ◌+◌, ◌≤◌, ◌<◌, ◌≡◌, arith, Option, none, some, List, [], ◌∷◌, length, if◌then◌else◌, Bool-cases,
  inl, inr, bytes_eq, bytes_eq_refl, bytes_eq_sound, false, refl, All,
}
use pacd.Wire.Tx.{Hash}

abbrev pub HashMap {ℓ} : Type ℓ → Type ℓ
HashMap V = List (Hash × V)

module _ {ℓ} {V : Type ℓ} where
  unfoldable pub find : Hash → HashMap V → Option V
  find k [] = none
  find k ((j, v) ∷ m) = if bytes_eq j k then some v else find k m

  -- `delete(m, k)`
  unfoldable pub remove : Hash → HashMap V → HashMap V
  remove k [] = []
  remove k ((j, v) ∷ m) = if bytes_eq j k then remove k m else (j, v) ∷ remove k m

  -- `m[k] = v`
  unfoldable pub put : Hash → V → HashMap V → HashMap V
  put k v [] = (k, v) ∷ []
  put k v ((j, w) ∷ m) = if bytes_eq j k then (k, v) ∷ m else (j, w) ∷ put k v m

  pub length-remove-le : (k : Hash) (m : HashMap V) → length (remove k m) ≤ length m
  unfolding remove
  length-remove-le k [] = omega arith
  length-remove-le k ((j, v) ∷ m) = ground (arith, length-remove-le k m)

  pub length-remove :
      (k : Hash) (m : HashMap V) (v : V) → find k m ≡ some v → length (remove k m) < length m
  unfolding remove find
  length-remove k [] v e = cc
  length-remove k ((j, w) ∷ m) v e = ground (arith, length-remove k m v, length-remove-le k m)

  pub length-put : (k : Hash) (v : V) (m : HashMap V) → length (put k v m) ≤ length m + 1
  unfolding put
  length-put k v [] = omega arith
  length-put k v ((j, w) ∷ m) = ground (arith, length-put k v m)

  pub find-put : (k : Hash) (v : V) (m : HashMap V) → find k (put k v m) ≡ some v
  unfolding find put
  find-put k v [] = ground (arith, bytes_eq_refl k)
  find-put k v ((j, w) ∷ m) = ground (arith, bytes_eq_refl k, find-put k v m)

  pub find-put_ne :
      (j k : Hash) (v : V) (m : HashMap V) → bytes_eq j k ≡ false → find k (put j v m) ≡ find k m
  unfolding find put
  find-put_ne j k v [] h = rw h refl
  find-put_ne j k v ((i, w) ∷ m) h = ground (arith, find-put_ne j k v m h, bytes_eq_sound i j)

  -- A property of all values in the map.
  module _ {κ} (P : V → Type κ) where
    abbrev pub Values : HashMap V → Type κ
    Values = All (λ e. P e.1)

    pub Values-remove : (k : Hash) (m : HashMap V) → Values m → Values (remove k m)
    unfolding remove
    Values-remove k [] h = tt
    Values-remove k ((j, v) ∷ m) (p, h) = elim (Bool-cases (bytes_eq j k)) [
      | inl same ↦ rw same (Values-remove k m h)
      | inr other ↦ rw other (p, Values-remove k m h)
    ]

    pub Values-put : (k : Hash) (v : V) (m : HashMap V) → P v → Values m → Values (put k v m)
    unfolding put
    Values-put k v [] p h = (p, tt)
    Values-put k v ((j, w) ∷ m) p (q, h) = elim (Bool-cases (bytes_eq j k)) [
      | inl same ↦ rw same (p, h)
      | inr other ↦ rw other (q, Values-put k v m p h)
    ]

    pub Values-find : (k : Hash) (m : HashMap V) (v : V) → Values m → find k m ≡ some v → P v
    unfolding find
    Values-find k [] v h e = absurd (cc)
    Values-find k ((j, w) ∷ m) v (p, h) e = elim (Bool-cases (bytes_eq j k)) [
      | inl same ↦ let it : v ≡ w = ground arith in rw it p
      | inr other ↦ Values-find k m v h (ground arith)
    ]
