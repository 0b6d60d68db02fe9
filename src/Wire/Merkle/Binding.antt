-- ===== src/Wire/Merkle/Binding.antt =====
-- What the Merkle root says of the transactions.
use pacd.Base.{
  ℕ, zero, suc, ◌≤◌, ◌≡◌, ◌≢◌, refl, sym, ap, ◌∙◌, ◌⊎◌, inl, inr, List, [], ◌∷◌, ◌++◌, arith, Bytes,
  length, map, All, bytes_eq, bytes_eq_sound, bytes_eq_refl, Bool-cases, length-map,
}
use pacd.Wire.Tx.{Hash, MsgTx, tx_hash, serialize_tx}
use pacd.Wire.Tx.RoundTrip.{IsMsgTx, deserialize-serialize_tx}
use pacd.Wire.Merkle.{next_layer, merkle_loop, calc_merkle_root}

-- Two different byte strings with one hash.
pub record Collision (sum256 : Bytes → Hash) : Type 0 where
  pub left : Bytes
  pub right : Bytes
  pub differ : left ≢ right
  pub same : sum256 left ≡ sum256 right

append_split : (a b c d : Bytes) → length a ≡ length c → a ++ b ≡ c ++ d → (a ≡ c) × (b ≡ d)
append_split [] b [] d h e = (refl, e)
append_split [] b (y ∷ c) d h e = absurd (omega arith)
append_split (x ∷ a) b [] d h e = absurd (omega arith)
append_split (x ∷ a) b (y ∷ c) d h e =
    let t : (a ≡ c) × (b ≡ d) = append_split a b c d (omega arith) (cc) in (cc, t.1)

module _ (sum256 : Bytes → Hash) where
  -- Equal hashes come from equal strings, or show a collision.
  pub open_hash : (x y : Bytes) → sum256 x ≡ sum256 y → (x ≡ y) ⊎ Collision sum256
  open_hash x y e = elim (Bool-cases (bytes_eq x y)) [
    | inl s ↦ inl (bytes_eq_sound x y s)
    | inr d ↦ inr (record { left = x; right = y; differ = λ p. cc (bytes_eq_refl x); same = e })
  ]

  abbrev IsHashes : List Hash → Type 0
  IsHashes = All (λ h. length h ≡ 32)

  open_pair :
      (x y x' y' : Hash)
      → length x ≡ 32
      → length x' ≡ 32
      → sum256 (x ++ y) ≡ sum256 (x' ++ y')
      → ((x ≡ x') × (y ≡ y')) ⊎ Collision sum256
  open_pair x y x' y' hx hx' e = elim (open_hash (x ++ y) (x' ++ y') e) [
    | inl p ↦ inl (append_split x y x' y' (hx ∙ sym hx') p)
    | inr c ↦ inr c
  ]

  open_layer :
      (xs ys : List Hash)
      → length xs ≡ length ys
      → IsHashes xs
      → IsHashes ys
      → next_layer sum256 xs ≡ next_layer sum256 ys
      → (xs ≡ ys) ⊎ Collision sum256
  unfolding next_layer
  open_layer [] [] h hx hy e = inl refl
  open_layer [] (y ∷ ys) h hx hy e = absurd (omega arith)
  open_layer (x ∷ xs) [] h hx hy e = absurd (omega arith)
  open_layer (x ∷ []) (y ∷ []) h hx hy e = elim (open_pair x x y y hx.0 hy.0 (cc)) [
    | inl p ↦ inl (cc (p.0))
    | inr c ↦ inr c
  ]
  open_layer (x ∷ []) (y ∷ y' ∷ ys) h hx hy e = absurd (omega arith)
  open_layer (x ∷ x' ∷ xs) (y ∷ []) h hx hy e = absurd (omega arith)
  open_layer (x ∷ x' ∷ xs) (y ∷ y' ∷ ys) h hx hy e = elim (open_pair x x' y y' hx.0 hy.0 (cc)) [
    | inl p ↦ elim (open_layer xs ys (omega arith) hx.1.1 hy.1.1 (cc)) [
      | inl q ↦ inl (cc (p.0, p.1, q))
      | inr c ↦ inr c
    ]
    | inr c ↦ inr c
  ]

  length-next_layer :
      (xs ys : List Hash)
      → length xs ≡ length ys
      → length (next_layer sum256 xs) ≡ length (next_layer sum256 ys)
  unfolding next_layer
  length-next_layer [] [] h = refl
  length-next_layer [] (y ∷ ys) h = absurd (omega arith)
  length-next_layer (x ∷ xs) [] h = absurd (omega arith)
  length-next_layer (x ∷ []) (y ∷ []) h = refl
  length-next_layer (x ∷ []) (y ∷ y' ∷ ys) h = absurd (omega arith)
  length-next_layer (x ∷ x' ∷ xs) (y ∷ []) h = absurd (omega arith)
  length-next_layer (x ∷ x' ∷ xs) (y ∷ y' ∷ ys) h = ap suc (length-next_layer xs ys (omega arith))

  next_layer-le : (xs : List Hash) → length (next_layer sum256 xs) ≤ length xs
  unfolding next_layer
  next_layer-le [] = omega arith
  next_layer-le (x ∷ []) = omega arith
  next_layer-le (x ∷ y ∷ xs) = omega (arith, next_layer-le xs)

  module _ (sum256_length : (b : Bytes) → length (sum256 b) ≡ 32) where
    next_layer-IsHashes : (xs : List Hash) → IsHashes (next_layer sum256 xs)
    unfolding next_layer
    next_layer-IsHashes [] = tt
    next_layer-IsHashes (x ∷ []) = (sum256_length (x ++ x), tt)
    next_layer-IsHashes (x ∷ y ∷ xs) = (sum256_length (x ++ y), next_layer-IsHashes xs)

    open_loop :
        (fuel : ℕ) (xs ys : List Hash)
        → length xs ≤ fuel
        → length xs ≡ length ys
        → IsHashes xs
        → IsHashes ys
        → merkle_loop sum256 fuel xs ≡ merkle_loop sum256 fuel ys
        → (xs ≡ ys) ⊎ Collision sum256
    unfolding merkle_loop
    open_loop fuel [] [] f h hx hy e = inl refl
    open_loop fuel [] (y ∷ ys) f h hx hy e = absurd (omega arith)
    open_loop fuel (x ∷ xs) [] f h hx hy e = absurd (omega arith)
    open_loop fuel (x ∷ []) (y ∷ []) f h hx hy e = inl (cc (e))
    open_loop fuel (x ∷ []) (y ∷ y' ∷ ys) f h hx hy e = absurd (omega arith)
    open_loop fuel (x ∷ x' ∷ xs) (y ∷ []) f h hx hy e = absurd (omega arith)
    open_loop zero (x ∷ x' ∷ xs) (y ∷ y' ∷ ys) f h hx hy e = absurd (omega arith)
    open_loop (suc fuel) (x ∷ x' ∷ xs) (y ∷ y' ∷ ys) f h hx hy e =
        elim (open_loop fuel (next_layer sum256 (x ∷ x' ∷ xs)) (next_layer sum256 (y ∷ y' ∷ ys))
          (unfold next_layer in omega (arith, next_layer-le xs))
          (length-next_layer (x ∷ x' ∷ xs) (y ∷ y' ∷ ys) h) (next_layer-IsHashes (x ∷ x' ∷ xs))
          (next_layer-IsHashes (y ∷ y' ∷ ys)) e) [
            | inl p ↦ open_layer (x ∷ x' ∷ xs) (y ∷ y' ∷ ys) h hx hy p
            | inr c ↦ inr c
          ]

    map-tx_hash-IsHashes : (txs : List MsgTx) → IsHashes (map (tx_hash sum256) txs)
    unfolding tx_hash
    map-tx_hash-IsHashes [] = tt
    map-tx_hash-IsHashes (tx ∷ txs) = (sum256_length (serialize_tx tx), map-tx_hash-IsHashes txs)

    open_tx :
        (tx tx' : MsgTx)
        → IsMsgTx tx
        → IsMsgTx tx'
        → tx_hash sum256 tx ≡ tx_hash sum256 tx'
        → (tx ≡ tx') ⊎ Collision sum256
    unfolding tx_hash
    open_tx tx tx' v v' e = elim (open_hash (serialize_tx tx) (serialize_tx tx') e) [
      | inl p ↦ inl (cc (p, deserialize-serialize_tx tx v, deserialize-serialize_tx tx' v'))
      | inr c ↦ inr c
    ]

    open_txs :
        (txs txs' : List MsgTx)
        → All IsMsgTx txs
        → All IsMsgTx txs'
        → map (tx_hash sum256) txs ≡ map (tx_hash sum256) txs'
        → (txs ≡ txs') ⊎ Collision sum256
    open_txs [] [] v v' e = inl refl
    open_txs [] (t ∷ ts) v v' e = absurd (cc)
    open_txs (t ∷ ts) [] v v' e = absurd (cc)
    open_txs (t ∷ ts) (u ∷ us) v v' e = elim (open_tx t u v.0 v'.0 (cc)) [
      | inl p ↦ elim (open_txs ts us v.1 v'.1 (cc)) [ inl q ↦ inl (cc (p, q)) | inr c ↦ inr c ]
      | inr c ↦ inr c
    ]

    -- The Merkle root commits to the transactions: two lists of one length, in range, with one root
    -- are the same list, or they exhibit a collision of the hash function, whose results have 32 bytes.
    pub calc_merkle_root_binding :
        (txs txs' : List MsgTx)
        → length txs ≡ length txs'
        → All IsMsgTx txs
        → All IsMsgTx txs'
        → calc_merkle_root sum256 txs ≡ calc_merkle_root sum256 txs'
        → (txs ≡ txs') ⊎ Collision sum256
    unfolding calc_merkle_root
    calc_merkle_root_binding txs txs' h v v' e =
        elim (open_loop (length txs) (map (tx_hash sum256) txs) (map (tx_hash sum256) txs')
          (omega (arith, length-map txs (tx_hash sum256)))
          (length-map txs (tx_hash sum256) ∙ h ∙ sym (length-map txs' (tx_hash sum256)))
          (map-tx_hash-IsHashes txs) (map-tx_hash-IsHashes txs')
          (e ∙ ap (λ n. merkle_loop sum256 n (map (tx_hash sum256) txs')) (sym h))) [
            | inl p ↦ open_txs txs txs' v v' p
            | inr c ↦ inr c
          ]
