-- ===== src/Wire/Merkle.antt =====
-- internal/wire/block.go: `CalcMerkleRoot` and `RefreshMerkleRoot`. `sum256` is BLAKE-256.
pub mod Binding
use pacd.Base.{ℕ, zero, suc, List, [], ◌∷◌, ◌++◌, Bytes, length, map}
use pacd.Wire.Tx.{Hash, MsgTx, zero_hash, tx_hash}
use pacd.Wire.Block.{MsgBlock}

module _ (sum256 : Bytes → Hash) where
  -- One round of the outer loop: neighbours are hashed together, an odd last one with itself.
  unfoldable pub next_layer : List Hash → List Hash
  next_layer [] = []
  next_layer (x ∷ []) = sum256 (x ++ x) ∷ []
  next_layer (x ∷ y ∷ rest) = sum256 (x ++ y) ∷ next_layer rest

  -- `for len(layer) > 1`, on fuel; `layer[0]` is the result.
  unfoldable pub merkle_loop : ℕ → List Hash → Hash
  merkle_loop fuel [] = zero_hash
  merkle_loop fuel (x ∷ []) = x
  merkle_loop zero (x ∷ y ∷ rest) = x
  merkle_loop (suc fuel) (x ∷ y ∷ rest) = merkle_loop fuel (next_layer (x ∷ y ∷ rest))

  unfoldable pub calc_merkle_root : List MsgTx → Hash
  unfolding merkle_loop
  calc_merkle_root txs = merkle_loop (length txs) (map (tx_hash sum256) txs)

  unfoldable pub refresh_merkle_root : MsgBlock → MsgBlock
  refresh_merkle_root b =
      let header = b.header in
      record b { header = record header { merkle_root = calc_merkle_root b.transactions } }
