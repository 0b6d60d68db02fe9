-- ===== src/Node/Headers.antt =====
-- internal/p2p/node.go: the headers that a node sends, and those that it accepts.
pub mod Honest
use pacd.Base.{
  ℕ, ◌+◌, ◌-◌, ◌%◌, Bool, true, false, not, Option, List, [], ◌∷◌, map, take, drop, length, ltb,
  leb, ◌==◌, if◌then◌else◌, bytes_eq,
}
use pacd.Base.Int.{ℤ, pos, leb_ℤ}
use pacd.Base.Words.{u32_mod}
use pacd.Base.Result.{
  Result, ok, err, reject_if, ◌>>=◌, ◌>>◌, bad_height, prev_mismatch, timestamp_not_after, bad_bits,
  mining_closed,
}
use pacd.Crypto.{Crypto}
use pacd.Wire.Tx.{Hash}
use pacd.Wire.Header.{BlockHeader, header_hash}
use pacd.Wire.Block.{MsgBlock}
use pacd.Chaincfg.{Params, Time, mining_open}
use pacd.Consensus.Asert.{calc_asert_next_bits}
use pacd.Consensus.Pow.{check_proof_of_work}
use pacd.Chain.State.{Chain, tip, chain_height, must_block_hash, or_panic}
use pacd.P2p.Sync.{max_headers_per_message}

unfoldable pub header_of : MsgBlock → BlockHeader
header_of b = b.header

-- A height is a uint32, so the sum does not leave Go's int.
unfoldable pub headers_after : Chain → ℕ → List BlockHeader
unfolding header_of
headers_after ch start_height =
    let n = length ch.blocks in
    let first = start_height + 1 in
    let end' =
      if ltb (first + max_headers_per_message) n then first + max_headers_per_message else n in
    if leb n first then [] else map header_of (take (end' - first) (drop first ch.blocks))

module _ (c : Crypto) where
  -- The tests on one header, and its hash.
  unfoldable pub validate_header : Params → ℕ → Hash → ℤ → BlockHeader → Result Hash
  validate_header params expected prev_hash prev_time h = do
    reject_if (not (h.height == expected)) bad_height
    reject_if (not (bytes_eq h.prev_block prev_hash)) prev_mismatch
    reject_if (leb_ℤ h.timestamp prev_time) timestamp_not_after
    let genesis = params.genesis_block
    let first = genesis.header
    reject_if
        (not (
          h.bits
          == calc_asert_next_bits first.bits first.timestamp prev_time (pos h.height) params))
        bad_bits
    check_proof_of_work c.blake256 h params
    or_panic (header_hash c.blake256 h)

  -- The loop of `validateHeaderChain`, with the expected height, the last hash and the last time.
  unfoldable pub validate_headers : Params → ℕ → Hash → ℤ → List BlockHeader → Result (List Hash)
  unfolding validate_header
  validate_headers params expected prev_hash prev_time [] = ok []
  validate_headers params expected prev_hash prev_time (h ∷ hs) = elim (ltb h.height expected) [
    | true ↦ validate_headers params expected prev_hash prev_time hs
    | false ↦ do
      hash ← validate_header params expected prev_hash prev_time h
      hashes ← validate_headers params ((expected + 1) % u32_mod) hash h.timestamp hs
      ok (hash ∷ hashes)
  ]

  -- `cfg.Params` is what `Params()` of the node's chain returns: cmd/pacd/main.go passes it so.
  unfoldable pub validate_header_chain : Chain → List BlockHeader → Time → Result (List Hash)
  unfolding validate_headers
  validate_header_chain ch headers now = do
    reject_if (if length headers == 0 then false else not (mining_open ch.params now)) mining_closed
    prev_hash ← must_block_hash c (tip ch)
    let last = tip ch
    let last_header = last.header
    validate_headers ch.params ((chain_height ch + 1) % u32_mod) prev_hash last_header.timestamp
        headers
