-- ===== src/Node/Headers/Honest.antt =====
-- The headers that an honest peer sends are accepted.
use pacd.Base.{
  ℕ, zero, suc, ◌+◌, ◌-◌, ◌%◌, ◌<◌, ◌≤◌, ◌≡◌, refl, sym, ap, ◌∙◌, arith, Bool, true, false, not,
  List, [], ◌∷◌, ◌++◌, map, take, drop, length, last_or, length-append, drop-length-append, ltb,
  leb, ◌==◌, if◌then◌else◌, bytes_eq, bytes_eq_refl, Bool-cases, inl, inr,
}
use pacd.Base.Int.{ℤ, pos, leb_ℤ, ltb_ℤ}
use pacd.Base.Words.{u32_mod}
use pacd.Base.Result.{ok, >>=-eq-ok, guard-eq-ok}
use pacd.Crypto.{Crypto}
use pacd.Wire.Tx.{Hash}
use pacd.Wire.Header.{BlockHeader, header_hash}
use pacd.Wire.Block.{MsgBlock, block_hash}
use pacd.Chaincfg.{Params, Time, mining_open}
use pacd.Consensus.Asert.{calc_asert_next_bits}
use pacd.Consensus.Pow.{check_proof_of_work, compact_to_big}
use pacd.Chain.State.{Chain, tip, chain_height, must_block_hash, or_panic}
use pacd.Chain.State.Invariant.{Follows, Linked, IsValid, tip_lem}
use pacd.P2p.Sync.{max_headers_per_message}
use pacd.Node.Headers.{
  header_of, headers_after, validate_header, validate_headers, validate_header_chain,
}

module _ (c : Crypto) where
  -- A block whose proof of work was checked has a hash.
  worked-hash :
      (params : Params) (b : MsgBlock)
      → check_proof_of_work c.blake256 b.header params ≡ ok tt
      → (hash : Hash) × (must_block_hash c b ≡ ok hash)
  unfolding check_proof_of_work must_block_hash block_hash
  worked-hash params b e =
      let (_, e₁) = guard-eq-ok (leb_ℤ (compact_to_big b.header.bits) (pos 0)) _ _ e in
      let (_, e₂) = guard-eq-ok (ltb_ℤ params.pow_limit (compact_to_big b.header.bits)) _ _ e₁ in
      let (hash, e₃, _) = >>=-eq-ok (header_hash c.blake256 b.header) _ e₂ in (hash, rw e₃ refl)

  -- One hash for each block.
  abbrev pub AreHashes : List MsgBlock → List Hash → Type 0
  AreHashes [] [] = Unit {0}
  AreHashes [] (h ∷ hs) = ⊥
  AreHashes (b ∷ bs) [] = ⊥
  AreHashes (b ∷ bs) (h ∷ hs) = (must_block_hash c b ≡ ok h) × AreHashes bs hs

  header_hash-block :
      (b : MsgBlock) (hash : Hash)
      → must_block_hash c b ≡ ok hash
      → or_panic (header_hash c.blake256 b.header) ≡ ok hash
  unfolding must_block_hash block_hash
  header_hash-block b hash e = e

  -- A block behind the block before it passes the tests on its header.
  validate_header-Follows :
      (params : Params) (prev b : MsgBlock) (prev_hash hash : Hash)
      → Follows c params prev b
      → must_block_hash c prev ≡ ok prev_hash
      → must_block_hash c b ≡ ok hash
      → validate_header c params
          ((prev.header.height + 1) % u32_mod)
          prev_hash
          prev.header.timestamp
          b.header
        ≡ ok hash
  unfolding validate_header
  validate_header-Follows params prev b prev_hash hash f e hashed =
      let same_hash : b.header.prev_block ≡ prev_hash = ground (arith, f.prev_block) in
      let same_height : (b.header.height == (prev.header.height + 1) % u32_mod) ≡ true =
        ground (arith, f.height) in
      let same_prev : bytes_eq b.header.prev_block prev_hash ≡ true =
        rw same_hash (bytes_eq_refl prev_hash) in
      let later : leb_ℤ b.header.timestamp prev.header.timestamp ≡ false =
        ground (arith, f.timestamp) in
      let same_bits : (b.header.bits
            == calc_asert_next_bits params.genesis_block.header.bits
                params.genesis_block.header.timestamp prev.header.timestamp (pos b.header.height)
                params)
          ≡ true =
        ground (arith, f.bits) in
      simp (same_height, same_prev, later, same_bits, f.work, header_hash-block b hash hashed)

  validate_headers-cons :
      (params : Params) (expected : ℕ) (prev_hash hash : Hash) (prev_time : ℤ) (h : BlockHeader)
      (hs : List BlockHeader) (hashes : List Hash)
      → h.height ≡ expected
      → validate_header c params expected prev_hash prev_time h ≡ ok hash
      → validate_headers c params ((h.height + 1) % u32_mod) hash h.timestamp hs ≡ ok hashes
      → validate_headers c params expected prev_hash prev_time (h ∷ hs) ≡ ok (hash ∷ hashes)
  unfolding validate_headers
  validate_headers-cons params expected prev_hash hash prev_time h hs hashes same e rest =
      let not_low : ltb h.height expected ≡ false = ground arith in
      let rest' : validate_headers c params ((expected + 1) % u32_mod) hash h.timestamp hs
          ≡ ok hashes =
        rw (← same) rest in
      rw (validate_headers, not_low) (simp (e, rest'))

  -- The headers of any number of linked blocks.
  validate_headers-Linked :
      (params : Params) (n : ℕ) (prev : MsgBlock) (prev_hash : Hash) (xs : List MsgBlock)
      → Linked c params prev xs
      → must_block_hash c prev ≡ ok prev_hash
      → (hashes : List Hash) × AreHashes (take n xs) hashes
        × (validate_headers c params
              ((prev.header.height + 1) % u32_mod)
              prev_hash
              prev.header.timestamp
              (map header_of (take n xs))
            ≡ ok hashes)
  unfolding header_of validate_headers
  validate_headers-Linked params zero prev prev_hash xs l e = ([], tt, refl)
  validate_headers-Linked params (suc n) prev prev_hash [] l e = ([], tt, refl)
  validate_headers-Linked params (suc n) prev prev_hash (x ∷ xs) (f, l) e =
      let (hash, hashed) = worked-hash params x f.work in
      let (hashes, are, rest) = validate_headers-Linked params n x hash xs l hashed in
      (
        hash ∷ hashes,
        (hashed, are),
        validate_headers-cons params ((prev.header.height + 1) % u32_mod) prev_hash hash
            prev.header.timestamp x.header (map header_of (take n xs)) hashes f.height
            (validate_header-Follows params prev x prev_hash hash f e hashed) rest,
      )

  last-height :
      (params : Params) (prev : MsgBlock) (xs : List MsgBlock)
      → Linked c params prev xs
      → prev.header.height + length xs < u32_mod
      → (last_or prev xs).header.height ≡ prev.header.height + length xs
  last-height params prev [] l n = omega arith
  last-height params prev (x ∷ xs) (f, l) n =
      let next : x.header.height ≡ prev.header.height + 1 = omega (arith, f.height) in
      omega (arith, last-height params x xs l (omega (arith, next)), next)

  Linked-behind :
      (params : Params) (prev : MsgBlock) (xs ys : List MsgBlock)
      → Linked c params prev (xs ++ ys)
      → Linked c params (last_or prev xs) ys
  Linked-behind params prev [] ys l = l
  Linked-behind params prev (x ∷ xs) ys (f, l) = Linked-behind params x xs ys l

  -- A valid chain whose heights do not wrap around is one longer than its height.
  pub chain_height_lem :
      (ch : Chain)
      → IsValid c ch
      → ch.params.genesis_block.header.height ≡ 0
      → length ch.blocks < u32_mod
      → chain_height ch + 1 ≡ length ch.blocks
  unfolding chain_height
  chain_height_lem ch v g n =
      let genesis = ch.params.genesis_block in
      let few : suc (length v.rest) < u32_mod = rw v.starts at n in
      let top : (tip ch).header.height ≡ genesis.header.height + length v.rest =
        ap (λ b. b.header.height) (tip_lem c ch v)
        ∙ last-height ch.params genesis v.rest v.linked (omega (arith, few, g)) in
      let long : length ch.blocks ≡ suc (length v.rest) = rw v.starts refl in
      omega (arith, top, long, g)

  take-long {ℓ} : {A : Type ℓ} (n : ℕ) (xs : List A) → length xs ≤ n → take n xs ≡ xs
  take-long zero [] h = refl
  take-long zero (x ∷ xs) h = absurd (omega arith)
  take-long (suc n) [] h = refl
  take-long (suc n) (x ∷ xs) h = ap (λ ys. x ∷ ys) (take-long n xs (omega (arith, h)))

  page :
      (len first : ℕ) (ys : List MsgBlock)
      → len ≡ first + length ys
      → (if leb len first
          then []
          else map header_of (
              take
                ((if ltb (first + max_headers_per_message) len
                    then first + max_headers_per_message
                    else len)
                  - first)
                ys))
        ≡ map header_of (take max_headers_per_message ys)
  page len first [] e = let all : leb len first ≡ true = ground arith in rw all refl
  page len first (y ∷ ys) e =
      let some_left : leb len first ≡ false = ground arith in
      elim (Bool-cases (ltb (first + max_headers_per_message) len)) [
        | inl full ↦
            let same : (first + max_headers_per_message) - first ≡ max_headers_per_message =
              omega arith in
            rw (some_left, full) (ap (λ k. map header_of (take k (y ∷ ys))) same)
        | inr rest ↦
            let few : length (y ∷ ys) ≤ max_headers_per_message = ground arith in
            let same : len - first ≡ length (y ∷ ys) = omega (arith, e) in
            rw (some_left, rest)
              (ap (λ k. map header_of (take k (y ∷ ys))) same
                ∙ ap (map header_of) (
                    take-long (length (y ∷ ys)) (y ∷ ys) (omega arith)
                    ∙ sym (take-long max_headers_per_message (y ∷ ys) few)))
      ]

  headers_after-append :
      (ch : Chain) (xs ys : List MsgBlock) (start_height : ℕ)
      → ch.blocks ≡ xs ++ ys
      → length xs ≡ start_height + 1
      → headers_after ch start_height ≡ map header_of (take max_headers_per_message ys)
  unfolding headers_after
  headers_after-append ch xs ys start_height e n =
      let behind : drop (start_height + 1) ch.blocks ≡ ys =
        rw (← n, e) (drop-length-append xs ys) in
      let long : length ch.blocks ≡ (start_height + 1) + length ys =
        ap length e ∙ length-append xs ys ∙ ap (λ k. k + length ys) n in
      rw behind (page (length ch.blocks) (start_height + 1) ys long)

  not_closed :
      (empty' opened : Bool) → opened ≡ true → (if empty' then false else not opened) ≡ false
  not_closed true opened e = refl
  not_closed false opened e = rw e refl

  validate_header_chain-ok :
      (ch : Chain) (headers : List BlockHeader) (now : Time) (tip_hash : Hash) (hashes : List Hash)
      → mining_open ch.params now ≡ true
      → must_block_hash c (tip ch) ≡ ok tip_hash
      → validate_headers c ch.params
          ((chain_height ch + 1) % u32_mod)
          tip_hash
          (tip ch).header.timestamp
          headers
        ≡ ok hashes
      → validate_header_chain c ch headers now ≡ ok hashes
  unfolding validate_header_chain
  validate_header_chain-ok ch headers now tip_hash hashes opened e valid =
      simp (not_closed (length headers == 0) (mining_open ch.params now) opened, e, valid)

  -- What an honest peer sends, a node accepts: let both chains be valid, with heights that do not
  -- wrap around, and the peer's be the node's with more blocks behind it. Then the headers that the
  -- peer sends for the node's height validate where mining is open and the node's tip can be
  -- hashed, and yield the hashes of the peer's next blocks, up to 2000 of them, in order.
  pub validate_header_chain-headers_after :
      (ch peer : Chain) (more : List MsgBlock) (now : Time) (tip_hash : Hash)
      → IsValid c ch
      → IsValid c peer
      → peer.params ≡ ch.params
      → peer.blocks ≡ ch.blocks ++ more
      → ch.params.genesis_block.header.height ≡ 0
      → length peer.blocks < u32_mod
      → mining_open ch.params now ≡ true
      → must_block_hash c (tip ch) ≡ ok tip_hash
      → (hashes : List Hash) × AreHashes (take max_headers_per_message more) hashes
        × (validate_header_chain c ch (headers_after peer (chain_height ch)) now ≡ ok hashes)
  unfolding chain_height
  validate_header_chain-headers_after ch peer more now tip_hash v p params blocks g n opened e =
      let genesis = ch.params.genesis_block in
      let whole : length peer.blocks ≡ length ch.blocks + length more =
        ap length blocks ∙ length-append ch.blocks more in
      let few : length ch.blocks < u32_mod = omega (arith, whole, n) in
      let sent : headers_after peer (chain_height ch)
          ≡ map header_of (take max_headers_per_message more) =
        headers_after-append peer ch.blocks more (chain_height ch) blocks
          (sym (chain_height_lem ch v g few)) in
      let starts : genesis ∷ p.rest ≡ genesis ∷ (v.rest ++ more) =
        ap (λ q. q.genesis_block ∷ p.rest) (sym params)
        ∙ sym p.starts
        ∙ blocks
        ∙ ap (λ xs. xs ++ more) v.starts in
      let rest : p.rest ≡ v.rest ++ more = cc in
      let linked : Linked c ch.params genesis (v.rest ++ more) = rw (← params, ← rest) p.linked in
      let behind : Linked c ch.params (tip ch) more =
        rw (tip_lem c ch v) (Linked-behind ch.params genesis v.rest more linked) in
      let (hashes, are, valid) =
        validate_headers-Linked ch.params max_headers_per_message (tip ch) tip_hash more behind e in
      (
        hashes,
        are,
        rw sent (
            validate_header_chain-ok ch (map header_of (take max_headers_per_message more)) now
              tip_hash hashes opened e valid),
      )
