-- ===== src/Chain/Reorg/Adopted.antt =====
-- What `Reorganize` leaves: the old chain, or a valid higher one that ends with the candidate.
use pacd.Base.{
  ℕ, zero, suc, ◌+◌, ◌<◌, ◌≡◌, refl, sym, ap, ◌∙◌, arith, Bool, true, false, Option, none, some,
  List, [], ◌∷◌, ◌++◌, append_assoc, append-nil, All, All-get_elem?, take, take-suc, leb,
  last_or-append, Option-cases, ◌⊎◌, inl, inr,
}
use pacd.Base.Result.{ok, >>=-eq-ok, outcome, is_ok, is_err, is_panic, ok-injective}
use pacd.Crypto.{Crypto}
use pacd.Chaincfg.{Params}
use pacd.Wire.Block.{MsgBlock}
use pacd.Consensus.Subsidy.Schedule.{IsSchedule}
use pacd.Chain.State.{
  Chain, Instants, new_chain, tip, chain_height, block_by_height, block_by_hash, add_block,
}
use pacd.Chain.State.Invariant.{HasOutputs, IsValid, new_chain-IsValid, connect_block-IsValid}
use pacd.Chain.Reorg.{
  candidate_tip_height, replay, adopt, rebuild, reorganize_candidate, reorganize,
}

-- The blocks of a candidate, nil pointers left out.
abbrev pub present : List (Option MsgBlock) → List MsgBlock
present [] = []
present (none ∷ bs) = present bs
present (some b ∷ bs) = b ∷ present bs

height-append :
    (ch : Chain) (bs : List MsgBlock) (b : MsgBlock)
    → ch.blocks ≡ bs ++ (b ∷ [])
    → chain_height ch ≡ b.header.height
unfolding chain_height tip
height-append ch bs b h =
    let same = last_or-append ch.params.genesis_block bs b in simp (chain_height, tip, h, same)

-- `c.blocks` and `c.utxos` are replaced, and the rest is equal.
with_state :
    (ch new : Chain)
    → new.params ≡ ch.params
    → record ch { blocks = new.blocks; utxos = new.utxos } ≡ new
with_state ch new h = rw⁻¹ h refl

module _ (c : Crypto) (clock : ℕ → Instants) where
  genesis-HasOutputs : (ch : Chain) → IsValid c ch → HasOutputs ch.params.genesis_block
  genesis-HasOutputs ch v =
      let all : All HasOutputs (ch.params.genesis_block ∷ v.rest) = rw v.starts at v.outputs in
      all.0

  -- A valid chain with the old chain's parameters.
  abbrev Keeps : Params → Chain → Type 0
  Keeps params ch = IsValid c ch × (ch.params ≡ params)

  add-Keeps :
      (params : Params) (ch : Chain) (b : MsgBlock) (now : Instants) (ch' : Chain)
      → IsSchedule params
      → Keeps params ch
      → HasOutputs b
      → add_block c ch b now ≡ ok ch'
      → Keeps params ch' × (ch'.blocks ≡ ch.blocks ++ (b ∷ []))
  unfolding add_block
  add-Keeps params ch b now ch' s (v, same) ho h =
      let (v', blocks, same') = connect_block-IsValid c ch b true now ch' (rw same s) v ho h in
      ((v', same' ∙ same), blocks)

  replay_step :
      (old : Chain) (n height : ℕ) (fresh fresh' : Chain)
      → replay c clock old (suc n) height fresh ≡ ok fresh'
      → (b : MsgBlock) × (next : Chain) × (block_by_height old height ≡ some b)
        × (add_block c fresh b (clock height) ≡ ok next)
        × (replay c clock old n (suc height) next ≡ ok fresh')
  unfolding replay
  replay_step old n height fresh fresh' h = elim (Option-cases (block_by_height old height)) [
    | inl e ↦ absurd (ground arith)
    | inr (b, e) ↦ elim (outcome (add_block c fresh b (clock height))) [
      | is_ok next e₁ ↦ (b, next, e, e₁, ground arith)
      | is_err x e₁ ↦ absurd (ground arith)
      | is_panic e₁ ↦ absurd (ground arith)
    ]
  ]

  -- The replay rebuilds the old chain's blocks up to the height that it reaches.
  replay-Keeps :
      (old : Chain) (n height : ℕ) (fresh fresh' : Chain)
      → IsSchedule old.params
      → All HasOutputs old.blocks
      → Keeps old.params fresh
      → fresh.blocks ≡ take height old.blocks
      → replay c clock old n height fresh ≡ ok fresh'
      → Keeps old.params fresh' × (fresh'.blocks ≡ take (height + n) old.blocks)
  unfolding replay block_by_height
  replay-Keeps old zero height fresh fresh' s ho k p h =
      let same : fresh' ≡ fresh = ok-injective h in
      rw same (k, p ∙ ap (λ i. take i old.blocks) (omega arith))
  replay-Keeps old (suc n) height fresh fresh' s ho k p h =
      let (b, next, found, added, rest) = replay_step old n height fresh fresh' h in
      let ob = All-get_elem? HasOutputs old.blocks height b ho found in
      let (k', blocks) = add-Keeps old.params fresh b (clock height) next s k ob added in
      let here : next.blocks ≡ take (suc height) old.blocks =
        rw blocks (rw p (sym (take-suc old.blocks height b found))) in
      let (k'', blocks') = replay-Keeps old n (suc height) next fresh' s ho k' here rest in
      (k'', blocks' ∙ ap (λ i. take i old.blocks) (omega arith))

  adopt-Keeps :
      (params : Params) (k : ℕ) (bs : List (Option MsgBlock)) (fresh fresh' : Chain)
      → IsSchedule params
      → All HasOutputs (present bs)
      → Keeps params fresh
      → adopt c clock k bs fresh ≡ ok fresh'
      → Keeps params fresh' × (fresh'.blocks ≡ fresh.blocks ++ present bs)
  unfolding adopt
  adopt-Keeps params k [] fresh fresh' s ho kp h =
      let same : fresh' ≡ fresh = ok-injective h in rw same (kp, sym (append-nil fresh.blocks))
  adopt-Keeps params k (none ∷ bs) fresh fresh' s ho kp h = absurd (cc)
  adopt-Keeps params k (some b ∷ bs) fresh fresh' s ho kp h =
      let (next, added, rest) = >>=-eq-ok (add_block c fresh b (clock k)) _ h in
      let (kp', blocks) = add-Keeps params fresh b (clock k) next s kp ho.0 added in
      let (kp'', blocks') = adopt-Keeps params (suc k) bs next fresh' s ho.1 kp' rest in
      (kp'', rw blocks' (rw blocks (append_assoc fresh.blocks (b ∷ []) (present bs))))

  start-Keeps : (ch : Chain) → IsValid c ch → Keeps ch.params (new_chain ch.params)
  unfolding new_chain
  start-Keeps ch v = (new_chain-IsValid c ch.params (genesis-HasOutputs ch v), refl)

  start_prefix : (ch : Chain) → IsValid c ch → (new_chain ch.params).blocks ≡ take 1 ch.blocks
  unfolding new_chain
  start_prefix ch v = rw v.starts refl

  -- What a successful reorganization of `ch` to the candidate leaves.
  pub record IsAdopted (ch : Chain) (candidate : List (Option MsgBlock)) (new : Chain)
      : Type 0 where
    pub fork : ℕ
    pub valid : IsValid c new
    pub params : new.params ≡ ch.params
    pub blocks : new.blocks ≡ take (suc fork) ch.blocks ++ present candidate
    pub higher : chain_height ch < chain_height new

  candidate-last :
      (bs : List (Option MsgBlock)) (h : ℕ) (front : List MsgBlock) (ch : Chain)
      → candidate_tip_height bs ≡ ok h
      → ch.blocks ≡ front ++ present bs
      → chain_height ch ≡ h
  unfolding candidate_tip_height
  candidate-last [] h front ch e p = absurd (cc)
  candidate-last (none ∷ []) h front ch e p = absurd (cc)
  candidate-last (some b ∷ []) h front ch e p = height-append ch front b p ∙ ok-injective (sym e)
  candidate-last (none ∷ y ∷ ys) h front ch e p = candidate-last (y ∷ ys) h front ch e p
  candidate-last (some b ∷ y ∷ ys) h front ch e p =
      candidate-last (y ∷ ys) h (front ++ (b ∷ [])) ch e
        (p ∙ sym (append_assoc front (b ∷ []) (present (y ∷ ys))))

  rebuild_step :
      (ch : Chain) (first : MsgBlock) (candidate : List (Option MsgBlock)) (fork : MsgBlock)
      (new : Chain)
      → rebuild c clock ch first candidate fork ≡ ok (some new)
      → (h : ℕ) × (replayed : Chain) × (candidate_tip_height candidate ≡ ok h)
        × (leb h (chain_height ch) ≡ false)
        × (replay c clock ch fork.header.height 1 (new_chain ch.params) ≡ ok replayed)
        × (adopt c clock (suc fork.header.height) candidate replayed ≡ ok new)
  unfolding rebuild
  rebuild_step ch first candidate fork new e = elim (outcome (candidate_tip_height candidate)) [
    | is_ok h e₁ ↦ elim (outcome (replay c clock ch fork.header.height 1 (new_chain ch.params))) [
      | is_ok r e₂ ↦ elim (outcome (adopt c clock (suc fork.header.height) candidate r)) [
        | is_ok n e₃ ↦ (h, r, e₁, ground arith, e₂, ground arith)
        | is_err x e₃ ↦ absurd (ground arith)
        | is_panic e₃ ↦ absurd (ground arith)
      ]
      | is_err x e₂ ↦ absurd (ground arith)
      | is_panic e₂ ↦ absurd (ground arith)
    ]
    | is_err x e₁ ↦ absurd (ground arith)
    | is_panic e₁ ↦ absurd (ground arith)
  ]

  rebuild-IsAdopted :
      (ch : Chain) (first : MsgBlock) (candidate : List (Option MsgBlock)) (fork : MsgBlock)
      (new : Chain)
      → IsSchedule ch.params
      → IsValid c ch
      → All HasOutputs (present candidate)
      → rebuild c clock ch first candidate fork ≡ ok (some new)
      → IsAdopted ch candidate new
  rebuild-IsAdopted ch first candidate fork new s v ho e =
      let (h, replayed, tip_eq, low, old_part, new_part) =
        rebuild_step ch first candidate fork new e in
      let (k, prefix) =
        replay-Keeps ch fork.header.height 1 (new_chain ch.params) replayed s v.outputs
          (start-Keeps ch v) (start_prefix ch v) old_part in
      let ((valid, same), added) =
        adopt-Keeps ch.params (suc fork.header.height) candidate replayed new s ho k new_part in
      let height = candidate-last candidate h replayed.blocks new tip_eq added in
      let one_more : 1 + fork.header.height ≡ suc fork.header.height = omega arith in
      record {
        fork = fork.header.height;
        valid = valid;
        params = same;
        blocks =
            added
            ∙ ap (λ xs. xs ++ present candidate) (prefix ∙ ap (λ i. take i ch.blocks) one_more);
        higher = ground (arith, height);
      }

  reorganize_candidate-IsAdopted :
      (ch : Chain) (candidate : List (Option MsgBlock)) (new : Chain)
      → IsSchedule ch.params
      → IsValid c ch
      → All HasOutputs (present candidate)
      → reorganize_candidate c clock ch candidate ≡ ok (some new)
      → IsAdopted ch candidate new
  unfolding reorganize_candidate
  reorganize_candidate-IsAdopted ch [] new s v ho e = absurd (cc)
  reorganize_candidate-IsAdopted ch (none ∷ bs) new s v ho e = absurd (cc)
  reorganize_candidate-IsAdopted ch (some first ∷ bs) new s v ho e =
      elim (outcome (block_by_hash c ch first.header.prev_block)) [
        | is_ok none e₁ ↦ absurd (ground arith)
        | is_ok (some fork) e₁ ↦
            rebuild-IsAdopted ch first (some first ∷ bs) fork new s v ho (ground arith)
        | is_err x e₁ ↦ absurd (ground arith)
        | is_panic e₁ ↦ absurd (ground arith)
      ]

  -- `Reorganize` of a valid chain that returns without an error either reports false and leaves the
  -- chain as it was, or reports true and leaves a valid chain with the same parameters, that is
  -- higher than the old one and consists of the old chain's blocks up to some height, then the
  -- candidate's. The parameters are a schedule of subsidies that does not leave int64, and the
  -- candidate's outputs have int64 values.
  pub reorganize-IsAdopted :
      (ch : Chain) (candidate : List (Option MsgBlock)) (replaced : Bool) (ch' : Chain)
      → IsSchedule ch.params
      → IsValid c ch
      → All HasOutputs (present candidate)
      → reorganize c clock ch candidate ≡ ok (replaced, ch')
      → ((replaced ≡ false) × (ch' ≡ ch)) ⊎ ((replaced ≡ true) × IsAdopted ch candidate ch')
  unfolding reorganize
  reorganize-IsAdopted ch candidate replaced ch' s v ho e =
      elim (outcome (reorganize_candidate c clock ch candidate)) [
        | is_ok none e₁ ↦ inl (ground arith, ground arith)
        | is_ok (some new) e₁ ↦
            let adopted = reorganize_candidate-IsAdopted ch candidate new s v ho e₁ in
            let kept : ch' ≡ record ch { blocks = new.blocks; utxos = new.utxos } = ground arith in
            let same : ch' ≡ new = kept ∙ with_state ch new adopted.params in
            inr (ground arith, rw same adopted)
        | is_err x e₁ ↦ absurd (ground arith)
        | is_panic e₁ ↦ absurd (ground arith)
      ]
