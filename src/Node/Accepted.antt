-- ===== src/Node/Accepted.antt =====
-- What `connectBlock` of internal/p2p/node.go keeps, on all its paths.
use pacd.Base.{
  ℕ, ◌+◌, ◌%◌, ◌<◌, ◌≡◌, refl, ap, ◌∙◌, arith, Bool, not, ◌&&◌, ◌||◌, Option, none, some, List, [],
  ◌∷◌, map, length, leb, ◌==◌, inl, inr, Bool-cases, Option-cases, bytes_eq, All,
}
use pacd.Base.Words.{u32_mod}
use pacd.Base.Result.{Result, ok, err, panic, >>=-eq-ok, outcome, is_ok, is_err, is_panic}
use pacd.Crypto.{Crypto}
use pacd.Wire.Tx.{Hash}
use pacd.Wire.Block.{MsgBlock}
use pacd.Chain.State.{Instants, tip, chain_height, block_by_height, must_block_hash}
use pacd.Chain.State.Invariant.{HasOutputs}
use pacd.Chain.Reorg.{reorganize, reorganize_candidate}
use pacd.Chain.Reorg.Adopted.{present, reorganize-IsAdopted}
use pacd.Node.HashMap.{find, remove, put, Values-remove, Values-put}
use pacd.Node.State.{
  NodeState, attach, detach, add_orphan, add_side_block, append_block, connect_orphans,
}
use pacd.Node.Orphans.{IsSound, add_orphan-IsSound, append_block-IsSound, with_stored}
use pacd.Node.Orphans.Joined.{connect_orphans-Ends, ended, panicked}
use pacd.Server.{stored_blocks}
use pacd.Node.Side.{
  Answer, attempt_at, side_or_main_block, validate_side_candidate, side_branch, prune_side_branch,
  disconnected_blocks_for_branch, reorganize_branch, replace_branch, try_reorganize, last_height,
}
use pacd.Node.Branch.{side_branch-Walk, Leads-outputs, no_branch, branch}
use pacd.Node.Branch as Branch
use pacd.Node.Connect.{
  Oracle, validate_orphan_candidate, connect_side_block, is_historical_sync_block,
  connect_main_block, connect_other_block, connect_low_block, connect_block_from,
}

-- The candidate that a branch makes has no nil pointers.
present-map : (bs : List MsgBlock) → present (map some bs) ≡ bs
present-map [] = refl
present-map (b ∷ bs) = ap (λ xs. b ∷ xs) (present-map bs)

module _ (c : Crypto) where
  abbrev Sound : NodeState × Result Answer → Type 0
  Sound r = IsSound c (r.0)

  attempt_at-Sound :
      {X : Type 0} (s : NodeState) (r : Result X) (next : X → NodeState × Result Answer)
      → IsSound c s
      → ((x : X) → r ≡ ok x → Sound (next x))
      → Sound (attempt_at s r next)
  unfolding attempt_at
  attempt_at-Sound s (ok x) next i k = k x refl
  attempt_at-Sound s (err e) next i k = i
  attempt_at-Sound s panic next i k = i

  option-Sound :
      {X : Type 0} (o : Option X) (n : NodeState × Result Answer)
      (k : X → NodeState × Result Answer)
      → Sound n
      → ((x : X) → o ≡ some x → Sound (k x))
      → Sound (elim o [ none ↦ n | some x ↦ k x ])
  option-Sound none n k i f = i
  option-Sound (some x) n k i f = f x refl

  prune_side_branch-IsSound :
      (s : NodeState) (bs : List MsgBlock) (s' : NodeState)
      → IsSound c s
      → prune_side_branch c s bs ≡ ok s'
      → IsSound c s'
  unfolding prune_side_branch
  prune_side_branch-IsSound s [] s' i e = let same : s ≡ s' = cc in rw (← same) i
  prune_side_branch-IsSound s (b ∷ bs) s' i e =
      let (hash, _, e₁) = >>=-eq-ok (must_block_hash c b) _ e in
      prune_side_branch-IsSound
        (record s {
          side_blocks = remove hash s.side_blocks;
          side_by_prev = detach b.header.prev_block hash s.side_by_prev;
        })
        bs s'
        (record {
          schedule = i.schedule;
          valid = i.valid;
          orphan_outputs = i.orphan_outputs;
          side_outputs = Values-remove HasOutputs hash s.side_blocks i.side_outputs;
          bounded = i.bounded;
        })
        e₁

  reorganize_branch-Sound :
      (s : NodeState) (bs left : List MsgBlock) (clock : ℕ → Instants)
      → All HasOutputs bs
      → IsSound c s
      → Sound (reorganize_branch c s bs left clock)
  unfolding reorganize_branch
  reorganize_branch-Sound s bs left clock ho i =
      attempt_at-Sound s (reorganize c clock s.chain (map some bs)) _ i (λ (replaced, ch) e.
        let outputs : All HasOutputs (present (map some bs)) = rw (present-map bs) ho in
        elim (reorganize-IsAdopted c clock s.chain (map some bs) replaced ch i.schedule i.valid
          outputs e) [
            | inl (off, _) ↦ rw off i
            | inr (on, a) ↦ rw on (
                let t : NodeState = record s { chain = ch } in
                let i' : IsSound c t =
                  with_stored c s ch s.stored (rw a.params i.schedule) a.valid i in
                attempt_at-Sound t (prune_side_branch c t bs) _ i'
                  (λ u e'. prune_side_branch-IsSound t bs u i' e'))
          ])

  replace_branch-Sound :
      (s : NodeState) (bs left : List MsgBlock) (checked_at done_at : ℕ → Instants) (written : Bool)
      → All HasOutputs bs
      → IsSound c s
      → Sound (replace_branch c s bs left checked_at done_at written)
  unfolding replace_branch
  replace_branch-Sound s bs left checked_at done_at written ho i =
      attempt_at-Sound s (reorganize_candidate c checked_at s.chain (map some bs)) _ i (λ r e.
        option-Sound r _ _ i (λ new e₁. elim (Bool-cases written) [
          | inl w ↦ rw w (
              let t : NodeState = record s { stored = stored_blocks new.blocks } in
              reorganize_branch-Sound t bs left done_at ho
                (with_stored c s s.chain (stored_blocks new.blocks) i.schedule i.valid i))
          | inr w ↦ rw w i
        ]))

  branch-outputs :
      (s : NodeState) (hash : Hash) (bs : List MsgBlock)
      → IsSound c s
      → side_branch c s hash ≡ ok (some bs)
      → All HasOutputs bs
  branch-outputs s hash bs i e = elim (side_branch-Walk c s hash) [
    | no_branch e₁ ↦ absurd (ground arith)
    | branch b rest fork e₁ _ l ↦
        let same : bs ≡ b ∷ rest = ground arith in
        rw same (Leads-outputs c s b.header.prev_block hash (b ∷ rest) i.side_outputs l)
    | Branch.panicked e₁ ↦ absurd (ground arith)
  ]

  try_reorganize-Sound :
      (s : NodeState) (hash : Hash) (checked_at done_at : ℕ → Instants) (written : Bool)
      → IsSound c s
      → Sound (try_reorganize c s hash checked_at done_at written)
  unfolding try_reorganize
  try_reorganize-Sound s hash checked_at done_at written i =
      attempt_at-Sound s (side_branch c s hash) _ i (λ found e. option-Sound found _ _ i (λ bs e₁.
        elim (Bool-cases ((length bs == 0) || leb (last_height bs 0) (chain_height s.chain))) [
          | inl low ↦ rw low i
          | inr high ↦ rw high (
              attempt_at-Sound s (disconnected_blocks_for_branch c s.chain bs) _ i (λ left e₂.
                replace_branch-Sound s bs left checked_at done_at written
                  (branch-outputs s hash bs i (e ∙ ap ok e₁)) i))
        ]))

  add_side_block-IsSound :
      (s : NodeState) (b : MsgBlock) (s' : NodeState)
      → HasOutputs b
      → IsSound c s
      → add_side_block c s b ≡ ok s'
      → IsSound c s'
  unfolding add_side_block
  add_side_block-IsSound s b s' ho i e =
      let (hash, _, e₁) = >>=-eq-ok (must_block_hash c b) _ e in
      elim (Option-cases (find hash s.side_blocks)) [
        | inr (v, found) ↦ let same : s' ≡ s = ground arith in rw same i
        | inl new ↦
            let t : NodeState = record s {
              side_blocks = put hash b s.side_blocks;
              side_by_prev = attach b.header.prev_block hash s.side_by_prev;
            } in
            let made : s' ≡ t = ground arith in
            let next : IsSound c t = record {
              schedule = i.schedule;
              valid = i.valid;
              orphan_outputs = i.orphan_outputs;
              side_outputs = Values-put HasOutputs hash b s.side_blocks ho i.side_outputs;
              bounded = i.bounded;
            } in
            rw made next
      ]

  connect_side_block-Sound :
      (s : NodeState) (b : MsgBlock) (o : Oracle)
      → HasOutputs b
      → IsSound c s
      → Sound (connect_side_block c s b o)
  unfolding connect_side_block
  connect_side_block-Sound s b o ho i =
      elim (outcome (validate_side_candidate c s b o.candidate_at)) [
        | is_err x e ↦ rw (connect_side_block, e) i
        | is_panic e ↦ rw (connect_side_block, e) i
        | is_ok u e ↦
            rw (connect_side_block, e)
              (attempt_at-Sound s (add_side_block c s b) _ i (λ t e₁.
                let i₁ = add_side_block-IsSound s b t ho i e₁ in
                attempt_at-Sound t (must_block_hash c b) _ i₁
                  (λ hash e₂. try_reorganize-Sound t hash o.checked_at o.done_at o.replaced i₁)))
      ]

  joined-Sound :
      (s : NodeState) (fuel : ℕ) (hash : Hash) (o : Oracle) (r : NodeState × List MsgBlock)
      → length s.orphans < fuel
      → IsSound c s
      → connect_orphans c o.orphan_attempt fuel hash s ≡ ok r
      → IsSound c (r.0)
  joined-Sound s fuel hash o r few i e =
      elim (connect_orphans-Ends c o.orphan_attempt fuel hash s few i) [
        | ended s' bs e₁ _ _ i' ↦ let same : r.0 ≡ s' = ground arith in rw same i'
        | panicked e₁ ↦ absurd (ground arith)
      ]

  connect_main_block-Sound :
      (s : NodeState) (b : MsgBlock) (o : Oracle)
      → HasOutputs b
      → IsSound c s
      → Sound (connect_main_block c s b o)
  unfolding connect_main_block
  connect_main_block-Sound s b o ho i =
      let enforce = not (is_historical_sync_block c s b o.peer_height) in
      let done = append_block c s b enforce o.attempt in
      let t = done.0 in
      let i₁ = append_block-IsSound c s b enforce o.attempt ho i in
      attempt_at-Sound t (done.1) _ i₁ (λ u e₁.
        attempt_at-Sound t (must_block_hash c b) _ i₁ (λ hash e₂.
          attempt_at-Sound t (connect_orphans c o.orphan_attempt (length t.orphans + 1) hash t) _ i₁
            (λ r e₃. joined-Sound t (length t.orphans + 1) hash o r (omega arith) i₁ e₃)))

  connect_other_block-Sound :
      (s : NodeState) (b : MsgBlock) (o : Oracle)
      → HasOutputs b
      → IsSound c s
      → Sound (connect_other_block c s b o)
  unfolding connect_other_block
  connect_other_block-Sound s b o ho i =
      attempt_at-Sound s (side_or_main_block c s b.header.prev_block) _ i (λ known e.
        option-Sound known _ _
          (attempt_at-Sound s (validate_orphan_candidate c s b o.candidate_at.at_timestamp) _ i
            (λ u e₁.
              attempt_at-Sound s (add_orphan c o.evicted s b) _ i
                (λ t e₂. add_orphan-IsSound c o.evicted s t b ho i e₂)))
          (λ x e₁. connect_side_block-Sound s b o ho i))

  connect_low_block-Sound :
      (s : NodeState) (b : MsgBlock) (o : Oracle)
      → HasOutputs b
      → IsSound c s
      → Sound (connect_low_block c s b o)
  unfolding connect_low_block
  connect_low_block-Sound s b o ho i =
      elim (Option-cases (block_by_height s.chain b.header.height)) [
        | inl missing ↦ rw (connect_low_block, missing) (connect_side_block-Sound s b o ho i)
        | inr (existing, found) ↦
            rw (connect_low_block, found)
              (attempt_at-Sound s (must_block_hash c existing) _ i (λ old e.
                attempt_at-Sound s (must_block_hash c b) _ i (λ new e₁.
                  elim (Bool-cases (bytes_eq old new)) [
                    | inl same ↦ rw same i
                    | inr other ↦ rw other (connect_side_block-Sound s b o ho i)
                  ])))
      ]

  -- Whatever `connectBlock` is given and whatever it answers, on its way to the main chain, to a
  -- side branch, to a reorganization or to the orphans: the chain stays valid, the parameters stay
  -- a schedule, the orphans stay within their limit, and all blocks that are kept have int64
  -- values. The block has int64 values.
  pub connect_block_from-IsSound :
      (s : NodeState) (b : MsgBlock) (o : Oracle)
      → HasOutputs b
      → IsSound c s
      → IsSound c (connect_block_from c s b o).0
  unfolding connect_block_from
  connect_block_from-IsSound s b o ho i =
      elim (Bool-cases (leb b.header.height (chain_height s.chain))) [
        | inl low ↦ rw low (connect_low_block-Sound s b o ho i)
        | inr high ↦ rw high (
            attempt_at-Sound s (must_block_hash c (tip s.chain)) _ i (λ tip_hash e.
              elim (Bool-cases (
                bytes_eq b.header.prev_block tip_hash
                && (b.header.height == (chain_height s.chain + 1) % u32_mod))) [
                  | inl extends ↦ rw extends (connect_main_block-Sound s b o ho i)
                  | inr other ↦ rw other (connect_other_block-Sound s b o ho i)
                ]))
      ]
