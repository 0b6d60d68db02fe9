-- ===== src/Node/Orphans/Joined.antt =====
-- The orphans that `connectOrphansLocked` connects.
use pacd.Base.{
  ℕ, zero, suc, ◌≤◌, ◌<◌, ◌≡◌, refl, sym, ap, ◌∙◌, arith, Bool, true, List, [], ◌∷◌, ◌++◌,
  append-nil, append_assoc, length, inl, inr, Bool-cases, Option-cases,
}
use pacd.Base.Result.{Result, ok, err, panic, ◌>>=◌, outcome, is_ok, is_err, is_panic}
use pacd.Crypto.{Crypto}
use pacd.Wire.Tx.{Hash}
use pacd.Wire.Block.{MsgBlock}
use pacd.Chain.State.{validate_block, connect_block}
use pacd.Chain.State.Invariant.{HasOutputs, connect_block-IsValid}
use pacd.Node.HashMap.{find, remove, length-remove, length-remove-le, Values-remove, Values-find}
use pacd.Node.State.{NodeState, Attempt, append_block, connect_each, connect_orphans, hashes_at}
use pacd.Node.Orphans.{IsSound, append_block-orphans, append_block-IsSound}

module _ (c : Crypto) where
  -- What a block that is appended or refused leaves of the chain.
  data Appended (s : NodeState) (b : MsgBlock) (r : NodeState × Result (Unit {0})) : Type 0 where
    joined : r.1 ≡ ok tt → r.0.chain.blocks ≡ s.chain.blocks ++ (b ∷ []) → Appended s b r
    refused : {e : _} → r.1 ≡ err e → r.0.chain.blocks ≡ s.chain.blocks → Appended s b r
    stopped : r.1 ≡ panic → Appended s b r

  append_block-Appended :
      (s : NodeState) (b : MsgBlock) (enforce : Bool) (a : Attempt)
      → HasOutputs b
      → IsSound c s
      → Appended s b (append_block c s b enforce a)
  unfolding append_block
  append_block-Appended s b enforce a ho i =
      elim (outcome (validate_block c s.chain b enforce a.validated_at)) [
        | is_ok u e ↦ elim (Bool-cases a.written) [
          | inl w ↦ elim (outcome (connect_block c s.chain b enforce a.added_at)) [
            | is_ok ch e₁ ↦
                let (_, blocks, _) =
                  connect_block-IsValid c s.chain b enforce a.added_at ch i.schedule i.valid ho
                    e₁ in
                rw (append_block, e, w, e₁) (joined refl blocks)
            | is_err x e₁ ↦ rw (append_block, e, w, e₁) (refused refl refl)
            | is_panic e₁ ↦ rw (append_block, e, w, e₁) (stopped refl)
          ]
          | inr w ↦ rw (append_block, e, w) (refused refl refl)
        ]
        | is_err x e ↦ rw (append_block, e) (refused refl refl)
        | is_panic e ↦ rw (append_block, e) (stopped refl)
      ]

  -- How connecting orphans ends: with blocks behind the chain, no more orphans than before and a
  -- sound state, or with a panic, but without an error.
  pub data Ends (s : NodeState) (r : Result (NodeState × List MsgBlock)) : Type 0 where
    ended :
        (s' : NodeState) (bs : List MsgBlock)
        → r ≡ ok (s', bs)
        → s'.chain.blocks ≡ s.chain.blocks ++ bs
        → length s'.orphans ≤ length s.orphans
        → IsSound c s'
        → Ends s r
    panicked : r ≡ panic → Ends s r

  without_orphan :
      (s : NodeState) (h : Hash)
      → IsSound c s
      → IsSound c (record s { orphans = remove h s.orphans })
  without_orphan s h i = record {
    schedule = i.schedule;
    valid = i.valid;
    orphan_outputs = Values-remove HasOutputs h s.orphans i.orphan_outputs;
    side_outputs = i.side_outputs;
    bounded = omega (arith, i.bounded, length-remove-le h s.orphans);
  }

  module _ (attempt : Hash → Attempt) where
    -- A later state with the same blocks and no more orphans.
    later :
        (s t : NodeState) (r : Result (NodeState × List MsgBlock))
        → t.chain.blocks ≡ s.chain.blocks
        → length t.orphans ≤ length s.orphans
        → Ends t r
        → Ends s r
    later s t r same few (panicked e) = panicked e
    later s t r same few (ended u bs e blocks fewer i) =
        ended u bs e (blocks ∙ ap (λ xs. xs ++ bs) same) (omega (arith, few, fewer)) i

    -- The answer of the loop from those of the recursive call and of the rest.
    both :
        (s t u : NodeState) (b : MsgBlock) (behind : List MsgBlock)
        (rest : Result (NodeState × List MsgBlock))
        → t.chain.blocks ≡ s.chain.blocks ++ (b ∷ [])
        → u.chain.blocks ≡ t.chain.blocks ++ behind
        → length u.orphans ≤ length s.orphans
        → Ends u rest
        → Ends s (rest >>= λ r. ok (r.0, b ∷ (behind ++ r.1)))
    both s t u b behind rest e₁ e₂ few (panicked e) = panicked (rw e refl)
    both s t u b behind rest e₁ e₂ few (ended v others e blocks fewer i) =
        ended v (b ∷ (behind ++ others)) (rw e refl)
          (blocks
            ∙ ap (λ xs. xs ++ others) (e₂ ∙ ap (λ xs. xs ++ behind) e₁)
            ∙ ap (λ xs. xs ++ others) (append_assoc s.chain.blocks (b ∷ []) behind)
            ∙ append_assoc s.chain.blocks (b ∷ behind) others)
          (omega (arith, few, fewer)) i

    module _ (again : Hash → NodeState → Result (NodeState × List MsgBlock)) (m : ℕ)
        (ends : (h : Hash) (t : NodeState)
          → length t.orphans < m
          → IsSound c t
          → Ends t (again h t)) where
      connect_each-Ends :
          (hs : List Hash) (s : NodeState)
          → length s.orphans ≤ m
          → IsSound c s
          → Ends s (connect_each c attempt again hs s)
      unfolding connect_each
      connect_each-Ends [] s few i =
          ended s [] refl (sym (append-nil s.chain.blocks)) (omega arith) i
      connect_each-Ends (h ∷ hs) s few i = elim (Option-cases (find h s.orphans)) [
        | inl missing ↦ rw (connect_each, missing) (connect_each-Ends hs s few i)
        | inr (b, found) ↦
            let s₀ : NodeState = record s { orphans = remove h s.orphans } in
            let done = append_block c s₀ b true (attempt h) in
            let ho : HasOutputs b = Values-find HasOutputs h s.orphans b i.orphan_outputs found in
            let i₀ = without_orphan s h i in
            let i₁ = append_block-IsSound c s₀ b true (attempt h) ho i₀ in
            let same = append_block-orphans c s₀ b true (attempt h) in
            let fewer : length (done.0).orphans < length s.orphans =
              rw same (length-remove h s.orphans b found) in
            elim (append_block-Appended s₀ b true (attempt h) ho i₀) [
              | stopped e ↦ panicked (rw (connect_each, found, e) refl)
              | refused e blocks ↦
                  later s (done.0) (connect_each c attempt again (h ∷ hs) s) blocks
                    (omega (arith, fewer))
                    (rw (connect_each, found, e)
                      (connect_each-Ends hs (done.0) (omega (arith, fewer, few)) i₁))
              | joined e blocks ↦ elim (ends h (done.0) (omega (arith, fewer, few)) i₁) [
                | panicked e₁ ↦ panicked (rw (connect_each, found, e, e₁) refl)
                | ended u behind e₁ added few₁ i₂ ↦
                    rw (connect_each, found, e, e₁)
                      (both s (done.0) u b behind (connect_each c attempt again hs u) blocks added
                        (omega (arith, fewer, few₁))
                        (connect_each-Ends hs u (omega (arith, fewer, few, few₁)) i₂))
              ]
            ]
      ]

    -- On a sound state, fuel above the number of orphans is enough to connect them, and then
    -- `connectOrphansLocked` does not fail: it ends with a sound state, a chain that is the old one
    -- with exactly the reported blocks behind it, and no more orphans than before, or it panics,
    -- as the validation of a block does.
    pub connect_orphans-Ends :
        (fuel : ℕ) (parent : Hash) (s : NodeState)
        → length s.orphans < fuel
        → IsSound c s
        → Ends s (connect_orphans c attempt fuel parent s)
    unfolding connect_orphans
    connect_orphans-Ends zero parent s few i = absurd (omega arith)
    connect_orphans-Ends (suc fuel) parent s few i =
        let s₀ : NodeState = record s { orphans_by_prev = remove parent s.orphans_by_prev } in
        let i₀ : IsSound c s₀ = record {
          schedule = i.schedule;
          valid = i.valid;
          orphan_outputs = i.orphan_outputs;
          side_outputs = i.side_outputs;
          bounded = i.bounded;
        } in
        later s s₀ (connect_orphans c attempt (suc fuel) parent s) refl (omega arith) (
          connect_each-Ends (connect_orphans c attempt fuel) fuel
            (λ h t few' i'. connect_orphans-Ends fuel h t few' i')
            (hashes_at parent s.orphans_by_prev) s₀ (omega (arith, few)) i₀)
