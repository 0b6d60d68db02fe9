-- ===== src/Node/Orphans.antt =====
-- Orphans: how many there are, that connecting them ends, and what it does to the chain.
pub mod Joined
use pacd.Base.{
  ℕ, zero, suc, ◌+◌, ◌%◌, ◌≤◌, ◌<◌, ◌≡◌, ◌≢◌, refl, sym, ap, ◌∙◌, arith, Bool, true, false, Option,
  none, some, List, [], ◌∷◌, ◌++◌, length, get_elem?, leb, if◌then◌else◌, inl, inr, Bool-cases,
  Option-cases, bytes_eq, bytes_eq_refl,
}
use pacd.Base.Result.{Result, ok, err, panic, ◌>>=◌, >>=-eq-ok, outcome, is_ok, is_err, is_panic}
use pacd.Crypto.{Crypto}
use pacd.Wire.Tx.{Hash}
use pacd.Wire.Block.{MsgBlock}
use pacd.Chain.State.{Chain, Instants, must_block_hash, validate_block, connect_block}
use pacd.Chain.State.Invariant.{HasOutputs, IsValid, connect_block-IsValid}
use pacd.Consensus.Subsidy.Schedule.{IsSchedule}
use pacd.Node.HashMap.{
  HashMap, find, put, remove, length-remove, length-remove-le, length-put, Values, Values-remove,
  Values-put, Values-find,
}
use pacd.Node.State.{
  NodeState, Attempt, max_orphans, evict_orphan, add_orphan, append_block, connect_each,
  connect_orphans, hashes_at, attach,
}

-- An entry of a map is found.
get_elem?-find {ℓ} :
    {V : Type ℓ} (m : HashMap V) (i : ℕ) (k : Hash) (v : V)
    → get_elem? m i ≡ some (k, v)
    → find k m ≢ none
unfolding find
get_elem?-find [] i k v e = absurd (cc)
get_elem?-find ((j, w) ∷ m) zero k v e = ground (arith, bytes_eq_refl k)
get_elem?-find ((j, w) ∷ m) (suc i) k v e = ground (arith, get_elem?-find m i k v)

get_elem?-some {ℓ} :
    {A : Type ℓ} (xs : List A) (i : ℕ) → i < length xs → (x : A) × (get_elem? xs i ≡ some x)
get_elem?-some [] i h = absurd (omega arith)
get_elem?-some (x ∷ xs) zero h = (x, refl)
get_elem?-some (x ∷ xs) (suc i) h = get_elem?-some xs i (omega (arith, h))

evict_orphan-lt :
    (choice : ℕ) (s : NodeState)
    → 0 < length s.orphans
    → length (evict_orphan choice s).orphans < length s.orphans
unfolding evict_orphan
evict_orphan-lt choice s h =
    let ((k, b), e) = get_elem?-some s.orphans (choice % length s.orphans) (ground arith) in
    elim (Option-cases (find k s.orphans)) [
      | inl missing ↦ absurd (get_elem?-find s.orphans (choice % length s.orphans) k b e missing)
      | inr (v, found) ↦ rw (evict_orphan, e) (length-remove k s.orphans v found)
    ]

evict_orphan-outputs :
    (choice : ℕ) (s : NodeState)
    → Values HasOutputs s.orphans
    → Values HasOutputs (evict_orphan choice s).orphans
unfolding evict_orphan
evict_orphan-outputs choice s h =
    elim (Option-cases (get_elem? s.orphans (choice % length s.orphans))) [
      | inl missing ↦ rw (evict_orphan, missing) h
      | inr ((k, b), found) ↦ rw (evict_orphan, found) (Values-remove HasOutputs k s.orphans h)
    ]

evict_orphan-same :
    (choice : ℕ) (s : NodeState)
    → ((evict_orphan choice s).chain ≡ s.chain)
      × ((evict_orphan choice s).side_blocks ≡ s.side_blocks)
unfolding evict_orphan
evict_orphan-same choice s = elim (Option-cases (get_elem? s.orphans (choice % length s.orphans))) [
  | inl missing ↦ rw (evict_orphan, missing) (refl, refl)
  | inr ((k, b), found) ↦ rw (evict_orphan, found) (refl, refl)
]

-- What the node's state keeps: a valid chain, blocks with int64 values in both maps, and no more
-- orphans than the limit.
pub record IsSound (c : Crypto) (s : NodeState) : Type 0 where
  pub schedule : IsSchedule s.chain.params
  pub valid : IsValid c s.chain
  pub orphan_outputs : Values HasOutputs s.orphans
  pub side_outputs : Values HasOutputs s.side_blocks
  pub bounded : length s.orphans ≤ max_orphans

module _ (c : Crypto) where
  room-bounded :
      (choice : ℕ) (s : NodeState)
      → length s.orphans ≤ max_orphans
      → let room = if leb max_orphans (length s.orphans) then evict_orphan choice s else s in
        (length room.orphans < max_orphans)
        × (Values HasOutputs s.orphans → Values HasOutputs room.orphans)
        × (room.chain ≡ s.chain)
        × (room.side_blocks ≡ s.side_blocks)
  room-bounded choice s h = elim (Bool-cases (leb max_orphans (length s.orphans))) [
    | inl full ↦
        let few : length (evict_orphan choice s).orphans < max_orphans =
          omega (arith, evict_orphan-lt choice s (ground arith), h) in
        let (same, same') = evict_orphan-same choice s in
        rw full (few, evict_orphan-outputs choice s, same, same')
    | inr free ↦
        let few : length s.orphans < max_orphans = ground arith in rw free (few, λ o. o, refl, refl)
  ]

  -- An orphan more, or an orphan instead of another: the limit holds.
  pub add_orphan-IsSound :
      (choice : ℕ) (s s' : NodeState) (b : MsgBlock)
      → HasOutputs b
      → IsSound c s
      → add_orphan c choice s b ≡ ok s'
      → IsSound c s'
  unfolding add_orphan
  add_orphan-IsSound choice s s' b ho i e =
      let (hash, _, e₁) = >>=-eq-ok (must_block_hash c b) _ e in
      elim (Option-cases (find hash s.orphans)) [
        | inr (v, found) ↦ let same : s' ≡ s = ground arith in rw same i
        | inl new ↦
            let room = if leb max_orphans (length s.orphans) then evict_orphan choice s else s in
            let (few, outputs, same, same') = room-bounded choice s i.bounded in
            let made : s' ≡ record room {
              orphans = put hash b room.orphans;
              orphans_by_prev = attach b.header.prev_block hash room.orphans_by_prev;
            } =
              ground arith in
            let next : IsSound c (record room {
              orphans = put hash b room.orphans;
              orphans_by_prev = attach b.header.prev_block hash room.orphans_by_prev;
            }) =
              record {
                schedule = rw same i.schedule;
                valid = rw same i.valid;
                orphan_outputs =
                    Values-put HasOutputs hash b room.orphans ho (outputs i.orphan_outputs);
                side_outputs = rw same' i.side_outputs;
                bounded = omega (arith, few, length-put hash b room.orphans);
              } in
            rw made next
      ]

  pub append_block-orphans :
      (s : NodeState) (b : MsgBlock) (enforce : Bool) (a : Attempt)
      → (append_block c s b enforce a).0.orphans ≡ s.orphans
  unfolding append_block
  append_block-orphans s b enforce a =
      elim (outcome (validate_block c s.chain b enforce a.validated_at)) [
        | is_ok u e ↦ elim (Bool-cases a.written) [
          | inl w ↦ elim (outcome (connect_block c s.chain b enforce a.added_at)) [
            | is_ok ch e₁ ↦ rw (append_block, e, w, e₁) refl
            | is_err x e₁ ↦ rw (append_block, e, w, e₁) refl
            | is_panic e₁ ↦ rw (append_block, e, w, e₁) refl
          ]
          | inr w ↦ rw (append_block, e, w) refl
        ]
        | is_err x e ↦ rw (append_block, e) refl
        | is_panic e ↦ rw (append_block, e) refl
      ]

  pub with_stored :
      (s : NodeState) (ch : Chain) (bs : List MsgBlock)
      → IsSchedule ch.params
      → IsValid c ch
      → IsSound c s
      → IsSound c (record s { chain = ch; stored = bs })
  with_stored s ch bs sched v i = record {
    schedule = sched;
    valid = v;
    orphan_outputs = i.orphan_outputs;
    side_outputs = i.side_outputs;
    bounded = i.bounded;
  }

  pub append_block-IsSound :
      (s : NodeState) (b : MsgBlock) (enforce : Bool) (a : Attempt)
      → HasOutputs b
      → IsSound c s
      → IsSound c (append_block c s b enforce a).0
  unfolding append_block
  append_block-IsSound s b enforce a ho i =
      let bs = s.stored ++ (b ∷ []) in
      elim (outcome (validate_block c s.chain b enforce a.validated_at)) [
        | is_ok u e ↦ elim (Bool-cases a.written) [
          | inl w ↦ elim (outcome (connect_block c s.chain b enforce a.added_at)) [
            | is_ok ch e₁ ↦
                let (valid, _, same) =
                  connect_block-IsValid c s.chain b enforce a.added_at ch i.schedule i.valid ho
                    e₁ in
                rw (append_block, e, w, e₁) (with_stored s ch bs (rw same i.schedule) valid i)
            | is_err x e₁ ↦
                rw (append_block, e, w, e₁) (with_stored s s.chain bs i.schedule i.valid i)
            | is_panic e₁ ↦
                rw (append_block, e, w, e₁) (with_stored s s.chain bs i.schedule i.valid i)
          ]
          | inr w ↦ rw (append_block, e, w) i
        ]
        | is_err x e ↦ rw (append_block, e) i
        | is_panic e ↦ rw (append_block, e) i
      ]
