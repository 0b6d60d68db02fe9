-- ===== src/Server/Invariant.antt =====
-- What holds of the server's state on every run of its operations.
use pacd.Base.{◌≡◌, refl, ◌∙◌, sym, ap, arith, Bool, true, false, [], ◌∷◌, ◌++◌}
use pacd.Base.Int.{◌≤ℤ◌, ◌+ℤ◌}
use pacd.Base.Result.{ok, outcome, is_ok, is_err, is_panic}
use pacd.Crypto.{Crypto}
use pacd.Wire.Block.{MsgBlock}
use pacd.Chaincfg.{unix}
use pacd.Chain.Utxo.{UtxoSet}
use pacd.Consensus.Subsidy.Schedule.{IsSchedule}
use pacd.Chain.State.{
  Chain, Instants, tip, must_block_hash, check_timestamp, validate_block, add_block, connect_block,
}
use pacd.Chain.State.Invariant.{HasOutputs, validate_block_step, connect_block-IsValid}
use pacd.Chain.State.Invariant as Valid
use pacd.Mempool.{prune_mempool}
use pacd.Mempool.Connects.{IsDistinct, prune_mempool-IsValid}
use pacd.Server.{Server, prune, connect_stored, submit_block}
use pacd.Server.Clock.{mining_open-later, check_block_timestamp-later}

-- The second reading of the clock is not before the first, and the last block is not ahead of the
-- limit on future times.
pub record IsLater (ch : Chain) (now later : Instants) : Type 0 where
  pub opening : now.at_opening ≤ℤ later.at_opening
  pub timestamp : now.at_timestamp ≤ℤ later.at_timestamp
  pub within : unix (tip ch).header.timestamp ≤ℤ now.at_timestamp +ℤ ch.params.max_future_block_time

module _ (c : Crypto) where
  allowed_later :
      (ch : Chain) (b : MsgBlock) (now later : Instants)
      → IsLater ch now later
      → check_timestamp c ch b true now.at_timestamp ≡ ok tt
      → check_timestamp c ch b true later.at_timestamp ≡ ok tt
  unfolding check_timestamp
  allowed_later ch b now later l e =
      check_block_timestamp-later ch.params (tip ch).header.timestamp b.header.timestamp
        now.at_timestamp later.at_timestamp l.timestamp l.within e

  validate_block_timestamp :
      (ch : Chain) (b : MsgBlock) (now : Instants) (utxos : UtxoSet)
      → validate_block c ch b true now ≡ ok utxos
      → check_timestamp c ch b true now.at_timestamp ≡ ok tt
  unfolding validate_block
  validate_block_timestamp ch b now utxos e = elim (outcome (must_block_hash c (tip ch))) [
    | is_ok hash e₁ ↦ elim (outcome (check_timestamp c ch b true now.at_timestamp)) [
      | is_ok u e₂ ↦ e₂
      | is_err x e₂ ↦ absurd (ground arith)
      | is_panic e₂ ↦ absurd (ground arith)
    ]
    | is_err x e₁ ↦ absurd (ground arith)
    | is_panic e₁ ↦ absurd (ground arith)
  ]

  -- A block that validates does so at a later reading of the clock, with the same outputs.
  pub validate_block-later :
      (ch : Chain) (b : MsgBlock) (now later : Instants) (utxos : UtxoSet)
      → IsLater ch now later
      → validate_block c ch b true now ≡ ok utxos
      → validate_block c ch b true later ≡ ok utxos
  unfolding validate_block
  validate_block-later ch b now later utxos l e =
      let (_, _, _, _, opened, _, _) = validate_block_step c ch b true now utxos e in
      let opened' = mining_open-later ch.params now.at_opening later.at_opening l.opening opened in
      let allowed = validate_block_timestamp ch b now utxos e in
      rw (opened', allowed_later ch b now later l allowed) (rw (opened, allowed) at e)

  -- The file holds the blocks behind genesis, the chain is valid, and the pool has no hash twice.
  pub record IsSound (s : Server) : Type 0 where
    pub schedule : IsSchedule s.chain.params
    pub valid : Valid.IsValid c s.chain
    pub in_sync : s.chain.blocks ≡ s.chain.params.genesis_block ∷ s.stored
    pub distinct : IsDistinct c s.mempool

  prune-IsSound : (s : Server) (b : MsgBlock) → IsSound s → IsSound (prune c s b).0
  unfolding prune
  prune-IsSound s b i = elim (outcome (prune_mempool c s.chain s.mempool b)) [
    | is_ok pool e ↦
        let v = prune_mempool-IsValid c s.chain s.mempool pool b i.distinct e in
        let next : IsSound (record s { mempool = pool }) = record {
          schedule = i.schedule;
          valid = i.valid;
          in_sync = i.in_sync;
          distinct = v.distinct;
        } in
        rw (prune, e) next
    | is_err x e ↦ rw (prune, e) i
    | is_panic e ↦ rw (prune, e) i
  ]

  -- A block that is connected and stored keeps the state sound.
  pub connected-IsSound :
      (s : Server) (b : MsgBlock) (enforce : Bool) (now : Instants) (ch : Chain)
      → HasOutputs b
      → IsSound s
      → connect_block c s.chain b enforce now ≡ ok ch
      → IsSound (record s { chain = ch; stored = s.stored ++ (b ∷ []) })
  connected-IsSound s b enforce now ch ho i e =
      let (valid, blocks, params) =
        connect_block-IsValid c s.chain b enforce now ch i.schedule i.valid ho e in
      record {
        schedule = rw params i.schedule;
        valid = valid;
        in_sync =
            blocks
            ∙ ap (λ xs. xs ++ (b ∷ [])) i.in_sync
            ∙ ap (λ p. p ∷ (s.stored ++ (b ∷ []))) (ap (λ q. q.genesis_block) (sym params));
        distinct = i.distinct;
      }

  pub submit_block-IsSound :
      (s : Server) (b : MsgBlock) (now later : Instants) (written : Bool)
      → HasOutputs b
      → IsLater s.chain now later
      → IsSound s
      → IsSound (submit_block c s b now later written).0
  unfolding submit_block connect_stored add_block connect_block
  submit_block-IsSound s b now later false ho l i =
      elim (outcome (validate_block c s.chain b true now)) [
        | is_ok utxos e ↦ rw (submit_block, e) i
        | is_err x e ↦ rw (submit_block, e) i
        | is_panic e ↦ rw (submit_block, e) i
      ]
  submit_block-IsSound s b now later true ho l i =
      elim (outcome (validate_block c s.chain b true now)) [
        | is_ok utxos e ↦
            let again = validate_block-later s.chain b now later utxos l e in
            let ch : Chain = record s.chain {
              blocks = s.chain.blocks ++ (b ∷ []);
              utxos = utxos;
            } in
            let connect : connect_block c s.chain b true later ≡ ok ch = rw again refl in
            let connect_added : add_block c s.chain b later ≡ ok ch = connect in
            rw (submit_block, e, connect_stored, connect_added)
              (prune-IsSound (record s { chain = ch; stored = s.stored ++ (b ∷ []) }) b
                (connected-IsSound s b true later ch ho i connect))
        | is_err x e ↦ rw (submit_block, e) i
        | is_panic e ↦ rw (submit_block, e) i
      ]
