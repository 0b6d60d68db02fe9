-- ===== src/Server/Generate/Mined.antt =====
-- A round of `handleGenerate` that mines a block keeps it.
use pacd.Base.{
  ℕ, ◌+◌, ◌≤◌, ◌≡◌, refl, ap, Bool, true, false, List, [], ◌∷◌, ◌++◌, Bytes, length, ◌==◌,
  if◌then◌else◌, All,
}
use pacd.Base.Int.{pos, pos_part}
use pacd.Base.Result.{ok, outcome, is_ok, is_err, is_panic}
use pacd.Crypto.{Crypto}
use pacd.Wire.Tx.{MsgTx}
use pacd.Wire.Block.{MsgBlock}
use pacd.Chaincfg.{Time, mining_open}
use pacd.Consensus.Subsidy.{calc_block_subsidy}
use pacd.Consensus.Timestamp.{check_block_timestamp}
use pacd.Chain.Utxo.{UtxoSet}
use pacd.Chain.State.{Chain, Instants, tip, validate_block, add_block, connect_block}
use pacd.Chain.State.Invariant.{HasOutputs, issued, connect_block_step}
use pacd.Chain.Connect.Money.{max_money, IsOutput}
use pacd.Mempool.{prune_mempool}
use pacd.Mining.{next_height, mine_block}
use pacd.Mining.Accepted.{add_block-mine_block}
use pacd.Server.{Server, prune, connect_stored, submit_block}
use pacd.Server.Generate.{Round, unix_seconds, generate_round}
use pacd.Server.Invariant.{IsLater, IsSound, submit_block-IsSound, validate_block-later}

module _ (c : Crypto) where
  -- The block is the last of the chain and of the file, whatever becomes of the pool.
  Kept : Server → MsgBlock → Server → Type 0
  Kept s b t = (t.chain.blocks ≡ s.chain.blocks ++ (b ∷ [])) × (t.stored ≡ s.stored ++ (b ∷ []))

  prune-same :
      (s : Server) (b : MsgBlock)
      → ((prune c s b).0.chain ≡ s.chain) × ((prune c s b).0.stored ≡ s.stored)
  unfolding prune
  prune-same s b = elim (outcome (prune_mempool c s.chain s.mempool b)) [
    | is_ok pool e ↦ rw (prune, e) (refl, refl)
    | is_err x e ↦ rw (prune, e) (refl, refl)
    | is_panic e ↦ rw (prune, e) (refl, refl)
  ]

  submit_block-Kept :
      (s : Server) (b : MsgBlock) (now later : Instants) (utxos : UtxoSet)
      → IsLater s.chain now later
      → validate_block c s.chain b true now ≡ ok utxos
      → Kept s b (submit_block c s b now later true).0
  unfolding Kept submit_block connect_stored add_block connect_block
  submit_block-Kept s b now later utxos l e =
      let ch : Chain = record s.chain { blocks = s.chain.blocks ++ (b ∷ []); utxos = utxos } in
      let t : Server = record s { chain = ch; stored = s.stored ++ (b ∷ []) } in
      let again = validate_block-later c s.chain b now later utxos l e in
      let added : add_block c s.chain b later ≡ ok ch = rw again refl in
      let (same, same') = prune-same t b in
      rw (submit_block, e, connect_stored, added) (ap (λ x. x.blocks) same, same')

  with_empty_pool : (s : Server) → IsSound c s → IsSound c (record s { mempool = [] })
  with_empty_pool s i = record {
    schedule = i.schedule;
    valid = i.valid;
    in_sync = i.in_sync;
    distinct = tt;
  }

  cleared-Kept :
      (s t : Server) (b : MsgBlock) (none_taken : Bool)
      → IsSound c t
      → Kept s b t
      → let u = if none_taken then t else record t { mempool = [] } in IsSound c u × Kept s b u
  unfolding Kept
  cleared-Kept s t b true i k = (i, k)
  cleared-Kept s t b false i k = (with_empty_pool t i, k)

  -- On a sound state, a round of `handleGenerate` that finds a block keeps it: the state afterwards
  -- is sound, and the block is the last one of the chain and of the file. Mining is open, the
  -- round's time is allowed, the file takes the block, the clock does not go back, the last block
  -- is not ahead of the limit on future times, the transactions and the block have int64 values,
  -- and all money that may have been issued and the next subsidy fit int64.
  pub generate_round-mine_block :
      (s : Server) (script : Bytes) (next_time : Time) (txs : List MsgTx) (max : ℕ) (b : MsgBlock)
      (o : Round)
      → IsSound c s
      → All (λ tx. All IsOutput tx.tx_out) txs
      → HasOutputs b
      → pos_part (calc_block_subsidy (pos (next_height s.chain)) s.chain.params)
          + issued s.chain.params s.chain.blocks
        ≤ max_money
      → mining_open s.chain.params o.validated_at.at_opening ≡ true
      → check_block_timestamp s.chain.params
          (tip s.chain).header.timestamp
          (unix_seconds next_time)
          o.validated_at.at_timestamp
        ≡ ok tt
      → IsLater s.chain o.validated_at o.added_at
      → o.written ≡ true
      → mine_block c s.chain script (unix_seconds next_time) txs max ≡ ok b
      → let t = (generate_round c s script next_time txs max o).0 in
        IsSound c t
        × (t.chain.blocks ≡ s.chain.blocks ++ (b ∷ []))
        × (t.stored ≡ s.stored ++ (b ∷ []))
  unfolding generate_round Kept add_block
  generate_round-mine_block s script next_time txs max b o i ho hb fits opened allowed l w e =
      let (ch, added) =
        add_block-mine_block c s.chain script (unix_seconds next_time) txs max b o.validated_at
          i.schedule i.valid ho fits opened allowed e in
      let (utxos, valid, _) = connect_block_step c s.chain b true o.validated_at ch added in
      let done = submit_block c s b o.validated_at o.added_at o.written in
      let sound : IsSound c (done.0) =
        submit_block-IsSound c s b o.validated_at o.added_at o.written hb l i in
      let kept : Kept s b (done.0) =
        rw w (submit_block-Kept s b o.validated_at o.added_at utxos l valid) in
      let (sound', kept') = cleared-Kept s (done.0) b (length txs == 0) sound kept in
      elim (outcome (done.1)) [
        | is_ok u e₁ ↦ rw (generate_round, e, e₁) (sound', kept'.0, kept'.1)
        | is_err x e₁ ↦ rw (generate_round, e, e₁) (sound, kept.0, kept.1)
        | is_panic e₁ ↦ rw (generate_round, e, e₁) (sound, kept.0, kept.1)
      ]
