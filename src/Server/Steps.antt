-- ===== src/Server/Steps.antt =====
-- internal/rpcserver/server.go and internal/p2p/node.go on the chain that they share, in any order:
-- every step is one call under a lock. Between a block of the node and the call that tells the
-- server of it, other steps may come.
use pacd.Base.{◌≡◌, refl, sym, ap, Bool, true, false, List, [], ◌∷◌, ◌++◌, inl, inr, ◌⊎◌}
use pacd.Base.Result.{ok, outcome, is_ok, is_err, is_panic}
use pacd.Crypto.{Crypto}
use pacd.Wire.Tx.{MsgTx}
use pacd.Wire.Block.{MsgBlock}
use pacd.Chain.State.{Instants, validate_block, add_block, connect_block}
use pacd.Chain.State.Invariant.{HasOutputs, connect_block-IsValid}
use pacd.Mempool.{Mempool, accept_transaction, prune_mempool, notify_chain_reorganized}
use pacd.Mempool.Connects.{
  IsDistinct, accept_transaction-IsDistinct, prune_mempool-IsValid,
  notify_chain_reorganized-IsValid,
}
use pacd.Node.State.{NodeState}
use pacd.Node.Orphans as Orphans
use pacd.Node.Orphans.{with_stored}
use pacd.Node.Connect.{Oracle, connect_block_from}
use pacd.Node.Accepted.{connect_block_from-IsSound}
use pacd.Server.{Server, prune, connect_stored, submit_block}

-- The daemon: the node and the server have the chain and the file in common.
pub record Daemon : Type 0 where
  pub node : NodeState
  pub mempool : Mempool

-- The server's view of it, and the daemon after the server has worked on its view.
abbrev pub server_of : Daemon → Server
server_of d = record { chain = d.node.chain; mempool = d.mempool; stored = d.node.stored }

abbrev pub with_server : Daemon → Server → Daemon
with_server d s = record {
  node = record d.node { chain = s.chain; stored = s.stored };
  mempool = s.mempool;
}

module _ (c : Crypto) where
  pub data Step (s t : Daemon) : Type 0 where
    accepted :
        (tx : MsgTx) (fresh : Bool) (pool : Mempool)
        → accept_transaction c s.node.chain s.mempool tx ≡ ok (fresh, pool)
        → t ≡ record s { mempool = pool }
        → Step s t
    submitted :
        (b : MsgBlock) (now later : Instants) (written : Bool)
        → HasOutputs b
        → t ≡ with_server s (submit_block c (server_of s) b now later written).0
        → Step s t
    received :
        (b : MsgBlock) (o : Oracle)
        → HasOutputs b
        → t ≡ record s { node = (connect_block_from c s.node b o).0 }
        → Step s t
    block_connected :
        (b : MsgBlock) (pool : Mempool)
        → prune_mempool c s.node.chain s.mempool b ≡ ok pool
        → t ≡ record s { mempool = pool }
        → Step s t
    chain_reorganized :
        (disconnected connected : List MsgBlock) (pool : Mempool)
        → notify_chain_reorganized c s.node.chain disconnected connected s.mempool ≡ ok pool
        → t ≡ record s { mempool = pool }
        → Step s t

  pub data Reach (s : Daemon) : Daemon → Type 0 where
    here : Reach s s
    next : {t u : Daemon} → Reach s t → Step t u → Reach s u

  -- The chain, the orphans and the side blocks are sound, and the pool has no hash twice.
  pub record IsSound (s : Daemon) : Type 0 where
    pub node : Orphans.IsSound c s.node
    pub distinct : IsDistinct c s.mempool

  -- What pruning leaves alone, and what it keeps.
  prune-keeps :
      (s : Server) (b : MsgBlock)
      → IsDistinct c s.mempool
      → ((prune c s b).0.chain ≡ s.chain) × IsDistinct c (prune c s b).0.mempool
  unfolding prune
  prune-keeps s b d = elim (outcome (prune_mempool c s.chain s.mempool b)) [
    | is_ok pool e ↦
        let v = prune_mempool-IsValid c s.chain s.mempool pool b d e in
        rw (prune, e) (refl, v.distinct)
    | is_err x e ↦ rw (prune, e) (refl, d)
    | is_panic e ↦ rw (prune, e) (refl, d)
  ]

  -- The handler leaves the chain, or connects the block to it.
  abbrev Submitted : Server → MsgBlock → Instants → Server → Type 0
  Submitted s b later t =
      ((t.chain ≡ s.chain) ⊎ (connect_block c s.chain b true later ≡ ok t.chain))
      × IsDistinct c t.mempool

  connect_stored-Submitted :
      (s : Server) (b : MsgBlock) (later : Instants)
      → IsDistinct c s.mempool
      → Submitted s b later (connect_stored c s b later).0
  unfolding connect_stored add_block
  connect_stored-Submitted s b later d = elim (outcome (connect_block c s.chain b true later)) [
    | is_ok ch e ↦
        let connect_added : add_block c s.chain b later ≡ ok ch = e in
        let (same, distinct) = prune-keeps (record s { chain = ch }) b d in
        rw (connect_stored, connect_added) (inr (ap ok (sym same)), distinct)
    | is_err x e ↦ rw (connect_stored, add_block, e) (inl refl, d)
    | is_panic e ↦ rw (connect_stored, add_block, e) (inl refl, d)
  ]

  submit_block-Submitted :
      (s : Server) (b : MsgBlock) (now later : Instants) (written : Bool)
      → IsDistinct c s.mempool
      → Submitted s b later (submit_block c s b now later written).0
  unfolding submit_block
  submit_block-Submitted s b now later false d =
      elim (outcome (validate_block c s.chain b true now)) [
        | is_ok utxos e ↦ rw (submit_block, e) (inl refl, d)
        | is_err x e ↦ rw (submit_block, e) (inl refl, d)
        | is_panic e ↦ rw (submit_block, e) (inl refl, d)
      ]
  submit_block-Submitted s b now later true d =
      elim (outcome (validate_block c s.chain b true now)) [
        | is_ok utxos e ↦
            rw (submit_block, e)
              (connect_stored-Submitted (record s { stored = s.stored ++ (b ∷ []) }) b later d)
        | is_err x e ↦ rw (submit_block, e) (inl refl, d)
        | is_panic e ↦ rw (submit_block, e) (inl refl, d)
      ]

  submitted-IsSound :
      (s : Daemon) (b : MsgBlock) (later : Instants) (t : Server)
      → HasOutputs b
      → Submitted (server_of s) b later t
      → IsSound s
      → IsSound (with_server s t)
  submitted-IsSound s b later t ho (how, distinct) i =
      let n = i.node in
      elim how [
        | inl same ↦ record {
          node = with_stored c s.node t.chain t.stored (rw same n.schedule) (rw same n.valid) n;
          distinct = distinct;
        }
        | inr e ↦
            let (valid, _, params) =
              connect_block-IsValid c s.node.chain b true later t.chain n.schedule n.valid ho e in
            record {
              node = with_stored c s.node t.chain t.stored (rw params n.schedule) valid n;
              distinct = distinct;
            }
      ]

  pub Step-IsSound : (s t : Daemon) → Step s t → IsSound s → IsSound t
  Step-IsSound s t (accepted tx fresh pool e same) i =
      let d = accept_transaction-IsDistinct c s.node.chain s.mempool tx fresh pool i.distinct e in
      let next' : IsSound (record s { mempool = pool }) = record { node = i.node; distinct = d } in
      rw same next'
  Step-IsSound s t (submitted b now later written ho same) i = rw same (
      submitted-IsSound s b later (submit_block c (server_of s) b now later written).0 ho
        (submit_block-Submitted (server_of s) b now later written i.distinct) i)
  Step-IsSound s t (received b o ho same) i =
      let next' : IsSound (record s { node = (connect_block_from c s.node b o).0 }) = record {
        node = connect_block_from-IsSound c s.node b o ho i.node;
        distinct = i.distinct;
      } in
      rw same next'
  Step-IsSound s t (block_connected b pool e same) i =
      let v = prune_mempool-IsValid c s.node.chain s.mempool pool b i.distinct e in
      let next' : IsSound (record s { mempool = pool }) = record {
        node = i.node;
        distinct = v.distinct;
      } in
      rw same next'
  Step-IsSound s t (chain_reorganized disconnected connected pool e same) i =
      let v =
        notify_chain_reorganized-IsValid c s.node.chain disconnected connected s.mempool pool
          i.distinct e in
      let next' : IsSound (record s { mempool = pool }) = record {
        node = i.node;
        distinct = v.distinct;
      } in
      rw same next'

  -- Whatever order the calls come in, whatever the clock and whether or not the file takes a block,
  -- from a sound state only sound states are reached: the chain is valid, the orphans are within
  -- their limit, all blocks that are kept have int64 values, and no hash is twice in the pool. The
  -- blocks of the steps have int64 values; nothing is said of the file, which a call of the node
  -- that fails after its write leaves apart from the chain.
  pub Reach-IsSound : (s t : Daemon) → Reach s t → IsSound s → IsSound t
  Reach-IsSound s t here i = i
  Reach-IsSound s t (next {t = u} r st) i = Step-IsSound u t st (Reach-IsSound s u r i)
