-- ===== src/Node/Peers/Banned.antt =====
-- What a reservation promises, and that a banned host gets none.
use pacd.Base.{
  ℕ, ◌+◌, ◌≤◌, ◌<◌, ◌≡◌, refl, arith, Bool, true, false, ◌&&◌, ◌||◌, [], ◌∷◌, Bytes, leb, inl, inr,
  ◌⊎◌, Bool-cases, List, if◌then◌else◌, bytes_eq, Option-cases,
}
use pacd.Node.HashMap.{HashMap, find, put}
use pacd.Node.Peers.{
  Net, Peer, PeerTable, PeerConfig, ban_threshold, ban_score, ban_key, pending_peer_count,
  active_peer_count, max_pending_peers, is_known_self_addr, reserve_place, reserve_host,
  reserve_peer, add_ban_score, is_static_peer, has_peer_for_host,
}

pending-put-le :
    (a : Bytes) (p : Peer) (ps : HashMap Peer)
    → pending_peer_count (put a p ps) ≤ pending_peer_count ps + 1
unfolding pending_peer_count put
pending-put-le a p [] = ground arith
pending-put-le a p ((b, q) ∷ ps) = ground (arith, pending-put-le a p ps)

module _ (net : Net) where
  reserve_place-room :
      (cfg : PeerConfig) (t t' : PeerTable) (peers : HashMap Peer) (addr : Bytes)
      (inbound static : Bool)
      → reserve_place net cfg t peers addr inbound static ≡ (true, t')
      → static ≡ false
      → pending_peer_count t'.peers ≤ max_pending_peers cfg.max_peers
  unfolding reserve_place
  reserve_place-room cfg t t' peers addr inbound true e s = absurd (cc)
  reserve_place-room cfg t t' peers addr inbound false e s =
      let entry : Peer = record { connected = false; best_height = 0; advertised_addr = [] } in
      elim (Bool-cases (leb cfg.max_peers (active_peer_count peers) && (inbound || true))) [
        | inl full ↦ absurd (ground arith)
        | inr room ↦
            elim (Bool-cases (leb (max_pending_peers cfg.max_peers) (pending_peer_count peers))) [
              | inl many ↦ absurd (ground arith)
              | inr few ↦
                  let same : t' ≡ record t { peers = put addr entry peers } = ground arith in
                  let bound = pending-put-le addr entry peers in rw same (ground arith)
            ]
      ]

  reserve_host-room :
      (cfg : PeerConfig) (t t' : PeerTable) (peers : HashMap Peer) (addr : Bytes)
      (inbound static : Bool)
      → reserve_host net cfg t peers addr inbound static ≡ (true, t')
      → static ≡ false
      → pending_peer_count t'.peers ≤ max_pending_peers cfg.max_peers
  unfolding reserve_host
  reserve_host-room cfg t t' peers addr inbound true e s = absurd (cc)
  reserve_host-room cfg t t' peers addr inbound false e s =
      elim (Bool-cases (has_peer_for_host net addr peers)) [
        | inl other ↦ absurd (ground arith)
        | inr alone ↦ reserve_place-room cfg t t' peers addr inbound false (rw alone at e) refl
      ]

  -- An address that is reserved is not the node's own and has a ban score below the threshold; and
  -- unless it is one that the call or the configuration marks as static, the reserved peers that
  -- are not connected yet, this one included, are within the limit.
  pub reserve_peer-room :
      (cfg : PeerConfig) (t t' : PeerTable) (addr : Bytes) (inbound static : Bool)
      → reserve_peer net cfg t addr inbound static ≡ (true, t')
      → (is_known_self_addr net addr t.self_addrs ≡ false)
        × (ban_score (ban_key net addr) t.ban_scores < ban_threshold)
        × (((static || is_static_peer net addr cfg.connect) ≡ true)
            ⊎ (pending_peer_count t'.peers ≤ max_pending_peers cfg.max_peers))
  unfolding reserve_peer
  reserve_peer-room cfg t t' addr inbound static e =
      elim (Bool-cases (is_known_self_addr net addr t.self_addrs)) [
        | inl self ↦ absurd (ground arith)
        | inr foreign ↦
            elim (Bool-cases (leb ban_threshold (ban_score (ban_key net addr) t.ban_scores))) [
              | inl banned ↦ absurd (ground arith)
              | inr clean ↦ (
                foreign,
                ground arith,
                elim (Bool-cases (static || is_static_peer net addr cfg.connect)) [
                  | inl marked ↦ inl marked
                  | inr plain ↦ inr (elim (Option-cases (find addr t.peers)) [
                    | inl new ↦
                        reserve_host-room cfg t t' t.peers addr inbound
                          (static || is_static_peer net addr cfg.connect)
                          (rw (foreign, clean, new) at e) plain
                    | inr (p, known) ↦ absurd (ground arith)
                  ])
                ],
              )
            ]
      ]

  -- The table after `addBanScore` was called with each address and its points.
  abbrev pub penalized : PeerTable → List (Bytes × ℕ) → PeerTable
  penalized t [] = t
  penalized t ((addr, delta) ∷ ps) = penalized (add_ban_score net t addr delta) ps

  -- The points of a list that go to the ban key `key`.
  abbrev pub points : Bytes → List (Bytes × ℕ) → ℕ
  points key [] = 0
  points key ((addr, delta) ∷ ps) =
      (if bytes_eq (ban_key net addr) key then delta else 0) + points key ps
