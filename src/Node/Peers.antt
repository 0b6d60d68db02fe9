-- ===== src/Node/Peers.antt =====
-- internal/p2p/node.go: the table of peers, their ban scores and the node's own addresses. Texts
-- are their bytes; package net and strings are a parameter.
pub mod Banned
use pacd.Base.{
  ℕ, zero, suc, ◌+◌, ◌*◌, Bool, true, false, not, ◌&&◌, ◌||◌, Option, none, some, List, [], ◌∷◌,
  Bytes, length, ltb, leb, ◌==◌, if◌then◌else◌, bytes_eq,
}
use pacd.Base.Int.{ℤ}
use pacd.Node.HashMap.{HashMap, find, put, remove}

-- `strings.TrimSpace`, `net.SplitHostPort`, `net.JoinHostPort`, and whether `net.ParseIP` gives a
-- loopback or an unspecified address.
pub record Net : Type 0 where
  pub trim_space : Bytes → Bytes
  pub split_host_port : Bytes → Option (Bytes × Bytes)
  pub join_host_port : Bytes → Bytes → Bytes
  pub is_loopback : Bytes → Bool
  pub is_unspecified : Bytes → Bool

-- `banThreshold` and the two scores.
abbrev pub ban_threshold : ℕ
ban_threshold = 100

abbrev pub ban_score_malformed : ℕ
ban_score_malformed = 100

abbrev pub ban_score_invalid_chain : ℕ
ban_score_invalid_chain = 50

-- `connected` is `conn != nil`.
pub record Peer : Type 0 where
  pub connected : Bool
  pub best_height : ℕ
  pub advertised_addr : Bytes

-- The peers, the node's own addresses, and the scores by ban key.
pub record PeerTable : Type 0 where
  pub peers : HashMap Peer
  pub self_addrs : List Bytes
  pub ban_scores : HashMap ℕ

-- `cfg.Connect` and `cfg.MaxPeers`, which `New` makes positive.
pub record PeerConfig : Type 0 where
  pub connect : List Bytes
  pub max_peers : ℕ

abbrev pub is_empty : Bytes → Bool
is_empty b = length b == 0

unfoldable pub active_peer_count : HashMap Peer → ℕ
active_peer_count [] = 0
active_peer_count ((a, p) ∷ ps) = (if p.connected then 1 else 0) + active_peer_count ps

unfoldable pub pending_peer_count : HashMap Peer → ℕ
pending_peer_count [] = 0
pending_peer_count ((a, p) ∷ ps) = (if p.connected then 0 else 1) + pending_peer_count ps

unfoldable pub max_pending_peers : ℕ → ℕ
max_pending_peers max_peers = if ltb max_peers 1 then 1 else max_peers * 2

-- The score of a key, zero if it has none.
unfoldable pub ban_score : Bytes → HashMap ℕ → ℕ
ban_score key scores = elim (find key scores) [ none ↦ 0 | some n ↦ n ]

module _ (net : Net) where
  unfoldable pub normalize_addr : Bytes → Bytes
  normalize_addr addr =
      let trimmed = net.trim_space addr in
      let port_zero = 48 ∷ [] in
      if is_empty trimmed then [] else elim (net.split_host_port trimmed) [
        | none ↦ []
        | some (host, port) ↦
            if is_empty host || (is_empty port || bytes_eq port port_zero)
            then []
            else if net.is_unspecified host
            then []
            else net.join_host_port host port
      ]

  unfoldable pub ban_key : Bytes → Bytes
  ban_key addr =
      let trimmed = net.trim_space addr in
      elim (net.split_host_port trimmed) [
        | none ↦ trimmed
        | some (host, port) ↦ if is_empty host then trimmed else host
      ]

  -- Whether an address, or the one that its peer has advertised, has the ban key `host`.
  unfoldable pub is_peer_of : Bytes → Bytes → Peer → Bool
  unfolding ban_key
  is_peer_of host addr p =
      bytes_eq (ban_key addr) host
      || (not (is_empty p.advertised_addr) && bytes_eq (ban_key p.advertised_addr) host)

  unfoldable pub any_peer : (Bytes → Peer → Bool) → HashMap Peer → Bool
  any_peer f [] = false
  any_peer f ((a, p) ∷ ps) = f a p || any_peer f ps

  unfoldable pub drop_peers : (Bytes → Peer → Bool) → HashMap Peer → HashMap Peer
  drop_peers f [] = []
  drop_peers f ((a, p) ∷ ps) = let rest = drop_peers f ps in if f a p then rest else (a, p) ∷ rest

  -- Hosts that are not compared: none, and this machine.
  unfoldable pub is_exempt : Bytes → Bool
  is_exempt host = is_empty host || net.is_loopback host

  unfoldable pub has_peer_for_host : Bytes → HashMap Peer → Bool
  unfolding is_exempt any_peer is_peer_of
  has_peer_for_host addr peers =
      let host = ban_key addr in if is_exempt host then false else any_peer (is_peer_of host) peers

  unfoldable pub has_active_peer_for_host : Bytes → HashMap Peer → Bool
  unfolding is_exempt any_peer is_peer_of
  has_active_peer_for_host addr peers =
      let host = ban_key addr in
      if is_exempt host then false else any_peer (λ a p. p.connected && is_peer_of host a p) peers

  unfoldable pub remove_pending_peers_for_host : Bytes → HashMap Peer → HashMap Peer
  unfolding is_exempt drop_peers is_peer_of
  remove_pending_peers_for_host addr peers =
      let host = ban_key addr in
      if is_exempt host
      then peers
      else drop_peers (λ a p. not p.connected && is_peer_of host a p) peers

  unfoldable pub has_key : Bytes → List Bytes → Bool
  has_key host [] = false
  has_key host (a ∷ as') = bytes_eq (ban_key a) host || has_key host as'

  unfoldable pub has_addr : Bytes → List Bytes → Bool
  has_addr addr [] = false
  has_addr addr (a ∷ as') = bytes_eq a addr || has_addr addr as'

  unfoldable pub is_known_self_addr : Bytes → List Bytes → Bool
  unfolding normalize_addr has_addr has_key is_exempt
  is_known_self_addr addr selves =
      let a = normalize_addr addr in
      let host = ban_key a in
      if is_empty a
      then false
      else if has_addr a selves
      then true
      else if is_exempt host
      then false
      else has_key host selves

  unfoldable pub is_static_peer : Bytes → List Bytes → Bool
  unfolding normalize_addr
  is_static_peer addr [] = false
  is_static_peer addr (p ∷ ps) = bytes_eq (normalize_addr p) addr || is_static_peer addr ps

  -- The last two tests of `reservePeer`, and the new entry.
  unfoldable pub reserve_place :
      PeerConfig → PeerTable → HashMap Peer → Bytes → Bool → Bool → Bool × PeerTable
  reserve_place cfg t peers addr inbound static =
      let t' = record t { peers = peers } in
      let entry : Peer = record { connected = false; best_height = 0; advertised_addr = [] } in
      if leb cfg.max_peers (active_peer_count peers) && (inbound || not static)
      then (false, t')
      else if not static && leb (max_pending_peers cfg.max_peers) (pending_peer_count peers)
      then (false, t')
      else (true, record t { peers = put addr entry peers })

  -- The test for another peer of the same host.
  unfoldable pub reserve_host :
      PeerConfig → PeerTable → HashMap Peer → Bytes → Bool → Bool → Bool × PeerTable
  unfolding reserve_place has_peer_for_host has_active_peer_for_host remove_pending_peers_for_host
  reserve_host cfg t peers addr inbound static =
      if has_peer_for_host addr peers
      then (if not static || has_active_peer_for_host addr peers
          then (false, record t { peers = peers })
          else reserve_place cfg t (remove_pending_peers_for_host addr peers) addr inbound static)
      else reserve_place cfg t peers addr inbound static

  -- `reservePeer`: whether the address may be dialled or served, and the table afterwards.
  unfoldable pub reserve_peer : PeerConfig → PeerTable → Bytes → Bool → Bool → Bool × PeerTable
  unfolding reserve_host is_known_self_addr ban_score is_static_peer
  reserve_peer cfg t addr inbound static =
      let is_static = static || is_static_peer addr cfg.connect in
      if is_known_self_addr addr t.self_addrs
      then (false, t)
      else if leb ban_threshold (ban_score (ban_key addr) t.ban_scores)
      then (false, t)
      else elim (find addr t.peers) [
        | none ↦ reserve_host cfg t t.peers addr inbound is_static
        | some existing ↦
            if not is_static || existing.connected
            then (false, t)
            else reserve_host cfg t (remove addr t.peers) addr inbound is_static
      ]

  unfoldable pub update_peer : PeerTable → Bytes → Peer → PeerTable
  update_peer t addr p = record t { peers = put addr p t.peers }

  unfoldable pub remove_peer : PeerTable → Bytes → PeerTable
  remove_peer t addr = record t { peers = remove addr t.peers }

  -- `addBanScore`; the connections that it closes leave the table when their loops end. A score is
  -- an int64 that is raised by 50 or 100 at a time, and is a natural number here.
  unfoldable pub add_ban_score : PeerTable → Bytes → ℕ → PeerTable
  unfolding ban_score
  add_ban_score t addr delta =
      let key = ban_key addr in
      record t { ban_scores = put key (ban_score key t.ban_scores + delta) t.ban_scores }
