-- ===== src/Node/AddrBook.antt =====
-- internal/p2p/node.go: the book of addresses, and which of them the node dials next. What is
-- written to the book's file, and the order of the candidates, are left out.
pub mod Dials
use pacd.Base.{
  ℕ, zero, suc, ◌+◌, ◌-◌, ◌*◌, Bool, true, false, not, ◌&&◌, ◌||◌, Option, none, some, List, [],
  ◌∷◌, Bytes, length, ltb, leb, ◌==◌, if◌then◌else◌, bytes_eq,
}
use pacd.Base.Int.{ℤ, pos, negsuc, ltb_ℤ, eqb_ℤ, ◌+ℤ◌, ◌-ℤ◌}
use pacd.Chaincfg.{Time, Duration}
use pacd.Node.HashMap.{HashMap, find, put, remove}
use pacd.Node.Peers.{
  Net, Peer, PeerTable, PeerConfig, is_empty, ban_threshold, ban_score, ban_key, normalize_addr,
  is_known_self_addr, has_peer_for_host, is_static_peer,
}

pub data AddrSource : Type 0 where
  discovered verified seed manual listen : AddrSource

unfoldable pub addr_source_rank : AddrSource → ℕ
addr_source_rank verified = 4
addr_source_rank manual = 3
addr_source_rank seed = 2
addr_source_rank discovered = 1
addr_source_rank listen = 0

unfoldable pub better_addr_source : AddrSource → AddrSource → Bool
unfolding addr_source_rank
better_addr_source next' current = ltb (addr_source_rank current) (addr_source_rank next')

pub record AddrBookEntry : Type 0 where
  pub address : Bytes
  pub source : AddrSource
  pub last_success : ℤ
  pub failures : ℤ

-- The book and `recentDials`.
pub record AddrBook : Type 0 where
  pub entries : HashMap AddrBookEntry
  pub recent_dials : HashMap Time

-- `defaultDiscoveryRetry` and `time.Minute`, in nanoseconds.
abbrev pub discovery_retry : ℕ
discovery_retry = 5000000000

abbrev pub minute : ℕ
minute = 60000000000

-- The loop of `discoveryRetryDelay`, with the rounds that `i` has left.
unfoldable pub delay_loop : ℕ → ℕ → ℕ
delay_loop zero delay = delay
delay_loop (suc n) delay =
    let rest = delay_loop n (delay * 2) in if ltb delay minute then rest else delay

unfoldable pub discovery_retry_delay : ℤ → ℕ
unfolding delay_loop
discovery_retry_delay (negsuc n) = discovery_retry
discovery_retry_delay (pos zero) = discovery_retry
discovery_retry_delay (pos (suc n)) =
    let delay = delay_loop n discovery_retry in if ltb minute delay then minute else delay

module _ (net : Net) where
  unfoldable pub learn_addr : AddrBook → Bytes → AddrSource → AddrBook
  unfolding better_addr_source
  learn_addr book addr source =
      let a = normalize_addr net addr in
      let fresh : AddrBookEntry = record {
        address = a;
        source = source;
        last_success = pos 0;
        failures = pos 0;
      } in
      if is_empty a then book else elim (find a book.entries) [
        | none ↦ record book { entries = put a fresh book.entries }
        | some entry ↦
            if better_addr_source source entry.source
            then record book { entries = put a (record entry { source = source }) book.entries }
            else book
      ]

  -- The entry after a dial at `now` that succeeded or failed.
  unfoldable pub dialled : AddrBookEntry → Bool → ℤ → AddrBookEntry
  dialled entry true now = record entry { source = verified; last_success = now; failures = pos 0 }
  dialled entry false now = record entry { failures = entry.failures +ℤ pos 1 }

  unfoldable pub record_discovery_result : AddrBook → Bytes → Bool → ℤ → AddrBook
  unfolding dialled
  record_discovery_result book addr success now =
      let a = normalize_addr net addr in
      if is_empty a then book else elim (find a book.entries) [
        | none ↦ book
        | some entry ↦ record book { entries = put a (dialled entry success now) book.entries }
      ]

  unfoldable pub remember_self_addr : PeerTable → AddrBook → Bytes → PeerTable × AddrBook
  remember_self_addr t book addr =
      let a = normalize_addr net addr in
      let t' = record t { self_addrs = a ∷ t.self_addrs } in
      if is_empty a then (t, book) else (
        t',
        record book { entries = remove a book.entries; recent_dials = remove a book.recent_dials },
      )

  unfoldable pub has_peer_for_advertised_addr : Bytes → HashMap Peer → Bool
  has_peer_for_advertised_addr addr [] = false
  has_peer_for_advertised_addr addr ((a, p) ∷ ps) =
      bytes_eq p.advertised_addr addr || has_peer_for_advertised_addr addr ps

  -- Whether the last dial is too recent.
  unfoldable pub dialled_recently : HashMap Time → Bytes → AddrBookEntry → Time → Bool
  unfolding discovery_retry_delay
  dialled_recently dials addr entry now = elim (find addr dials) [
    | none ↦ false
    | some last ↦ ltb_ℤ (now -ℤ last) (pos (discovery_retry_delay entry.failures))
  ]

  -- The tests of `discoveryCandidates` on one entry; `self` is the node's own normalized address.
  unfoldable pub is_candidate :
      PeerConfig → PeerTable → Bytes → Time → HashMap Time → Bytes → AddrBookEntry → Bool
  unfolding has_peer_for_advertised_addr dialled_recently
  is_candidate cfg t self now dials addr entry =
      not (is_empty addr || (bytes_eq addr self || is_known_self_addr net addr t.self_addrs))
      && (elim (find addr t.peers) [ none ↦ true | some _ ↦ false ]
          && (not (has_peer_for_host net addr t.peers)
              && (not (has_peer_for_advertised_addr addr t.peers)
                  && (not (is_static_peer net addr cfg.connect)
                      && (ltb (ban_score (ban_key net addr) t.ban_scores) ban_threshold
                          && not (dialled_recently dials addr entry now))))))

  -- The loop of `discoveryCandidates`: the candidates, and the dials afterwards.
  unfoldable pub candidates_loop :
      PeerConfig
      → PeerTable
      → Bytes
      → Time
      → HashMap Time
      → HashMap AddrBookEntry
      → List Bytes × HashMap Time
  unfolding is_candidate
  candidates_loop cfg t self now dials [] = ([], dials)
  candidates_loop cfg t self now dials ((addr, entry) ∷ es) =
      let skipped = candidates_loop cfg t self now dials es in
      let taken = candidates_loop cfg t self now (put addr now dials) es in
      if is_candidate cfg t self now dials addr entry then (addr ∷ taken.0, taken.1) else skipped
