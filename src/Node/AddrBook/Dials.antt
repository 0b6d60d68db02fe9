-- ===== src/Node/AddrBook/Dials.antt =====
-- How long an address waits before it is dialled again.
use pacd.Base.{
  ℕ, zero, suc, ◌*◌, ◌≤◌, ◌≡◌, ◌≢◌, ◌∙◌, arith, true, false, some, List, [], ◌∷◌, Bytes, inl, inr,
  Bool-cases, bytes_eq, bytes_eq_sound, All,
}
use pacd.Base.Int.{ℤ, pos, negsuc, ltb_ℤ, ◌-ℤ◌}
use pacd.Chaincfg.{Time}
use pacd.Node.HashMap.{HashMap, find, put, find-put, find-put_ne}
use pacd.Node.Peers.{Net, PeerTable, PeerConfig}
use pacd.Node.AddrBook.{
  AddrBookEntry, discovery_retry, minute, delay_loop, discovery_retry_delay, dialled_recently,
  is_candidate, candidates_loop,
}

delay_loop_mono : (n d : ℕ) → delay_loop n d ≤ delay_loop (suc n) d
unfolding delay_loop
delay_loop_mono zero d = ground arith
delay_loop_mono (suc n) d = ground (arith, delay_loop_mono n (d * 2))

le-delay_loop : (n d : ℕ) → d ≤ delay_loop n d
unfolding delay_loop
le-delay_loop zero d = omega arith
le-delay_loop (suc n) d = ground (arith, le-delay_loop n (d * 2))

-- The delay before an address is dialled again is at least five seconds and at most a minute, and
-- one failure more never shortens it.
pub discovery_retry_delay_mono :
    (failures : ℕ)
    → (discovery_retry ≤ discovery_retry_delay (pos failures))
      × (discovery_retry_delay (pos failures) ≤ minute)
      × (discovery_retry_delay (pos failures) ≤ discovery_retry_delay (pos (suc failures)))
unfolding discovery_retry_delay
discovery_retry_delay_mono zero =
    (omega arith, omega arith, ground (arith, le-delay_loop 0 discovery_retry))
discovery_retry_delay_mono (suc n) =
    let low = le-delay_loop n discovery_retry in
    let up = delay_loop_mono n discovery_retry in (ground arith, ground arith, ground arith)

ltb_ℤ_mono : (z : ℤ) (m n : ℕ) → m ≤ n → ltb_ℤ z (pos m) ≡ true → ltb_ℤ z (pos n) ≡ true
ltb_ℤ_mono (pos k) m n h e = ground arith
ltb_ℤ_mono (negsuc k) m n h e = ground arith

discovery_retry_delay_low : (failures : ℤ) → discovery_retry ≤ discovery_retry_delay failures
unfolding discovery_retry_delay
discovery_retry_delay_low (pos n) = (discovery_retry_delay_mono n).0
discovery_retry_delay_low (negsuc n) = omega arith

All-map {ℓ κ κ'} :
    {A : Type ℓ} {P : A → Type κ} {Q : A → Type κ'}
    → ((a : A) → P a → Q a)
    → (xs : List A) → All P xs
    → All Q xs
All-map f [] h = tt
All-map f (x ∷ xs) (p, h) = (f x p, All-map f xs h)

-- A key that has the stamp `now` keeps it while others get it.
find-put_stamp :
    (a b : Bytes) (now : Time) (dials : HashMap Time)
    → find a dials ≡ some now
    → find a (put b now dials) ≡ some now
find-put_stamp a b now dials h = elim (Bool-cases (bytes_eq b a)) [
  | inl same ↦ rw (bytes_eq_sound b a same) (find-put a now dials)
  | inr other ↦ find-put_ne b a now dials other ∙ h
]

module _ (net : Net) where
  stays_stamped :
      (cfg : PeerConfig) (t : PeerTable) (self : Bytes) (now : Time) (dials : HashMap Time)
      (entries : HashMap AddrBookEntry) (a : Bytes)
      → find a dials ≡ some now
      → find a (candidates_loop net cfg t self now dials entries).1 ≡ some now
  unfolding candidates_loop
  stays_stamped cfg t self now dials [] a h = h
  stays_stamped cfg t self now dials ((addr, entry) ∷ es) a h =
      elim (Bool-cases (is_candidate net cfg t self now dials addr entry)) [
        | inl fits ↦ rw fits (
            stays_stamped cfg t self now (put addr now dials) es a
              (find-put_stamp a addr now dials h))
        | inr out ↦ rw out (stays_stamped cfg t self now dials es a h)
      ]

  -- Every address that is collected gets the time of the run.
  candidates_loop_stamped :
      (cfg : PeerConfig) (t : PeerTable) (self : Bytes) (now : Time) (dials : HashMap Time)
      (entries : HashMap AddrBookEntry)
      → let run = candidates_loop net cfg t self now dials entries in
        All (λ a. find a (run.1) ≡ some now) (run.0)
  unfolding candidates_loop
  candidates_loop_stamped cfg t self now dials [] = tt
  candidates_loop_stamped cfg t self now dials ((addr, entry) ∷ es) =
      elim (Bool-cases (is_candidate net cfg t self now dials addr entry)) [
        | inl fits ↦ rw fits (
          stays_stamped cfg t self now (put addr now dials) es addr (find-put addr now dials),
          candidates_loop_stamped cfg t self now (put addr now dials) es,
        )
        | inr out ↦ rw out (candidates_loop_stamped cfg t self now dials es)
      ]

  is_candidate-recent :
      (cfg : PeerConfig) (t : PeerTable) (self : Bytes) (now last : Time) (dials : HashMap Time)
      (addr : Bytes) (entry : AddrBookEntry)
      → find addr dials ≡ some last
      → ltb_ℤ (now -ℤ last) (pos discovery_retry) ≡ true
      → is_candidate net cfg t self now dials addr entry ≢ true
  unfolding is_candidate dialled_recently
  is_candidate-recent cfg t self now last dials addr entry h early e =
      let delay = discovery_retry_delay entry.failures in
      let soon =
        ltb_ℤ_mono (now -ℤ last) discovery_retry delay (discovery_retry_delay_low entry.failures)
          early in
      let recent : dialled_recently net dials addr entry now ≡ true =
        rw (dialled_recently, h) soon in
      absurd (ground arith)

  -- An address with a recent dial is not collected.
  candidates_loop-recent :
      (cfg : PeerConfig) (t : PeerTable) (self : Bytes) (now last : Time) (dials : HashMap Time)
      (entries : HashMap AddrBookEntry) (a : Bytes)
      → find a dials ≡ some last
      → ltb_ℤ (now -ℤ last) (pos discovery_retry) ≡ true
      → All (λ b. b ≢ a) (candidates_loop net cfg t self now dials entries).0
  unfolding candidates_loop
  candidates_loop-recent cfg t self now last dials [] a h early = tt
  candidates_loop-recent cfg t self now last dials ((addr, entry) ∷ es) a h early =
      elim (Bool-cases (is_candidate net cfg t self now dials addr entry)) [
        | inr out ↦ rw out (candidates_loop-recent cfg t self now last dials es a h early)
        | inl fits ↦
            let other : addr ≢ a = λ same.
              is_candidate-recent cfg t self now last dials addr entry (rw same h) early fits in
            let differ : bytes_eq addr a ≡ false = elim (Bool-cases (bytes_eq addr a)) [
              | inl same ↦ absurd (other (bytes_eq_sound addr a same))
              | inr it ↦ it
            ] in
            rw fits (
              other,
              candidates_loop-recent cfg t self now last (put addr now dials) es a
                  (find-put_ne addr a now dials differ ∙ h) early,
            )
      ]

  -- An address that one run of `discoveryCandidates` collects is not collected again by a run that
  -- starts with the dial times which the first has left, whatever the peers, the configuration and
  -- the book have become, if the second run is less than five seconds after the first.
  pub candidates_loop_again :
      (cfg cfg' : PeerConfig) (t t' : PeerTable) (self self' : Bytes) (now now' : Time)
      (dials : HashMap Time) (entries entries' : HashMap AddrBookEntry)
      → ltb_ℤ (now' -ℤ now) (pos discovery_retry) ≡ true
      → let run = candidates_loop net cfg t self now dials entries in
        let again = candidates_loop net cfg' t' self' now' (run.1) entries' in
        All (λ a. All (λ b. b ≢ a) (again.0)) (run.0)
  candidates_loop_again cfg cfg' t t' self self' now now' dials entries entries' early =
      let run = candidates_loop net cfg t self now dials entries in
      All-map (λ a h. candidates_loop-recent cfg' t' self' now' now (run.1) entries' a h early)
        (run.0) (candidates_loop_stamped cfg t self now dials entries)
