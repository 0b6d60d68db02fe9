-- ===== src/P2p/Message/RoundTrip.antt =====
-- A frame is read back as the message that it was written from.
use pacd.Base.{
  ℕ, zero, suc, ◌≤◌, ◌<◌, ◌≡◌, refl, sym, ap, ◌∙◌, arith, true, false, ltb, ◌==◌, if◌then◌else◌, [],
  ◌∷◌, ◌++◌, append_assoc, append-nil, Bytes, All, length, length-append, length-take,
  bytes_eq_refl, take-length-append, drop-length-append,
}
use pacd.Base.Words.{u32_mod}
use pacd.Base.Result.{ok}
use pacd.Wire.Reader.{read_full, read_full-append, put_le, from_le-put_le, length-put_le}
use pacd.Wire.Tx.{Hash}
use pacd.P2p.Message.{
  Message, slice, copy_into, parse_command, checksum, command_bytes, write_message, read_message,
  max_payload_size,
}

slice_at : (i n : ℕ) (a b c : Bytes) → length a ≡ i → length b ≡ n → slice i n (a ++ (b ++ c)) ≡ b
slice_at i n a b c ha hb =
    rw (← ha, ← hb) (rw (drop-length-append a (b ++ c)) (take-length-append b c))

length-copy_into : (n : ℕ) (b : Bytes) → length (copy_into n b) ≡ n
unfolding copy_into
length-copy_into zero b = refl
length-copy_into (suc n) [] = ap suc (length-copy_into n [])
length-copy_into (suc n) (x ∷ xs) = ap suc (length-copy_into n xs)

parse-copy_into_nil : (n : ℕ) → parse_command (copy_into n []) ≡ []
unfolding parse_command copy_into
parse-copy_into_nil zero = refl
parse-copy_into_nil (suc n) = refl

parse_cons :
    (n x : ℕ) (xs : Bytes)
    → (x == 0) ≡ false
    → parse_command (copy_into (suc n) (x ∷ xs)) ≡ x ∷ parse_command (copy_into n xs)
unfolding parse_command copy_into
parse_cons n x xs h = rw h refl

parse-copy_into :
    (n : ℕ) (b : Bytes) → length b ≤ n → All (λ x. 0 < x) b → parse_command (copy_into n b) ≡ b
parse-copy_into n [] h p = parse-copy_into_nil n
parse-copy_into zero (x ∷ xs) h p = absurd (omega arith)
parse-copy_into (suc n) (x ∷ xs) h p =
    let rest = parse-copy_into n xs (omega arith) p.1 in
    let positive : (x == 0) ≡ false = ground (arith, p.0) in
    parse_cons n x xs positive ∙ ap (λ ys. x ∷ ys) rest

fields : (a b c d : Bytes) → a ++ (b ++ (c ++ d)) ≡ (a ++ (b ++ c)) ++ (d ++ [])
fields a b c d = simp (append_assoc, append-nil)

-- The payload is read only where it has a byte.
take_payload :
    (p rest : Bytes)
    → (if ltb 0 (length p) then read_full (length p) (p ++ rest) else ok ([], p ++ rest))
      ≡ ok (p, rest)
take_payload [] rest = refl
take_payload (x ∷ p) rest =
    let some_bytes : ltb 0 (length (x ∷ p)) ≡ true = ground arith in
    rw some_bytes (read_full-append (length (x ∷ p)) (x ∷ p) rest refl)

module _ (sum256 : Bytes → Hash) (trim_space : Bytes → Bytes) where
  -- A command that the fixed field can hold, and that trimming leaves alone.
  pub record IsMessage (msg : Message) : Type 0 where
    pub trimmed : trim_space msg.command ≡ msg.command
    pub command_short : length msg.command ≤ 12
    pub command_nonzero : All (λ x. 0 < x) msg.command
    pub payload_short : length msg.payload ≤ max_payload_size

  length-checksum : (p : Bytes) → length (sum256 p) ≡ 32 → length (checksum sum256 p) ≡ 4
  unfolding checksum
  length-checksum p h = length-take 4 (sum256 p) ∙ rw h refl

  -- A header whose fields are known, and the payload behind it.
  read_frame :
      (magic : ℕ) (msg : Message) (header rest : Bytes)
      → magic < u32_mod
      → IsMessage msg
      → length header ≡ 24
      → slice 0 4 header ≡ put_le 4 magic
      → slice 4 12 header ≡ copy_into 12 msg.command
      → slice 16 4 header ≡ put_le 4 (length msg.payload)
      → slice 20 4 header ≡ checksum sum256 msg.payload
      → read_message sum256 trim_space magic (header ++ (msg.payload ++ rest)) ≡ ok (msg, rest)
  unfolding read_message
  read_frame magic msg header rest hm v size e₁ e₂ e₃ e₄ =
      let len = length msg.payload in
      let n₁ = from_le-put_le 4 magic (omega arith) in
      let n₂ = from_le-put_le 4 len (omega (arith, v.payload_short)) in
      let name = parse-copy_into 12 msg.command v.command_short v.command_nonzero in
      let short : ltb max_payload_size len ≡ false = ground (arith, v.payload_short) in
      let same : (magic == magic) ≡ true = ground arith in
      let sum = bytes_eq_refl (checksum sum256 msg.payload) in
      let body = take_payload msg.payload rest in
      simp (
        read_full-append 24 header (msg.payload ++ rest) size,
        e₁,
        e₂,
        e₃,
        e₄,
        n₁,
        n₂,
        name,
        short,
        same,
        body,
        sum,
      )

  -- A message with a short command without zero bytes or outer white space, and with a payload
  -- of at most 2^20 bytes, is written, and read back under the same magic from what was written;
  -- the reader stops right behind it. The digests of the hash have 32 bytes.
  pub read-write_message :
      (magic : ℕ) (msg : Message) (rest : Bytes)
      → ((b : Bytes) → length (sum256 b) ≡ 32)
      → magic < u32_mod
      → IsMessage msg
      → (s : Bytes) × (write_message sum256 trim_space magic msg ≡ ok s)
        × (read_message sum256 trim_space magic (s ++ rest) ≡ ok (msg, rest))
  unfolding write_message read_message command_bytes
  read-write_message magic msg rest digest hm v =
      let command = copy_into 12 msg.command in
      let size = put_le 4 (length msg.payload) in
      let sum = checksum sum256 msg.payload in
      let header = put_le 4 magic ++ (command ++ (size ++ sum)) in
      let short : ltb max_payload_size (length msg.payload) ≡ false =
        ground (arith, v.payload_short) in
      let length-sum = length-checksum msg.payload (digest msg.payload) in
      let length-command = length-copy_into 12 msg.command in
      let length-header : length header ≡ 24 =
        simp (length-append, length-put_le, length-command, length-sum) in
      let magic_read : slice 0 4 header ≡ put_le 4 magic =
        slice_at 0 4 [] (put_le 4 magic) _ refl (length-put_le 4 magic) in
      let command_read : slice 4 12 header ≡ command =
        slice_at 4 12 (put_le 4 magic) command _ (length-put_le 4 magic) length-command in
      let size_read : slice 16 4 header ≡ size =
        ap (slice 16 4) (sym (append_assoc (put_le 4 magic) command (size ++ sum)))
        ∙ slice_at 16 4 (put_le 4 magic ++ command) size sum
            (simp (length-append, length-put_le, length-command)) (length-put_le 4 _) in
      let sum_read : slice 20 4 header ≡ sum =
        ap (slice 20 4) (fields (put_le 4 magic) command size sum)
        ∙ slice_at 20 4 (put_le 4 magic ++ (command ++ size)) sum []
            (simp (length-append, length-put_le, length-command)) length-sum in
      (
        header ++ msg.payload,
        simp (v.trimmed, short),
        ap (read_message sum256 trim_space magic) (append_assoc header msg.payload rest)
            ∙ read_frame magic msg header rest hm v length-header magic_read command_read size_read
                sum_read,
      )
