-- ===== src/Wire/Header/Decode.antt =====
-- Every string of 180 bytes is a header.
use pacd.Base.{ℕ, ◌<◌, ◌≡◌, [], ◌∷◌, append-nil, arith, Bytes, IsByte, All, length}
use pacd.Base.Int.{pos, ◌≤ℤ◌}
use pacd.Base.Words.{
  of_u32, of_u64, to_u32-of_u32, to_u64-of_u64, of_u32-IsInt32, of_u64-IsInt64, to_u32,
}
use pacd.Base.Result.{ok}
use pacd.Wire.Reader.{LeFront, BytesFront, take_le, take_bytes}
use pacd.Wire.Header.{BlockHeader, header_bytes, serialize_header, deserialize_header}
use pacd.Wire.Header.RoundTrip.{IsHeader, serialize_header-eq-ok, read_header-header_bytes}

length_zero : (s : Bytes) → length s ≡ 0 → s ≡ []
length_zero [] h = ground arith
length_zero (x ∷ s) h = absurd (omega arith)

to_u32-pos : (n : ℕ) → n < 4294967296 → to_u32 (pos n) ≡ n
unfolding to_u32
to_u32-pos n h = omega arith

pos_range : (n : ℕ) → n < 4294967296 → (pos 0 ≤ℤ pos n) × (pos n ≤ℤ pos 4294967295)
pos_range n h = (omega arith, omega arith)

IsHeader-of_bytes :
    (s : Bytes)
    → All IsByte s
    → length s ≡ 180
    → (h : BlockHeader) × IsHeader h × (s ≡ header_bytes h)
unfolding header_bytes
IsHeader-of_bytes s hs len = elim (take_le 4 176 s hs len) [
  | LeFront.front version s₁ e₁ b₁ a₁ l₁ ↦ elim (take_bytes 32 144 s₁ a₁ l₁) [
    | BytesFront.front prev s₂ e₂ b₂ a₂ l₂ ↦ elim (take_bytes 32 112 s₂ a₂ l₂) [
      | BytesFront.front merkle s₃ e₃ b₃ a₃ l₃ ↦ elim (take_bytes 32 80 s₃ a₃ l₃) [
        | BytesFront.front stake s₄ e₄ b₄ a₄ l₄ ↦ elim (take_le 2 78 s₄ a₄ l₄) [
          | LeFront.front vote_bits s₅ e₅ b₅ a₅ l₅ ↦ elim (take_bytes 6 72 s₅ a₅ l₅) [
            | BytesFront.front final s₆ e₆ b₆ a₆ l₆ ↦ elim (take_le 2 70 s₆ a₆ l₆) [
              | LeFront.front voters s₇ e₇ b₇ a₇ l₇ ↦ elim (take_le 1 69 s₇ a₇ l₇) [
                | LeFront.front fresh s₈ e₈ b₈ a₈ l₈ ↦ elim (take_le 1 68 s₈ a₈ l₈) [
                  | LeFront.front revocations s₉ e₉ b₉ a₉ l₉ ↦ elim (take_le 4 64 s₉ a₉ l₉) [
                    | LeFront.front pool s₁₀ e₁₀ b₁₀ a₁₀ l₁₀ ↦ elim (take_le 4 60 s₁₀ a₁₀ l₁₀) [
                      | LeFront.front bits s₁₁ e₁₁ b₁₁ a₁₁ l₁₁ ↦ elim (take_le 8 52 s₁₁ a₁₁ l₁₁) [
                        | LeFront.front s_bits s₁₂ e₁₂ b₁₂ a₁₂ l₁₂ ↦
                            elim (take_le 4 48 s₁₂ a₁₂ l₁₂) [
                              | LeFront.front height s₁₃ e₁₃ b₁₃ a₁₃ l₁₃ ↦
                                  elim (take_le 4 44 s₁₃ a₁₃ l₁₃) [
                                    | LeFront.front size s₁₄ e₁₄ b₁₄ a₁₄ l₁₄ ↦
                                        elim (take_le 4 40 s₁₄ a₁₄ l₁₄) [
                                          | LeFront.front time s₁₅ e₁₅ b₁₅ a₁₅ l₁₅ ↦
                                              elim (take_le 4 36 s₁₅ a₁₅ l₁₅) [
                                                | LeFront.front nonce s₁₆ e₁₆ b₁₆ a₁₆ l₁₆ ↦
                                                    elim (take_bytes 32 4 s₁₆ a₁₆ l₁₆) [
                                                      | BytesFront.front extra s₁₇ e₁₇ b₁₇ a₁₇ l₁₇ ↦
                                                          elim (take_le 4 0 s₁₇ a₁₇ l₁₇) [
                                                            | LeFront.front stake_version s₁₈ e₁₈
                                                              b₁₈ a₁₈ l₁₈ ↦
                                                              (
                                                              record {
                                                              version = of_u32 version;
                                                              prev_block = prev;
                                                              merkle_root = merkle;
                                                              stake_root = stake;
                                                              vote_bits = vote_bits;
                                                              final_state = final;
                                                              voters = voters;
                                                              fresh_stake = fresh;
                                                              revocations = revocations;
                                                              pool_size = pool;
                                                              bits = bits;
                                                              s_bits = of_u64 s_bits;
                                                              height = height;
                                                              size = size;
                                                              timestamp = pos time;
                                                              nonce = nonce;
                                                              extra_data = extra;
                                                              stake_version = stake_version;
                                                              },
                                                              record {
                                                              version = of_u32-IsInt32 version b₁;
                                                              prev_block = b₂;
                                                              merkle_root = b₃;
                                                              stake_root = b₄;
                                                              vote_bits = b₅;
                                                              final_state = b₆;
                                                              voters = b₇;
                                                              fresh_stake = b₈;
                                                              revocations = b₉;
                                                              pool_size = b₁₀;
                                                              bits = b₁₁;
                                                              s_bits = of_u64-IsInt64 s_bits b₁₂;
                                                              height = b₁₃;
                                                              size = b₁₄;
                                                              timestamp_low =
                                                              (pos_range time b₁₅).0;
                                                              timestamp_high =
                                                              (pos_range time b₁₅).1;
                                                              nonce = b₁₆;
                                                              extra_data = b₁₇;
                                                              stake_version = b₁₈;
                                                              },
                                                              simp (
                                                              e₁,
                                                              e₂,
                                                              e₃,
                                                              e₄,
                                                              e₅,
                                                              e₆,
                                                              e₇,
                                                              e₈,
                                                              e₉,
                                                              e₁₀,
                                                              e₁₁,
                                                              e₁₂,
                                                              e₁₃,
                                                              e₁₄,
                                                              e₁₅,
                                                              e₁₆,
                                                              e₁₇,
                                                              e₁₈,
                                                              length_zero s₁₈ l₁₈,
                                                              to_u32-of_u32 version b₁,
                                                              to_u64-of_u64 s_bits b₁₂,
                                                              to_u32-pos time b₁₅,
                                                              ),
                                                              )
                                                          ]
                                                    ]
                                              ]
                                        ]
                                  ]
                            ]
                      ]
                    ]
                  ]
                ]
              ]
            ]
          ]
        ]
      ]
    ]
  ]
]

-- Every 180 bytes are accepted by `DeserializeBlockHeader`, and serializing the header that it
-- returns gives the same bytes: the encoding has one form only.
pub serialize-deserialize_header :
    (s : Bytes)
    → All IsByte s
    → length s ≡ 180
    → (h : BlockHeader) × (deserialize_header s ≡ ok h) × (serialize_header h ≡ ok s)
unfolding deserialize_header
serialize-deserialize_header s hs len =
    let (h, v, e) = IsHeader-of_bytes s hs len in
    (
      h,
      rw (e, ← append-nil (header_bytes h)) (rw (read_header-header_bytes h [] v)),
      rw e (serialize_header-eq-ok h v),
    )
