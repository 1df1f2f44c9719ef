-- ===== src/Encoders.antt =====
-- src/cbor/internal/encoders.c: the big-endian headers of CBOR items.
pub mod Headers
use libcbor.Base.{ℕ, ◌+◌, ◌/◌, ◌%◌, ◌^◌, List, [], ◌∷◌, if◌then◌else◌, ltb, leb}

-- What an encoder does with the buffer that it is given: the bytes that it stores there, from the
-- buffer's start on, and the number that it returns. The bytes behind the stored ones stay as they
-- were.
pub record Output : Type 0 where
  pub written : ℕ
  pub stored : List ℕ

-- Nothing is stored, and 0 is returned.
abbrev pub nothing : Output
nothing = record { written = 0; stored = [] }

-- `(unsigned char)(value >> k)`.
abbrev pub byte_at : ℕ → ℕ → ℕ
byte_at k value = value / 2 ^ k % 256

unfoldable pub encode_uint8_at : ℕ → ℕ → ℕ → Output
encode_uint8_at value buffer_size offset =
    if leb value 23
    then (if leb 1 buffer_size
        then record { written = 1; stored = ((value + offset) % 256) ∷ [] }
        else nothing)
    else (if leb 2 buffer_size
        then record { written = 2; stored = ((0x18 + offset) % 256) ∷ value ∷ [] }
        else nothing)

unfoldable pub encode_uint16_at : ℕ → ℕ → ℕ → Output
encode_uint16_at value buffer_size offset = if ltb buffer_size 3 then nothing else record {
  written = 3;
  stored = ((0x19 + offset) % 256) ∷ byte_at 8 value ∷ byte_at 0 value ∷ [];
}

unfoldable pub encode_uint32_at : ℕ → ℕ → ℕ → Output
encode_uint32_at value buffer_size offset = if ltb buffer_size 5 then nothing else record {
  written = 5;
  stored =
      ((0x1A + offset) % 256)
      ∷ byte_at 24 value
      ∷ byte_at 16 value
      ∷ byte_at 8 value
      ∷ byte_at 0 value
      ∷ [];
}

unfoldable pub encode_uint64_at : ℕ → ℕ → ℕ → Output
encode_uint64_at value buffer_size offset =
    if leb 9 buffer_size
    then record {
      written = 9;
      stored =
          ((0x1B + offset) % 256)
          ∷ byte_at 56 value
          ∷ byte_at 48 value
          ∷ byte_at 40 value
          ∷ byte_at 32 value
          ∷ byte_at 24 value
          ∷ byte_at 16 value
          ∷ byte_at 8 value
          ∷ byte_at 0 value
          ∷ [];
    }
    else nothing

-- The shortest of the four headers.
unfoldable pub encode_uint_at : ℕ → ℕ → ℕ → Output
unfolding encode_uint8_at encode_uint16_at encode_uint32_at encode_uint64_at
encode_uint_at value buffer_size offset =
    if leb value 0xFFFF
    then (if leb value 0xFF
        then encode_uint8_at (value % 2 ^ 8) buffer_size offset
        else encode_uint16_at (value % 2 ^ 16) buffer_size offset)
    else (if leb value 0xFFFF_FFFF
        then encode_uint32_at (value % 2 ^ 32) buffer_size offset
        else encode_uint64_at (value % 2 ^ 64) buffer_size offset)
