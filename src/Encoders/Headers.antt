-- ===== src/Encoders/Headers.antt =====
-- Every header encoder writes its whole header, or nothing at all where the buffer is too short.
use libcbor.Base.{ℕ, ◌+◌, ◌^◌, ◌≤◌, ◌<◌, ◌≡◌, arith, List, [], ◌∷◌, length}
use libcbor.Base.{if◌then◌else◌, leb}
use libcbor.Encoders.{Output, nothing, byte_at}
use libcbor.Encoders.{
  encode_uint8_at, encode_uint16_at, encode_uint32_at, encode_uint64_at, encode_uint_at,
}

-- An encoder, as a function of the buffer's size, that writes exactly `bytes` if they fit.
abbrev pub Writes : (ℕ → Output) → List ℕ → Type 0
Writes encode bytes =
    (size : ℕ)
    → encode size ≡ (
        if leb (length bytes) size
        then record { written = length bytes; stored = bytes }
        else nothing)

-- The headers as byte lists: the leading byte carries the major type in `offset`.
unfoldable pub header8 : ℕ → ℕ → List ℕ
header8 offset value = if leb value 23 then (value + offset) ∷ [] else (0x18 + offset) ∷ value ∷ []

unfoldable pub header16 : ℕ → ℕ → List ℕ
header16 offset value = (0x19 + offset) ∷ byte_at 8 value ∷ byte_at 0 value ∷ []

unfoldable pub header32 : ℕ → ℕ → List ℕ
header32 offset value =
    (0x1A + offset) ∷ byte_at 24 value ∷ byte_at 16 value ∷ byte_at 8 value ∷ byte_at 0 value ∷ []

unfoldable pub header64 : ℕ → ℕ → List ℕ
header64 offset value =
    (0x1B + offset)
    ∷ byte_at 56 value
    ∷ byte_at 48 value
    ∷ byte_at 40 value
    ∷ byte_at 32 value
    ∷ byte_at 24 value
    ∷ byte_at 16 value
    ∷ byte_at 8 value
    ∷ byte_at 0 value
    ∷ []

unfoldable pub header : ℕ → ℕ → List ℕ
unfolding header8 header16 header32 header64
header offset value =
    if leb value 0xFF
    then header8 offset value
    else (if leb value 0xFFFF
        then header16 offset value
        else if leb value 0xFFFF_FFFF
        then header32 offset value
        else header64 offset value)

pub encode_uint8_at-Writes :
    (value offset : ℕ)
    → offset ≤ 0xE0
    → Writes (λ size. encode_uint8_at value size offset) (header8 offset value)
unfolding encode_uint8_at header8
encode_uint8_at-Writes value offset h size = ground arith

pub encode_uint16_at-Writes :
    (value offset : ℕ)
    → offset ≤ 0xE0
    → Writes (λ size. encode_uint16_at value size offset) (header16 offset value)
unfolding encode_uint16_at header16
encode_uint16_at-Writes value offset h size = ground arith

pub encode_uint32_at-Writes :
    (value offset : ℕ)
    → offset ≤ 0xE0
    → Writes (λ size. encode_uint32_at value size offset) (header32 offset value)
unfolding encode_uint32_at header32
encode_uint32_at-Writes value offset h size = ground arith

pub encode_uint64_at-Writes :
    (value offset : ℕ)
    → offset ≤ 0xE0
    → Writes (λ size. encode_uint64_at value size offset) (header64 offset value)
unfolding encode_uint64_at header64
encode_uint64_at-Writes value offset h size = ground arith

-- For a value below 2 ^ 64 and the offset of a major type, `_cbor_encode_uint` writes the shortest header
-- of the value and returns its length if the buffer has room for it; otherwise it writes nothing and
-- returns 0.
pub encode_uint_at-Writes :
    (value offset : ℕ)
    → value < 2 ^ 64
    → offset ≤ 0xE0
    → Writes (λ size. encode_uint_at value size offset) (header offset value)
unfolding encode_uint_at header
encode_uint_at-Writes value offset h k size = ground arith
