-- ===== src/Encoding/Headers.antt =====
-- src/cbor/encoding.c: the public encoders of headers and leaf values that hold no float.
use libcbor.Base.{ℕ, [], ◌∷◌, Bool, if◌then◌else◌, leb}
use libcbor.Encoders.{Output, nothing}
use libcbor.Encoders.{
  encode_uint8_at, encode_uint16_at, encode_uint32_at, encode_uint64_at, encode_uint_at,
}

unfoldable pub encode_uint8 : ℕ → ℕ → Output
unfolding encode_uint8_at
encode_uint8 value buffer_size = encode_uint8_at value buffer_size 0x00

unfoldable pub encode_uint16 : ℕ → ℕ → Output
unfolding encode_uint16_at
encode_uint16 value buffer_size = encode_uint16_at value buffer_size 0x00

unfoldable pub encode_uint32 : ℕ → ℕ → Output
unfolding encode_uint32_at
encode_uint32 value buffer_size = encode_uint32_at value buffer_size 0x00

unfoldable pub encode_uint64 : ℕ → ℕ → Output
unfolding encode_uint64_at
encode_uint64 value buffer_size = encode_uint64_at value buffer_size 0x00

unfoldable pub encode_uint : ℕ → ℕ → Output
unfolding encode_uint_at
encode_uint value buffer_size = encode_uint_at value buffer_size 0x00

unfoldable pub encode_negint8 : ℕ → ℕ → Output
unfolding encode_uint8_at
encode_negint8 value buffer_size = encode_uint8_at value buffer_size 0x20

unfoldable pub encode_negint16 : ℕ → ℕ → Output
unfolding encode_uint16_at
encode_negint16 value buffer_size = encode_uint16_at value buffer_size 0x20

unfoldable pub encode_negint32 : ℕ → ℕ → Output
unfolding encode_uint32_at
encode_negint32 value buffer_size = encode_uint32_at value buffer_size 0x20

unfoldable pub encode_negint64 : ℕ → ℕ → Output
unfolding encode_uint64_at
encode_negint64 value buffer_size = encode_uint64_at value buffer_size 0x20

unfoldable pub encode_negint : ℕ → ℕ → Output
unfolding encode_uint_at
encode_negint value buffer_size = encode_uint_at value buffer_size 0x20

unfoldable pub encode_bytestring_start : ℕ → ℕ → Output
unfolding encode_uint_at
encode_bytestring_start length buffer_size = encode_uint_at length buffer_size 0x40

unfoldable pub encode_byte : ℕ → ℕ → Output
encode_byte value buffer_size =
    if leb 1 buffer_size then record { written = 1; stored = value ∷ [] } else nothing

unfoldable pub encode_indef_bytestring_start : ℕ → Output
unfolding encode_byte
encode_indef_bytestring_start buffer_size = encode_byte 0x5F buffer_size

unfoldable pub encode_string_start : ℕ → ℕ → Output
unfolding encode_uint_at
encode_string_start length buffer_size = encode_uint_at length buffer_size 0x60

unfoldable pub encode_indef_string_start : ℕ → Output
unfolding encode_byte
encode_indef_string_start buffer_size = encode_byte 0x7F buffer_size

unfoldable pub encode_array_start : ℕ → ℕ → Output
unfolding encode_uint_at
encode_array_start length buffer_size = encode_uint_at length buffer_size 0x80

unfoldable pub encode_indef_array_start : ℕ → Output
unfolding encode_byte
encode_indef_array_start buffer_size = encode_byte 0x9F buffer_size

unfoldable pub encode_map_start : ℕ → ℕ → Output
unfolding encode_uint_at
encode_map_start length buffer_size = encode_uint_at length buffer_size 0xA0

unfoldable pub encode_indef_map_start : ℕ → Output
unfolding encode_byte
encode_indef_map_start buffer_size = encode_byte 0xBF buffer_size

unfoldable pub encode_tag : ℕ → ℕ → Output
unfolding encode_uint_at
encode_tag value buffer_size = encode_uint_at value buffer_size 0xC0

unfoldable pub encode_bool : Bool → ℕ → Output
unfolding encode_byte
encode_bool value buffer_size =
    if value then encode_byte 0xF5 buffer_size else encode_byte 0xF4 buffer_size

unfoldable pub encode_null : ℕ → Output
unfolding encode_byte
encode_null buffer_size = encode_byte 0xF6 buffer_size

unfoldable pub encode_undef : ℕ → Output
unfolding encode_byte
encode_undef buffer_size = encode_byte 0xF7 buffer_size

unfoldable pub encode_break : ℕ → Output
unfolding encode_byte
encode_break buffer_size = encode_byte 0xFF buffer_size

unfoldable pub encode_ctrl : ℕ → ℕ → Output
unfolding encode_uint8_at
encode_ctrl value buffer_size = encode_uint8_at value buffer_size 0xE0
