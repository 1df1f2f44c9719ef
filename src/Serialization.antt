-- ===== src/Serialization.antt =====
-- src/cbor/serialization.c: items to bytes.
pub mod Size
pub mod SizeOfWire
pub mod Wire
pub mod Emits
pub mod Rfc
pub mod Refines
use libcbor.Base.{ℕ, ◌+◌, ◌-◌, ◌≤◌, List, [], ◌∷◌, ◌++◌, ◌&&◌}
use libcbor.Base.{length, if◌then◌else◌, ltb, leb, ◌==◌}
use libcbor.Encoders.{Output}
use libcbor.Encoding.{
  encode_uint8, encode_uint16, encode_uint32, encode_uint64, encode_negint8, encode_negint16,
  encode_negint32, encode_negint64, encode_bytestring_start, encode_indef_bytestring_start,
  encode_string_start, encode_indef_string_start, encode_array_start, encode_indef_array_start,
  encode_map_start, encode_indef_map_start, encode_tag, encode_ctrl, encode_half, encode_single,
  encode_double, encode_break,
}
use libcbor.Items.{Metadata, IntWidth, StringData, Item, Items, Pairs, count, count_pairs}
use libcbor.Loaders.{FloatOps}

unfoldable pub serialize_uint : IntWidth → ℕ → ℕ → Output
unfolding encode_uint8 encode_uint16 encode_uint32 encode_uint64
serialize_uint IntWidth.int8 value buffer_size = encode_uint8 value buffer_size
serialize_uint IntWidth.int16 value buffer_size = encode_uint16 value buffer_size
serialize_uint IntWidth.int32 value buffer_size = encode_uint32 value buffer_size
serialize_uint IntWidth.int64 value buffer_size = encode_uint64 value buffer_size

unfoldable pub serialize_negint : IntWidth → ℕ → ℕ → Output
unfolding encode_negint8 encode_negint16 encode_negint32 encode_negint64
serialize_negint IntWidth.int8 value buffer_size = encode_negint8 value buffer_size
serialize_negint IntWidth.int16 value buffer_size = encode_negint16 value buffer_size
serialize_negint IntWidth.int32 value buffer_size = encode_negint32 value buffer_size
serialize_negint IntWidth.int64 value buffer_size = encode_negint64 value buffer_size

-- A header, and the bytes of a definite string behind it if they fit too; the header stays in the
-- buffer where they do not.
unfoldable pub write_counted : Output → List ℕ → ℕ → Output
write_counted start bytes buffer_size =
    if ltb 0 start.written && leb (length bytes) (buffer_size - start.written)
    then record { written = start.written + length bytes; stored = start.stored ++ bytes }
    else record { written = 0; stored = start.stored }

unfoldable pub serialize_definite_bytestring : List ℕ → ℕ → Output
unfolding write_counted encode_bytestring_start
serialize_definite_bytestring bytes buffer_size =
    write_counted (encode_bytestring_start (length bytes) buffer_size) bytes buffer_size

unfoldable pub serialize_definite_string : StringData → ℕ → Output
unfolding write_counted encode_string_start
serialize_definite_string s buffer_size =
    write_counted (encode_string_start (length s.bytes) buffer_size) s.bytes buffer_size

-- One round of the loops below: `w = encode(…, buffer + written, buffer_size - written);
-- if (w == 0) return 0; written += w;`. Once `written` is 0, the function has returned.
unfoldable pub write_next : ℕ → (ℕ → Output) → Output → Output
write_next buffer_size encode so_far =
    if so_far.written == 0
    then so_far
    else (let next = encode (buffer_size - so_far.written) in
        record {
          written = if next.written == 0 then 0 else so_far.written + next.written;
          stored = so_far.stored ++ next.stored;
        })

unfoldable pub serialize_byte_chunks : List (List ℕ) → ℕ → Output → Output
unfolding write_next serialize_definite_bytestring
serialize_byte_chunks [] buffer_size so_far = so_far
serialize_byte_chunks (chunk ∷ chunks) buffer_size so_far =
    serialize_byte_chunks chunks buffer_size
      (write_next buffer_size (serialize_definite_bytestring chunk) so_far)

unfoldable pub serialize_string_chunks : List StringData → ℕ → Output → Output
unfolding write_next serialize_definite_string
serialize_string_chunks [] buffer_size so_far = so_far
serialize_string_chunks (chunk ∷ chunks) buffer_size so_far =
    serialize_string_chunks chunks buffer_size
      (write_next buffer_size (serialize_definite_string chunk) so_far)

unfoldable pub serialize_bytestring : ℕ → List (List ℕ) → ℕ → Output
unfolding encode_indef_bytestring_start encode_break serialize_byte_chunks
serialize_bytestring capacity chunks buffer_size =
    write_next buffer_size encode_break
      (serialize_byte_chunks chunks buffer_size (encode_indef_bytestring_start buffer_size))

unfoldable pub serialize_string : ℕ → List StringData → ℕ → Output
unfolding encode_indef_string_start encode_break serialize_string_chunks
serialize_string capacity chunks buffer_size =
    write_next buffer_size encode_break
      (serialize_string_chunks chunks buffer_size (encode_indef_string_start buffer_size))

-- The header of an array or a map, by its metadata, and the break that ends an indefinite one.
unfoldable pub array_start : Metadata → ℕ → ℕ → Output
unfolding encode_array_start encode_indef_array_start
array_start Metadata.definite size buffer_size = encode_array_start size buffer_size
array_start Metadata.indefinite size buffer_size = encode_indef_array_start buffer_size

unfoldable pub map_start : Metadata → ℕ → ℕ → Output
unfolding encode_map_start encode_indef_map_start
map_start Metadata.definite size buffer_size = encode_map_start size buffer_size
map_start Metadata.indefinite size buffer_size = encode_indef_map_start buffer_size

unfoldable pub finish : Metadata → ℕ → Output → Output
unfolding write_next encode_break
finish Metadata.definite buffer_size so_far = so_far
finish Metadata.indefinite buffer_size so_far = write_next buffer_size encode_break so_far

module _ (ops : FloatOps) where
  unfoldable mutual
    unfolding serialize_uint serialize_negint serialize_definite_bytestring
        serialize_definite_string serialize_bytestring serialize_string array_start map_start finish
        write_next encode_tag encode_ctrl encode_half encode_single encode_double

    pub serialize : Item → ℕ → Output
    serialize (Item.uint w v) buffer_size = serialize_uint w v buffer_size
    serialize (Item.negint w v) buffer_size = serialize_negint w v buffer_size
    serialize (Item.bytestring bytes) buffer_size = serialize_definite_bytestring bytes buffer_size
    serialize (Item.indef_bytestring capacity chunks) buffer_size =
        serialize_bytestring capacity chunks buffer_size
    serialize (Item.string s) buffer_size = serialize_definite_string s buffer_size
    serialize (Item.indef_string capacity chunks) buffer_size =
        serialize_string capacity chunks buffer_size
    serialize (Item.array d allocated xs) buffer_size =
        finish d buffer_size (serialize_items xs buffer_size (array_start d (count xs) buffer_size))
    serialize (Item.map d allocated ps) buffer_size =
        finish d buffer_size
          (serialize_pairs ps buffer_size (map_start d (count_pairs ps) buffer_size))
    serialize (Item.tag v x) buffer_size =
        write_next buffer_size (serialize x) (encode_tag v buffer_size)
    serialize (Item.ctrl v) buffer_size = encode_ctrl v buffer_size
    serialize (Item.float2 v) buffer_size = encode_half ops v buffer_size
    serialize (Item.float4 v) buffer_size = encode_single ops v buffer_size
    serialize (Item.float8 v) buffer_size = encode_double ops v buffer_size

    -- The loop of `cbor_serialize_array`.
    pub serialize_items : Items → ℕ → Output → Output
    serialize_items Items.nil buffer_size so_far = so_far
    serialize_items (Items.cons x xs) buffer_size so_far =
        serialize_items xs buffer_size (write_next buffer_size (serialize x) so_far)

    -- The loop of `cbor_serialize_map`.
    pub serialize_pairs : Pairs → ℕ → Output → Output
    serialize_pairs Pairs.end buffer_size so_far = so_far
    serialize_pairs (Pairs.pair k v ps) buffer_size so_far =
        serialize_pairs ps buffer_size
          (write_next buffer_size (serialize v) (write_next buffer_size (serialize k) so_far))
