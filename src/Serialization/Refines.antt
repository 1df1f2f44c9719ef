-- ===== src/Serialization/Refines.antt =====
-- cbor_serialize refines the reference encoding, on every item and every size of the buffer.
use libcbor.Base.{ℕ, ◌≤◌, ◌<◌, ◌^◌, arith}
use libcbor.Base.{List, [], ◌∷◌, ◌++◌, append-nil, append_assoc, length, length-append, All}
use libcbor.Base.{if◌then◌else◌, true, false, Bool}
use libcbor.Encoders.{Output}
use libcbor.Encoders.{encode_uint32_at, encode_uint64_at}
use libcbor.Encoders.Headers.{header32, header64, header}
use libcbor.Encoding.{
  encode_bytestring_start, encode_indef_bytestring_start, encode_string_start,
  encode_indef_string_start, encode_array_start, encode_indef_array_start, encode_map_start,
  encode_indef_map_start, encode_tag, encode_ctrl, encode_single, encode_double, encode_break,
  half_bits,
}
use libcbor.Base.{fun_ext}
use libcbor.Encoding.Halves.{encode_half-half_bits}
use libcbor.Items.{Metadata, IntWidth, StringData, Item, Items, Pairs, count, count_pairs, IsTyped}
use libcbor.Items.{AreTyped, PairsAreTyped, IsByteString}
use libcbor.Loaders.{FloatOps}
use libcbor.Serialization.{
  serialize_uint, serialize_negint, serialize_definite_bytestring, serialize_definite_string,
  serialize_byte_chunks, serialize_string_chunks, serialize_bytestring, serialize_string,
  array_start, map_start, finish, serialize, serialize_items, serialize_pairs,
}
use libcbor.Serialization.Wire.{int_header, counted_bytes, byte_chunks, string_chunks, front, back}
use libcbor.Serialization.Wire.{wire, wire_items, wire_pairs}
use libcbor.Serialization.Emits.{
  Holds, Emits, write_next-Holds, write_counted-Emits, encode_byte-Emits, header-Emits,
  header8-Emits, header16-Emits, header32-Emits, header64-Emits,
}

serialize_uint-Emits : (w : IntWidth) (v : ℕ) → Emits (serialize_uint w v) (int_header 0x00 w v)
unfolding serialize_uint int_header
serialize_uint-Emits IntWidth.int8 v = header8-Emits v 0x00 (omega arith)
serialize_uint-Emits IntWidth.int16 v = header16-Emits v 0x00 (omega arith)
serialize_uint-Emits IntWidth.int32 v = header32-Emits v 0x00 (omega arith)
serialize_uint-Emits IntWidth.int64 v = header64-Emits v 0x00 (omega arith)

serialize_negint-Emits : (w : IntWidth) (v : ℕ) → Emits (serialize_negint w v) (int_header 0x20 w v)
unfolding serialize_negint int_header
serialize_negint-Emits IntWidth.int8 v = header8-Emits v 0x20 (omega arith)
serialize_negint-Emits IntWidth.int16 v = header16-Emits v 0x20 (omega arith)
serialize_negint-Emits IntWidth.int32 v = header32-Emits v 0x20 (omega arith)
serialize_negint-Emits IntWidth.int64 v = header64-Emits v 0x20 (omega arith)

serialize_definite_bytestring-Emits :
    (bytes : List ℕ)
    → IsByteString bytes
    → Emits (serialize_definite_bytestring bytes) (counted_bytes 0x40 bytes)
unfolding serialize_definite_bytestring encode_bytestring_start counted_bytes
serialize_definite_bytestring-Emits bytes h =
    write_counted-Emits bytes (header-Emits (length bytes) 0x40 h (omega arith))

serialize_definite_string-Emits :
    (s : StringData)
    → IsByteString s.bytes
    → Emits (serialize_definite_string s) (counted_bytes 0x60 s.bytes)
unfolding serialize_definite_string encode_string_start counted_bytes
serialize_definite_string-Emits s h =
    write_counted-Emits s.bytes (header-Emits (length s.bytes) 0x60 h (omega arith))

-- Bytes written so far are not empty, and stay so.
longer : (bytes more : List ℕ) → 1 ≤ length bytes → 1 ≤ length (bytes ++ more)
longer bytes more h = omega (arith, length-append bytes more)

serialize_byte_chunks-Holds :
    (cs : List (List ℕ)) (size : ℕ) (so_far : Output) (bytes : List ℕ)
    → All IsByteString cs
    → 1 ≤ length bytes
    → Holds size bytes so_far
    → Holds size (bytes ++ byte_chunks cs) (serialize_byte_chunks cs size so_far)
unfolding serialize_byte_chunks byte_chunks
serialize_byte_chunks-Holds [] size so_far bytes h k before = rw (append-nil bytes) before
serialize_byte_chunks-Holds (c ∷ cs) size so_far bytes h k before =
    rw (← append_assoc bytes (counted_bytes 0x40 c) (byte_chunks cs)) (
      serialize_byte_chunks-Holds cs size _ (bytes ++ counted_bytes 0x40 c) h.1 (longer bytes _ k)
        (write_next-Holds k before (serialize_definite_bytestring-Emits c h.0)))

serialize_string_chunks-Holds :
    (cs : List StringData) (size : ℕ) (so_far : Output) (bytes : List ℕ)
    → All (λ c. IsByteString c.bytes) cs
    → 1 ≤ length bytes
    → Holds size bytes so_far
    → Holds size (bytes ++ string_chunks cs) (serialize_string_chunks cs size so_far)
unfolding serialize_string_chunks string_chunks
serialize_string_chunks-Holds [] size so_far bytes h k before = rw (append-nil bytes) before
serialize_string_chunks-Holds (c ∷ cs) size so_far bytes h k before =
    rw (← append_assoc bytes (counted_bytes 0x60 c.bytes) (string_chunks cs)) (
      serialize_string_chunks-Holds cs size _ (bytes ++ counted_bytes 0x60 c.bytes) h.1
        (longer bytes _ k) (write_next-Holds k before (serialize_definite_string-Emits c h.0)))

serialize_bytestring-Emits :
    (capacity : ℕ) (cs : List (List ℕ))
    → All IsByteString cs
    → Emits (serialize_bytestring capacity cs) (0x5F ∷ (byte_chunks cs ++ 0xFF ∷ []))
unfolding serialize_bytestring encode_indef_bytestring_start encode_break
serialize_bytestring-Emits capacity cs h = record {
  nonempty = omega arith;
  holds = λ size.
      write_next-Holds (omega arith)
        (serialize_byte_chunks-Holds cs size _ (0x5F ∷ []) h (omega arith)
          ((encode_byte-Emits 0x5F).holds size))
        (encode_byte-Emits 0xFF);
}

serialize_string-Emits :
    (capacity : ℕ) (cs : List StringData)
    → All (λ c. IsByteString c.bytes) cs
    → Emits (serialize_string capacity cs) (0x7F ∷ (string_chunks cs ++ 0xFF ∷ []))
unfolding serialize_string encode_indef_string_start encode_break
serialize_string-Emits capacity cs h = record {
  nonempty = omega arith;
  holds = λ size.
      write_next-Holds (omega arith)
        (serialize_string_chunks-Holds cs size _ (0x7F ∷ []) h (omega arith)
          ((encode_byte-Emits 0x7F).holds size))
        (encode_byte-Emits 0xFF);
}

array_start-Emits : (d : Metadata) (n : ℕ) → n < 2 ^ 64 → Emits (array_start d n) (front d 0x80 n)
unfolding array_start encode_array_start encode_indef_array_start
array_start-Emits Metadata.definite n h = header-Emits n 0x80 h (omega arith)
array_start-Emits Metadata.indefinite n h = encode_byte-Emits 0x9F

map_start-Emits : (d : Metadata) (n : ℕ) → n < 2 ^ 64 → Emits (map_start d n) (front d 0xA0 n)
unfolding map_start encode_map_start encode_indef_map_start
map_start-Emits Metadata.definite n h = header-Emits n 0xA0 h (omega arith)
map_start-Emits Metadata.indefinite n h = encode_byte-Emits 0xBF

finish-Holds :
    (d : Metadata) (size : ℕ) (so_far : Output) (bytes : List ℕ)
    → 1 ≤ length bytes
    → Holds size bytes so_far
    → Holds size (bytes ++ back d) (finish d size so_far)
unfolding finish encode_break
finish-Holds Metadata.definite size so_far bytes k before = rw (append-nil bytes) before
finish-Holds Metadata.indefinite size so_far bytes k before =
    write_next-Holds k before (encode_byte-Emits 0xFF)

header32_either-Emits :
    (c : Bool) (a b : ℕ)
    → Emits
        (λ size. if c then encode_uint32_at a size 0xE0 else encode_uint32_at b size 0xE0)
        (header32 0xE0 (if c then a else b))
header32_either-Emits true a b = header32-Emits a 0xE0 (omega arith)
header32_either-Emits false a b = header32-Emits b 0xE0 (omega arith)

header64_either-Emits :
    (c : Bool) (a b : ℕ)
    → Emits
        (λ size. if c then encode_uint64_at a size 0xE0 else encode_uint64_at b size 0xE0)
        (header64 0xE0 (if c then a else b))
header64_either-Emits true a b = header64-Emits a 0xE0 (omega arith)
header64_either-Emits false a b = header64-Emits b 0xE0 (omega arith)

mutual
  unfolding serialize wire encode_tag encode_ctrl encode_single encode_double

  serialize-Emits_lem :
      (ops : FloatOps) (x : Item) → IsTyped x → Emits (serialize ops x) (wire ops x)
  serialize-Emits_lem ops (Item.uint w v) h = serialize_uint-Emits w v
  serialize-Emits_lem ops (Item.negint w v) h = serialize_negint-Emits w v
  serialize-Emits_lem ops (Item.bytestring bytes) h = serialize_definite_bytestring-Emits bytes h
  serialize-Emits_lem ops (Item.indef_bytestring capacity chunks) h =
      serialize_bytestring-Emits capacity chunks h
  serialize-Emits_lem ops (Item.string s) h = serialize_definite_string-Emits s h
  serialize-Emits_lem ops (Item.indef_string capacity chunks) h =
      serialize_string-Emits capacity chunks h
  serialize-Emits_lem ops (Item.array d allocated xs) (small, typed) =
      let start = array_start-Emits d (count xs) small in
      record {
        nonempty = longer (front d 0x80 (count xs)) _ start.nonempty;
        holds = λ size. rw (← append_assoc (front d 0x80 (count xs)) (wire_items ops xs) (back d)) (
            finish-Holds d size _ _ (longer (front d 0x80 (count xs)) _ start.nonempty)
              (serialize_items-Holds ops xs size _ _ typed start.nonempty (start.holds size)));
      }
  serialize-Emits_lem ops (Item.map d allocated ps) (small, typed) =
      let start = map_start-Emits d (count_pairs ps) small in
      record {
        nonempty = longer (front d 0xA0 (count_pairs ps)) _ start.nonempty;
        holds = λ size.
            rw (← append_assoc (front d 0xA0 (count_pairs ps)) (wire_pairs ops ps) (back d)) (
              finish-Holds d size _ _ (longer (front d 0xA0 (count_pairs ps)) _ start.nonempty)
                (serialize_pairs-Holds ops ps size _ _ typed start.nonempty (start.holds size)));
      }
  serialize-Emits_lem ops (Item.tag v x) (small, typed) =
      let start = header-Emits v 0xC0 small (omega arith) in
      record {
        nonempty = longer (header 0xC0 v) _ start.nonempty;
        holds = λ size.
            write_next-Holds start.nonempty (start.holds size) (serialize-Emits_lem ops x typed);
      }
  serialize-Emits_lem ops (Item.ctrl v) h = header8-Emits v 0xE0 (omega arith)
  serialize-Emits_lem ops (Item.float2 v) h =
      rw (fun_ext (encode_half-half_bits ops v))
        (header16-Emits (half_bits ops v) 0xE0 (omega arith))
  serialize-Emits_lem ops (Item.float4 v) h =
      header32_either-Emits (ops.isnan_float v) 0x7FC0_0000 v
  serialize-Emits_lem ops (Item.float8 v) h =
      header64_either-Emits (ops.isnan_double v) 0x7FF8_0000_0000_0000 v

  serialize_items-Holds :
      (ops : FloatOps) (xs : Items) (size : ℕ) (so_far : Output) (bytes : List ℕ)
      → AreTyped xs
      → 1 ≤ length bytes
      → Holds size bytes so_far
      → Holds size (bytes ++ wire_items ops xs) (serialize_items ops xs size so_far)
  serialize_items-Holds ops Items.nil size so_far bytes typed k before =
      rw (append-nil bytes) before
  serialize_items-Holds ops (Items.cons x xs) size so_far bytes typed k before =
      rw (← append_assoc bytes (wire ops x) (wire_items ops xs)) (
        serialize_items-Holds ops xs size _ _ typed.1 (longer bytes _ k)
          (write_next-Holds k before (serialize-Emits_lem ops x typed.0)))

  serialize_pairs-Holds :
      (ops : FloatOps) (ps : Pairs) (size : ℕ) (so_far : Output) (bytes : List ℕ)
      → PairsAreTyped ps
      → 1 ≤ length bytes
      → Holds size bytes so_far
      → Holds size (bytes ++ wire_pairs ops ps) (serialize_pairs ops ps size so_far)
  serialize_pairs-Holds ops Pairs.end size so_far bytes typed k before =
      rw (append-nil bytes) before
  serialize_pairs-Holds ops (Pairs.pair key v ps) size so_far bytes typed k before =
      let k' = longer bytes (wire ops key) k in
      rw
        (
          ← append_assoc bytes (wire ops key) (wire ops v ++ wire_pairs ops ps),
          ← append_assoc (bytes ++ wire ops key) (wire ops v) (wire_pairs ops ps),
        )
        (serialize_pairs-Holds ops ps size _ _ typed.2 (longer (bytes ++ wire ops key) _ k') (
          write_next-Holds k' (write_next-Holds k before (serialize-Emits_lem ops key typed.0))
            (serialize-Emits_lem ops v typed.1)))

-- On an item whose values fit their C types, cbor_serialize returns the length of the item's `wire` and
-- has stored exactly that, if it fits into the buffer; otherwise it returns 0. In both cases it
-- has stored no more bytes than the buffer has.
pub serialize-Emits : (ops : FloatOps) (x : Item) → IsTyped x → Emits (serialize ops x) (wire ops x)
serialize-Emits ops x h = serialize-Emits_lem ops x h
