-- ===== src/Load/Leaves.antt =====
-- cbor_load's loop on the encoding of items that are not containers.
use libcbor.Base.{ℕ, ◌^◌, ◌≤◌, ◌<◌, ◌≡◌, arith}
use libcbor.Base.{List, [], ◌∷◌, ◌++◌, Option}
use libcbor.Base.{length, length-append, append_assoc}
use libcbor.Builder.{Frame, handle, append_to, append}
use libcbor.Builder.Plenty.{clean}
use libcbor.Containers.{string_of}
use libcbor.Encoders.Headers.{header8, header16, header32, header64, header}
use libcbor.Items.{Item, IntWidth, width_mod, IsByteString}
use libcbor.Load.{Loaded}
use libcbor.Load.Decoded.{half_bits-lt}
use libcbor.Load.Steps.{Runs, After, load_step, IsFree, add_byte_string-IsFree, add_string-IsFree}
use libcbor.Loaders.{FloatOps, half_value}
use libcbor.Encoding.{half_bits}
use libcbor.Serialization.Wire.{int_header, counted_bytes}
use native.Mathlib.Decide.{dec_le}
use libcbor.Streaming.{Event}
use libcbor.Streaming.Encoded.{stream_decode-byte_string, stream_decode-string}
use libcbor.Streaming.EncodedLeaves.{
  stream_decode-uint8, stream_decode-uint16, stream_decode-uint32, stream_decode-uint64,
  stream_decode-negint8, stream_decode-negint16, stream_decode-negint32, stream_decode-negint64,
  stream_decode-float2, stream_decode-float4, stream_decode-float8, stream_decode-false,
  stream_decode-true, stream_decode-null, stream_decode-undefined,
}

pub header8_pos : (offset v : ℕ) → 1 ≤ length (header8 offset v)
unfolding header8
header8_pos offset v = ground arith

pub header_pos : (offset v : ℕ) → 1 ≤ length (header offset v)
unfolding header header8 header16 header32 header64
header_pos offset v = ground arith

module _ (ops : FloatOps) (total : ℕ) (result : Loaded) (rest : List ℕ) (r : Option Item)
    (s : List Frame) where
  -- The item has come in, and the loop goes on.
  abbrev Goes : Item → Type 0
  Goes x = After ops total result rest (append_to s x (clean r s))

  abbrev Reads : List ℕ → Type 0
  Reads bytes = Runs ops total result (bytes ++ rest) (clean r s)

  pub Reads-uint :
      (w : IntWidth) (v : ℕ) → v < width_mod w → Goes (Item.uint w v) → Reads (int_header 0x00 w v)
  unfolding int_header handle append
  Reads-uint IntWidth.int8 v h k =
      load_step ops total result (header8 0x00 v) rest (Event.uint8 v) (clean r s)
        (header8_pos 0x00 v) (stream_decode-uint8 ops v rest h) k
  Reads-uint IntWidth.int16 v h k =
      load_step ops total result (header16 0x00 v) rest (Event.uint16 v) (clean r s)
        (unfold header16 in omega arith) (stream_decode-uint16 ops v rest h) k
  Reads-uint IntWidth.int32 v h k =
      load_step ops total result (header32 0x00 v) rest (Event.uint32 v) (clean r s)
        (unfold header32 in omega arith) (stream_decode-uint32 ops v rest h) k
  Reads-uint IntWidth.int64 v h k =
      load_step ops total result (header64 0x00 v) rest (Event.uint64 v) (clean r s)
        (unfold header64 in omega arith) (stream_decode-uint64 ops v rest h) k

  pub Reads-negint :
      (w : IntWidth) (v : ℕ)
      → v < width_mod w
      → Goes (Item.negint w v)
      → Reads (int_header 0x20 w v)
  unfolding int_header handle append
  Reads-negint IntWidth.int8 v h k =
      load_step ops total result (header8 0x20 v) rest (Event.negint8 v) (clean r s)
        (header8_pos 0x20 v) (stream_decode-negint8 ops v rest h) k
  Reads-negint IntWidth.int16 v h k =
      load_step ops total result (header16 0x20 v) rest (Event.negint16 v) (clean r s)
        (unfold header16 in omega arith) (stream_decode-negint16 ops v rest h) k
  Reads-negint IntWidth.int32 v h k =
      load_step ops total result (header32 0x20 v) rest (Event.negint32 v) (clean r s)
        (unfold header32 in omega arith) (stream_decode-negint32 ops v rest h) k
  Reads-negint IntWidth.int64 v h k =
      load_step ops total result (header64 0x20 v) rest (Event.negint64 v) (clean r s)
        (unfold header64 in omega arith) (stream_decode-negint64 ops v rest h) k

  pub Reads-float2 :
      (v : ℕ)
      → Goes (Item.float2 (half_value ops (half_bits ops v)))
      → Reads (header16 0xE0 (half_bits ops v))
  unfolding handle append
  Reads-float2 v k =
      load_step ops total result (header16 0xE0 (half_bits ops v)) rest _ (clean r s)
        (unfold header16 in omega arith)
        (stream_decode-float2 ops (half_bits ops v) rest (half_bits-lt ops v)) k

  pub Reads-float4 : (v : ℕ) → v < 2 ^ 32 → Goes (Item.float4 v) → Reads (header32 0xE0 v)
  unfolding handle append
  Reads-float4 v h k =
      load_step ops total result (header32 0xE0 v) rest (Event.float4 v) (clean r s)
        (unfold header32 in omega arith) (stream_decode-float4 ops v rest h) k

  pub Reads-float8 : (v : ℕ) → v < 2 ^ 64 → Goes (Item.float8 v) → Reads (header64 0xE0 v)
  unfolding handle append
  Reads-float8 v h k =
      load_step ops total result (header64 0xE0 v) rest (Event.float8 v) (clean r s)
        (unfold header64 in omega arith) (stream_decode-float8 ops v rest h) k

  Reads-false : Goes (Item.ctrl 20) → Reads (header8 0xE0 20)
  unfolding handle append header8
  Reads-false k =
      load_step ops total result (0xF4 ∷ []) rest _ (clean r s) (omega arith)
        (stream_decode-false ops rest) k

  Reads-true : Goes (Item.ctrl 21) → Reads (header8 0xE0 21)
  unfolding handle append header8
  Reads-true k =
      load_step ops total result (0xF5 ∷ []) rest _ (clean r s) (omega arith)
        (stream_decode-true ops rest) k

  Reads-null : Goes (Item.ctrl 22) → Reads (header8 0xE0 22)
  unfolding handle append header8
  Reads-null k =
      load_step ops total result (0xF6 ∷ []) rest _ (clean r s) (omega arith)
        (stream_decode-null ops rest) k

  Reads-undefined : Goes (Item.ctrl 23) → Reads (header8 0xE0 23)
  unfolding handle append header8
  Reads-undefined k =
      load_step ops total result (0xF7 ∷ []) rest _ (clean r s) (omega arith)
        (stream_decode-undefined ops rest) k

  pub Reads-ctrl : (v : ℕ) → 20 ≤ v → v ≤ 23 → Goes (Item.ctrl v) → Reads (header8 0xE0 v)
  Reads-ctrl v h l k = elim (dec_le v 21) [
    | yes small ↦ elim (dec_le v 20) [
      | yes first ↦ let e : v ≡ 20 = omega arith in rw e (Reads-false (rw e at k))
      | no later ↦ let e : v ≡ 21 = omega arith in rw e (Reads-true (rw e at k))
    ]
    | no large ↦ elim (dec_le v 22) [
      | yes third ↦ let e : v ≡ 22 = omega arith in rw e (Reads-null (rw e at k))
      | no last ↦ let e : v ≡ 23 = omega arith in rw e (Reads-undefined (rw e at k))
    ]
  ]

  pub Reads-bytestring :
      (bytes : List ℕ)
      → IsByteString bytes
      → IsFree s
      → Goes (Item.bytestring bytes)
      → Reads (counted_bytes 0x40 bytes)
  unfolding handle counted_bytes
  Reads-bytestring bytes h free k =
      let hd = header 0x40 (length bytes) in
      load_step ops total result (hd ++ bytes) rest (Event.byte_string bytes) (clean r s)
        (omega (arith, length-append hd bytes, header_pos 0x40 (length bytes)))
        (rw (append_assoc hd bytes rest, length-append hd bytes)
          (stream_decode-byte_string ops bytes rest h))
        (rw (add_byte_string-IsFree s bytes (clean r s) free) k)

  pub Reads-string :
      (bytes : List ℕ)
      → IsByteString bytes
      → IsFree s
      → Goes (Item.string (string_of bytes))
      → Reads (counted_bytes 0x60 bytes)
  unfolding handle counted_bytes
  Reads-string bytes h free k =
      let hd = header 0x60 (length bytes) in
      load_step ops total result (hd ++ bytes) rest (Event.string bytes) (clean r s)
        (omega (arith, length-append hd bytes, header_pos 0x60 (length bytes)))
        (rw (append_assoc hd bytes rest, length-append hd bytes)
          (stream_decode-string ops bytes rest h))
        (rw (add_string-IsFree s bytes (clean r s) free) k)
