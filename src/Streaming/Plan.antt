-- ===== src/Streaming/Plan.antt =====
-- The leading byte of a CBOR item: three bits of major type and five bits of additional information, as
-- RFC 8949, section 3, describes them. A plan leaves open how the numbers behind that byte are read:
-- Rfc.antt fills it with big-endian numbers, and the lemmas on `cbor_stream_decode` with its loaders.
use libcbor.Base.{ℕ, zero, suc, ◌+◌, ◌-◌, ◌*◌, ◌/◌, ◌%◌, ◌^◌, ◌≤◌, ◌<◌, ◌≡◌, arith}
pub mod Majors
pub mod Switch
pub mod Local
pub mod Rfc
use libcbor.Base.{List, [], ◌∷◌, true, false, Option, none, some}
use libcbor.Base.{length, take, drop, if◌then◌else◌, leb, ◌==◌}
use libcbor.Items.{IntWidth}
use libcbor.Loaders.{FloatOps, load_uint8, load_uint16, load_uint32, load_uint64}
use libcbor.Loaders.{load_half, load_float, load_double}
use libcbor.Streaming.{Status, DecoderResult, Event, Decoded, malformed, claimed_first}
use libcbor.Streaming.{decode_uint, decode_negint, decode_byte_string, decode_string, decode_array}
use libcbor.Streaming.{decode_map, decode_tag, decode_float_ctrl, decode_by_major, stream_decode}

-- What the leading byte says of the bytes that come after it: the callback is due at once, after a
-- number of bytes, or after a length of so many bytes and the string of that length.
pub data Plan : Type 0 where
  now : Event → Plan
  refuse : Plan
  fixed : ℕ → (List ℕ → Event) → Plan
  counted : ℕ → (List ℕ → ℕ) → (List ℕ → Event) → Plan

-- Additional information 0 to 23 is the argument itself, 24 to 27 announce 1, 2, 4 or 8 bytes.
abbrev pub with_argument : ℕ → (ℕ → Plan) → Plan → Plan → Plan → Plan → Plan → Plan
with_argument info embedded one two four eight other =
    if leb info 23
    then embedded info
    else if info == 24
    then one
    else if info == 25
    then two
    else if info == 26
    then four
    else if info == 27
    then eight
    else other

-- A way to read numbers of one, two, four and eight bytes.
abbrev pub Reading : Type 0
Reading = IntWidth → List ℕ → ℕ

-- An argument that may have each width, and goes to one callback.
abbrev pub number_by : Reading → ℕ → (ℕ → Event) → Plan → Plan
number_by read info callback other =
    with_argument info (λ v. Plan.now (callback v))
      (Plan.fixed 1 (λ s. callback (read IntWidth.int8 s)))
      (Plan.fixed 2 (λ s. callback (read IntWidth.int16 s)))
      (Plan.fixed 4 (λ s. callback (read IntWidth.int32 s)))
      (Plan.fixed 8 (λ s. callback (read IntWidth.int64 s))) other

abbrev pub counted_string_by : Reading → ℕ → (List ℕ → Event) → Plan → Plan
counted_string_by read info callback other =
    with_argument info (λ v. Plan.counted 0 (λ s. v) callback)
      (Plan.counted 1 (read IntWidth.int8) callback) (Plan.counted 2 (read IntWidth.int16) callback)
      (Plan.counted 4 (read IntWidth.int32) callback)
      (Plan.counted 8 (read IntWidth.int64) callback) other

-- 31 is the indefinite length, and 28 to 30 are reserved.
abbrev pub indefinite_or : ℕ → Event → Plan
indefinite_or info start = if info == 31 then Plan.now start else Plan.refuse

-- Simple values and floats, read in three widths, and the break.
abbrev pub simple_plan_by : (half float double : List ℕ → ℕ) → ℕ → Plan
simple_plan_by half float double info =
    if info == 20
    then Plan.now (Event.boolean false)
    else if info == 21
    then Plan.now (Event.boolean true)
    else if info == 22
    then Plan.now Event.null
    else if info == 23
    then Plan.now Event.undefined
    else if info == 25
    then Plan.fixed 2 (λ s. Event.float2 (half s))
    else if info == 26
    then Plan.fixed 4 (λ s. Event.float4 (float s))
    else if info == 27
    then Plan.fixed 8 (λ s. Event.float8 (double s))
    else if info == 31
    then Plan.now Event.indef_break
    else Plan.refuse

abbrev pub major_plan_by : Reading → (ℕ → Plan) → ℕ → ℕ → Plan
major_plan_by read simple major info =
    if major == 0
    then with_argument info (λ v. Plan.now (Event.uint8 v))
        (Plan.fixed 1 (λ s. Event.uint8 (read IntWidth.int8 s)))
        (Plan.fixed 2 (λ s. Event.uint16 (read IntWidth.int16 s)))
        (Plan.fixed 4 (λ s. Event.uint32 (read IntWidth.int32 s)))
        (Plan.fixed 8 (λ s. Event.uint64 (read IntWidth.int64 s))) Plan.refuse
    else if major == 1
    then with_argument info (λ v. Plan.now (Event.negint8 v))
        (Plan.fixed 1 (λ s. Event.negint8 (read IntWidth.int8 s)))
        (Plan.fixed 2 (λ s. Event.negint16 (read IntWidth.int16 s)))
        (Plan.fixed 4 (λ s. Event.negint32 (read IntWidth.int32 s)))
        (Plan.fixed 8 (λ s. Event.negint64 (read IntWidth.int64 s))) Plan.refuse
    else if major == 2
    then counted_string_by read info Event.byte_string (indefinite_or info Event.byte_string_start)
    else if major == 3
    then counted_string_by read info Event.string (indefinite_or info Event.string_start)
    else if major == 4
    then number_by read info Event.array_start (indefinite_or info Event.indef_array_start)
    else if major == 5
    then number_by read info Event.map_start (indefinite_or info Event.indef_map_start)
    else if major == 6
    then number_by read info Event.tag Plan.refuse
    else simple info

-- The same with the loaders of the code: what the lemmas on the decoder reason about.
abbrev pub loader : Reading
loader IntWidth.int8 = load_uint8
loader IntWidth.int16 = load_uint16
loader IntWidth.int32 = load_uint32
loader IntWidth.int64 = load_uint64

abbrev pub number : ℕ → (ℕ → Event) → Plan → Plan
number = number_by loader

abbrev pub counted_string : ℕ → (List ℕ → Event) → Plan → Plan
counted_string = counted_string_by loader

module _ (ops : FloatOps) where
  abbrev pub simple_plan : ℕ → Plan
  simple_plan = simple_plan_by (load_half ops) load_float load_double

  abbrev pub major_plan : ℕ → ℕ → Plan
  major_plan = major_plan_by loader simple_plan

  unfoldable pub plan : ℕ → Plan
  plan byte = major_plan (byte / 32) (byte % 32)

-- Too few bytes: `required` in all, as a size_t.
abbrev pub short : ℕ → Decoded
short required = record {
  result = record { read = 0; status = Status.nedata; required = required % 2 ^ 64 };
  event = none;
}

abbrev pub done : ℕ → Event → Decoded
done read event = record {
  result = record { read = read; status = Status.finished; required = 0 };
  event = some event;
}

-- A plan carried out on the bytes behind the leading one.
unfoldable pub follow : Plan → List ℕ → Decoded
follow (Plan.now event) s = done 1 event
follow Plan.refuse s = malformed
follow (Plan.fixed n callback) s =
    if leb n (length s) then done (1 + n) (callback s) else short (1 + n)
follow (Plan.counted k count callback) s =
    if leb k (length s)
    then (if leb (count s) (length s - k)
        then done (1 + k + count s) (callback (take (count s) (drop k s)))
        else short (count s + k + 1))
    else short (1 + k)
