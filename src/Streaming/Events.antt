-- ===== src/Streaming/Events.antt =====
-- src/cbor/data.h and src/cbor/callbacks.h: the result of one decoding step, and the callbacks.
use libcbor.Base.{ℕ, List, Bool, Option, none, some}

-- `enum cbor_decoder_status`.
pub data Status : Type 0 where
  finished nedata error : Status

-- `struct cbor_decoder_result`.
pub record DecoderResult : Type 0 where
  pub read : ℕ
  pub status : Status
  pub required : ℕ

-- One call through `struct cbor_callbacks`, with its arguments behind the context: the constructor
-- is the member that is called. A data pointer and its length are the bytes that they delimit; a
-- float is its bit pattern.
pub data Event : Type 0 where
  uint8 uint16 uint32 uint64 : ℕ → Event
  negint8 negint16 negint32 negint64 : ℕ → Event
  byte_string_start : Event
  byte_string : List ℕ → Event
  string_start : Event
  string : List ℕ → Event
  indef_array_start : Event
  array_start : ℕ → Event
  indef_map_start : Event
  map_start : ℕ → Event
  tag : ℕ → Event
  float2 float4 float8 : ℕ → Event
  undefined null : Event
  boolean : Bool → Event
  indef_break : Event

-- What one call of `cbor_stream_decode` does: its result, and the callback that it invoked.
pub record Decoded : Type 0 where
  pub result : DecoderResult
  pub event : Option Event

-- `(struct cbor_decoder_result){.status = CBOR_DECODER_ERROR}`, and no callback.
abbrev pub malformed : Decoded
malformed = record {
  result = record { read = 0; status = Status.error; required = 0 };
  event = none;
}

-- A callback with no claim before it.
abbrev pub invoke : DecoderResult → Event → Decoded
invoke result event = record { result = result; event = some event }
