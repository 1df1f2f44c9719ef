-- ===== src/Streaming/Simple.antt =====
-- src/cbor/streaming.c: the cases of `cbor_stream_decode` for simple values, floats and breaks.
use libcbor.Base.{ℕ, List, true, false, if◌then◌else◌, leb, ◌==◌}
use libcbor.Loaders.{FloatOps}
use libcbor.Loaders.{load_half, load_float, load_double}
use libcbor.Streaming.Events.{DecoderResult, Event, Decoded, malformed, invoke}
use libcbor.Streaming.Claims.{claim_then}

module _ (ops : FloatOps) where
  -- The cases 0xE0 to 0xFF.
  unfoldable pub decode_float_ctrl : ℕ → List ℕ → DecoderResult → Decoded
  unfolding claim_then load_half load_float load_double
  decode_float_ctrl byte source result =
      if leb byte 0xF3
      then malformed
      else if byte == 0xF4
      then invoke result (Event.boolean false)
      else if byte == 0xF5
      then invoke result (Event.boolean true)
      else if byte == 0xF6
      then invoke result Event.null
      else if byte == 0xF7
      then invoke result Event.undefined
      else if byte == 0xF8
      then malformed
      else if byte == 0xF9
      then claim_then 2 (λ s. Event.float2 (load_half ops s)) source result
      else if byte == 0xFA
      then claim_then 4 (λ s. Event.float4 (load_float s)) source result
      else if byte == 0xFB
      then claim_then 8 (λ s. Event.float8 (load_double s)) source result
      else if leb byte 0xFE
      then malformed
      else invoke result Event.indef_break
