-- ===== src/Streaming/Ints.antt =====
-- src/cbor/streaming.c: the cases of `cbor_stream_decode` for integers.
use libcbor.Base.{ℕ, ◌+◌, ◌-◌, ◌%◌, List, if◌then◌else◌, leb, ◌==◌}
use libcbor.Loaders.{load_uint8, load_uint16, load_uint32, load_uint64}
use libcbor.Streaming.Events.{DecoderResult, Event, Decoded, malformed, invoke}
use libcbor.Streaming.Claims.{claim_then}

-- The cases 0x00 to 0x1F of the switch in `cbor_stream_decode`.
unfoldable pub decode_uint : ℕ → List ℕ → DecoderResult → Decoded
unfolding claim_then load_uint8 load_uint16 load_uint32 load_uint64
decode_uint byte source result =
    if leb byte 0x17
    then invoke result (Event.uint8 (load_uint8 source))
    else if byte == 0x18
    then claim_then 1 (λ s. Event.uint8 (load_uint8 s)) source result
    else if byte == 0x19
    then claim_then 2 (λ s. Event.uint16 (load_uint16 s)) source result
    else if byte == 0x1A
    then claim_then 4 (λ s. Event.uint32 (load_uint32 s)) source result
    else if byte == 0x1B
    then claim_then 8 (λ s. Event.uint64 (load_uint64 s)) source result
    else malformed

-- The cases 0x20 to 0x3F; the embedded value is cast to uint8_t.
unfoldable pub decode_negint : ℕ → List ℕ → DecoderResult → Decoded
unfolding claim_then load_uint8 load_uint16 load_uint32 load_uint64
decode_negint byte source result =
    if leb byte 0x37
    then invoke result (Event.negint8 ((load_uint8 source + 256 - 0x20) % 256))
    else if byte == 0x38
    then claim_then 1 (λ s. Event.negint8 (load_uint8 s)) source result
    else if byte == 0x39
    then claim_then 2 (λ s. Event.negint16 (load_uint16 s)) source result
    else if byte == 0x3A
    then claim_then 4 (λ s. Event.negint32 (load_uint32 s)) source result
    else if byte == 0x3B
    then claim_then 8 (λ s. Event.negint64 (load_uint64 s)) source result
    else malformed
