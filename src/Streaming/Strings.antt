-- ===== src/Streaming/Strings.antt =====
-- src/cbor/streaming.c: the cases of `cbor_stream_decode` for byte strings and strings.
use libcbor.Base.{ℕ, ◌+◌, ◌-◌, ◌%◌, ◌^◌, List, if◌then◌else◌, leb, ◌==◌}
use libcbor.Loaders.{load_uint8, load_uint16, load_uint32, load_uint64}
use libcbor.Streaming.Events.{DecoderResult, Event, Decoded, malformed, invoke}
use libcbor.Streaming.Claims.{claim_and_invoke, read_claim_invoke}

-- The cases 0x40 to 0x5F; the embedded length is a uint64_t.
unfoldable pub decode_byte_string : ℕ → List ℕ → DecoderResult → Decoded
unfolding claim_and_invoke read_claim_invoke load_uint8 load_uint16 load_uint32 load_uint64
decode_byte_string byte source result =
    if leb byte 0x57
    then claim_and_invoke Event.byte_string ((load_uint8 source + 2 ^ 64 - 0x40) % 2 ^ 64) 0 source
        result
    else if byte == 0x58
    then read_claim_invoke Event.byte_string load_uint8 1 source result
    else if byte == 0x59
    then read_claim_invoke Event.byte_string load_uint16 2 source result
    else if byte == 0x5A
    then read_claim_invoke Event.byte_string load_uint32 4 source result
    else if byte == 0x5B
    then read_claim_invoke Event.byte_string load_uint64 8 source result
    else if leb byte 0x5E
    then malformed
    else invoke result Event.byte_string_start

-- The cases 0x60 to 0x7F; the embedded length is a uint64_t.
unfoldable pub decode_string : ℕ → List ℕ → DecoderResult → Decoded
unfolding claim_and_invoke read_claim_invoke load_uint8 load_uint16 load_uint32 load_uint64
decode_string byte source result =
    if leb byte 0x77
    then claim_and_invoke Event.string ((load_uint8 source + 2 ^ 64 - 0x60) % 2 ^ 64) 0 source
        result
    else if byte == 0x78
    then read_claim_invoke Event.string load_uint8 1 source result
    else if byte == 0x79
    then read_claim_invoke Event.string load_uint16 2 source result
    else if byte == 0x7A
    then read_claim_invoke Event.string load_uint32 4 source result
    else if byte == 0x7B
    then read_claim_invoke Event.string load_uint64 8 source result
    else if leb byte 0x7E
    then malformed
    else invoke result Event.string_start
