-- ===== src/Streaming/Containers.antt =====
-- src/cbor/streaming.c: the cases of `cbor_stream_decode` for arrays, maps and tags.
use libcbor.Base.{ℕ, ◌+◌, ◌-◌, ◌%◌, ◌^◌, List, if◌then◌else◌, leb, ◌==◌}
use libcbor.Loaders.{load_uint8, load_uint16, load_uint32, load_uint64}
use libcbor.Streaming.Events.{DecoderResult, Event, Decoded, malformed, invoke}
use libcbor.Streaming.Claims.{claim_then}

-- The cases 0x80 to 0x9F; the embedded number is converted to uint64_t.
unfoldable pub decode_array : ℕ → List ℕ → DecoderResult → Decoded
unfolding claim_then load_uint8 load_uint16 load_uint32 load_uint64
decode_array byte source result =
    if leb byte 0x97
    then invoke result (Event.array_start ((load_uint8 source + 2 ^ 64 - 0x80) % 2 ^ 64))
    else if byte == 0x98
    then claim_then 1 (λ s. Event.array_start (load_uint8 s)) source result
    else if byte == 0x99
    then claim_then 2 (λ s. Event.array_start (load_uint16 s)) source result
    else if byte == 0x9A
    then claim_then 4 (λ s. Event.array_start (load_uint32 s)) source result
    else if byte == 0x9B
    then claim_then 8 (λ s. Event.array_start (load_uint64 s)) source result
    else if leb byte 0x9E
    then malformed
    else invoke result Event.indef_array_start

-- The cases 0xA0 to 0xBF; the embedded number is converted to uint64_t.
unfoldable pub decode_map : ℕ → List ℕ → DecoderResult → Decoded
unfolding claim_then load_uint8 load_uint16 load_uint32 load_uint64
decode_map byte source result =
    if leb byte 0xB7
    then invoke result (Event.map_start ((load_uint8 source + 2 ^ 64 - 0xA0) % 2 ^ 64))
    else if byte == 0xB8
    then claim_then 1 (λ s. Event.map_start (load_uint8 s)) source result
    else if byte == 0xB9
    then claim_then 2 (λ s. Event.map_start (load_uint16 s)) source result
    else if byte == 0xBA
    then claim_then 4 (λ s. Event.map_start (load_uint32 s)) source result
    else if byte == 0xBB
    then claim_then 8 (λ s. Event.map_start (load_uint64 s)) source result
    else if leb byte 0xBE
    then malformed
    else invoke result Event.indef_map_start

-- The cases 0xC0 to 0xDF; the embedded number is converted to uint64_t.
unfoldable pub decode_tag : ℕ → List ℕ → DecoderResult → Decoded
unfolding claim_then load_uint8 load_uint16 load_uint32 load_uint64
decode_tag byte source result =
    if leb byte 0xD7
    then invoke result (Event.tag ((load_uint8 source + 2 ^ 64 - 0xC0) % 2 ^ 64))
    else if byte == 0xD8
    then claim_then 1 (λ s. Event.tag (load_uint8 s)) source result
    else if byte == 0xD9
    then claim_then 2 (λ s. Event.tag (load_uint16 s)) source result
    else if byte == 0xDA
    then claim_then 4 (λ s. Event.tag (load_uint32 s)) source result
    else if byte == 0xDB
    then claim_then 8 (λ s. Event.tag (load_uint64 s)) source result
    else malformed
