-- ===== src/Streaming/Claims.antt =====
-- src/cbor/streaming.c: `claim_bytes` and the two macros that claim and invoke.
use libcbor.Base.{ℕ, ◌+◌, ◌-◌, ◌%◌, ◌^◌, List, Bool, true, false, none, some}
use libcbor.Base.{length, take, drop, if◌then◌else◌, ltb}
use libcbor.Streaming.Events.{Status, DecoderResult, Event, Decoded}

unfoldable pub claim_bytes : ℕ → ℕ → DecoderResult → Bool × DecoderResult
claim_bytes required provided result =
    if ltb (provided - result.read) required
    then (
      false,
      record { read = 0; status = Status.nedata; required = (required + result.read) % 2 ^ 64 },
    )
    else (true, record { read = result.read + required; status = result.status; required = 0 })

-- `if (claim_bytes(n, source_size, &result)) callbacks->…(context, …(source + 1)); return result;`
unfoldable pub claim_then : ℕ → (List ℕ → Event) → List ℕ → DecoderResult → Decoded
unfolding claim_bytes
claim_then n callback source result =
    let (claimed, after) = claim_bytes n (length source) result in
    record { result = after; event = if claimed then some (callback (drop 1 source)) else none }

-- CLAIM_BYTES_AND_INVOKE
unfoldable pub claim_and_invoke : (List ℕ → Event) → ℕ → ℕ → List ℕ → DecoderResult → Decoded
unfolding claim_bytes
claim_and_invoke callback count extra_offset source result =
    let (claimed, after) = claim_bytes count (length source) result in
    record {
      result = after;
      event =
          if claimed then some (callback (take count (drop (1 + extra_offset) source))) else none;
    }

-- READ_CLAIM_INVOKE
unfoldable pub read_claim_invoke :
    (List ℕ → Event) → (List ℕ → ℕ) → ℕ → List ℕ → DecoderResult → Decoded
unfolding claim_bytes claim_and_invoke
read_claim_invoke callback length_reader length_bytes source result =
    let (claimed, after) = claim_bytes length_bytes (length source) result in
    if claimed
    then claim_and_invoke callback (length_reader (drop 1 source)) length_bytes source after
    else record { result = after; event = none }
