-- ===== src/Tests/Decoding.antt =====
-- The theorems about the streaming decoder on concrete inputs.
use libcbor.Base.{ℕ, ◌+◌, ◌-◌, ◌%◌, ◌^◌, ◌≤◌, ◌<◌, ◌≡◌, refl, inl, arith}
use libcbor.Base.{List, [], ◌∷◌, ◌++◌, length}
use libcbor.Loaders.{load_uint64}
use libcbor.Streaming.{Status, stream_decode}
use libcbor.Streaming.Contract.{
  Outcome, stream_decode-Outcome, stream_decode-append, stream_decode_required, required_wraps,
}
use libcbor.Streaming.Plan.{follow}
use libcbor.Streaming.Plan.Rfc.{rfc_plan, stream_decode-rfc_plan}
use libcbor.Tests.{sample_ops}

stream_decode-rfc_plan_example :
    stream_decode sample_ops (0x59 ∷ 0x00 ∷ 0x01 ∷ 0x61 ∷ [])
    ≡ follow (rfc_plan sample_ops 0x59) (0x00 ∷ 0x01 ∷ 0x61 ∷ [])
stream_decode-rfc_plan_example =
    stream_decode-rfc_plan sample_ops 0x59 (0x00 ∷ 0x01 ∷ 0x61 ∷ []) (omega arith)

stream_decode-Outcome_example : Outcome 2 (stream_decode sample_ops (0x1A ∷ 0x05 ∷ []))
stream_decode-Outcome_example =
    stream_decode-Outcome sample_ops (0x1A ∷ 0x05 ∷ []) (omega arith, (omega arith, tt))

string_finished : (stream_decode sample_ops (0x61 ∷ 0x61 ∷ [])).result.status ≡ Status.finished
unfolding stream_decode
string_finished = refl

stream_decode-append_example :
    stream_decode sample_ops (0x61 ∷ 0x61 ∷ 0x00 ∷ []) ≡ stream_decode sample_ops (0x61 ∷ 0x61 ∷ [])
stream_decode-append_example =
    stream_decode-append sample_ops (0x61 ∷ 0x61 ∷ []) (0x00 ∷ []) (omega arith, (omega arith, tt))
      string_finished

uint16_short : (stream_decode sample_ops (0x19 ∷ [])).result.status ≡ Status.nedata
unfolding stream_decode
uint16_short = refl

stream_decode_required_example :
    (n : ℕ) × (1 < n)
    × (n ≤ 2 ^ 64 + 8)
    × ((stream_decode sample_ops (0x19 ∷ [])).result.required ≡ n % 2 ^ 64)
    × ((more : List ℕ)
        → length ((0x19 ∷ []) ++ more) < n
        → (stream_decode sample_ops ((0x19 ∷ []) ++ more)).result.status ≡ Status.nedata)
stream_decode_required_example =
    stream_decode_required sample_ops (0x19 ∷ []) (omega arith, tt) uint16_short

abbrev large_length : List ℕ
large_length = 255 ∷ 255 ∷ 255 ∷ 255 ∷ 255 ∷ 255 ∷ 255 ∷ 255 ∷ []

large_length-lower : 2 ^ 64 - 9 ≤ load_uint64 large_length
unfolding load_uint64
large_length-lower = omega arith

large_length-upper : load_uint64 large_length < 2 ^ 64
unfolding load_uint64
large_length-upper = omega arith

required_wraps_example :
    ((stream_decode sample_ops (0x5B ∷ large_length)).result.status ≡ Status.nedata)
    × ((stream_decode sample_ops (0x5B ∷ large_length)).result.required
        < length (0x5B ∷ large_length))
required_wraps_example =
    required_wraps sample_ops 0x5B large_length (inl refl) (omega arith) (omega arith)
      large_length-lower large_length-upper
