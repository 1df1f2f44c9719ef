-- ===== src/Streaming/EncodedLeaves.antt =====
-- Decoding what encoding.c writes for integers, floats, simple values and breaks.
use libcbor.Base.{ℕ, ◌+◌, ◌*◌, ◌^◌, ◌≤◌, ◌<◌, ◌≡◌, refl, ap, ◌∙◌, arith}
use libcbor.Base.{List, [], ◌∷◌, ◌++◌, length, true, false, le→leb}
use libcbor.Base.{lt→leb_false}
use libcbor.Encoders.{byte_at}
use libcbor.Encoders.Headers.{header8, header16, header32, header64}
use libcbor.Loaders.{FloatOps, load_uint8, load_uint16, load_uint32, load_uint64}
use libcbor.Loaders.{half_value, load_half, load_float, load_double}
use libcbor.Loaders.RoundTrip.{
  load_uint8-bytes, load_uint16-bytes, load_uint32-bytes, load_uint64-bytes,
}
use libcbor.Streaming.{Event, stream_decode}
use libcbor.Streaming.Plan.{follow, plan, done}
use libcbor.Streaming.Plan.Switch.{stream_decode-plan}
use libcbor.Streaming.Encoded.{two_bytes, four_bytes, eight_bytes, follow-fixed, plan-major}
use native.Mathlib.Decide.{dec_le}

module _ (ops : FloatOps) (v : ℕ) (rest : List ℕ) where
  uint8_embedded : v ≤ 23 → stream_decode ops ((v + 0x00) ∷ rest) ≡ done 1 (Event.uint8 v)
  uint8_embedded h =
      let e : v + 0x00 ≡ 0x00 + v = omega arith in
      rw e (
        stream_decode-plan ops (0x00 + v) rest (omega arith)
        ∙ rw (plan-major ops 0 0x00 v (omega arith) refl, le→leb v 23 h) (unfold follow in refl))

  pub stream_decode-uint8 :
      v < 2 ^ 8
      → stream_decode ops (header8 0x00 v ++ rest) ≡ done (length (header8 0x00 v)) (Event.uint8 v)
  unfolding header8 plan
  stream_decode-uint8 h = elim (dec_le v 23) [
    | yes small ↦ rw (le→leb v 23 small) (uint8_embedded small)
    | no large ↦ rw (lt→leb_false v 23 (omega arith)) (
        stream_decode-plan ops 0x18 (v ∷ rest) (omega arith)
        ∙ follow-fixed (λ t. Event.uint8 (load_uint8 t)) (v ∷ []) rest _
            (ap Event.uint8 (load_uint8-bytes v rest h)))
  ]

  pub stream_decode-uint16 :
      v < 2 ^ 16
      → stream_decode ops (header16 0x00 v ++ rest)
        ≡ done (length (header16 0x00 v)) (Event.uint16 v)
  unfolding header16 plan
  stream_decode-uint16 h =
      stream_decode-plan ops 0x19 (two_bytes v ++ rest) (omega arith)
      ∙ follow-fixed (λ t. Event.uint16 (load_uint16 t)) (two_bytes v) rest _
          (ap Event.uint16 (load_uint16-bytes v rest h))

  pub stream_decode-uint32 :
      v < 2 ^ 32
      → stream_decode ops (header32 0x00 v ++ rest)
        ≡ done (length (header32 0x00 v)) (Event.uint32 v)
  unfolding header32 plan
  stream_decode-uint32 h =
      stream_decode-plan ops 0x1A (four_bytes v ++ rest) (omega arith)
      ∙ follow-fixed (λ t. Event.uint32 (load_uint32 t)) (four_bytes v) rest _
          (ap Event.uint32 (load_uint32-bytes v rest h))

  pub stream_decode-uint64 :
      v < 2 ^ 64
      → stream_decode ops (header64 0x00 v ++ rest)
        ≡ done (length (header64 0x00 v)) (Event.uint64 v)
  unfolding header64 plan
  stream_decode-uint64 h =
      stream_decode-plan ops 0x1B (eight_bytes v ++ rest) (omega arith)
      ∙ follow-fixed (λ t. Event.uint64 (load_uint64 t)) (eight_bytes v) rest _
          (ap Event.uint64 (load_uint64-bytes v rest h))

  negint8_embedded : v ≤ 23 → stream_decode ops ((v + 0x20) ∷ rest) ≡ done 1 (Event.negint8 v)
  negint8_embedded h =
      let e : v + 0x20 ≡ 0x20 + v = omega arith in
      rw e (
        stream_decode-plan ops (0x20 + v) rest (omega arith)
        ∙ rw (plan-major ops 1 0x20 v (omega arith) refl, le→leb v 23 h) (unfold follow in refl))

  pub stream_decode-negint8 :
      v < 2 ^ 8
      → stream_decode ops (header8 0x20 v ++ rest)
        ≡ done (length (header8 0x20 v)) (Event.negint8 v)
  unfolding header8 plan
  stream_decode-negint8 h = elim (dec_le v 23) [
    | yes small ↦ rw (le→leb v 23 small) (negint8_embedded small)
    | no large ↦ rw (lt→leb_false v 23 (omega arith)) (
        stream_decode-plan ops 0x38 (v ∷ rest) (omega arith)
        ∙ follow-fixed (λ t. Event.negint8 (load_uint8 t)) (v ∷ []) rest _
            (ap Event.negint8 (load_uint8-bytes v rest h)))
  ]

  pub stream_decode-negint16 :
      v < 2 ^ 16
      → stream_decode ops (header16 0x20 v ++ rest)
        ≡ done (length (header16 0x20 v)) (Event.negint16 v)
  unfolding header16 plan
  stream_decode-negint16 h =
      stream_decode-plan ops 0x39 (two_bytes v ++ rest) (omega arith)
      ∙ follow-fixed (λ t. Event.negint16 (load_uint16 t)) (two_bytes v) rest _
          (ap Event.negint16 (load_uint16-bytes v rest h))

  pub stream_decode-negint32 :
      v < 2 ^ 32
      → stream_decode ops (header32 0x20 v ++ rest)
        ≡ done (length (header32 0x20 v)) (Event.negint32 v)
  unfolding header32 plan
  stream_decode-negint32 h =
      stream_decode-plan ops 0x3A (four_bytes v ++ rest) (omega arith)
      ∙ follow-fixed (λ t. Event.negint32 (load_uint32 t)) (four_bytes v) rest _
          (ap Event.negint32 (load_uint32-bytes v rest h))

  pub stream_decode-negint64 :
      v < 2 ^ 64
      → stream_decode ops (header64 0x20 v ++ rest)
        ≡ done (length (header64 0x20 v)) (Event.negint64 v)
  unfolding header64 plan
  stream_decode-negint64 h =
      stream_decode-plan ops 0x3B (eight_bytes v ++ rest) (omega arith)
      ∙ follow-fixed (λ t. Event.negint64 (load_uint64 t)) (eight_bytes v) rest _
          (ap Event.negint64 (load_uint64-bytes v rest h))

  half_bytes : v < 2 ^ 16 → load_half ops (two_bytes v ++ rest) ≡ half_value ops v
  unfolding load_half
  half_bytes h =
      let e : byte_at 8 v * 2 ^ 8 + byte_at 0 v ≡ v = omega arith in ap (half_value ops) e

  pub stream_decode-float2 :
      v < 2 ^ 16
      → stream_decode ops (header16 0xE0 v ++ rest)
        ≡ done (length (header16 0xE0 v)) (Event.float2 (half_value ops v))
  unfolding header16 plan
  stream_decode-float2 h =
      stream_decode-plan ops 0xF9 (two_bytes v ++ rest) (omega arith)
      ∙ follow-fixed (λ t. Event.float2 (load_half ops t)) (two_bytes v) rest _
          (ap Event.float2 (half_bytes h))

  pub stream_decode-float4 :
      v < 2 ^ 32
      → stream_decode ops (header32 0xE0 v ++ rest)
        ≡ done (length (header32 0xE0 v)) (Event.float4 (v))
  unfolding header32 plan load_float
  stream_decode-float4 h =
      stream_decode-plan ops 0xFA (four_bytes v ++ rest) (omega arith)
      ∙ follow-fixed (λ t. Event.float4 (load_float t)) (four_bytes v) rest _
          (ap Event.float4 (load_uint32-bytes v rest h))

  pub stream_decode-float8 :
      v < 2 ^ 64
      → stream_decode ops (header64 0xE0 v ++ rest)
        ≡ done (length (header64 0xE0 v)) (Event.float8 (v))
  unfolding header64 plan load_double
  stream_decode-float8 h =
      stream_decode-plan ops 0xFB (eight_bytes v ++ rest) (omega arith)
      ∙ follow-fixed (λ t. Event.float8 (load_double t)) (eight_bytes v) rest _
          (ap Event.float8 (load_uint64-bytes v rest h))

module _ (ops : FloatOps) (rest : List ℕ) where
  pub stream_decode-byte_string_start :
      stream_decode ops (0x5F ∷ rest) ≡ done 1 Event.byte_string_start
  unfolding plan follow
  stream_decode-byte_string_start = stream_decode-plan ops 0x5F rest (omega arith)

  pub stream_decode-string_start : stream_decode ops (0x7F ∷ rest) ≡ done 1 Event.string_start
  unfolding plan follow
  stream_decode-string_start = stream_decode-plan ops 0x7F rest (omega arith)

  pub stream_decode-indef_array_start :
      stream_decode ops (0x9F ∷ rest) ≡ done 1 Event.indef_array_start
  unfolding plan follow
  stream_decode-indef_array_start = stream_decode-plan ops 0x9F rest (omega arith)

  pub stream_decode-indef_map_start : stream_decode ops (0xBF ∷ rest) ≡ done 1 Event.indef_map_start
  unfolding plan follow
  stream_decode-indef_map_start = stream_decode-plan ops 0xBF rest (omega arith)

  pub stream_decode-false : stream_decode ops (0xF4 ∷ rest) ≡ done 1 (Event.boolean false)
  unfolding plan follow
  stream_decode-false = stream_decode-plan ops 0xF4 rest (omega arith)

  pub stream_decode-true : stream_decode ops (0xF5 ∷ rest) ≡ done 1 (Event.boolean true)
  unfolding plan follow
  stream_decode-true = stream_decode-plan ops 0xF5 rest (omega arith)

  pub stream_decode-null : stream_decode ops (0xF6 ∷ rest) ≡ done 1 Event.null
  unfolding plan follow
  stream_decode-null = stream_decode-plan ops 0xF6 rest (omega arith)

  pub stream_decode-undefined : stream_decode ops (0xF7 ∷ rest) ≡ done 1 Event.undefined
  unfolding plan follow
  stream_decode-undefined = stream_decode-plan ops 0xF7 rest (omega arith)

  pub stream_decode-break : stream_decode ops (0xFF ∷ rest) ≡ done 1 Event.indef_break
  unfolding plan follow
  stream_decode-break = stream_decode-plan ops 0xFF rest (omega arith)
