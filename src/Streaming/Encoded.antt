-- ===== src/Streaming/Encoded.antt =====
-- Decoding what the encoders of encoding.c write: one step reads one header, with its argument.
use libcbor.Base.{ℕ, ◌+◌, ◌*◌, ◌/◌, ◌%◌, ◌^◌, ◌≤◌, ◌<◌, ◌≡◌, refl, ap, ◌∙◌, arith}
use libcbor.Base.{List, [], ◌∷◌, ◌++◌, length, if◌then◌else◌, leb}
use libcbor.Base.{length-append, take-append_self, drop-append_self, le→leb, lt→leb_false}
use libcbor.Encoders.{byte_at}
use libcbor.Encoders.Headers.{header}
use libcbor.Loaders.{FloatOps, load_uint8, load_uint16, load_uint32, load_uint64}
use libcbor.Loaders.RoundTrip.{load_uint16-bytes, load_uint32-bytes, load_uint64-bytes}
use libcbor.Streaming.{Event, Decoded, stream_decode}
use libcbor.Streaming.Plan.{Plan, follow, plan, major_plan, done, number, counted_string}
use libcbor.Streaming.Plan.{indefinite_or}
use libcbor.Streaming.Plan.Switch.{stream_decode-plan}
use native.Mathlib.Decide.{dec_le}

-- A header is its additional information and the argument's bytes.
lead : ℕ → ℕ
lead v =
    if leb v 23
    then v
    else if leb v 0xFF
    then 24
    else if leb v 0xFFFF
    then 25
    else if leb v 0xFFFF_FFFF
    then 26
    else 27

tail : ℕ → List ℕ
tail v =
    if leb v 23
    then []
    else if leb v 0xFF
    then v ∷ []
    else if leb v 0xFFFF
    then byte_at 8 v ∷ byte_at 0 v ∷ []
    else if leb v 0xFFFF_FFFF
    then byte_at 24 v ∷ byte_at 16 v ∷ byte_at 8 v ∷ byte_at 0 v ∷ []
    else byte_at 56 v
      ∷ byte_at 48 v
      ∷ byte_at 40 v
      ∷ byte_at 32 v
      ∷ byte_at 24 v
      ∷ byte_at 16 v
      ∷ byte_at 8 v
      ∷ byte_at 0 v
      ∷ []

header-tail : (offset v : ℕ) → header offset v ≡ (offset + lead v) ∷ tail v
unfolding header lead tail
header-tail offset v = ground arith

lead-lt : (v : ℕ) → lead v < 32
unfolding lead
lead-lt v = ground arith

-- The five widths of an argument.
by_width :
    (P : ℕ → List ℕ → Type 0) (v : ℕ)
    → (v ≤ 23 → P v [])
    → (v ≤ 0xFF → P 24 (v ∷ []))
    → (v ≤ 0xFFFF → P 25 (byte_at 8 v ∷ byte_at 0 v ∷ []))
    → (v ≤ 0xFFFF_FFFF → P 26 (byte_at 24 v ∷ byte_at 16 v ∷ byte_at 8 v ∷ byte_at 0 v ∷ []))
    → P 27 (
        byte_at 56 v
        ∷ byte_at 48 v
        ∷ byte_at 40 v
        ∷ byte_at 32 v
        ∷ byte_at 24 v
        ∷ byte_at 16 v
        ∷ byte_at 8 v
        ∷ byte_at 0 v
        ∷ [])
    → P (lead v) (tail v)
unfolding lead tail
by_width P v p0 p1 p2 p4 p8 = elim (dec_le v 23) [
  | yes h ↦ rw (le→leb v 23 h) (p0 h)
  | no n0 ↦ rw (lt→leb_false v 23 (omega arith)) (elim (dec_le v 0xFF) [
    | yes h ↦ rw (le→leb v 0xFF h) (p1 h)
    | no n1 ↦ rw (lt→leb_false v 0xFF (omega arith)) (elim (dec_le v 0xFFFF) [
      | yes h ↦ rw (le→leb v 0xFFFF h) (p2 h)
      | no n2 ↦ rw (lt→leb_false v 0xFFFF (omega arith)) (elim (dec_le v 0xFFFF_FFFF) [
        | yes h ↦ rw (le→leb v 0xFFFF_FFFF h) (p4 h)
        | no n4 ↦ rw (lt→leb_false v 0xFFFF_FFFF (omega arith)) p8
      ])
    ])
  ])
]

pub follow-fixed :
    (callback : List ℕ → Event) (t rest : List ℕ) (event : Event)
    → callback (t ++ rest) ≡ event
    → follow (Plan.fixed (length t) callback) (t ++ rest) ≡ done (1 + length t) event
unfolding follow
follow-fixed callback t rest event e = ground (arith, length-append t rest)

follow-counted :
    (callback : List ℕ → Event) (count : List ℕ → ℕ) (t bytes rest : List ℕ)
    → count (t ++ (bytes ++ rest)) ≡ length bytes
    → follow (Plan.counted (length t) count callback) (t ++ (bytes ++ rest))
      ≡ done (1 + length t + length bytes) (callback bytes)
unfolding follow
follow-counted callback count t bytes rest e = ground (
  arith,
  length-append t (bytes ++ rest),
  length-append bytes rest,
  drop-append_self t (bytes ++ rest),
  take-append_self bytes rest,
)

-- The argument's bytes at the three wide widths.
abbrev pub two_bytes : ℕ → List ℕ
two_bytes v = byte_at 8 v ∷ byte_at 0 v ∷ []

abbrev pub four_bytes : ℕ → List ℕ
four_bytes v = byte_at 24 v ∷ byte_at 16 v ∷ byte_at 8 v ∷ byte_at 0 v ∷ []

abbrev pub eight_bytes : ℕ → List ℕ
eight_bytes v =
    byte_at 56 v
    ∷ byte_at 48 v
    ∷ byte_at 40 v
    ∷ byte_at 32 v
    ∷ byte_at 24 v
    ∷ byte_at 16 v
    ∷ byte_at 8 v
    ∷ byte_at 0 v
    ∷ []

follow-number :
    (callback : ℕ → Event) (other : Plan) (v : ℕ) (rest : List ℕ)
    → v < 2 ^ 64
    → follow (number (lead v) callback other) (tail v ++ rest)
      ≡ done (1 + length (tail v)) (callback v)
follow-number callback other v rest h =
    by_width
      (λ i t. follow (number i callback other) (t ++ rest) ≡ done (1 + length t) (callback v)) v
      (λ small. rw (le→leb v 23 small) (unfold follow in refl))
      (λ small.
        follow-fixed (λ t. callback (load_uint8 t)) (v ∷ []) rest _
          (unfold load_uint8 in ap callback (omega arith)))
      (λ small.
        follow-fixed (λ t. callback (load_uint16 t)) (two_bytes v) rest _
          (ap callback (load_uint16-bytes v rest (omega arith))))
      (λ small.
        follow-fixed (λ t. callback (load_uint32 t)) (four_bytes v) rest _
          (ap callback (load_uint32-bytes v rest (omega arith))))
      (follow-fixed (λ t. callback (load_uint64 t)) (eight_bytes v) rest _
        (ap callback (load_uint64-bytes v rest h)))

follow-counted_string :
    (callback : List ℕ → Event) (other : Plan) (bytes rest : List ℕ)
    → length bytes < 2 ^ 64
    → follow
        (counted_string (lead (length bytes)) callback other)
        (tail (length bytes) ++ (bytes ++ rest))
      ≡ done (1 + length (tail (length bytes)) + length bytes) (callback bytes)
follow-counted_string callback other bytes rest h =
    let v = length bytes in
    let more = bytes ++ rest in
    by_width
      (λ i t.
        follow (counted_string i callback other) (t ++ more)
        ≡ done (1 + length t + v) (callback bytes))
      v (λ small. rw (le→leb v 23 small) (follow-counted callback (λ _. v) [] bytes rest refl))
      (λ small.
        follow-counted callback load_uint8 (v ∷ []) bytes rest (unfold load_uint8 in omega arith))
      (λ small.
        follow-counted callback load_uint16 (two_bytes v) bytes rest
          (load_uint16-bytes v more (omega arith)))
      (λ small.
        follow-counted callback load_uint32 (four_bytes v) bytes rest
          (load_uint32-bytes v more (omega arith)))
      (follow-counted callback load_uint64 (eight_bytes v) bytes rest (load_uint64-bytes v more h))

-- The plan of a leading byte put together from a major type and additional information.
pub plan-major :
    (ops : FloatOps) (major base i : ℕ)
    → i < 32
    → base ≡ 32 * major
    → plan ops (base + i) ≡ major_plan ops major i
unfolding plan
plan-major ops major base i h e =
    let p : (base + i) / 32 ≡ major = omega arith in
    let q : (base + i) % 32 ≡ i = omega arith in rw (p, q)

stream_decode-lead :
    (ops : FloatOps) (major base v : ℕ) (rest : List ℕ) (d : Decoded)
    → major < 8
    → base ≡ 32 * major
    → follow (major_plan ops major (lead v)) (tail v ++ rest) ≡ d
    → stream_decode ops (header base v ++ rest) ≡ d
stream_decode-lead ops major base v rest d small e f = rw (header-tail base v) (
    stream_decode-plan ops (base + lead v) (tail v ++ rest) (omega (arith, lead-lt v))
    ∙ rw (plan-major ops major base (lead v) (lead-lt v) e) f)

length-header : (base v : ℕ) → length (header base v) ≡ 1 + length (tail v)
length-header base v = rw (header-tail base v) (omega arith)

module _ (ops : FloatOps) (v : ℕ) (rest : List ℕ) where
  pub stream_decode-array_start :
      v < 2 ^ 64
      → stream_decode ops (header 0x80 v ++ rest)
        ≡ done (length (header 0x80 v)) (Event.array_start v)
  stream_decode-array_start h = rw (length-header 0x80 v) (
      stream_decode-lead ops 4 0x80 v rest _ (omega arith) refl
        (follow-number Event.array_start (indefinite_or (lead v) Event.indef_array_start) v rest h))

  pub stream_decode-map_start :
      v < 2 ^ 64
      → stream_decode ops (header 0xA0 v ++ rest)
        ≡ done (length (header 0xA0 v)) (Event.map_start v)
  stream_decode-map_start h = rw (length-header 0xA0 v) (
      stream_decode-lead ops 5 0xA0 v rest _ (omega arith) refl
        (follow-number Event.map_start (indefinite_or (lead v) Event.indef_map_start) v rest h))

  pub stream_decode-tag :
      v < 2 ^ 64
      → stream_decode ops (header 0xC0 v ++ rest) ≡ done (length (header 0xC0 v)) (Event.tag v)
  stream_decode-tag h = rw (length-header 0xC0 v) (
      stream_decode-lead ops 6 0xC0 v rest _ (omega arith) refl
        (follow-number Event.tag (Plan.refuse) v rest h))

module _ (ops : FloatOps) (bytes rest : List ℕ) where
  pub stream_decode-byte_string :
      length bytes < 2 ^ 64
      → stream_decode ops (header 0x40 (length bytes) ++ (bytes ++ rest))
        ≡ done (length (header 0x40 (length bytes)) + length bytes) (Event.byte_string bytes)
  stream_decode-byte_string h = rw (length-header 0x40 (length bytes)) (
      stream_decode-lead ops 2 0x40 (length bytes) (bytes ++ rest) _ (omega arith) refl (
        follow-counted_string Event.byte_string
          (indefinite_or (lead (length bytes)) Event.byte_string_start) bytes rest h))

  pub stream_decode-string :
      length bytes < 2 ^ 64
      → stream_decode ops (header 0x60 (length bytes) ++ (bytes ++ rest))
        ≡ done (length (header 0x60 (length bytes)) + length bytes) (Event.string bytes)
  stream_decode-string h = rw (length-header 0x60 (length bytes)) (
      stream_decode-lead ops 3 0x60 (length bytes) (bytes ++ rest) _ (omega arith) refl (
        follow-counted_string Event.string (indefinite_or (lead (length bytes)) Event.string_start)
          bytes rest h))
