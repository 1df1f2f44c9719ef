-- ===== src/Streaming/Plan/Majors.antt =====
-- The case of each major type in `cbor_stream_decode` does what is planned for it.
use libcbor.Base.{ℕ, zero, suc, ◌+◌, ◌-◌, ◌%◌, ◌^◌, ◌≤◌, ◌<◌, ◌≡◌, refl, arith}
use libcbor.Base.{List, ◌∷◌}
use libcbor.Loaders.{FloatOps, load_uint8}
use libcbor.Streaming.{DecoderResult, Event, Decoded, malformed, invoke, claimed_first}
use libcbor.Streaming.{claim_bytes, claim_then, claim_and_invoke, read_claim_invoke}
use libcbor.Streaming.{decode_uint, decode_negint, decode_byte_string, decode_string, decode_array}
use libcbor.Streaming.{decode_map, decode_tag, decode_float_ctrl}
use libcbor.Streaming.Plan.{Plan}
use libcbor.Streaming.Plan.{major_plan, follow}
use libcbor.Base.{le→leb}
use native.Mathlib.Decide.{dec_le, ℕ_discrete}

claim_then-fixed :
    (n : ℕ) (callback : List ℕ → Event) (b : ℕ) (s : List ℕ)
    → claim_then n callback (b ∷ s) claimed_first ≡ follow (Plan.fixed n callback) s
unfolding claim_then claim_bytes follow
claim_then-fixed n callback b s = ground arith

claim_and_invoke-counted :
    (callback : List ℕ → Event) (count : List ℕ → ℕ) (b : ℕ) (s : List ℕ)
    → claim_and_invoke callback (count s) 0 (b ∷ s) claimed_first
      ≡ follow (Plan.counted 0 count callback) s
unfolding claim_and_invoke claim_bytes follow
claim_and_invoke-counted callback count b s = ground arith

read_claim_invoke-counted :
    (callback : List ℕ → Event) (loader : List ℕ → ℕ) (k b : ℕ) (s : List ℕ)
    → read_claim_invoke callback loader k (b ∷ s) claimed_first
      ≡ follow (Plan.counted k loader callback) s
unfolding read_claim_invoke claim_and_invoke claim_bytes follow
read_claim_invoke-counted callback loader k b s = ground arith

-- A plan carried out by the claims of the C code, behind the claim of the leading byte `b`.
abbrev pub by_claims : Plan → ℕ → List ℕ → Decoded
by_claims (Plan.now event) b s = invoke claimed_first event
by_claims Plan.refuse b s = malformed
by_claims (Plan.fixed n callback) b s = claim_then n callback (b ∷ s) claimed_first
by_claims (Plan.counted zero count callback) b s =
    claim_and_invoke callback (count s) 0 (b ∷ s) claimed_first
by_claims (Plan.counted (suc k) count callback) b s =
    read_claim_invoke callback count (suc k) (b ∷ s) claimed_first

pub by_claims-follow : (p : Plan) (b : ℕ) (s : List ℕ) → by_claims p b s ≡ follow p s
by_claims-follow (Plan.now event) b s = unfold follow in refl
by_claims-follow Plan.refuse b s = unfold follow in refl
by_claims-follow (Plan.fixed n callback) b s = claim_then-fixed n callback b s
by_claims-follow (Plan.counted zero count callback) b s =
    claim_and_invoke-counted callback count b s
by_claims-follow (Plan.counted (suc k) count callback) b s =
    read_claim_invoke-counted callback count (suc k) b s

-- The cases of the additional information: at most 23, or one of eight numbers.
by_info :
    (P : ℕ → Type 0)
    → ((j : ℕ) → j ≤ 23 → P j)
    → P 24
    → P 25
    → P 26
    → P 27
    → P 28
    → P 29
    → P 30
    → P 31
    → (i : ℕ) → i < 32
    → P i
by_info P low p24 p25 p26 p27 p28 p29 p30 p31 i h = elim (dec_le i 23) [
  | yes small ↦ low i small
  | no large ↦ elim (ℕ_discrete i 24) [
    | yes e ↦ rw e p24
    | no n24 ↦ elim (ℕ_discrete i 25) [
      | yes e ↦ rw e p25
      | no n25 ↦ elim (ℕ_discrete i 26) [
        | yes e ↦ rw e p26
        | no n26 ↦ elim (ℕ_discrete i 27) [
          | yes e ↦ rw e p27
          | no n27 ↦ elim (ℕ_discrete i 28) [
            | yes e ↦ rw e p28
            | no n28 ↦ elim (ℕ_discrete i 29) [
              | yes e ↦ rw e p29
              | no n29 ↦ elim (ℕ_discrete i 30) [
                | yes e ↦ rw e p30
                | no n30 ↦ let e : i ≡ 31 = omega arith in rw e p31
              ]
            ]
          ]
        ]
      ]
    ]
  ]
]

module _ (ops : FloatOps) (s : List ℕ) where
  -- The cases of one major type do what the plan says, at the leading byte `base + info`.
  abbrev pub Agrees : (ℕ → List ℕ → DecoderResult → Decoded) → ℕ → ℕ → ℕ → Type 0
  Agrees decode major base info =
      decode (base + info) ((base + info) ∷ s) claimed_first
      ≡ by_claims (major_plan ops major info) (base + info) s

  pub decode_uint-Agrees : (i : ℕ) → i < 32 → Agrees decode_uint 0 0x0 i
  unfolding decode_uint load_uint8
  decode_uint-Agrees =
      by_info (Agrees decode_uint 0 0x0) embedded refl refl refl refl refl refl refl refl
    where
      embedded : (j : ℕ) → j ≤ 23 → Agrees decode_uint 0 0x0 j
      embedded j h =
          let value : (0 + j) % 2 ^ 8 ≡ j = omega arith in
          rw (le→leb (0x0 + j) 0x17 (omega arith), le→leb j 23 h, value)

  pub decode_negint-Agrees : (i : ℕ) → i < 32 → Agrees decode_negint 1 0x20 i
  unfolding decode_negint load_uint8
  decode_negint-Agrees =
      by_info (Agrees decode_negint 1 0x20) embedded refl refl refl refl refl refl refl refl
    where
      embedded : (j : ℕ) → j ≤ 23 → Agrees decode_negint 1 0x20 j
      embedded j h =
          let value : ((0x20 + j) % 2 ^ 8 + 256 - 0x20) % 256 ≡ j = omega arith in
          rw (le→leb (0x20 + j) 0x37 (omega arith), le→leb j 23 h, value)

  pub decode_byte_string-Agrees : (i : ℕ) → i < 32 → Agrees decode_byte_string 2 0x40 i
  unfolding decode_byte_string load_uint8
  decode_byte_string-Agrees =
      by_info (Agrees decode_byte_string 2 0x40) embedded refl refl refl refl refl refl refl refl
    where
      embedded : (j : ℕ) → j ≤ 23 → Agrees decode_byte_string 2 0x40 j
      embedded j h =
          let value : ((0x40 + j) % 2 ^ 8 + 2 ^ 64 - 0x40) % 2 ^ 64 ≡ j = omega arith in
          rw (le→leb (0x40 + j) 0x57 (omega arith), le→leb j 23 h, value)

  pub decode_string-Agrees : (i : ℕ) → i < 32 → Agrees decode_string 3 0x60 i
  unfolding decode_string load_uint8
  decode_string-Agrees =
      by_info (Agrees decode_string 3 0x60) embedded refl refl refl refl refl refl refl refl
    where
      embedded : (j : ℕ) → j ≤ 23 → Agrees decode_string 3 0x60 j
      embedded j h =
          let value : ((0x60 + j) % 2 ^ 8 + 2 ^ 64 - 0x60) % 2 ^ 64 ≡ j = omega arith in
          rw (le→leb (0x60 + j) 0x77 (omega arith), le→leb j 23 h, value)

  pub decode_array-Agrees : (i : ℕ) → i < 32 → Agrees decode_array 4 0x80 i
  unfolding decode_array load_uint8
  decode_array-Agrees =
      by_info (Agrees decode_array 4 0x80) embedded refl refl refl refl refl refl refl refl
    where
      embedded : (j : ℕ) → j ≤ 23 → Agrees decode_array 4 0x80 j
      embedded j h =
          let value : ((0x80 + j) % 2 ^ 8 + 2 ^ 64 - 0x80) % 2 ^ 64 ≡ j = omega arith in
          rw (le→leb (0x80 + j) 0x97 (omega arith), le→leb j 23 h, value)

  pub decode_map-Agrees : (i : ℕ) → i < 32 → Agrees decode_map 5 0xA0 i
  unfolding decode_map load_uint8
  decode_map-Agrees =
      by_info (Agrees decode_map 5 0xA0) embedded refl refl refl refl refl refl refl refl
    where
      embedded : (j : ℕ) → j ≤ 23 → Agrees decode_map 5 0xA0 j
      embedded j h =
          let value : ((0xA0 + j) % 2 ^ 8 + 2 ^ 64 - 0xA0) % 2 ^ 64 ≡ j = omega arith in
          rw (le→leb (0xA0 + j) 0xB7 (omega arith), le→leb j 23 h, value)

  pub decode_tag-Agrees : (i : ℕ) → i < 32 → Agrees decode_tag 6 0xC0 i
  unfolding decode_tag load_uint8
  decode_tag-Agrees =
      by_info (Agrees decode_tag 6 0xC0) embedded refl refl refl refl refl refl refl refl
    where
      embedded : (j : ℕ) → j ≤ 23 → Agrees decode_tag 6 0xC0 j
      embedded j h =
          let value : ((0xC0 + j) % 2 ^ 8 + 2 ^ 64 - 0xC0) % 2 ^ 64 ≡ j = omega arith in
          rw (le→leb (0xC0 + j) 0xD7 (omega arith), le→leb j 23 h, value)

  pub decode_float_ctrl-Agrees : (i : ℕ) → i < 32 → Agrees (decode_float_ctrl ops) 7 0xE0 i
  unfolding decode_float_ctrl
  decode_float_ctrl-Agrees =
      by_info (Agrees (decode_float_ctrl ops) 7 0xE0) low refl refl refl refl refl refl refl refl
    where
      low : (j : ℕ) → j ≤ 23 → Agrees (decode_float_ctrl ops) 7 0xE0 j
      low j h = ground arith
