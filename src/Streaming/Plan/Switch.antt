-- ===== src/Streaming/Plan/Switch.antt =====
-- The switch of `cbor_stream_decode` does what is planned for each leading byte.
use libcbor.Base.{ℕ, suc, ◌+◌, ◌/◌, ◌%◌, ◌<◌, ◌≡◌, refl, arith}
use libcbor.Base.{List, ◌∷◌}
use libcbor.Base.{length}
use libcbor.Loaders.{FloatOps}
use libcbor.Streaming.{Status, DecoderResult, Decoded, claimed_first}
use libcbor.Streaming.{claim_bytes}
use libcbor.Streaming.{decode_uint, decode_negint, decode_byte_string, decode_string, decode_array}
use libcbor.Streaming.{decode_map, decode_tag, decode_float_ctrl, decode_by_major, stream_decode}
use libcbor.Streaming.Plan.{plan, follow}
use libcbor.Base.{◌∙◌}
use libcbor.Streaming.Plan.Majors.{
  by_claims, by_claims-follow, Agrees, decode_uint-Agrees, decode_negint-Agrees,
  decode_byte_string-Agrees, decode_string-Agrees, decode_array-Agrees, decode_map-Agrees,
  decode_tag-Agrees, decode_float_ctrl-Agrees,
}
use libcbor.Base.{Bool, true, false, leb, if◌then◌else◌}

first_claim :
    (n : ℕ)
    → (claim_bytes 1 (suc n) (record { read = 0; status = Status.finished; required = 0 })).1
      ≡ claimed_first
unfolding claim_bytes
first_claim n = ground arith

if-same :
    {A : Type 0} (c : Bool) (x y z : A)
    → (c ≡ true → x ≡ z)
    → (c ≡ false → y ≡ z)
    → (if c then x else y) ≡ z
if-same true x y z h k = h refl
if-same false x y z h k = k refl

at_major :
    (ops : FloatOps) (s : List ℕ) (decode : ℕ → List ℕ → DecoderResult → Decoded)
    (major base b i : ℕ)
    → Agrees ops s decode major base i
    → b ≡ base + i
    → b / 32 ≡ major
    → b % 32 ≡ i
    → decode b (b ∷ s) claimed_first ≡ by_claims (plan ops b) b s
unfolding plan
at_major ops s decode major base b i agrees e p q = rw (p, q) (rw e agrees)

decode_by_major-plan :
    (ops : FloatOps) (s : List ℕ) (b : ℕ)
    → b < 256
    → decode_by_major ops b (b ∷ s) claimed_first ≡ by_claims (plan ops b) b s
unfolding decode_by_major
decode_by_major-plan ops s b h =
    let i = b % 32 in
    let is_info : i < 32 = omega arith in
    if-same (leb b 0x1F) _ _ _
      (λ e.
        at_major ops s decode_uint 0 0x0 b i (decode_uint-Agrees ops s i is_info) (ground arith)
          (ground arith) refl)
      (λ e0.
        if-same (leb b 0x3F) _ _ _
          (λ e.
            at_major ops s decode_negint 1 0x20 b i (decode_negint-Agrees ops s i is_info)
              (ground arith) (ground arith) refl)
          (λ e1.
            if-same (leb b 0x5F) _ _ _
              (λ e.
                at_major ops s decode_byte_string 2 0x40 b i
                  (decode_byte_string-Agrees ops s i is_info) (ground arith) (ground arith) refl)
              (λ e2.
                if-same (leb b 0x7F) _ _ _
                  (λ e.
                    at_major ops s decode_string 3 0x60 b i (decode_string-Agrees ops s i is_info)
                      (ground arith) (ground arith) refl)
                  (λ e3.
                    if-same (leb b 0x9F) _ _ _
                      (λ e.
                        at_major ops s decode_array 4 0x80 b i (decode_array-Agrees ops s i is_info)
                          (ground arith) (ground arith) refl)
                      (λ e4.
                        if-same (leb b 0xBF) _ _ _
                          (λ e.
                            at_major ops s decode_map 5 0xA0 b i (decode_map-Agrees ops s i is_info)
                              (ground arith) (ground arith) refl)
                          (λ e5.
                            if-same (leb b 0xDF) _ _ _
                              (λ e.
                                at_major ops s decode_tag 6 0xC0 b i
                                  (decode_tag-Agrees ops s i is_info) (ground arith) (ground arith)
                                  refl)
                              (λ e6.
                                at_major ops s (decode_float_ctrl ops) 7 0xE0 b i
                                  (decode_float_ctrl-Agrees ops s i is_info) (ground arith)
                                  (ground arith) refl)))))))

-- On every leading byte, a number below 256: `plan` stands for what the loaders make of it.
-- The statement without the code's loaders is in Rfc.antt.
pub stream_decode-plan :
    (ops : FloatOps) (b : ℕ) (s : List ℕ)
    → b < 256
    → stream_decode ops (b ∷ s) ≡ follow (plan ops b) s
unfolding stream_decode
stream_decode-plan ops b s h =
    rw (first_claim (length s)) (decode_by_major-plan ops s b h ∙ by_claims-follow (plan ops b) b s)
