-- ===== src/Streaming/Plan/Rfc.antt =====
-- The leading byte and what is behind it as RFC 8949 has them, with none of the code's loaders, and
-- src/cbor/streaming.c against it.
use libcbor.Base.{ℕ, zero, suc, ◌+◌, ◌*◌, ◌/◌, ◌%◌, ◌^◌, ◌<◌, ◌≡◌, refl, ap, ◌∙◌, fun_ext, arith}
use libcbor.Base.{List, [], ◌∷◌, negsuc, sub_ℕ, if◌then◌else◌, ◌==◌}
use libcbor.Items.{IntWidth}
use libcbor.Loaders.{
  FloatOps, load_uint8, load_uint16, load_uint32, load_uint64, load_half, load_float, load_double,
  half_value, byte,
}
use libcbor.Streaming.{stream_decode}
use libcbor.Streaming.Plan.{Plan, Reading, loader, simple_plan_by, major_plan_by, plan, follow}
use libcbor.Streaming.Plan.Switch.{stream_decode-plan}

-- The number that so many bytes spell, the most significant first, behind `so_far`.
unfoldable pub spelled : ℕ → ℕ → List ℕ → ℕ
spelled zero so_far s = so_far
spelled (suc n) so_far [] = spelled n (256 * so_far) []
spelled (suc n) so_far (b ∷ s) = spelled n (256 * so_far + b) s

-- Section 3: numbers in network byte order.
unfoldable pub big_endian : Reading
unfolding spelled
big_endian IntWidth.int8 s = spelled 1 0 s % 2 ^ 8
big_endian IntWidth.int16 s = spelled 2 0 s % 2 ^ 16
big_endian IntWidth.int32 s = spelled 4 0 s % 2 ^ 32
big_endian IntWidth.int64 s = spelled 8 0 s % 2 ^ 64

module _ (ops : FloatOps) where
  -- Appendix D: the float that sign, exponent and mantissa of a half stand for.
  abbrev magnitude : ℕ → ℕ → ℕ
  magnitude exp mant =
      if exp == 0
      then ops.ldexp mant (negsuc 23)
      else if exp == 31
      then (if mant == 0 then ops.infinity else ops.nan)
      else ops.ldexp (mant + 1024) (sub_ℕ exp 25)

  abbrev signed : ℕ → ℕ → ℕ → ℕ
  signed sign exp mant =
      ops.to_float (if sign == 0 then magnitude exp mant else ops.negate (magnitude exp mant))

  unfoldable pub half_float : ℕ → ℕ
  half_float half = signed (half / 2 ^ 15) (half / 2 ^ 10 % 2 ^ 5) (half % 2 ^ 10)

  unfoldable pub rfc_half : List ℕ → ℕ
  unfolding big_endian half_float
  rfc_half s = half_float (big_endian IntWidth.int16 s)

  -- The leading byte.
  unfoldable pub rfc_plan : ℕ → Plan
  unfolding big_endian rfc_half
  rfc_plan b =
      major_plan_by big_endian
        (simple_plan_by rfc_half (big_endian IntWidth.int32) (big_endian IntWidth.int64)) (b / 32)
        (b % 32)

spelled-load_uint8 : (s : List ℕ) → load_uint8 s ≡ big_endian IntWidth.int8 s
unfolding load_uint8 big_endian
spelled-load_uint8 [] = refl
spelled-load_uint8 (a ∷ s) = omega arith

spelled-load_uint16 : (s : List ℕ) → load_uint16 s ≡ big_endian IntWidth.int16 s
unfolding load_uint16 big_endian
spelled-load_uint16 [] = refl
spelled-load_uint16 (a ∷ []) = omega arith
spelled-load_uint16 (a ∷ b ∷ s) = omega arith

spelled-load_uint32 : (s : List ℕ) → load_uint32 s ≡ big_endian IntWidth.int32 s
unfolding load_uint32 big_endian
spelled-load_uint32 [] = refl
spelled-load_uint32 (a ∷ []) = omega arith
spelled-load_uint32 (a ∷ b ∷ []) = omega arith
spelled-load_uint32 (a ∷ b ∷ c ∷ []) = omega arith
spelled-load_uint32 (a ∷ b ∷ c ∷ d ∷ s) = omega arith

spelled-load_uint64 : (s : List ℕ) → load_uint64 s ≡ big_endian IntWidth.int64 s
unfolding load_uint64 big_endian
spelled-load_uint64 [] = refl
spelled-load_uint64 (a ∷ []) = omega arith
spelled-load_uint64 (a ∷ b ∷ []) = omega arith
spelled-load_uint64 (a ∷ b ∷ c ∷ []) = omega arith
spelled-load_uint64 (a ∷ b ∷ c ∷ d ∷ []) = omega arith
spelled-load_uint64 (a ∷ b ∷ c ∷ d ∷ e ∷ []) = omega arith
spelled-load_uint64 (a ∷ b ∷ c ∷ d ∷ e ∷ f ∷ []) = omega arith
spelled-load_uint64 (a ∷ b ∷ c ∷ d ∷ e ∷ f ∷ g ∷ []) = omega arith
spelled-load_uint64 (a ∷ b ∷ c ∷ d ∷ e ∷ f ∷ g ∷ h ∷ s) = omega arith

loader-big_endian : (w : IntWidth) → loader w ≡ big_endian w
loader-big_endian IntWidth.int8 = fun_ext spelled-load_uint8
loader-big_endian IntWidth.int16 = fun_ext spelled-load_uint16
loader-big_endian IntWidth.int32 = fun_ext spelled-load_uint32
loader-big_endian IntWidth.int64 = fun_ext spelled-load_uint64

half_value-half_float : (ops : FloatOps) (v : ℕ) → half_value ops v ≡ half_float ops (v % 2 ^ 16)
unfolding half_value half_float
half_value-half_float ops v =
    let exp : v / 2 ^ 10 % 2 ^ 5 ≡ v % 2 ^ 16 / 2 ^ 10 % 2 ^ 5 = omega arith in
    let mant : v % 2 ^ 10 ≡ v % 2 ^ 16 % 2 ^ 10 = omega arith in
    let sign : v / 2 ^ 15 % 2 ≡ v % 2 ^ 16 / 2 ^ 15 = omega arith in
    ap (λ n. signed ops n (v / 2 ^ 10 % 2 ^ 5) (v % 2 ^ 10)) sign
    ∙ ap (λ n. signed ops (v % 2 ^ 16 / 2 ^ 15) n (v % 2 ^ 10)) exp
    ∙ ap (λ n. signed ops (v % 2 ^ 16 / 2 ^ 15) (v % 2 ^ 16 / 2 ^ 10 % 2 ^ 5) n) mant

load_half-rfc_half : (ops : FloatOps) (s : List ℕ) → load_half ops s ≡ rfc_half ops s
unfolding load_half rfc_half load_uint16
load_half-rfc_half ops s =
    half_value-half_float ops (byte s 0 * 2 ^ 8 + byte s 1)
    ∙ ap (half_float ops) (spelled-load_uint16 s)

plan-rfc_plan : (ops : FloatOps) (b : ℕ) → plan ops b ≡ rfc_plan ops b
unfolding plan rfc_plan load_float load_double
plan-rfc_plan ops b =
    ap
      (λ (half : List ℕ → ℕ).
        major_plan_by loader (simple_plan_by half (loader IntWidth.int32) (loader IntWidth.int64))
          (b / 32) (b % 32))
      (fun_ext (load_half-rfc_half ops))
    ∙ ap
        (λ (read : Reading).
          major_plan_by read
            (simple_plan_by (rfc_half ops) (read IntWidth.int32) (read IntWidth.int64)) (b / 32)
            (b % 32))
        (fun_ext loader-big_endian)

-- On every leading byte (a number below 256) and whatever bytes come after it, `cbor_stream_decode`
-- does what RFC 8949 has for its major type and additional information, numbers and lengths being
-- big-endian and half floats read as Appendix D has them, with one restriction: of the simple values
-- only false, true, null and undefined are accepted, and the leading bytes 0xE0 to 0xF3 and 0xF8 of the
-- others, which the RFC counts as well-formed, are refused like the reserved ones.
pub stream_decode-rfc_plan :
    (ops : FloatOps) (b : ℕ) (s : List ℕ)
    → b < 256
    → stream_decode ops (b ∷ s) ≡ follow (rfc_plan ops b) s
stream_decode-rfc_plan ops b s h =
    stream_decode-plan ops b s h ∙ ap (λ (p : Plan). follow p s) (plan-rfc_plan ops b)
