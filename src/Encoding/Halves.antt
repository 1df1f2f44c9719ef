-- ===== src/Encoding/Halves.antt =====
-- The halves that `cbor_encode_half` of src/cbor/encoding.c writes, against the fields of binary32 and
-- binary16 numbers.
use Prim.Native.Nat.{bit_or}
use libcbor.Base.{
  ℕ, ◌+◌, ◌-◌, ◌*◌, ◌/◌, ◌%◌, ◌^◌, ◌≤◌, ◌<◌, ◌≡◌, refl, ap, ◌∙◌, arith, Bool, true, false,
  if◌then◌else◌, ltb, ◌==◌,
}
use libcbor.Base.{ne→==_false}
use libcbor.Encoders.{encode_uint16_at}
use libcbor.Encoding.Floats.{half_of_normal, half_bits, half_asserts, encode_half}
use libcbor.Loaders.{FloatOps}
use libcbor.Encoding.Fields.{bit, bit-le, or_sign, rounded_half, normal_half}

-- A binary32 number, by the fields of its bits, and the binary16 number that is to be written for it:
-- sign, biased exponent and fraction have 1, 8 and 23 bits in the first, 1, 5 and 10 in the second. For
-- the subnormal halves it is what the comments in the function say, for the others src/cbor/encoding.h.
-- Exponents from 143 to 254 are left out, a half having no such exponent.
pub data IsHalf : ℕ → ℕ → Type 0 where
  -- Zeros, and denormalized numbers: the sign and the ten most significant bits of the fraction.
  denormal :
      (negative : Bool) (m low : ℕ)
      → m < 2 ^ 10
      → low < 2 ^ 13
      → IsHalf (bit negative * 2 ^ 31 + (m * 2 ^ 13 + low)) (bit negative * 2 ^ 15 + m)
  -- Below 2 ^ -24.
  tiny :
      (negative : Bool) (exp mant : ℕ)
      → 1 ≤ exp
      → exp < 103
      → mant < 2 ^ 23
      → IsHalf (bit negative * 2 ^ 31 + exp * 2 ^ 23 + mant) 0
  -- From 2 ^ (k - 24) to 2 ^ (k - 23): the nearest multiple of 2 ^ -24, the larger one of two.
  subnormal :
      (negative : Bool) (k mant m r : ℕ)
      → k ≤ 9
      → mant < 2 ^ 23
      → r < 2 ^ (23 - k)
      → 2 ^ 23 + mant + 2 ^ (22 - k) ≡ m * 2 ^ (23 - k) + r
      → IsHalf (bit negative * 2 ^ 31 + (103 + k) * 2 ^ 23 + mant) (bit negative * 2 ^ 15 + m)
  -- The same exponent, biased by 15, and the ten most significant bits of the fraction.
  normal :
      (negative : Bool) (exp m low : ℕ)
      → 1 ≤ exp
      → exp ≤ 30
      → m < 2 ^ 10
      → low < 2 ^ 13
      → IsHalf
          (bit negative * 2 ^ 31 + (exp + 112) * 2 ^ 23 + (m * 2 ^ 13 + low))
          (bit negative * 2 ^ 15 + exp * 2 ^ 10 + m)
  infinite :
      (negative : Bool)
      → IsHalf (bit negative * 2 ^ 31 + 255 * 2 ^ 23) (bit negative * 2 ^ 15 + 31 * 2 ^ 10)
  nan : (v : ℕ) → v < 2 ^ 32 → 255 * 2 ^ 23 < v % 2 ^ 31 → IsHalf v 0x7E00

module _ (ops : FloatOps) where
  -- The value of `half_bits`, by the three fields.
  of_fields : ℕ → ℕ → ℕ → ℕ → ℕ
  of_fields val sign exp mant =
      if exp == 0xFF
      then (if ops.isnan_float val then 0x7E00 else bit_or sign 0x7C00 % 2 ^ 16)
      else if exp == 0x00
      then bit_or sign (mant / 2 ^ 13) % 2 ^ 16
      else half_of_normal sign exp mant

  half_bits-of_fields :
      (val sign exp mant : ℕ)
      → val / 2 ^ 31 % 2 * 2 ^ 15 ≡ sign
      → val / 2 ^ 23 % 2 ^ 8 ≡ exp
      → val % 2 ^ 23 ≡ mant
      → half_bits ops val ≡ of_fields val sign exp mant
  unfolding half_bits of_fields
  half_bits-of_fields val sign exp mant s e m =
      ap (λ n. of_fields val n (val / 2 ^ 23 % 2 ^ 8) (val % 2 ^ 23)) s
      ∙ ap (λ n. of_fields val sign n (val % 2 ^ 23)) e
      ∙ ap (λ n. of_fields val sign exp n) m

  -- An exponent that is neither 0 nor 255.
  usual_exponent :
      (val sign exp mant : ℕ)
      → 1 ≤ exp
      → exp < 255
      → of_fields val sign exp mant ≡ half_of_normal sign exp mant
  unfolding of_fields
  usual_exponent val sign exp mant h k =
      rw (ne→==_false exp 0xFF (λ e. omega arith), ne→==_false exp 0 (λ e. omega arith)) refl

  by_exponent :
      (val sign exp mant half : ℕ)
      → val / 2 ^ 31 % 2 * 2 ^ 15 ≡ sign
      → val / 2 ^ 23 % 2 ^ 8 ≡ exp
      → val % 2 ^ 23 ≡ mant
      → 1 ≤ exp
      → exp < 255
      → half_of_normal sign exp mant ≡ half
      → half_bits ops val ≡ half
  by_exponent val sign exp mant half s e m h k r =
      half_bits-of_fields val sign exp mant s e m ∙ usual_exponent val sign exp mant h k ∙ r

  denormal_half :
      (val : ℕ) (negative : Bool) (m low : ℕ)
      → m < 2 ^ 10
      → low < 2 ^ 13
      → val ≡ bit negative * 2 ^ 31 + (m * 2 ^ 13 + low)
      → half_bits ops val ≡ bit negative * 2 ^ 15 + m
  unfolding of_fields
  denormal_half val negative m low h k e =
      let one = bit-le negative in
      let fraction : (m * 2 ^ 13 + low) / 2 ^ 13 ≡ m = omega arith in
      half_bits-of_fields val (bit negative * 2 ^ 15) 0 (m * 2 ^ 13 + low) (omega (arith, one, e))
        (omega (arith, one, e)) (omega (arith, one, e))
      ∙ ap (λ n. bit_or (bit negative * 2 ^ 15) n % 2 ^ 16) fraction
      ∙ ap (λ n. n % 2 ^ 16) (or_sign negative m (omega arith))
      ∙ omega (arith, one)

  tiny_half : (sign exp mant : ℕ) → exp < 103 → half_of_normal sign exp mant ≡ 0
  unfolding half_of_normal
  tiny_half sign exp mant h = let small : ltb exp 103 ≡ true = ground arith in rw small refl

  infinite_half :
      (negative : Bool)
      → half_bits ops (bit negative * 2 ^ 31 + 255 * 2 ^ 23) ≡ bit negative * 2 ^ 15 + 31 * 2 ^ 10
  unfolding half_bits
  infinite_half false = rw (ops.isnan_float_law (255 * 2 ^ 23)) refl
  infinite_half true = rw (ops.isnan_float_law (2 ^ 31 + 255 * 2 ^ 23)) refl

  nan_half : (v : ℕ) → v < 2 ^ 32 → 255 * 2 ^ 23 < v % 2 ^ 31 → half_bits ops v ≡ 0x7E00
  unfolding of_fields
  nan_half v h k =
      let large : ltb (255 * 2 ^ 23) (v % 2 ^ 31) ≡ true = ground arith in
      half_bits-of_fields v _ 0xFF _ refl (omega arith) refl
      ∙ rw (ops.isnan_float_law v, large) refl

  -- What is promised is written.
  pub half_bits-IsHalf : {v half : ℕ} → IsHalf v half → half_bits ops v ≡ half
  half_bits-IsHalf (IsHalf.denormal negative m low h k) = denormal_half _ negative m low h k refl
  half_bits-IsHalf (IsHalf.tiny negative exp mant pos h small) =
      let one = bit-le negative in
      by_exponent _ (bit negative * 2 ^ 15) exp mant 0 (omega (arith, one)) (omega (arith, one))
        (omega (arith, one)) pos (omega arith) (tiny_half _ exp mant h)
  half_bits-IsHalf (IsHalf.subnormal negative k mant m r h small rest e) =
      let one = bit-le negative in
      by_exponent _ (bit negative * 2 ^ 15) (103 + k) mant _ (omega (arith, one))
        (omega (arith, one)) (omega (arith, one)) (omega arith) (omega arith)
        (rounded_half negative k h mant m r small rest e)
  half_bits-IsHalf (IsHalf.normal negative exp m low pos h small rest) =
      let one = bit-le negative in
      by_exponent _ (bit negative * 2 ^ 15) (exp + 112) (m * 2 ^ 13 + low) _ (omega (arith, one))
        (omega (arith, one)) (omega (arith, one)) (omega arith) (omega arith)
        (normal_half negative exp m low pos h small rest)
  half_bits-IsHalf (IsHalf.infinite negative) = infinite_half negative
  half_bits-IsHalf (IsHalf.nan v h k) = nan_half v h k

  -- The assertion of `cbor_encode_half` holds.
  pub half_asserts_lem : (val : ℕ) → half_asserts ops val ≡ true
  unfolding half_asserts
  half_asserts_lem val = ground (arith, ops.isnan_float_law val)

  pub encode_half-half_bits :
      (val size : ℕ) → encode_half ops val size ≡ encode_uint16_at (half_bits ops val) size 0xE0
  unfolding encode_half
  encode_half-half_bits val size = rw (half_asserts_lem val) refl
