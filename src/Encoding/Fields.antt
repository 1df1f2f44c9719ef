-- ===== src/Encoding/Fields.antt =====
-- What the last branches of `cbor_encode_half` in src/cbor/encoding.c make of a sign, an exponent and a
-- mantissa.
use Prim.Native.Nat.{bit_or}
use libcbor.Base.{
  ℕ, ◌+◌, ◌-◌, ◌*◌, ◌/◌, ◌%◌, ◌^◌, ◌≤◌, ◌<◌, ◌≡◌, refl, ap, ◌∙◌, arith, Bool, true, false, ltb,
}
use libcbor.Base.{zero, suc}
use native.Mathlib.Decide.{dec_le}
use libcbor.Encoding.Bits.{bit_or_zero_left, shifted, bit_or-shifted, bit_or-shifted_low}
use libcbor.Encoding.Floats.{half_of_normal}

-- The sign bit.
abbrev pub bit : Bool → ℕ
bit false = 0
bit true = 1

pub bit-le : (b : Bool) → bit b ≤ 1
bit-le false = omega arith
bit-le true = omega arith

pub or_sign :
    (negative : Bool) (r : ℕ)
    → r < 2 ^ 15
    → bit_or (bit negative * 2 ^ 15) r ≡ bit negative * 2 ^ 15 + r
or_sign false r h = omega (arith, bit_or_zero_left r)
or_sign true r h = bit_or-shifted_low 15 1 r refl h

-- A subnormal half, its mantissa put together by the code.
subnormal_half :
    (negative : Bool) (k m mant : ℕ)
    → m ≤ 2 ^ 10
    → (ltb (103 + k) 103 ≡ false)
    → (ltb (103 + k) 113 ≡ true)
    → 2 ^ (103 + k - 103) % 2 ^ 16 + (mant / 2 ^ (125 - (103 + k)) + 1) / 2 % 2 ^ 16 ≡ m
    → half_of_normal (bit negative * 2 ^ 15) (103 + k) mant ≡ bit negative * 2 ^ 15 + m
unfolding half_of_normal
subnormal_half negative k m mant small large fits e =
    let sign : bit negative * 2 ^ 15 % 2 ^ 16 ≡ bit negative * 2 ^ 15 =
      omega (arith, bit-le negative) in
    let low : (bit negative * 2 ^ 15 + m) % 2 ^ 16 ≡ bit negative * 2 ^ 15 + m =
      omega (arith, bit-le negative) in
    rw (large, fits)
      (ap
          (λ n.
            bit_or n
              (2 ^ (103 + k - 103) % 2 ^ 16 + (mant / 2 ^ (125 - (103 + k)) + 1) / 2 % 2 ^ 16)
            % 2 ^ 16)
          sign
        ∙ ap (λ n. bit_or (bit negative * 2 ^ 15) n % 2 ^ 16) e
        ∙ ap (λ n. n % 2 ^ 16) (or_sign negative m (omega arith))
        ∙ low)

up_to_nine :
    (P : ℕ → Type 0)
    → P 0
    → P 1
    → P 2
    → P 3
    → P 4
    → P 5
    → P 6
    → P 7
    → P 8
    → P 9
    → (k : ℕ) → k ≤ 9
    → P k
up_to_nine P p0 p1 p2 p3 p4 p5 p6 p7 p8 p9 zero h = p0
up_to_nine P p0 p1 p2 p3 p4 p5 p6 p7 p8 p9 (suc zero) h = p1
up_to_nine P p0 p1 p2 p3 p4 p5 p6 p7 p8 p9 (suc (suc zero)) h = p2
up_to_nine P p0 p1 p2 p3 p4 p5 p6 p7 p8 p9 (suc (suc (suc zero))) h = p3
up_to_nine P p0 p1 p2 p3 p4 p5 p6 p7 p8 p9 (suc (suc (suc (suc zero)))) h = p4
up_to_nine P p0 p1 p2 p3 p4 p5 p6 p7 p8 p9 (suc (suc (suc (suc (suc zero))))) h = p5
up_to_nine P p0 p1 p2 p3 p4 p5 p6 p7 p8 p9 (suc (suc (suc (suc (suc (suc zero)))))) h = p6
up_to_nine P p0 p1 p2 p3 p4 p5 p6 p7 p8 p9 (suc (suc (suc (suc (suc (suc (suc zero))))))) h = p7
up_to_nine P p0 p1 p2 p3 p4 p5 p6 p7 p8 p9 (suc (suc (suc (suc (suc (suc (suc (suc zero)))))))) h =
    p8
up_to_nine P p0 p1 p2 p3 p4 p5 p6 p7 p8 p9
      (suc (suc (suc (suc (suc (suc (suc (suc (suc zero))))))))) h =
    p9
up_to_nine P p0 p1 p2 p3 p4 p5 p6 p7 p8 p9
      (suc (suc (suc (suc (suc (suc (suc (suc (suc (suc k)))))))))) h =
    absurd (omega arith)

-- The half of a subnormal's exponent and mantissa.
abbrev pub RoundsAt : Bool → ℕ → Type 0
RoundsAt negative k =
    (mant m r : ℕ)
    → mant < 2 ^ 23
    → r < 2 ^ (23 - k)
    → 2 ^ 23 + mant + 2 ^ (22 - k) ≡ m * 2 ^ (23 - k) + r
    → (half_of_normal (bit negative * 2 ^ 15) (103 + k) mant ≡ bit negative * 2 ^ 15 + m)

pub rounded_half : (negative : Bool) (k : ℕ) → k ≤ 9 → RoundsAt negative k
rounded_half negative =
    up_to_nine (RoundsAt negative)
      (λ mant m r small rest e.
        subnormal_half negative 0 m mant (omega arith) refl refl (omega arith))
      (λ mant m r small rest e.
        subnormal_half negative 1 m mant (omega arith) refl refl (omega arith))
      (λ mant m r small rest e.
        subnormal_half negative 2 m mant (omega arith) refl refl (omega arith))
      (λ mant m r small rest e.
        subnormal_half negative 3 m mant (omega arith) refl refl (omega arith))
      (λ mant m r small rest e.
        subnormal_half negative 4 m mant (omega arith) refl refl (omega arith))
      (λ mant m r small rest e.
        subnormal_half negative 5 m mant (omega arith) refl refl (omega arith))
      (λ mant m r small rest e.
        subnormal_half negative 6 m mant (omega arith) refl refl (omega arith))
      (λ mant m r small rest e.
        subnormal_half negative 7 m mant (omega arith) refl refl (omega arith))
      (λ mant m r small rest e.
        subnormal_half negative 8 m mant (omega arith) refl refl (omega arith))
      (λ mant m r small rest e.
        subnormal_half negative 9 m mant (omega arith) refl refl (omega arith))

-- The sign and the exponent: the exponents below 15 come out 256 too large, above the sixteen bits.
exponent_bits : ℕ → ℕ
exponent_bits exp = ((exp + 112 + 129) % 256 + 15) * 2 ^ 10

small_exponent :
    (negative : Bool) (exp : ℕ)
    → exp ≤ 14
    → bit_or (bit negative * 2 ^ 15) (exponent_bits exp)
      ≡ shifted 10 (256 + bit negative * 32 + exp)
unfolding exponent_bits
small_exponent false exp h = bit_or_zero_left (exponent_bits exp) ∙ omega arith
small_exponent true exp h =
    let wrapped : exponent_bits exp ≡ shifted 15 8 + exp * 2 ^ 10 = omega arith in
    ap (λ n. bit_or (2 ^ 15) n) wrapped
    ∙ bit_or-shifted 15 1 8 (exp * 2 ^ 10) (omega arith)
    ∙ omega arith

sign_and_exponent :
    (negative : Bool) (exp : ℕ)
    → exp ≤ 30
    → (q : ℕ) × ((bit_or (bit negative * 2 ^ 15) (exponent_bits exp) ≡ shifted 10 q)
        × (q % 64 ≡ bit negative * 32 + exp))
unfolding exponent_bits
sign_and_exponent negative exp h = elim (dec_le exp 14) [
  | yes small ↦ (
    256 + bit negative * 32 + exp,
    (small_exponent negative exp small, omega (arith, bit-le negative)),
  )
  | no large ↦
      let plain : exponent_bits exp ≡ exp * 2 ^ 10 = omega arith in
      (
        bit negative * 32 + exp,
        (
          ap (λ n. bit_or (bit negative * 2 ^ 15) n) plain
              ∙ or_sign negative (exp * 2 ^ 10) (omega arith)
              ∙ omega arith,
          omega (arith, bit-le negative),
        ),
      )
]

pub normal_half :
    (negative : Bool) (exp m low : ℕ)
    → 1 ≤ exp
    → exp ≤ 30
    → m < 2 ^ 10
    → low < 2 ^ 13
    → half_of_normal (bit negative * 2 ^ 15) (exp + 112) (m * 2 ^ 13 + low)
      ≡ bit negative * 2 ^ 15 + exp * 2 ^ 10 + m
unfolding half_of_normal exponent_bits
normal_half negative exp m low pos h small rest =
    let (q, (whole, residue)) = sign_and_exponent negative exp h in
    let large : ltb (exp + 112) 103 ≡ false = ground arith in
    let usual : ltb (exp + 112) 113 ≡ false = ground arith in
    let fraction : (m * 2 ^ 13 + low) / 2 ^ 13 % 2 ^ 16 ≡ m = omega arith in
    rw (large, usual)
      (ap (λ n. bit_or (bit_or (bit negative * 2 ^ 15) (exponent_bits exp)) n % 2 ^ 16) fraction
        ∙ ap (λ n. bit_or n m % 2 ^ 16) whole
        ∙ ap (λ n. n % 2 ^ 16) (bit_or-shifted_low 10 q m refl small)
        ∙ omega (arith, residue, bit-le negative))
