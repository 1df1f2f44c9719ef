-- ===== src/Memory/Bounds.antt =====
-- The overflow checks of memory_utils.c accept no product and no sum that wraps.
use libcbor.Base.{ℕ, zero, suc, ◌+◌, ◌-◌, ◌*◌, ◌/◌, ◌^◌, ◌≤◌, ◌<◌, ◌≡◌, ◌↔◌, arith}
use libcbor.Base.{true}
use libcbor.Base.{lt_wf, pow_two_suc, pow_two_pos, pow_two_add, pow_two_mono}
use libcbor.Memory.{
  highest_bit_loop, highest_bit, safe_to_multiply, safe_to_add, safe_signaling_add,
}
use libcbor.Memory.{IsSize}
use mathlib.Core.WellFounded.{Acc}
use mathlib.Core.Logic.{dif_pos, dif_neg}
use native.Mathlib.Decide.{dec_lt}
use native.Mathlib.Bridge.{le_prop}
use libcbor.Memory.{half_smaller}

-- `m` is the length of `n` in binary.
abbrev pub IsBitLength : ℕ → ℕ → Type 0
IsBitLength n m = (n < 2 ^ m) × (2 ^ m ≤ 2 * n + 1)

IsBitLength-half : (n m : ℕ) → 0 < n → IsBitLength (n / 2) m → IsBitLength n (suc m)
IsBitLength-half n zero h b = omega (arith, pow_two_suc 0)
IsBitLength-half n (suc m) h b = omega (arith, pow_two_suc m, pow_two_suc (suc m))

highest_bit_loop-IsBitLength :
    (bit number : ℕ) (w : Acc ◌<◌ number)
    → (m : ℕ) × (highest_bit_loop bit number w ≡ bit + m) × IsBitLength number m
unfolding highest_bit_loop
highest_bit_loop-IsBitLength bit number (Acc.intro _ smaller) = elim (dec_lt 0 number) [
  | yes h ↦
      let (m, e, b) =
        highest_bit_loop-IsBitLength (bit + 1) (number / 2) (smaller _ (half_smaller number h)) in
      (
        suc m,
        rw (dif_pos (dec_lt 0 number) le_prop h) (omega (arith, e)),
        IsBitLength-half number m h b,
      )
  | no h ↦ (0, rw (dif_neg (dec_lt 0 number) h) (omega arith), omega arith)
]

-- `_cbor_highest_bit` is the number of binary digits of its argument.
pub highest_bit-IsBitLength : (n : ℕ) → IsBitLength n (highest_bit n)
unfolding highest_bit
highest_bit-IsBitLength n =
    let (m, e, b) = highest_bit_loop-IsBitLength 0 n (lt_wf.apply n) in
    let e' : highest_bit_loop 0 n (lt_wf.apply n) ≡ m = omega (arith, e) in rw e' b

pub highest_bit-le : (n k : ℕ) → n < 2 ^ k → highest_bit n ≤ k
highest_bit-le n k h =
    let b = highest_bit-IsBitLength n in
    elim (dec_lt k (highest_bit n)) [
      | yes p ↦ absurd (omega (arith, b.1, pow_two_suc k, pow_two_mono (suc k) (highest_bit n) p))
      | no p ↦ omega arith
    ]

highest_bit_pos : (n : ℕ) → 0 < n → highest_bit n ≡ suc (highest_bit n - 1)
highest_bit_pos n h = elim (dec_lt 0 (highest_bit n)) [
  | yes p ↦ omega arith
  | no p ↦
      absurd
        (omega (arith, (highest_bit-IsBitLength n).0, pow_two_mono (highest_bit n) 0 (omega arith)))
]

lt-highest_bit : (n k : ℕ) → k < highest_bit n → 2 ^ k ≤ n
lt-highest_bit n k h =
    let b = highest_bit-IsBitLength n in
    omega (arith, b.1, pow_two_suc k, pow_two_pos k, pow_two_mono (suc k) (highest_bit n) h)

mul_lt : (a b c d : ℕ) → a < c → b < d → a * b < c * d
mul_lt a b c d h k = grind arith

mul_le : (a b c d : ℕ) → a ≤ c → b ≤ d → a * b ≤ c * d
mul_le a b c d h k = grind arith

abbrev product_bits : ℕ → ℕ → ℕ
product_bits a b = highest_bit a + highest_bit b

product_fits : (a b : ℕ) → product_bits a b ≤ 64 → a * b < 2 ^ 64
product_fits a b h = omega (
  arith,
  mul_lt a b (2 ^ highest_bit a) (2 ^ highest_bit b) (highest_bit-IsBitLength a).0
      (highest_bit-IsBitLength b).0,
  pow_two_add (highest_bit a) (highest_bit b),
  pow_two_mono (product_bits a b) 64 h,
)

small_factor : (a b : ℕ) → a ≤ 1 → b < 2 ^ 64 → a * b < 2 ^ 64
small_factor a b h k = omega (arith, mul_le a b 1 b h (omega arith))

safe_to_multiply_sound :
    (a b : ℕ) → IsSize a → IsSize b → safe_to_multiply a b ≡ true → a * b < 2 ^ 64
unfolding safe_to_multiply
safe_to_multiply_sound a b ha hb e =
    ground (arith, small_factor a b, small_factor b a, product_fits a b)

-- One bit less in each factor gives a lower bound of the product.
wide_product :
    (a b x y : ℕ) → highest_bit a ≡ suc x → highest_bit b ≡ suc y → 64 ≤ x + y + 1 → 2 ^ 63 ≤ a * b
wide_product a b x y ea eb h = omega (
  arith,
  mul_le (2 ^ x) (2 ^ y) a b (lt-highest_bit a x (omega arith)) (lt-highest_bit b y (omega arith)),
  pow_two_add x y,
  pow_two_mono 63 (x + y) (omega arith),
)

pub safe_to_multiply_complete : (a b : ℕ) → a * b < 2 ^ 63 → safe_to_multiply a b ≡ true
unfolding safe_to_multiply
safe_to_multiply_complete a b h = ground (
  arith,
  wide_product a b (highest_bit a - 1) (highest_bit b - 1),
  highest_bit_pos a,
  highest_bit_pos b,
)

-- A product of two sizes that `_cbor_safe_to_multiply` accepts does not wrap, and it refuses none below
-- 2 ^ 63.
pub safe_to_multiply_bounds :
    (a b : ℕ)
    → IsSize a
    → IsSize b
    → (safe_to_multiply a b ≡ true → a * b < 2 ^ 64)
      × (a * b < 2 ^ 63 → safe_to_multiply a b ≡ true)
safe_to_multiply_bounds a b ha hb =
    (safe_to_multiply_sound a b ha hb, safe_to_multiply_complete a b)

-- `_cbor_safe_to_add` accepts exactly the sums of two sizes that fit into a size_t.
pub safe_to_add_iff : (a b : ℕ) → IsSize a → IsSize b → (safe_to_add a b ≡ true) ↔ (a + b < 2 ^ 64)
unfolding safe_to_add
safe_to_add_iff a b ha hb = (λ e. ground arith, λ e. ground arith)

-- `_cbor_safe_signaling_add` gives the sum of two sizes if neither is 0 and the sum fits into a
-- size_t, and 0 otherwise.
pub safe_signaling_add_lem :
    (a b : ℕ)
    → IsSize a
    → IsSize b
    → (1 ≤ a → 1 ≤ b → a + b < 2 ^ 64 → safe_signaling_add a b ≡ a + b)
      × (a ≡ 0 → safe_signaling_add a b ≡ 0)
      × (b ≡ 0 → safe_signaling_add a b ≡ 0)
      × (2 ^ 64 ≤ a + b → safe_signaling_add a b ≡ 0)
unfolding safe_signaling_add
safe_signaling_add_lem a b ha hb =
    (λ p q r. ground arith, λ p. ground arith, λ p. ground arith, λ p. ground arith)
