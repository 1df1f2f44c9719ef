-- ===== src/Encoding/Bits.antt =====
-- The bitwise or of numbers that are put together from digits.
use Prim.Native.Nat.{bit_or, digits, bit_or-bitwise}
use libcbor.Base.{ℕ, zero, suc, ◌+◌, ◌*◌, ◌/◌, ◌%◌, ◌≤◌, ◌<◌, max, ◌≡◌, refl, ap, ◌∙◌, arith}

abbrev or_digits : ℕ → ℕ → ℕ → ℕ
or_digits n a b = digits (λ z. z) max n a b

-- The count of digits is not looked at where it is large enough.
or_digits_enough : (n m a b : ℕ) → a ≤ n → a ≤ m → or_digits n a b ≡ or_digits m a b
or_digits_enough zero zero a b p q = refl
or_digits_enough zero (suc m) zero b p q = refl
or_digits_enough zero (suc m) (suc a) b p q = absurd (omega arith)
or_digits_enough (suc n) zero zero b p q = refl
or_digits_enough (suc n) zero (suc a) b p q = absurd (omega arith)
or_digits_enough (suc n) (suc m) zero b p q = refl
or_digits_enough (suc n) (suc m) (suc a) b p q =
    omega (arith, or_digits_enough n m (suc a / 2) (b / 2) (omega arith) (omega arith))

pub bit_or_zero_left : (b : ℕ) → bit_or 0 b ≡ b
bit_or_zero_left b = bit_or-bitwise 0 b

-- An even number leaves the lowest digit of the other.
bit_or_even : (a b : ℕ) → bit_or (2 * a) b ≡ 2 * bit_or a (b / 2) + b % 2
bit_or_even zero b = omega (arith, bit_or_zero_left b, bit_or_zero_left (b / 2))
bit_or_even (suc a) b =
    let half : suc (2 * a + 1) / 2 ≡ suc a = omega arith in
    let low : suc (2 * a + 1) % 2 ≡ 0 = omega arith in
    let twice : 2 * suc a ≡ suc (2 * a + 1) = omega arith in
    ap (λ n. bit_or n b) twice
    ∙ bit_or-bitwise (suc (2 * a + 1)) b
    ∙ ap (λ n. or_digits (2 * a + 1) n (b / 2) * 2 + max (suc (2 * a + 1) % 2) (b % 2)) half
    ∙ ap (λ n. or_digits (2 * a + 1) (suc a) (b / 2) * 2 + max n (b % 2)) low
    ∙ omega (
      arith,
      bit_or-bitwise (suc a) (b / 2),
      or_digits_enough (2 * a + 1) (suc a) (suc a) (b / 2) (omega arith) (omega arith),
    )

-- `n << k`, one digit at a time.
abbrev pub shifted : ℕ → ℕ → ℕ
shifted zero n = n
shifted (suc k) n = 2 * shifted k n

-- Behind the last `k` digits, which are 0 in the first number.
pub bit_or-shifted :
    (k a c r : ℕ)
    → r < shifted k 1
    → bit_or (shifted k a) (shifted k c + r) ≡ shifted k (bit_or a c) + r
bit_or-shifted zero a c r h =
    let none_left : c + r ≡ c = omega arith in ap (λ n. bit_or a n) none_left ∙ omega arith
bit_or-shifted (suc k) a c r h =
    let halves : (2 * shifted k c + r) / 2 ≡ shifted k c + r / 2 = omega arith in
    omega (
      arith,
      bit_or_even (shifted k a) (2 * shifted k c + r),
      ap (λ n. bit_or (shifted k a) n) halves,
      bit_or-shifted k a c (r / 2) (omega arith),
    )

or_digits-zero : (n a : ℕ) → a ≤ n → or_digits n a 0 ≡ a
or_digits-zero zero a h = omega arith
or_digits-zero (suc n) zero h = refl
or_digits-zero (suc n) (suc a) h = omega (arith, or_digits-zero n (suc a / 2) (omega arith))

bit_or_zero_right : (a : ℕ) → bit_or a 0 ≡ a
bit_or_zero_right a = bit_or-bitwise a 0 ∙ or_digits-zero a a (omega arith)

-- The second number lies in the digits that are 0 in the first.
pub bit_or-shifted_low :
    (k a r : ℕ) → shifted k 0 ≡ 0 → r < shifted k 1 → bit_or (shifted k a) r ≡ shifted k a + r
bit_or-shifted_low k a r none_left h =
    let same : r ≡ shifted k 0 + r = omega (arith, none_left) in
    ap (λ n. bit_or (shifted k a) n) same
    ∙ bit_or-shifted k a 0 r h
    ∙ ap (λ n. shifted k n + r) (bit_or_zero_right a)
