-- ===== src/Tests/Numbers.antt =====
-- The theorems about sizes, headers and strings on concrete inputs.
use libcbor.Base.{ℕ, ◌+◌, ◌*◌, ◌^◌, ◌≤◌, ◌<◌, ◌≡◌, ◌↔◌, arith}
use libcbor.Base.{true}
use libcbor.Encoders.{encode_uint_at}
use libcbor.Encoders.Headers.{Writes, header, encode_uint_at-Writes}
use libcbor.Memory.{highest_bit, safe_to_multiply, safe_to_add, safe_signaling_add}
use libcbor.Memory.Bounds.{
  IsBitLength, highest_bit-IsBitLength, safe_to_multiply_bounds, safe_to_add_iff,
  safe_signaling_add_lem,
}

highest_bit-IsBitLength_example : IsBitLength 1000 (highest_bit 1000)
highest_bit-IsBitLength_example = highest_bit-IsBitLength 1000

safe_to_multiply_bounds_example :
    (safe_to_multiply (2 ^ 32) (2 ^ 31) ≡ true → 2 ^ 32 * 2 ^ 31 < 2 ^ 64)
    × (2 ^ 32 * 2 ^ 31 < 2 ^ 63 → safe_to_multiply (2 ^ 32) (2 ^ 31) ≡ true)
safe_to_multiply_bounds_example =
    safe_to_multiply_bounds (2 ^ 32) (2 ^ 31) (omega arith) (omega arith)

safe_to_add_iff_example : (safe_to_add (2 ^ 63) (2 ^ 63) ≡ true) ↔ (2 ^ 63 + 2 ^ 63 < 2 ^ 64)
safe_to_add_iff_example = safe_to_add_iff (2 ^ 63) (2 ^ 63) (omega arith) (omega arith)

safe_signaling_add_lem_example :
    let a : ℕ = 5 in
    let b : ℕ = 7 in
    (1 ≤ a → 1 ≤ b → a + b < 2 ^ 64 → safe_signaling_add a b ≡ a + b)
    × (a ≡ 0 → safe_signaling_add a b ≡ 0)
    × (b ≡ 0 → safe_signaling_add a b ≡ 0)
    × (2 ^ 64 ≤ a + b → safe_signaling_add a b ≡ 0)
safe_signaling_add_lem_example = safe_signaling_add_lem 5 7 (omega arith) (omega arith)

encode_uint_at-Writes_example : Writes (λ size. encode_uint_at 300 size 0x40) (header 0x40 300)
encode_uint_at-Writes_example = encode_uint_at-Writes 300 0x40 (omega arith) (omega arith)
