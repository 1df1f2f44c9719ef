-- ===== src/Memory.antt =====
-- src/cbor/internal/memory_utils.c: overflow checks on size_t, and the allocations that use them.
-- A size_t is a number below 2 ^ 64; sums, products and shifts wrap as they do there.
pub mod Bounds
use libcbor.Base.{ℕ, zero, suc, ◌+◌, ◌*◌, ◌/◌, ◌%◌, ◌^◌, ◌≤◌, ◌<◌, arith}
use libcbor.Base.{Bool, true, false, ◌&&◌, ◌||◌, if◌then◌else◌, leb, ◌==◌, lt_wf}
use mathlib.Core.Logic.{dite}
use mathlib.Core.WellFounded.{Acc}
use native.Mathlib.Decide.{dec_lt}

-- `sizeof(size_t) * 8`, and the number of values of a size_t.
abbrev pub size_bits : ℕ
size_bits = 64

abbrev pub size_mod : ℕ
size_mod = 2 ^ 64

abbrev pub IsSize : ℕ → Type 0
IsSize n = n < 2 ^ 64

pub half_smaller : (n : ℕ) → 0 < n → n / 2 < n
half_smaller n h = omega arith

-- The loop of `_cbor_highest_bit`: `bit++; number >>= 1` while `number` is not 0.
highest_bit_loop : (bit number : ℕ) → Acc ◌<◌ number → ℕ
highest_bit_loop bit number (Acc.intro _ smaller) =
    dite (dec_lt 0 number)
      (λ h. highest_bit_loop (bit + 1) (number / 2) (smaller _ (half_smaller number h))) (λ _. bit)

unfoldable pub highest_bit : ℕ → ℕ
unfolding highest_bit_loop lt_wf dec_lt
highest_bit number = highest_bit_loop 0 number (lt_wf.apply number)

unfoldable pub safe_to_multiply : ℕ → ℕ → Bool
safe_to_multiply a b =
    if leb a 1 || leb b 1 then true else leb (highest_bit a + highest_bit b) size_bits

unfoldable pub safe_to_add : ℕ → ℕ → Bool
safe_to_add a b = let sum = (a + b) % size_mod in leb a sum && leb b sum

unfoldable pub safe_signaling_add : ℕ → ℕ → ℕ
unfolding safe_to_add
safe_signaling_add a b =
    if a == 0 || b == 0 then 0 else if safe_to_add a b then (a + b) % size_mod else 0

-- What the C allocator will answer: whether its k-th coming call, for that many bytes, succeeds.
-- malloc and realloc are not of this repository, so nothing is assumed of the answers.
abbrev pub Allocator : Type 0
Allocator = ℕ → ℕ → Bool

-- `_cbor_malloc` and `_cbor_realloc`: the answer, and the answers that are still to come.
abbrev pub malloc : Allocator → ℕ → Bool × Allocator
malloc answers size = (answers 0 size, λ k. answers (suc k))

unfoldable pub alloc_multiple : Allocator → ℕ → ℕ → Bool × Allocator
alloc_multiple answers item_size item_count =
    if safe_to_multiply item_size item_count
    then malloc answers (item_size * item_count % size_mod)
    else (false, answers)

unfoldable pub realloc_multiple : Allocator → ℕ → ℕ → Bool × Allocator
realloc_multiple answers item_size item_count =
    if safe_to_multiply item_size item_count
    then malloc answers (item_size * item_count % size_mod)
    else (false, answers)
