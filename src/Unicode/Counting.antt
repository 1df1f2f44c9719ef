-- ===== src/Unicode/Counting.antt =====
-- The number of code points that `_cbor_unicode_codepoint_count` reports is at most the number of
-- bytes, as `cbor_string_set_handle` asserts.
use libcbor.Base.{ℕ, ◌+◌, ◌≤◌, arith, List, [], ◌∷◌, length}
use libcbor.Unicode.{count_loop, codepoint_count, unicode_decode}

count_loop-le :
    (source : List ℕ) (pos state codep count : ℕ)
    → (count_loop source pos state codep count).0 ≤ count + length source
unfolding count_loop
count_loop-le [] pos state codep count = ground arith
count_loop-le (byte ∷ source) pos state codep count =
    let (res, codep') = unicode_decode state codep byte in
    ground (
      arith,
      count_loop-le source (pos + 1) res codep' count,
      count_loop-le source (pos + 1) res codep' (count + 1),
    )

-- The code points that `_cbor_unicode_codepoint_count` counts are at most as many as the bytes.
pub codepoint_count-le : (source : List ℕ) → (codepoint_count source).0 ≤ length source
unfolding codepoint_count
codepoint_count-le source = omega (arith, count_loop-le source 0 0 0 0)
