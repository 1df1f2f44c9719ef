-- ===== src/Tests/Leaves.antt =====
-- The theorems about single items and about arrays on concrete inputs.
use libcbor.Allocation.Ensures.{Ensures}
use libcbor.Base.{◌+◌, ◌≡◌, refl, some, true, false, ltb}
use libcbor.Containers.{array_push, reserve, grow}
use libcbor.Containers.Arrays.{array_set, IsStored, array_set-IsStored}
use libcbor.Builder.Plenty.{always}
use libcbor.FloatsCtrls.{
  get_bool, get_float2, get_float4, get_float8, build_bool, new_null, new_undef, build_float2,
  build_float4, build_float8,
}
use libcbor.FloatsCtrls.Reads.{Answers, IsFloat, build_bool-Answers, build_float2-IsFloat}
use libcbor.Ints.{build_uint, build_negint}
use libcbor.Ints.Reads.{IsInt, build_uint-IsInt}
use libcbor.Items.{Metadata, IntWidth, Item, Items}
use libcbor.Kinds.{ItemType, FloatWidth}
use libcbor.Memory.{Allocator, highest_bit, realloc_multiple, safe_to_multiply}

-- The first allocation succeeds.
abbrev once_only : Allocator
once_only k size = ltb k 1

build_uint-IsInt_example :
    Ensures
      (IsInt ItemType.uint IntWidth.int16 300)
      ⊥
      once_only
      (build_uint 77 IntWidth.int16 300 once_only)
    × Ensures
        (IsInt ItemType.negint IntWidth.int16 300)
        ⊥
        once_only
        (build_negint 77 IntWidth.int16 300 once_only)
build_uint-IsInt_example = build_uint-IsInt 77 IntWidth.int16 300 once_only

build_bool-Answers_example :
    Ensures
      (λ y. Answers true false false false y × (get_bool y ≡ some true))
      ⊥
      once_only
      (build_bool true once_only)
    × Ensures (Answers false true false false) ⊥ once_only (new_null once_only)
    × Ensures (Answers false false true false) ⊥ once_only (new_undef once_only)
build_bool-Answers_example = build_bool-Answers true once_only

build_float2-IsFloat_example :
    Ensures
      (IsFloat get_float2 FloatWidth.float_16 (λ v. v + 1) 5 6)
      ⊥
      once_only
      (build_float2 77 5 once_only)
    × Ensures
        (IsFloat get_float4 FloatWidth.float_32 (λ v. v + 1) 5 6)
        ⊥
        once_only
        (build_float4 77 5 once_only)
    × Ensures
        (IsFloat get_float8 FloatWidth.float_64 (λ v. v + 1) 5 5)
        ⊥
        once_only
        (build_float8 77 5 once_only)
build_float2-IsFloat_example = build_float2-IsFloat (λ v. v + 1) 77 5 once_only

abbrev five : Item
five = Item.uint IntWidth.int8 5

abbrev six : Item
six = Item.uint IntWidth.int8 6

-- The array grows, since the index is its end.
grown_array :
    array_set Metadata.indefinite 1 (Items.cons five Items.nil) 1 six always
    ≡ (some (2, Items.cons five (Items.cons six Items.nil)), always)
unfolding array_set array_push reserve grow realloc_multiple safe_to_multiply highest_bit
grown_array = refl

array_set-IsStored_example :
    IsStored (Items.cons five Items.nil) 1 six (Items.cons five (Items.cons six Items.nil))
array_set-IsStored_example =
    array_set-IsStored Metadata.indefinite 1 2 (Items.cons five Items.nil)
      (Items.cons five (Items.cons six Items.nil)) 1 six always always grown_array
