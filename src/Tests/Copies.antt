-- ===== src/Tests/Copies.antt =====
-- The theorems about copies on concrete inputs.
use libcbor.Allocation.{Built}
use libcbor.Allocation.Ensures.{Ensures}
use libcbor.Base.{◌≡◌, refl, arith, [], ◌∷◌, ltb}
use libcbor.Builder.Plenty.{always}
use libcbor.Copy.{copy}
use libcbor.Copy.Claims.{copy-Ensures, copy-serialize, copy-negint}
use libcbor.Copy.Copied.{copied, HasNegint, IsCopyable}
use libcbor.Copy.Definite.{copy_definite, joined}
use libcbor.Copy.Definite.Claims.{copy_definite-Ensures, copy_definite-crash}
use libcbor.Copy.Definite.Combined.{IsDefinite, IsFragile}
use libcbor.Copy.Definite.Values.{value_of}
use libcbor.Items.{Metadata, IntWidth, Item, Items, Pairs}
use libcbor.Memory.{Allocator}
use libcbor.Serialization.{serialize}
use libcbor.Tests.{sample_ops}

-- [_ (_ h'0102', h'03'), {1: -3}].
abbrev sample_tree : Item
sample_tree = Item.array Metadata.indefinite 4 (
    Items.cons (Item.indef_bytestring 4 ((1 ∷ 2 ∷ []) ∷ (3 ∷ []) ∷ [])) (
      Items.cons
        (Item.map Metadata.definite 1
          (Pairs.pair (Item.uint IntWidth.int8 1) (Item.negint IntWidth.int8 2) Pairs.end))
        Items.nil))

-- The first four allocations succeed.
abbrev four : Allocator
four k size = ltb k 4

sample_tree-IsCopyable : IsCopyable sample_tree
sample_tree-IsCopyable = (omega arith, (omega arith, ((omega arith, (tt, tt, tt)), tt)))

copy-Ensures_example :
    Ensures (λ y. y ≡ copied sample_tree) (HasNegint sample_tree) four (copy 0 sample_tree four)
copy-Ensures_example = copy-Ensures 0 sample_tree four sample_tree-IsCopyable

copy-serialize_example :
    (y : Item) × (copy 7 sample_tree always ≡ Built.built y always)
    × (serialize sample_ops y ≡ serialize sample_ops sample_tree)
copy-serialize_example = copy-serialize sample_ops 7 sample_tree sample_tree-IsCopyable

copy-negint_example :
    copy 0 (Item.negint IntWidth.int16 300) (λ k size. ltb size 10) ≡ Built.crashed
copy-negint_example = copy-negint 0 IntWidth.int16 300 (λ k size. ltb size 10) refl

copy_definite-Ensures_example :
    Ensures
      (λ y. IsDefinite y × (value_of y ≡ value_of sample_tree))
      (IsFragile sample_tree)
      four
      (copy_definite 0 sample_tree four)
unfolding joined
copy_definite-Ensures_example =
    copy_definite-Ensures 0 sample_tree four
      (omega arith, (omega arith, ((omega arith, (tt, tt, tt)), tt)))

-- Three bytes for the data are granted, 48 for the item are not.
copy_definite-crash_example :
    copy_definite 0 (Item.indef_bytestring 2 ((1 ∷ 2 ∷ []) ∷ (3 ∷ []) ∷ [])) (λ k size. ltb size 10)
    ≡ Built.crashed
unfolding joined
copy_definite-crash_example =
    copy_definite-crash 0 2 ((1 ∷ 2 ∷ []) ∷ (3 ∷ []) ∷ []) (λ k size. ltb size 10) (omega arith)
      refl refl
