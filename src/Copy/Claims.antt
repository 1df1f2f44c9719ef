-- ===== src/Copy/Claims.antt =====
-- What cbor_copy guarantees, with any allocator.
use libcbor.Allocation.{Built, Alloc, allocate, checked, pure, ◌>>=◌}
use libcbor.Allocation.Ensures.{Ensures, allocate-denied, bind-failed}
use libcbor.Base.{ℕ, suc, ◌+◌, ◌≡◌, refl, ap, true, false}
use libcbor.Builder.{item_size}
use libcbor.Builder.Plenty.{always}
use libcbor.Copy.{copy, copy_int, mark_copied}
use libcbor.Copy.Alike.{serialize-alike}
use libcbor.Copy.Copied.{copied, IsCopyable, HasNegint}
use libcbor.Copy.Runs.{walk}
use libcbor.Copy.Leaves.{get_uint-negint}
use libcbor.Ints.{int_bytes, int_get_width, set_uint, mark_uint, mark_negint, build_uint, new_int}
use libcbor.Items.{IntWidth, Item}
use libcbor.Loaders.{FloatOps}
use libcbor.Memory.{Allocator}
use libcbor.Serialization.{serialize}

-- Whatever the allocator answers, cbor_copy of an item whose containers have less than 2 ^ 55 members
-- returns exactly the item's copy, or NULL, or it crashes. NULL and a crash need that an allocation
-- fails, and a crash needs that a negative integer occurs in the item.
pub copy-Ensures :
    (garbage : ℕ) (x : Item) (answers : Allocator)
    → IsCopyable x
    → Ensures (λ y. y ≡ copied x) (HasNegint x) answers (copy garbage x answers)
copy-Ensures garbage x answers h = walk garbage x answers h

only_value :
    {y : Item} {Q : Type 0} {b : Built Item} {answers : Allocator}
    → answers ≡ always
    → Ensures (λ x. x ≡ y) Q answers b
    → b ≡ Built.built y always
only_value all (Ensures.value x rest e keep) = rw (e, keep all) refl
only_value all (Ensures.null rest short) = absurd (short all)
only_value all (Ensures.crash q short) = absurd (short all)

-- Where no allocation fails, cbor_copy of an item whose containers have less than 2 ^ 55 members
-- returns a copy, and cbor_serialize stores and returns for it what it does for the item, in a buffer
-- of any size.
pub copy-serialize :
    (ops : FloatOps) (garbage : ℕ) (x : Item)
    → IsCopyable x
    → (y : Item) × (copy garbage x always ≡ Built.built y always)
      × (serialize ops y ≡ serialize ops x)
copy-serialize ops garbage x h =
    (copied x, only_value refl (copy-Ensures garbage x always h), serialize-alike ops x)

build_uint-denied :
    (garbage : ℕ) (w : IntWidth) (v : ℕ) (answers : Allocator)
    → answers 0 (item_size + int_bytes w) ≡ false
    → build_uint garbage w v answers ≡ Built.failed (λ k. answers (suc k))
unfolding build_uint new_int
build_uint-denied garbage w v answers denied =
    bind-failed (new_int garbage w)
      (λ item. checked (set_uint w v item) >>= λ item'. checked (mark_uint item')) answers
      (bind-failed (allocate (item_size + int_bytes w)) (λ _. pure (Item.uint w garbage)) answers
        (allocate-denied (item_size + int_bytes w) answers denied))

mark_failed :
    {rest : Allocator} (m : Alloc Item) (answers : Allocator)
    → m answers ≡ Built.failed rest
    → mark_copied true m answers ≡ Built.crashed
mark_failed m answers e =
    ap
      (λ (b : Built Item). elim b [
        | Built.built item rest ↦ checked (mark_negint item) rest
        | Built.failed rest ↦ Built.crashed
        | Built.crashed ↦ Built.crashed
      ])
      e

-- cbor_copy of a negative integer crashes where the allocator denies the memory of the new item: the
-- NULL is marked as negative.
pub copy-negint :
    (garbage : ℕ) (w : IntWidth) (v : ℕ) (answers : Allocator)
    → answers 0 (item_size + int_bytes w) ≡ false
    → copy garbage (Item.negint w v) answers ≡ Built.crashed
unfolding copy copy_int int_get_width
copy-negint garbage w v answers denied =
    rw (get_uint-negint w v)
      (mark_failed (build_uint garbage w v) answers (build_uint-denied garbage w v answers denied))
