-- ===== src/Copy/Definite/Claims.antt =====
-- What cbor_copy_definite guarantees, with any allocator.
use libcbor.Allocation.{Built, Alloc, allocate, pure, ◌>>◌}
use libcbor.Allocation.Ensures.{allocate-denied, allocate-granted, bind-value, bind-crashed}
use libcbor.Base.{suc, ◌^◌, ◌<◌, ap, ◌∙◌, arith, List, length, leb, true, false}
use libcbor.Builder.{item_size}
use libcbor.Copy.Definite.{unchecked, total_length, joined, combine, combine_bytestring}
use libcbor.Copy.Definite.Chunks.{total_length-joined}
use libcbor.Allocation.Ensures.{Ensures, Ensures-map}
use libcbor.Base.{ℕ, ◌≡◌}
use libcbor.Copy.Definite.{copy_definite}
use libcbor.Copy.Definite.Combined.{IsCombinable, IsFragile, IsDefinite, combined-IsDefinite}
use libcbor.Copy.Definite.Runs.{walk_definite}
use libcbor.Copy.Definite.Values.{value_of, combined-value}
use libcbor.Items.{Item}
use libcbor.Memory.{Allocator}

-- Whatever the allocator answers, an item that cbor_copy_definite returns has no indefinite length in
-- any part of it, and stands for the same value of the data model of RFC 8949 as the original. NULL and
-- a crash need that an allocation fails, and a crash needs that a negative integer or an indefinite
-- string occurs in the item. The containers of the item have less than 2 ^ 55 members, and the chunks
-- of each of its strings less than 2 ^ 64 bytes together.
pub copy_definite-Ensures :
    (garbage : ℕ) (x : Item) (answers : Allocator)
    → IsCombinable x
    → Ensures
        (λ y. IsDefinite y × (value_of y ≡ value_of x))
        (IsFragile x)
        answers
        (copy_definite garbage x answers)
copy_definite-Ensures garbage x answers h =
    Ensures-map (λ y e. rw e (combined-IsDefinite x, combined-value x))
      (walk_definite garbage x answers h)

unchecked-denied :
    {A : Type 0} {rest : Allocator} (m : Alloc A) (answers : Allocator)
    → m answers ≡ Built.failed rest
    → unchecked m answers ≡ Built.crashed
unchecked-denied {A} m answers e =
    ap
      (λ (b : Built A). elim b [
        | Built.built a rest ↦ Built.built a rest
        | Built.failed rest ↦ Built.crashed
        | Built.crashed ↦ Built.crashed
      ])
      e

combine-joined :
    (chunks : List (List ℕ)) (answers : Allocator)
    → length (joined chunks) < 2 ^ 64
    → answers 0 (length (joined chunks)) ≡ true
    → combine chunks answers ≡ Built.built (joined chunks) (λ k. answers (suc k))
unfolding combine
combine-joined chunks answers small first =
    let sum = total_length-joined 0 chunks (omega (arith, small)) in
    let same : total_length 0 chunks ≡ length (joined chunks) = omega (arith, sum) in
    let fits : leb (length (joined chunks)) (length (joined chunks)) ≡ true = ground arith in
    let n = length (joined chunks) in
    rw (same, fits)
      (bind-value (allocate n) (λ _. pure (joined chunks)) tt answers (λ k. answers (suc k))
        (allocate-granted n answers first))

-- cbor_copy_definite of an indefinite byte string, whose chunks have less than 2 ^ 64 bytes together,
-- crashes where the memory for the joined bytes is granted and the memory for the new item denied: the
-- handle is set in a NULL.
pub copy_definite-crash :
    (garbage capacity : ℕ) (chunks : List (List ℕ)) (answers : Allocator)
    → length (joined chunks) < 2 ^ 64
    → answers 0 (length (joined chunks)) ≡ true
    → answers 1 item_size ≡ false
    → copy_definite garbage (Item.indef_bytestring capacity chunks) answers ≡ Built.crashed
unfolding copy_definite combine_bytestring
copy_definite-crash garbage capacity chunks answers small first second =
    let rest : Allocator = λ k. answers (suc k) in
    bind-value (combine chunks)
      (λ bytes. unchecked (allocate item_size) >> pure (Item.bytestring bytes)) (joined chunks)
      answers rest (combine-joined chunks answers small first)
    ∙ bind-crashed (unchecked (allocate item_size)) (λ _. pure (Item.bytestring (joined chunks)))
        rest (unchecked-denied (allocate item_size) rest (allocate-denied item_size rest second))
