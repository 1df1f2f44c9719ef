-- ===== src/Ints/Reads.antt =====
-- What the getters of src/cbor/ints.c read from the items that its constructors build.
use libcbor.Allocation.{checked, ◌>>=◌}
use libcbor.Allocation.Ensures.{Ensures, Ensures-bind, Ensures-map}
use libcbor.Base.{ℕ, ◌≡◌, refl, some, true}
use libcbor.Copy.Leaves.{
  Gives, Gives-pure, new_int-Gives, set_uint-same, get_uint-uint, get_uint-negint, build_uint-Gives,
}
use libcbor.Ints.{int_get_width, get_int, set_uint, mark_negint, new_int, build_uint, build_negint}
use libcbor.Items.{IntWidth, Item}
use libcbor.Kinds.{ItemType, isa, typeof}
use libcbor.Memory.{Allocator}

-- An integer of that type, width and value.
abbrev pub IsInt : ItemType → IntWidth → ℕ → Item → Type 0
IsInt type w v y = (isa type y ≡ true) × (int_get_width y ≡ some w) × (get_int y ≡ some v)

build_negint-Gives :
    (garbage : ℕ) (w : IntWidth) (v : ℕ) (Q : Type 0) (answers : Allocator)
    → Gives (Item.negint w v) Q answers (build_negint garbage w v answers)
unfolding build_negint mark_negint
build_negint-Gives garbage w v Q answers =
    Ensures-bind (new_int garbage w)
      (λ item. checked (set_uint w v item) >>= λ item'. checked (mark_negint item'))
      (new_int-Gives garbage w Q answers)
      (λ item rest e. rw (e, set_uint-same w garbage v) (Gives-pure (Item.negint w v) Q rest))

uint-IsInt : (w : IntWidth) (v : ℕ) → IsInt ItemType.uint w v (Item.uint w v)
unfolding isa typeof int_get_width get_int
uint-IsInt w v = (refl, refl, get_uint-uint w v)

negint-IsInt : (w : IntWidth) (v : ℕ) → IsInt ItemType.negint w v (Item.negint w v)
unfolding isa typeof int_get_width get_int
negint-IsInt w v = (refl, refl, get_uint-negint w v)

-- Whatever the allocator answers and whatever its memory holds, the constructors of integers return
-- NULL, or an item of the right type, with the width and the value that they were given. They never
-- crash, and NULL needs that an allocation fails.
pub build_uint-IsInt :
    (garbage : ℕ) (w : IntWidth) (v : ℕ) (answers : Allocator)
    → Ensures (IsInt ItemType.uint w v) ⊥ answers (build_uint garbage w v answers)
      × Ensures (IsInt ItemType.negint w v) ⊥ answers (build_negint garbage w v answers)
build_uint-IsInt garbage w v answers = (
  Ensures-map (λ y e. rw e (uint-IsInt w v)) (build_uint-Gives garbage w v ⊥ answers),
  Ensures-map (λ y e. rw e (negint-IsInt w v)) (build_negint-Gives garbage w v ⊥ answers),
)
