-- ===== src/Copy/Leaves.antt =====
-- cbor_copy on items that are no containers, and on indefinite strings, with any allocator.
use libcbor.Allocation.{Built, allocate, allocate_multiple, checked, pure, ◌>>=◌, ◌>>◌}
use libcbor.Allocation.Ensures.{Ensures, Ensures-bind, Ensures-allocate, Ensures-allocate_multiple}
use libcbor.Base.{ℕ, ◌+◌, ◌^◌, ◌<◌, ◌≡◌, refl, some, true, false, arith}
use libcbor.Base.{List, length, ap, Option}
use libcbor.Containers.Handles.{string_set_handle-string_of}
use libcbor.Items.{StringData}
use libcbor.Builder.Plenty.{grown}
use libcbor.Containers.{string_of}
use libcbor.Copy.{
  copy_int, copy_float_ctrl, build_bytestring, build_stringn, new_array, new_map, build_tag,
}
use libcbor.Copy.Growth.{capacity_at}
use libcbor.FloatsCtrls.{
  build_ctrl, build_float2, build_float4, build_float8, get_float2, get_float4, get_float8,
  set_ctrl, set_float2, set_float4, set_float8, new_ctrl, new_float2, new_float4, new_float8,
}
use libcbor.Ints.{
  build_uint, new_int, set_uint, mark_uint, mark_negint, get_uint, int_get_width, int_bytes,
}
use libcbor.Builder.{item_size}
use libcbor.Kinds.{float_get_width, ctrl_value}
use libcbor.Items.{Metadata, IntWidth, Item}
use libcbor.Memory.{Allocator}

-- The result is `y`, and a crash needs `Q`.
abbrev pub Gives : Item → Type 0 → Allocator → Built Item → Type 0
Gives y Q answers b = Ensures (λ x. x ≡ y) Q answers b

pub Gives-pure :
    (y : Item) (Q : Type 0) (answers : Allocator) → Gives y Q answers (Built.built y answers)
Gives-pure y Q answers = Ensures.value y answers refl (λ e. e)

-- One allocation and a value.
pub Gives-one :
    (size : ℕ) (y : Item) (Q : Type 0) (answers : Allocator)
    → Gives y Q answers ((allocate size >> pure y) answers)
Gives-one size y Q answers =
    Ensures-bind (allocate size) (λ _. pure y) (Ensures-allocate size Q answers)
      (λ _ rest _. Gives-pure y Q rest)

pub set_uint-same : (w : IntWidth) (u v : ℕ) → set_uint w v (Item.uint w u) ≡ some (Item.uint w v)
unfolding set_uint
set_uint-same IntWidth.int8 u v = refl
set_uint-same IntWidth.int16 u v = refl
set_uint-same IntWidth.int32 u v = refl
set_uint-same IntWidth.int64 u v = refl

pub get_uint-uint : (w : IntWidth) (v : ℕ) → get_uint w (Item.uint w v) ≡ some v
unfolding get_uint
get_uint-uint IntWidth.int8 v = refl
get_uint-uint IntWidth.int16 v = refl
get_uint-uint IntWidth.int32 v = refl
get_uint-uint IntWidth.int64 v = refl

pub get_uint-negint : (w : IntWidth) (v : ℕ) → get_uint w (Item.negint w v) ≡ some v
unfolding get_uint
get_uint-negint IntWidth.int8 v = refl
get_uint-negint IntWidth.int16 v = refl
get_uint-negint IntWidth.int32 v = refl
get_uint-negint IntWidth.int64 v = refl

pub new_int-Gives :
    (garbage : ℕ) (w : IntWidth) (Q : Type 0) (answers : Allocator)
    → Gives (Item.uint w garbage) Q answers (new_int garbage w answers)
unfolding new_int
new_int-Gives garbage w Q answers =
    Gives-one (item_size + int_bytes w) (Item.uint w garbage) Q answers

set_built :
    (garbage : ℕ) (w : IntWidth) (v : ℕ) (Q : Type 0) (item : Item) (rest : Allocator)
    → item ≡ Item.uint w garbage
    → Gives
        (Item.uint w v)
        Q
        rest
        ((checked (set_uint w v item) >>= λ item'. checked (mark_uint item')) rest)
unfolding mark_uint
set_built garbage w v Q item rest e =
    rw (e, set_uint-same w garbage v) (Gives-pure (Item.uint w v) Q rest)

pub build_uint-Gives :
    (garbage : ℕ) (w : IntWidth) (v : ℕ) (Q : Type 0) (answers : Allocator)
    → Gives (Item.uint w v) Q answers (build_uint garbage w v answers)
unfolding build_uint
build_uint-Gives garbage w v Q answers =
    Ensures-bind (new_int garbage w)
      (λ item. checked (set_uint w v item) >>= λ item'. checked (mark_uint item'))
      (new_int-Gives garbage w Q answers) (set_built garbage w v Q)

-- A copy of a negative integer crashes where the memory for it is denied.
pub copy_uint-Gives :
    (garbage : ℕ) (w : IntWidth) (v : ℕ) (Q : Type 0) (answers : Allocator)
    → Gives (Item.uint w v) Q answers (copy_int garbage (Item.uint w v) false answers)
unfolding copy_int int_get_width
copy_uint-Gives garbage w v Q answers =
    rw (get_uint-uint w v) (build_uint-Gives garbage w v Q answers)

marked :
    {w : IntWidth} {v : ℕ} {Q : Type 0} {answers : Allocator} {b : Built Item}
    → Q
    → Gives (Item.uint w v) Q answers b
    → Gives (Item.negint w v) Q answers (elim b [
      | Built.built item rest ↦ checked (mark_negint item) rest
      | Built.failed rest ↦ Built.crashed
      | Built.crashed ↦ Built.crashed
    ])
unfolding mark_negint
marked q (Ensures.value a rest p keep) = rw p (Ensures.value _ rest refl keep)
marked q (Ensures.null rest short) = Ensures.crash q short
marked q (Ensures.crash q' short) = Ensures.crash q short

pub copy_negint-Gives :
    (garbage : ℕ) (w : IntWidth) (v : ℕ) (Q : Type 0) (answers : Allocator)
    → Q
    → Gives (Item.negint w v) Q answers (copy_int garbage (Item.negint w v) true answers)
unfolding copy_int int_get_width
copy_negint-Gives garbage w v Q answers q =
    rw (get_uint-negint w v) (marked q (build_uint-Gives garbage w v Q answers))

-- Floats and control values.
pub copy_ctrl-Gives :
    (garbage v : ℕ) (Q : Type 0) (answers : Allocator)
    → Gives (Item.ctrl v) Q answers (copy_float_ctrl garbage (Item.ctrl v) answers)
unfolding copy_float_ctrl float_get_width ctrl_value build_ctrl new_ctrl set_ctrl
copy_ctrl-Gives garbage v Q answers =
    Ensures-bind new_ctrl (λ item. checked (set_ctrl v item))
      (Gives-one item_size (Item.ctrl 0) Q answers)
      (λ item rest e. rw e (Gives-pure (Item.ctrl v) Q rest))

pub build_float2-Gives :
    (garbage v : ℕ) (Q : Type 0) (answers : Allocator)
    → Gives (Item.float2 v) Q answers (build_float2 garbage v answers)
unfolding build_float2 new_float2 set_float2
build_float2-Gives garbage v Q answers =
    Ensures-bind (new_float2 garbage) (λ item. checked (set_float2 v item))
      (Gives-one (item_size + 4) (Item.float2 garbage) Q answers)
      (λ item rest e. rw e (Gives-pure (Item.float2 v) Q rest))

pub copy_float2-Gives :
    (garbage v : ℕ) (Q : Type 0) (answers : Allocator)
    → Gives (Item.float2 v) Q answers (copy_float_ctrl garbage (Item.float2 v) answers)
unfolding copy_float_ctrl float_get_width get_float2
copy_float2-Gives garbage v Q answers = build_float2-Gives garbage v Q answers

pub build_float4-Gives :
    (garbage v : ℕ) (Q : Type 0) (answers : Allocator)
    → Gives (Item.float4 v) Q answers (build_float4 garbage v answers)
unfolding build_float4 new_float4 set_float4
build_float4-Gives garbage v Q answers =
    Ensures-bind (new_float4 garbage) (λ item. checked (set_float4 v item))
      (Gives-one (item_size + 4) (Item.float4 garbage) Q answers)
      (λ item rest e. rw e (Gives-pure (Item.float4 v) Q rest))

pub copy_float4-Gives :
    (garbage v : ℕ) (Q : Type 0) (answers : Allocator)
    → Gives (Item.float4 v) Q answers (copy_float_ctrl garbage (Item.float4 v) answers)
unfolding copy_float_ctrl float_get_width get_float4
copy_float4-Gives garbage v Q answers = build_float4-Gives garbage v Q answers

pub build_float8-Gives :
    (garbage v : ℕ) (Q : Type 0) (answers : Allocator)
    → Gives (Item.float8 v) Q answers (build_float8 garbage v answers)
unfolding build_float8 new_float8 set_float8
build_float8-Gives garbage v Q answers =
    Ensures-bind (new_float8 garbage) (λ item. checked (set_float8 v item))
      (Gives-one (item_size + 8) (Item.float8 garbage) Q answers)
      (λ item rest e. rw e (Gives-pure (Item.float8 v) Q rest))

pub copy_float8-Gives :
    (garbage v : ℕ) (Q : Type 0) (answers : Allocator)
    → Gives (Item.float8 v) Q answers (copy_float_ctrl garbage (Item.float8 v) answers)
unfolding copy_float_ctrl float_get_width get_float8
copy_float8-Gives garbage v Q answers = build_float8-Gives garbage v Q answers

-- Two allocations and a value.
Gives-two :
    (size more : ℕ) (y : Item) (Q : Type 0) (answers : Allocator)
    → Gives y Q answers ((allocate size >> (allocate more >> pure y)) answers)
Gives-two size more y Q answers =
    Ensures-bind (allocate size) (λ _. allocate more >> pure y) (Ensures-allocate size Q answers)
      (λ _ rest _. Gives-one more y Q rest)

pub build_bytestring-Gives :
    (bytes : List ℕ) (Q : Type 0) (answers : Allocator)
    → Gives (Item.bytestring bytes) Q answers (build_bytestring bytes answers)
unfolding build_bytestring
build_bytestring-Gives bytes Q answers =
    Gives-two item_size (length bytes) (Item.bytestring bytes) Q answers

build_stringn_lem :
    (bytes : List ℕ)
    → build_stringn bytes
      ≡ (allocate item_size >> (allocate (length bytes) >> pure (Item.string (string_of bytes))))
unfolding build_stringn
build_stringn_lem bytes =
    ap
      (λ (o : Option StringData).
        allocate item_size
        >> (allocate (length bytes) >> (checked o >>= λ new_string. pure (Item.string new_string))))
      (string_set_handle-string_of bytes)

pub build_stringn-Gives :
    (bytes : List ℕ) (Q : Type 0) (answers : Allocator)
    → Gives (Item.string (string_of bytes)) Q answers (build_stringn bytes answers)
build_stringn-Gives bytes Q answers =
    rw (build_stringn_lem bytes)
      (Gives-two item_size (length bytes) (Item.string (string_of bytes)) Q answers)

pub build_tag-Gives :
    (v : ℕ) (x : Item) (Q : Type 0) (answers : Allocator)
    → Gives (Item.tag v x) Q answers (build_tag v x answers)
unfolding build_tag
build_tag-Gives v x Q answers = Gives-one item_size (Item.tag v x) Q answers

pub new_array-Ensures :
    (d : Metadata) (n : ℕ) (Q : Type 0) (answers : Allocator)
    → n < 2 ^ 55
    → Ensures (λ m. m ≡ capacity_at d n 0) Q answers (new_array d n answers)
unfolding new_array grown
new_array-Ensures Metadata.definite n Q answers h =
    Ensures-bind (allocate item_size) (λ _. allocate_multiple 8 n >> pure n)
      (Ensures-allocate item_size Q answers)
      (λ _ rest _.
        Ensures-bind (allocate_multiple 8 n) (λ _. pure n)
          (Ensures-allocate_multiple 8 n Q rest (omega arith) (omega arith))
          (λ _ rest' _. Ensures.value n rest' refl (λ e. e)))
new_array-Ensures Metadata.indefinite n Q answers h =
    Ensures-bind (allocate item_size) (λ _. pure 0) (Ensures-allocate item_size Q answers)
      (λ _ rest _. Ensures.value 0 rest refl (λ e. e))

pub new_map-Ensures :
    (d : Metadata) (n : ℕ) (Q : Type 0) (answers : Allocator)
    → n < 2 ^ 55
    → Ensures (λ m. m ≡ capacity_at d n 0) Q answers (new_map d n answers)
unfolding new_map grown
new_map-Ensures Metadata.definite n Q answers h =
    Ensures-bind (allocate item_size) (λ _. allocate_multiple 16 n >> pure n)
      (Ensures-allocate item_size Q answers)
      (λ _ rest _.
        Ensures-bind (allocate_multiple 16 n) (λ _. pure n)
          (Ensures-allocate_multiple 16 n Q rest (omega arith) (omega arith))
          (λ _ rest' _. Ensures.value n rest' refl (λ e. e)))
new_map-Ensures Metadata.indefinite n Q answers h =
    Ensures-bind (allocate item_size) (λ _. pure 0) (Ensures-allocate item_size Q answers)
      (λ _ rest _. Ensures.value 0 rest refl (λ e. e))
