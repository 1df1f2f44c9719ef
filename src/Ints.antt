-- ===== src/Ints.antt =====
-- src/cbor/ints.c: items of the major types 0 and 1. A getter or setter is `none` where an assertion of
-- it fails. `garbage` is what uninitialised memory holds.
pub mod Reads
use libcbor.Allocation.{Alloc, allocate, checked, pure, ◌>>=◌, ◌>>◌}
use libcbor.Base.{ℕ, ◌+◌, Option, none, some, Bool, true, false, if◌then◌else◌}
use libcbor.Builder.{item_size}
use libcbor.Items.{IntWidth, Item}

-- `sizeof` of the value.
abbrev pub int_bytes : IntWidth → ℕ
int_bytes IntWidth.int8 = 1
int_bytes IntWidth.int16 = 2
int_bytes IntWidth.int32 = 4
int_bytes IntWidth.int64 = 8

abbrev pub width_eq : IntWidth → IntWidth → Bool
width_eq IntWidth.int8 IntWidth.int8 = true
width_eq IntWidth.int16 IntWidth.int16 = true
width_eq IntWidth.int32 IntWidth.int32 = true
width_eq IntWidth.int64 IntWidth.int64 = true
width_eq v w = false

unfoldable pub int_get_width : Item → Option IntWidth
int_get_width (Item.uint w v) = some w
int_get_width (Item.negint w v) = some w
int_get_width item = none

-- cbor_get_uint8, cbor_get_uint16, cbor_get_uint32 and cbor_get_uint64, by the width that is asserted.
unfoldable pub get_uint : IntWidth → Item → Option ℕ
get_uint width (Item.uint w v) = if width_eq w width then some v else none
get_uint width (Item.negint w v) = if width_eq w width then some v else none
get_uint width item = none

unfoldable pub get_int : Item → Option ℕ
unfolding int_get_width get_uint
get_int item = elim (int_get_width item) [ none ↦ none | some w ↦ get_uint w item ]

-- The four setters.
unfoldable pub set_uint : IntWidth → ℕ → Item → Option Item
set_uint width value (Item.uint w v) = if width_eq w width then some (Item.uint w value) else none
set_uint width value (Item.negint w v) =
    if width_eq w width then some (Item.negint w value) else none
set_uint width value item = none

unfoldable pub mark_uint : Item → Option Item
mark_uint (Item.uint w v) = some (Item.uint w v)
mark_uint (Item.negint w v) = some (Item.uint w v)
mark_uint item = none

unfoldable pub mark_negint : Item → Option Item
mark_negint (Item.uint w v) = some (Item.negint w v)
mark_negint (Item.negint w v) = some (Item.negint w v)
mark_negint item = none

-- cbor_new_int8, cbor_new_int16, cbor_new_int32 and cbor_new_int64.
unfoldable pub new_int : ℕ → IntWidth → Alloc Item
unfolding allocate
new_int garbage width = do allocate (item_size + int_bytes width); pure (Item.uint width garbage)

-- cbor_build_uint8 to cbor_build_uint64, and cbor_build_negint8 to cbor_build_negint64.
unfoldable pub build_uint : ℕ → IntWidth → ℕ → Alloc Item
unfolding new_int set_uint mark_uint
build_uint garbage width value = do
  item ← new_int garbage width
  item' ← checked (set_uint width value item)
  checked (mark_uint item')

unfoldable pub build_negint : ℕ → IntWidth → ℕ → Alloc Item
unfolding new_int set_uint mark_negint
build_negint garbage width value = do
  item ← new_int garbage width
  item' ← checked (set_uint width value item)
  checked (mark_negint item')
