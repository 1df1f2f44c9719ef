-- ===== src/Kinds.antt =====
-- src/cbor/common.c: what kind of item an item is, with the reads of src/cbor/floats_ctrls.c that this
-- takes. A read is `none` where an assertion of it fails.
use libcbor.Base.{ℕ, Option, none, some, Bool, true, false, ◌&&◌, ◌||◌, ◌==◌, not}
use libcbor.Items.{Item}

-- `cbor_type`.
pub data ItemType : Type 0 where
  uint negint bytestring string array map tag float_ctrl : ItemType

-- `cbor_float_width`.
pub data FloatWidth : Type 0 where
  float_0 float_16 float_32 float_64 : FloatWidth

unfoldable pub typeof : Item → ItemType
typeof (Item.uint w v) = ItemType.uint
typeof (Item.negint w v) = ItemType.negint
typeof (Item.bytestring bytes) = ItemType.bytestring
typeof (Item.indef_bytestring capacity chunks) = ItemType.bytestring
typeof (Item.string s) = ItemType.string
typeof (Item.indef_string capacity chunks) = ItemType.string
typeof (Item.array d allocated xs) = ItemType.array
typeof (Item.map d allocated ps) = ItemType.map
typeof (Item.tag v x) = ItemType.tag
typeof (Item.ctrl v) = ItemType.float_ctrl
typeof (Item.float2 v) = ItemType.float_ctrl
typeof (Item.float4 v) = ItemType.float_ctrl
typeof (Item.float8 v) = ItemType.float_ctrl

-- `==` on enumerators.
abbrev pub type_eq : ItemType → ItemType → Bool
type_eq ItemType.uint ItemType.uint = true
type_eq ItemType.negint ItemType.negint = true
type_eq ItemType.bytestring ItemType.bytestring = true
type_eq ItemType.string ItemType.string = true
type_eq ItemType.array ItemType.array = true
type_eq ItemType.map ItemType.map = true
type_eq ItemType.tag ItemType.tag = true
type_eq ItemType.float_ctrl ItemType.float_ctrl = true
type_eq a b = false

abbrev pub float_width_eq : FloatWidth → FloatWidth → Bool
float_width_eq FloatWidth.float_0 FloatWidth.float_0 = true
float_width_eq FloatWidth.float_16 FloatWidth.float_16 = true
float_width_eq FloatWidth.float_32 FloatWidth.float_32 = true
float_width_eq FloatWidth.float_64 FloatWidth.float_64 = true
float_width_eq a b = false

-- The eight functions cbor_isa_uint to cbor_isa_float_ctrl, by the type that they compare with.
unfoldable pub isa : ItemType → Item → Bool
unfolding typeof
isa type item = type_eq (typeof item) type

unfoldable pub is_int : Item → Bool
unfolding isa
is_int item = isa ItemType.uint item || isa ItemType.negint item

unfoldable pub float_get_width : Item → Option FloatWidth
float_get_width (Item.ctrl v) = some FloatWidth.float_0
float_get_width (Item.float2 v) = some FloatWidth.float_16
float_get_width (Item.float4 v) = some FloatWidth.float_32
float_get_width (Item.float8 v) = some FloatWidth.float_64
float_get_width item = none

unfoldable pub ctrl_value : Item → Option ℕ
ctrl_value (Item.ctrl v) = some v
ctrl_value item = none

unfoldable pub float_ctrl_is_ctrl : Item → Option Bool
unfolding float_get_width
float_ctrl_is_ctrl item = elim (float_get_width item) [
  | none ↦ none
  | some w ↦ some (float_width_eq w FloatWidth.float_0)
]

-- `cbor_isa_float_ctrl(item) && cbor_float_ctrl_is_ctrl(item)`.
abbrev pub is_ctrl : Item → Bool
is_ctrl item =
    isa ItemType.float_ctrl item && elim (float_ctrl_is_ctrl item) [ none ↦ false | some b ↦ b ]

-- `cbor_ctrl_value(item) == value`, behind that test.
abbrev pub has_ctrl : Item → ℕ → Bool
has_ctrl item value = elim (ctrl_value item) [ none ↦ false | some v ↦ v == value ]

unfoldable pub is_bool : Item → Bool
unfolding isa float_ctrl_is_ctrl ctrl_value
is_bool item = is_ctrl item && (has_ctrl item 20 || has_ctrl item 21)

unfoldable pub is_null : Item → Bool
unfolding isa float_ctrl_is_ctrl ctrl_value
is_null item = is_ctrl item && has_ctrl item 22

unfoldable pub is_undef : Item → Bool
unfolding isa float_ctrl_is_ctrl ctrl_value
is_undef item = is_ctrl item && has_ctrl item 23

unfoldable pub is_float : Item → Bool
unfolding isa float_ctrl_is_ctrl
is_float item =
    isa ItemType.float_ctrl item
    && not (elim (float_ctrl_is_ctrl item) [ none ↦ false | some b ↦ b ])
