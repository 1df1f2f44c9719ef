-- ===== src/FloatsCtrls.antt =====
-- src/cbor/floats_ctrls.c: items of the major type 7. A getter or setter is `none` where an assertion
-- of it fails. `garbage` is what uninitialised memory holds.
pub mod Reads
use libcbor.Allocation.{Alloc, allocate, checked, pure, ◌>>=◌, ◌>>◌}
use libcbor.Base.{ℕ, ◌+◌, ◌==◌, Option, none, some, Bool, if◌then◌else◌}
use libcbor.Builder.{item_size}
use libcbor.Items.{Item}
use libcbor.Kinds.{is_bool}

unfoldable pub get_float2 : Item → Option ℕ
get_float2 (Item.float2 v) = some v
get_float2 item = none

unfoldable pub get_float4 : Item → Option ℕ
get_float4 (Item.float4 v) = some v
get_float4 item = none

unfoldable pub get_float8 : Item → Option ℕ
get_float8 (Item.float8 v) = some v
get_float8 item = none

-- cbor_float_get_float. `to_double` is the compiler's conversion of a float; the case of NAN is behind
-- an assertion that excludes it.
unfoldable pub get_float : (ℕ → ℕ) → Item → Option ℕ
unfolding get_float2 get_float4 get_float8
get_float to_double (Item.float2 v) = some (to_double v)
get_float to_double (Item.float4 v) = some (to_double v)
get_float to_double item = get_float8 item

unfoldable pub get_bool : Item → Option Bool
unfolding is_bool
get_bool (Item.ctrl v) = if is_bool (Item.ctrl v) then some (v == 21) else none
get_bool item = none

unfoldable pub set_float2 : ℕ → Item → Option Item
set_float2 value (Item.float2 v) = some (Item.float2 value)
set_float2 value item = none

unfoldable pub set_float4 : ℕ → Item → Option Item
set_float4 value (Item.float4 v) = some (Item.float4 value)
set_float4 value item = none

unfoldable pub set_float8 : ℕ → Item → Option Item
set_float8 value (Item.float8 v) = some (Item.float8 value)
set_float8 value item = none

unfoldable pub set_ctrl : ℕ → Item → Option Item
set_ctrl value (Item.ctrl v) = some (Item.ctrl value)
set_ctrl value item = none

-- CBOR_CTRL_TRUE and CBOR_CTRL_FALSE.
abbrev pub bool_ctrl : Bool → ℕ
bool_ctrl value = if value then 21 else 20

unfoldable pub set_bool : Bool → Item → Option Item
unfolding is_bool
set_bool value (Item.ctrl v) =
    if is_bool (Item.ctrl v) then some (Item.ctrl (bool_ctrl value)) else none
set_bool value item = none

-- CBOR_CTRL_NONE is 0.
unfoldable pub new_ctrl : Alloc Item
unfolding allocate
new_ctrl = do allocate item_size; pure (Item.ctrl 0)

unfoldable pub new_float2 : ℕ → Alloc Item
unfolding allocate
new_float2 garbage = do allocate (item_size + 4); pure (Item.float2 garbage)

unfoldable pub new_float4 : ℕ → Alloc Item
unfolding allocate
new_float4 garbage = do allocate (item_size + 4); pure (Item.float4 garbage)

unfoldable pub new_float8 : ℕ → Alloc Item
unfolding allocate
new_float8 garbage = do allocate (item_size + 8); pure (Item.float8 garbage)

unfoldable pub build_ctrl : ℕ → Alloc Item
unfolding new_ctrl set_ctrl
build_ctrl value = do item ← new_ctrl; checked (set_ctrl value item)

unfoldable pub new_null : Alloc Item
unfolding new_ctrl set_ctrl
new_null = do item ← new_ctrl; checked (set_ctrl 22 item)

unfoldable pub new_undef : Alloc Item
unfolding new_ctrl set_ctrl
new_undef = do item ← new_ctrl; checked (set_ctrl 23 item)

unfoldable pub build_bool : Bool → Alloc Item
unfolding build_ctrl
build_bool value = build_ctrl (bool_ctrl value)

unfoldable pub build_float2 : ℕ → ℕ → Alloc Item
unfolding new_float2 set_float2
build_float2 garbage value = do item ← new_float2 garbage; checked (set_float2 value item)

unfoldable pub build_float4 : ℕ → ℕ → Alloc Item
unfolding new_float4 set_float4
build_float4 garbage value = do item ← new_float4 garbage; checked (set_float4 value item)

unfoldable pub build_float8 : ℕ → ℕ → Alloc Item
unfolding new_float8 set_float8
build_float8 garbage value = do item ← new_float8 garbage; checked (set_float8 value item)
