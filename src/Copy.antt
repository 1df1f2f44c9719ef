-- ===== src/Copy.antt =====
-- src/cbor.c: cbor_copy. A copy under construction is a definite or indefinite
-- container and what it has taken so far; on a failure it is freed, and NULL is returned.
pub mod Growth
pub mod Copied
pub mod Leaves
pub mod Chunks
pub mod Runs
pub mod Alike
pub mod Claims
pub mod Definite
use libcbor.Allocation.{
  Built, Alloc, allocate, allocate_multiple, attempt, checked, pure, ◌>>=◌, ◌>>◌,
}
use libcbor.Base.{ℕ, ◌+◌, ◌%◌, List, [], ◌∷◌, ◌++◌, Bool, true, false, length, if◌then◌else◌, ◌==◌}
use libcbor.Base.{Option, none, some}
use libcbor.Builder.{item_size, string_data_size}
use libcbor.Containers.{
  array_push, map_add_key, add_chunk, string_set_handle, pointer_size, pair_size,
}
use libcbor.FloatsCtrls.{
  build_ctrl, build_float2, build_float4, build_float8, get_float2, get_float4, get_float8,
}
use libcbor.Ints.{int_get_width, get_uint, mark_negint, build_uint}
use libcbor.Items.{
  Metadata, IntWidth, StringData, Item, Items, Pairs, count, count_pairs, snoc_pair,
}
use libcbor.Kinds.{FloatWidth, float_get_width, ctrl_value}
use libcbor.Memory.{size_mod}

-- `if (negative) cbor_mark_negint(res)`: a NULL is not looked for.
abbrev pub mark_copied : Bool → Alloc Item → Alloc Item
mark_copied false m answers = m answers
mark_copied true m answers = elim (m answers) [
  | Built.built item rest ↦ checked (mark_negint item) rest
  | Built.failed rest ↦ Built.crashed
  | Built.crashed ↦ Built.crashed
]

-- `_cbor_copy_int` and `_cbor_copy_float_ctrl`.
unfoldable pub copy_int : ℕ → Item → Bool → Alloc Item
unfolding int_get_width get_uint build_uint mark_negint
copy_int garbage item negative = do
  width ← checked (int_get_width item)
  value ← checked (get_uint width item)
  mark_copied negative (build_uint garbage width value)

abbrev pub copy_float_at : ℕ → FloatWidth → Item → Alloc Item
copy_float_at garbage FloatWidth.float_0 item = do
  value ← checked (ctrl_value item)
  build_ctrl value
copy_float_at garbage FloatWidth.float_16 item = do
  value ← checked (get_float2 item)
  build_float2 garbage value
copy_float_at garbage FloatWidth.float_32 item = do
  value ← checked (get_float4 item)
  build_float4 garbage value
copy_float_at garbage FloatWidth.float_64 item = do
  value ← checked (get_float8 item)
  build_float8 garbage value

unfoldable pub copy_float_ctrl : ℕ → Item → Alloc Item
unfolding float_get_width ctrl_value get_float2 get_float4 get_float8 build_ctrl build_float2
    build_float4 build_float8
copy_float_ctrl garbage item = do
  width ← checked (float_get_width item)
  copy_float_at garbage width item

-- cbor_build_bytestring and cbor_build_stringn.
unfoldable pub build_bytestring : List ℕ → Alloc Item
unfolding allocate
build_bytestring bytes = do
  allocate item_size
  allocate (length bytes)
  pure (Item.bytestring bytes)

unfoldable pub build_stringn : List ℕ → Alloc Item
unfolding allocate
build_stringn bytes = do
  allocate item_size
  allocate (length bytes)
  new_string ← checked (string_set_handle bytes)
  pure (Item.string new_string)

-- cbor_new_indefinite_bytestring and cbor_new_indefinite_string.
unfoldable pub new_indefinite_string : Alloc (Unit {0})
unfolding allocate
new_indefinite_string = do allocate item_size; allocate string_data_size

-- cbor_new_definite_array and cbor_new_indefinite_array: what is allocated for the entries.
unfoldable pub new_array : Metadata → ℕ → Alloc ℕ
unfolding allocate allocate_multiple
new_array Metadata.definite size = do
  allocate item_size
  allocate_multiple pointer_size size
  pure size
new_array Metadata.indefinite size = do allocate item_size; pure 0

unfoldable pub new_map : Metadata → ℕ → Alloc ℕ
unfolding allocate allocate_multiple
new_map Metadata.definite size = do allocate item_size; allocate_multiple pair_size size; pure size
new_map Metadata.indefinite size = do allocate item_size; pure 0

-- cbor_new_tag, inside cbor_build_tag.
unfoldable pub build_tag : ℕ → Item → Alloc Item
unfolding allocate
build_tag value item = do allocate item_size; pure (Item.tag value item)

-- The loops over the chunks of an indefinite string; a chunk is copied as a definite string.
unfoldable pub copy_byte_chunks : ℕ → List (List ℕ) → List (List ℕ) → Alloc Item
unfolding allocate
copy_byte_chunks capacity taken [] = pure (Item.indef_bytestring capacity taken)
copy_byte_chunks capacity taken (chunk ∷ chunks) = do
  allocate item_size
  allocate (length chunk)
  capacity' ← attempt (add_chunk capacity (length taken))
  copy_byte_chunks capacity' (taken ++ chunk ∷ []) chunks

unfoldable pub copy_string_chunks : ℕ → List StringData → List StringData → Alloc Item
unfolding allocate
copy_string_chunks capacity taken [] = pure (Item.indef_string capacity taken)
copy_string_chunks capacity taken (chunk ∷ chunks) = do
  allocate item_size
  allocate (length chunk.bytes)
  new_string ← checked (string_set_handle chunk.bytes)
  capacity' ← attempt (add_chunk capacity (length taken))
  copy_string_chunks capacity' (taken ++ new_string ∷ []) chunks

unfoldable mutual
  unfolding copy_int copy_float_ctrl build_bytestring build_stringn new_indefinite_string new_array
      new_map build_tag copy_byte_chunks copy_string_chunks

  pub copy : ℕ → Item → Alloc Item
  copy garbage (Item.uint w v) = copy_int garbage (Item.uint w v) false
  copy garbage (Item.negint w v) = copy_int garbage (Item.negint w v) true
  copy garbage (Item.bytestring bytes) = build_bytestring bytes
  copy garbage (Item.indef_bytestring capacity chunks) = do
    new_indefinite_string
    copy_byte_chunks 0 [] chunks
  copy garbage (Item.string s) = build_stringn s.bytes
  copy garbage (Item.indef_string capacity chunks) = do
    new_indefinite_string
    copy_string_chunks 0 [] chunks
  copy garbage (Item.array d allocated xs) = do
    allocated' ← new_array d (count xs)
    copy_items garbage d allocated' Items.nil xs
  copy garbage (Item.map d allocated ps) = do
    allocated' ← new_map d (count_pairs ps)
    copy_pairs garbage d allocated' Pairs.end ps
  copy garbage (Item.tag value x) = do item ← copy garbage x; build_tag value item
  copy garbage (Item.ctrl v) = copy_float_ctrl garbage (Item.ctrl v)
  copy garbage (Item.float2 v) = copy_float_ctrl garbage (Item.float2 v)
  copy garbage (Item.float4 v) = copy_float_ctrl garbage (Item.float4 v)
  copy garbage (Item.float8 v) = copy_float_ctrl garbage (Item.float8 v)

  -- The loop over the entries of an array.
  pub copy_items : ℕ → Metadata → ℕ → Items → Items → Alloc Item
  copy_items garbage d allocated taken Items.nil = pure (Item.array d allocated taken)
  copy_items garbage d allocated taken (Items.cons x xs) = do
    item ← copy garbage x
    (allocated', taken') ← attempt (array_push d allocated taken item)
    copy_items garbage d allocated' taken' xs

  -- The loop over the entries of a map, with cbor_map_add.
  pub copy_pairs : ℕ → Metadata → ℕ → Pairs → Pairs → Alloc Item
  copy_pairs garbage d allocated taken Pairs.end = pure (Item.map d allocated taken)
  copy_pairs garbage d allocated taken (Pairs.pair key value ps) = do
    key' ← copy garbage key
    value' ← copy garbage value
    allocated' ← attempt (map_add_key d allocated taken)
    copy_pairs garbage d allocated' (snoc_pair taken key' value') ps
