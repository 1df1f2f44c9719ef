-- ===== src/Copy/Definite.antt =====
-- src/cbor.c: cbor_copy_definite.
pub mod Combined
pub mod Values
pub mod Chunks
pub mod Runs
pub mod Claims
use libcbor.Allocation.{Built, Alloc, allocate, attempt, checked, pure, ◌>>=◌, ◌>>◌}
use libcbor.Base.{ℕ, ◌+◌, ◌%◌, List, [], ◌∷◌, ◌++◌, length, leb, if◌then◌else◌, Option, none, some}
use libcbor.Builder.{item_size}
use libcbor.Containers.{array_push, map_add_key, string_set_handle}
use libcbor.Copy.{copy, new_array, new_map, build_tag}
use libcbor.Items.{Metadata, StringData, Item, Items, Pairs, count, count_pairs, snoc_pair}
use libcbor.Memory.{size_mod}

-- What is used, or asserted, without a look for failure.
abbrev pub unchecked : {A : Type 0} → Alloc A → Alloc A
unchecked m answers = elim (m answers) [
  | Built.built a rest ↦ Built.built a rest
  | Built.failed rest ↦ Built.crashed
  | Built.crashed ↦ Built.crashed
]

-- `total_length`, summed over the chunks from `total` on; a size_t wraps.
unfoldable pub total_length : ℕ → List (List ℕ) → ℕ
total_length total [] = total
total_length total (chunk ∷ chunks) = total_length ((total + length chunk) % size_mod) chunks

-- What the second loop copies behind one another.
unfoldable pub joined : List (List ℕ) → List ℕ
joined [] = []
joined (chunk ∷ chunks) = chunk ++ joined chunks

-- The allocation of `combined_data` and the copying into it, which runs past its end where the sum has
-- wrapped.
unfoldable pub combine : List (List ℕ) → Alloc (List ℕ)
unfolding allocate total_length joined
combine chunks = do
  allocate (total_length 0 chunks)
  checked
      (if leb (length (joined chunks)) (total_length 0 chunks) then some (joined chunks) else none)

abbrev pub chunk_bytes : List StringData → List (List ℕ)
chunk_bytes [] = []
chunk_bytes (chunk ∷ chunks) = chunk.bytes ∷ chunk_bytes chunks

-- cbor_new_definite_bytestring, cbor_new_definite_string and the handle: a NULL is not looked for.
unfoldable pub combine_bytestring : List (List ℕ) → Alloc Item
unfolding allocate combine
combine_bytestring chunks = do
  combined_data ← combine chunks
  unchecked (allocate item_size)
  pure (Item.bytestring combined_data)

unfoldable pub combine_string : List StringData → Alloc Item
unfolding allocate combine
combine_string chunks = do
  combined_data ← combine (chunk_bytes chunks)
  unchecked (allocate item_size)
  new_string ← checked (string_set_handle combined_data)
  pure (Item.string new_string)

unfoldable mutual
  unfolding copy new_array new_map build_tag combine_bytestring combine_string

  pub copy_definite : ℕ → Item → Alloc Item
  copy_definite garbage (Item.uint w v) = copy garbage (Item.uint w v)
  copy_definite garbage (Item.negint w v) = copy garbage (Item.negint w v)
  copy_definite garbage (Item.bytestring bytes) = copy garbage (Item.bytestring bytes)
  copy_definite garbage (Item.indef_bytestring capacity chunks) = combine_bytestring chunks
  copy_definite garbage (Item.string s) = copy garbage (Item.string s)
  copy_definite garbage (Item.indef_string capacity chunks) = combine_string chunks
  copy_definite garbage (Item.array d allocated xs) = do
    allocated' ← new_array Metadata.definite (count xs)
    copy_definite_items garbage allocated' Items.nil xs
  copy_definite garbage (Item.map d allocated ps) = do
    allocated' ← new_map Metadata.definite (count_pairs ps)
    copy_definite_pairs garbage allocated' Pairs.end ps
  copy_definite garbage (Item.tag value x) = do item ← copy_definite garbage x; build_tag value item
  copy_definite garbage (Item.ctrl v) = copy garbage (Item.ctrl v)
  copy_definite garbage (Item.float2 v) = copy garbage (Item.float2 v)
  copy_definite garbage (Item.float4 v) = copy garbage (Item.float4 v)
  copy_definite garbage (Item.float8 v) = copy garbage (Item.float8 v)

  -- The loop over the entries of an array.
  pub copy_definite_items : ℕ → ℕ → Items → Items → Alloc Item
  copy_definite_items garbage allocated taken Items.nil =
      pure (Item.array Metadata.definite allocated taken)
  copy_definite_items garbage allocated taken (Items.cons x xs) = do
    entry_copy ← copy_definite garbage x
    (allocated', taken') ←
        unchecked (attempt (array_push Metadata.definite allocated taken entry_copy))
    copy_definite_items garbage allocated' taken' xs

  -- The loop over the entries of a map, with cbor_map_add.
  pub copy_definite_pairs : ℕ → ℕ → Pairs → Pairs → Alloc Item
  copy_definite_pairs garbage allocated taken Pairs.end =
      pure (Item.map Metadata.definite allocated taken)
  copy_definite_pairs garbage allocated taken (Pairs.pair key value ps) = do
    key_copy ← copy_definite garbage key
    value_copy ← copy_definite garbage value
    allocated' ← unchecked (attempt (map_add_key Metadata.definite allocated taken))
    copy_definite_pairs garbage allocated' (snoc_pair taken key_copy value_copy) ps
