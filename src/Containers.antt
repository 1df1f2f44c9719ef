-- ===== src/Containers.antt =====
-- src/cbor/arrays.c, maps.c, bytestrings.c, strings.c: how containers take new members. The storage
-- of an indefinite container doubles when it is full.
pub mod Arrays
pub mod Room
pub mod Handles
use libcbor.Base.{ℕ, ◌*◌, ◌%◌, List, Option, none, some}
use libcbor.Base.{if◌then◌else◌, leb, ◌==◌, length}
use libcbor.Items.{Metadata, StringData, Item, Items, Pairs, count, count_pairs, snoc}
use libcbor.Memory.{Allocator, safe_to_multiply, realloc_multiple, size_mod}
use libcbor.Unicode.{UnicodeStatus, codepoint_count}

-- CBOR_BUFFER_GROWTH, `sizeof(cbor_item_t*)` and `sizeof(struct cbor_pair)`.
abbrev pub buffer_growth : ℕ
buffer_growth = 2

abbrev pub pointer_size : ℕ
pointer_size = 8

abbrev pub pair_size : ℕ
pair_size = 16

-- The reallocation that the four containers share: the new capacity, or `none` where it fails.
unfoldable pub grow : ℕ → ℕ → Allocator → Option ℕ × Allocator
grow member_size allocated answers =
    if safe_to_multiply buffer_growth allocated
    then (let new_allocation = if allocated == 0 then 1 else buffer_growth * allocated % size_mod in
        let (success, answers') = realloc_multiple answers member_size new_allocation in
        (if success then some new_allocation else none, answers'))
    else (none, answers)

-- Room for a member behind `used` ones: the capacity after it, or `none`.
unfoldable pub reserve : Metadata → ℕ → ℕ → ℕ → Allocator → Option ℕ × Allocator
reserve Metadata.definite member_size allocated used answers =
    (if leb allocated used then none else some allocated, answers)
reserve Metadata.indefinite member_size allocated used answers =
    if leb allocated used then grow member_size allocated answers else (some allocated, answers)

-- cbor_array_push: the new `allocated` and entries.
unfoldable pub array_push : Metadata → ℕ → Items → Item → Allocator → Option (ℕ × Items) × Allocator
array_push d allocated xs pushee answers =
    let (room, answers') = reserve d pointer_size allocated (count xs) answers in
    (elim room [ none ↦ none | some allocated' ↦ some (allocated', snoc xs pushee) ], answers')

-- _cbor_map_add_key on a map with all its values: the new `allocated`. The key waits for its value.
unfoldable pub map_add_key : Metadata → ℕ → Pairs → Allocator → Option ℕ × Allocator
map_add_key d allocated ps answers = reserve d pair_size allocated (count_pairs ps) answers

-- cbor_bytestring_add_chunk and cbor_string_add_chunk: the new `chunk_capacity`.
unfoldable pub add_chunk : ℕ → ℕ → Allocator → Option ℕ × Allocator
add_chunk capacity chunk_count answers =
    if chunk_count == capacity then grow pointer_size capacity answers else (some capacity, answers)

-- The metadata that cbor_string_set_handle sets: a string of invalid UTF-8 has no code points.
unfoldable pub string_of : List ℕ → StringData
string_of bytes =
    let (points, status) = codepoint_count bytes in
    record {
      codepoint_count = elim status [ UnicodeStatus.ok ↦ points | UnicodeStatus.badcp pos ↦ 0 ];
      bytes = bytes;
    }

-- cbor_string_set_handle: `none` where its assertion on the number of code points fails.
unfoldable pub string_set_handle : List ℕ → Option StringData
unfolding string_of
string_set_handle bytes =
    if leb (codepoint_count bytes).0 (length bytes) then some (string_of bytes) else none
