-- ===== src/Builder/State.antt =====
-- src/cbor/internal/builder_callbacks.h and stack.h: the decoder's context and its stack.
use libcbor.Base.{ℕ, suc, List, Option, Bool, true}
use libcbor.Base.{if◌then◌else◌}
use libcbor.Items.{Metadata, StringData, Item, Items, Pairs}
use libcbor.Memory.{Allocator}

-- CBOR_MAX_STACK_SIZE, `sizeof(cbor_item_t)`, `sizeof(struct _cbor_stack_record)` and
-- `sizeof(struct cbor_indefinite_string_data)`, with pointers and size_t of eight bytes.
unfoldable pub max_stack_size : ℕ
max_stack_size = 2048

abbrev pub item_size : ℕ
item_size = 48

abbrev pub stack_record_size : ℕ
stack_record_size = 24

abbrev pub string_data_size : ℕ
string_data_size = 24

-- An item under construction, with the members that it has: what PUSH_CTX_STACK pushes. A map may
-- hold a key whose value is still NULL; a tag's item is NULL.
pub data Container : Type 0 where
  open_array : Metadata → ℕ → Items → Container
  open_map : Metadata → ℕ → Pairs → Option Item → Container
  open_tag : ℕ → Container
  open_bytestring : ℕ → List (List ℕ) → Container
  open_string : ℕ → List StringData → Container

-- `struct _cbor_stack_record`: the item and `subitems`.
pub data Frame : Type 0 where
  frame : Container → ℕ → Frame

-- `struct _cbor_decoder_context`. The stack's `size` is the list's length. `fault` is set where the
-- C code would fail an assertion, read through NULL or close a map that has a NULL value. `answers`
-- is what the allocator will say.
pub record Context : Type 0 where
  pub creation_failed : Bool
  pub syntax_error : Bool
  pub fault : Bool
  pub root : Option Item
  pub stack : List Frame
  pub answers : Allocator

-- One allocation: what follows it, or `creation_failed` and an early return.
abbrev pub with_memory : ℕ → Context → (Context → Context) → Context
with_memory size ctx next =
    if ctx.answers 0 size
    then next (record ctx { answers = λ k. ctx.answers (suc k) })
    else record ctx { creation_failed = true; answers = λ k. ctx.answers (suc k) }
