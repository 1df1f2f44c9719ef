-- ===== src/Builder/Callbacks.antt =====
-- src/cbor/internal/builder_callbacks.c: one function for each callback, and stack.c's push.
use libcbor.Base.{ℕ, ◌+◌, ◌*◌, ◌%◌, List, [], ◌∷◌, ◌++◌, none, some, true}
use libcbor.Base.{length, if◌then◌else◌, ◌==◌}
use libcbor.Builder.Append.{append, append_to, faulty}
use libcbor.Builder.State.{
  Container, open_array, open_map, open_tag, open_bytestring, open_string, Frame, frame, Context,
  with_memory, max_stack_size, item_size, stack_record_size, string_data_size,
}
use libcbor.Containers.{add_chunk, string_set_handle, pointer_size, pair_size}
use libcbor.Items.{Metadata, IntWidth, StringData, Item, Items, Pairs}
use libcbor.Memory.{alloc_multiple, size_mod}
use libcbor.Streaming.{Event}

-- `_cbor_stack_push` inside PUSH_CTX_STACK.
unfoldable pub push_context : Container → ℕ → Context → Context
push_context res subitems ctx =
    if length ctx.stack == max_stack_size
    then record ctx { creation_failed = true }
    else with_memory stack_record_size ctx (λ c. record c { stack = frame res subitems ∷ c.stack })

-- Storage for `count` members of a definite container, allocated behind its item.
abbrev pub with_storage : ℕ → ℕ → Context → (Context → Context) → Context
with_storage member_size count ctx next =
    let (success, answers') = alloc_multiple ctx.answers member_size count in
    if success
    then next (record ctx { answers = answers' })
    else record ctx { creation_failed = true; answers = answers' }

-- The two string callbacks behind the allocation of the chunk: an indefinite string of the same kind
-- on top of the stack is extended.
unfoldable pub add_byte_string : List Frame → List ℕ → Context → Context
add_byte_string (frame (open_bytestring capacity chunks) n ∷ lower) bytes ctx =
    let (room, answers') = add_chunk capacity (length chunks) ctx.answers in
    elim room [
      | none ↦ record ctx { creation_failed = true; answers = answers' }
      | some capacity' ↦ record ctx {
        stack = frame (open_bytestring capacity' (chunks ++ bytes ∷ [])) n ∷ lower;
        answers = answers';
      }
    ]
add_byte_string stack bytes ctx = append_to stack (Item.bytestring bytes) ctx

unfoldable pub add_string_item : List Frame → StringData → Context → Context
add_string_item (frame (open_string capacity chunks) n ∷ lower) new_chunk ctx =
    let (room, answers') = add_chunk capacity (length chunks) ctx.answers in
    elim room [
      | none ↦ record ctx { creation_failed = true; answers = answers' }
      | some capacity' ↦ record ctx {
        stack = frame (open_string capacity' (chunks ++ new_chunk ∷ [])) n ∷ lower;
        answers = answers';
      }
    ]
add_string_item stack new_chunk ctx = append_to stack (Item.string new_chunk) ctx

unfoldable pub add_string : List Frame → List ℕ → Context → Context
unfolding add_string_item string_set_handle
add_string stack bytes ctx = elim (string_set_handle bytes) [
  | none ↦ faulty ctx
  | some new_chunk ↦ add_string_item stack new_chunk ctx
]

-- `_cbor_is_indefinite` and the parity test of the break callback.
unfoldable pub break_top : List Frame → Context → Context
break_top (frame (open_array Metadata.indefinite allocated xs) n ∷ lower) ctx =
    append_to lower (Item.array Metadata.indefinite allocated xs) (record ctx { stack = lower })
break_top (frame (open_map Metadata.indefinite allocated ps none) n ∷ lower) ctx =
    let closed =
      append_to lower (Item.map Metadata.indefinite allocated ps) (record ctx { stack = lower }) in
    if n % 2 == 0 then closed else record ctx { syntax_error = true }
break_top (frame (open_map Metadata.indefinite allocated ps (some key)) n ∷ lower) ctx =
    if n % 2 == 0 then faulty ctx else record ctx { syntax_error = true }
break_top (frame (open_bytestring capacity chunks) n ∷ lower) ctx =
    append_to lower (Item.indef_bytestring capacity chunks) (record ctx { stack = lower })
break_top (frame (open_string capacity chunks) n ∷ lower) ctx =
    append_to lower (Item.indef_string capacity chunks) (record ctx { stack = lower })
break_top stack ctx = record ctx { syntax_error = true }

-- An item in one allocation.
abbrev pub leaf : ℕ → Item → Context → Context
leaf size item ctx = with_memory size ctx (λ c. append item c)

-- The callback for each event, as cbor_load lists them.
unfoldable pub handle : Event → Context → Context
unfolding append
handle (Event.uint8 v) ctx = leaf (item_size + 1) (Item.uint IntWidth.int8 v) ctx
handle (Event.uint16 v) ctx = leaf (item_size + 2) (Item.uint IntWidth.int16 v) ctx
handle (Event.uint32 v) ctx = leaf (item_size + 4) (Item.uint IntWidth.int32 v) ctx
handle (Event.uint64 v) ctx = leaf (item_size + 8) (Item.uint IntWidth.int64 v) ctx
handle (Event.negint8 v) ctx = leaf (item_size + 1) (Item.negint IntWidth.int8 v) ctx
handle (Event.negint16 v) ctx = leaf (item_size + 2) (Item.negint IntWidth.int16 v) ctx
handle (Event.negint32 v) ctx = leaf (item_size + 4) (Item.negint IntWidth.int32 v) ctx
handle (Event.negint64 v) ctx = leaf (item_size + 8) (Item.negint IntWidth.int64 v) ctx
handle (Event.byte_string bytes) ctx =
    with_memory (length bytes) ctx
      (λ c. with_memory item_size c (λ c'. add_byte_string c'.stack bytes c'))
handle Event.byte_string_start ctx =
    with_memory item_size ctx
      (λ c. with_memory string_data_size c (push_context (open_bytestring 0 []) 0))
handle (Event.string bytes) ctx =
    with_memory (length bytes) ctx
      (λ c. with_memory item_size c (λ c'. add_string c'.stack bytes c'))
handle Event.string_start ctx =
    with_memory item_size ctx
      (λ c. with_memory string_data_size c (push_context (open_string 0 []) 0))
handle (Event.array_start size) ctx = with_memory item_size ctx (λ c.
    with_storage pointer_size size c (λ c'.
      if size == 0
      then append (Item.array Metadata.definite size Items.nil) c'
      else push_context (open_array Metadata.definite size Items.nil) size c'))
handle Event.indef_array_start ctx =
    with_memory item_size ctx (push_context (open_array Metadata.indefinite 0 Items.nil) 0)
handle (Event.map_start size) ctx = with_memory item_size ctx (λ c.
    with_storage pair_size size c (λ c'.
      if size == 0
      then append (Item.map Metadata.definite size Pairs.end) c'
      else push_context (open_map Metadata.definite size Pairs.end none) (size * 2 % size_mod) c'))
handle Event.indef_map_start ctx =
    with_memory item_size ctx (push_context (open_map Metadata.indefinite 0 Pairs.end none) 0)
handle (Event.tag v) ctx = with_memory item_size ctx (push_context (open_tag v) 1)
handle (Event.float2 v) ctx = leaf (item_size + 4) (Item.float2 v) ctx
handle (Event.float4 v) ctx = leaf (item_size + 4) (Item.float4 v) ctx
handle (Event.float8 v) ctx = leaf (item_size + 8) (Item.float8 v) ctx
handle Event.null ctx = leaf item_size (Item.ctrl 22) ctx
handle Event.undefined ctx = leaf item_size (Item.ctrl 23) ctx
handle (Event.boolean b) ctx = leaf item_size (Item.ctrl (if b then 21 else 20)) ctx
handle Event.indef_break ctx = break_top ctx.stack ctx
