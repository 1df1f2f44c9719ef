-- ===== src/Builder/Stored.antt =====
-- The callbacks of src/cbor/internal/builder_callbacks.c write no member behind its container's storage.
use libcbor.Base.{sym, subst}
use libcbor.Builder.Strings.{add_string-add_string_item}
use libcbor.Items.{StringData}
use libcbor.Base.{
  ℕ, suc, ◌*◌, ◌%◌, ◌^◌, ◌<◌, arith, List, [], ◌∷◌, ◌++◌, none, some, All, length, length-append,
  if◌then◌else◌, ◌==◌,
}
use libcbor.Builder.{
  Container, open_array, open_map, open_tag, open_bytestring, open_string, Frame, frame, Context,
  push_context, append_to, append, with_storage, with_memory, max_stack_size, add_byte_string,
  add_string, add_string_item, break_top, leaf, handle,
}
use libcbor.Builder.Counters.{EventFits}
use libcbor.Builder.Assertions.{allocated_fits}
use libcbor.Builder.Room.{FrameFits, IsFitted, if-IsFitted, room-IsFitted, append_to-IsFitted}
use libcbor.Containers.{add_chunk, string_of}
use libcbor.Containers.Room.{HasRoom, IsRoomy, add_chunk-HasRoom}
use libcbor.Items.{Metadata, Item, Items, Pairs, IntWidth}
use libcbor.Memory.{alloc_multiple, size_mod, IsSize}
use libcbor.Streaming.{Event}

push_context-IsFitted :
    (res : Container) (n : ℕ) (ctx : Context)
    → FrameFits (frame res n)
    → IsFitted ctx
    → IsFitted (push_context res n ctx)
unfolding push_context
push_context-IsFitted res n ctx fits h =
    if-IsFitted (length ctx.stack == max_stack_size) _ _ (λ e. h)
      (λ e. if-IsFitted (ctx.answers 0 24) _ _ (λ e'. (h.0, (fits, h.1))) (λ e'. h))

with_memory-IsFitted :
    (size : ℕ) (ctx : Context) (next : Context → Context)
    → IsFitted ctx
    → ((c : Context) → IsFitted c → IsFitted (next c))
    → IsFitted (with_memory size ctx next)
with_memory-IsFitted size ctx next h k = if-IsFitted (ctx.answers 0 size) _ _ (λ e. k _ h) (λ e. h)

with_storage-IsFitted :
    (size n : ℕ) (ctx : Context) (next : Context → Context)
    → IsSize size
    → IsSize n
    → IsFitted ctx
    → ((c : Context) → size * n < 2 ^ 64 → IsFitted c → IsFitted (next c))
    → IsFitted (with_storage size n ctx next)
with_storage-IsFitted size n ctx next small fits h k =
    if-IsFitted (alloc_multiple ctx.answers size n).0 _ _
      (λ e. k _ (allocated_fits ctx.answers size n small fits e) h) (λ e. h)

leaf-IsFitted :
    (size : ℕ) (item : Item) (ctx : Context)
    → IsRoomy item
    → IsFitted ctx
    → IsFitted (leaf size item ctx)
unfolding append
leaf-IsFitted size item ctx fits h =
    with_memory-IsFitted size ctx (λ c. append_to c.stack item c) h
      (λ c k. append_to-IsFitted c.stack item c k.1 fits k)

longer :
    {A : Type 0} {n : ℕ} (xs : List A) (x : A)
    → HasRoom 8 n (suc (length xs))
    → HasRoom 8 n (length (xs ++ x ∷ []))
longer xs x h = (omega (arith, h.0, length-append xs (x ∷ [])), h.1)

add_byte_string-IsFitted :
    (s : List Frame) (bytes : List ℕ) (ctx : Context)
    → All FrameFits s
    → IsFitted ctx
    → IsFitted (add_byte_string s bytes ctx)
unfolding add_byte_string
add_byte_string-IsFitted (frame (open_bytestring capacity chunks) n ∷ lower) bytes ctx h k =
    room-IsFitted (add_chunk capacity (length chunks) ctx.answers).0 _ _
      (add_chunk-HasRoom capacity (length chunks) ctx.answers h.0) k
      (λ grown room. (k.0, (longer chunks bytes room, h.1)))
add_byte_string-IsFitted s bytes ctx h k = append_to-IsFitted s _ ctx h tt k

add_string_item-IsFitted :
    (s : List Frame) (new_chunk : StringData) (ctx : Context)
    → All FrameFits s
    → IsFitted ctx
    → IsFitted (add_string_item s new_chunk ctx)
unfolding add_string_item
add_string_item-IsFitted (frame (open_string capacity chunks) n ∷ lower) new_chunk ctx h k =
    room-IsFitted (add_chunk capacity (length chunks) ctx.answers).0 _ _
      (add_chunk-HasRoom capacity (length chunks) ctx.answers h.0) k
      (λ grown room. (k.0, (longer chunks new_chunk room, h.1)))
add_string_item-IsFitted s new_chunk ctx h k = append_to-IsFitted s _ ctx h tt k

add_string-IsFitted :
    (s : List Frame) (bytes : List ℕ) (ctx : Context)
    → All FrameFits s
    → IsFitted ctx
    → IsFitted (add_string s bytes ctx)
add_string-IsFitted s bytes ctx h k =
    subst IsFitted (sym (add_string-add_string_item s bytes ctx))
      (add_string_item-IsFitted s (string_of bytes) ctx h k)

break_top-IsFitted :
    (s : List Frame) (ctx : Context) → All FrameFits s → IsFitted ctx → IsFitted (break_top s ctx)
unfolding break_top
break_top-IsFitted (frame (open_array Metadata.indefinite allocated xs) n ∷ lower) ctx h k =
    append_to-IsFitted lower _ _ h.1 h.0 (k.0, h.1)
break_top-IsFitted (frame (open_map Metadata.indefinite allocated ps none) n ∷ lower) ctx h k =
    if-IsFitted (n % 2 == 0) _ _ (λ e. append_to-IsFitted lower _ _ h.1 h.0 (k.0, h.1)) (λ e. k)
break_top-IsFitted (frame (open_map Metadata.indefinite allocated ps (some key)) n ∷ lower) ctx h
      k =
    if-IsFitted (n % 2 == 0) _ _ (λ e. k) (λ e. k)
break_top-IsFitted (frame (open_bytestring capacity chunks) n ∷ lower) ctx h k =
    append_to-IsFitted lower _ _ h.1 h.0 (k.0, h.1)
break_top-IsFitted (frame (open_string capacity chunks) n ∷ lower) ctx h k =
    append_to-IsFitted lower _ _ h.1 h.0 (k.0, h.1)
break_top-IsFitted s ctx h k = k

start-IsFitted :
    (size : ℕ) (res : Container) (n : ℕ) (ctx : Context)
    → FrameFits (frame res n)
    → IsFitted ctx
    → IsFitted (with_memory size ctx (push_context res n))
start-IsFitted size res n ctx fits h =
    with_memory-IsFitted size ctx (push_context res n) h
      (λ c k. push_context-IsFitted res n c fits k)

start_array-IsFitted :
    (size : ℕ) (ctx : Context)
    → IsSize size
    → IsFitted ctx
    → IsFitted (handle (Event.array_start size) ctx)
unfolding handle append
start_array-IsFitted size ctx fits h =
    let inner : Context → Context = λ c.
      if size == 0
      then append (Item.array Metadata.definite size Items.nil) c
      else push_context (open_array Metadata.definite size Items.nil) size c in
    with_memory-IsFitted 48 ctx (λ c. with_storage 8 size c inner) h
      (λ c k. with_storage-IsFitted 8 size c inner (omega arith) fits k (λ c' product k'.
        if-IsFitted (size == 0) _ _
          (λ e. append_to-IsFitted c'.stack _ c' k'.1 ((omega arith, product), tt) k')
          (λ e.
            push_context-IsFitted (open_array Metadata.definite size Items.nil) size c'
              ((omega arith, product), tt) k')))

start_map-IsFitted :
    (size : ℕ) (ctx : Context)
    → IsSize size
    → IsFitted ctx
    → IsFitted (handle (Event.map_start size) ctx)
unfolding handle append
start_map-IsFitted size ctx fits h =
    let inner : Context → Context = λ c.
      if size == 0
      then append (Item.map Metadata.definite size Pairs.end) c
      else push_context (open_map Metadata.definite size Pairs.end none) (size * 2 % size_mod) c in
    with_memory-IsFitted 48 ctx (λ c. with_storage 16 size c inner) h
      (λ c k. with_storage-IsFitted 16 size c inner (omega arith) fits k (λ c' product k'.
        if-IsFitted (size == 0) _ _
          (λ e. append_to-IsFitted c'.stack _ c' k'.1 ((omega arith, product), tt) k')
          (λ e.
            push_context-IsFitted (open_map Metadata.definite size Pairs.end none)
              (size * 2 % size_mod) c' ((omega arith, product), tt) k')))

-- In a context where each container on the stack, each container within those and within the root holds
-- no more members than its storage has room for, a waiting key included, and where no such storage has
-- 2 ^ 64 bytes, a callback leaves such a context, whatever the allocator answers, with any size of the
-- event being a size_t.
pub handle-IsFitted :
    (event : Event) (ctx : Context) → EventFits event → IsFitted ctx → IsFitted (handle event ctx)
unfolding handle
handle-IsFitted (Event.uint8 v) ctx f h = leaf-IsFitted 49 (Item.uint IntWidth.int8 v) ctx tt h
handle-IsFitted (Event.uint16 v) ctx f h = leaf-IsFitted 50 (Item.uint IntWidth.int16 v) ctx tt h
handle-IsFitted (Event.uint32 v) ctx f h = leaf-IsFitted 52 (Item.uint IntWidth.int32 v) ctx tt h
handle-IsFitted (Event.uint64 v) ctx f h = leaf-IsFitted 56 (Item.uint IntWidth.int64 v) ctx tt h
handle-IsFitted (Event.negint8 v) ctx f h = leaf-IsFitted 49 (Item.negint IntWidth.int8 v) ctx tt h
handle-IsFitted (Event.negint16 v) ctx f h =
    leaf-IsFitted 50 (Item.negint IntWidth.int16 v) ctx tt h
handle-IsFitted (Event.negint32 v) ctx f h =
    leaf-IsFitted 52 (Item.negint IntWidth.int32 v) ctx tt h
handle-IsFitted (Event.negint64 v) ctx f h =
    leaf-IsFitted 56 (Item.negint IntWidth.int64 v) ctx tt h
handle-IsFitted (Event.byte_string bytes) ctx f h =
    let inner : Context → Context = λ c. add_byte_string c.stack bytes c in
    with_memory-IsFitted (length bytes) ctx (λ c. with_memory 48 c inner) h
      (λ c k.
        with_memory-IsFitted 48 c inner k
          (λ c' k'. add_byte_string-IsFitted c'.stack bytes c' k'.1 k'))
handle-IsFitted (Event.string bytes) ctx f h =
    let inner : Context → Context = λ c. add_string c.stack bytes c in
    with_memory-IsFitted (length bytes) ctx (λ c. with_memory 48 c inner) h
      (λ c k.
        with_memory-IsFitted 48 c inner k (λ c' k'. add_string-IsFitted c'.stack bytes c' k'.1 k'))
handle-IsFitted Event.byte_string_start ctx f h =
    with_memory-IsFitted 48 ctx (λ c. with_memory 24 c (push_context (open_bytestring 0 []) 0)) h
      (λ c k. start-IsFitted 24 (open_bytestring 0 []) 0 c (omega arith, omega arith) k)
handle-IsFitted Event.string_start ctx f h =
    with_memory-IsFitted 48 ctx (λ c. with_memory 24 c (push_context (open_string 0 []) 0)) h
      (λ c k. start-IsFitted 24 (open_string 0 []) 0 c (omega arith, omega arith) k)
handle-IsFitted (Event.array_start size) ctx f h = start_array-IsFitted size ctx f h
handle-IsFitted (Event.map_start size) ctx f h = start_map-IsFitted size ctx f h
handle-IsFitted Event.indef_array_start ctx f h =
    start-IsFitted 48 (open_array Metadata.indefinite 0 Items.nil) 0 ctx
      ((omega arith, omega arith), tt) h
handle-IsFitted Event.indef_map_start ctx f h =
    start-IsFitted 48 (open_map Metadata.indefinite 0 Pairs.end none) 0 ctx
      ((omega arith, omega arith), tt) h
handle-IsFitted (Event.tag v) ctx f h = start-IsFitted 48 (open_tag v) 1 ctx tt h
handle-IsFitted (Event.float2 v) ctx f h = leaf-IsFitted 52 (Item.float2 v) ctx tt h
handle-IsFitted (Event.float4 v) ctx f h = leaf-IsFitted 52 (Item.float4 v) ctx tt h
handle-IsFitted (Event.float8 v) ctx f h = leaf-IsFitted 56 (Item.float8 v) ctx tt h
handle-IsFitted Event.null ctx f h = leaf-IsFitted 48 (Item.ctrl 22) ctx tt h
handle-IsFitted Event.undefined ctx f h = leaf-IsFitted 48 (Item.ctrl 23) ctx tt h
handle-IsFitted (Event.boolean b) ctx f h =
    leaf-IsFitted 48 (Item.ctrl (if b then 21 else 20)) ctx tt h
handle-IsFitted Event.indef_break ctx f h = break_top-IsFitted ctx.stack ctx h.1 h
