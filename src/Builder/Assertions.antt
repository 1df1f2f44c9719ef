-- ===== src/Builder/Assertions.antt =====
-- No assertion of the builder fails: the counters on the stack agree with what the containers hold.
use libcbor.Base.{sym, subst}
use libcbor.Builder.Strings.{add_string-add_string_item}
use libcbor.Containers.{string_of}
use libcbor.Items.{StringData}
use libcbor.Base.{ℕ, ◌*◌, ◌%◌, ◌^◌, ◌<◌, ◌≡◌, refl, arith}
use libcbor.Base.{List, [], ◌∷◌, none, some, true, All}
use libcbor.Base.{length, if◌then◌else◌, ◌==◌, Bool-cases, inl, inr}
use libcbor.Builder.{
  Container, open_array, open_map, open_tag, open_bytestring, open_string, Frame, frame, Context,
  push_context, append_to, append, with_storage, with_memory, max_stack_size, add_byte_string,
  add_string, add_string_item, break_top, leaf, handle,
}
use libcbor.Containers.{add_chunk}
use libcbor.Items.{Metadata, Item, Items, Pairs, IntWidth}
use libcbor.Memory.{Allocator, alloc_multiple, size_mod, IsSize, safe_to_multiply}
use libcbor.Memory.Bounds.{safe_to_multiply_bounds}
use libcbor.Streaming.{Event}
use libcbor.Builder.Counters.{
  FrameAgrees, IsSound, EventFits, if-IsSound, room-IsSound, append_to-IsSound,
}

push_context-IsSound :
    (res : Container) (n : ℕ) (ctx : Context)
    → FrameAgrees (frame res n)
    → IsSound ctx
    → IsSound (push_context res n ctx)
unfolding push_context
push_context-IsSound res n ctx agrees h =
    if-IsSound (length ctx.stack == max_stack_size) _ _ (λ e. h)
      (λ e. if-IsSound (ctx.answers 0 24) _ _ (λ e'. (h.0, (agrees, h.1))) (λ e'. h))

with_memory-IsSound :
    (size : ℕ) (ctx : Context) (next : Context → Context)
    → IsSound ctx
    → ((c : Context) → IsSound c → IsSound (next c))
    → IsSound (with_memory size ctx next)
with_memory-IsSound size ctx next h k = if-IsSound (ctx.answers 0 size) _ _ (λ e. k _ h) (λ e. h)

pub allocated_fits :
    (answers : Allocator) (a b : ℕ)
    → IsSize a
    → IsSize b
    → (alloc_multiple answers a b).0 ≡ true
    → a * b < 2 ^ 64
unfolding alloc_multiple
allocated_fits answers a b ha hb e = elim (Bool-cases (safe_to_multiply a b)) [
  | inl safe ↦ (safe_to_multiply_bounds a b ha hb).0 safe
  | inr unsafe ↦ ground arith
]

with_storage-IsSound :
    (size n : ℕ) (ctx : Context) (next : Context → Context)
    → IsSize size
    → IsSize n
    → IsSound ctx
    → ((c : Context) → size * n < 2 ^ 64 → IsSound c → IsSound (next c))
    → IsSound (with_storage size n ctx next)
with_storage-IsSound size n ctx next small fits h k =
    if-IsSound (alloc_multiple ctx.answers size n).0 _ _
      (λ e. k _ (allocated_fits ctx.answers size n small fits e) h) (λ e. h)

leaf-IsSound : (size : ℕ) (item : Item) (ctx : Context) → IsSound ctx → IsSound (leaf size item ctx)
unfolding append
leaf-IsSound size item ctx h =
    with_memory-IsSound size ctx (λ c. append_to c.stack item c) h
      (λ c k. append_to-IsSound c.stack item c k.1 k.0)

add_byte_string-IsSound :
    (s : List Frame) (bytes : List ℕ) (ctx : Context)
    → All FrameAgrees s
    → IsSound ctx
    → IsSound (add_byte_string s bytes ctx)
unfolding add_byte_string
add_byte_string-IsSound (frame (open_bytestring capacity chunks) n ∷ lower) bytes ctx h k =
    room-IsSound (add_chunk capacity (length chunks) ctx.answers).0 _ _ k (λ grown. (k.0, h))
add_byte_string-IsSound s bytes ctx h k = append_to-IsSound s _ ctx h k.0

add_string_item-IsSound :
    (s : List Frame) (new_chunk : StringData) (ctx : Context)
    → All FrameAgrees s
    → IsSound ctx
    → IsSound (add_string_item s new_chunk ctx)
unfolding add_string_item
add_string_item-IsSound (frame (open_string capacity chunks) n ∷ lower) new_chunk ctx h k =
    room-IsSound (add_chunk capacity (length chunks) ctx.answers).0 _ _ k (λ grown. (k.0, h))
add_string_item-IsSound s new_chunk ctx h k = append_to-IsSound s _ ctx h k.0

add_string-IsSound :
    (s : List Frame) (bytes : List ℕ) (ctx : Context)
    → All FrameAgrees s
    → IsSound ctx
    → IsSound (add_string s bytes ctx)
add_string-IsSound s bytes ctx h k =
    subst IsSound (sym (add_string-add_string_item s bytes ctx))
      (add_string_item-IsSound s (string_of bytes) ctx h k)

break_top-IsSound :
    (s : List Frame) (ctx : Context) → All FrameAgrees s → IsSound ctx → IsSound (break_top s ctx)
unfolding break_top
break_top-IsSound (frame (open_array Metadata.indefinite allocated xs) n ∷ lower) ctx h k =
    append_to-IsSound lower _ _ h.1 k.0
break_top-IsSound (frame (open_map Metadata.indefinite allocated ps none) n ∷ lower) ctx h k =
    if-IsSound (n % 2 == 0) _ _ (λ e. append_to-IsSound lower _ _ h.1 k.0) (λ e. k)
break_top-IsSound (frame (open_map Metadata.indefinite allocated ps (some key)) n ∷ lower) ctx h k =
    if-IsSound (n % 2 == 0) _ _ (λ e. absurd (ground arith)) (λ e. k)
break_top-IsSound (frame (open_bytestring capacity chunks) n ∷ lower) ctx h k =
    append_to-IsSound lower _ _ h.1 k.0
break_top-IsSound (frame (open_string capacity chunks) n ∷ lower) ctx h k =
    append_to-IsSound lower _ _ h.1 k.0
break_top-IsSound s ctx h k = k

start-IsSound :
    (size : ℕ) (res : Container) (n : ℕ) (ctx : Context)
    → FrameAgrees (frame res n)
    → IsSound ctx
    → IsSound (with_memory size ctx (push_context res n))
start-IsSound size res n ctx agrees h =
    with_memory-IsSound size ctx (push_context res n) h
      (λ c k. push_context-IsSound res n c agrees k)

start_array-IsSound :
    (size : ℕ) (ctx : Context)
    → IsSize size
    → IsSound ctx
    → IsSound (handle (Event.array_start size) ctx)
unfolding handle append
start_array-IsSound size ctx fits h =
    let inner : Context → Context = λ c.
      if size == 0
      then append (Item.array Metadata.definite size Items.nil) c
      else push_context (open_array Metadata.definite size Items.nil) size c in
    with_memory-IsSound 48 ctx (λ c. with_storage 8 size c inner) h
      (λ c k. with_storage-IsSound 8 size c inner (omega arith) fits k (λ c' product k'.
        if-IsSound (size == 0) _ _ (λ e. append_to-IsSound c'.stack _ c' k'.1 k'.0)
          (λ e.
            push_context-IsSound (open_array Metadata.definite size Items.nil) size c'
              (omega arith, ground arith, fits) k')))

start_map-IsSound :
    (size : ℕ) (ctx : Context)
    → IsSize size
    → IsSound ctx
    → IsSound (handle (Event.map_start size) ctx)
unfolding handle append
start_map-IsSound size ctx fits h =
    let inner : Context → Context = λ c.
      if size == 0
      then append (Item.map Metadata.definite size Pairs.end) c
      else push_context (open_map Metadata.definite size Pairs.end none) (size * 2 % size_mod) c in
    with_memory-IsSound 48 ctx (λ c. with_storage 16 size c inner) h
      (λ c k. with_storage-IsSound 16 size c inner (omega arith) fits k (λ c' product k'.
        if-IsSound (size == 0) _ _ (λ e. append_to-IsSound c'.stack _ c' k'.1 k'.0)
          (λ e.
            push_context-IsSound (open_map Metadata.definite size Pairs.end none)
              (size * 2 % size_mod) c' (omega arith, ground arith, omega arith) k')))

-- In a context where no assertion has failed and the counters agree with the containers (`IsSound`: with
-- what a definite container still misses, and with a key that waits), and with any
-- size of the event being a size_t, a callback fails no assertion, meets no NULL item, closes no map
-- that misses a value, and leaves counters that agree, whatever the allocator answers.
pub handle-IsSound :
    (event : Event) (ctx : Context) → EventFits event → IsSound ctx → IsSound (handle event ctx)
unfolding handle
handle-IsSound (Event.uint8 v) ctx f h = leaf-IsSound 49 (Item.uint IntWidth.int8 v) ctx h
handle-IsSound (Event.uint16 v) ctx f h = leaf-IsSound 50 (Item.uint IntWidth.int16 v) ctx h
handle-IsSound (Event.uint32 v) ctx f h = leaf-IsSound 52 (Item.uint IntWidth.int32 v) ctx h
handle-IsSound (Event.uint64 v) ctx f h = leaf-IsSound 56 (Item.uint IntWidth.int64 v) ctx h
handle-IsSound (Event.negint8 v) ctx f h = leaf-IsSound 49 (Item.negint IntWidth.int8 v) ctx h
handle-IsSound (Event.negint16 v) ctx f h = leaf-IsSound 50 (Item.negint IntWidth.int16 v) ctx h
handle-IsSound (Event.negint32 v) ctx f h = leaf-IsSound 52 (Item.negint IntWidth.int32 v) ctx h
handle-IsSound (Event.negint64 v) ctx f h = leaf-IsSound 56 (Item.negint IntWidth.int64 v) ctx h
handle-IsSound (Event.byte_string bytes) ctx f h =
    let inner : Context → Context = λ c. add_byte_string c.stack bytes c in
    with_memory-IsSound (length bytes) ctx (λ c. with_memory 48 c inner) h
      (λ c k.
        with_memory-IsSound 48 c inner k
          (λ c' k'. add_byte_string-IsSound c'.stack bytes c' k'.1 k'))
handle-IsSound (Event.string bytes) ctx f h =
    let inner : Context → Context = λ c. add_string c.stack bytes c in
    with_memory-IsSound (length bytes) ctx (λ c. with_memory 48 c inner) h
      (λ c k.
        with_memory-IsSound 48 c inner k (λ c' k'. add_string-IsSound c'.stack bytes c' k'.1 k'))
handle-IsSound Event.byte_string_start ctx f h =
    with_memory-IsSound 48 ctx (λ c. with_memory 24 c (push_context (open_bytestring 0 []) 0)) h
      (λ c k. start-IsSound 24 (open_bytestring 0 []) 0 c tt k)
handle-IsSound Event.string_start ctx f h =
    with_memory-IsSound 48 ctx (λ c. with_memory 24 c (push_context (open_string 0 []) 0)) h
      (λ c k. start-IsSound 24 (open_string 0 []) 0 c tt k)
handle-IsSound (Event.array_start size) ctx f h = start_array-IsSound size ctx f h
handle-IsSound (Event.map_start size) ctx f h = start_map-IsSound size ctx f h
handle-IsSound Event.indef_array_start ctx f h =
    start-IsSound 48 (open_array Metadata.indefinite 0 Items.nil) 0 ctx tt h
handle-IsSound Event.indef_map_start ctx f h =
    start-IsSound 48 (open_map Metadata.indefinite 0 Pairs.end none) 0 ctx refl h
handle-IsSound (Event.tag v) ctx f h = start-IsSound 48 (open_tag v) 1 ctx refl h
handle-IsSound (Event.float2 v) ctx f h = leaf-IsSound 52 (Item.float2 v) ctx h
handle-IsSound (Event.float4 v) ctx f h = leaf-IsSound 52 (Item.float4 v) ctx h
handle-IsSound (Event.float8 v) ctx f h = leaf-IsSound 56 (Item.float8 v) ctx h
handle-IsSound Event.null ctx f h = leaf-IsSound 48 (Item.ctrl 22) ctx h
handle-IsSound Event.undefined ctx f h = leaf-IsSound 48 (Item.ctrl 23) ctx h
handle-IsSound (Event.boolean b) ctx f h = leaf-IsSound 48 (Item.ctrl (if b then 21 else 20)) ctx h
handle-IsSound Event.indef_break ctx f h = break_top-IsSound ctx.stack ctx h.1 h
