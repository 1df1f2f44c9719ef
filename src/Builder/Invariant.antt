-- ===== src/Builder/Invariant.antt =====
-- The stack of the builder never passes its limit.
use libcbor.Base.{sym, subst}
use libcbor.Builder.Strings.{add_string-add_string_item}
use libcbor.Containers.{string_of}
use libcbor.Items.{StringData}
use libcbor.Base.{ℕ, suc, ◌*◌, ◌%◌, ◌≤◌, arith}
use libcbor.Base.{List, [], ◌∷◌, Option, none, some, Bool, true, false}
use libcbor.Base.{length, if◌then◌else◌, ◌==◌, Bool-cases, inl, inr}
use libcbor.Builder.{
  Container, open_array, open_map, open_tag, open_bytestring, open_string, Frame, frame, Context,
  push_context, append_to, append, with_storage, with_memory, max_stack_size, decrement,
  add_byte_string, add_string, add_string_item, break_top, leaf, handle, faulty, settle_map,
}
use libcbor.Containers.{array_push, map_add_key, add_chunk}
use libcbor.Items.{Metadata, Item, Items, Pairs, snoc_pair}
use libcbor.Items.{IntWidth}
use libcbor.Memory.{alloc_multiple, size_mod}
use libcbor.Streaming.{Event}

-- At most `m` open containers.
abbrev pub Within : ℕ → Context → Type 0
Within m ctx = length ctx.stack ≤ m

if-Within :
    (m : ℕ) (c : Bool) (x y : Context) → Within m x → Within m y → Within m (if c then x else y)
if-Within m true x y h k = h
if-Within m false x y h k = k

room-Within :
    {A : Type 0} (m : ℕ) (room : Option A) (x : Context) (y : A → Context)
    → Within m x
    → ((a : A) → Within m (y a))
    → Within m (elim room [ none ↦ x | some a ↦ y a ])
room-Within m none x y h k = h
room-Within m (some a) x y h k = k a

settle_map-Within :
    (m : ℕ) (d : Metadata) (allocated : ℕ) (ps : Pairs) (pending : Option Item) (n : ℕ)
    (lower : List Frame) (ctx : Context) (closed : Context → Context)
    → suc (length lower) ≤ m
    → Within m ctx
    → Within m (closed (record ctx { stack = lower }))
    → Within m (settle_map d allocated ps pending n lower ctx closed)
settle_map-Within m Metadata.definite allocated ps pending n lower ctx closed h k l =
    if-Within m (n == 0) _ _ k (if-Within m (decrement n == 0) _ _ l h)
settle_map-Within m Metadata.indefinite allocated ps pending n lower ctx closed h k l = h

append_to-Within :
    (m : ℕ) (s : List Frame) (item : Item) (ctx : Context)
    → length s ≤ m
    → Within m ctx
    → Within m (append_to s item ctx)
unfolding append_to
append_to-Within m [] item ctx h k = omega arith
append_to-Within m (frame (open_array Metadata.definite allocated xs) n ∷ lower) item ctx h k =
    if-Within m (n == 0) _ _ k (
      room-Within m (array_push Metadata.definite allocated xs item ctx.answers).0 _ _ h (λ grown.
        if-Within m (decrement n == 0) _ _
          (append_to-Within m lower _ _ (omega arith) (omega arith)) h))
append_to-Within m (frame (open_array Metadata.indefinite allocated xs) n ∷ lower) item ctx h k =
    room-Within m (array_push Metadata.indefinite allocated xs item ctx.answers).0 _ _ h
      (λ grown. h)
append_to-Within m (frame (open_map d allocated ps (some key)) n ∷ lower) item ctx h k =
    if-Within m (n % 2 == 0) _ _ k (
      settle_map-Within m d allocated (snoc_pair ps key item) none n lower
        (record ctx { creation_failed = false }) _ h k
        (append_to-Within m lower _ (record ctx { creation_failed = false; stack = lower })
          (omega arith) (omega arith)))
append_to-Within m (frame (open_map d allocated ps none) n ∷ lower) item ctx h k =
    if-Within m (n % 2 == 0) _ _
      (room-Within m (map_add_key d allocated ps ctx.answers).0 _ _ h (λ grown.
        settle_map-Within m d grown ps (some item) n lower
          (record ctx { answers = (map_add_key d allocated ps ctx.answers).1 }) faulty h k
          (omega arith)))
      k
append_to-Within m (frame (open_tag value) n ∷ lower) item ctx h k =
    if-Within m (n == 1) _ _
      (append_to-Within m lower (Item.tag value item) _ (omega arith) (omega arith)) k
append_to-Within m (frame (open_bytestring capacity chunks) n ∷ lower) item ctx h k = h
append_to-Within m (frame (open_string capacity chunks) n ∷ lower) item ctx h k = h

push_context-Within :
    (res : Container) (n : ℕ) (ctx : Context)
    → Within max_stack_size ctx
    → Within max_stack_size (push_context res n ctx)
unfolding push_context
push_context-Within res n ctx h = elim (Bool-cases (length ctx.stack == max_stack_size)) [
  | inl e ↦ rw e h
  | inr e ↦ rw e (if-Within max_stack_size (ctx.answers 0 24) _ _ (ground arith) h)
]

with_memory-Within :
    (m size : ℕ) (ctx : Context) (next : Context → Context)
    → Within m ctx
    → ((c : Context) → Within m c → Within m (next c))
    → Within m (with_memory size ctx next)
with_memory-Within m size ctx next h k = if-Within m (ctx.answers 0 size) _ _ (k _ h) h

with_storage-Within :
    (m size n : ℕ) (ctx : Context) (next : Context → Context)
    → Within m ctx
    → ((c : Context) → Within m c → Within m (next c))
    → Within m (with_storage size n ctx next)
with_storage-Within m size n ctx next h k =
    if-Within m (alloc_multiple ctx.answers size n).0 _ _ (k _ h) h

leaf-Within :
    (m size : ℕ) (item : Item) (ctx : Context) → Within m ctx → Within m (leaf size item ctx)
unfolding append
leaf-Within m size item ctx h =
    with_memory-Within m size ctx (λ c. append_to c.stack item c) h
      (λ c k. append_to-Within m c.stack item c k k)

add_byte_string-Within :
    (m : ℕ) (s : List Frame) (bytes : List ℕ) (ctx : Context)
    → length s ≤ m
    → Within m ctx
    → Within m (add_byte_string s bytes ctx)
unfolding add_byte_string
add_byte_string-Within m (frame (open_bytestring capacity chunks) n ∷ lower) bytes ctx h k =
    room-Within m (add_chunk capacity (length chunks) ctx.answers).0 _ _ k (λ grown. h)
add_byte_string-Within m s bytes ctx h k = append_to-Within m s _ ctx h k

add_string_item-Within :
    (m : ℕ) (s : List Frame) (new_chunk : StringData) (ctx : Context)
    → length s ≤ m
    → Within m ctx
    → Within m (add_string_item s new_chunk ctx)
unfolding add_string_item
add_string_item-Within m (frame (open_string capacity chunks) n ∷ lower) new_chunk ctx h k =
    room-Within m (add_chunk capacity (length chunks) ctx.answers).0 _ _ k (λ grown. h)
add_string_item-Within m s new_chunk ctx h k = append_to-Within m s _ ctx h k

add_string-Within :
    (m : ℕ) (s : List Frame) (bytes : List ℕ) (ctx : Context)
    → length s ≤ m
    → Within m ctx
    → Within m (add_string s bytes ctx)
add_string-Within m s bytes ctx h k =
    subst (Within m) (sym (add_string-add_string_item s bytes ctx))
      (add_string_item-Within m s (string_of bytes) ctx h k)

break_top-Within :
    (m : ℕ) (s : List Frame) (ctx : Context)
    → length s ≤ m
    → Within m ctx
    → Within m (break_top s ctx)
unfolding break_top
break_top-Within m (frame (open_array Metadata.indefinite allocated xs) n ∷ lower) ctx h k =
    append_to-Within m lower _ (record ctx { stack = lower }) (omega arith) (omega arith)
break_top-Within m (frame (open_map Metadata.indefinite allocated ps none) n ∷ lower) ctx h k =
    if-Within m (n % 2 == 0) _ _
      (append_to-Within m lower _ (record ctx { stack = lower }) (omega arith) (omega arith)) k
break_top-Within m (frame (open_map Metadata.indefinite allocated ps (some key)) n ∷ lower) ctx h
      k =
    if-Within m (n % 2 == 0) _ _ k k
break_top-Within m (frame (open_bytestring capacity chunks) n ∷ lower) ctx h k =
    append_to-Within m lower _ (record ctx { stack = lower }) (omega arith) (omega arith)
break_top-Within m (frame (open_string capacity chunks) n ∷ lower) ctx h k =
    append_to-Within m lower _ (record ctx { stack = lower }) (omega arith) (omega arith)
break_top-Within m s ctx h k = k

start-Within :
    (size : ℕ) (res : Container) (n : ℕ) (ctx : Context)
    → Within max_stack_size ctx
    → Within max_stack_size (with_memory size ctx (push_context res n))
start-Within size res n ctx h =
    with_memory-Within max_stack_size size ctx (push_context res n) h (push_context-Within res n)

-- Whatever a callback finds on the stack and whatever the allocator answers, it leaves no more than
-- CBOR_MAX_STACK_SIZE containers open if there were no more before it.
pub handle-Within :
    (event : Event) (ctx : Context)
    → Within max_stack_size ctx
    → Within max_stack_size (handle event ctx)
unfolding handle append
handle-Within (Event.uint8 v) ctx h = leaf-Within _ 49 (Item.uint IntWidth.int8 v) ctx h
handle-Within (Event.uint16 v) ctx h = leaf-Within _ 50 (Item.uint IntWidth.int16 v) ctx h
handle-Within (Event.uint32 v) ctx h = leaf-Within _ 52 (Item.uint IntWidth.int32 v) ctx h
handle-Within (Event.uint64 v) ctx h = leaf-Within _ 56 (Item.uint IntWidth.int64 v) ctx h
handle-Within (Event.negint8 v) ctx h = leaf-Within _ 49 (Item.negint IntWidth.int8 v) ctx h
handle-Within (Event.negint16 v) ctx h = leaf-Within _ 50 (Item.negint IntWidth.int16 v) ctx h
handle-Within (Event.negint32 v) ctx h = leaf-Within _ 52 (Item.negint IntWidth.int32 v) ctx h
handle-Within (Event.negint64 v) ctx h = leaf-Within _ 56 (Item.negint IntWidth.int64 v) ctx h
handle-Within (Event.byte_string bytes) ctx h =
    let inner : Context → Context = λ c. add_byte_string c.stack bytes c in
    with_memory-Within max_stack_size (length bytes) ctx (λ c. with_memory 48 c inner) h
      (λ c k.
        with_memory-Within max_stack_size 48 c inner k
          (λ c' k'. add_byte_string-Within max_stack_size c'.stack bytes c' k' k'))
handle-Within (Event.string bytes) ctx h =
    let inner : Context → Context = λ c. add_string c.stack bytes c in
    with_memory-Within max_stack_size (length bytes) ctx (λ c. with_memory 48 c inner) h
      (λ c k.
        with_memory-Within max_stack_size 48 c inner k
          (λ c' k'. add_string-Within max_stack_size c'.stack bytes c' k' k'))
handle-Within Event.byte_string_start ctx h =
    with_memory-Within max_stack_size 48 ctx
      (λ c. with_memory 24 c (push_context (open_bytestring 0 []) 0)) h
      (start-Within 24 (open_bytestring 0 []) 0)
handle-Within Event.string_start ctx h =
    with_memory-Within max_stack_size 48 ctx
      (λ c. with_memory 24 c (push_context (open_string 0 []) 0)) h
      (start-Within 24 (open_string 0 []) 0)
handle-Within (Event.array_start size) ctx h =
    let inner : Context → Context = λ c.
      if size == 0
      then append (Item.array Metadata.definite size Items.nil) c
      else push_context (open_array Metadata.definite size Items.nil) size c in
    with_memory-Within max_stack_size 48 ctx (λ c. with_storage 8 size c inner) h
      (λ c k. with_storage-Within max_stack_size 8 size c inner k (λ c' k'.
        if-Within max_stack_size (size == 0) _ _
          (append_to-Within max_stack_size c'.stack _ c' k' k')
          (push_context-Within (open_array Metadata.definite size Items.nil) size c' k')))
handle-Within (Event.map_start size) ctx h =
    let inner : Context → Context = λ c.
      if size == 0
      then append (Item.map Metadata.definite size Pairs.end) c
      else push_context (open_map Metadata.definite size Pairs.end none) (size * 2 % size_mod) c in
    with_memory-Within max_stack_size 48 ctx (λ c. with_storage 16 size c inner) h
      (λ c k. with_storage-Within max_stack_size 16 size c inner k (λ c' k'.
        if-Within max_stack_size (size == 0) _ _
          (append_to-Within max_stack_size c'.stack _ c' k' k')
          (push_context-Within (open_map Metadata.definite size Pairs.end none)
            (size * 2 % size_mod) c' k')))
handle-Within Event.indef_array_start ctx h =
    start-Within 48 (open_array Metadata.indefinite 0 Items.nil) 0 ctx h
handle-Within Event.indef_map_start ctx h =
    start-Within 48 (open_map Metadata.indefinite 0 Pairs.end none) 0 ctx h
handle-Within (Event.tag v) ctx h = start-Within 48 (open_tag v) 1 ctx h
handle-Within (Event.float2 v) ctx h = leaf-Within _ 52 (Item.float2 v) ctx h
handle-Within (Event.float4 v) ctx h = leaf-Within _ 52 (Item.float4 v) ctx h
handle-Within (Event.float8 v) ctx h = leaf-Within _ 56 (Item.float8 v) ctx h
handle-Within Event.null ctx h = leaf-Within _ 48 (Item.ctrl 22) ctx h
handle-Within Event.undefined ctx h = leaf-Within _ 48 (Item.ctrl 23) ctx h
handle-Within (Event.boolean b) ctx h = leaf-Within _ 48 (Item.ctrl (if b then 21 else 20)) ctx h
handle-Within Event.indef_break ctx h = break_top-Within max_stack_size ctx.stack ctx h h
