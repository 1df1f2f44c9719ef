-- ===== src/Builder/Filled.antt =====
-- What a callback leaves in the context: an open container, a root, or a reason why there is neither.
use libcbor.Base.{sym, subst}
use libcbor.Builder.Strings.{add_string-add_string_item}
use libcbor.Containers.{string_of}
use libcbor.Items.{StringData}
use libcbor.Base.{ℕ, ◌*◌, ◌%◌, ◌≡◌, refl, List, [], ◌∷◌, Option, none, some, Bool, true, false}
use libcbor.Base.{length, if◌then◌else◌, ◌==◌}
use libcbor.Builder.{
  Container, open_array, open_map, open_tag, open_bytestring, open_string, Frame, frame, Context,
  push_context, append_to, append, with_storage, with_memory, max_stack_size, decrement,
  add_byte_string, add_string, add_string_item, break_top, leaf, handle, faulty, settle_map,
}
use libcbor.Containers.{array_push, map_add_key, add_chunk}
use libcbor.Items.{Metadata, IntWidth, Item, Items, Pairs, snoc_pair}
use libcbor.Memory.{alloc_multiple, size_mod}
use libcbor.Streaming.{Event}

pub data IsFilled (ctx : Context) : Type 0 where
  faulted : ctx.fault ≡ true → IsFilled ctx
  unmade : ctx.creation_failed ≡ true → IsFilled ctx
  misplaced : ctx.syntax_error ≡ true → IsFilled ctx
  opened : (f : Frame) (lower : List Frame) → ctx.stack ≡ f ∷ lower → IsFilled ctx
  rooted : (item : Item) → ctx.root ≡ some item → IsFilled ctx

if-IsFilled : (c : Bool) (x y : Context) → IsFilled x → IsFilled y → IsFilled (if c then x else y)
if-IsFilled true x y h k = h
if-IsFilled false x y h k = k

room-IsFilled :
    {A : Type 0} (room : Option A) (x : Context) (y : A → Context)
    → IsFilled x
    → ((a : A) → IsFilled (y a))
    → IsFilled (elim room [ none ↦ x | some a ↦ y a ])
room-IsFilled none x y h k = h
room-IsFilled (some a) x y h k = k a

settle_map-IsFilled :
    (d : Metadata) (allocated : ℕ) (ps : Pairs) (pending : Option Item) (n : ℕ) (lower : List Frame)
    (ctx : Context) (closed : Context → Context)
    → IsFilled (closed (record ctx { stack = lower }))
    → IsFilled (settle_map d allocated ps pending n lower ctx closed)
settle_map-IsFilled Metadata.definite allocated ps pending n lower ctx closed h =
    if-IsFilled (n == 0) _ _ (IsFilled.faulted refl)
      (if-IsFilled (decrement n == 0) _ _ h (IsFilled.opened _ lower refl))
settle_map-IsFilled Metadata.indefinite allocated ps pending n lower ctx closed h =
    IsFilled.opened _ lower refl

append_to-IsFilled :
    (s : List Frame) (item : Item) (ctx : Context) → IsFilled (append_to s item ctx)
unfolding append_to
append_to-IsFilled [] item ctx = IsFilled.rooted item refl
append_to-IsFilled (frame (open_array Metadata.definite allocated xs) n ∷ lower) item ctx =
    if-IsFilled (n == 0) _ _ (IsFilled.faulted refl) (
      room-IsFilled (array_push Metadata.definite allocated xs item ctx.answers).0 _ _
        (IsFilled.unmade refl)
        (λ grown.
          if-IsFilled (decrement n == 0) _ _ (append_to-IsFilled lower _ _)
            (IsFilled.opened _ lower refl)))
append_to-IsFilled (frame (open_array Metadata.indefinite allocated xs) n ∷ lower) item ctx =
    room-IsFilled (array_push Metadata.indefinite allocated xs item ctx.answers).0 _ _
      (IsFilled.unmade refl) (λ grown. IsFilled.opened _ lower refl)
append_to-IsFilled (frame (open_map d allocated ps (some key)) n ∷ lower) item ctx =
    if-IsFilled (n % 2 == 0) _ _ (IsFilled.faulted refl) (
      settle_map-IsFilled d allocated (snoc_pair ps key item) none n lower
        (record ctx { creation_failed = false }) _
        (append_to-IsFilled lower _ (record ctx { creation_failed = false; stack = lower })))
append_to-IsFilled (frame (open_map d allocated ps none) n ∷ lower) item ctx =
    if-IsFilled (n % 2 == 0) _ _
      (room-IsFilled (map_add_key d allocated ps ctx.answers).0 _ _ (IsFilled.unmade refl) (λ grown.
        settle_map-IsFilled d grown ps (some item) n lower
          (record ctx { answers = (map_add_key d allocated ps ctx.answers).1 }) faulty
          (IsFilled.faulted refl)))
      (IsFilled.faulted refl)
append_to-IsFilled (frame (open_tag value) n ∷ lower) item ctx =
    if-IsFilled (n == 1) _ _ (append_to-IsFilled lower (Item.tag value item) _)
      (IsFilled.faulted refl)
append_to-IsFilled (frame (open_bytestring capacity chunks) n ∷ lower) item ctx =
    IsFilled.opened _ lower refl
append_to-IsFilled (frame (open_string capacity chunks) n ∷ lower) item ctx =
    IsFilled.opened _ lower refl

push_context-IsFilled :
    (res : Container) (n : ℕ) (ctx : Context) → IsFilled (push_context res n ctx)
unfolding push_context
push_context-IsFilled res n ctx =
    if-IsFilled (length ctx.stack == max_stack_size) _ _ (IsFilled.unmade refl)
      (if-IsFilled (ctx.answers 0 24) _ _ (IsFilled.opened _ ctx.stack refl) (IsFilled.unmade refl))

with_memory-IsFilled :
    (size : ℕ) (ctx : Context) (next : Context → Context)
    → ((c : Context) → IsFilled (next c))
    → IsFilled (with_memory size ctx next)
with_memory-IsFilled size ctx next k =
    if-IsFilled (ctx.answers 0 size) _ _ (k _) (IsFilled.unmade refl)

with_storage-IsFilled :
    (size n : ℕ) (ctx : Context) (next : Context → Context)
    → ((c : Context) → IsFilled (next c))
    → IsFilled (with_storage size n ctx next)
with_storage-IsFilled size n ctx next k =
    if-IsFilled (alloc_multiple ctx.answers size n).0 _ _ (k _) (IsFilled.unmade refl)

append-IsFilled : (item : Item) (ctx : Context) → IsFilled (append item ctx)
unfolding append
append-IsFilled item ctx = append_to-IsFilled ctx.stack item ctx

leaf-IsFilled : (size : ℕ) (item : Item) (ctx : Context) → IsFilled (leaf size item ctx)
leaf-IsFilled size item ctx =
    with_memory-IsFilled size ctx (λ c. append item c) (append-IsFilled item)

start-IsFilled :
    (size : ℕ) (res : Container) (n : ℕ) (ctx : Context)
    → IsFilled (with_memory size ctx (push_context res n))
start-IsFilled size res n ctx =
    with_memory-IsFilled size ctx (push_context res n) (push_context-IsFilled res n)

add_byte_string-IsFilled :
    (s : List Frame) (bytes : List ℕ) (ctx : Context) → IsFilled (add_byte_string s bytes ctx)
unfolding add_byte_string
add_byte_string-IsFilled (frame (open_bytestring capacity chunks) n ∷ lower) bytes ctx =
    room-IsFilled (add_chunk capacity (length chunks) ctx.answers).0 _ _ (IsFilled.unmade refl)
      (λ grown. IsFilled.opened _ lower refl)
add_byte_string-IsFilled s bytes ctx = append_to-IsFilled s _ ctx

add_string_item-IsFilled :
    (s : List Frame) (new_chunk : StringData) (ctx : Context)
    → IsFilled (add_string_item s new_chunk ctx)
unfolding add_string_item
add_string_item-IsFilled (frame (open_string capacity chunks) n ∷ lower) new_chunk ctx =
    room-IsFilled (add_chunk capacity (length chunks) ctx.answers).0 _ _ (IsFilled.unmade refl)
      (λ grown. IsFilled.opened _ lower refl)
add_string_item-IsFilled s new_chunk ctx = append_to-IsFilled s _ ctx

add_string-IsFilled :
    (s : List Frame) (bytes : List ℕ) (ctx : Context) → IsFilled (add_string s bytes ctx)
add_string-IsFilled s bytes ctx =
    subst IsFilled (sym (add_string-add_string_item s bytes ctx))
      (add_string_item-IsFilled s (string_of bytes) ctx)

break_top-IsFilled : (s : List Frame) (ctx : Context) → IsFilled (break_top s ctx)
unfolding break_top
break_top-IsFilled (frame (open_array Metadata.indefinite allocated xs) n ∷ lower) ctx =
    append_to-IsFilled lower _ _
break_top-IsFilled (frame (open_map Metadata.indefinite allocated ps none) n ∷ lower) ctx =
    if-IsFilled (n % 2 == 0) _ _ (append_to-IsFilled lower _ _) (IsFilled.misplaced refl)
break_top-IsFilled (frame (open_map Metadata.indefinite allocated ps (some key)) n ∷ lower) ctx =
    if-IsFilled (n % 2 == 0) _ _ (IsFilled.faulted refl) (IsFilled.misplaced refl)
break_top-IsFilled (frame (open_bytestring capacity chunks) n ∷ lower) ctx =
    append_to-IsFilled lower _ _
break_top-IsFilled (frame (open_string capacity chunks) n ∷ lower) ctx =
    append_to-IsFilled lower _ _
break_top-IsFilled s ctx = IsFilled.misplaced refl

-- Whatever context a callback is called in.
pub handle-IsFilled : (event : Event) (ctx : Context) → IsFilled (handle event ctx)
unfolding handle
handle-IsFilled (Event.uint8 v) ctx = leaf-IsFilled 49 (Item.uint IntWidth.int8 v) ctx
handle-IsFilled (Event.uint16 v) ctx = leaf-IsFilled 50 (Item.uint IntWidth.int16 v) ctx
handle-IsFilled (Event.uint32 v) ctx = leaf-IsFilled 52 (Item.uint IntWidth.int32 v) ctx
handle-IsFilled (Event.uint64 v) ctx = leaf-IsFilled 56 (Item.uint IntWidth.int64 v) ctx
handle-IsFilled (Event.negint8 v) ctx = leaf-IsFilled 49 (Item.negint IntWidth.int8 v) ctx
handle-IsFilled (Event.negint16 v) ctx = leaf-IsFilled 50 (Item.negint IntWidth.int16 v) ctx
handle-IsFilled (Event.negint32 v) ctx = leaf-IsFilled 52 (Item.negint IntWidth.int32 v) ctx
handle-IsFilled (Event.negint64 v) ctx = leaf-IsFilled 56 (Item.negint IntWidth.int64 v) ctx
handle-IsFilled (Event.byte_string bytes) ctx =
    let inner : Context → Context = λ c. add_byte_string c.stack bytes c in
    with_memory-IsFilled (length bytes) ctx (λ c. with_memory 48 c inner)
      (λ c. with_memory-IsFilled 48 c inner (λ c'. add_byte_string-IsFilled c'.stack bytes c'))
handle-IsFilled (Event.string bytes) ctx =
    let inner : Context → Context = λ c. add_string c.stack bytes c in
    with_memory-IsFilled (length bytes) ctx (λ c. with_memory 48 c inner)
      (λ c. with_memory-IsFilled 48 c inner (λ c'. add_string-IsFilled c'.stack bytes c'))
handle-IsFilled Event.byte_string_start ctx =
    with_memory-IsFilled 48 ctx (λ c. with_memory 24 c (push_context (open_bytestring 0 []) 0))
      (start-IsFilled 24 (open_bytestring 0 []) 0)
handle-IsFilled Event.string_start ctx =
    with_memory-IsFilled 48 ctx (λ c. with_memory 24 c (push_context (open_string 0 []) 0))
      (start-IsFilled 24 (open_string 0 []) 0)
handle-IsFilled (Event.array_start size) ctx =
    let inner : Context → Context = λ c.
      if size == 0
      then append (Item.array Metadata.definite size Items.nil) c
      else push_context (open_array Metadata.definite size Items.nil) size c in
    with_memory-IsFilled 48 ctx (λ c. with_storage 8 size c inner)
      (λ c. with_storage-IsFilled 8 size c inner (λ c'.
        if-IsFilled (size == 0) _ _ (append-IsFilled _ c')
          (push_context-IsFilled (open_array Metadata.definite size Items.nil) size c')))
handle-IsFilled (Event.map_start size) ctx =
    let inner : Context → Context = λ c.
      if size == 0
      then append (Item.map Metadata.definite size Pairs.end) c
      else push_context (open_map Metadata.definite size Pairs.end none) (size * 2 % size_mod) c in
    with_memory-IsFilled 48 ctx (λ c. with_storage 16 size c inner)
      (λ c. with_storage-IsFilled 16 size c inner (λ c'.
        if-IsFilled (size == 0) _ _ (append-IsFilled _ c') (
          push_context-IsFilled (open_map Metadata.definite size Pairs.end none)
            (size * 2 % size_mod) c')))
handle-IsFilled Event.indef_array_start ctx =
    start-IsFilled 48 (open_array Metadata.indefinite 0 Items.nil) 0 ctx
handle-IsFilled Event.indef_map_start ctx =
    start-IsFilled 48 (open_map Metadata.indefinite 0 Pairs.end none) 0 ctx
handle-IsFilled (Event.tag v) ctx = start-IsFilled 48 (open_tag v) 1 ctx
handle-IsFilled (Event.float2 v) ctx = leaf-IsFilled 52 (Item.float2 v) ctx
handle-IsFilled (Event.float4 v) ctx = leaf-IsFilled 52 (Item.float4 v) ctx
handle-IsFilled (Event.float8 v) ctx = leaf-IsFilled 56 (Item.float8 v) ctx
handle-IsFilled Event.null ctx = leaf-IsFilled 48 (Item.ctrl 22) ctx
handle-IsFilled Event.undefined ctx = leaf-IsFilled 48 (Item.ctrl 23) ctx
handle-IsFilled (Event.boolean b) ctx = leaf-IsFilled 48 (Item.ctrl (if b then 21 else 20)) ctx
handle-IsFilled Event.indef_break ctx = break_top-IsFilled ctx.stack ctx
