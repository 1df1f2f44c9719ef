-- ===== src/Load/Starts.antt =====
-- cbor_load's loop on the fronts and ends of containers.
use libcbor.Base.{ℕ, ◌*◌, ◌%◌, ◌^◌, ◌≤◌, ◌<◌, ◌≡◌, arith}
use libcbor.Base.{List, [], ◌∷◌, ◌++◌, Option, none}
use libcbor.Base.{length, if◌then◌else◌, ◌==◌, ne→==_false}
use libcbor.Builder.{Context, Frame, frame, handle, append_to, append, push_context, max_stack_size}
use libcbor.Builder.{break_top}
use libcbor.Builder.{open_array, open_map, open_tag}
use libcbor.Builder.Plenty.{clean, grown, push_context-clean, with_storage-clean}
use libcbor.Encoders.Headers.{header}
use libcbor.Items.{Item, Items, Pairs, Metadata}
use libcbor.Load.{Loaded}
use libcbor.Load.Leaves.{header_pos}
use libcbor.Load.Steps.{Runs, After, load_step}
use libcbor.Loaders.{FloatOps}
use libcbor.Memory.{size_mod}
use libcbor.Streaming.{Event}
use libcbor.Streaming.Encoded.{
  stream_decode-array_start, stream_decode-map_start, stream_decode-tag,
}
use libcbor.Streaming.EncodedLeaves.{
  stream_decode-break, stream_decode-indef_array_start, stream_decode-indef_map_start,
}

handle-array_start :
    (n : ℕ) (r : Option Item) (s : List Frame)
    → n < 2 ^ 58
    → handle (Event.array_start n) (clean r s) ≡ (
        if n == 0
        then append_to s (Item.array Metadata.definite n Items.nil) (clean r s)
        else push_context (open_array Metadata.definite n Items.nil) n (clean r s))
unfolding handle append
handle-array_start n r s h =
    with_storage-clean 8 n r s
      (λ c.
        if n == 0
        then append_to c.stack (Item.array Metadata.definite n Items.nil) c
        else push_context (open_array Metadata.definite n Items.nil) n c)
      (omega arith) h

handle-map_start :
    (n : ℕ) (r : Option Item) (s : List Frame)
    → n < 2 ^ 58
    → handle (Event.map_start n) (clean r s) ≡ (
        if n == 0
        then append_to s (Item.map Metadata.definite n Pairs.end) (clean r s)
        else push_context
            (open_map Metadata.definite n Pairs.end none)
            (n * 2 % size_mod)
            (clean r s))
unfolding handle append
handle-map_start n r s h =
    with_storage-clean 16 n r s
      (λ c.
        if n == 0
        then append_to c.stack (Item.map Metadata.definite n Pairs.end) c
        else push_context (open_map Metadata.definite n Pairs.end none) (n * 2 % size_mod) c)
      (omega arith) h

module _ (ops : FloatOps) (total : ℕ) (result : Loaded) where
  abbrev Goes : List ℕ → Context → Type 0
  Goes = Runs ops total result

  abbrev Then : List ℕ → Context → Type 0
  Then = After ops total result

  -- The front of a container, and its break.
  pub start_array :
      (n : ℕ) (rest : List ℕ) (r : Option Item) (s : List Frame)
      → n < 2 ^ 55
      → length s < max_stack_size
      → 1 ≤ n
      → Goes rest (clean r (frame (open_array Metadata.definite n Items.nil) n ∷ s))
      → Goes (header 0x80 n ++ rest) (clean r s)
  start_array n rest r s small room pos k =
      load_step ops total result (header 0x80 n) rest _ (clean r s) (header_pos 0x80 n)
        (stream_decode-array_start ops n rest (omega arith))
        (rw
          (
            handle-array_start n r s (omega arith),
            ne→==_false n 0 (λ z. omega arith),
            push_context-clean (open_array Metadata.definite n Items.nil) n r s room,
          )
          k)

  pub start_map :
      (n : ℕ) (rest : List ℕ) (r : Option Item) (s : List Frame)
      → n < 2 ^ 55
      → length s < max_stack_size
      → 1 ≤ n
      → Goes rest (clean r (frame (open_map Metadata.definite n Pairs.end none) (2 * n) ∷ s))
      → Goes (header 0xA0 n ++ rest) (clean r s)
  start_map n rest r s small room pos k =
      let e : n * 2 % size_mod ≡ 2 * n = omega arith in
      load_step ops total result (header 0xA0 n) rest _ (clean r s) (header_pos 0xA0 n)
        (stream_decode-map_start ops n rest (omega arith))
        (rw
          (
            handle-map_start n r s (omega arith),
            ne→==_false n 0 (λ z. omega arith),
            e,
            push_context-clean (open_map Metadata.definite n Pairs.end none) (2 * n) r s room,
          )
          k)

  pub no_members :
      (rest : List ℕ) (r : Option Item) (s : List Frame)
      → Then rest (append_to s (Item.array Metadata.definite 0 Items.nil) (clean r s))
      → Goes (header 0x80 0 ++ rest) (clean r s)
  no_members rest r s k =
      load_step ops total result (header 0x80 0) rest _ (clean r s) (header_pos 0x80 0)
        (stream_decode-array_start ops 0 rest (omega arith))
        (rw (handle-array_start 0 r s (omega arith)) k)

  pub no_entries :
      (rest : List ℕ) (r : Option Item) (s : List Frame)
      → Then rest (append_to s (Item.map Metadata.definite 0 Pairs.end) (clean r s))
      → Goes (header 0xA0 0 ++ rest) (clean r s)
  no_entries rest r s k =
      load_step ops total result (header 0xA0 0) rest _ (clean r s) (header_pos 0xA0 0)
        (stream_decode-map_start ops 0 rest (omega arith))
        (rw (handle-map_start 0 r s (omega arith)) k)

  pub start_tag :
      (v : ℕ) (rest : List ℕ) (r : Option Item) (s : List Frame)
      → v < 2 ^ 64
      → length s < max_stack_size
      → Goes rest (clean r (frame (open_tag v) 1 ∷ s))
      → Goes (header 0xC0 v ++ rest) (clean r s)
  unfolding handle
  start_tag v rest r s small room k =
      load_step ops total result (header 0xC0 v) rest _ (clean r s) (header_pos 0xC0 v)
        (stream_decode-tag ops v rest small) (rw (push_context-clean (open_tag v) 1 r s room) k)

  pub start_indef_array :
      (rest : List ℕ) (r : Option Item) (s : List Frame)
      → length s < max_stack_size
      → Goes rest (clean r (frame (open_array Metadata.indefinite (grown 0) Items.nil) 0 ∷ s))
      → Goes (0x9F ∷ rest) (clean r s)
  unfolding handle grown
  start_indef_array rest r s room k =
      load_step ops total result (0x9F ∷ []) rest _ (clean r s) (omega arith)
        (stream_decode-indef_array_start ops rest)
        (rw (push_context-clean (open_array Metadata.indefinite 0 Items.nil) 0 r s room) k)

  pub start_indef_map :
      (rest : List ℕ) (r : Option Item) (s : List Frame)
      → length s < max_stack_size
      → Goes rest (clean r (frame (open_map Metadata.indefinite (grown 0) Pairs.end none) 0 ∷ s))
      → Goes (0xBF ∷ rest) (clean r s)
  unfolding handle grown
  start_indef_map rest r s room k =
      load_step ops total result (0xBF ∷ []) rest _ (clean r s) (omega arith)
        (stream_decode-indef_map_start ops rest)
        (rw (push_context-clean (open_map Metadata.indefinite 0 Pairs.end none) 0 r s room) k)

  pub end_array :
      (n : ℕ) (xs : Items) (rest : List ℕ) (r : Option Item) (s : List Frame)
      → Then rest (append_to s (Item.array Metadata.indefinite n xs) (clean r s))
      → Goes (0xFF ∷ rest) (clean r (frame (open_array Metadata.indefinite n xs) 0 ∷ s))
  unfolding handle break_top
  end_array n xs rest r s k =
      load_step ops total result (0xFF ∷ []) rest Event.indef_break _ (omega arith)
        (stream_decode-break ops rest) k

  pub end_map :
      (n : ℕ) (ps : Pairs) (rest : List ℕ) (r : Option Item) (s : List Frame)
      → Then rest (append_to s (Item.map Metadata.indefinite n ps) (clean r s))
      → Goes (0xFF ∷ rest) (clean r (frame (open_map Metadata.indefinite n ps none) 0 ∷ s))
  unfolding handle break_top
  end_map n ps rest r s k =
      load_step ops total result (0xFF ∷ []) rest Event.indef_break _ (omega arith)
        (stream_decode-break ops rest) k
