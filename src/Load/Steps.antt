-- ===== src/Load/Steps.antt =====
-- cbor_load's loop on what its source begins with, the allocator never failing.
use libcbor.Base.{◌∙◌}
use libcbor.Items.{StringData}
use libcbor.Base.{ℕ, zero, suc, ◌+◌, ◌≤◌, ◌<◌, ◌≡◌, refl, arith}
use libcbor.Base.{List, [], ◌∷◌, ◌++◌, some}
use libcbor.Base.{length, length-append, drop-append_self, append_assoc}
use libcbor.Builder.{Context, Frame, frame, handle}
use libcbor.Builder.{open_array, open_map, open_tag, open_bytestring, open_string}
use libcbor.Builder.{append_to, add_byte_string, add_string, add_string_item}
use libcbor.Builder.Strings.{add_string-add_string_item}
use libcbor.Containers.{string_of}
use libcbor.Items.{Item}
use libcbor.Load.{Loaded, finished_round, load_loop}
use libcbor.Loaders.{FloatOps}
use libcbor.Streaming.{Event, stream_decode}
use libcbor.Streaming.Plan.{done}

module _ (ops : FloatOps) (total : ℕ) (result : Loaded) where
  -- The loop on that source and context ends in `result`, with any fuel that is enough; `total` is the
  -- number of bytes of the whole source.
  abbrev pub Runs : List ℕ → Context → Type 0
  Runs source ctx =
      (fuel read : ℕ)
      → length source < fuel
      → read + length source ≡ total
      → load_loop ops fuel source read ctx ≡ some result

  -- The same behind a finished step.
  abbrev pub After : List ℕ → Context → Type 0
  After rest ctx =
      (fuel read : ℕ)
      → length rest < fuel
      → read + length rest ≡ total
      → finished_round read ctx (load_loop ops fuel rest read ctx) ≡ some result

  -- One round.
  pub load_step :
      (bytes rest : List ℕ) (event : Event) (ctx : Context)
      → 1 ≤ length bytes
      → stream_decode ops (bytes ++ rest) ≡ done (length bytes) event
      → After rest (handle event ctx)
      → Runs (bytes ++ rest) ctx
  unfolding load_loop
  load_step [] rest event ctx pos e h fuel read enough all = absurd (omega arith)
  load_step (b ∷ bytes) rest event ctx pos e h zero read enough all = absurd (omega arith)
  load_step (b ∷ bytes) rest event ctx pos e h (suc fuel) read enough all =
      let size : length (bytes ++ rest) ≡ length bytes + length rest = length-append bytes rest in
      rw (e, drop-append_self (b ∷ bytes) rest)
        (h fuel (read + length (b ∷ bytes)) (omega arith) (omega arith))

  -- The source in its parts.
  pub Runs-assoc :
      (a b rest : List ℕ) (ctx : Context)
      → Runs (a ++ (b ++ rest)) ctx
      → Runs ((a ++ b) ++ rest) ctx
  Runs-assoc a b rest ctx h = rw (append_assoc a b rest) h

-- No indefinite string is open on top.
abbrev pub IsFree : List Frame → Type 0
IsFree (frame (open_bytestring capacity chunks) n ∷ s) = ⊥
IsFree (frame (open_string capacity chunks) n ∷ s) = ⊥
IsFree s = Unit {0}

pub add_byte_string-IsFree :
    (s : List Frame) (bytes : List ℕ) (ctx : Context)
    → IsFree s
    → add_byte_string s bytes ctx ≡ append_to s (Item.bytestring bytes) ctx
unfolding add_byte_string
add_byte_string-IsFree [] bytes ctx h = refl
add_byte_string-IsFree (frame (open_array d n xs) m ∷ s) bytes ctx h = refl
add_byte_string-IsFree (frame (open_map d n ps k) m ∷ s) bytes ctx h = refl
add_byte_string-IsFree (frame (open_tag v) m ∷ s) bytes ctx h = refl
add_byte_string-IsFree (frame (open_bytestring capacity chunks) n ∷ s) bytes ctx h = absurd h
add_byte_string-IsFree (frame (open_string capacity chunks) n ∷ s) bytes ctx h = absurd h

add_string_item-IsFree :
    (s : List Frame) (new_chunk : StringData) (ctx : Context)
    → IsFree s
    → add_string_item s new_chunk ctx ≡ append_to s (Item.string new_chunk) ctx
unfolding add_string_item
add_string_item-IsFree [] new_chunk ctx h = refl
add_string_item-IsFree (frame (open_array d n xs) m ∷ s) new_chunk ctx h = refl
add_string_item-IsFree (frame (open_map d n ps k) m ∷ s) new_chunk ctx h = refl
add_string_item-IsFree (frame (open_tag v) m ∷ s) new_chunk ctx h = refl
add_string_item-IsFree (frame (open_bytestring capacity chunks) n ∷ s) new_chunk ctx h = absurd h
add_string_item-IsFree (frame (open_string capacity chunks) n ∷ s) new_chunk ctx h = absurd h

pub add_string-IsFree :
    (s : List Frame) (bytes : List ℕ) (ctx : Context)
    → IsFree s
    → add_string s bytes ctx ≡ append_to s (Item.string (string_of bytes)) ctx
add_string-IsFree s bytes ctx h =
    add_string-add_string_item s bytes ctx ∙ add_string_item-IsFree s (string_of bytes) ctx h
