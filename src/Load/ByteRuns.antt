-- ===== src/Load/ByteRuns.antt =====
-- cbor_load's loop on an indefinite byte string.
use libcbor.Base.{ℕ, suc, ◌+◌, ◌^◌, ◌<◌, ◌≡◌, ap, arith}
use libcbor.Base.{List, [], ◌∷◌, ◌++◌, append-nil, append_assoc, Option, some, none, true, All}
use libcbor.Base.{length, length-append}
use libcbor.Builder.{Frame, frame, handle, append_to, max_stack_size}
use libcbor.Builder.{add_byte_string, break_top}
use libcbor.Builder.{open_bytestring}
use libcbor.Builder.Plenty.{clean, grown, push_context-clean, add_chunk-grown}
use libcbor.Encoders.Headers.{header}
use libcbor.Items.{Item, IsByteString}
use libcbor.Load.{Loaded}
use libcbor.Memory.{Allocator}
use libcbor.Load.Leaves.{header_pos}
use libcbor.Load.Steps.{Runs, After, load_step}
use libcbor.Loaders.{FloatOps}
use libcbor.Serialization.Wire.{counted_bytes, byte_chunks}
use libcbor.Streaming.{Event}
use libcbor.Streaming.Encoded.{stream_decode-byte_string}
use libcbor.Streaming.EncodedLeaves.{stream_decode-break, stream_decode-byte_string_start}

module _ (ops : FloatOps) (total : ℕ) (result : Loaded) (rest : List ℕ) (r : Option Item)
    (s : List Frame) where
  abbrev open_bytes : List (List ℕ) → List Frame
  open_bytes cs = frame (open_bytestring (grown (length cs)) cs) 0 ∷ s

  take_chunk :
      (cs : List (List ℕ)) (c : List ℕ)
      → length cs < 2 ^ 55
      → add_byte_string (open_bytes cs) c (clean r (open_bytes cs))
        ≡ clean r (open_bytes (cs ++ c ∷ []))
  unfolding add_byte_string
  take_chunk cs c h =
      let more : length (cs ++ c ∷ []) ≡ suc (length cs) =
        omega (arith, length-append cs (c ∷ [])) in
      rw more (
        ap
          (λ (p : Option ℕ × Allocator). elim p.0 [
            | none ↦ record (clean r (open_bytes cs)) { creation_failed = true; answers = p.1 }
            | some capacity' ↦ record (clean r (open_bytes cs)) {
              stack = frame (open_bytestring capacity' (cs ++ c ∷ [])) 0 ∷ s;
              answers = p.1;
            }
          ])
          (add_chunk-grown (length cs) h))

  Runs-byte_chunks :
      (cs taken : List (List ℕ))
      → All IsByteString cs
      → length taken + length cs < 2 ^ 55
      → After ops total result rest (
          append_to s
            (Item.indef_bytestring (grown (length (taken ++ cs))) (taken ++ cs))
            (clean r s))
      → Runs ops total result (byte_chunks cs ++ (0xFF ∷ rest)) (clean r (open_bytes taken))
  unfolding byte_chunks handle break_top counted_bytes
  Runs-byte_chunks [] taken h small k =
      load_step ops total result (0xFF ∷ []) rest Event.indef_break _ (omega arith)
        (stream_decode-break ops rest) (rw (append-nil taken) at k)
  Runs-byte_chunks (c ∷ cs) taken h small k =
      let hd = header 0x40 (length c) in
      let more = byte_chunks cs ++ (0xFF ∷ rest) in
      rw (append_assoc (hd ++ c) (byte_chunks cs) (0xFF ∷ rest)) (
        load_step ops total result (hd ++ c) more (Event.byte_string c) _
          (omega (arith, length-append hd c, header_pos 0x40 (length c)))
          (rw (append_assoc hd c more, length-append hd c)
            (stream_decode-byte_string ops c more h.0))
          (rw (take_chunk taken c (omega arith)) (
            Runs-byte_chunks cs (taken ++ c ∷ []) h.1 (omega (arith, length-append taken (c ∷ [])))
              (rw (append_assoc taken (c ∷ []) cs) k))))

  pub Runs-indef_bytestring :
      (capacity : ℕ) (cs : List (List ℕ))
      → All IsByteString cs
      → length cs < 2 ^ 55
      → length s < max_stack_size
      → After ops total result rest
          (append_to s (Item.indef_bytestring (grown (length cs)) cs) (clean r s))
      → Runs ops total result ((0x5F ∷ (byte_chunks cs ++ 0xFF ∷ [])) ++ rest) (clean r s)
  unfolding handle grown
  Runs-indef_bytestring capacity cs h small room k =
      rw (append_assoc (byte_chunks cs) (0xFF ∷ []) rest) (
        load_step ops total result (0x5F ∷ []) (byte_chunks cs ++ (0xFF ∷ rest))
          Event.byte_string_start (clean r s) (omega arith) (stream_decode-byte_string_start ops _)
          (rw (push_context-clean (open_bytestring 0 []) 0 r s room)
            (Runs-byte_chunks cs [] h (omega arith) k)))
