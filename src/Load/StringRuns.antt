-- ===== src/Load/StringRuns.antt =====
-- cbor_load's loop on an indefinite string.
use libcbor.Base.{◌∙◌}
use libcbor.Base.{ℕ, suc, ◌+◌, ◌^◌, ◌<◌, ◌≡◌, refl, ap, arith}
use libcbor.Base.{List, [], ◌∷◌, ◌++◌, append-nil, append_assoc, Option, some, none, true, All}
use libcbor.Base.{length, length-append}
use libcbor.Builder.{Frame, frame, handle, append_to, max_stack_size}
use libcbor.Builder.{add_string, add_string_item, break_top}
use libcbor.Builder.Strings.{add_string-add_string_item}
use libcbor.Builder.{open_string}
use libcbor.Builder.Plenty.{clean, grown, push_context-clean, add_chunk-grown}
use libcbor.Containers.{string_of}
use libcbor.Encoders.Headers.{header}
use libcbor.Items.{Item, StringData, IsByteString}
use libcbor.Load.{Loaded}
use libcbor.Memory.{Allocator}
use libcbor.Load.Decoded.{strings_of}
use libcbor.Load.Leaves.{header_pos}
use libcbor.Load.Steps.{Runs, After, load_step}
use libcbor.Loaders.{FloatOps}
use libcbor.Serialization.Wire.{counted_bytes, string_chunks}
use libcbor.Streaming.{Event}
use libcbor.Streaming.Encoded.{stream_decode-string}
use libcbor.Streaming.EncodedLeaves.{stream_decode-break, stream_decode-string_start}

length-strings_of : (cs : List StringData) → length (strings_of cs) ≡ length cs
length-strings_of [] = refl
length-strings_of (c ∷ cs) = ap (λ (n : ℕ). suc n) (length-strings_of cs)

module _ (ops : FloatOps) (total : ℕ) (result : Loaded) (rest : List ℕ) (r : Option Item)
    (s : List Frame) where
  abbrev open_strings : List StringData → List Frame
  open_strings cs = frame (open_string (grown (length cs)) cs) 0 ∷ s

  take_string :
      (cs : List StringData) (c : List ℕ)
      → length cs < 2 ^ 55
      → add_string (open_strings cs) c (clean r (open_strings cs))
        ≡ clean r (open_strings (cs ++ string_of c ∷ []))
  unfolding add_string_item
  take_string cs c h =
      let more : length (cs ++ string_of c ∷ []) ≡ suc (length cs) =
        omega (arith, length-append cs (string_of c ∷ [])) in
      add_string-add_string_item (open_strings cs) c (clean r (open_strings cs))
      ∙ rw more (
          ap
            (λ (p : Option ℕ × Allocator). elim p.0 [
              | none ↦ record (clean r (open_strings cs)) { creation_failed = true; answers = p.1 }
              | some capacity' ↦ record (clean r (open_strings cs)) {
                stack = frame (open_string capacity' (cs ++ string_of c ∷ [])) 0 ∷ s;
                answers = p.1;
              }
            ])
            (add_chunk-grown (length cs) h))

  Runs-string_chunks :
      (cs taken : List StringData)
      → All (λ c. IsByteString c.bytes) cs
      → length taken + length cs < 2 ^ 55
      → After ops total result rest (
          append_to s
            (Item.indef_string (grown (length (taken ++ strings_of cs))) (taken ++ strings_of cs))
            (clean r s))
      → Runs ops total result (string_chunks cs ++ (0xFF ∷ rest)) (clean r (open_strings taken))
  unfolding string_chunks handle break_top counted_bytes
  Runs-string_chunks [] taken h small k =
      load_step ops total result (0xFF ∷ []) rest Event.indef_break _ (omega arith)
        (stream_decode-break ops rest) (rw (append-nil taken) at k)
  Runs-string_chunks (c ∷ cs) taken h small k =
      let hd = header 0x60 (length c.bytes) in
      let more = string_chunks cs ++ (0xFF ∷ rest) in
      let new = string_of c.bytes in
      rw (append_assoc (hd ++ c.bytes) (string_chunks cs) (0xFF ∷ rest)) (
        load_step ops total result (hd ++ c.bytes) more (Event.string c.bytes) _
          (omega (arith, length-append hd c.bytes, header_pos 0x60 (length c.bytes)))
          (rw (append_assoc hd c.bytes more, length-append hd c.bytes)
            (stream_decode-string ops c.bytes more h.0))
          (rw (take_string taken c.bytes (omega arith)) (
            Runs-string_chunks cs (taken ++ new ∷ []) h.1
              (omega (arith, length-append taken (new ∷ [])))
              (rw (append_assoc taken (new ∷ []) (strings_of cs)) k))))

  pub Runs-indef_string :
      (capacity : ℕ) (cs : List StringData)
      → All (λ c. IsByteString c.bytes) cs
      → length cs < 2 ^ 55
      → length s < max_stack_size
      → After ops total result rest
          (append_to s (Item.indef_string (grown (length cs)) (strings_of cs)) (clean r s))
      → Runs ops total result ((0x7F ∷ (string_chunks cs ++ 0xFF ∷ [])) ++ rest) (clean r s)
  unfolding handle grown
  Runs-indef_string capacity cs h small room k =
      rw (append_assoc (string_chunks cs) (0xFF ∷ []) rest) (
        load_step ops total result (0x7F ∷ []) (string_chunks cs ++ (0xFF ∷ rest))
          Event.string_start (clean r s) (omega arith) (stream_decode-string_start ops _)
          (rw (push_context-clean (open_string 0 []) 0 r s room)
            (Runs-string_chunks cs [] h (omega arith) (rw (length-strings_of cs) k))))
