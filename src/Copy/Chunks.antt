-- ===== src/Copy/Chunks.antt =====
-- cbor_copy on indefinite strings, with any allocator.
use libcbor.Allocation.{Alloc, allocate, attempt, checked, ◌>>=◌, ◌>>◌}
use libcbor.Allocation.Ensures.{Ensures-bind, Ensures-allocate, Ensures-attempt}
use libcbor.Base.{ℕ, suc, ◌+◌, ◌^◌, ◌<◌, ◌≡◌, refl, sym, ap, ◌∙◌, arith}
use libcbor.Base.{List, [], ◌∷◌, ◌++◌, append-nil, append_assoc, length, length-append}
use libcbor.Base.{Option}
use libcbor.Containers.Handles.{string_set_handle-string_of}
use libcbor.Builder.{item_size, string_data_size}
use libcbor.Builder.Plenty.{grown}
use libcbor.Containers.{add_chunk, string_of}
use libcbor.Copy.{copy, new_indefinite_string, copy_byte_chunks, copy_string_chunks}
use libcbor.Copy.Growth.{add_chunk-Outcome}
use libcbor.Copy.Leaves.{Gives, Gives-pure}
use libcbor.Items.{StringData, Item}
use libcbor.Load.Decoded.{strings_of}
use libcbor.Memory.{Allocator}

-- One turn of a loop over chunks: the memory for the chunk, and room for it.
room :
    (size n : ℕ) (y : Item) (f : ℕ → Alloc Item) (Q : Type 0) (answers : Allocator)
    → n < 2 ^ 55
    → ((rest : Allocator) → Gives y Q rest (f (grown (suc n)) rest))
    → Gives y Q answers
        ((allocate item_size >> (allocate size >> (attempt (add_chunk (grown n) n) >>= f))) answers)
room size n y f Q answers h later =
    Ensures-bind (allocate item_size)
      (λ _. allocate size >> (attempt (add_chunk (grown n) n) >>= f))
      (Ensures-allocate item_size Q answers)
      (λ _ rest _.
        Ensures-bind (allocate size) (λ _. attempt (add_chunk (grown n) n) >>= f)
          (Ensures-allocate size Q rest)
          (λ _ rest' _.
            Ensures-bind (attempt (add_chunk (grown n) n)) f
              (Ensures-attempt (add_chunk (grown n) n) (add_chunk-Outcome n rest' h))
              (λ m last e. rw e (later last))))

length-snoc : {A : Type 0} (xs : List A) (x : A) → suc (length xs) ≡ length (xs ++ x ∷ [])
length-snoc xs x = omega (arith, length-append xs (x ∷ []))

copy_byte_chunks-Gives :
    (taken chunks all : List (List ℕ)) (Q : Type 0) (answers : Allocator)
    → taken ++ chunks ≡ all
    → length taken + length chunks < 2 ^ 55
    → Gives
        (Item.indef_bytestring (grown (length all)) all)
        Q
        answers
        (copy_byte_chunks (grown (length taken)) taken chunks answers)
unfolding copy_byte_chunks
copy_byte_chunks-Gives taken [] all Q answers e h =
    rw (sym e, append-nil taken) (Gives-pure _ Q answers)
copy_byte_chunks-Gives taken (chunk ∷ chunks) all Q answers e h =
    room (length chunk) (length taken) _ (λ m. copy_byte_chunks m (taken ++ chunk ∷ []) chunks) Q
      answers (omega (arith, h))
      (λ rest. rw (length-snoc taken chunk) (
        copy_byte_chunks-Gives (taken ++ chunk ∷ []) chunks all Q rest
          (append_assoc taken (chunk ∷ []) chunks ∙ e) (omega (arith, h, length-snoc taken chunk))))

copy_string_chunks_step :
    (capacity : ℕ) (taken : List StringData) (chunk : StringData) (chunks : List StringData)
    → copy_string_chunks capacity taken (chunk ∷ chunks) ≡ (
        allocate item_size
        >> (allocate (length chunk.bytes)
            >> (attempt (add_chunk capacity (length taken)) >>= λ m.
                copy_string_chunks m (taken ++ string_of chunk.bytes ∷ []) chunks)))
unfolding copy_string_chunks
copy_string_chunks_step capacity taken chunk chunks =
    ap
      (λ (o : Option StringData).
        allocate item_size
        >> (allocate (length chunk.bytes)
            >> (checked o >>= λ new_string. attempt (add_chunk capacity (length taken)) >>= λ m.
                copy_string_chunks m (taken ++ new_string ∷ []) chunks)))
      (string_set_handle-string_of chunk.bytes)

copy_string_chunks-Gives :
    (taken : List StringData) (chunks : List StringData) (all : List StringData) (Q : Type 0)
    (answers : Allocator)
    → taken ++ strings_of chunks ≡ all
    → length taken + length chunks < 2 ^ 55
    → Gives
        (Item.indef_string (grown (length all)) all)
        Q
        answers
        (copy_string_chunks (grown (length taken)) taken chunks answers)
copy_string_chunks-Gives taken [] all Q answers e h =
    rw (sym e, append-nil taken) (unfold copy_string_chunks in Gives-pure _ Q answers)
copy_string_chunks-Gives taken (chunk ∷ chunks) all Q answers e h =
    let c = string_of chunk.bytes in
    rw (copy_string_chunks_step (grown (length taken)) taken chunk chunks) (
      room (length chunk.bytes) (length taken) _
        (λ m. copy_string_chunks m (taken ++ c ∷ []) chunks) Q answers (omega (arith, h))
        (λ rest. rw (length-snoc taken c) (
          copy_string_chunks-Gives (taken ++ c ∷ []) chunks all Q rest
            (append_assoc taken (c ∷ []) (strings_of chunks) ∙ e)
            (omega (arith, h, length-snoc taken c)))))

new_string :
    (y : Item) (f : Alloc Item) (Q : Type 0) (answers : Allocator)
    → ((rest : Allocator) → Gives y Q rest (f rest))
    → Gives y Q answers ((new_indefinite_string >> f) answers)
unfolding new_indefinite_string
new_string y f Q answers later =
    Ensures-bind new_indefinite_string (λ _. f)
      (Ensures-bind (allocate item_size) (λ _. allocate string_data_size)
        (Ensures-allocate item_size Q answers)
        (λ _ rest _. Ensures-allocate string_data_size Q rest))
      (λ _ rest _. later rest)

length-strings_of : (cs : List StringData) → length (strings_of cs) ≡ length cs
length-strings_of [] = refl
length-strings_of (c ∷ cs) = ap suc (length-strings_of cs)

pub copy_indef_bytestring-Gives :
    (garbage capacity : ℕ) (chunks : List (List ℕ)) (Q : Type 0) (answers : Allocator)
    → length chunks < 2 ^ 55
    → Gives
        (Item.indef_bytestring (grown (length chunks)) chunks)
        Q
        answers
        (copy garbage (Item.indef_bytestring capacity chunks) answers)
unfolding copy grown
copy_indef_bytestring-Gives garbage capacity chunks Q answers h =
    new_string _ (copy_byte_chunks 0 [] chunks) Q answers
      (λ rest. copy_byte_chunks-Gives [] chunks chunks Q rest refl (omega (arith, h)))

pub copy_indef_string-Gives :
    (garbage capacity : ℕ) (chunks : List StringData) (Q : Type 0) (answers : Allocator)
    → length chunks < 2 ^ 55
    → Gives
        (Item.indef_string (grown (length chunks)) (strings_of chunks))
        Q
        answers
        (copy garbage (Item.indef_string capacity chunks) answers)
unfolding copy grown
copy_indef_string-Gives garbage capacity chunks Q answers h = rw (sym (length-strings_of chunks)) (
    new_string _ (copy_string_chunks 0 [] chunks) Q answers (λ rest.
      copy_string_chunks-Gives [] chunks (strings_of chunks) Q rest refl (omega (arith, h))))
