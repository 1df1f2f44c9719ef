-- ===== src/Copy/Definite/Chunks.antt =====
-- cbor_copy_definite on indefinite strings, with any allocator.
use libcbor.Allocation.{Built, allocate, checked, pure, ◌>>=◌, ◌>>◌}
use libcbor.Allocation.Ensures.{Ensures, Ensures-bind, Ensures-allocate}
use libcbor.Base.{
  ℕ, ◌+◌, ◌%◌, ◌^◌, ◌<◌, ◌≡◌, refl, arith, List, [], ◌∷◌, length, length-append, leb, true,
}
use libcbor.Base.{ap, fun_ext, Option}
use libcbor.Containers.Handles.{string_set_handle-string_of}
use libcbor.Builder.{item_size}
use libcbor.Containers.{string_of}
use libcbor.Copy.Definite.{
  total_length, joined, combine, combine_bytestring, combine_string, chunk_bytes, unchecked,
}
use libcbor.Copy.Leaves.{Gives, Gives-pure}
use libcbor.Items.{StringData, Item}
use libcbor.Memory.{Allocator}

-- The sum is the length of the joined chunks where that does not wrap.
pub total_length-joined :
    (total : ℕ) (chunks : List (List ℕ))
    → total + length (joined chunks) < 2 ^ 64
    → total_length total chunks ≡ total + length (joined chunks)
unfolding total_length joined
total_length-joined total [] h = omega arith
total_length-joined total (chunk ∷ chunks) h =
    let n = length-append chunk (joined chunks) in
    let e : (total + length chunk) % 2 ^ 64 ≡ total + length chunk = omega (arith, h, n) in
    rw (e, total_length-joined (total + length chunk) chunks (omega (arith, h, n)))
      (omega (arith, n))

combine-Ensures :
    (chunks : List (List ℕ)) (Q : Type 0) (answers : Allocator)
    → length (joined chunks) < 2 ^ 64
    → Ensures (λ bytes. bytes ≡ joined chunks) Q answers (combine chunks answers)
unfolding combine
combine-Ensures chunks Q answers h =
    let e : leb (length (joined chunks)) (total_length 0 chunks) ≡ true =
      ground (arith, total_length-joined 0 chunks (omega (arith, h))) in
    rw e (
      Ensures-bind (allocate (total_length 0 chunks)) (λ _. pure (joined chunks))
        (Ensures-allocate (total_length 0 chunks) Q answers)
        (λ _ rest _. Ensures.value (joined chunks) rest refl (λ same. same)))

-- What is not looked for crashes.
pub unchecked-Ensures :
    {A : Type 0} {P : A → Type 0} {Q : Type 0} {answers : Allocator} {b : Built A}
    → Q
    → Ensures P Q answers b
    → Ensures P Q answers (elim b [
      | Built.built a rest ↦ Built.built a rest
      | Built.failed rest ↦ Built.crashed
      | Built.crashed ↦ Built.crashed
    ])
unchecked-Ensures q (Ensures.value a rest p keep) = Ensures.value a rest p keep
unchecked-Ensures q (Ensures.null rest short) = Ensures.crash q short
unchecked-Ensures q (Ensures.crash q' short) = Ensures.crash q' short

wrap :
    (chunks : List (List ℕ)) (make : List ℕ → Item) (Q : Type 0) (answers : Allocator)
    → Q
    → length (joined chunks) < 2 ^ 64
    → Gives
        (make (joined chunks))
        Q
        answers
        ((combine chunks >>= λ bytes. unchecked (allocate item_size) >> pure (make bytes)) answers)
wrap chunks make Q answers q h =
    Ensures-bind (combine chunks) (λ bytes. unchecked (allocate item_size) >> pure (make bytes))
      (combine-Ensures chunks Q answers h)
      (λ bytes rest e. rw e (
        Ensures-bind (unchecked (allocate item_size)) (λ _. pure (make (joined chunks)))
          (unchecked-Ensures q (Ensures-allocate item_size Q rest))
          (λ _ last _. Gives-pure (make (joined chunks)) Q last)))

pub combine_bytestring-Gives :
    (chunks : List (List ℕ)) (Q : Type 0) (answers : Allocator)
    → Q
    → length (joined chunks) < 2 ^ 64
    → Gives (Item.bytestring (joined chunks)) Q answers (combine_bytestring chunks answers)
unfolding combine_bytestring
combine_bytestring-Gives chunks Q answers q h =
    wrap chunks (λ bytes. Item.bytestring bytes) Q answers q h

combine_string_lem :
    (chunks : List StringData)
    → combine_string chunks ≡ (
        combine (chunk_bytes chunks) >>= λ bytes.
        unchecked (allocate item_size) >> pure (Item.string (string_of bytes)))
unfolding combine_string
combine_string_lem chunks =
    ap
      (λ (f : List ℕ → Option StringData). combine (chunk_bytes chunks) >>= λ bytes.
        unchecked (allocate item_size)
        >> (checked (f bytes) >>= λ new_string. pure (Item.string new_string)))
      (fun_ext string_set_handle-string_of)

pub combine_string-Gives :
    (chunks : List StringData) (Q : Type 0) (answers : Allocator)
    → Q
    → length (joined (chunk_bytes chunks)) < 2 ^ 64
    → Gives
        (Item.string (string_of (joined (chunk_bytes chunks))))
        Q
        answers
        (combine_string chunks answers)
combine_string-Gives chunks Q answers q h =
    rw (combine_string_lem chunks)
      (wrap (chunk_bytes chunks) (λ bytes. Item.string (string_of bytes)) Q answers q h)
