-- ===== src/Builder/Strings.antt =====
-- The string callback behind its allocations: the assertion of cbor_string_set_handle does not fail.
use libcbor.Base.{ℕ, ◌≡◌, ap, List, Option, none, some}
use libcbor.Builder.{Frame, Context, add_string, add_string_item, faulty}
use libcbor.Containers.{string_of}
use libcbor.Containers.Handles.{string_set_handle-string_of}
use libcbor.Items.{StringData}

pub add_string-add_string_item :
    (stack : List Frame) (bytes : List ℕ) (ctx : Context)
    → add_string stack bytes ctx ≡ add_string_item stack (string_of bytes) ctx
unfolding add_string
add_string-add_string_item stack bytes ctx =
    ap
      (λ (o : Option StringData). elim o [
        | none ↦ faulty ctx
        | some new_chunk ↦ add_string_item stack new_chunk ctx
      ])
      (string_set_handle-string_of bytes)
