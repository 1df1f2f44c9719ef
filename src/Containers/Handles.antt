-- ===== src/Containers/Handles.antt =====
-- The assertion of cbor_string_set_handle in src/cbor/strings.c does not fail.
use libcbor.Base.{ℕ, ◌≡◌, List, some, le→leb, length}
use libcbor.Containers.{string_of, string_set_handle}
use libcbor.Unicode.{codepoint_count}
use libcbor.Unicode.Counting.{codepoint_count-le}

-- There are no more code points than bytes.
pub string_set_handle-string_of :
    (bytes : List ℕ) → string_set_handle bytes ≡ some (string_of bytes)
unfolding string_set_handle
string_set_handle-string_of bytes =
    rw (le→leb (codepoint_count bytes).0 (length bytes) (codepoint_count-le bytes))
