-- ===== src/Lib.antt =====
-- libcbor is a C library that encodes and decodes CBOR (RFC 8949). This library models its core: the
-- path from an item to bytes and the path from bytes to an item.
--
-- Parts, files and sources (paths from the repository's root):
--   Base: lists, Boolean tests, integers and well-founded recursion over the native numbers.
--   Memory: src/cbor/internal/memory_utils.c, the overflow checks and the allocations behind them.
--   Items: src/cbor/data.h, `cbor_item_t` as the tree that its pointers span.
--   Encoders: src/cbor/internal/encoders.c, the headers; Encoding: src/cbor/encoding.c, the public
--     encoders, floats included; Halves says which half is to be written for a float,
--     by the lemmas of Bits and Fields.
--   Loaders: src/cbor/internal/loaders.c, the numbers of the headers.
--   Streaming: src/cbor/streaming.c, `cbor_stream_decode`. Its children follow the switch (Ints,
--     Strings, Containers, Simple); Events holds the callbacks of src/cbor/callbacks.h, a call being a
--     value; Plan says what is due behind a leading byte, Plan/Rfc is the reference by RFC 8949, and
--     Contract what src/cbor/data.h promises.
--   Serialization: src/cbor/serialization.c, `cbor_serialize`; Size has `cbor_serialized_size` and
--     `cbor_serialize_alloc`; Wire is the encoding that it is to write, and Rfc compares that with the
--     encodings of RFC 8949 as a relation.
--   Unicode: src/cbor/internal/unicode.c, the automaton for UTF-8; Grammar is the reference, by RFC 3629.
--   Containers: the parts of src/cbor/arrays.c, maps.c, strings.c and bytestrings.c by which containers
--     take members.
--   Builder: src/cbor/internal/builder_callbacks.c and stack.c, the callbacks that build items. State
--     is the decoder's context, Append `_cbor_builder_append`, Callbacks the callbacks (`handle`);
--     Invariant is about the stack's size, Counters and Assertions about its counters, Filled about the
--     root, Room and Stored about the storage of its containers, Strings about the assertion on code
--     points, Plenty about steps with no failing allocation.
--   Load: `cbor_load` of src/cbor.c. Decoded is the item that it is to return for an encoding; Steps,
--     Leaves, ByteRuns, StringRuns, Members, Starts and Runs follow its loop through an encoding;
--     Reachable is the step relation of its rounds.
--     Prefix and Truncated are about sources that are longer or shorter.
--   Allocation: the functions that create items as a monad over the allocator's answers, with the early
--     returns of src/cbor/common.h; Ensures is what such a function guarantees with any allocator.
--   Kinds: the predicates of src/cbor/common.c; Ints: src/cbor/ints.c; FloatsCtrls:
--     src/cbor/floats_ctrls.c.
--   Refs: the reference counts of src/cbor/common.c, on a store of items; Exact is the invariant, Walk
--     follows `cbor_decref` through what an item refers to, Acyclic is about stores without cycles.
--   Copy: `cbor_copy` of src/cbor.c. Copied is the copy that it is to return; Growth, Leaves, Chunks and
--     Runs follow it with any allocator; Alike compares the encodings. Copy/Definite is
--     `cbor_copy_definite`, with Combined and Values as its references.
--   Tests: concrete inputs for the theorems.
--
-- How they interact: `load` calls `stream_decode` on what is left of the source, hands the event to
-- `handle`, which changes the context (the stack of open containers, the root, the error flags and the
-- allocator's coming answers), and goes on until the stack is empty. `serialize` calls the encoders
-- with the rest of the buffer, 0 being the error result that is passed on.
--
-- Conventions: a size_t, a uint64_t and a pointer have 64 bits; wrap-around is written out as a
-- remainder. A buffer and its length are a list of bytes. An encoder's result is the number that it
-- returns and the bytes that it stored. The allocator is a stream of answers to coming calls, with
-- nothing assumed of it; theorems that need every allocation to succeed say so. Floats are bit
-- patterns; ldexp, negation, the conversion to float, the constants and isnan are parameters
-- (`FloatOps`), and the one law assumed of them is that isnan on a float tells the NaNs of IEEE 754. `load` runs on fuel, one round more than the source has bytes: a finished round reads
-- a byte at least, so that fuel is enough for every source. `decref` runs on fuel for its nested calls;
-- each of them gives up a reference, so the sum of the reference counts is enough.
--
-- Where an assertion of the C code would fail or NULL would be read, the builder's context has `fault`
-- set, a function that creates an item is `crashed`, and cbor_encode_half writes nothing.
--
-- Not modelled: cbor_describe (output), the sharing of subtrees outside of Refs (the other parts take
-- items as trees), the accessors of maps, strings and tags that only read a field, the empty callbacks,
-- and the choice of the allocator's functions.
pub mod Base
pub mod Memory
pub mod Encoders
pub mod Loaders
pub mod Encoding
pub mod Streaming
pub mod Items
pub mod Serialization
pub mod Unicode
pub mod Containers
pub mod Builder
pub mod Allocation
pub mod Ints
pub mod Kinds
pub mod FloatsCtrls
pub mod Copy
pub mod Load
pub mod Tests
pub mod Refs
