-- ===== src/Tests.antt =====
-- The theorems on concrete inputs.
mod Copies
mod Loading
mod Counting
mod Leaves
mod Decoding
mod Numbers
mod Encodings
use libcbor.Base.{ℕ, ◌+◌, ◌*◌, ◌-◌, ◌%◌, ◌^◌, ◌≤◌, ◌<◌, ◌≡◌, refl, ◌↔◌, inl, arith}
use libcbor.Base.{List, [], ◌∷◌, ◌++◌, some, none, true, false, length, ltb}
use libcbor.Builder.{handle, max_stack_size, push_context, append_to, break_top}
use libcbor.Containers.{array_push, reserve, grow}
use libcbor.Builder.{Frame, frame, open_map}
use libcbor.Builder.Counters.{IsSound}
use libcbor.Builder.Assertions.{handle-IsSound}
use libcbor.Builder.Invariant.{Within, handle-Within}
use libcbor.Builder.Plenty.{always, clean}
use libcbor.Encoders.{encode_uint_at}
use libcbor.Encoders.Headers.{Writes, header, header8, header16, header32, encode_uint_at-Writes}
use libcbor.Items.{Metadata, IntWidth, Item, Items, Pairs, IsTyped}
use libcbor.Load.{ErrorCode, LoadResult, loaded, load}
use libcbor.Load.Bounds.{IsResult, load-IsResult}
use libcbor.Load.Decoded.{decoded, depth, IsLoadable}
use libcbor.Base.{drop}
use libcbor.Load.{fresh, handle_event}
use libcbor.Load.Reachable.{Reaches, load-IsSafe}
use libcbor.Load.RoundTrip.{load-wire, load-serialize}
use libcbor.Loaders.{FloatOps, load_uint64}
use libcbor.Memory.{
  highest_bit, safe_to_multiply, safe_to_add, safe_signaling_add, realloc_multiple,
}
use libcbor.Memory.Bounds.{
  IsBitLength, highest_bit-IsBitLength, safe_to_multiply_bounds, safe_to_add_iff,
  safe_signaling_add_lem,
}
use libcbor.Serialization.{serialize}
use libcbor.Serialization.Emits.{Emits}
use libcbor.Serialization.Refines.{serialize-Emits}
use libcbor.Serialization.Size.{serialized_size, serialize_alloc}
use libcbor.Serialization.SizeOfWire.{Measures, serialized_size-Measures, serialize_alloc_lem}
use libcbor.Serialization.Wire.{wire, int_header, counted_bytes, string_chunks}
use libcbor.Streaming.{Status, Event, stream_decode}
use libcbor.Streaming.Contract.{
  Outcome, stream_decode-Outcome, stream_decode-append, stream_decode_required, required_wraps,
}
use libcbor.Unicode.{codepoint_count}

-- A map of two entries with one key and its value still to come.
abbrev pub half_map : List Frame
half_map =
    frame
      (open_map Metadata.definite 2
        (Pairs.pair (Item.uint IntWidth.int8 1) (Item.uint IntWidth.int8 2) Pairs.end) none)
      2
    ∷ []

handle-IsSound_example : IsSound (handle (Event.array_start 0) (clean none half_map))
handle-IsSound_example =
    handle-IsSound (Event.array_start 0) (clean none half_map) (omega arith)
      (refl, ((refl, omega arith, omega arith), tt))

-- Floating point by bit patterns, as far as the samples need it.
abbrev pub sample_ops : FloatOps
sample_ops = record {
  ldexp = λ mant exp. mant;
  negate = λ v. v + 2 ^ 63;
  to_float = λ v. v % 2 ^ 32;
  infinity = 0x7FF0_0000_0000_0000;
  nan = 0x7FF8_0000_0000_0000;
  isnan_float = λ v. ltb 0x7F80_0000 (v % 2 ^ 31);
  isnan_double = λ v. ltb 0x7FF0_0000_0000_0000 (v % 2 ^ 63);
  isnan_float_law = λ v. refl;
}

-- [_ 5, {"a": 1(1000)}, (_ "b"), 1.5f].
abbrev sample : Item
sample = Item.array Metadata.indefinite 4 (
    Items.cons (Item.uint IntWidth.int8 5) (
      Items.cons
        (Item.map Metadata.definite 1 (
          Pairs.pair (Item.string (record { codepoint_count = 1; bytes = 97 ∷ [] }))
            (Item.tag 1 (Item.uint IntWidth.int16 1000)) Pairs.end))
        (Items.cons (Item.indef_string 1 (record { codepoint_count = 1; bytes = 98 ∷ [] } ∷ []))
          (Items.cons (Item.float4 0x3FC0_0000) Items.nil))))

abbrev pub empty_result : LoadResult
empty_result = record { code = ErrorCode.none; position = 0; read = 0 }

sample-IsLoadable : IsLoadable sample
sample-IsLoadable = (
  omega arith,
  (
    omega arith,
    (
      (omega arith, (omega arith, (omega arith, omega arith), tt)),
      ((omega arith, (omega arith, tt)), (omega arith, tt)),
    ),
  ),
)

sample-IsTyped : IsTyped sample
sample-IsTyped = (
  omega arith,
  (
    omega arith,
    (
      (omega arith, (omega arith, (omega arith, omega arith), tt)),
      ((omega arith, tt), (omega arith, tt)),
    ),
  ),
)

sample-depth : depth sample ≤ max_stack_size
unfolding max_stack_size
sample-depth = omega arith

sample-fits : length (wire sample_ops sample) ≤ 64
unfolding wire int_header counted_bytes string_chunks header header8 header16 header32
sample-fits = omega arith

load-serialize_example :
    load sample_ops always (serialize sample_ops sample 64).stored empty_result
    ≡ some (loaded (some (decoded sample_ops sample)) (serialize sample_ops sample 64).written)
load-serialize_example =
    load-serialize sample_ops sample 64 empty_result sample-IsLoadable sample-depth sample-fits

load-wire_example :
    load sample_ops always (wire sample_ops sample ++ 0xFF ∷ []) empty_result
    ≡ some (loaded (some (decoded sample_ops sample)) (length (wire sample_ops sample)))
load-wire_example =
    load-wire sample_ops sample (0xFF ∷ []) empty_result sample-IsLoadable sample-depth

-- A nested array whose second member is missing, with an allocator that fails on the third call.
load-IsResult_example :
    IsResult 3 (load sample_ops (λ k n. ltb k 2) (0x82 ∷ 0x81 ∷ 0x05 ∷ []) empty_result)
load-IsResult_example =
    load-IsResult sample_ops (λ k n. ltb k 2) 0x82 (0x81 ∷ 0x05 ∷ []) empty_result
      (omega arith, (omega arith, (omega arith, tt)))

abbrev pub one : Item
one = Item.array Metadata.indefinite 1 (Items.cons (Item.uint IntWidth.int8 5) Items.nil)

pub load-one :
    load sample_ops always (0x9F ∷ 0x05 ∷ 0xFF ∷ []) empty_result ≡ some (loaded (some one) 3)
unfolding load stream_decode handle push_context array_push append_to break_top realloc_multiple
    max_stack_size safe_to_multiply reserve grow
load-one = refl

serialized_size-Measures_example :
    Measures (serialized_size sample) (length (wire sample_ops sample))
serialized_size-Measures_example = serialized_size-Measures sample_ops sample sample-IsTyped

serialize_alloc_lem_example :
    let n = length (wire sample_ops sample) in
    (n < 2 ^ 64
      → true ≡ true
      → serialize_alloc sample_ops always sample
        ≡ record { written = n; buffer = some (wire sample_ops sample); buffer_size = n })
    × (n < 2 ^ 64
        → true ≡ false
        → serialize_alloc sample_ops always sample
          ≡ record { written = 0; buffer = none; buffer_size = 0 })
    × (2 ^ 64 ≤ n
        → serialize_alloc sample_ops always sample
          ≡ record { written = 0; buffer = none; buffer_size = 0 })
serialize_alloc_lem_example = serialize_alloc_lem sample_ops always sample sample-IsTyped

empty_stack : Within max_stack_size (clean none [])
unfolding max_stack_size
empty_stack = omega arith

handle-Within_example : Within max_stack_size (handle (Event.map_start 3) (clean none []))
handle-Within_example = handle-Within (Event.map_start 3) (clean none []) empty_stack

array_finished : (stream_decode sample_ops (0x81 ∷ 0x05 ∷ [])).result.status ≡ Status.finished
unfolding stream_decode
array_finished = refl

load-IsSafe_example :
    let step = stream_decode sample_ops (0x81 ∷ 0x05 ∷ []) in
    let ctx = handle_event step.event (fresh (λ k n. ltb k 1)) in
    IsSound ctx × Within max_stack_size ctx
load-IsSafe_example =
    load-IsSafe sample_ops (λ k n. ltb k 1) (0x81 ∷ 0x05 ∷ [])
      (drop (stream_decode sample_ops (0x81 ∷ 0x05 ∷ [])).result.read (0x81 ∷ 0x05 ∷ []))
      (handle_event (stream_decode sample_ops (0x81 ∷ 0x05 ∷ [])).event (fresh (λ k n. ltb k 1)))
      (omega arith, (omega arith, tt)) (Reaches.round Reaches.start array_finished)
