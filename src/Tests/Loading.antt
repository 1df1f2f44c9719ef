-- ===== src/Tests/Loading.antt =====
-- The theorems about cbor_load on parts of a source, on concrete inputs.
use libcbor.Base.{none, ◌≡◌, refl, arith, [], ◌∷◌, ◌++◌, some}
use libcbor.Builder.Plenty.{always}
use libcbor.Load.{ErrorCode, failed, load, loaded}
use libcbor.Load.Prefix.{load-append_settled}
use libcbor.Load.Truncated.{LacksData, load-truncated}
use libcbor.Serialization.Wire.{wire, int_header}
use libcbor.Streaming.{stream_decode}
use libcbor.Builder.{handle, push_context, max_stack_size}
use libcbor.Memory.{alloc_multiple, safe_to_multiply}
use libcbor.Builder.Plenty.{clean}
use libcbor.Builder.Room.{RootFits, IsFitted}
use libcbor.Builder.Stored.{handle-IsFitted}
use libcbor.Load.Stored.{load-RootFits}
use libcbor.Streaming.{Event}
use libcbor.Tests.{half_map, load-one, sample_ops, empty_result, one}

load-reserved :
    load sample_ops always (0x81 ∷ 0x1C ∷ []) empty_result ≡ some (failed ErrorCode.malformated 1)
unfolding load stream_decode handle alloc_multiple safe_to_multiply push_context max_stack_size
load-reserved = refl

load-append_settled_example :
    load sample_ops always (0x81 ∷ 0x1C ∷ 0x05 ∷ []) empty_result
    ≡ some (failed ErrorCode.malformated 1)
load-append_settled_example =
    load-append_settled sample_ops always 0x81 (0x1C ∷ []) (0x05 ∷ []) empty_result
      (failed ErrorCode.malformated 1) (omega arith, (omega arith, tt)) (λ c. cc) load-reserved

wire-one : wire sample_ops one ≡ (0x9F ∷ 0x05 ∷ []) ++ (0xFF ∷ [])
unfolding wire int_header
wire-one = refl

load-truncated_example : LacksData (load sample_ops always (0x9F ∷ 0x05 ∷ []) empty_result)
unfolding max_stack_size
load-truncated_example =
    load-truncated sample_ops one empty_result 0x9F (0x05 ∷ []) (0xFF ∷ [])
      (omega arith, (omega arith, tt)) (omega arith) wire-one (omega arith, (omega arith, tt))
      (omega arith)

handle-IsFitted_example : IsFitted (handle (Event.array_start 3) (clean none half_map))
handle-IsFitted_example =
    handle-IsFitted (Event.array_start 3) (clean none half_map) (omega arith)
      (tt, (((omega arith, omega arith), (tt, tt, tt)), tt))

load-RootFits_example : RootFits (some one)
load-RootFits_example =
    load-RootFits sample_ops always (0x9F ∷ 0x05 ∷ 0xFF ∷ []) empty_result (loaded (some one) 3)
      (omega arith, (omega arith, (omega arith, tt))) load-one
