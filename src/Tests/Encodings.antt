-- ===== src/Tests/Encodings.antt =====
-- cbor_serialize on a negative subnormal half and a simple value.
use libcbor.Base.{◌^◌, arith, [], ◌∷◌, true}
use libcbor.Encoders.Headers.{header, header8, header16}
use libcbor.Encoding.Halves.{IsHalf}
use libcbor.Items.{Metadata, Item, Items}
use libcbor.Serialization.{serialize}
use libcbor.Serialization.Emits.{Emits}
use libcbor.Serialization.Rfc.{Encodes, EncodesAll, serialize-Encodes}
use libcbor.Tests.{sample_ops}

abbrev halves : Item
halves =
    Item.array Metadata.definite 2
      (Items.cons (Item.float2 0xB440_0000) (Items.cons (Item.ctrl 32) Items.nil))

serialize-Encodes_example :
    Emits (serialize sample_ops halves) (0x82 ∷ 0xF9 ∷ 0x80 ∷ 0x03 ∷ 0xF8 ∷ 0x20 ∷ [])
unfolding header header8 header16
serialize-Encodes_example =
    serialize-Encodes sample_ops (omega arith, (omega arith, (omega arith, tt)))
      (Encodes.array Metadata.definite 2 (
        EncodesAll.cons
          (Encodes.half (
            IsHalf.subnormal true 1 (2 ^ 22) 3 (2 ^ 21) (omega arith) (omega arith) (omega arith)
              (omega arith)))
          (EncodesAll.cons (Encodes.extended_simple 32 (omega arith) (omega arith))
            EncodesAll.nil)))
