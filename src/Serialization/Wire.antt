-- ===== src/Serialization/Wire.antt =====
-- The encoding of an item that cbor_serialize is to write, headers and members in order. A half float is
-- what `half_bits` makes of it; Rfc.antt has the encodings of RFC 8949 as a relation.
use libcbor.Base.{◌+◌}
use libcbor.Base.{ℕ, List, [], ◌∷◌, ◌++◌, length, if◌then◌else◌}
use libcbor.Encoders.Headers.{header8, header16, header32, header64, header}
use libcbor.Encoding.{half_bits}
use libcbor.Items.{Metadata, IntWidth, StringData, Item, Items, Pairs, count, count_pairs}
use libcbor.Loaders.{FloatOps}

-- An integer keeps the width of its item.
unfoldable pub int_header : ℕ → IntWidth → ℕ → List ℕ
unfolding header8 header16 header32 header64
int_header offset IntWidth.int8 v = header8 offset v
int_header offset IntWidth.int16 v = header16 offset v
int_header offset IntWidth.int32 v = header32 offset v
int_header offset IntWidth.int64 v = header64 offset v

-- A length and the bytes of that number.
unfoldable pub counted_bytes : ℕ → List ℕ → List ℕ
counted_bytes offset bytes = header offset (length bytes) ++ bytes

unfoldable pub byte_chunks : List (List ℕ) → List ℕ
byte_chunks [] = []
byte_chunks (c ∷ cs) = counted_bytes 0x40 c ++ byte_chunks cs

unfoldable pub string_chunks : List StringData → List ℕ
string_chunks [] = []
string_chunks (c ∷ cs) = counted_bytes 0x60 c.bytes ++ string_chunks cs

-- The front and the end of a container.
abbrev pub front : Metadata → ℕ → ℕ → List ℕ
front Metadata.definite offset n = header offset n
front Metadata.indefinite offset n = (offset + 0x1F) ∷ []

abbrev pub back : Metadata → List ℕ
back Metadata.definite = []
back Metadata.indefinite = 0xFF ∷ []

module _ (ops : FloatOps) where
  abbrev pub single_bits : ℕ → ℕ
  single_bits v = if ops.isnan_float v then 0x7FC0_0000 else v

  abbrev pub double_bits : ℕ → ℕ
  double_bits v = if ops.isnan_double v then 0x7FF8_0000_0000_0000 else v

  unfoldable mutual
    pub wire : Item → List ℕ
    wire (Item.uint w v) = int_header 0x00 w v
    wire (Item.negint w v) = int_header 0x20 w v
    wire (Item.bytestring bytes) = counted_bytes 0x40 bytes
    wire (Item.indef_bytestring capacity chunks) = 0x5F ∷ (byte_chunks chunks ++ 0xFF ∷ [])
    wire (Item.string s) = counted_bytes 0x60 s.bytes
    wire (Item.indef_string capacity chunks) = 0x7F ∷ (string_chunks chunks ++ 0xFF ∷ [])
    wire (Item.array d allocated xs) = front d 0x80 (count xs) ++ (wire_items xs ++ back d)
    wire (Item.map d allocated ps) = front d 0xA0 (count_pairs ps) ++ (wire_pairs ps ++ back d)
    wire (Item.tag v x) = header 0xC0 v ++ wire x
    wire (Item.ctrl v) = header8 0xE0 v
    wire (Item.float2 v) = header16 0xE0 (half_bits ops v)
    wire (Item.float4 v) = header32 0xE0 (single_bits v)
    wire (Item.float8 v) = header64 0xE0 (double_bits v)

    pub wire_items : Items → List ℕ
    wire_items Items.nil = []
    wire_items (Items.cons x xs) = wire x ++ wire_items xs

    pub wire_pairs : Pairs → List ℕ
    wire_pairs Pairs.end = []
    wire_pairs (Pairs.pair k v ps) = wire k ++ (wire v ++ wire_pairs ps)
