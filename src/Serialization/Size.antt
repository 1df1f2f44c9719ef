-- ===== src/Serialization/Size.antt =====
-- src/cbor/serialization.c: the size of an item's encoding, and cbor_serialize_alloc.
use libcbor.Base.{ℕ, List, [], ◌∷◌, Option, none, some, if◌then◌else◌, leb, ◌==◌, length}
use libcbor.Items.{Metadata, IntWidth, StringData, Item, Items, Pairs, count, count_pairs}
use libcbor.Loaders.{FloatOps}
use libcbor.Memory.{safe_signaling_add, Allocator, malloc}
use libcbor.Serialization.{serialize}

-- `kMaxEmbeddedInt`.
abbrev pub max_embedded_int : ℕ
max_embedded_int = 23

unfoldable pub encoded_header_size : ℕ → ℕ
encoded_header_size size =
    if leb size max_embedded_int
    then 1
    else if leb size 0xFF
    then 2
    else if leb size 0xFFFF
    then 3
    else if leb size 0xFFFF_FFFF
    then 5
    else 9

unfoldable pub int_size : IntWidth → ℕ → ℕ
int_size IntWidth.int8 v = if leb v max_embedded_int then 1 else 2
int_size IntWidth.int16 v = 3
int_size IntWidth.int32 v = 5
int_size IntWidth.int64 v = 9

-- A definite string: an empty one is its header, so that the signaling addition meets no 0.
unfoldable pub counted_size : ℕ → ℕ
unfolding encoded_header_size safe_signaling_add
counted_size n =
    if n == 0 then encoded_header_size n else safe_signaling_add (encoded_header_size n) n

unfoldable pub byte_chunks_size : List (List ℕ) → ℕ → ℕ
unfolding safe_signaling_add counted_size
byte_chunks_size [] so_far = so_far
byte_chunks_size (c ∷ cs) so_far =
    byte_chunks_size cs (safe_signaling_add so_far (counted_size (length c)))

unfoldable pub string_chunks_size : List StringData → ℕ → ℕ
unfolding safe_signaling_add counted_size
string_chunks_size [] so_far = so_far
string_chunks_size (c ∷ cs) so_far =
    string_chunks_size cs (safe_signaling_add so_far (counted_size (length c.bytes)))

-- The leading byte and the break of an indefinite container are two bytes.
unfoldable pub container_size : Metadata → ℕ → ℕ
unfolding encoded_header_size
container_size Metadata.definite n = encoded_header_size n
container_size Metadata.indefinite n = 2

unfoldable mutual
  unfolding encoded_header_size int_size counted_size byte_chunks_size string_chunks_size
      container_size safe_signaling_add

  pub serialized_size : Item → ℕ
  serialized_size (Item.uint w v) = int_size w v
  serialized_size (Item.negint w v) = int_size w v
  serialized_size (Item.bytestring bytes) = counted_size (length bytes)
  serialized_size (Item.indef_bytestring capacity chunks) = byte_chunks_size chunks 2
  serialized_size (Item.string s) = counted_size (length s.bytes)
  serialized_size (Item.indef_string capacity chunks) = string_chunks_size chunks 2
  serialized_size (Item.array d allocated xs) = items_size xs (container_size d (count xs))
  serialized_size (Item.map d allocated ps) = pairs_size ps (container_size d (count_pairs ps))
  serialized_size (Item.tag v x) = safe_signaling_add (encoded_header_size v) (serialized_size x)
  serialized_size (Item.ctrl v) = encoded_header_size v
  serialized_size (Item.float2 v) = 3
  serialized_size (Item.float4 v) = 5
  serialized_size (Item.float8 v) = 9

  pub items_size : Items → ℕ → ℕ
  items_size Items.nil so_far = so_far
  items_size (Items.cons x xs) so_far =
      items_size xs (safe_signaling_add so_far (serialized_size x))

  pub pairs_size : Pairs → ℕ → ℕ
  pairs_size Pairs.end so_far = so_far
  pairs_size (Pairs.pair k v ps) so_far =
      pairs_size ps
        (safe_signaling_add so_far (safe_signaling_add (serialized_size k) (serialized_size v)))

-- What cbor_serialize_alloc returns and leaves in `*buffer` and `*buffer_size`.
pub record Allocated : Type 0 where
  pub written : ℕ
  pub buffer : Option (List ℕ)
  pub buffer_size : ℕ

unfoldable pub serialize_alloc : FloatOps → Allocator → Item → Allocated
serialize_alloc ops answers x =
    if serialized_size x == 0
    then record { written = 0; buffer = none; buffer_size = 0 }
    else if (malloc answers (serialized_size x)).0
    then (let out = serialize ops x (serialized_size x) in
        record { written = out.written; buffer = some out.stored; buffer_size = serialized_size x })
    else record { written = 0; buffer = none; buffer_size = 0 }
