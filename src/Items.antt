-- ===== src/Items.antt =====
-- src/cbor/data.h: `cbor_item_t`, as the tree that its pointers span. A complete item holds no NULL;
-- items under construction stand on the builder's stack. Reference counts and the sharing of subtrees
-- are not part of the tree.
use libcbor.Base.{ℕ, suc, ◌^◌, ◌<◌, List, All, length}

-- `_cbor_dst_metadata`.
pub data Metadata : Type 0 where
  definite indefinite : Metadata

-- `cbor_int_width`.
pub data IntWidth : Type 0 where
  int8 int16 int32 int64 : IntWidth

-- A definite string: `codepoint_count` of its metadata, and its bytes; `length` is their number.
pub record StringData : Type 0 where
  pub codepoint_count : ℕ
  pub bytes : List ℕ

-- One constructor for each `cbor_type` and each layout of its metadata. The chunks of an indefinite
-- string are definite strings, behind `chunk_capacity`; arrays and maps hold `allocated`, and their
-- `end_ptr` is the number of entries. A float is its bit pattern.
mutual
  pub data Item : Type 0 where
    uint : IntWidth → ℕ → Item
    negint : IntWidth → ℕ → Item
    bytestring : List ℕ → Item
    indef_bytestring : ℕ → List (List ℕ) → Item
    string : StringData → Item
    indef_string : ℕ → List StringData → Item
    array : Metadata → ℕ → Items → Item
    map : Metadata → ℕ → Pairs → Item
    tag : ℕ → Item → Item
    ctrl : ℕ → Item
    float2 : ℕ → Item
    float4 : ℕ → Item
    float8 : ℕ → Item

  pub data Items : Type 0 where
    nil : Items
    cons : Item → Items → Items

  pub data Pairs : Type 0 where
    end : Pairs
    pair : Item → Item → Pairs → Pairs

-- `end_ptr`.
abbrev pub count : Items → ℕ
count Items.nil = 0
count (Items.cons x xs) = suc (count xs)

abbrev pub count_pairs : Pairs → ℕ
count_pairs Pairs.end = 0
count_pairs (Pairs.pair k v ps) = suc (count_pairs ps)

-- `data[end_ptr++] = x`.
abbrev pub snoc : Items → Item → Items
snoc Items.nil y = Items.cons y Items.nil
snoc (Items.cons x xs) y = Items.cons x (snoc xs y)

abbrev pub snoc_pair : Pairs → Item → Item → Pairs
snoc_pair Pairs.end k v = Pairs.pair k v Pairs.end
snoc_pair (Pairs.pair k' v' ps) k v = Pairs.pair k' v' (snoc_pair ps k v)

-- The bound of each width.
abbrev pub width_mod : IntWidth → ℕ
width_mod IntWidth.int8 = 2 ^ 8
width_mod IntWidth.int16 = 2 ^ 16
width_mod IntWidth.int32 = 2 ^ 32
width_mod IntWidth.int64 = 2 ^ 64

abbrev pub IsByteString : List ℕ → Type 0
IsByteString bytes = length bytes < 2 ^ 64

-- The values fit their C types: integers their width, lengths a size_t, floats their bit patterns.
abbrev mutual
  pub IsTyped : Item → Type 0
  IsTyped (Item.uint w v) = v < width_mod w
  IsTyped (Item.negint w v) = v < width_mod w
  IsTyped (Item.bytestring bytes) = IsByteString bytes
  IsTyped (Item.indef_bytestring capacity chunks) = All IsByteString chunks
  IsTyped (Item.string s) = IsByteString s.bytes
  IsTyped (Item.indef_string capacity chunks) = All (λ c. IsByteString c.bytes) chunks
  IsTyped (Item.array d allocated xs) = (count xs < 2 ^ 64) × AreTyped xs
  IsTyped (Item.map d allocated ps) = (count_pairs ps < 2 ^ 64) × PairsAreTyped ps
  IsTyped (Item.tag v x) = (v < 2 ^ 64) × IsTyped x
  IsTyped (Item.ctrl v) = v < 2 ^ 8
  IsTyped (Item.float2 v) = v < 2 ^ 32
  IsTyped (Item.float4 v) = v < 2 ^ 32
  IsTyped (Item.float8 v) = v < 2 ^ 64

  pub AreTyped : Items → Type 0
  AreTyped Items.nil = Unit {0}
  AreTyped (Items.cons x xs) = IsTyped x × AreTyped xs

  pub PairsAreTyped : Pairs → Type 0
  PairsAreTyped Pairs.end = Unit {0}
  PairsAreTyped (Pairs.pair k v ps) = IsTyped k × IsTyped v × PairsAreTyped ps
