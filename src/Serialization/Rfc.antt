-- ===== src/Serialization/Rfc.antt =====
-- The encodings of RFC 8949, as a relation that has nothing of the code's in it but the item, and
-- src/cbor/serialization.c against it.
use libcbor.Base.{
  ℕ, ◌+◌, ◌*◌, ◌^◌, ◌%◌, ◌≤◌, ◌<◌, ◌≡◌, refl, ap, subst, arith, List, [], ◌∷◌, ◌++◌, true, false,
  ltb,
}
use libcbor.Encoders.Headers.{header8, header16, header32, header64, header}
use libcbor.Encoding.Halves.{IsHalf, half_bits-IsHalf}
use libcbor.Items.{Metadata, IntWidth, StringData, Item, Items, Pairs, IsTyped, count, count_pairs}
use libcbor.Loaders.{FloatOps}
use libcbor.Serialization.{serialize}
use libcbor.Serialization.Emits.{Emits}
use libcbor.Serialization.Refines.{serialize-Emits}
use libcbor.Serialization.Wire.{
  int_header, counted_bytes, byte_chunks, string_chunks, front, back, wire, wire_items, wire_pairs,
}

module _ (ops : FloatOps) where
  -- Simple values stand in the leading byte below 24, and behind it from 32 on; those between have no
  -- encoding. A half float is the half that is to be written for its float; a NaN is the quiet one.
  mutual
    pub data Encodes : Item → List ℕ → Type 0 where
      uint : (w : IntWidth) (v : ℕ) → Encodes (Item.uint w v) (int_header 0x00 w v)
      negint : (w : IntWidth) (v : ℕ) → Encodes (Item.negint w v) (int_header 0x20 w v)
      bytestring : (bytes : List ℕ) → Encodes (Item.bytestring bytes) (counted_bytes 0x40 bytes)
      indef_bytestring :
          (capacity : ℕ) (cs : List (List ℕ))
          → Encodes (Item.indef_bytestring capacity cs) (0x5F ∷ (byte_chunks cs ++ 0xFF ∷ []))
      string : (s : StringData) → Encodes (Item.string s) (counted_bytes 0x60 s.bytes)
      indef_string :
          (capacity : ℕ) (cs : List StringData)
          → Encodes (Item.indef_string capacity cs) (0x7F ∷ (string_chunks cs ++ 0xFF ∷ []))
      array :
          (d : Metadata) (allocated : ℕ) {xs : Items} {bytes : List ℕ}
          → EncodesAll xs bytes
          → Encodes (Item.array d allocated xs) (front d 0x80 (count xs) ++ (bytes ++ back d))
      map :
          (d : Metadata) (allocated : ℕ) {ps : Pairs} {bytes : List ℕ}
          → EncodesPairs ps bytes
          → Encodes (Item.map d allocated ps) (front d 0xA0 (count_pairs ps) ++ (bytes ++ back d))
      tag :
          (v : ℕ) {x : Item} {bytes : List ℕ}
          → Encodes x bytes
          → Encodes (Item.tag v x) (header 0xC0 v ++ bytes)
      simple : (v : ℕ) → v < 24 → Encodes (Item.ctrl v) ((0xE0 + v) ∷ [])
      extended_simple : (v : ℕ) → 32 ≤ v → v < 256 → Encodes (Item.ctrl v) (0xF8 ∷ v ∷ [])
      half : {v bits : ℕ} → IsHalf v bits → Encodes (Item.float2 v) (header16 0xE0 bits)
      single : (v : ℕ) → v % 2 ^ 31 ≤ 255 * 2 ^ 23 → Encodes (Item.float4 v) (header32 0xE0 v)
      single_nan :
          (v : ℕ) → 255 * 2 ^ 23 < v % 2 ^ 31 → Encodes (Item.float4 v) (header32 0xE0 0x7FC0_0000)
      double : (v : ℕ) → ops.isnan_double v ≡ false → Encodes (Item.float8 v) (header64 0xE0 v)
      double_nan :
          (v : ℕ)
          → ops.isnan_double v ≡ true
          → Encodes (Item.float8 v) (header64 0xE0 0x7FF8_0000_0000_0000)

    pub data EncodesAll : Items → List ℕ → Type 0 where
      nil : EncodesAll Items.nil []
      cons :
          {x : Item} {xs : Items} {first rest : List ℕ}
          → Encodes x first
          → EncodesAll xs rest
          → EncodesAll (Items.cons x xs) (first ++ rest)

    pub data EncodesPairs : Pairs → List ℕ → Type 0 where
      end : EncodesPairs Pairs.end []
      pair :
          {k v : Item} {ps : Pairs} {key value rest : List ℕ}
          → Encodes k key
          → Encodes v value
          → EncodesPairs ps rest
          → EncodesPairs (Pairs.pair k v ps) (key ++ (value ++ rest))

  single-header : (v : ℕ) → v % 2 ^ 31 ≤ 255 * 2 ^ 23 → wire ops (Item.float4 v) ≡ header32 0xE0 v
  unfolding wire
  single-header v h =
      let small : ltb (255 * 2 ^ 23) (v % 2 ^ 31) ≡ false = ground arith in
      rw (ops.isnan_float_law v, small) refl

  nan-header :
      (v : ℕ) → 255 * 2 ^ 23 < v % 2 ^ 31 → wire ops (Item.float4 v) ≡ header32 0xE0 0x7FC0_0000
  unfolding wire
  nan-header v h =
      let large : ltb (255 * 2 ^ 23) (v % 2 ^ 31) ≡ true = ground arith in
      rw (ops.isnan_float_law v, large) refl

  mutual
    unfolding wire header8

    wire-Encodes : {x : Item} {bytes : List ℕ} → Encodes x bytes → wire ops x ≡ bytes
    wire-Encodes (Encodes.uint w v) = refl
    wire-Encodes (Encodes.negint w v) = refl
    wire-Encodes (Encodes.bytestring bytes) = refl
    wire-Encodes (Encodes.indef_bytestring capacity cs) = refl
    wire-Encodes (Encodes.string s) = refl
    wire-Encodes (Encodes.indef_string capacity cs) = refl
    wire-Encodes (Encodes.array d allocated {xs} e) =
        ap (λ b. front d 0x80 (count xs) ++ (b ++ back d)) (wire_items-Encodes e)
    wire-Encodes (Encodes.map d allocated {ps} e) =
        ap (λ b. front d 0xA0 (count_pairs ps) ++ (b ++ back d)) (wire_pairs-Encodes e)
    wire-Encodes (Encodes.tag v e) = ap (λ b. header 0xC0 v ++ b) (wire-Encodes e)
    wire-Encodes (Encodes.simple v h) = ground arith
    wire-Encodes (Encodes.extended_simple v h k) = ground arith
    wire-Encodes (Encodes.half e) = ap (λ n. header16 0xE0 n) (half_bits-IsHalf ops e)
    wire-Encodes (Encodes.single v h) = single-header v h
    wire-Encodes (Encodes.single_nan v h) = nan-header v h
    wire-Encodes (Encodes.double v e) = rw e refl
    wire-Encodes (Encodes.double_nan v e) = rw e refl

    wire_items-Encodes :
        {xs : Items} {bytes : List ℕ} → EncodesAll xs bytes → wire_items ops xs ≡ bytes
    wire_items-Encodes EncodesAll.nil = refl
    wire_items-Encodes (EncodesAll.cons e es) = rw (wire-Encodes e, wire_items-Encodes es) refl

    wire_pairs-Encodes :
        {ps : Pairs} {bytes : List ℕ} → EncodesPairs ps bytes → wire_pairs ops ps ≡ bytes
    wire_pairs-Encodes EncodesPairs.end = refl
    wire_pairs-Encodes (EncodesPairs.pair k v es) =
        rw (wire-Encodes k, wire-Encodes v, wire_pairs-Encodes es) refl

-- On an item whose values fit their C types and that RFC 8949 can encode, cbor_serialize returns the
-- length of that encoding and has stored exactly it, if it fits into the buffer; otherwise it returns
-- 0. In both cases it has stored no more bytes than the buffer has. What has an encoding here has no
-- simple value from 24 to 31 and no half float with an exponent too large for a half; a half float is
-- encoded as the half that is to be written for its float (`IsHalf`), integers keep the width of
-- their item, and lengths are as short as can be.
pub serialize-Encodes :
    (ops : FloatOps) {x : Item} {bytes : List ℕ}
    → IsTyped x
    → Encodes ops x bytes
    → Emits (serialize ops x) bytes
serialize-Encodes ops {x} {bytes} typed e =
    subst (Emits (serialize ops x)) (wire-Encodes ops e) (serialize-Emits ops x typed)
