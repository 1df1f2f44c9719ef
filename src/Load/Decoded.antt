-- ===== src/Load/Decoded.antt =====
-- The item that cbor_load builds from the encoding of an item: the reference for its builder.
use libcbor.Base.{ℕ, suc, ◌^◌, ◌≤◌, ◌<◌, ◌≡◌, refl, ap, List, [], ◌∷◌, All, length, max}
use libcbor.Base.{Bool, true, false, if◌then◌else◌, ltb, ◌==◌, ◌/◌, ◌%◌, arith}
use libcbor.Builder.Plenty.{grown}
use libcbor.Containers.{string_of}
use libcbor.Encoding.{half_bits, half_of_normal}
use libcbor.Items.{
  Metadata, StringData, Item, Items, Pairs, count, count_pairs, snoc, snoc_pair, width_mod,
  IsByteString,
}
use libcbor.Loaders.{FloatOps, half_value}
use libcbor.Serialization.Wire.{single_bits, double_bits}

-- Definite containers are exactly full; indefinite ones have grown member by member.
abbrev pub capacity_of : Metadata → ℕ → ℕ
capacity_of Metadata.definite n = n
capacity_of Metadata.indefinite n = grown n

-- The code points are counted again.
abbrev pub strings_of : List StringData → List StringData
strings_of [] = []
strings_of (c ∷ cs) = string_of c.bytes ∷ strings_of cs

module _ (ops : FloatOps) where
  -- Floats are what the decoder makes of their encoding.
  abbrev mutual
    pub decoded : Item → Item
    decoded (Item.uint w v) = Item.uint w v
    decoded (Item.negint w v) = Item.negint w v
    decoded (Item.bytestring bytes) = Item.bytestring bytes
    decoded (Item.indef_bytestring capacity cs) = Item.indef_bytestring (grown (length cs)) cs
    decoded (Item.string s) = Item.string (string_of s.bytes)
    decoded (Item.indef_string capacity cs) = Item.indef_string (grown (length cs)) (strings_of cs)
    decoded (Item.array d allocated xs) = Item.array d (capacity_of d (count xs)) (decoded_items xs)
    decoded (Item.map d allocated ps) =
        Item.map d (capacity_of d (count_pairs ps)) (decoded_pairs ps)
    decoded (Item.tag v x) = Item.tag v (decoded x)
    decoded (Item.ctrl v) = Item.ctrl v
    decoded (Item.float2 v) = Item.float2 (half_value ops (half_bits ops v))
    decoded (Item.float4 v) = Item.float4 (single_bits ops v)
    decoded (Item.float8 v) = Item.float8 (double_bits ops v)

    pub decoded_items : Items → Items
    decoded_items Items.nil = Items.nil
    decoded_items (Items.cons x xs) = Items.cons (decoded x) (decoded_items xs)

    pub decoded_pairs : Pairs → Pairs
    decoded_pairs Pairs.end = Pairs.end
    decoded_pairs (Pairs.pair k v ps) = Pairs.pair (decoded k) (decoded v) (decoded_pairs ps)

-- The containers that are open at once while the item is decoded.
abbrev mutual
  pub depth : Item → ℕ
  depth (Item.indef_bytestring capacity cs) = 1
  depth (Item.indef_string capacity cs) = 1
  depth (Item.array d allocated xs) = suc (items_depth xs)
  depth (Item.map d allocated ps) = suc (pairs_depth ps)
  depth (Item.tag v x) = suc (depth x)
  depth x = 0

  pub items_depth : Items → ℕ
  items_depth Items.nil = 0
  items_depth (Items.cons x xs) = max (depth x) (items_depth xs)

  pub pairs_depth : Pairs → ℕ
  pairs_depth Pairs.end = 0
  pairs_depth (Pairs.pair k v ps) = max (depth k) (max (depth v) (pairs_depth ps))

-- Items that the decoder builds in full: the values fit their types, containers have less than 2 ^ 55
-- members, so that no size in bytes wraps, and a simple value is one of the four that it knows.
abbrev mutual
  pub IsLoadable : Item → Type 0
  IsLoadable (Item.uint w v) = v < width_mod w
  IsLoadable (Item.negint w v) = v < width_mod w
  IsLoadable (Item.bytestring bytes) = IsByteString bytes
  IsLoadable (Item.indef_bytestring capacity cs) = (length cs < 2 ^ 55) × All IsByteString cs
  IsLoadable (Item.string s) = IsByteString s.bytes
  IsLoadable (Item.indef_string capacity cs) =
      (length cs < 2 ^ 55) × All (λ c. IsByteString c.bytes) cs
  IsLoadable (Item.array d allocated xs) = (count xs < 2 ^ 55) × AreLoadable xs
  IsLoadable (Item.map d allocated ps) = (count_pairs ps < 2 ^ 55) × PairsAreLoadable ps
  IsLoadable (Item.tag v x) = (v < 2 ^ 64) × IsLoadable x
  IsLoadable (Item.ctrl v) = (20 ≤ v) × (v ≤ 23)
  IsLoadable (Item.float2 v) = v < 2 ^ 32
  IsLoadable (Item.float4 v) = v < 2 ^ 32
  IsLoadable (Item.float8 v) = v < 2 ^ 64

  pub AreLoadable : Items → Type 0
  AreLoadable Items.nil = Unit {0}
  AreLoadable (Items.cons x xs) = IsLoadable x × AreLoadable xs

  pub PairsAreLoadable : Pairs → Type 0
  PairsAreLoadable Pairs.end = Unit {0}
  PairsAreLoadable (Pairs.pair k v ps) = IsLoadable k × IsLoadable v × PairsAreLoadable ps

-- Members behind members.
abbrev pub push_items : Items → Items → Items
push_items Items.nil ys = ys
push_items (Items.cons x xs) ys = Items.cons x (push_items xs ys)

abbrev pub push_pairs : Pairs → Pairs → Pairs
push_pairs Pairs.end qs = qs
push_pairs (Pairs.pair k v ps) qs = Pairs.pair k v (push_pairs ps qs)

pub push_items-snoc :
    (xs : Items) (x : Item) (ys : Items)
    → push_items (snoc xs x) ys ≡ push_items xs (Items.cons x ys)
push_items-snoc Items.nil x ys = refl
push_items-snoc (Items.cons z xs) x ys = ap (λ t. Items.cons z t) (push_items-snoc xs x ys)

pub push_pairs-snoc :
    (ps : Pairs) (k v : Item) (qs : Pairs)
    → push_pairs (snoc_pair ps k v) qs ≡ push_pairs ps (Pairs.pair k v qs)
push_pairs-snoc Pairs.end k v qs = refl
push_pairs-snoc (Pairs.pair a b ps) k v qs = ap (λ t. Pairs.pair a b t) (push_pairs-snoc ps k v qs)

pub push_items-nil : (xs : Items) → push_items xs Items.nil ≡ xs
push_items-nil Items.nil = refl
push_items-nil (Items.cons x xs) = ap (λ t. Items.cons x t) (push_items-nil xs)

pub push_pairs-end : (ps : Pairs) → push_pairs ps Pairs.end ≡ ps
push_pairs-end Pairs.end = refl
push_pairs-end (Pairs.pair k v ps) = ap (λ t. Pairs.pair k v t) (push_pairs-end ps)

pub count-snoc : (xs : Items) (x : Item) → count (snoc xs x) ≡ suc (count xs)
count-snoc Items.nil x = refl
count-snoc (Items.cons z xs) x = ap (λ (t : ℕ). suc t) (count-snoc xs x)

pub count_pairs-snoc_pair :
    (ps : Pairs) (k v : Item) → count_pairs (snoc_pair ps k v) ≡ suc (count_pairs ps)
count_pairs-snoc_pair Pairs.end k v = refl
count_pairs-snoc_pair (Pairs.pair a b ps) k v = ap (λ (t : ℕ). suc t) (count_pairs-snoc_pair ps k v)

pub if_lt : (n : ℕ) (c : Bool) (x y : ℕ) → x < n → y < n → (if c then x else y) < n
if_lt n true x y h k = h
if_lt n false x y h k = k

mod_lt : (x : ℕ) → x % 2 ^ 16 < 2 ^ 16
mod_lt x = omega arith

-- A half has sixteen bits.
pub half_bits-lt : (ops : FloatOps) (v : ℕ) → half_bits ops v < 2 ^ 16
unfolding half_bits half_of_normal
half_bits-lt ops v =
    let exp = v / 2 ^ 23 % 2 ^ 8 in
    if_lt (2 ^ 16) (exp == 0xFF) _ _
      (if_lt (2 ^ 16) (ops.isnan_float v) _ _ (omega arith) (mod_lt _))
      (if_lt (2 ^ 16) (exp == 0x00) _ _ (mod_lt _) (
        if_lt (2 ^ 16) (ltb exp 103) _ _ (omega arith)
          (if_lt (2 ^ 16) (ltb exp 113) _ _ (mod_lt _) (mod_lt _))))
