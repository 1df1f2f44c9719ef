-- ===== src/Copy/Copied.antt =====
-- The item that cbor_copy is to return: the reference for it.
use libcbor.Base.{◌^◌, ◌<◌, ◌⊎◌, length}
use libcbor.Builder.Plenty.{grown}
use libcbor.Containers.{string_of}
use libcbor.Items.{Item, Items, Pairs, count, count_pairs}
use libcbor.Load.Decoded.{capacity_of, strings_of}

-- Containers have just the room that their members took, and code points are counted again.
abbrev mutual
  pub copied : Item → Item
  copied (Item.uint w v) = Item.uint w v
  copied (Item.negint w v) = Item.negint w v
  copied (Item.bytestring bytes) = Item.bytestring bytes
  copied (Item.indef_bytestring capacity cs) = Item.indef_bytestring (grown (length cs)) cs
  copied (Item.string s) = Item.string (string_of s.bytes)
  copied (Item.indef_string capacity cs) = Item.indef_string (grown (length cs)) (strings_of cs)
  copied (Item.array d allocated xs) = Item.array d (capacity_of d (count xs)) (copied_items xs)
  copied (Item.map d allocated ps) = Item.map d (capacity_of d (count_pairs ps)) (copied_pairs ps)
  copied (Item.tag v x) = Item.tag v (copied x)
  copied (Item.ctrl v) = Item.ctrl v
  copied (Item.float2 v) = Item.float2 v
  copied (Item.float4 v) = Item.float4 v
  copied (Item.float8 v) = Item.float8 v

  pub copied_items : Items → Items
  copied_items Items.nil = Items.nil
  copied_items (Items.cons x xs) = Items.cons (copied x) (copied_items xs)

  pub copied_pairs : Pairs → Pairs
  copied_pairs Pairs.end = Pairs.end
  copied_pairs (Pairs.pair k v ps) = Pairs.pair (copied k) (copied v) (copied_pairs ps)

-- Containers have less than 2 ^ 55 members, so that no size in bytes wraps.
abbrev mutual
  pub IsCopyable : Item → Type 0
  IsCopyable (Item.indef_bytestring capacity cs) = length cs < 2 ^ 55
  IsCopyable (Item.indef_string capacity cs) = length cs < 2 ^ 55
  IsCopyable (Item.array d allocated xs) = (count xs < 2 ^ 55) × AreCopyable xs
  IsCopyable (Item.map d allocated ps) = (count_pairs ps < 2 ^ 55) × PairsAreCopyable ps
  IsCopyable (Item.tag v x) = IsCopyable x
  IsCopyable x = Unit {0}

  pub AreCopyable : Items → Type 0
  AreCopyable Items.nil = Unit {0}
  AreCopyable (Items.cons x xs) = IsCopyable x × AreCopyable xs

  pub PairsAreCopyable : Pairs → Type 0
  PairsAreCopyable Pairs.end = Unit {0}
  PairsAreCopyable (Pairs.pair k v ps) = IsCopyable k × IsCopyable v × PairsAreCopyable ps

-- A negative integer occurs.
abbrev mutual
  pub HasNegint : Item → Type 0
  HasNegint (Item.negint w v) = Unit {0}
  HasNegint (Item.array d allocated xs) = HaveNegint xs
  HasNegint (Item.map d allocated ps) = PairsHaveNegint ps
  HasNegint (Item.tag v x) = HasNegint x
  HasNegint x = ⊥

  pub HaveNegint : Items → Type 0
  HaveNegint Items.nil = ⊥
  HaveNegint (Items.cons x xs) = HasNegint x ⊎ HaveNegint xs

  pub PairsHaveNegint : Pairs → Type 0
  PairsHaveNegint Pairs.end = ⊥
  PairsHaveNegint (Pairs.pair k v ps) = HasNegint k ⊎ (HasNegint v ⊎ PairsHaveNegint ps)
