-- ===== src/Copy/Definite/Combined.antt =====
-- The item that cbor_copy_definite is to return.
use libcbor.Base.{◌^◌, ◌<◌, ◌≡◌, ◌⊎◌, refl, length}
use libcbor.Containers.{string_of}
use libcbor.Copy.Definite.{joined, chunk_bytes}
use libcbor.Items.{Metadata, Item, Items, Pairs, count, count_pairs}

-- Chunks are joined, and containers are definite and exactly full.
abbrev mutual
  pub combined : Item → Item
  combined (Item.uint w v) = Item.uint w v
  combined (Item.negint w v) = Item.negint w v
  combined (Item.bytestring bytes) = Item.bytestring bytes
  combined (Item.indef_bytestring capacity cs) = Item.bytestring (joined cs)
  combined (Item.string s) = Item.string (string_of s.bytes)
  combined (Item.indef_string capacity cs) = Item.string (string_of (joined (chunk_bytes cs)))
  combined (Item.array d allocated xs) = Item.array Metadata.definite (count xs) (combined_items xs)
  combined (Item.map d allocated ps) =
      Item.map Metadata.definite (count_pairs ps) (combined_pairs ps)
  combined (Item.tag v x) = Item.tag v (combined x)
  combined (Item.ctrl v) = Item.ctrl v
  combined (Item.float2 v) = Item.float2 v
  combined (Item.float4 v) = Item.float4 v
  combined (Item.float8 v) = Item.float8 v

  pub combined_items : Items → Items
  combined_items Items.nil = Items.nil
  combined_items (Items.cons x xs) = Items.cons (combined x) (combined_items xs)

  pub combined_pairs : Pairs → Pairs
  combined_pairs Pairs.end = Pairs.end
  combined_pairs (Pairs.pair k v ps) = Pairs.pair (combined k) (combined v) (combined_pairs ps)

-- Sizes in bytes do not wrap: containers have less than 2 ^ 55 members, and the chunks of a string less
-- than 2 ^ 64 bytes together.
abbrev mutual
  pub IsCombinable : Item → Type 0
  IsCombinable (Item.indef_bytestring capacity cs) = length (joined cs) < 2 ^ 64
  IsCombinable (Item.indef_string capacity cs) = length (joined (chunk_bytes cs)) < 2 ^ 64
  IsCombinable (Item.array d allocated xs) = (count xs < 2 ^ 55) × AreCombinable xs
  IsCombinable (Item.map d allocated ps) = (count_pairs ps < 2 ^ 55) × PairsAreCombinable ps
  IsCombinable (Item.tag v x) = IsCombinable x
  IsCombinable x = Unit {0}

  pub AreCombinable : Items → Type 0
  AreCombinable Items.nil = Unit {0}
  AreCombinable (Items.cons x xs) = IsCombinable x × AreCombinable xs

  pub PairsAreCombinable : Pairs → Type 0
  PairsAreCombinable Pairs.end = Unit {0}
  PairsAreCombinable (Pairs.pair k v ps) = IsCombinable k × IsCombinable v × PairsAreCombinable ps

-- A negative integer or an indefinite string occurs.
abbrev mutual
  pub IsFragile : Item → Type 0
  IsFragile (Item.negint w v) = Unit {0}
  IsFragile (Item.indef_bytestring capacity cs) = Unit {0}
  IsFragile (Item.indef_string capacity cs) = Unit {0}
  IsFragile (Item.array d allocated xs) = AreFragile xs
  IsFragile (Item.map d allocated ps) = PairsAreFragile ps
  IsFragile (Item.tag v x) = IsFragile x
  IsFragile x = ⊥

  pub AreFragile : Items → Type 0
  AreFragile Items.nil = ⊥
  AreFragile (Items.cons x xs) = IsFragile x ⊎ AreFragile xs

  pub PairsAreFragile : Pairs → Type 0
  PairsAreFragile Pairs.end = ⊥
  PairsAreFragile (Pairs.pair k v ps) = IsFragile k ⊎ (IsFragile v ⊎ PairsAreFragile ps)

-- No part of the item has an indefinite length.
abbrev mutual
  pub IsDefinite : Item → Type 0
  IsDefinite (Item.indef_bytestring capacity cs) = ⊥
  IsDefinite (Item.indef_string capacity cs) = ⊥
  IsDefinite (Item.array d allocated xs) = (d ≡ Metadata.definite) × AreDefinite xs
  IsDefinite (Item.map d allocated ps) = (d ≡ Metadata.definite) × PairsAreDefinite ps
  IsDefinite (Item.tag v x) = IsDefinite x
  IsDefinite x = Unit {0}

  pub AreDefinite : Items → Type 0
  AreDefinite Items.nil = Unit {0}
  AreDefinite (Items.cons x xs) = IsDefinite x × AreDefinite xs

  pub PairsAreDefinite : Pairs → Type 0
  PairsAreDefinite Pairs.end = Unit {0}
  PairsAreDefinite (Pairs.pair k v ps) = IsDefinite k × IsDefinite v × PairsAreDefinite ps

mutual
  pub combined-IsDefinite : (x : Item) → IsDefinite (combined x)
  combined-IsDefinite (Item.array d allocated xs) = (refl, combined-AreDefinite xs)
  combined-IsDefinite (Item.map d allocated ps) = (refl, combined-PairsAreDefinite ps)
  combined-IsDefinite (Item.tag v x) = combined-IsDefinite x
  combined-IsDefinite (Item.uint w v) = tt
  combined-IsDefinite (Item.negint w v) = tt
  combined-IsDefinite (Item.bytestring bytes) = tt
  combined-IsDefinite (Item.indef_bytestring capacity cs) = tt
  combined-IsDefinite (Item.string s) = tt
  combined-IsDefinite (Item.indef_string capacity cs) = tt
  combined-IsDefinite (Item.ctrl v) = tt
  combined-IsDefinite (Item.float2 v) = tt
  combined-IsDefinite (Item.float4 v) = tt
  combined-IsDefinite (Item.float8 v) = tt

  combined-AreDefinite : (xs : Items) → AreDefinite (combined_items xs)
  combined-AreDefinite Items.nil = tt
  combined-AreDefinite (Items.cons x xs) = (combined-IsDefinite x, combined-AreDefinite xs)

  combined-PairsAreDefinite : (ps : Pairs) → PairsAreDefinite (combined_pairs ps)
  combined-PairsAreDefinite Pairs.end = tt
  combined-PairsAreDefinite (Pairs.pair k v ps) =
      (combined-IsDefinite k, combined-IsDefinite v, combined-PairsAreDefinite ps)
