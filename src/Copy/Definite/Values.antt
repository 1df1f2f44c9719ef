-- ===== src/Copy/Definite/Values.antt =====
-- The value that an item stands for in the data model of RFC 8949, which cbor_copy_definite keeps.
use libcbor.Base.{ℕ, ◌≡◌, refl, ap, ◌∙◌, List, [], ◌∷◌}
use libcbor.Containers.{string_of}
use libcbor.Copy.Definite.{joined, chunk_bytes}
use libcbor.Copy.Definite.Combined.{combined, combined_items, combined_pairs}
use libcbor.Items.{StringData, Item, Items, Pairs}

-- The values of the data model: how a length is given, and how a string is cut, is forgotten.
mutual
  pub data Value : Type 0 where
    integer : ℕ → Value
    negative : ℕ → Value
    byte_string text_string : List ℕ → Value
    list : Values → Value
    dictionary : Entries → Value
    tagged : ℕ → Value → Value
    simple : ℕ → Value
    half single double : ℕ → Value

  pub data Values : Type 0 where
    nil : Values
    cons : Value → Values → Values

  pub data Entries : Type 0 where
    end : Entries
    entry : Value → Value → Entries → Entries

-- Text in pieces, from the first on.
unfoldable pub in_order : List (List ℕ) → List ℕ
in_order [] = []
in_order ([] ∷ pieces) = in_order pieces
in_order ((b ∷ piece) ∷ pieces) = b ∷ in_order (piece ∷ pieces)

abbrev pub texts : List StringData → List (List ℕ)
texts [] = []
texts (s ∷ rest) = s.bytes ∷ texts rest

joined-in_order : (pieces : List (List ℕ)) → joined pieces ≡ in_order pieces
unfolding joined in_order
joined-in_order [] = refl
joined-in_order ([] ∷ pieces) = joined-in_order pieces
joined-in_order ((b ∷ piece) ∷ pieces) = ap (λ t. b ∷ t) (joined-in_order (piece ∷ pieces))

chunk_bytes-texts : (cs : List StringData) → chunk_bytes cs ≡ texts cs
chunk_bytes-texts [] = refl
chunk_bytes-texts (s ∷ rest) = ap (λ t. s.bytes ∷ t) (chunk_bytes-texts rest)

abbrev mutual
  pub value_of : Item → Value
  value_of (Item.uint w v) = Value.integer v
  value_of (Item.negint w v) = Value.negative v
  value_of (Item.bytestring bytes) = Value.byte_string bytes
  value_of (Item.indef_bytestring capacity cs) = Value.byte_string (in_order cs)
  value_of (Item.string s) = Value.text_string s.bytes
  value_of (Item.indef_string capacity cs) = Value.text_string (in_order (texts cs))
  value_of (Item.array d allocated xs) = Value.list (values_of xs)
  value_of (Item.map d allocated ps) = Value.dictionary (entries_of ps)
  value_of (Item.tag v x) = Value.tagged v (value_of x)
  value_of (Item.ctrl v) = Value.simple v
  value_of (Item.float2 v) = Value.half v
  value_of (Item.float4 v) = Value.single v
  value_of (Item.float8 v) = Value.double v

  pub values_of : Items → Values
  values_of Items.nil = Values.nil
  values_of (Items.cons x xs) = Values.cons (value_of x) (values_of xs)

  pub entries_of : Pairs → Entries
  entries_of Pairs.end = Entries.end
  entries_of (Pairs.pair k v ps) = Entries.entry (value_of k) (value_of v) (entries_of ps)

mutual
  unfolding string_of

  pub combined-value : (x : Item) → value_of (combined x) ≡ value_of x
  combined-value (Item.array d allocated xs) = ap (λ t. Value.list t) (combined-values xs)
  combined-value (Item.map d allocated ps) = ap (λ t. Value.dictionary t) (combined-entries ps)
  combined-value (Item.tag v x) = ap (λ t. Value.tagged v t) (combined-value x)
  combined-value (Item.uint w v) = refl
  combined-value (Item.negint w v) = refl
  combined-value (Item.bytestring bytes) = refl
  combined-value (Item.indef_bytestring capacity cs) =
      ap (λ t. Value.byte_string t) (joined-in_order cs)
  combined-value (Item.string s) = refl
  combined-value (Item.indef_string capacity cs) =
      ap (λ t. Value.text_string t)
        (joined-in_order (chunk_bytes cs) ∙ ap in_order (chunk_bytes-texts cs))
  combined-value (Item.ctrl v) = refl
  combined-value (Item.float2 v) = refl
  combined-value (Item.float4 v) = refl
  combined-value (Item.float8 v) = refl

  combined-values : (xs : Items) → values_of (combined_items xs) ≡ values_of xs
  combined-values Items.nil = refl
  combined-values (Items.cons x xs) = rw (combined-value x, combined-values xs) refl

  combined-entries : (ps : Pairs) → entries_of (combined_pairs ps) ≡ entries_of ps
  combined-entries Pairs.end = refl
  combined-entries (Pairs.pair k v ps) =
      rw (combined-value k, combined-value v, combined-entries ps) refl
