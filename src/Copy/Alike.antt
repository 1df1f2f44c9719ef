-- ===== src/Copy/Alike.antt =====
-- A copy and its item have the same encoding: cbor_serialize does not see capacities and code point
-- counts.
use libcbor.Base.{ℕ, ◌≡◌, refl, fun_ext, List, [], ◌∷◌, length}
use libcbor.Builder.Plenty.{grown}
use libcbor.Containers.{string_of}
use libcbor.Copy.Copied.{copied, copied_items, copied_pairs}
use libcbor.Encoders.{Output}
use libcbor.Items.{StringData, Item, Items, Pairs, count, count_pairs}
use libcbor.Load.Decoded.{strings_of}
use libcbor.Loaders.{FloatOps}
use libcbor.Serialization.{
  serialize, serialize_items, serialize_pairs, serialize_string_chunks, serialize_string,
  serialize_definite_string, write_next, array_start, map_start,
}

string-alike :
    (s : StringData) → serialize_definite_string (string_of s.bytes) ≡ serialize_definite_string s
unfolding serialize_definite_string string_of
string-alike s = refl

chunks-alike :
    (cs : List StringData) (size : ℕ) (so_far : Output)
    → serialize_string_chunks (strings_of cs) size so_far ≡ serialize_string_chunks cs size so_far
unfolding serialize_string_chunks serialize_definite_string string_of
chunks-alike [] size so_far = refl
chunks-alike (c ∷ cs) size so_far =
    chunks-alike cs size (write_next size (serialize_definite_string c) so_far)

indef_string-alike :
    (capacity : ℕ) (cs : List StringData)
    → serialize_string (grown (length cs)) (strings_of cs) ≡ serialize_string capacity cs
unfolding serialize_string
indef_string-alike capacity cs = fun_ext λ size. rw (chunks-alike cs size _) refl

count-copied : (xs : Items) → count (copied_items xs) ≡ count xs
count-copied Items.nil = refl
count-copied (Items.cons x xs) = rw (count-copied xs) refl

count_pairs-copied : (ps : Pairs) → count_pairs (copied_pairs ps) ≡ count_pairs ps
count_pairs-copied Pairs.end = refl
count_pairs-copied (Pairs.pair k v ps) = rw (count_pairs-copied ps) refl

mutual
  unfolding serialize serialize_items serialize_pairs

  pub serialize-alike : (ops : FloatOps) (x : Item) → serialize ops (copied x) ≡ serialize ops x
  serialize-alike ops (Item.uint w v) = refl
  serialize-alike ops (Item.negint w v) = refl
  serialize-alike ops (Item.bytestring bytes) = refl
  serialize-alike ops (Item.indef_bytestring capacity cs) = refl
  serialize-alike ops (Item.string s) = string-alike s
  serialize-alike ops (Item.indef_string capacity cs) = indef_string-alike capacity cs
  serialize-alike ops (Item.array d allocated xs) =
      fun_ext
        λ size. rw (count-copied xs, items-alike ops xs size (array_start d (count xs) size)) refl
  serialize-alike ops (Item.map d allocated ps) = fun_ext λ size.
      rw (count_pairs-copied ps, pairs-alike ops ps size (map_start d (count_pairs ps) size)) refl
  serialize-alike ops (Item.tag v x) = fun_ext λ size. rw (serialize-alike ops x) refl
  serialize-alike ops (Item.ctrl v) = refl
  serialize-alike ops (Item.float2 v) = refl
  serialize-alike ops (Item.float4 v) = refl
  serialize-alike ops (Item.float8 v) = refl

  items-alike :
      (ops : FloatOps) (xs : Items) (size : ℕ) (so_far : Output)
      → serialize_items ops (copied_items xs) size so_far ≡ serialize_items ops xs size so_far
  items-alike ops Items.nil size so_far = refl
  items-alike ops (Items.cons x xs) size so_far =
      rw (serialize-alike ops x)
        (items-alike ops xs size (write_next size (serialize ops x) so_far))

  pairs-alike :
      (ops : FloatOps) (ps : Pairs) (size : ℕ) (so_far : Output)
      → serialize_pairs ops (copied_pairs ps) size so_far ≡ serialize_pairs ops ps size so_far
  pairs-alike ops Pairs.end size so_far = refl
  pairs-alike ops (Pairs.pair k v ps) size so_far =
      rw (serialize-alike ops k, serialize-alike ops v)
        (pairs-alike ops ps size
          (write_next size (serialize ops v) (write_next size (serialize ops k) so_far)))
