-- ===== src/Copy/Definite/Runs.antt =====
-- cbor_copy_definite on any item, with any allocator: a walk over the item.
use libcbor.Allocation.{Built, Alloc, attempt, ◌>>=◌}
use libcbor.Allocation.Ensures.{Ensures-bind, Ensures-mono, bind-value}
use libcbor.Base.{
  ℕ, ◌+◌, ◌<◌, ◌≡◌, refl, sym, ap, subst, Option, none, some, arith, ◌⊎◌, inl, inr, lt→leb_false,
}
use libcbor.Containers.{array_push, map_add_key, reserve}
use libcbor.Copy.{new_array, new_map, build_tag}
use libcbor.Copy.Definite.{copy_definite, copy_definite_items, copy_definite_pairs, unchecked}
use libcbor.Copy.Definite.Chunks.{combine_bytestring-Gives, combine_string-Gives}
use libcbor.Copy.Definite.Combined.{
  combined, combined_items, combined_pairs, IsCombinable, AreCombinable, PairsAreCombinable,
  IsFragile, AreFragile, PairsAreFragile,
}
use libcbor.Copy.Leaves.{Gives, Gives-pure, build_tag-Gives, new_array-Ensures, new_map-Ensures}
use libcbor.Copy.Runs.{walk}
use libcbor.Items.{Metadata, Item, Items, Pairs, count, count_pairs, snoc, snoc_pair}
use libcbor.Load.Decoded.{
  push_items, push_pairs, push_items-snoc, push_pairs-snoc, push_items-nil, push_pairs-end,
  count-snoc, count_pairs-snoc_pair,
}
use libcbor.Memory.{Allocator}

-- A preallocated container has room: the assertions hold.
granted :
    {A : Type 0} (f : Allocator → Option A × Allocator) (a : A) (answers : Allocator)
    → f answers ≡ (some a, answers)
    → unchecked (attempt f) answers ≡ Built.built a answers
granted {A} f a answers e =
    ap
      (λ (r : Option A × Allocator).
        let b : Built A = elim r.0 [ none ↦ Built.failed r.1 | some a ↦ Built.built a r.1 ] in
        elim b [
          | Built.built a rest ↦ Built.built a rest
          | Built.failed rest ↦ Built.crashed
          | Built.crashed ↦ Built.crashed
        ])
      e

push-room :
    (total : ℕ) (taken : Items) (y : Item) (answers : Allocator)
    → count taken < total
    → array_push Metadata.definite total taken y answers ≡ (some (total, snoc taken y), answers)
unfolding array_push reserve
push-room total taken y answers h = rw (lt→leb_false total (count taken) h) refl

key-room :
    (total : ℕ) (taken : Pairs) (answers : Allocator)
    → count_pairs taken < total
    → map_add_key Metadata.definite total taken answers ≡ (some total, answers)
unfolding map_add_key reserve
key-room total taken answers h = rw (lt→leb_false total (count_pairs taken) h) refl

-- One step of a loop behind an assertion that holds.
after_granted :
    {A : Type 0} (f : Allocator → Option A × Allocator) (k : A → Alloc Item) (a : A) (z : Item)
    (Q : Type 0) (answers : Allocator)
    → f answers ≡ (some a, answers)
    → Gives z Q answers (k a answers)
    → Gives z Q answers ((unchecked (attempt f) >>= k) answers)
after_granted f k a z Q answers e later =
    subst (λ b. Gives z Q answers b)
      (sym (bind-value (unchecked (attempt f)) k a answers answers (granted f a answers e))) later

array_turn :
    (garbage total : ℕ) (taken xs : Items) (x y z : Item) (Q : Type 0) (answers : Allocator)
    → count taken < total
    → Gives y Q answers (copy_definite garbage x answers)
    → ((rest : Allocator)
        → Gives z Q rest (copy_definite_items garbage total (snoc taken y) xs rest))
    → Gives z Q answers (copy_definite_items garbage total taken (Items.cons x xs) answers)
unfolding copy_definite_items
array_turn garbage total taken xs x y z Q answers h one later =
    Ensures-bind (copy_definite garbage x)
      (λ item. unchecked (attempt (array_push Metadata.definite total taken item)) >>= λ p.
        copy_definite_items garbage p.0 p.1 xs)
      one
      (λ item rest e. rw e (
        after_granted (array_push Metadata.definite total taken y)
          (λ p. copy_definite_items garbage p.0 p.1 xs) (total, snoc taken y) z Q rest
          (push-room total taken y rest h) (later rest)))

map_turn :
    (garbage total : ℕ) (taken ps : Pairs) (k v k' v' z : Item) (Q : Type 0) (answers : Allocator)
    → count_pairs taken < total
    → Gives k' Q answers (copy_definite garbage k answers)
    → ((rest : Allocator) → Gives v' Q rest (copy_definite garbage v rest))
    → ((rest : Allocator)
        → Gives z Q rest (copy_definite_pairs garbage total (snoc_pair taken k' v') ps rest))
    → Gives z Q answers (copy_definite_pairs garbage total taken (Pairs.pair k v ps) answers)
unfolding copy_definite_pairs
map_turn garbage total taken ps k v k' v' z Q answers h key value later =
    let more : Item → Item → Alloc Item = λ a b.
      unchecked (attempt (map_add_key Metadata.definite total taken)) >>= λ m.
      copy_definite_pairs garbage m (snoc_pair taken a b) ps in
    Ensures-bind (copy_definite garbage k) (λ a. copy_definite garbage v >>= λ b. more a b) key
      (λ a rest e. rw e (
        Ensures-bind (copy_definite garbage v) (λ b. more k' b) (value rest)
          (λ b last e'. rw e' (
            after_granted (map_add_key Metadata.definite total taken)
              (λ m. copy_definite_pairs garbage m (snoc_pair taken k' v') ps) total z Q last
              (key-room total taken last h) (later last)))))

mutual
  unfolding copy_definite copy_definite_items copy_definite_pairs

  pub walk_definite :
      (garbage : ℕ) (x : Item) (answers : Allocator)
      → IsCombinable x
      → Gives (combined x) (IsFragile x) answers (copy_definite garbage x answers)
  walk_definite garbage (Item.uint w v) answers h = walk garbage (Item.uint w v) answers tt
  walk_definite garbage (Item.negint w v) answers h = walk garbage (Item.negint w v) answers tt
  walk_definite garbage (Item.bytestring bytes) answers h =
      walk garbage (Item.bytestring bytes) answers tt
  walk_definite garbage (Item.indef_bytestring capacity cs) answers h =
      combine_bytestring-Gives cs Unit answers tt h
  walk_definite garbage (Item.string s) answers h = walk garbage (Item.string s) answers tt
  walk_definite garbage (Item.indef_string capacity cs) answers h =
      combine_string-Gives cs Unit answers tt h
  walk_definite garbage (Item.array d allocated xs) answers h =
      Ensures-bind (new_array Metadata.definite (count xs))
        (λ m. copy_definite_items garbage m Items.nil xs)
        (new_array-Ensures Metadata.definite (count xs) (AreFragile xs) answers h.0)
        (λ m rest e. rw e (walk_items garbage (count xs) Items.nil xs rest h.1 (omega arith)))
  walk_definite garbage (Item.map d allocated ps) answers h =
      Ensures-bind (new_map Metadata.definite (count_pairs ps))
        (λ m. copy_definite_pairs garbage m Pairs.end ps)
        (new_map-Ensures Metadata.definite (count_pairs ps) (PairsAreFragile ps) answers h.0)
        (λ m rest e. rw e (walk_pairs garbage (count_pairs ps) Pairs.end ps rest h.1 (omega arith)))
  walk_definite garbage (Item.tag v x) answers h =
      Ensures-bind (copy_definite garbage x) (λ item. build_tag v item)
        (walk_definite garbage x answers h)
        (λ item rest e. rw e (build_tag-Gives v (combined x) (IsFragile x) rest))
  walk_definite garbage (Item.ctrl v) answers h = walk garbage (Item.ctrl v) answers tt
  walk_definite garbage (Item.float2 v) answers h = walk garbage (Item.float2 v) answers tt
  walk_definite garbage (Item.float4 v) answers h = walk garbage (Item.float4 v) answers tt
  walk_definite garbage (Item.float8 v) answers h = walk garbage (Item.float8 v) answers tt

  walk_items :
      (garbage total : ℕ) (taken xs : Items) (answers : Allocator)
      → AreCombinable xs
      → count taken + count xs ≡ total
      → Gives
          (Item.array Metadata.definite total (push_items taken (combined_items xs)))
          (AreFragile xs)
          answers
          (copy_definite_items garbage total taken xs answers)
  walk_items garbage total taken Items.nil answers h all =
      rw (push_items-nil taken) (Gives-pure (Item.array Metadata.definite total taken) ⊥ answers)
  walk_items garbage total taken (Items.cons x xs) answers h all =
      rw (← push_items-snoc taken (combined x) (combined_items xs)) (
        array_turn garbage total taken xs x (combined x) _ (IsFragile x ⊎ AreFragile xs) answers
          (omega arith) (Ensures-mono (λ q. inl q) (walk_definite garbage x answers h.0))
          (λ rest.
            Ensures-mono (λ q. inr q)
              (walk_items garbage total (snoc taken (combined x)) xs rest h.1
                (omega (arith, count-snoc taken (combined x))))))

  walk_pairs :
      (garbage total : ℕ) (taken ps : Pairs) (answers : Allocator)
      → PairsAreCombinable ps
      → count_pairs taken + count_pairs ps ≡ total
      → Gives
          (Item.map Metadata.definite total (push_pairs taken (combined_pairs ps)))
          (PairsAreFragile ps)
          answers
          (copy_definite_pairs garbage total taken ps answers)
  walk_pairs garbage total taken Pairs.end answers h all =
      rw (push_pairs-end taken) (Gives-pure (Item.map Metadata.definite total taken) ⊥ answers)
  walk_pairs garbage total taken (Pairs.pair k v ps) answers h all =
      rw (← push_pairs-snoc taken (combined k) (combined v) (combined_pairs ps)) (
        map_turn garbage total taken ps k v (combined k) (combined v) _
          (IsFragile k ⊎ (IsFragile v ⊎ PairsAreFragile ps)) answers (omega arith)
          (Ensures-mono (λ q. inl q) (walk_definite garbage k answers h.0))
          (λ rest. Ensures-mono (λ q. inr (inl q)) (walk_definite garbage v rest h.1))
          (λ rest.
            Ensures-mono (λ q. inr (inr q))
              (walk_pairs garbage total (snoc_pair taken (combined k) (combined v)) ps rest h.2
                (omega (arith, count_pairs-snoc_pair taken (combined k) (combined v))))))
