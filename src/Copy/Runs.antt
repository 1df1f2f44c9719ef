-- ===== src/Copy/Runs.antt =====
-- cbor_copy on any item, with any allocator: a walk over the item.
use libcbor.Allocation.{Alloc, attempt, ◌>>=◌}
use libcbor.Allocation.Ensures.{Ensures-bind, Ensures-attempt, Ensures-mono}
use libcbor.Base.{ℕ, ◌+◌, ◌^◌, ◌<◌, ◌≡◌, refl, arith, ◌⊎◌, inl, inr}
use libcbor.Containers.{array_push, map_add_key}
use libcbor.Copy.{copy, copy_items, copy_pairs, new_array, new_map, build_tag}
use libcbor.Copy.Chunks.{copy_indef_bytestring-Gives, copy_indef_string-Gives}
use libcbor.Copy.Copied.{
  copied, copied_items, copied_pairs, IsCopyable, AreCopyable, PairsAreCopyable, HasNegint,
  HaveNegint, PairsHaveNegint,
}
use libcbor.Copy.Growth.{capacity_at, array_push-Outcome, map_add_key-Outcome}
use libcbor.Copy.Leaves.{
  Gives, Gives-pure, copy_uint-Gives, copy_negint-Gives, copy_ctrl-Gives, copy_float2-Gives,
  copy_float4-Gives, copy_float8-Gives, build_bytestring-Gives, build_stringn-Gives,
  build_tag-Gives, new_array-Ensures, new_map-Ensures,
}
use libcbor.Items.{Metadata, Item, Items, Pairs, count, count_pairs, snoc, snoc_pair}
use libcbor.Load.Decoded.{
  capacity_of, push_items, push_pairs, push_items-snoc, push_pairs-snoc, push_items-nil,
  push_pairs-end, count-snoc, count_pairs-snoc_pair,
}
use libcbor.Memory.{Allocator}

capacity-full : (d : Metadata) (n : ℕ) → capacity_at d n n ≡ capacity_of d n
capacity-full Metadata.definite n = refl
capacity-full Metadata.indefinite n = refl

-- One turn of the loop over an array.
array_turn :
    (garbage : ℕ) (d : Metadata) (total : ℕ) (taken xs : Items) (x y z : Item) (Q : Type 0)
    (answers : Allocator)
    → count taken < total
    → total < 2 ^ 55
    → Gives y Q answers (copy garbage x answers)
    → ((rest : Allocator)
        → Gives z Q rest (
            copy_items garbage d
              (capacity_at d total (count (snoc taken y)))
              (snoc taken y)
              xs
              rest))
    → Gives z Q answers
        (copy_items garbage d (capacity_at d total (count taken)) taken (Items.cons x xs) answers)
unfolding copy_items
array_turn garbage d total taken xs x y z Q answers h small one later =
    Ensures-bind (copy garbage x)
      (λ item. attempt (array_push d (capacity_at d total (count taken)) taken item) >>= λ p.
        copy_items garbage d p.0 p.1 xs)
      one
      (λ item rest e. rw e (
        Ensures-bind (attempt (array_push d (capacity_at d total (count taken)) taken y))
          (λ p. copy_items garbage d p.0 p.1 xs)
          (Ensures-attempt (array_push d (capacity_at d total (count taken)) taken y)
            (array_push-Outcome d total taken y rest h small))
          (λ p last same. rw (same, ← count-snoc taken y) (later last))))

-- One turn of the loop over a map.
map_turn :
    (garbage : ℕ) (d : Metadata) (total : ℕ) (taken ps : Pairs) (k v k' v' z : Item) (Q : Type 0)
    (answers : Allocator)
    → count_pairs taken < total
    → total < 2 ^ 55
    → Gives k' Q answers (copy garbage k answers)
    → ((rest : Allocator) → Gives v' Q rest (copy garbage v rest))
    → ((rest : Allocator)
        → Gives z Q rest (
            copy_pairs garbage d
              (capacity_at d total (count_pairs (snoc_pair taken k' v')))
              (snoc_pair taken k' v')
              ps
              rest))
    → Gives z Q answers (
        copy_pairs garbage d
          (capacity_at d total (count_pairs taken))
          taken
          (Pairs.pair k v ps)
          answers)
unfolding copy_pairs
map_turn garbage d total taken ps k v k' v' z Q answers h small key value later =
    let more : Item → Item → Alloc Item = λ a b.
      attempt (map_add_key d (capacity_at d total (count_pairs taken)) taken) >>= λ m.
      copy_pairs garbage d m (snoc_pair taken a b) ps in
    Ensures-bind (copy garbage k) (λ a. copy garbage v >>= λ b. more a b) key
      (λ a rest e. rw e (
        Ensures-bind (copy garbage v) (λ b. more k' b) (value rest)
          (λ b last e'. rw e' (
            Ensures-bind (attempt (map_add_key d (capacity_at d total (count_pairs taken)) taken))
              (λ m. copy_pairs garbage d m (snoc_pair taken k' v') ps)
              (Ensures-attempt (map_add_key d (capacity_at d total (count_pairs taken)) taken)
                (map_add_key-Outcome d total taken last h small))
              (λ m end same. rw (same, ← count_pairs-snoc_pair taken k' v') (later end))))))

copy_array :
    (garbage : ℕ) (d : Metadata) (allocated : ℕ) (xs : Items) (z : Item) (Q : Type 0)
    (answers : Allocator)
    → count xs < 2 ^ 55
    → ((rest : Allocator)
        → Gives z Q rest (copy_items garbage d (capacity_at d (count xs) 0) Items.nil xs rest))
    → Gives z Q answers (copy garbage (Item.array d allocated xs) answers)
unfolding copy
copy_array garbage d allocated xs z Q answers h later =
    Ensures-bind (new_array d (count xs)) (λ m. copy_items garbage d m Items.nil xs)
      (new_array-Ensures d (count xs) Q answers h) (λ m rest e. rw e (later rest))

copy_map :
    (garbage : ℕ) (d : Metadata) (allocated : ℕ) (ps : Pairs) (z : Item) (Q : Type 0)
    (answers : Allocator)
    → count_pairs ps < 2 ^ 55
    → ((rest : Allocator)
        → Gives z Q rest
            (copy_pairs garbage d (capacity_at d (count_pairs ps) 0) Pairs.end ps rest))
    → Gives z Q answers (copy garbage (Item.map d allocated ps) answers)
unfolding copy
copy_map garbage d allocated ps z Q answers h later =
    Ensures-bind (new_map d (count_pairs ps)) (λ m. copy_pairs garbage d m Pairs.end ps)
      (new_map-Ensures d (count_pairs ps) Q answers h) (λ m rest e. rw e (later rest))

copy_tag :
    (garbage v : ℕ) (x y : Item) (Q : Type 0) (answers : Allocator)
    → Gives y Q answers (copy garbage x answers)
    → Gives (Item.tag v y) Q answers (copy garbage (Item.tag v x) answers)
unfolding copy
copy_tag garbage v x y Q answers h =
    Ensures-bind (copy garbage x) (λ item. build_tag v item) h
      (λ item rest e. rw e (build_tag-Gives v y Q rest))

mutual
  unfolding copy copy_items copy_pairs

  pub walk :
      (garbage : ℕ) (x : Item) (answers : Allocator)
      → IsCopyable x
      → Gives (copied x) (HasNegint x) answers (copy garbage x answers)
  walk garbage (Item.uint w v) answers h = copy_uint-Gives garbage w v ⊥ answers
  walk garbage (Item.negint w v) answers h = copy_negint-Gives garbage w v Unit answers tt
  walk garbage (Item.bytestring bytes) answers h = build_bytestring-Gives bytes ⊥ answers
  walk garbage (Item.indef_bytestring capacity cs) answers h =
      copy_indef_bytestring-Gives garbage capacity cs ⊥ answers h
  walk garbage (Item.string s) answers h = build_stringn-Gives s.bytes ⊥ answers
  walk garbage (Item.indef_string capacity cs) answers h =
      copy_indef_string-Gives garbage capacity cs ⊥ answers h
  walk garbage (Item.array d allocated xs) answers h =
      copy_array garbage d allocated xs _ (HaveNegint xs) answers h.0 (λ rest.
        rw (← capacity-full d (count xs))
          (walk_items garbage d (count xs) Items.nil xs rest h.1 (omega arith) h.0))
  walk garbage (Item.map d allocated ps) answers h =
      copy_map garbage d allocated ps _ (PairsHaveNegint ps) answers h.0 (λ rest.
        rw (← capacity-full d (count_pairs ps))
          (walk_pairs garbage d (count_pairs ps) Pairs.end ps rest h.1 (omega arith) h.0))
  walk garbage (Item.tag v x) answers h =
      copy_tag garbage v x (copied x) (HasNegint x) answers (walk garbage x answers h)
  walk garbage (Item.ctrl v) answers h = copy_ctrl-Gives garbage v ⊥ answers
  walk garbage (Item.float2 v) answers h = copy_float2-Gives garbage v ⊥ answers
  walk garbage (Item.float4 v) answers h = copy_float4-Gives garbage v ⊥ answers
  walk garbage (Item.float8 v) answers h = copy_float8-Gives garbage v ⊥ answers

  walk_items :
      (garbage : ℕ) (d : Metadata) (total : ℕ) (taken xs : Items) (answers : Allocator)
      → AreCopyable xs
      → count taken + count xs ≡ total
      → total < 2 ^ 55
      → Gives
          (Item.array d (capacity_at d total total) (push_items taken (copied_items xs)))
          (HaveNegint xs)
          answers
          (copy_items garbage d (capacity_at d total (count taken)) taken xs answers)
  walk_items garbage d total taken Items.nil answers h all small =
      let e : count taken ≡ total = omega arith in
      rw (push_items-nil taken, e)
        (Gives-pure (Item.array d (capacity_at d total total) taken) ⊥ answers)
  walk_items garbage d total taken (Items.cons x xs) answers h all small =
      rw (← push_items-snoc taken (copied x) (copied_items xs)) (
        array_turn garbage d total taken xs x (copied x) _ (HasNegint x ⊎ HaveNegint xs) answers
          (omega arith) small (Ensures-mono (λ q. inl q) (walk garbage x answers h.0))
          (λ rest.
            Ensures-mono (λ q. inr q)
              (walk_items garbage d total (snoc taken (copied x)) xs rest h.1
                (omega (arith, count-snoc taken (copied x))) small)))

  walk_pairs :
      (garbage : ℕ) (d : Metadata) (total : ℕ) (taken ps : Pairs) (answers : Allocator)
      → PairsAreCopyable ps
      → count_pairs taken + count_pairs ps ≡ total
      → total < 2 ^ 55
      → Gives
          (Item.map d (capacity_at d total total) (push_pairs taken (copied_pairs ps)))
          (PairsHaveNegint ps)
          answers
          (copy_pairs garbage d (capacity_at d total (count_pairs taken)) taken ps answers)
  walk_pairs garbage d total taken Pairs.end answers h all small =
      let e : count_pairs taken ≡ total = omega arith in
      rw (push_pairs-end taken, e)
        (Gives-pure (Item.map d (capacity_at d total total) taken) ⊥ answers)
  walk_pairs garbage d total taken (Pairs.pair k v ps) answers h all small =
      rw (← push_pairs-snoc taken (copied k) (copied v) (copied_pairs ps)) (
        map_turn garbage d total taken ps k v (copied k) (copied v) _
          (HasNegint k ⊎ (HasNegint v ⊎ PairsHaveNegint ps)) answers (omega arith) small
          (Ensures-mono (λ q. inl q) (walk garbage k answers h.0))
          (λ rest. Ensures-mono (λ q. inr (inl q)) (walk garbage v rest h.1))
          (λ rest.
            Ensures-mono (λ q. inr (inr q))
              (walk_pairs garbage d total (snoc_pair taken (copied k) (copied v)) ps rest h.2
                (omega (arith, count_pairs-snoc_pair taken (copied k) (copied v))) small)))
