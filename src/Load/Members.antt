-- ===== src/Load/Members.antt =====
-- The builder on one member more: of an array, of a map as key or value, and of a tag.
use libcbor.Base.{ℕ, suc, ◌*◌, ◌%◌, ◌^◌, ◌≤◌, ◌<◌, ◌≡◌, refl, ◌∙◌, arith}
use libcbor.Base.{List, ◌∷◌, Option, some, none, true, false}
use libcbor.Base.{if◌then◌else◌, ◌==◌, ne→==_false}
use libcbor.Builder.{Context, Frame, frame, append_to, decrement, settle_map, faulty}
use libcbor.Builder.{open_array, open_map, open_tag}
use libcbor.Builder.Plenty.{
  always, clean, grown, array_push-grown, array_push-room, map_add_key-grown, map_add_key-room,
}
use libcbor.Containers.{array_push, map_add_key}
use libcbor.Items.{Item, Items, Pairs, Metadata, count, count_pairs, snoc, snoc_pair}
use libcbor.Memory.{Allocator}

-- A member that found room, in a context like `ctx` whose stack is not looked at.
pushed_definite :
    (n m : ℕ) (xs ys : Items) (x : Item) (left : ℕ) (s : List Frame) (ctx : Context)
    (answers : Allocator)
    → (left == 0) ≡ false
    → array_push Metadata.definite n xs x ctx.answers ≡ (some (m, ys), answers)
    → append_to (frame (open_array Metadata.definite n xs) left ∷ s) x ctx ≡ (
        if decrement left == 0
        then append_to s
            (Item.array Metadata.definite m ys)
            (record ctx { answers = answers; stack = s })
        else record ctx {
          answers = answers;
          stack = frame (open_array Metadata.definite m ys) (decrement left) ∷ s;
        })
unfolding append_to
pushed_definite n m xs ys x left s ctx answers some_left e = rw (append_to, some_left, e, e)

pushed_indefinite :
    (n m : ℕ) (xs ys : Items) (x : Item) (left : ℕ) (s : List Frame) (ctx : Context)
    (answers : Allocator)
    → array_push Metadata.indefinite n xs x ctx.answers ≡ (some (m, ys), answers)
    → append_to (frame (open_array Metadata.indefinite n xs) left ∷ s) x ctx ≡ record ctx {
      answers = answers;
      stack = frame (open_array Metadata.indefinite m ys) left ∷ s;
    }
unfolding append_to
pushed_indefinite n m xs ys x left s ctx answers e = rw (append_to, e, e)

added_key :
    (d : Metadata) (n m : ℕ) (ps : Pairs) (key : Item) (left : ℕ) (s : List Frame) (ctx : Context)
    (answers : Allocator)
    → (left % 2 == 0) ≡ true
    → map_add_key d n ps ctx.answers ≡ (some m, answers)
    → append_to (frame (open_map d n ps none) left ∷ s) key ctx
      ≡ settle_map d m ps (some key) left s (record ctx { answers = answers }) faulty
unfolding append_to
added_key d n m ps key left s ctx answers even e = rw (append_to, even, e, e)

added_value :
    (d : Metadata) (n : ℕ) (ps : Pairs) (key v : Item) (left : ℕ) (s : List Frame) (ctx : Context)
    → (left % 2 == 0) ≡ false
    → append_to (frame (open_map d n ps (some key)) left ∷ s) v ctx
      ≡ settle_map d n
          (snoc_pair ps key v)
          none
          left
          s
          (record ctx { creation_failed = false })
          (append_to s (Item.map d n (snoc_pair ps key v)))
unfolding append_to
added_value d n ps key v left s ctx odd = rw odd

module _ (r : Option Item) (s : List Frame) where
  pub member-next :
      (n : ℕ) (xs : Items) (x : Item) (left : ℕ)
      → count xs < n
      → 1 ≤ left
      → left < 2 ^ 55
      → (let st = frame (open_array Metadata.definite n xs) (suc left) ∷ s in
          append_to st x (clean r st)
          ≡ clean r (frame (open_array Metadata.definite n (snoc xs x)) left ∷ s))
  member-next n xs x left h pos small =
      let e : decrement (suc left) ≡ left = omega arith in
      pushed_definite n n xs (snoc xs x) x (suc left) s _ always
        (ne→==_false (suc left) 0 (λ z. omega arith)) (array_push-room n xs x h)
      ∙ rw (e, ne→==_false left 0 (λ z. omega arith))

  pub member-last :
      (n : ℕ) (xs : Items) (x : Item)
      → count xs < n
      → (let st = frame (open_array Metadata.definite n xs) 1 ∷ s in
          append_to st x (clean r st)
          ≡ append_to s (Item.array Metadata.definite n (snoc xs x)) (clean r s))
  member-last n xs x h =
      pushed_definite n n xs (snoc xs x) x 1 s (clean r _) always refl (array_push-room n xs x h)

  pub member-grown :
      (xs : Items) (x : Item)
      → count xs < 2 ^ 55
      → (let st = frame (open_array Metadata.indefinite (grown (count xs)) xs) 0 ∷ s in
          append_to st x (clean r st)
          ≡ clean r
              (frame (open_array Metadata.indefinite (grown (suc (count xs))) (snoc xs x)) 0 ∷ s))
  member-grown xs x h =
      pushed_indefinite _ _ xs (snoc xs x) x 0 s (clean r _) always (array_push-grown xs x h)

  -- A definite map with `left` entries still to come.
  pub key-room :
      (n : ℕ) (ps : Pairs) (key : Item) (left : ℕ)
      → count_pairs ps < n
      → left < 2 ^ 55
      → (let st = frame (open_map Metadata.definite n ps none) (2 * suc left) ∷ s in
          append_to st key (clean r st)
          ≡ clean r (frame (open_map Metadata.definite n ps (some key)) (suc (2 * left)) ∷ s))
  key-room n ps key left h small =
      let even : (2 * suc left % 2 == 0) ≡ true = ground arith in
      let e : decrement (2 * suc left) ≡ suc (2 * left) = omega arith in
      added_key Metadata.definite n n ps key (2 * suc left) s (clean r _) always even
        (map_add_key-room n ps h)
      ∙ rw (
        ne→==_false (2 * suc left) 0 (λ z. omega arith),
        e,
        ne→==_false (suc (2 * left)) 0 (λ z. omega arith),
      )

  pub value-next :
      (n : ℕ) (ps : Pairs) (key v : Item) (left : ℕ)
      → 1 ≤ left
      → left < 2 ^ 55
      → (let st = frame (open_map Metadata.definite n ps (some key)) (suc (2 * left)) ∷ s in
          append_to st v (clean r st)
          ≡ clean r (frame (open_map Metadata.definite n (snoc_pair ps key v) none) (2 * left) ∷ s))
  value-next n ps key v left pos small =
      let odd : (suc (2 * left) % 2 == 0) ≡ false = ground arith in
      let e : decrement (suc (2 * left)) ≡ 2 * left = omega arith in
      added_value Metadata.definite n ps key v (suc (2 * left)) s (clean r _) odd
      ∙ rw (
        ne→==_false (suc (2 * left)) 0 (λ z. omega arith),
        e,
        ne→==_false (2 * left) 0 (λ z. omega arith),
      )

  pub value-last :
      (n : ℕ) (ps : Pairs) (key v : Item)
      → (let st = frame (open_map Metadata.definite n ps (some key)) 1 ∷ s in
          append_to st v (clean r st)
          ≡ append_to s (Item.map Metadata.definite n (snoc_pair ps key v)) (clean r s))
  value-last n ps key v = added_value Metadata.definite n ps key v 1 s (clean r _) refl

  pub key-grown :
      (ps : Pairs) (key : Item)
      → count_pairs ps < 2 ^ 55
      → (let st = frame (open_map Metadata.indefinite (grown (count_pairs ps)) ps none) 0 ∷ s in
          append_to st key (clean r st)
          ≡ clean r (
              frame (open_map Metadata.indefinite (grown (suc (count_pairs ps))) ps (some key)) 1
              ∷ s))
  key-grown ps key h =
      added_key Metadata.indefinite _ _ ps key 0 s (clean r _) always refl (map_add_key-grown ps h)

  pub value-grown :
      (n : ℕ) (ps : Pairs) (key v : Item)
      → (let st = frame (open_map Metadata.indefinite n ps (some key)) 1 ∷ s in
          append_to st v (clean r st)
          ≡ clean r (frame (open_map Metadata.indefinite n (snoc_pair ps key v) none) 0 ∷ s))
  value-grown n ps key v = added_value Metadata.indefinite n ps key v 1 s (clean r _) refl

  pub tagged :
      (v : ℕ) (x : Item)
      → (let st = frame (open_tag v) 1 ∷ s in
          append_to st x (clean r st) ≡ append_to s (Item.tag v x) (clean r s))
  unfolding append_to
  tagged v x = refl
