-- ===== src/Containers/Arrays.antt =====
-- src/cbor/arrays.c: the operations on the entries of an array by their index.
use libcbor.Base.{
  ℕ, zero, suc, ◌≤◌, ◌<◌, ◌≡◌, ◌≢◌, refl, sym, ap, arith, Option, none, some, false, if◌then◌else◌,
  ltb, leb, ◌==◌, Bool-cases, ==_iff, inl, inr,
}
use libcbor.Containers.{array_push, reserve}
use libcbor.Items.{Metadata, Item, Items, count, snoc}
use libcbor.Memory.{Allocator}

-- `none` where an assertion fails.
unfoldable pub array_size : Item → Option ℕ
array_size (Item.array d allocated xs) = some (count xs)
array_size item = none

unfoldable pub array_allocated : Item → Option ℕ
array_allocated (Item.array d allocated xs) = some allocated
array_allocated item = none

-- `none` where it reads behind the entries.
unfoldable pub array_get : Items → ℕ → Option Item
array_get Items.nil index = none
array_get (Items.cons x xs) zero = some x
array_get (Items.cons x xs) (suc index) = array_get xs index

-- `((cbor_item_t**)item->data)[index] = value`.
abbrev store_at : Items → ℕ → Item → Items
store_at Items.nil index value = Items.nil
store_at (Items.cons x xs) zero value = Items.cons value xs
store_at (Items.cons x xs) (suc index) value = Items.cons x (store_at xs index value)

-- The new entries, or `none` for false.
unfoldable pub array_replace : Items → ℕ → Item → Option Items
array_replace xs index value = if leb (count xs) index then none else some (store_at xs index value)

-- The new `allocated` and entries, or `none` for false.
unfoldable pub array_set :
    Metadata → ℕ → Items → ℕ → Item → Allocator → Option (ℕ × Items) × Allocator
unfolding array_push array_replace
array_set d allocated xs index value answers =
    if index == count xs
    then array_push d allocated xs value answers
    else if ltb index (count xs)
    then (
      elim (array_replace xs index value) [ none ↦ none | some ys ↦ some (allocated, ys) ],
      answers,
    )
    else (none, answers)

get-snoc : (xs : Items) (x : Item) → array_get (snoc xs x) (count xs) ≡ some x
unfolding array_get
get-snoc Items.nil x = refl
get-snoc (Items.cons y xs) x = get-snoc xs x

get-snoc_other :
    (xs : Items) (x : Item) (j : ℕ) → j ≢ count xs → array_get (snoc xs x) j ≡ array_get xs j
unfolding array_get
get-snoc_other Items.nil x zero other = absurd (other refl)
get-snoc_other Items.nil x (suc j) other = refl
get-snoc_other (Items.cons y xs) x zero other = refl
get-snoc_other (Items.cons y xs) x (suc j) other =
    get-snoc_other xs x j (λ e. other (ap (λ (k : ℕ). suc k) e))

get-store_at :
    (xs : Items) (i : ℕ) (x : Item) → i < count xs → array_get (store_at xs i x) i ≡ some x
unfolding array_get
get-store_at Items.nil i x h = absurd (omega arith)
get-store_at (Items.cons y xs) zero x h = refl
get-store_at (Items.cons y xs) (suc i) x h = get-store_at xs i x (omega arith)

get-store_at_other :
    (xs : Items) (i j : ℕ) (x : Item) → j ≢ i → array_get (store_at xs i x) j ≡ array_get xs j
unfolding array_get
get-store_at_other Items.nil i j x other = refl
get-store_at_other (Items.cons y xs) zero zero x other = absurd (other refl)
get-store_at_other (Items.cons y xs) zero (suc j) x other = refl
get-store_at_other (Items.cons y xs) (suc i) zero x other = refl
get-store_at_other (Items.cons y xs) (suc i) (suc j) x other =
    get-store_at_other xs i j x (λ e. other (ap (λ (k : ℕ). suc k) e))

-- What a successful cbor_array_set does.
pub record IsStored (xs : Items) (index : ℕ) (value : Item) (ys : Items) : Type 0 where
  pub present : array_get ys index ≡ some value
  pub others : (j : ℕ) → j ≢ index → array_get ys j ≡ array_get xs j
  pub inside : index ≤ count xs

same_items :
    {m n : ℕ} {xs ys : Items} → ◌≡◌ {A = Option (ℕ × Items)} (some (m, xs)) (some (n, ys)) → ys ≡ xs
same_items {m} {n} {xs} {ys} e =
    sym (ap (λ (o : Option (ℕ × Items)). elim o [ none ↦ xs | some p ↦ p.1 ]) e)

pushed_items :
    (o : Option ℕ) (allocated' : ℕ) (zs ys : Items)
    → ◌≡◌ {A = Option (ℕ × Items)}
        (elim o [ none ↦ none | some a ↦ some (a, zs) ])
        (some (allocated', ys))
    → ys ≡ zs
pushed_items none allocated' zs ys e = cc
pushed_items (some a) allocated' zs ys e = same_items e

array_push-snoc :
    (d : Metadata) (allocated allocated' : ℕ) (xs ys : Items) (value : Item)
    (answers answers' : Allocator)
    → array_push d allocated xs value answers ≡ (some (allocated', ys), answers')
    → ys ≡ snoc xs value
unfolding array_push
array_push-snoc d allocated allocated' xs ys value answers answers' e =
    pushed_items (reserve d 8 allocated (count xs) answers).0 allocated' (snoc xs value) ys
      (ap (λ (r : Option (ℕ × Items) × Allocator). r.0) e)

-- Where cbor_array_set returns true, the index was not behind the array's end; the array holds the value
-- at that index, and at every other index what it held before.
pub array_set-IsStored :
    (d : Metadata) (allocated allocated' : ℕ) (xs ys : Items) (index : ℕ) (value : Item)
    (answers answers' : Allocator)
    → array_set d allocated xs index value answers ≡ (some (allocated', ys), answers')
    → IsStored xs index value ys
unfolding array_set array_replace
array_set-IsStored d allocated allocated' xs ys index value answers answers' e =
    elim (Bool-cases (index == count xs)) [
      | inl last ↦
          let at_end = (==_iff index (count xs)).0 last in
          let same =
            array_push-snoc d allocated allocated' xs ys value answers answers' (rw last at e) in
          rw (same, at_end)
            (record {
              present = get-snoc xs value;
              others = λ j other. get-snoc_other xs value j other;
              inside = omega arith;
            })
      | inr differ ↦ elim (Bool-cases (ltb index (count xs))) [
        | inl before ↦
            let small : index < count xs = ground arith in
            let there : leb (count xs) index ≡ false = ground arith in
            let same = same_items (
              ap (λ (r : Option (ℕ × Items) × Allocator). r.0) (rw (differ, before, there) at e)) in
            rw same (record {
              present = get-store_at xs index value small;
              others = λ j other. get-store_at_other xs index j value other;
              inside = omega arith;
            })
        | inr behind ↦
            cc (ap (λ (r : Option (ℕ × Items) × Allocator). r.0) (rw (differ, behind) at e))
      ]
    ]
