-- ===== src/Builder/Plenty.antt =====
-- The builder with an allocator that never fails: what each step does to a context with no error.
use libcbor.Base.{ℕ, zero, suc, ◌*◌, ◌%◌, ◌^◌, ◌≤◌, ◌<◌, ◌≡◌, refl, arith}
use libcbor.Base.{List, ◌∷◌, Option, some, true, false}
use libcbor.Base.{length, if◌then◌else◌, leb, ◌==◌, ne→==_false, lt→leb_false, Bool-cases}
use libcbor.Base.{inl, inr}
use libcbor.Builder.{Container, Frame, frame, Context, push_context, with_storage, max_stack_size}
use libcbor.Containers.{grow, reserve, array_push, map_add_key, add_chunk}
use libcbor.Items.{Metadata, Item, Items, Pairs, count, count_pairs, snoc}
use libcbor.Memory.{Allocator, size_mod, alloc_multiple, realloc_multiple, safe_to_multiply}
use libcbor.Memory.Bounds.{safe_to_multiply_complete}

abbrev pub always : Allocator
always k n = true

-- A context with no error.
abbrev pub clean : Option Item → List Frame → Context
clean r s = record {
  creation_failed = false;
  syntax_error = false;
  fault = false;
  root = r;
  stack = s;
  answers = always;
}

-- The capacity of an indefinite container that was empty and has taken `n` members.
unfoldable pub grown : ℕ → ℕ
grown zero = 0
grown (suc n) = if leb (grown n) n then (if grown n == 0 then 1 else 2 * grown n) else grown n

pub grown_bounds : (n : ℕ) → (n ≤ grown n) × (grown n ≤ 2 * n)
unfolding grown
grown_bounds zero = omega arith
grown_bounds (suc n) = ground (arith, grown_bounds n)

pub small_product : (a b : ℕ) → a ≤ 16 → b < 2 ^ 58 → safe_to_multiply a b ≡ true
small_product a b h k = safe_to_multiply_complete a b (grind arith)

pub alloc_multiple-safe :
    (answers : Allocator) (size n : ℕ)
    → size ≤ 16
    → n < 2 ^ 58
    → alloc_multiple answers size n ≡ (answers 0 (size * n % size_mod), λ k. answers (suc k))
unfolding alloc_multiple
alloc_multiple-safe answers size n h k = rw (small_product size n h k)

pub realloc_multiple-safe :
    (answers : Allocator) (size n : ℕ)
    → size ≤ 16
    → n < 2 ^ 58
    → realloc_multiple answers size n ≡ (answers 0 (size * n % size_mod), λ k. answers (suc k))
unfolding realloc_multiple
realloc_multiple-safe answers size n h k = rw (small_product size n h k)

alloc_multiple-always :
    (size n : ℕ) → size ≤ 16 → n < 2 ^ 58 → alloc_multiple always size n ≡ (true, always)
unfolding alloc_multiple
alloc_multiple-always size n h k = rw (small_product size n h k)

realloc_multiple-always :
    (size n : ℕ) → size ≤ 16 → n < 2 ^ 58 → realloc_multiple always size n ≡ (true, always)
unfolding realloc_multiple
realloc_multiple-always size n h k = rw (small_product size n h k)

unfoldable pub doubled : ℕ → ℕ
doubled n = if n == 0 then 1 else 2 * n

pub doubled_lem : (n : ℕ) → n < 2 ^ 57 → (if n == 0 then 1 else 2 * n % 2 ^ 64) ≡ doubled n
unfolding doubled
doubled_lem n h = ground arith

pub doubled-lt : (n : ℕ) → n < 2 ^ 57 → doubled n < 2 ^ 58
unfolding doubled
doubled-lt n h = ground arith

grow-always :
    (size n : ℕ) → size ≤ 16 → n < 2 ^ 57 → grow size n always ≡ (some (doubled n), always)
unfolding grow
grow-always size n h k = rw (
  small_product 2 n (omega arith) (omega arith),
  doubled_lem n k,
  realloc_multiple-always size (doubled n) h (doubled-lt n k),
)

-- The capacities follow `grown`.
reserve-grown :
    (size n : ℕ)
    → size ≤ 16
    → n < 2 ^ 55
    → reserve Metadata.indefinite size (grown n) n always ≡ (some (grown (suc n)), always)
unfolding reserve grown
reserve-grown size n h k = elim (Bool-cases (leb (grown n) n)) [
  | inl e ↦
      rw (e, grow-always size (grown n) h (omega (arith, grown_bounds n))) (unfold doubled in refl)
  | inr e ↦ rw e
]

pub add_chunk-grown :
    (n : ℕ) → n < 2 ^ 55 → add_chunk (grown n) n always ≡ (some (grown (suc n)), always)
unfolding add_chunk grown
add_chunk-grown n k = elim (Bool-cases (leb (grown n) n)) [
  | inl e ↦
      let same : (n == grown n) ≡ true = ground (arith, grown_bounds n) in
      rw (same, e, grow-always 8 (grown n) (omega arith) (omega (arith, grown_bounds n)))
        (unfold doubled in refl)
  | inr e ↦ let differs : (n == grown n) ≡ false = ground (arith, grown_bounds n) in rw (differs, e)
]

pub array_push-grown :
    (xs : Items) (x : Item)
    → count xs < 2 ^ 55
    → array_push Metadata.indefinite (grown (count xs)) xs x always
      ≡ (some (grown (suc (count xs)), snoc xs x), always)
unfolding array_push
array_push-grown xs x h = rw (reserve-grown 8 (count xs) (omega arith) h)

pub array_push-room :
    (n : ℕ) (xs : Items) (x : Item)
    → count xs < n
    → array_push Metadata.definite n xs x always ≡ (some (n, snoc xs x), always)
unfolding array_push reserve
array_push-room n xs x h = rw (lt→leb_false n (count xs) h)

pub map_add_key-grown :
    (ps : Pairs)
    → count_pairs ps < 2 ^ 55
    → map_add_key Metadata.indefinite (grown (count_pairs ps)) ps always
      ≡ (some (grown (suc (count_pairs ps))), always)
unfolding map_add_key
map_add_key-grown ps h = reserve-grown 16 (count_pairs ps) (omega arith) h

pub map_add_key-room :
    (n : ℕ) (ps : Pairs)
    → count_pairs ps < n
    → map_add_key Metadata.definite n ps always ≡ (some n, always)
unfolding map_add_key reserve
map_add_key-room n ps h = rw (lt→leb_false n (count_pairs ps) h)

-- A push below the limit of the stack.
pub push_context-clean :
    (res : Container) (n : ℕ) (r : Option Item) (s : List Frame)
    → length s < max_stack_size
    → push_context res n (clean r s) ≡ clean r (frame res n ∷ s)
unfolding push_context
push_context-clean res n r s h = rw (ne→==_false (length s) max_stack_size (λ e. omega arith))

pub with_storage-clean :
    (size n : ℕ) (r : Option Item) (s : List Frame) (next : Context → Context)
    → size ≤ 16
    → n < 2 ^ 58
    → with_storage size n (clean r s) next ≡ next (clean r s)
with_storage-clean size n r s next h k = rw (alloc_multiple-always size n h k)
