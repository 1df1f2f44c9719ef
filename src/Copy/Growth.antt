-- ===== src/Copy/Growth.antt =====
-- How containers take members with any allocator: a container that has grown member by member has the
-- capacity `grown`, and a definite one keeps its own.
use libcbor.Allocation.Ensures.{Outcome, denied, shift-always}
use libcbor.Base.{ℕ, suc, ◌*◌, ◌%◌, ◌^◌, ◌≤◌, ◌<◌, ◌≡◌, refl, ap, arith}
use libcbor.Base.{true, false, leb, ◌==◌, Bool-cases, inl, inr, lt→leb_false}
use libcbor.Base.{Option, none, some}
use libcbor.Builder.Plenty.{
  grown, grown_bounds, realloc_multiple-safe, small_product, doubled, doubled_lem, doubled-lt,
}
use libcbor.Containers.{grow, reserve, array_push, map_add_key, add_chunk}
use libcbor.Items.{Metadata, Item, Items, Pairs, count, count_pairs, snoc}
use libcbor.Memory.{Allocator}

grow-Outcome :
    (size n : ℕ) (answers : Allocator)
    → size ≤ 16
    → n < 2 ^ 57
    → Outcome (λ m. m ≡ doubled n) answers (grow size n answers)
unfolding grow
grow-Outcome size n answers h k =
    rw
      (
        small_product 2 n (omega arith) (omega arith),
        doubled_lem n k,
        realloc_multiple-safe answers size (doubled n) h (doubled-lt n k),
      )
      (elim (Bool-cases (answers 0 (size * doubled n % 2 ^ 64))) [
        | inl e ↦ rw e (Outcome.value _ _ refl (shift-always answers))
        | inr e ↦ rw e (Outcome.null _ (denied answers (size * doubled n % 2 ^ 64) e))
      ])

pub reserve-Outcome :
    (size n : ℕ) (answers : Allocator)
    → size ≤ 16
    → n < 2 ^ 55
    → Outcome
        (λ m. m ≡ grown (suc n))
        answers
        (reserve Metadata.indefinite size (grown n) n answers)
unfolding reserve grown
reserve-Outcome size n answers h k = elim (Bool-cases (leb (grown n) n)) [
  | inl e ↦
      rw e (unfold doubled in grow-Outcome size (grown n) answers h (omega (arith, grown_bounds n)))
  | inr e ↦ rw e (Outcome.value _ _ refl (λ same. same))
]

pub add_chunk-Outcome :
    (n : ℕ) (answers : Allocator)
    → n < 2 ^ 55
    → Outcome (λ m. m ≡ grown (suc n)) answers (add_chunk (grown n) n answers)
unfolding add_chunk grown
add_chunk-Outcome n answers k = elim (Bool-cases (leb (grown n) n)) [
  | inl e ↦
      let same : (n == grown n) ≡ true = ground (arith, grown_bounds n) in
      rw (same, e)
        (unfold doubled in
          grow-Outcome 8 (grown n) answers (omega arith) (omega (arith, grown_bounds n)))
  | inr e ↦
      let differs : (n == grown n) ≡ false = ground (arith, grown_bounds n) in
      rw (differs, e) (Outcome.value _ _ refl (λ same. same))
]

-- The capacity of a container with `k` of its `total` members.
abbrev pub capacity_at : Metadata → ℕ → ℕ → ℕ
capacity_at Metadata.definite total k = total
capacity_at Metadata.indefinite total k = grown k

pub map_add_key-Outcome :
    (d : Metadata) (total : ℕ) (ps : Pairs) (answers : Allocator)
    → count_pairs ps < total
    → total < 2 ^ 55
    → Outcome
        (λ m. m ≡ capacity_at d total (suc (count_pairs ps)))
        answers
        (map_add_key d (capacity_at d total (count_pairs ps)) ps answers)
unfolding map_add_key reserve
map_add_key-Outcome Metadata.definite total ps answers h k =
    rw (lt→leb_false total (count_pairs ps) h) (Outcome.value _ _ refl (λ same. same))
map_add_key-Outcome Metadata.indefinite total ps answers h k =
    reserve-Outcome 16 (count_pairs ps) answers (omega arith) (omega arith)

pushed :
    (n : ℕ) (xs : Items) (x : Item) (answers : Allocator) {r : Option ℕ × Allocator}
    → Outcome (λ m. m ≡ n) answers r
    → Outcome {A = ℕ × Items}
        (λ p. p ≡ (n, snoc xs x))
        answers
        (elim r.0 [ none ↦ none | some allocated' ↦ some (allocated', snoc xs x) ], r.1)
pushed n xs x answers (Outcome.value m rest e keep) =
    Outcome.value _ rest (ap (λ (k : ℕ). (k, snoc xs x)) e) keep
pushed n xs x answers (Outcome.null rest short) = Outcome.null rest short

pub array_push-Outcome :
    (d : Metadata) (total : ℕ) (xs : Items) (x : Item) (answers : Allocator)
    → count xs < total
    → total < 2 ^ 55
    → Outcome
        (λ p. p ≡ (capacity_at d total (suc (count xs)), snoc xs x))
        answers
        (array_push d (capacity_at d total (count xs)) xs x answers)
unfolding array_push reserve
array_push-Outcome Metadata.definite total xs x answers h k =
    rw (lt→leb_false total (count xs) h) (Outcome.value _ _ refl (λ same. same))
array_push-Outcome Metadata.indefinite total xs x answers h k =
    pushed (grown (suc (count xs))) xs x answers
      (reserve-Outcome 8 (count xs) answers (omega arith) (omega arith))
