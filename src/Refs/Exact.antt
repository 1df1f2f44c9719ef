-- ===== src/Refs/Exact.antt =====
-- Exact reference counts, and how a change of one item keeps them exact.
use libcbor.Base.{
  ℕ, ◌+◌, ◌≤◌, ◌≡◌, ◌⊎◌, inl, inr, refl, sym, ap, ◌∙◌, arith, Option, none, some, true, false,
  if◌then◌else◌, ◌==◌, Bool-cases, ==_iff,
}
use libcbor.Refs.{Cell, Store, cell_at, put}
use libcbor.Refs.Store.{sum_of-put, cell_at-put, cell_at-put_other, held_by, held, count_of}

-- One reference to an address.
abbrev pub once : ℕ → ℕ → ℕ
once a x = if x == a then 1 else 0

-- The reference count of each address is the number of references to it: those that the environment
-- owns, and those of the items that are alive. What is counted is not freed.
pub record Exact (owned : ℕ → ℕ) (h : Store) : Type 0 where
  pub counts : (x : ℕ) → count_of (cell_at h x) ≡ owned x + held h x
  pub kept : (x : ℕ) (c : Cell) → cell_at h x ≡ some c → 1 ≤ c.refcount → c.freed ≡ false

-- A cell changes: how the references to each address change with it.
abbrev pub weight : ℕ → ℕ → ℕ → ℕ
weight a x k = if x == a then k else 0

pub same_cell : {c d : Cell} → some c ≡ some d → c ≡ d
same_cell {c} e = ap (λ (o : Option Cell). elim o [ none ↦ c | some d ↦ d ]) e

pub Exact-put :
    (owned owned' : ℕ → ℕ) (h : Store) (a : ℕ) (c d : Cell)
    → Exact owned h
    → cell_at h a ≡ some c
    → ((x : ℕ)
        → owned x + held_by x c + weight a x d.refcount
          ≡ owned' x + held_by x d + weight a x c.refcount)
    → (1 ≤ d.refcount → d.freed ≡ false)
    → Exact owned' (put h a d)
Exact-put owned owned' h a c d ok e balance alive = record {
  counts = λ x. count_at x (Bool-cases (x == a));
  kept = λ x b at_x. kept_at x b at_x (Bool-cases (x == a));
}
  where
    self : cell_at (put h a d) a ≡ some d
    self = cell_at-put h a c d e

    count_at :
        (x : ℕ)
        → ((x == a) ≡ true) ⊎ ((x == a) ≡ false)
        → count_of (cell_at (put h a d) x) ≡ owned' x + held (put h a d) x
    count_at x (inl same) =
        let x_a = (==_iff x a).0 same in
        let now : count_of (cell_at (put h a d) x) ≡ d.refcount = rw (x_a, self) refl in
        let before : count_of (cell_at h x) ≡ c.refcount = rw (x_a, e) refl in
        ground (arith, now, before, ok.counts x, balance x, same, sum_of-put (held_by x) h a c d e)
    count_at x (inr differ) =
        let now = ap count_of (cell_at-put_other h a x d (λ x_a. ground (arith, x_a, differ))) in
        ground (arith, now, ok.counts x, balance x, differ, sum_of-put (held_by x) h a c d e)

    kept_at :
        (x : ℕ) (b : Cell)
        → cell_at (put h a d) x ≡ some b
        → ((x == a) ≡ true) ⊎ ((x == a) ≡ false)
        → 1 ≤ b.refcount
        → b.freed ≡ false
    kept_at x b at_x (inl same) many =
        let d_b : d ≡ b = same_cell (sym self ∙ (rw ((==_iff x a).0 same) at at_x)) in
        rw (← d_b) (alive (rw (← d_b) at many))
    kept_at x b at_x (inr differ) many =
        ok.kept x b (sym (cell_at-put_other h a x d (λ x_a. ground (arith, x_a, differ))) ∙ at_x)
          many
