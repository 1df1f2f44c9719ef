-- ===== src/Refs/Store.antt =====
-- The store, and the sums over it.
use libcbor.Base.{
  ℕ, zero, suc, ◌+◌, ◌≡◌, ◌≢◌, refl, ap, arith, List, [], ◌∷◌, Option, none, some, if◌then◌else◌,
  ◌==◌,
}
use libcbor.Refs.{Cell, Store, cell_at, put, references}

abbrev pub sum_of : (Cell → ℕ) → Store → ℕ
sum_of f [] = 0
sum_of f (c ∷ h) = f c + sum_of f h

pub sum_of-put :
    (f : Cell → ℕ) (h : Store) (a : ℕ) (old new : Cell)
    → cell_at h a ≡ some old
    → sum_of f (put h a new) + f old ≡ sum_of f h + f new
sum_of-put f [] a old new e = cc
sum_of-put f (c ∷ h) zero old new e =
    let same : f c ≡ f old = ap (λ (o : Option Cell). elim o [ none ↦ 0 | some d ↦ f d ]) e in
    omega (arith, same)
sum_of-put f (c ∷ h) (suc a) old new e = omega (arith, sum_of-put f h a old new e)

pub cell_at-put :
    (h : Store) (a : ℕ) (old new : Cell)
    → cell_at h a ≡ some old
    → cell_at (put h a new) a ≡ some new
cell_at-put [] a old new e = cc
cell_at-put (c ∷ h) zero old new e = refl
cell_at-put (c ∷ h) (suc a) old new e = cell_at-put h a old new e

pub cell_at-put_other :
    (h : Store) (a b : ℕ) (new : Cell) → b ≢ a → cell_at (put h a new) b ≡ cell_at h b
cell_at-put_other [] a b new differ = refl
cell_at-put_other (c ∷ h) zero zero new differ = absurd (differ refl)
cell_at-put_other (c ∷ h) zero (suc b) new differ = refl
cell_at-put_other (c ∷ h) (suc a) zero new differ = refl
cell_at-put_other (c ∷ h) (suc a) (suc b) new differ =
    cell_at-put_other h a b new (λ e. differ (ap (λ (k : ℕ). suc k) e))

-- How often an address occurs.
abbrev pub occurrences : ℕ → List ℕ → ℕ
occurrences a [] = 0
occurrences a (b ∷ bs) = (if a == b then 1 else 0) + occurrences a bs

-- The references to an address from a cell that is alive, and from the whole store.
abbrev pub held_by : ℕ → Cell → ℕ
held_by a c = if c.refcount == 0 then 0 else occurrences a (references c.body)

abbrev pub held : Store → ℕ → ℕ
held h a = sum_of (held_by a) h

abbrev pub count_of : Option Cell → ℕ
count_of none = 0
count_of (some c) = c.refcount

-- The reference counts together.
abbrev pub total : Store → ℕ
total h = sum_of (λ c. c.refcount) h
