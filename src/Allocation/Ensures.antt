-- ===== src/Allocation/Ensures.antt =====
-- What a function that creates items guarantees, whatever the allocator answers.
use libcbor.Allocation.{Built, Alloc, allocate, allocate_multiple, attempt, ◌>>=◌}
use libcbor.Base.{true, ℕ, suc, ◌*◌, ◌%◌, ◌^◌, ◌≤◌, ◌<◌, ◌≡◌, ◌≢◌, refl, ap, Option, none, some}
use libcbor.Base.{false, Bool-cases, inl, inr}
use libcbor.Builder.Plenty.{always, alloc_multiple-safe}
use libcbor.Memory.{Allocator}

-- A value satisfies `P`, a crash needs `Q`, and where every allocation succeeds, there is a value and
-- every later allocation succeeds too.
pub data Ensures {A : Type 0} (P : A → Type 0) (Q : Type 0) (answers : Allocator)
    : Built A → Type 0 where
  value :
      (a : A) (rest : Allocator)
      → P a
      → (answers ≡ always → rest ≡ always)
      → Ensures P Q answers (Built.built a rest)
  null : (rest : Allocator) → answers ≢ always → Ensures P Q answers (Built.failed rest)
  crash : Q → answers ≢ always → Ensures P Q answers Built.crashed

pub Ensures-later :
    {A : Type 0} {P : A → Type 0} {Q R : Type 0} (answers rest : Allocator) {b : Built A}
    → (answers ≡ always → rest ≡ always)
    → (Q → R)
    → Ensures P Q rest b
    → Ensures P R answers b
Ensures-later answers rest keep weaken (Ensures.value a r p k) =
    Ensures.value a r p (λ e. k (keep e))
Ensures-later answers rest keep weaken (Ensures.null r k) = Ensures.null r (λ e. k (keep e))
Ensures-later answers rest keep weaken (Ensures.crash q k) =
    Ensures.crash (weaken q) (λ e. k (keep e))

pub Ensures-mono :
    {A : Type 0} {P : A → Type 0} {Q R : Type 0} {answers : Allocator} {b : Built A}
    → (Q → R)
    → Ensures P Q answers b
    → Ensures P R answers b
Ensures-mono {answers} weaken h = Ensures-later answers answers (λ e. e) weaken h

pub Ensures-map :
    {A : Type 0} {P R : A → Type 0} {Q : Type 0} {answers : Allocator} {b : Built A}
    → ((a : A) → P a → R a)
    → Ensures P Q answers b
    → Ensures R Q answers b
Ensures-map f (Ensures.value a rest p keep) = Ensures.value a rest (f a p) keep
Ensures-map f (Ensures.null rest short) = Ensures.null rest short
Ensures-map f (Ensures.crash q short) = Ensures.crash q short

bind_built :
    {A B : Type 0} {P : A → Type 0} {R : B → Type 0} {Q : Type 0} {answers : Allocator}
    (f : A → Alloc B) {b : Built A}
    → Ensures P Q answers b
    → ((a : A) (rest : Allocator) → P a → Ensures R Q rest (f a rest))
    → Ensures R Q answers (elim b [
      | Built.built a rest ↦ f a rest
      | Built.failed rest ↦ Built.failed rest
      | Built.crashed ↦ Built.crashed
    ])
bind_built {answers} f (Ensures.value a rest p keep) k =
    Ensures-later answers rest keep (λ q. q) (k a rest p)
bind_built f (Ensures.null rest short) k = Ensures.null rest short
bind_built f (Ensures.crash q short) k = Ensures.crash q short

-- The rule for `>>=`.
pub Ensures-bind :
    {A B : Type 0} {P : A → Type 0} {R : B → Type 0} {Q : Type 0} {answers : Allocator}
    (m : Alloc A) (f : A → Alloc B)
    → Ensures P Q answers (m answers)
    → ((a : A) (rest : Allocator) → P a → Ensures R Q rest (f a rest))
    → Ensures R Q answers ((m >>= f) answers)
Ensures-bind m f h k = bind_built f h k

pub denied : (answers : Allocator) (size : ℕ) → answers 0 size ≡ false → answers ≢ always
denied answers size h e = cc (h, ap (λ (a : Allocator). a 0 size) e)

pub shift-always : (answers : Allocator) → answers ≡ always → (λ (k : ℕ). answers (suc k)) ≡ always
shift-always answers e = rw e

-- One allocation.
pub Ensures-allocate :
    (size : ℕ) (Q : Type 0) (answers : Allocator)
    → Ensures (λ (_ : Unit {0}). Unit {0}) Q answers (allocate size answers)
unfolding allocate
Ensures-allocate size Q answers = elim (Bool-cases (answers 0 size)) [
  | inl e ↦ rw e (Ensures.value tt _ tt (shift-always answers))
  | inr e ↦ rw e (Ensures.null _ (denied answers size e))
]

pub Ensures-allocate_multiple :
    (size n : ℕ) (Q : Type 0) (answers : Allocator)
    → size ≤ 16
    → n < 2 ^ 58
    → Ensures (λ (_ : Unit {0}). Unit {0}) Q answers (allocate_multiple size n answers)
unfolding allocate_multiple
Ensures-allocate_multiple size n Q answers h k =
    rw (alloc_multiple-safe answers size n h k) (elim (Bool-cases (answers 0 (size * n % 2 ^ 64))) [
      | inl e ↦ rw e (Ensures.value tt _ tt (shift-always answers))
      | inr e ↦ rw e (Ensures.null _ (denied answers (size * n % 2 ^ 64) e))
    ])

-- A call that may fail, by the cases of its outcome.
pub data Outcome {A : Type 0} (P : A → Type 0) (answers : Allocator)
    : Option A × Allocator → Type 0 where
  value :
      (a : A) (rest : Allocator)
      → P a
      → (answers ≡ always → rest ≡ always)
      → Outcome P answers (some a, rest)
  null : (rest : Allocator) → answers ≢ always → Outcome P answers (none, rest)

attempt-Outcome :
    {A : Type 0} {P : A → Type 0} {Q : Type 0} {answers : Allocator} {r : Option A × Allocator}
    → Outcome P answers r
    → Ensures P Q answers (elim r.0 [ none ↦ Built.failed r.1 | some a ↦ Built.built a r.1 ])
attempt-Outcome (Outcome.value a rest p keep) = Ensures.value a rest p keep
attempt-Outcome (Outcome.null rest short) = Ensures.null rest short

pub Ensures-attempt :
    {A : Type 0} {P : A → Type 0} {Q : Type 0} {answers : Allocator}
    (f : Allocator → Option A × Allocator)
    → Outcome P answers (f answers)
    → Ensures P Q answers (attempt f answers)
Ensures-attempt f h = attempt-Outcome h

-- A NULL is passed on.
pub allocate-denied :
    (size : ℕ) (answers : Allocator)
    → answers 0 size ≡ false
    → allocate size answers ≡ Built.failed (λ k. answers (suc k))
unfolding allocate
allocate-denied size answers h = rw h refl

pub bind-failed :
    {A B : Type 0} {rest : Allocator} (m : Alloc A) (f : A → Alloc B) (answers : Allocator)
    → m answers ≡ Built.failed rest
    → (m >>= f) answers ≡ Built.failed rest
bind-failed {A} {B} m f answers e =
    ap
      (λ (b : Built A). elim b [
        | Built.built a rest ↦ f a rest
        | Built.failed rest ↦ Built.failed rest
        | Built.crashed ↦ Built.crashed
      ])
      e

-- A value is passed on.
pub bind-value :
    {A B : Type 0} (m : Alloc A) (f : A → Alloc B) (a : A) (answers rest : Allocator)
    → m answers ≡ Built.built a rest
    → (m >>= f) answers ≡ f a rest
bind-value {A} {B} m f a answers rest e =
    ap
      (λ (b : Built A). elim b [
        | Built.built a rest ↦ f a rest
        | Built.failed rest ↦ Built.failed rest
        | Built.crashed ↦ Built.crashed
      ])
      e

pub bind-crashed :
    {A B : Type 0} (m : Alloc A) (f : A → Alloc B) (answers : Allocator)
    → m answers ≡ Built.crashed
    → (m >>= f) answers ≡ Built.crashed
bind-crashed {A} {B} m f answers e =
    ap
      (λ (b : Built A). elim b [
        | Built.built a rest ↦ f a rest
        | Built.failed rest ↦ Built.failed rest
        | Built.crashed ↦ Built.crashed
      ])
      e

pub allocate-granted :
    (size : ℕ) (answers : Allocator)
    → answers 0 size ≡ true
    → allocate size answers ≡ Built.built tt (λ k. answers (suc k))
unfolding allocate
allocate-granted size answers h = rw h refl
