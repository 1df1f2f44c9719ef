-- ===== src/Allocation.antt =====
-- The functions of src/cbor that create items: they call the allocator, and return NULL where it fails.
-- This is _CBOR_NOTNULL and _CBOR_DEPENDENT_NOTNULL of src/cbor/common.h as a monad.
pub mod Ensures
use libcbor.Base.{ℕ, suc, Option, none, some, Bool, true, false, if◌then◌else◌}
use libcbor.Memory.{Allocator, alloc_multiple}

-- A value, a NULL that is returned, or a crash: an assertion that fails or a write through NULL. With
-- the first two come the allocator's answers to later calls.
pub data Built (A : Type 0) : Type 0 where
  built : A → Allocator → Built A
  failed : Allocator → Built A
  crashed : Built A

abbrev pub Alloc : Type 0 → Type 0
Alloc A = Allocator → Built A

abbrev pub pure : {A : Type 0} → A → Alloc A
pure a answers = Built.built a answers

infixl 5 ◌>>=◌ ◌>>◌
abbrev pub ◌>>=◌ : {A B : Type 0} → Alloc A → (A → Alloc B) → Alloc B
◌>>=◌ m f answers = elim (m answers) [
  | Built.built a rest ↦ f a rest
  | Built.failed rest ↦ Built.failed rest
  | Built.crashed ↦ Built.crashed
]

abbrev pub ◌>>◌ : {B : Type 0} → Alloc (Unit {0}) → Alloc B → Alloc B
m >> k = m >>= λ _. k

-- `_cbor_malloc`, and an early return on NULL.
unfoldable pub allocate : ℕ → Alloc (Unit {0})
allocate size answers =
    if answers 0 size
    then Built.built tt (λ k. answers (suc k))
    else Built.failed (λ k. answers (suc k))

-- A call that may fail for lack of memory.
abbrev pub attempt : {A : Type 0} → (Allocator → Option A × Allocator) → Alloc A
attempt f answers = elim (f answers).0 [
  | none ↦ Built.failed (f answers).1
  | some a ↦ Built.built a (f answers).1
]

-- `_cbor_alloc_multiple`, and an early return on NULL.
unfoldable pub allocate_multiple : ℕ → ℕ → Alloc (Unit {0})
allocate_multiple item_size item_count answers =
    if (alloc_multiple answers item_size item_count).0
    then Built.built tt (alloc_multiple answers item_size item_count).1
    else Built.failed (alloc_multiple answers item_size item_count).1

-- A function that is undefined where an assertion of it fails.
abbrev pub checked : {A : Type 0} → Option A → Alloc A
checked none answers = Built.crashed
checked (some a) answers = Built.built a answers
