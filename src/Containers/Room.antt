-- ===== src/Containers/Room.antt =====
-- A container holds no more members than it has room for, and its storage is no longer than a size_t
-- can say; the operations of src/cbor/arrays.c, maps.c, bytestrings.c and strings.c keep that.
use libcbor.Base.{
  ℕ, suc, ◌+◌, ◌*◌, ◌%◌, ◌^◌, ◌≤◌, ◌<◌, ◌≡◌, refl, arith, Option, none, some, Bool, true, false,
  if◌then◌else◌, leb, ◌==◌, Bool-cases, inl, inr, ◌⊎◌, length,
}
use libcbor.Containers.{grow, reserve, array_push, map_add_key, add_chunk}
use libcbor.Items.{Metadata, Item, Items, Pairs, count, count_pairs, snoc, snoc_pair}
use libcbor.Load.Decoded.{count-snoc}
use libcbor.Memory.{Allocator, safe_to_multiply, realloc_multiple, IsSize}
use libcbor.Memory.Bounds.{safe_to_multiply_bounds}

abbrev pub HasRoom : ℕ → ℕ → ℕ → Type 0
HasRoom member_size allocated used = (used ≤ allocated) × (member_size * allocated < 2 ^ 64)

-- Every container in an item has room for its members.
abbrev mutual
  pub IsRoomy : Item → Type 0
  IsRoomy (Item.indef_bytestring capacity chunks) = HasRoom 8 capacity (length chunks)
  IsRoomy (Item.indef_string capacity chunks) = HasRoom 8 capacity (length chunks)
  IsRoomy (Item.array d allocated xs) = HasRoom 8 allocated (count xs) × AreRoomy xs
  IsRoomy (Item.map d allocated ps) = HasRoom 16 allocated (count_pairs ps) × PairsAreRoomy ps
  IsRoomy (Item.tag v x) = IsRoomy x
  IsRoomy x = Unit {0}

  pub AreRoomy : Items → Type 0
  AreRoomy Items.nil = Unit {0}
  AreRoomy (Items.cons x xs) = IsRoomy x × AreRoomy xs

  pub PairsAreRoomy : Pairs → Type 0
  PairsAreRoomy Pairs.end = Unit {0}
  PairsAreRoomy (Pairs.pair k v ps) = IsRoomy k × IsRoomy v × PairsAreRoomy ps

-- A result, if there is one, satisfies `P`.
pub data IfAny {A : Type 0} (P : A → Type 0) : Option A → Type 0 where
  nothing : IfAny P none
  just : (a : A) → P a → IfAny P (some a)

IfAny-if :
    {A : Type 0} {P : A → Type 0} (c : Bool) (x y : Option A)
    → (c ≡ true → IfAny P x)
    → (c ≡ false → IfAny P y)
    → IfAny P (if c then x else y)
IfAny-if true x y h k = h refl
IfAny-if false x y h k = k refl

IfAny-fst :
    {A : Type 0} {P : A → Type 0} (c : Bool) (x y : Option A × Allocator)
    → (c ≡ true → IfAny P x.0)
    → (c ≡ false → IfAny P y.0)
    → IfAny P (if c then x else y).0
IfAny-fst true x y h k = h refl
IfAny-fst false x y h k = k refl

reallocated_fits :
    (answers : Allocator) (a b : ℕ)
    → IsSize a
    → IsSize b
    → (realloc_multiple answers a b).0 ≡ true
    → a * b < 2 ^ 64
unfolding realloc_multiple
reallocated_fits answers a b ha hb e = elim (Bool-cases (safe_to_multiply a b)) [
  | inl safe ↦ (safe_to_multiply_bounds a b ha hb).0 safe
  | inr unsafe ↦ ground arith
]

new_size :
    (n : ℕ)
    → 2 * n < 2 ^ 64
    → (n + 1 ≤ (if n == 0 then 1 else 2 * n % 2 ^ 64))
      × ((if n == 0 then 1 else 2 * n % 2 ^ 64) < 2 ^ 64)
new_size n h = (ground arith, ground arith)

grow-HasRoom :
    (size n : ℕ) (answers : Allocator)
    → size ≤ 16
    → IsSize n
    → IfAny (λ m. HasRoom size m (suc n)) (grow size n answers).0
unfolding grow
grow-HasRoom size n answers h k =
    IfAny-fst (safe_to_multiply 2 n) _ _
      (λ safe.
        let small = (safe_to_multiply_bounds 2 n (omega arith) k).0 safe in
        IfAny-if (realloc_multiple answers size (if n == 0 then 1 else 2 * n % 2 ^ 64)).0 _ _
          (λ e. IfAny.just _ (
            omega (arith, (new_size n small).0),
            reallocated_fits answers size _ (omega arith) (new_size n small).1 e,
          ))
          (λ e. IfAny.nothing))
      (λ unsafe. IfAny.nothing)

-- 8 and 16 bytes are the sizes of the members.
pub reserve-HasRoom :
    (d : Metadata) (size n used : ℕ) (answers : Allocator)
    → (size ≡ 8) ⊎ (size ≡ 16)
    → HasRoom size n used
    → IfAny (λ m. HasRoom size m (suc used)) (reserve d size n used answers).0
unfolding reserve
reserve-HasRoom Metadata.definite size n used answers either h =
    IfAny-if (leb n used) _ _ (λ e. IfAny.nothing) (λ e. IfAny.just n (ground arith, h.1))
reserve-HasRoom Metadata.indefinite size n used answers either h =
    IfAny-fst (leb n used) _ _
      (λ e.
        let full : used ≡ n = ground arith in
        rw full (grow-HasRoom size n answers (ground arith) (ground arith)))
      (λ e. IfAny.just n (ground arith, h.1))

pub add_chunk-HasRoom :
    (n used : ℕ) (answers : Allocator)
    → HasRoom 8 n used
    → IfAny (λ m. HasRoom 8 m (suc used)) (add_chunk n used answers).0
unfolding add_chunk
add_chunk-HasRoom n used answers h =
    IfAny-fst (used == n) _ _
      (λ e.
        let full : used ≡ n = ground arith in
        rw full (grow-HasRoom 8 n answers (omega arith) (omega arith)))
      (λ e. IfAny.just n (ground arith, h.1))

pub snoc-AreRoomy : (xs : Items) (x : Item) → AreRoomy xs → IsRoomy x → AreRoomy (snoc xs x)
snoc-AreRoomy Items.nil x h k = (k, tt)
snoc-AreRoomy (Items.cons y xs) x h k = (h.0, snoc-AreRoomy xs x h.1 k)

pub snoc_pair-PairsAreRoomy :
    (ps : Pairs) (k v : Item)
    → PairsAreRoomy ps
    → IsRoomy k
    → IsRoomy v
    → PairsAreRoomy (snoc_pair ps k v)
snoc_pair-PairsAreRoomy Pairs.end k v h hk hv = (hk, hv, tt)
snoc_pair-PairsAreRoomy (Pairs.pair a b ps) k v h hk hv =
    (h.0, h.1, snoc_pair-PairsAreRoomy ps k v h.2 hk hv)

push_room :
    {P : ℕ × Items → Type 0} (xs : Items) (o : Option ℕ) {Q : ℕ → Type 0}
    → ((m : ℕ) → Q m → P (m, xs))
    → IfAny Q o
    → IfAny P (elim o [ none ↦ none | some m ↦ some (m, xs) ])
push_room xs _ f IfAny.nothing = IfAny.nothing
push_room xs _ f (IfAny.just m q) = IfAny.just (m, xs) (f m q)

pub array_push-HasRoom :
    (d : Metadata) (n : ℕ) (xs : Items) (x : Item) (answers : Allocator)
    → HasRoom 8 n (count xs)
    → AreRoomy xs
    → IsRoomy x
    → IfAny (λ p. HasRoom 8 p.0 (count p.1) × AreRoomy p.1) (array_push d n xs x answers).0
unfolding array_push
array_push-HasRoom d n xs x answers h k kx =
    push_room (snoc xs x) (reserve d 8 n (count xs) answers).0
      (λ m room. (rw (count-snoc xs x) room, snoc-AreRoomy xs x k kx))
      (reserve-HasRoom d 8 n (count xs) answers (inl refl) h)

pub map_add_key-HasRoom :
    (d : Metadata) (n : ℕ) (ps : Pairs) (answers : Allocator)
    → HasRoom 16 n (count_pairs ps)
    → IfAny (λ m. HasRoom 16 m (suc (count_pairs ps))) (map_add_key d n ps answers).0
unfolding map_add_key
map_add_key-HasRoom d n ps answers h = reserve-HasRoom d 16 n (count_pairs ps) answers (inr refl) h

-- A definite container keeps its room.
pub array_push-definite :
    (n : ℕ) (xs : Items) (x : Item) (answers : Allocator)
    → IfAny
        (λ p. (p.0 ≡ n) × (count p.1 ≡ suc (count xs)))
        (array_push Metadata.definite n xs x answers).0
unfolding array_push reserve
array_push-definite n xs x answers =
    push_room (snoc xs x) (if leb n (count xs) then none else some n)
      (λ m (same : m ≡ n). (same, count-snoc xs x))
      (IfAny-if (leb n (count xs)) _ _ (λ e. IfAny.nothing) (λ e. IfAny.just n refl))

pub map_add_key-definite :
    (n : ℕ) (ps : Pairs) (answers : Allocator)
    → IfAny (λ m. m ≡ n) (map_add_key Metadata.definite n ps answers).0
unfolding map_add_key reserve
map_add_key-definite n ps answers =
    IfAny-if (leb n (count_pairs ps)) _ _ (λ e. IfAny.nothing) (λ e. IfAny.just n refl)
