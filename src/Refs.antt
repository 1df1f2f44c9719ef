-- ===== src/Refs.antt =====
-- src/cbor/common.c: reference counts. Items stand in a store, an item's address is its index, and an
-- item that is freed stays there, marked. `none` is a fault: an assertion that fails, a use of a freed
-- item, or a second free.
pub mod Store
pub mod Acyclic
pub mod Exact
pub mod Decref
pub mod Walk
pub mod Claims
use libcbor.Base.{
  ℕ, zero, suc, ◌+◌, ◌-◌, ◌%◌, List, [], ◌∷◌, ◌++◌, Option, none, some, Bool, true, false,
  if◌then◌else◌, ◌==◌,
}
use libcbor.Memory.{size_mod}

-- What an item holds of other items, by its type. Arrays, maps and tags may hold NULL.
pub data Body : Type 0 where
  int float_ctrl : Body
  definite_string : Body
  indefinite_string : List ℕ → Body
  array : List (Option ℕ) → Body
  map : List (ℕ × Option ℕ) → Body
  tag : Option ℕ → Body

pub record Cell : Type 0 where
  pub refcount : ℕ
  pub freed : Bool
  pub body : Body

abbrev pub Store : Type 0
Store = List Cell

abbrev pub cell_at : Store → ℕ → Option Cell
cell_at [] a = none
cell_at (c ∷ h) zero = some c
cell_at (c ∷ h) (suc a) = cell_at h a

abbrev pub put : Store → ℕ → Cell → Store
put [] a c = []
put (d ∷ h) zero c = c ∷ h
put (d ∷ h) (suc a) c = d ∷ put h a c

-- A pointer that may be NULL.
abbrev pub pointer : Option ℕ → List ℕ
pointer none = []
pointer (some a) = a ∷ []

abbrev pub pointers : List (Option ℕ) → List ℕ
pointers [] = []
pointers (p ∷ ps) = pointer p ++ pointers ps

abbrev pub entries : List (ℕ × Option ℕ) → List ℕ
entries [] = []
entries ((key, value) ∷ ps) = key ∷ (pointer value ++ entries ps)

-- The items that cbor_decref visits when it frees an item, in its order.
abbrev pub references : Body → List ℕ
references Body.int = []
references Body.float_ctrl = []
references Body.definite_string = []
references (Body.indefinite_string chunks) = chunks
references (Body.array handle) = pointers handle
references (Body.map handle) = entries handle
references (Body.tag tagged_item) = pointer tagged_item

-- Work on an item that is not freed.
abbrev pub with_cell : Store → ℕ → (Cell → Option Store) → Option Store
with_cell h a f = elim (cell_at h a) [ none ↦ none | some c ↦ if c.freed then none else f c ]

-- `_cbor_free(item)`.
unfoldable pub free : Store → ℕ → Option Store
free h a = with_cell h a (λ c. some (put h a (record c { freed = true })))

unfoldable pub incref : Store → ℕ → Option Store
incref h a =
    with_cell h a (λ c. some (put h a (record c { refcount = (c.refcount + 1) % size_mod })))

-- The loops over the references.
abbrev pub decref_all : (Store → ℕ → Option Store) → Store → List ℕ → Option Store
decref_all decref h [] = some h
decref_all decref h (a ∷ rest) = elim (decref h a) [
  | none ↦ none
  | some h' ↦ decref_all decref h' rest
]

-- `if (--item->refcount == 0)` with its switch; `decref` is for the references.
unfoldable pub give_up : (Store → ℕ → Option Store) → Store → ℕ → Cell → Option Store
unfolding free
give_up decref h a c =
    if c.refcount == 0
    then none
    else (let h' = put h a (record c { refcount = c.refcount - 1 }) in
        if c.refcount - 1 == 0
        then elim (decref_all decref h' (references c.body)) [ none ↦ none | some h'' ↦ free h'' a ]
        else some h')

-- On fuel: an item that is decref'ed within another takes one unit less.
unfoldable pub decref : ℕ → Store → ℕ → Option Store
unfolding give_up
decref zero h a = none
decref (suc fuel) h a = with_cell h a (give_up (decref fuel) h a)

-- cbor_move; a refcount of 0 wraps.
unfoldable pub move : Store → ℕ → Option Store
move h a = with_cell h a (λ c.
    some
      (put h a (record c { refcount = if c.refcount == 0 then size_mod - 1 else c.refcount - 1 })))
