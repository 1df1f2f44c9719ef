-- ===== src/Refs/Claims.antt =====
-- What the reference counts guarantee.
use libcbor.Base.{
  length, ℕ, zero, suc, ◌+◌, ◌-◌, ◌%◌, ◌^◌, ◌≤◌, ◌<◌, ◌≡◌, inl, inr, refl, sym, ap, subst, ◌∙◌,
  arith, [], ◌∷◌, Option, none, some, true, false, if◌then◌else◌, ◌==◌,
}
use libcbor.Memory.{size_mod}
use libcbor.Refs.{Cell, Store, cell_at, put, incref, decref, move}
use libcbor.Refs.Decref.{with_cell-live}
use libcbor.Refs.Acyclic.{IsAcyclic, IsAcyclic-same, unowned-dead}
use libcbor.Refs.Exact.{once, Exact, Exact-put, same_cell}
use libcbor.Refs.Store.{count_of, cell_at-put, total}
use libcbor.Refs.Walk.{decref-Ends}

-- What nothing refers to is freed.
abbrev pub IsClean : Store → Type 0
IsClean h = (x : ℕ) (c : Cell) → cell_at h x ≡ some c → c.refcount ≡ 0 → c.freed ≡ true

-- Where the reference count of every item is the number of references to it, and everything without a
-- reference is freed, cbor_decref of an item that the caller refers to ends without an assertion that
-- fails, without use of a freed item and without a second free; both facts hold again, with that
-- reference given up. Fuel for as many nested calls as there are references is enough.
pub decref-IsClean :
    (h : Store) (a : ℕ) (owned : ℕ → ℕ) (fuel : ℕ)
    → total h ≤ fuel
    → Exact (λ x. owned x + once a x) h
    → IsClean h
    → (h' : Store) × (decref fuel h a ≡ some h') × Exact owned h' × IsClean h'
decref-IsClean h a owned fuel enough ok clean =
    let (h', e, r, less) = decref-Ends fuel h a owned enough ok in
    (
      h',
      e,
      r.exact,
      λ x c at_x z. elim (r.settled x c at_x z) [
        | inl gone ↦ gone
        | inr before ↦ clean x c before z
      ],
    )

-- No leak: where nothing but the caller's one reference to an item comes from outside of the store, the
-- counts are exact, everything without a reference is freed and no item refers to itself through others
-- (items refer to items that stand before them), cbor_decref of that item frees every item.
pub decref-IsFreed :
    (h : Store) (a fuel : ℕ)
    → total h ≤ fuel
    → Exact (once a) h
    → IsClean h
    → IsAcyclic h
    → (h' : Store) × (decref fuel h a ≡ some h')
      × ((x : ℕ) (c : Cell) → cell_at h' x ≡ some c → c.freed ≡ true)
decref-IsFreed h a fuel enough ok clean acyclic =
    let (h', e, r, less) =
      decref-Ends fuel h a (λ x. 0) enough
        (record { counts = λ x. omega (arith, ok.counts x); kept = ok.kept }) in
    let none_left =
      unowned-dead h' (λ x. omega (arith, r.exact.counts x))
        (IsAcyclic-same h h' r.bodies acyclic) in
    (
      h',
      e,
      λ x c at_x.
          let dead : c.refcount ≡ 0 =
            sym (ap count_of at_x) ∙ none_left (length h') x (omega arith) in
          elim (r.settled x c at_x dead) [ inl gone ↦ gone | inr before ↦ clean x c before dead ],
    )

-- On a store with exact counts, cbor_incref of an item with a reference counts one reference more,
-- unless the count would wrap.
pub incref-Exact :
    (h : Store) (a : ℕ) (c : Cell) (owned : ℕ → ℕ)
    → Exact owned h
    → cell_at h a ≡ some c
    → 1 ≤ c.refcount
    → c.refcount + 1 < 2 ^ 64
    → (h' : Store) × (incref h a ≡ some h') × Exact (λ x. owned x + once a x) h'
unfolding incref
incref-Exact h a c owned ok e counted small =
    let d : Cell = record c { refcount = (c.refcount + 1) % size_mod } in
    (
      put h a d,
      with_cell-live h a c
          (λ b. some (put h a (record b { refcount = (b.refcount + 1) % size_mod }))) e
          (ok.kept a c e counted),
      Exact-put owned (λ x. owned x + once a x) h a c d ok e (λ x. ground arith)
          (λ _. ok.kept a c e counted),
    )

put-back : (h : Store) (a : ℕ) (c d : Cell) → cell_at h a ≡ some c → put (put h a d) a c ≡ h
put-back [] a c d e = refl
put-back (b ∷ h) zero c d e = rw (same_cell e) refl
put-back (b ∷ h) (suc a) c d e = ap (λ (t : Store). b ∷ t) (put-back h a c d e)

same_store : {h h' : Store} → some h ≡ some h' → h ≡ h'
same_store {h} e = ap (λ (o : Option Store). elim o [ none ↦ h | some t ↦ t ]) e

-- cbor_move takes back what cbor_incref did to an item that is not freed, wrap-around included.
pub incref-move :
    (h h' : Store) (a : ℕ) (c : Cell)
    → cell_at h a ≡ some c
    → c.freed ≡ false
    → c.refcount < 2 ^ 64
    → incref h a ≡ some h'
    → move h' a ≡ some h
unfolding incref move
incref-move h h' a c e live small step =
    let d : Cell = record c { refcount = (c.refcount + 1) % size_mod } in
    let n : (if d.refcount == 0 then size_mod - 1 else d.refcount - 1) ≡ c.refcount =
      ground arith in
    let made : put h a d ≡ h' = same_store (
      sym (
        with_cell-live h a c
          (λ b. some (put h a (record b { refcount = (b.refcount + 1) % size_mod }))) e live)
      ∙ step) in
    subst (λ (t : Store). move t a ≡ some h) made
      (with_cell-live (put h a d) a d
          (λ b. some (
            put (put h a d) a
              (record b { refcount = if b.refcount == 0 then size_mod - 1 else b.refcount - 1 })))
          (cell_at-put h a c d e) live
        ∙ ap (λ (k : ℕ). some (put (put h a d) a (record c { refcount = k }))) n
        ∙ ap (λ (t : Store). some t) (put-back h a c d e))
