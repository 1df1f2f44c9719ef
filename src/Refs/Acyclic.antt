-- ===== src/Refs/Acyclic.antt =====
-- Stores without cycles: what nothing outside refers to has no reference at all.
use libcbor.Base.{
  ℕ, zero, suc, ◌+◌, ◌≤◌, ◌<◌, ◌≡◌, ◌⊎◌, inl, inr, refl, sym, ap, subst, ◌∙◌, arith, List, [], ◌∷◌,
  All, Option, none, some, length, false, ◌==◌,
}
use libcbor.Refs.{Body, Cell, Store, cell_at, put, references}
use libcbor.Refs.Store.{occurrences, held, count_of}
use native.Mathlib.Decide.{dec_le}

abbrev pub body_of : Option Cell → Option Body
body_of none = none
body_of (some c) = some c.body

pub body_at-put :
    (h : Store) (a x : ℕ) (c d : Cell)
    → cell_at h a ≡ some c
    → d.body ≡ c.body
    → body_of (cell_at (put h a d) x) ≡ body_of (cell_at h x)
body_at-put [] a x c d e same = refl
body_at-put (b ∷ h) zero zero c d e same = ap some same ∙ sym (ap body_of e)
body_at-put (b ∷ h) zero (suc x) c d e same = refl
body_at-put (b ∷ h) (suc a) zero c d e same = refl
body_at-put (b ∷ h) (suc a) (suc x) c d e same = body_at-put h a x c d e same

occurrences-none : (x a : ℕ) (ys : List ℕ) → All (λ y. y < a) ys → a ≤ x → occurrences x ys ≡ 0
occurrences-none x a [] h k = refl
occurrences-none x a (y ∷ ys) h k =
    let other : (x == y) ≡ false = ground (arith, h.0) in
    rw (other, occurrences-none x a ys h.1 k) refl

held-none :
    (h : Store) (x : ℕ)
    → ((a : ℕ) (c : Cell)
        → cell_at h a ≡ some c
        → (c.refcount ≡ 0) ⊎ (occurrences x (references c.body) ≡ 0))
    → held h x ≡ 0
held-none [] x each = refl
held-none (c ∷ h) x each =
    let rest = held-none h x (λ a d e. each (suc a) d e) in
    elim (each 0 c refl) [
      | inl dead ↦ ground (arith, dead, rest)
      | inr away ↦ ground (arith, away, rest)
    ]

-- An item refers to items that stand before it: there are no cycles.
abbrev pub IsAcyclic : Store → Type 0
IsAcyclic h = (x : ℕ) (c : Cell) → cell_at h x ≡ some c → All (λ y. y < x) (references c.body)

outside : (h : Store) (x : ℕ) → length h ≤ x → count_of (cell_at h x) ≡ 0
outside [] x e = refl
outside (c ∷ h) zero e = absurd (omega arith)
outside (c ∷ h) (suc x) e = outside h x (omega arith)

-- Without references from outside, an acyclic store has none at all.
pub unowned-dead :
    (h : Store)
    → ((x : ℕ) → count_of (cell_at h x) ≡ held h x)
    → IsAcyclic h
    → (k x : ℕ) → length h ≤ x + k
    → count_of (cell_at h x) ≡ 0
unowned-dead h exact acyclic zero x near = outside h x (omega arith)
unowned-dead h exact acyclic (suc k) x near =
    exact x
    ∙ held-none h x (λ a c e. elim (dec_le a x) [
      | yes low ↦ inr (occurrences-none x a (references c.body) (acyclic a c e) low)
      | no high ↦ inl (sym (ap count_of e) ∙ unowned-dead h exact acyclic k a (omega (arith, high)))
    ])

IsAcyclic-by :
    (h h' : Store) (x : ℕ) (c' : Cell) (o : Option Cell)
    → cell_at h x ≡ o
    → body_of (cell_at h' x) ≡ body_of o
    → cell_at h' x ≡ some c'
    → IsAcyclic h
    → All (λ y. y < x) (references c'.body)
IsAcyclic-by h h' x c' none e same at_x acyclic = cc
IsAcyclic-by h h' x c' (some c) e same at_x acyclic =
    subst
      (λ (o : Option Body). elim o [ none ↦ Unit {0} | some b ↦ All (λ y. y < x) (references b) ])
      (sym same ∙ ap body_of at_x) (acyclic x c e)

-- The bodies decide.
pub IsAcyclic-same :
    (h h' : Store)
    → ((x : ℕ) → body_of (cell_at h' x) ≡ body_of (cell_at h x))
    → IsAcyclic h
    → IsAcyclic h'
IsAcyclic-same h h' same acyclic x c e = IsAcyclic-by h h' x c (cell_at h x) refl (same x) e acyclic
