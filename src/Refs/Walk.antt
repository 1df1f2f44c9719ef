-- ===== src/Refs/Walk.antt =====
-- cbor_decref through everything that an item refers to: a walk on fuel.
use libcbor.Base.{
  ℕ, zero, suc, ◌+◌, ◌-◌, ◌≤◌, ◌<◌, ◌≡◌, inl, inr, refl, ap, ◌∙◌, arith, List, [], ◌∷◌, Option,
  none, some, false, ◌==◌, Bool-cases, ==_iff,
}
use libcbor.Refs.{Cell, Store, cell_at, put, references, free, give_up, decref, decref_all}
use libcbor.Refs.Decref.{Released, Released-then, found, with_cell-live, shared, dying, buried}
use libcbor.Refs.Exact.{once, Exact}
use libcbor.Refs.Store.{sum_of-put, occurrences, total}

-- A decref ends without a fault, having given up one reference.
abbrev pub Ends : (Store → ℕ → Option Store) → Store → ℕ → (ℕ → ℕ) → Type 0
Ends step h a owned =
    (h' : Store) × (step h a ≡ some h') × Released owned h h' × (total h' < total h)

none_left : (owned : ℕ → ℕ) (h : Store) → Exact (λ x. owned x + 0) h → Released owned h h
none_left owned h ok = record {
  exact = record { counts = λ x. omega (arith, ok.counts x); kept = ok.kept };
  untouched = λ x c e z. e;
  settled = λ x c e z. inr e;
  less = omega arith;
  bodies = λ x. refl;
}

all-next :
    (step : Store → ℕ → Option Store) (h : Store) (a : ℕ) (rest : List ℕ) (h' : Store)
    → step h a ≡ some h'
    → decref_all step h (a ∷ rest) ≡ decref_all step h' rest
all-next step h a rest h' e =
    ap (λ (o : Option Store). elim o [ none ↦ none | some h' ↦ decref_all step h' rest ]) e

counted : (h : Store) (a : ℕ) (c : Cell) → cell_at h a ≡ some c → c.refcount ≤ total h
counted h a c e = omega (arith, sum_of-put (λ b. b.refcount) h a c (record c { refcount = 0 }) e)

give_up-shared :
    (step : Store → ℕ → Option Store) (h : Store) (a : ℕ) (c : Cell)
    → 2 ≤ c.refcount
    → give_up step h a c ≡ some (put h a (record c { refcount = c.refcount - 1 }))
unfolding give_up
give_up-shared step h a c many =
    let some_left : (c.refcount == 0) ≡ false = ground arith in
    let more_left : (c.refcount - 1 == 0) ≡ false = ground arith in rw (some_left, more_left) refl

give_up-last :
    (step : Store → ℕ → Option Store) (h : Store) (a : ℕ) (c : Cell) (h' : Store)
    → c.refcount ≡ 1
    → decref_all step (put h a (record c { refcount = 0 })) (references c.body) ≡ some h'
    → give_up step h a c ≡ free h' a
unfolding give_up
give_up-last step h a c h' one e =
    rw one (ap (λ (o : Option Store). elim o [ none ↦ none | some h'' ↦ free h'' a ]) e)

-- The loop over the references.
all_end :
    (step : Store → ℕ → Option Store) (bound : ℕ)
    → ((h : Store) (a : ℕ) (owned : ℕ → ℕ)
        → total h ≤ bound
        → Exact (λ x. owned x + once a x) h
        → Ends step h a owned)
    → (all : List ℕ) (h : Store) (owned : ℕ → ℕ) → total h ≤ bound
    → Exact (λ x. owned x + occurrences x all) h
    → (h' : Store) × (decref_all step h all ≡ some h') × Released owned h h'
all_end step bound one [] h owned small ok = (h, refl, none_left owned h ok)
all_end step bound one (a ∷ rest) h owned small ok =
    let ok' : Exact (λ x. owned x + occurrences x rest + once a x) h = record {
      counts = λ x. omega (arith, ok.counts x);
      kept = ok.kept;
    } in
    let (h', e, r, less) = one h a (λ x. owned x + occurrences x rest) small ok' in
    let (h'', e', r') = all_end step bound one rest h' owned (omega (arith, less)) r.exact in
    (h'', all-next step h a rest h' e ∙ e', Released-then _ owned h h' h'' r r')

pub decref-Ends :
    (fuel : ℕ) (h : Store) (a : ℕ) (owned : ℕ → ℕ)
    → total h ≤ fuel
    → Exact (λ x. owned x + once a x) h
    → Ends (decref fuel) h a owned
decref-Ends zero h a owned small ok =
    let (c, e, n, live) = found owned h a ok in absurd (omega (arith, n, counted h a c e))
decref-Ends (suc fuel) h a owned small ok =
    let (c, e, n, live) = found owned h a ok in
    let opened : decref (suc fuel) h a ≡ give_up (decref fuel) h a c =
      unfold decref in with_cell-live h a c (give_up (decref fuel) h a) e live in
    elim (Bool-cases (c.refcount == 1)) [
      | inr many ↦
          let more : 2 ≤ c.refcount = ground (arith, n, many) in
          let fewer =
            sum_of-put (λ b. b.refcount) h a c (record c { refcount = c.refcount - 1 }) e in
          (
            _,
            opened ∙ give_up-shared (decref fuel) h a c more,
            shared owned h a c ok e more,
            omega (arith, fewer),
          )
      | inl once_more ↦
          let one = (==_iff c.refcount 1).0 once_more in
          let fewer = sum_of-put (λ b. b.refcount) h a c (record c { refcount = 0 }) e in
          let (h', run, r) =
            all_end (decref fuel) fuel (λ h b o s k. decref-Ends fuel h b o s k) (references c.body)
              (put h a (record c { refcount = 0 })) owned (omega (arith, fewer, one))
              (dying owned h a c ok e one) in
          let (h'', gone, r', less) = buried owned h a c ok e h' one r in
          (h'', opened ∙ (give_up-last (decref fuel) h a c h' one run ∙ gone), r', less)
    ]
