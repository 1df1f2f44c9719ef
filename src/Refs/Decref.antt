-- ===== src/Refs/Decref.antt =====
-- cbor_decref keeps the reference counts exact.
use libcbor.Base.{
  ℕ, ◌+◌, ◌-◌, ◌≤◌, ◌<◌, ◌≡◌, ◌≢◌, ◌⊎◌, inl, inr, refl, sym, ap, ◌∙◌, arith, Option, none, some,
  true, false, if◌then◌else◌, ◌==◌, Bool-cases, ==_iff,
}
use libcbor.Refs.{Cell, Store, cell_at, put, references, with_cell, free}
use libcbor.Refs.Acyclic.{body_of, body_at-put}
use libcbor.Refs.Exact.{once, Exact, Exact-put, same_cell}
use libcbor.Refs.Store.{
  sum_of-put, cell_at-put, cell_at-put_other, occurrences, held, count_of, total,
}

-- The store behind some decrefs: the counts are exact without the references given up, cells that had
-- no references are untouched, and what has none now is freed or is such a cell.
pub record Released (owned : ℕ → ℕ) (h h' : Store) : Type 0 where
  pub exact : Exact owned h'
  pub untouched : (x : ℕ) (c : Cell) → cell_at h x ≡ some c → c.refcount ≡ 0 → cell_at h' x ≡ some c
  pub settled :
      (x : ℕ) (c : Cell)
      → cell_at h' x ≡ some c
      → c.refcount ≡ 0
      → (c.freed ≡ true) ⊎ (cell_at h x ≡ some c)
  pub less : total h' ≤ total h
  pub bodies : (x : ℕ) → body_of (cell_at h' x) ≡ body_of (cell_at h x)

-- Stores one after another.
pub Released-then :
    (owned owned' : ℕ → ℕ) (h h' h'' : Store)
    → Released owned h h'
    → Released owned' h' h''
    → Released owned' h h''
Released-then owned owned' h h' h'' r r' = record {
  exact = r'.exact;
  untouched = λ x c e none_left. r'.untouched x c (r.untouched x c e none_left) none_left;
  settled = λ x c e none_left. elim (r'.settled x c e none_left) [
    | inl gone ↦ inl gone
    | inr before ↦ r.settled x c before none_left
  ];
  less = omega (arith, r.less, r'.less);
  bodies = λ x. r'.bodies x ∙ r.bodies x;
}

-- A live cell behind an address that is referred to.
abbrev pub Found : (ℕ → ℕ) → Store → ℕ → Type 0
Found owned h a =
    (c : Cell) × (cell_at h a ≡ some c) × (c.refcount ≡ owned a + 1 + held h a) × (c.freed ≡ false)

Found-by :
    (owned : ℕ → ℕ) (h : Store) (a : ℕ) (o : Option Cell)
    → Exact (λ x. owned x + once a x) h
    → cell_at h a ≡ o
    → Found owned h a
Found-by owned h a none ok e = absurd (ground (arith, ok.counts a, ap count_of e))
Found-by owned h a (some c) ok e =
    let n : c.refcount ≡ owned a + 1 + held h a = ground (arith, ok.counts a, ap count_of e) in
    (c, e, n, ok.kept a c e (omega (arith, n)))

pub found :
    (owned : ℕ → ℕ) (h : Store) (a : ℕ) → Exact (λ x. owned x + once a x) h → Found owned h a
found owned h a ok = Found-by owned h a (cell_at h a) ok refl

pub with_cell-live :
    (h : Store) (a : ℕ) (c : Cell) (f : Cell → Option Store)
    → cell_at h a ≡ some c
    → c.freed ≡ false
    → with_cell h a f ≡ f c
with_cell-live h a c f e live =
    let opened : with_cell h a f ≡ (if c.freed then none else f c) =
      ap (λ (o : Option Cell). elim o [ none ↦ none | some c ↦ if c.freed then none else f c ]) e in
    opened ∙ (rw live refl)

unlike :
    (h : Store) (a x : ℕ) (c b : Cell)
    → cell_at h a ≡ some c
    → cell_at h x ≡ some b
    → c.refcount ≢ b.refcount
    → x ≢ a
unlike h a x c b e at_x differ x_a =
    differ (ap (λ (d : Cell). d.refcount) (same_cell (sym e ∙ (rw x_a at at_x))))

module _ (owned : ℕ → ℕ) (h : Store) (a : ℕ) (c : Cell) (ok : Exact (λ x. owned x + once a x) h)
    (e : cell_at h a ≡ some c) where
  -- A reference is given up, and others remain.
  pub shared : 2 ≤ c.refcount → Released owned h (put h a (record c { refcount = c.refcount - 1 }))
  shared many =
      let d : Cell = record c { refcount = c.refcount - 1 } in
      record {
        exact =
            Exact-put (λ x. owned x + once a x) owned h a c d ok e (λ x. ground arith)
              (λ _. ok.kept a c e (omega arith));
        untouched = λ x b at_x none_left.
            cell_at-put_other h a x d (unlike h a x c b e at_x (λ k. omega (arith, k))) ∙ at_x;
        settled = λ x b at_x none_left. inr (
            sym (
              cell_at-put_other h a x d
                (unlike (put h a d) a x d b (cell_at-put h a c d e) at_x (λ k. omega (arith, k))))
            ∙ at_x);
        less = omega (arith, sum_of-put (λ b. b.refcount) h a c d e);
        bodies = λ x. body_at-put h a x c d e refl;
      }

  -- The last one is given up: what the cell refers to is owned for the moment.
  pub dying :
      c.refcount ≡ 1
      → Exact
          (λ x. owned x + occurrences x (references c.body))
          (put h a (record c { refcount = 0 }))
  dying one =
      Exact-put (λ x. owned x + once a x) (λ x. owned x + occurrences x (references c.body)) h a c
        (record c { refcount = 0 }) ok e (λ x. ground arith) (λ many. absurd (omega arith))

  -- The item itself is freed, when everything that it refers to has been given up.
  pub buried :
      (h' : Store)
      → c.refcount ≡ 1
      → Released owned (put h a (record c { refcount = 0 })) h'
      → (h'' : Store) × (free h' a ≡ some h'') × Released owned h h'' × (total h'' < total h)
  unfolding free
  buried h' one r =
      let gone : Cell = record c { refcount = 0 } in
      let buried_cell : Cell = record gone { freed = true } in
      let here : cell_at h' a ≡ some gone = r.untouched a gone (cell_at-put h a c gone e) refl in
      let live : c.freed ≡ false = ok.kept a c e (omega arith) in
      let before = sum_of-put (λ b. b.refcount) h a c gone e in
      let after = sum_of-put (λ b. b.refcount) h' a gone buried_cell here in
      (
        put h' a buried_cell,
        with_cell-live h' a gone (λ b. some (put h' a (record b { freed = true }))) here live,
        record {
          exact =
              Exact-put owned owned h' a gone buried_cell r.exact here (λ x. ground arith)
                (λ many. absurd (omega arith));
          untouched = λ x b at_x none_left.
              let other = unlike h a x c b e at_x (λ k. omega (arith, k)) in
              cell_at-put_other h' a x buried_cell other
              ∙ r.untouched x b (cell_at-put_other h a x gone other ∙ at_x) none_left;
          settled = λ x b at_x none_left. elim (Bool-cases (x == a)) [
            | inl same ↦
                let x_a = (==_iff x a).0 same in
                let it : buried_cell ≡ b =
                  same_cell (sym (cell_at-put h' a gone buried_cell here) ∙ (rw x_a at at_x)) in
                inl (ap (λ (d : Cell). d.freed) (sym it))
            | inr differ ↦
                let other : x ≢ a = λ x_a. ground (arith, x_a, differ) in
                elim (r.settled x b (sym (cell_at-put_other h' a x buried_cell other) ∙ at_x)
                  none_left) [
                    | inl freed ↦ inl freed
                    | inr at_first ↦ inr (sym (cell_at-put_other h a x gone other) ∙ at_first)
                  ]
          ];
          less = omega (arith, before, after, r.less);
          bodies = λ x.
              body_at-put h' a x gone buried_cell here refl
              ∙ r.bodies x
              ∙ body_at-put h a x c gone e refl;
        },
        omega (arith, before, after, r.less),
      )
