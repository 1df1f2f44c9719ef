-- ===== src/Unicode/Equivalence.antt =====
-- `_cbor_unicode_codepoint_count` against the grammar.
use libcbor.Base.{ℕ, suc, ◌+◌, ◌<◌, ◌≡◌, refl, sym, ap, ◌∙◌, arith, List, [], ◌∷◌, All}
use libcbor.Base.{◌==◌, if◌then◌else◌, ◌↔◌}
use libcbor.Streaming.Contract.{IsByte}
use libcbor.Unicode.{UnicodeStatus, count_loop, codepoint_count, unicode_decode}
use libcbor.Unicode.Grammar.{IsText, State, number, target, unicode_decode-target}
use libcbor.Unicode.Remains.{Left, bump, join, peel}

-- What is behind one round of the loop: the machine's next state, and a character more if it is
-- complete.
abbrev after_round : State → List ℕ → ℕ → ℕ → ℕ → ℕ × UnicodeStatus
after_round t src pos codep count =
    if number t == 1
    then (0, UnicodeStatus.badcp pos)
    else count_loop src (pos + 1) (number t) codep (if number t == 0 then count + 1 else count)

count_loop-step :
    (b : ℕ) (src : List ℕ) (pos codep count : ℕ) (st : State)
    → b < 256
    → count_loop (b ∷ src) pos (number st) codep count
      ≡ after_round (target st b) src pos (unicode_decode (number st) codep b).1 count
unfolding count_loop
count_loop-step b src pos codep count st h = rw (unicode_decode-target st codep b h) refl

-- The loop counts `n` characters more.
Counts : State → List ℕ → ℕ → Type 0
Counts st src n =
    (pos codep count : ℕ)
    → count_loop src pos (number st) codep count ≡ (count + n, UnicodeStatus.ok)

Counts-round :
    {s : List ℕ} {m : ℕ} (t : State) (src : List ℕ) (pos codep count : ℕ)
    → Left t s m
    → Counts t src m
    → after_round t src pos codep count ≡ (count + bump t m, UnicodeStatus.ok)
unfolding Counts
Counts-round {s} {m} State.accept src pos codep count l again =
    let e : count + 1 + m ≡ count + suc m = omega arith in
    again (pos + 1) codep (count + 1) ∙ ap (λ (k : ℕ). (k, UnicodeStatus.ok)) e
Counts-round State.reject src pos codep count l again = elim l [ ]
Counts-round State.one_left src pos codep count l again = again (pos + 1) codep count
Counts-round State.two_left src pos codep count l again = again (pos + 1) codep count
Counts-round State.after_e0 src pos codep count l again = again (pos + 1) codep count
Counts-round State.after_ed src pos codep count l again = again (pos + 1) codep count
Counts-round State.after_f0 src pos codep count l again = again (pos + 1) codep count
Counts-round State.three_left src pos codep count l again = again (pos + 1) codep count
Counts-round State.after_f4 src pos codep count l again = again (pos + 1) codep count

complete : (src : List ℕ) (st : State) (n : ℕ) → All IsByte src → Left st src n → Counts st src n
unfolding Counts count_loop
complete [] st n h (Left.start IsText.empty) pos codep count =
    let e : count ≡ count + 0 = omega arith in ap (λ (k : ℕ). (k, UnicodeStatus.ok)) e
complete (b ∷ src) st n h left pos codep count =
    let (m, l, e) = peel left in
    count_loop-step b src pos codep count st h.0
    ∙ rw e (
        Counts-round (target st b) src pos (unicode_decode (number st) codep b).1 count l
          (complete src (target st b) m h.1 l))

-- Where the loop ends well, it has counted a text.
Counted : State → List ℕ → ℕ → ℕ → Type 0
Counted st src count n = (m : ℕ) × Left st src m × (n ≡ count + m)

Counted-round :
    (t : State) (src : List ℕ) (pos codep count n : ℕ)
    → ((codep' count' : ℕ)
        → count_loop src (pos + 1) (number t) codep' count' ≡ (n, UnicodeStatus.ok)
        → Counted t src count' n)
    → after_round t src pos codep count ≡ (n, UnicodeStatus.ok)
    → (m : ℕ) × Left t src m × (n ≡ count + bump t m)
unfolding Counted
Counted-round State.accept src pos codep count n again e =
    let (m, l, k) = again codep (count + 1) e in (m, l, omega (arith, k))
Counted-round State.reject src pos codep count n again e = cc
Counted-round State.one_left src pos codep count n again e = again codep count e
Counted-round State.two_left src pos codep count n again e = again codep count e
Counted-round State.after_e0 src pos codep count n again e = again codep count e
Counted-round State.after_ed src pos codep count n again e = again codep count e
Counted-round State.after_f0 src pos codep count n again e = again codep count e
Counted-round State.three_left src pos codep count n again e = again codep count e
Counted-round State.after_f4 src pos codep count n again e = again codep count e

abbrev at_end : State → ℕ → ℕ → ℕ × UnicodeStatus
at_end st pos count =
    if number st == 0 then (count, UnicodeStatus.ok) else (0, UnicodeStatus.badcp pos)

Counted-end :
    (st : State) (pos count n : ℕ)
    → at_end st pos count ≡ (n, UnicodeStatus.ok)
    → Counted st [] count n
unfolding Counted
Counted-end State.accept pos count n e =
    (0, Left.start IsText.empty, omega (arith, ap (λ (r : ℕ × UnicodeStatus). r.0) e))
Counted-end State.reject pos count n e = cc
Counted-end State.one_left pos count n e = cc
Counted-end State.two_left pos count n e = cc
Counted-end State.after_e0 pos count n e = cc
Counted-end State.after_ed pos count n e = cc
Counted-end State.after_f0 pos count n e = cc
Counted-end State.three_left pos count n e = cc
Counted-end State.after_f4 pos count n e = cc

sound :
    (src : List ℕ) (st : State) (pos codep count n : ℕ)
    → All IsByte src
    → count_loop src pos (number st) codep count ≡ (n, UnicodeStatus.ok)
    → Counted st src count n
unfolding count_loop Counted
sound [] st pos codep count n h e = Counted-end st pos count n e
sound (b ∷ src) st pos codep count n h e =
    let (m, l, k) =
      Counted-round (target st b) src pos (unicode_decode (number st) codep b).1 count n
        (λ codep' count' e'. sound src (target st b) (pos + 1) codep' count' n h.1 e')
        (sym (count_loop-step b src pos codep count st h.0) ∙ e) in
    (bump (target st b) m, join st b l, k)

accepted : {src : List ℕ} {m n : ℕ} → n ≡ m → Left State.accept src m → IsText src n
accepted e (Left.start text) = rw e text

-- On bytes, `_cbor_unicode_codepoint_count` reports no error and the count `n` exactly where the bytes
-- are a sequence of `n` characters of UTF-8 by the grammar of RFC 3629.
pub codepoint_count-IsText :
    (src : List ℕ) (n : ℕ)
    → All IsByte src
    → (codepoint_count src ≡ (n, UnicodeStatus.ok)) ↔ IsText src n
unfolding codepoint_count Counted Counts
codepoint_count-IsText src n h = (
  (λ e. let (m, l, k) = sound src State.accept 0 0 0 n h e in accepted (omega (arith, k)) l),
  (λ text.
      let e : 0 + n ≡ n = omega arith in
      complete src State.accept n h (Left.start text) 0 0 0
      ∙ ap (λ (k : ℕ). (k, UnicodeStatus.ok)) e),
)
