-- ===== src/Unicode/Grammar.antt =====
-- UTF-8 as the grammar of RFC 3629, section 4, and as a machine by its rules. The tables of
-- src/cbor/internal/unicode.c are compared with that machine, entry by entry.
use libcbor.Base.{ℕ, zero, suc, ◌+◌, ◌*◌, ◌≤◌, ◌<◌, ◌≡◌, refl, arith, List, [], ◌∷◌}
use libcbor.Base.{Bool, true, ◌&&◌, leb, ◌==◌, ==_iff, Bool-cases, if◌then◌else◌, get_or, inl, inr}
use libcbor.Unicode.{utf8d, unicode_decode}

abbrev pub InRange : ℕ → ℕ → ℕ → Type 0
InRange low high b = (low ≤ b) × (b ≤ high)

abbrev pub IsTail : ℕ → Type 0
IsTail b = InRange 0x80 0xBF b

-- A list of bytes that is a sequence of `n` characters; one constructor for each rule of UTF8-char.
pub data IsText : List ℕ → ℕ → Type 0 where
  empty : IsText [] 0
  ascii : {a : ℕ} {s : List ℕ} {n : ℕ} → a ≤ 0x7F → IsText s n → IsText (a ∷ s) (suc n)
  two :
      {a b : ℕ} {s : List ℕ} {n : ℕ}
      → InRange 0xC2 0xDF a
      → IsTail b
      → IsText s n
      → IsText (a ∷ b ∷ s) (suc n)
  three_e0 :
      {b c : ℕ} {s : List ℕ} {n : ℕ}
      → InRange 0xA0 0xBF b
      → IsTail c
      → IsText s n
      → IsText (0xE0 ∷ b ∷ c ∷ s) (suc n)
  three_low :
      {a b c : ℕ} {s : List ℕ} {n : ℕ}
      → InRange 0xE1 0xEC a
      → IsTail b
      → IsTail c
      → IsText s n
      → IsText (a ∷ b ∷ c ∷ s) (suc n)
  three_ed :
      {b c : ℕ} {s : List ℕ} {n : ℕ}
      → InRange 0x80 0x9F b
      → IsTail c
      → IsText s n
      → IsText (0xED ∷ b ∷ c ∷ s) (suc n)
  three_high :
      {a b c : ℕ} {s : List ℕ} {n : ℕ}
      → InRange 0xEE 0xEF a
      → IsTail b
      → IsTail c
      → IsText s n
      → IsText (a ∷ b ∷ c ∷ s) (suc n)
  four_f0 :
      {b c d : ℕ} {s : List ℕ} {n : ℕ}
      → InRange 0x90 0xBF b
      → IsTail c
      → IsTail d
      → IsText s n
      → IsText (0xF0 ∷ b ∷ c ∷ d ∷ s) (suc n)
  four :
      {a b c d : ℕ} {s : List ℕ} {n : ℕ}
      → InRange 0xF1 0xF3 a
      → IsTail b
      → IsTail c
      → IsTail d
      → IsText s n
      → IsText (a ∷ b ∷ c ∷ d ∷ s) (suc n)
  four_f4 :
      {b c d : ℕ} {s : List ℕ} {n : ℕ}
      → InRange 0x80 0x8F b
      → IsTail c
      → IsTail d
      → IsText s n
      → IsText (0xF4 ∷ b ∷ c ∷ d ∷ s) (suc n)

-- Between two characters, behind a byte that starts none, or with so many bytes of a character still
-- to come; the first of them is restricted behind E0, ED, F0 and F4.
pub data State : Type 0 where
  accept reject one_left two_left after_e0 after_ed after_f0 three_left after_f4 : State

abbrev pub number : State → ℕ
number State.accept = 0
number State.reject = 1
number State.one_left = 2
number State.two_left = 3
number State.after_e0 = 4
number State.after_ed = 5
number State.after_f0 = 6
number State.three_left = 7
number State.after_f4 = 8

abbrev pub if_range : ℕ → ℕ → ℕ → State → State
if_range low high b next = if leb low b && leb b high then next else State.reject

abbrev pub after_lead : ℕ → State
after_lead b =
    if leb b 0x7F
    then State.accept
    else if leb b 0xC1
    then State.reject
    else if leb b 0xDF
    then State.one_left
    else if b == 0xE0
    then State.after_e0
    else if leb b 0xEC
    then State.two_left
    else if b == 0xED
    then State.after_ed
    else if leb b 0xEF
    then State.two_left
    else if b == 0xF0
    then State.after_f0
    else if leb b 0xF3
    then State.three_left
    else if b == 0xF4
    then State.after_f4
    else State.reject

abbrev pub target : State → ℕ → State
target State.accept b = after_lead b
target State.reject b = State.reject
target State.one_left b = if_range 0x80 0xBF b State.accept
target State.two_left b = if_range 0x80 0xBF b State.one_left
target State.after_e0 b = if_range 0xA0 0xBF b State.one_left
target State.after_ed b = if_range 0x80 0x9F b State.one_left
target State.after_f0 b = if_range 0x90 0xBF b State.two_left
target State.three_left b = if_range 0x80 0xBF b State.two_left
target State.after_f4 b = if_range 0x80 0x8F b State.two_left

-- The comparison.
unfoldable all_below : ℕ → (ℕ → Bool) → Bool
all_below zero test = true
all_below (suc n) test = test n && all_below n test

below : (n : ℕ) (test : ℕ → Bool) (b : ℕ) → all_below n test ≡ true → b < n → test b ≡ true
unfolding all_below
below zero test b h k = absurd (omega arith)
below (suc n) test b h k = elim (Bool-cases (test n)) [
  | inr e ↦ cc
  | inl e ↦ elim (Bool-cases (b == n)) [
    | inl same ↦ rw ((==_iff b n).0 same) e
    | inr differ ↦ below n test b (rw e at h) (ground arith)
  ]
]

table :
    (st : State)
    → all_below 256
        (λ b. get_or utf8d (256 + number st * 16 + get_or utf8d b 0) 0 == number (target st b))
      ≡ true
unfolding all_below utf8d
table State.accept = refl
table State.reject = refl
table State.one_left = refl
table State.two_left = refl
table State.after_e0 = refl
table State.after_ed = refl
table State.after_f0 = refl
table State.three_left = refl
table State.after_f4 = refl

-- One byte takes the automaton where it takes the machine.
pub unicode_decode-target :
    (st : State) (codep b : ℕ)
    → b < 256
    → (unicode_decode (number st) codep b).0 ≡ number (target st b)
unfolding unicode_decode
unicode_decode-target st codep b h = (==_iff _ _).0 (below 256 _ b (table st) h)
