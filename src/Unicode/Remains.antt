-- ===== src/Unicode/Remains.antt =====
-- What is left of a text of UTF-8 in a state of the machine, and how a byte changes it.
use libcbor.Base.{ℕ, suc, ◌≤◌, ◌≡◌, refl, arith, List, ◌∷◌}
use libcbor.Base.{Bool, true, false, leb, ◌==◌, Bool-cases, if◌then◌else◌, inl, inr}
use libcbor.Unicode.Grammar.{InRange, IsTail, IsText, State, target, if_range, after_lead}

-- What is left of a text in a state: the characters that are still to be completed are counted.
pub data Left : State → List ℕ → ℕ → Type 0 where
  start : {s : List ℕ} {n : ℕ} → IsText s n → Left State.accept s n
  one : {b : ℕ} {s : List ℕ} {n : ℕ} → IsTail b → IsText s n → Left State.one_left (b ∷ s) (suc n)
  two :
      {b : ℕ} {s : List ℕ} {n : ℕ}
      → IsTail b
      → Left State.one_left s n
      → Left State.two_left (b ∷ s) n
  e0 :
      {b : ℕ} {s : List ℕ} {n : ℕ}
      → InRange 0xA0 0xBF b
      → Left State.one_left s n
      → Left State.after_e0 (b ∷ s) n
  ed :
      {b : ℕ} {s : List ℕ} {n : ℕ}
      → InRange 0x80 0x9F b
      → Left State.one_left s n
      → Left State.after_ed (b ∷ s) n
  f0 :
      {b : ℕ} {s : List ℕ} {n : ℕ}
      → InRange 0x90 0xBF b
      → Left State.two_left s n
      → Left State.after_f0 (b ∷ s) n
  three :
      {b : ℕ} {s : List ℕ} {n : ℕ}
      → IsTail b
      → Left State.two_left s n
      → Left State.three_left (b ∷ s) n
  f4 :
      {b : ℕ} {s : List ℕ} {n : ℕ}
      → InRange 0x80 0x8F b
      → Left State.two_left s n
      → Left State.after_f4 (b ∷ s) n

-- The character that is complete, if any.
abbrev pub bump : State → ℕ → ℕ
bump State.accept n = suc n
bump st n = n

-- A byte within its range, or a refusal.
data Ranged (low high b : ℕ) (next : State) : State → Type 0 where
  within : InRange low high b → Ranged low high b next next
  outside : Ranged low high b next State.reject

ranged : (low high b : ℕ) (next : State) → Ranged low high b next (if_range low high b next)
ranged low high b next = elim (Bool-cases (leb low b)) [
  | inr e ↦ rw e Ranged.outside
  | inl e ↦ elim (Bool-cases (leb b high)) [
    | inr e' ↦ rw (e, e') Ranged.outside
    | inl e' ↦ rw (e, e') (Ranged.within (ground arith, ground arith))
  ]
]

join_one :
    {b n : ℕ} {s : List ℕ} {t : State}
    → Ranged 0x80 0xBF b State.accept t
    → Left t s n
    → Left State.one_left (b ∷ s) (bump t n)
join_one (Ranged.within h) (Left.start text) = Left.one h text
join_one Ranged.outside left = elim left [ ]

carry :
    {low high b n : ℕ} {s : List ℕ} {st next t : State}
    → (InRange low high b → Left next s n → Left st (b ∷ s) n)
    → bump next n ≡ n
    → Ranged low high b next t
    → Left t s n
    → Left st (b ∷ s) (bump t n)
carry make e (Ranged.within h) left = rw e (make h left)
carry make e Ranged.outside left = elim left [ ]

-- A byte at the start of a character.
data Lead (b : ℕ) : State → Type 0 where
  ascii : b ≤ 0x7F → Lead b State.accept
  two : InRange 0xC2 0xDF b → Lead b State.one_left
  e0 : b ≡ 0xE0 → Lead b State.after_e0
  lower : InRange 0xE1 0xEC b → Lead b State.two_left
  ed : b ≡ 0xED → Lead b State.after_ed
  upper : InRange 0xEE 0xEF b → Lead b State.two_left
  f0 : b ≡ 0xF0 → Lead b State.after_f0
  four : InRange 0xF1 0xF3 b → Lead b State.three_left
  f4 : b ≡ 0xF4 → Lead b State.after_f4
  neither : Lead b State.reject

Lead-if :
    {b : ℕ} (c : Bool) {x y : State}
    → (c ≡ true → Lead b x)
    → (c ≡ false → Lead b y)
    → Lead b (if c then x else y)
Lead-if true hx hy = hx refl
Lead-if false hx hy = hy refl

lead : (b : ℕ) → Lead b (after_lead b)
lead b =
    Lead-if (leb b 0x7F) (λ e. Lead.ascii (ground arith))
      (λ e1.
        Lead-if (leb b 0xC1) (λ e. Lead.neither)
          (λ e2.
            Lead-if (leb b 0xDF) (λ e. Lead.two (ground arith, ground arith))
              (λ e3.
                Lead-if (b == 0xE0) (λ e. Lead.e0 (ground arith))
                  (λ e4.
                    Lead-if (leb b 0xEC) (λ e. Lead.lower (ground arith, ground arith))
                      (λ e5.
                        Lead-if (b == 0xED) (λ e. Lead.ed (ground arith))
                          (λ e6.
                            Lead-if (leb b 0xEF) (λ e. Lead.upper (ground arith, ground arith))
                              (λ e7.
                                Lead-if (b == 0xF0) (λ e. Lead.f0 (ground arith))
                                  (λ e8.
                                    Lead-if (leb b 0xF3)
                                      (λ e. Lead.four (ground arith, ground arith))
                                      (λ e9.
                                        Lead-if (b == 0xF4) (λ e. Lead.f4 (ground arith))
                                          (λ e10. Lead.neither))))))))))

lead_text : {b n : ℕ} {s : List ℕ} {t : State} → Lead b t → Left t s n → IsText (b ∷ s) (bump t n)
lead_text (Lead.ascii h) (Left.start text) = IsText.ascii h text
lead_text (Lead.two h) (Left.one k text) = IsText.two h k text
lead_text (Lead.e0 e) (Left.e0 k (Left.one l text)) = rw e (IsText.three_e0 k l text)
lead_text (Lead.lower h) (Left.two k (Left.one l text)) = IsText.three_low h k l text
lead_text (Lead.ed e) (Left.ed k (Left.one l text)) = rw e (IsText.three_ed k l text)
lead_text (Lead.upper h) (Left.two k (Left.one l text)) = IsText.three_high h k l text
lead_text (Lead.f0 e) (Left.f0 k (Left.two l (Left.one m text))) = rw e (IsText.four_f0 k l m text)
lead_text (Lead.four h) (Left.three k (Left.two l (Left.one m text))) = IsText.four h k l m text
lead_text (Lead.f4 e) (Left.f4 k (Left.two l (Left.one m text))) = rw e (IsText.four_f4 k l m text)
lead_text Lead.neither left = elim left [ ]

pub join :
    {n : ℕ} {s : List ℕ} (st : State) (b : ℕ)
    → Left (target st b) s n
    → Left st (b ∷ s) (bump (target st b) n)
join State.accept b left = Left.start (lead_text (lead b) left)
join State.reject b left = elim left [ ]
join State.one_left b left = join_one (ranged 0x80 0xBF b State.accept) left
join State.two_left b left = carry Left.two refl (ranged 0x80 0xBF b State.one_left) left
join State.after_e0 b left = carry Left.e0 refl (ranged 0xA0 0xBF b State.one_left) left
join State.after_ed b left = carry Left.ed refl (ranged 0x80 0x9F b State.one_left) left
join State.after_f0 b left = carry Left.f0 refl (ranged 0x90 0xBF b State.two_left) left
join State.three_left b left = carry Left.three refl (ranged 0x80 0xBF b State.two_left) left
join State.after_f4 b left = carry Left.f4 refl (ranged 0x80 0x8F b State.two_left) left

-- What a byte leaves of a text.
abbrev pub Peeled : State → List ℕ → ℕ → Type 0
Peeled t s m = (n : ℕ) × Left t s n × (m ≡ bump t n)

if_range-in : (low high b : ℕ) (next : State) → InRange low high b → if_range low high b next ≡ next
if_range-in low high b next h = ground arith

peel_text : {m b : ℕ} {s : List ℕ} → IsText (b ∷ s) m → Peeled (after_lead b) s m
peel_text (IsText.ascii {a} {s} {n} h text) =
    let e : after_lead a ≡ State.accept = ground arith in rw e (n, Left.start text, refl)
peel_text (IsText.two {a} {b} {s} {n} h k text) =
    let e : after_lead a ≡ State.one_left = ground arith in rw e (suc n, Left.one k text, refl)
peel_text (IsText.three_e0 k l text) = (_, Left.e0 k (Left.one l text), refl)
peel_text (IsText.three_low {a} h k l text) =
    let e : after_lead a ≡ State.two_left = ground arith in
    rw e (_, Left.two k (Left.one l text), refl)
peel_text (IsText.three_ed k l text) = (_, Left.ed k (Left.one l text), refl)
peel_text (IsText.three_high {a} h k l text) =
    let e : after_lead a ≡ State.two_left = ground arith in
    rw e (_, Left.two k (Left.one l text), refl)
peel_text (IsText.four_f0 k l m text) = (_, Left.f0 k (Left.two l (Left.one m text)), refl)
peel_text (IsText.four {a} h k l m text) =
    let e : after_lead a ≡ State.three_left = ground arith in
    rw e (_, Left.three k (Left.two l (Left.one m text)), refl)
peel_text (IsText.four_f4 k l m text) = (_, Left.f4 k (Left.two l (Left.one m text)), refl)

pub peel : {m b : ℕ} {s : List ℕ} {st : State} → Left st (b ∷ s) m → Peeled (target st b) s m
peel (Left.start text) = peel_text text
peel (Left.one {b} {s} {n} h text) =
    rw (if_range-in 0x80 0xBF b State.accept h) (n, Left.start text, refl)
peel (Left.two {b} {s} {n} h l) = rw (if_range-in 0x80 0xBF b State.one_left h) (n, l, refl)
peel (Left.e0 {b} {s} {n} h l) = rw (if_range-in 0xA0 0xBF b State.one_left h) (n, l, refl)
peel (Left.ed {b} {s} {n} h l) = rw (if_range-in 0x80 0x9F b State.one_left h) (n, l, refl)
peel (Left.f0 {b} {s} {n} h l) = rw (if_range-in 0x90 0xBF b State.two_left h) (n, l, refl)
peel (Left.three {b} {s} {n} h l) = rw (if_range-in 0x80 0xBF b State.two_left h) (n, l, refl)
peel (Left.f4 {b} {s} {n} h l) = rw (if_range-in 0x80 0x8F b State.two_left h) (n, l, refl)
