-- ===== src/Streaming/Plan/Local.antt =====
-- The callbacks and the lengths of a plan depend on the bytes that the plan has claimed for them.
use libcbor.Base.{ℕ, ◌/◌, ◌%◌, ◌^◌, ◌≤◌, ◌<◌, ◌≡◌, refl, ap, arith}
use libcbor.Base.{List, ◌++◌, Bool, true, false, length, if◌then◌else◌, leb, ◌==◌}
use libcbor.Loaders.{FloatOps, load_uint8, load_uint16, load_uint32, load_uint64}
use libcbor.Loaders.Local.{load_uint8-append, load_uint16-append, load_uint32-append}
use libcbor.Loaders.Local.{load_uint64-append, load_half-append, load_float-append}
use libcbor.Loaders.Local.{load_double-append}
use libcbor.Streaming.{Event}
use libcbor.Streaming.Plan.{Plan, with_argument, number, counted_string, indefinite_or, simple_plan}
use libcbor.Streaming.Plan.{major_plan, plan}

-- What a plan may need: at most eight bytes of numbers, a length below 2 ^ 64.
pub data IsLocal : Plan → Type 0 where
  now : (event : Event) → IsLocal (Plan.now event)
  refuse : IsLocal Plan.refuse
  fixed :
      {n : ℕ} {callback : List ℕ → Event}
      → n ≤ 8
      → ((s more : List ℕ) → n ≤ length s → callback (s ++ more) ≡ callback s)
      → IsLocal (Plan.fixed n callback)
  counted :
      {k : ℕ} {count : List ℕ → ℕ} {callback : List ℕ → Event}
      → k ≤ 8
      → ((s : List ℕ) → count s < 2 ^ 64)
      → ((s more : List ℕ) → k ≤ length s → count (s ++ more) ≡ count s)
      → IsLocal (Plan.counted k count callback)

IsLocal-if : (c : Bool) {p q : Plan} → IsLocal p → IsLocal q → IsLocal (if c then p else q)
IsLocal-if true hp hq = hp
IsLocal-if false hp hq = hq

-- One proof for each width is enough for the whole ladder.
with_argument-IsLocal :
    (info : ℕ) (embedded : ℕ → Plan) {one two four eight other : Plan}
    → IsLocal (embedded info)
    → IsLocal one
    → IsLocal two
    → IsLocal four
    → IsLocal eight
    → IsLocal other
    → IsLocal (with_argument info embedded one two four eight other)
with_argument-IsLocal info embedded h0 h1 h2 h4 h8 h = IsLocal-if (leb info 23) h0 (
    IsLocal-if (info == 24) h1
      (IsLocal-if (info == 25) h2 (IsLocal-if (info == 26) h4 (IsLocal-if (info == 27) h8 h))))

fixed8 : (callback : ℕ → Event) → IsLocal (Plan.fixed 1 (λ s. callback (load_uint8 s)))
fixed8 callback = IsLocal.fixed (omega arith) (λ s more h. ap callback (load_uint8-append s more h))

fixed16 : (callback : ℕ → Event) → IsLocal (Plan.fixed 2 (λ s. callback (load_uint16 s)))
fixed16 callback =
    IsLocal.fixed (omega arith) (λ s more h. ap callback (load_uint16-append s more h))

fixed32 : (callback : ℕ → Event) → IsLocal (Plan.fixed 4 (λ s. callback (load_uint32 s)))
fixed32 callback =
    IsLocal.fixed (omega arith) (λ s more h. ap callback (load_uint32-append s more h))

fixed64 : (callback : ℕ → Event) → IsLocal (Plan.fixed 8 (λ s. callback (load_uint64 s)))
fixed64 callback =
    IsLocal.fixed (omega arith) (λ s more h. ap callback (load_uint64-append s more h))

number-IsLocal :
    (info : ℕ) (callback : ℕ → Event) (other : Plan)
    → IsLocal other
    → IsLocal (number info callback other)
number-IsLocal info callback other h =
    with_argument-IsLocal info (λ v. Plan.now (callback v)) (IsLocal.now _) (fixed8 callback)
      (fixed16 callback) (fixed32 callback) (fixed64 callback) h

counted_string-IsLocal :
    (info : ℕ) (callback : List ℕ → Event) (other : Plan)
    → info < 32
    → IsLocal other
    → IsLocal (counted_string info callback other)
unfolding load_uint8 load_uint16 load_uint32 load_uint64
counted_string-IsLocal info callback other small h =
    with_argument-IsLocal info (λ v. Plan.counted 0 (λ s. v) callback)
      (IsLocal.counted (omega arith) (λ s. omega arith) (λ s more k. refl))
      (IsLocal.counted (omega arith) (λ s. omega arith) (λ s more k. load_uint8-append s more k))
      (IsLocal.counted (omega arith) (λ s. omega arith) (λ s more k. load_uint16-append s more k))
      (IsLocal.counted (omega arith) (λ s. omega arith) (λ s more k. load_uint32-append s more k))
      (IsLocal.counted (omega arith) (λ s. omega arith) (λ s more k. load_uint64-append s more k)) h

indefinite_or-IsLocal : (info : ℕ) (start : Event) → IsLocal (indefinite_or info start)
indefinite_or-IsLocal info start = IsLocal-if (info == 31) (IsLocal.now _) IsLocal.refuse

module _ (ops : FloatOps) (info : ℕ) where
  simple_plan-IsLocal : IsLocal (simple_plan ops info)
  simple_plan-IsLocal = IsLocal-if (info == 20) (IsLocal.now _) (
      IsLocal-if (info == 21) (IsLocal.now _) (
        IsLocal-if (info == 22) (IsLocal.now _) (
          IsLocal-if (info == 23) (IsLocal.now _) (
            IsLocal-if (info == 25)
              (IsLocal.fixed (omega arith)
                (λ s more h. ap Event.float2 (load_half-append s more ops h)))
              (IsLocal-if (info == 26)
                (IsLocal.fixed (omega arith)
                  (λ s more h. ap Event.float4 (load_float-append s more h)))
                (IsLocal-if (info == 27)
                  (IsLocal.fixed (omega arith)
                    (λ s more h. ap Event.float8 (load_double-append s more h)))
                  (IsLocal-if (info == 31) (IsLocal.now _) IsLocal.refuse)))))))

  major_plan-IsLocal : (major : ℕ) → info < 32 → IsLocal (major_plan ops major info)
  major_plan-IsLocal major h =
      IsLocal-if (major == 0)
        (with_argument-IsLocal info (λ v. Plan.now (Event.uint8 v)) (IsLocal.now _)
          (fixed8 Event.uint8) (fixed16 Event.uint16) (fixed32 Event.uint32) (fixed64 Event.uint64)
          IsLocal.refuse)
        (IsLocal-if (major == 1)
          (with_argument-IsLocal info (λ v. Plan.now (Event.negint8 v)) (IsLocal.now _)
            (fixed8 Event.negint8) (fixed16 Event.negint16) (fixed32 Event.negint32)
            (fixed64 Event.negint64) IsLocal.refuse)
          (IsLocal-if (major == 2)
            (counted_string-IsLocal info _ _ h (indefinite_or-IsLocal info _))
            (IsLocal-if (major == 3)
              (counted_string-IsLocal info _ _ h (indefinite_or-IsLocal info _))
              (IsLocal-if (major == 4)
                (number-IsLocal info Event.array_start _
                  (indefinite_or-IsLocal info Event.indef_array_start))
                (IsLocal-if (major == 5)
                  (number-IsLocal info Event.map_start _
                    (indefinite_or-IsLocal info Event.indef_map_start))
                  (IsLocal-if (major == 6) (number-IsLocal info Event.tag _ IsLocal.refuse)
                    simple_plan-IsLocal))))))

pub plan-IsLocal : (ops : FloatOps) (b : ℕ) → IsLocal (plan ops b)
unfolding plan
plan-IsLocal ops b = major_plan-IsLocal ops (b % 32) (b / 32) (omega arith)
