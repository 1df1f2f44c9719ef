-- ===== src/Load/Reachable.antt =====
-- src/cbor.c: the contexts that the loop of cbor_load passes through, and what holds of all of them.
use libcbor.Base.{ℕ, ◌-◌, ◌/◌, ◌%◌, ◌^◌, ◌<◌, ◌≡◌, refl, arith}
use libcbor.Base.{List, [], ◌∷◌, Option, none, some, Bool, true, false, All, drop}
use libcbor.Base.{length, if◌then◌else◌, leb, ◌==◌}
use libcbor.Builder.{Context, max_stack_size}
use libcbor.Builder.Counters.{IsSound, EventFits}
use libcbor.Builder.Assertions.{handle-IsSound}
use libcbor.Builder.Invariant.{Within, handle-Within}
use libcbor.Load.{handle_event, fresh}
use libcbor.Base.{All-drop}
use libcbor.Loaders.{FloatOps, load_uint8, load_uint16, load_uint32, load_uint64}
use libcbor.Memory.{Allocator}
use libcbor.Streaming.{Status, Event, Decoded, stream_decode}
use libcbor.Streaming.Contract.{IsByte}
use libcbor.Streaming.Plan.{
  Plan, with_argument, number, counted_string, indefinite_or, simple_plan, major_plan, plan, follow,
}
use libcbor.Streaming.Plan.Switch.{stream_decode-plan}

-- The callbacks of a plan carry sizes that are size_t.
abbrev PlanFits : Plan → Type 0
PlanFits (Plan.now event) = EventFits event
PlanFits Plan.refuse = Unit {0}
PlanFits (Plan.fixed n callback) = (s : List ℕ) → EventFits (callback s)
PlanFits (Plan.counted k count callback) = (bytes : List ℕ) → EventFits (callback bytes)

abbrev pub CallFits : Option Event → Type 0
CallFits none = Unit {0}
CallFits (some event) = EventFits event

if-PlanFits : (c : Bool) (p q : Plan) → PlanFits p → PlanFits q → PlanFits (if c then p else q)
if-PlanFits true p q h k = h
if-PlanFits false p q h k = k

ladder-PlanFits :
    (info : ℕ) (embedded : ℕ → Plan) (one two four eight other : Plan)
    → PlanFits (embedded info)
    → PlanFits one
    → PlanFits two
    → PlanFits four
    → PlanFits eight
    → PlanFits other
    → PlanFits (with_argument info embedded one two four eight other)
ladder-PlanFits info embedded one two four eight other h0 h1 h2 h4 h8 h =
    if-PlanFits (leb info 23) _ _ h0 (
      if-PlanFits (info == 24) _ _ h1 (
        if-PlanFits (info == 25) _ _ h2
          (if-PlanFits (info == 26) _ _ h4 (if-PlanFits (info == 27) _ _ h8 h))))

number-PlanFits :
    (info : ℕ) (callback : ℕ → Event) (other : Plan)
    → info < 32
    → ((v : ℕ) → v < 2 ^ 64 → EventFits (callback v))
    → PlanFits other
    → PlanFits (number info callback other)
unfolding load_uint8 load_uint16 load_uint32 load_uint64
number-PlanFits info callback other small fits h =
    ladder-PlanFits info (λ v. Plan.now (callback v)) _ _ _ _ other (fits info (omega arith))
      (λ s. fits _ (omega arith)) (λ s. fits _ (omega arith)) (λ s. fits _ (omega arith))
      (λ s. fits _ (omega arith)) h

module _ (ops : FloatOps) (info : ℕ) (small : info < 32) where
  indefinite_or-PlanFits : (start : Event) → EventFits start → PlanFits (indefinite_or info start)
  indefinite_or-PlanFits start h = if-PlanFits (info == 31) _ _ h tt

  counted_string-PlanFits :
      (callback : List ℕ → Event) (other : Plan)
      → ((bytes : List ℕ) → EventFits (callback bytes))
      → PlanFits other
      → PlanFits (counted_string info callback other)
  counted_string-PlanFits callback other fits h =
      ladder-PlanFits info (λ v. Plan.counted 0 (λ s. v) callback) _ _ _ _ other fits fits fits fits
        fits h

  simple_plan-PlanFits : PlanFits (simple_plan ops info)
  simple_plan-PlanFits = if-PlanFits (info == 20) _ _ tt (
      if-PlanFits (info == 21) _ _ tt (
        if-PlanFits (info == 22) _ _ tt (
          if-PlanFits (info == 23) _ _ tt (
            if-PlanFits (info == 25) _ _ (λ s. tt)
              (if-PlanFits (info == 26) _ _ (λ s. tt)
                (if-PlanFits (info == 27) _ _ (λ s. tt) (if-PlanFits (info == 31) _ _ tt tt)))))))

  major_plan-PlanFits : (major : ℕ) → PlanFits (major_plan ops major info)
  major_plan-PlanFits major =
      if-PlanFits (major == 0) _ _
        (ladder-PlanFits info (λ v. Plan.now (Event.uint8 v)) _ _ _ _ _ tt (λ s. tt) (λ s. tt)
          (λ s. tt) (λ s. tt) tt)
        (if-PlanFits (major == 1) _ _
          (ladder-PlanFits info (λ v. Plan.now (Event.negint8 v)) _ _ _ _ _ tt (λ s. tt) (λ s. tt)
            (λ s. tt) (λ s. tt) tt)
          (if-PlanFits (major == 2) _ _
            (counted_string-PlanFits Event.byte_string _ (λ s. tt)
              (indefinite_or-PlanFits Event.byte_string_start tt))
            (if-PlanFits (major == 3) _ _
              (counted_string-PlanFits Event.string _ (λ s. tt)
                (indefinite_or-PlanFits Event.string_start tt))
              (if-PlanFits (major == 4) _ _
                (number-PlanFits info Event.array_start _ small (λ v h. h)
                  (indefinite_or-PlanFits Event.indef_array_start tt))
                (if-PlanFits (major == 5) _ _
                  (number-PlanFits info Event.map_start _ small (λ v h. h)
                    (indefinite_or-PlanFits Event.indef_map_start tt))
                  (if-PlanFits (major == 6) _ _
                    (number-PlanFits info Event.tag Plan.refuse small (λ v h. tt) tt)
                    simple_plan-PlanFits))))))

plan-PlanFits : (ops : FloatOps) (b : ℕ) → PlanFits (plan ops b)
unfolding plan
plan-PlanFits ops b = major_plan-PlanFits ops (b % 32) (omega arith) (b / 32)

if-CallFits :
    (c : Bool) (p q : Decoded)
    → CallFits p.event
    → CallFits q.event
    → CallFits (if c then p else q).event
if-CallFits true p q h k = h
if-CallFits false p q h k = k

follow-CallFits : (p : Plan) (s : List ℕ) → PlanFits p → CallFits (follow p s).event
unfolding follow
follow-CallFits (Plan.now event) s h = h
follow-CallFits Plan.refuse s h = tt
follow-CallFits (Plan.fixed n callback) s h = if-CallFits (leb n (length s)) _ _ (h s) tt
follow-CallFits (Plan.counted k count callback) s h =
    if-CallFits (leb k (length s)) _ _ (if-CallFits (leb (count s) (length s - k)) _ _ (h _) tt) tt

pub stream_decode-CallFits :
    (ops : FloatOps) (src : List ℕ) → All IsByte src → CallFits (stream_decode ops src).event
stream_decode-CallFits ops [] h = unfold stream_decode in tt
stream_decode-CallFits ops (b ∷ s) h =
    rw (stream_decode-plan ops b s h.0) (follow-CallFits (plan ops b) s (plan-PlanFits ops b))

-- What is left of the source and the context, after each round of the loop that finished its step. The
-- loop goes on from some of these only: an error flag or an empty stack ends it.
pub data Reaches (ops : FloatOps) (answers : Allocator) (source : List ℕ)
    : List ℕ → Context → Type 0 where
  start : Reaches ops answers source source (fresh answers)
  round :
      {left : List ℕ} {ctx : Context}
      → Reaches ops answers source left ctx
      → (stream_decode ops left).result.status ≡ Status.finished
      → Reaches ops answers source
          (drop (stream_decode ops left).result.read left)
          (handle_event (stream_decode ops left).event ctx)

pub handle_event-IsSound :
    (event : Option Event) (ctx : Context)
    → CallFits event
    → IsSound ctx
    → IsSound (handle_event event ctx)
handle_event-IsSound none ctx fits h = h
handle_event-IsSound (some event) ctx fits h = handle-IsSound event ctx fits h

handle_event-IsSafe :
    (event : Option Event) (ctx : Context)
    → CallFits event
    → IsSound ctx × Within max_stack_size ctx
    → IsSound (handle_event event ctx) × Within max_stack_size (handle_event event ctx)
handle_event-IsSafe none ctx fits h = h
handle_event-IsSafe (some event) ctx fits h =
    (handle-IsSound event ctx fits h.0, handle-Within event ctx h.1)

Reaches-IsSafe :
    (ops : FloatOps) (answers : Allocator) (source left : List ℕ) (ctx : Context)
    → All IsByte source
    → Reaches ops answers source left ctx
    → All IsByte left × (IsSound ctx × Within max_stack_size ctx)
unfolding max_stack_size
Reaches-IsSafe ops answers source _ _ h Reaches.start = (h, ((refl, tt), omega arith))
Reaches-IsSafe ops answers source _ _ h (Reaches.round {left} {ctx} before ended) =
    let safe = Reaches-IsSafe ops answers source left ctx h before in
    (
      All-drop IsByte _ left safe.0,
      handle_event-IsSafe (stream_decode ops left).event ctx
          (stream_decode-CallFits ops left safe.0) safe.1,
    )

-- In every context that cbor_load's loop passes through on a source of bytes, whatever the allocator
-- answers, no assertion of the builder has failed, each counter on the stack agrees with its container
-- (`IsSound`: with what a definite container still misses, and with a key that waits for its value),
-- and the stack holds no more than CBOR_MAX_STACK_SIZE containers.
pub load-IsSafe :
    (ops : FloatOps) (answers : Allocator) (source left : List ℕ) (ctx : Context)
    → All IsByte source
    → Reaches ops answers source left ctx
    → IsSound ctx × Within max_stack_size ctx
load-IsSafe ops answers source left ctx h r = (Reaches-IsSafe ops answers source left ctx h r).1
