-- ===== src/Load/Bounds.antt =====
-- src/cbor.c: cbor_load ends on every source, within it, and what lies behind an item is not looked at.
use libcbor.Base.{ℕ, zero, suc, ◌+◌, ◌≤◌, ◌<◌, ◌≡◌, ◌≢◌, refl, arith}
use libcbor.Base.{List, [], ◌∷◌, Option, some, true, false, Bool, All}
use libcbor.Base.{length, drop, All-drop, if◌then◌else◌, length-drop}
use libcbor.Builder.{Context, Frame}
use libcbor.Builder.Counters.{IsSound}
use libcbor.Builder.Filled.{IsFilled, handle-IsFilled}
use libcbor.Items.{Item}
use libcbor.Load.{
  ErrorCode, LoadResult, Loaded, failed, loaded, next_round, finished_round, conclude, handle_event,
  load_loop, fresh, load,
}
use libcbor.Load.Reachable.{stream_decode-CallFits, handle_event-IsSound}
use libcbor.Loaders.{FloatOps}
use libcbor.Memory.{Allocator}
use libcbor.Streaming.{Event, Decoded, stream_decode}
use libcbor.Streaming.Contract.{IsByte, Outcome, stream_decode-Outcome}

-- The results that cbor_load has on a source of `limit` bytes that is not empty: an item and the error
-- NONE, or an error and no item, its position being the number of bytes read.
pub data IsResult (limit : ℕ) : Option Loaded → Type 0 where
  success :
      (item : Item) (read : ℕ)
      → 1 ≤ read
      → read ≤ limit
      → IsResult limit (some (loaded (some item) read))
  failure :
      (code : ErrorCode) (read : ℕ)
      → code ≢ ErrorCode.none
      → read ≤ limit
      → IsResult limit (some (failed code read))

next_round-IsResult :
    {limit : ℕ} (s : List Frame) {stop again : Option Loaded}
    → IsResult limit stop
    → IsResult limit again
    → IsResult limit (next_round s stop again)
next_round-IsResult [] h k = h
next_round-IsResult (f ∷ s) h k = k

if-IsResult :
    {limit : ℕ} (c : Bool) {x y : Option Loaded}
    → (c ≡ true → IsResult limit x)
    → (c ≡ false → IsResult limit y)
    → IsResult limit (if c then x else y)
if-IsResult true h k = h refl
if-IsResult false h k = k refl

module _ (limit read : ℕ) (ctx : Context) (again : Option Loaded) (pos : 1 ≤ read)
    (small : read ≤ limit) where
  -- Where no error is noted, the loop goes on or there is a root.
  settled-IsResult :
      ctx.fault ≡ false
      → ctx.creation_failed ≡ false
      → ctx.syntax_error ≡ false
      → IsFilled ctx
      → IsResult limit again
      → IsResult limit (next_round ctx.stack (some (loaded ctx.root read)) again)
  settled-IsResult sound made placed (IsFilled.faulted e) h = absurd cc
  settled-IsResult sound made placed (IsFilled.unmade e) h = absurd cc
  settled-IsResult sound made placed (IsFilled.misplaced e) h = absurd cc
  settled-IsResult sound made placed (IsFilled.opened f lower e) h = rw e h
  settled-IsResult sound made placed (IsFilled.rooted item e) h =
      next_round-IsResult ctx.stack (rw e (IsResult.success item read pos small)) h

  finished_round-IsResult :
      ctx.fault ≡ false
      → IsFilled ctx
      → IsResult limit again
      → IsResult limit (finished_round read ctx again)
  finished_round-IsResult sound filled h =
      if-IsResult ctx.creation_failed
        (λ e. IsResult.failure ErrorCode.memerror read (λ c. cc) small)
        (λ made.
          if-IsResult ctx.syntax_error
            (λ e. IsResult.failure ErrorCode.syntaxerror read (λ c. cc) small)
            (λ placed. settled-IsResult sound made placed filled h))

conclude-IsResult :
    (limit size read : ℕ) (d : Decoded) (ctx : Context) (again : Option Loaded)
    → Outcome size d
    → read + size ≤ limit
    → ctx.fault ≡ false
    → ((event : Event) → d.event ≡ some event → IsFilled ctx)
    → (1 ≤ d.result.read → d.result.read ≤ size → IsResult limit again)
    → IsResult limit (conclude d.result.status read d.result.read ctx again)
conclude-IsResult limit size read _ ctx again (Outcome.finished k event pos small) h sound filled
      next =
    finished_round-IsResult limit (read + k) ctx again (omega arith) (omega arith) sound
      (filled event refl) (next pos small)
conclude-IsResult limit size read _ ctx again Outcome.refused h sound filled next =
    IsResult.failure ErrorCode.malformated read (λ c. cc) (omega arith)
conclude-IsResult limit size read _ ctx again (Outcome.needs n large fits) h sound filled next =
    IsResult.failure ErrorCode.notenoughdata read (λ c. cc) (omega arith)

handle_event-IsFilled :
    (called : Option Event) (ctx : Context) (event : Event)
    → called ≡ some event
    → IsFilled (handle_event called ctx)
handle_event-IsFilled called ctx event e = rw e (handle-IsFilled event ctx)

load_loop-IsResult :
    (ops : FloatOps) (limit fuel : ℕ) (source : List ℕ) (read : ℕ) (ctx : Context)
    → All IsByte source
    → IsSound ctx
    → length source < fuel
    → read + length source ≤ limit
    → IsResult limit (load_loop ops fuel source read ctx)
unfolding load_loop
load_loop-IsResult ops limit zero source read ctx h sound enough small = absurd (omega arith)
load_loop-IsResult ops limit (suc fuel) [] read ctx h sound enough small =
    IsResult.failure ErrorCode.notenoughdata read (λ c. cc) (omega arith)
load_loop-IsResult ops limit (suc fuel) (b ∷ rest) read ctx h sound enough small =
    let d = stream_decode ops (b ∷ rest) in
    let k = d.result.read in
    let sound' = handle_event-IsSound d.event ctx (stream_decode-CallFits ops (b ∷ rest) h) sound in
    conclude-IsResult limit (length (b ∷ rest)) read d _ _ (stream_decode-Outcome ops (b ∷ rest) h)
      small sound'.0 (handle_event-IsFilled d.event ctx)
      (λ pos fits.
        load_loop-IsResult ops limit fuel (drop k (b ∷ rest)) (read + k) _
          (All-drop IsByte k (b ∷ rest) h) sound' (omega (arith, length-drop k (b ∷ rest)))
          (omega (arith, length-drop k (b ∷ rest))))

-- On a source of bytes that is not empty, and whatever the allocator answers, cbor_load ends: its loop
-- needs no more rounds than there are bytes, and one more. It returns an item, not NULL, with the error
-- NONE, having read a byte at least, or no item with an error that is not NONE, whose position is the
-- number of bytes read; it reads no more than the source.
pub load-IsResult :
    (ops : FloatOps) (answers : Allocator) (b : ℕ) (rest : List ℕ) (before : LoadResult)
    → All IsByte (b ∷ rest)
    → IsResult (length (b ∷ rest)) (load ops answers (b ∷ rest) before)
unfolding load
load-IsResult ops answers b rest before h =
    load_loop-IsResult ops _ (suc (length (b ∷ rest))) (b ∷ rest) 0 (fresh answers) h (refl, tt)
      (omega arith) (omega arith)
