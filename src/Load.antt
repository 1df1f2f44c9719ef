-- ===== src/Load.antt =====
-- src/cbor.c: cbor_load, the loop that decodes one item from the front of a source.
pub mod RoundTrip
pub mod Reachable
pub mod Bounds
pub mod Prefix
pub mod Truncated
pub mod Stored
pub mod Decoded
pub mod Steps
pub mod Leaves
pub mod ByteRuns
pub mod StringRuns
pub mod Members
pub mod Starts
pub mod Runs
use libcbor.Base.{ℕ, zero, suc, ◌+◌, List, [], ◌∷◌, Option, some, true, false}
use libcbor.Base.{length, drop, if◌then◌else◌}
use libcbor.Builder.{Context, Frame, handle}
use libcbor.Items.{Item}
use libcbor.Loaders.{FloatOps}
use libcbor.Memory.{Allocator}
use libcbor.Streaming.{Status, Event, stream_decode}

-- `cbor_error_code`.
pub data ErrorCode : Type 0 where
  none notenoughdata nodata malformated memerror syntaxerror : ErrorCode

-- `struct cbor_load_result`, its `error` flattened.
pub record LoadResult : Type 0 where
  pub code : ErrorCode
  pub position : ℕ
  pub read : ℕ

-- The returned item, NULL on errors, and `*result`.
pub record Loaded : Type 0 where
  pub item : Option Item
  pub result : LoadResult

-- The label `error`: the position is what has been read; the stack is freed.
abbrev pub failed : ErrorCode → ℕ → Loaded
failed code read = record {
  item = Option.none;
  result = record { code = code; position = read; read = read };
}

abbrev pub loaded : Option Item → ℕ → Loaded
loaded root read = record {
  item = root;
  result = record { code = ErrorCode.none; position = 0; read = read };
}

-- The callback that a decoding step invoked, if it invoked one.
abbrev pub handle_event : Option Event → Context → Context
handle_event Option.none ctx = ctx
handle_event (some event) ctx = handle event ctx

-- `while (stack.size > 0)`.
abbrev pub next_round : List Frame → Option Loaded → Option Loaded → Option Loaded
next_round [] stop again = stop
next_round (f ∷ stack) stop again = again

-- A finished step: `ctx` is the context after its callback, `read` what has been read by then.
abbrev pub finished_round : ℕ → Context → Option Loaded → Option Loaded
finished_round read ctx again =
    if ctx.creation_failed
    then some (failed ErrorCode.memerror read)
    else if ctx.syntax_error
    then some (failed ErrorCode.syntaxerror read)
    else next_round ctx.stack (some (loaded ctx.root read)) again

-- What follows a decoding step with that status: `read` is what had been read before it, `ctx` the
-- context after its callback and `again` the next round.
abbrev pub conclude : Status → ℕ → ℕ → Context → Option Loaded → Option Loaded
conclude Status.finished read step_read ctx again = finished_round (read + step_read) ctx again
conclude Status.nedata read step_read ctx again = some (failed ErrorCode.notenoughdata read)
conclude Status.error read step_read ctx again = some (failed ErrorCode.malformated read)

-- One round of the loop, on fuel; `none` is no result of the C code. The source is what is left of it
-- behind the bytes read, `source + result->read`.
unfoldable pub load_loop : FloatOps → ℕ → List ℕ → ℕ → Context → Option Loaded
load_loop ops zero source read ctx = Option.none
load_loop ops (suc fuel) [] read ctx = some (failed ErrorCode.notenoughdata read)
load_loop ops (suc fuel) (byte ∷ rest) read ctx =
    let step = stream_decode ops (byte ∷ rest) in
    let ctx' = handle_event step.event ctx in
    let left = drop step.result.read (byte ∷ rest) in
    conclude step.result.status read step.result.read ctx'
      (load_loop ops fuel left (read + step.result.read) ctx')

abbrev pub fresh : Allocator → Context
fresh answers = record {
  creation_failed = false;
  syntax_error = false;
  fault = false;
  root = Option.none;
  stack = [];
  answers = answers;
}

-- cbor_load; `before` is what `*result` held. Each round reads a byte at least, so one more round
-- than there are bytes is enough.
unfoldable pub load : FloatOps → Allocator → List ℕ → LoadResult → Option Loaded
unfolding load_loop
load ops answers [] before =
    some (record { item = Option.none; result = record before { code = ErrorCode.nodata } })
load ops answers (byte ∷ rest) before =
    load_loop ops (suc (length (byte ∷ rest))) (byte ∷ rest) 0 (fresh answers)
