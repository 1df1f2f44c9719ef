-- ===== src/Load/Stored.antt =====
-- cbor_load writes no member behind the storage of its container.
use libcbor.Base.{
  ℕ, zero, suc, ◌+◌, ◌≡◌, subst, List, [], ◌∷◌, All, Option, none, some, Bool, true, false, length,
  if◌then◌else◌, drop,
}
use libcbor.Builder.{Frame, Context}
use libcbor.Builder.Room.{RootFits, IsFitted}
use libcbor.Builder.Stored.{handle-IsFitted}
use libcbor.Load.{
  ErrorCode, LoadResult, Loaded, failed, loaded, handle_event, next_round, conclude, load_loop,
  fresh, load,
}
use libcbor.Base.{All-drop}
use libcbor.Load.Reachable.{CallFits, stream_decode-CallFits}
use libcbor.Loaders.{FloatOps}
use libcbor.Memory.{Allocator}
use libcbor.Streaming.{Event, Status, stream_decode}
use libcbor.Streaming.Contract.{IsByte}

handle_event-IsFitted :
    (event : Option Event) (ctx : Context)
    → CallFits event
    → IsFitted ctx
    → IsFitted (handle_event event ctx)
handle_event-IsFitted none ctx fits h = h
handle_event-IsFitted (some event) ctx fits h = handle-IsFitted event ctx fits h

RootFits-same : (a r : Loaded) → some a ≡ some r → RootFits a.item → RootFits r.item
RootFits-same a r e h =
    subst (λ (o : Option Loaded). elim o [ none ↦ Unit {0} | some l ↦ RootFits l.item ]) e h

if-RootFits :
    (c : Bool) (stop : Loaded) (again : Option Loaded) (r : Loaded)
    → (if c then some stop else again) ≡ some r
    → RootFits stop.item
    → (again ≡ some r → RootFits r.item)
    → RootFits r.item
if-RootFits true stop again r e h k = RootFits-same stop r e h
if-RootFits false stop again r e h k = k e

next_round-RootFits :
    (s : List Frame) (stop : Loaded) (again : Option Loaded) (r : Loaded)
    → next_round s (some stop) again ≡ some r
    → RootFits stop.item
    → (again ≡ some r → RootFits r.item)
    → RootFits r.item
next_round-RootFits [] stop again r e h k = RootFits-same stop r e h
next_round-RootFits (f ∷ s) stop again r e h k = k e

conclude-RootFits :
    (status : Status) (read n : ℕ) (ctx : Context) (again : Option Loaded) (r : Loaded)
    → conclude status read n ctx again ≡ some r
    → IsFitted ctx
    → (again ≡ some r → RootFits r.item)
    → RootFits r.item
conclude-RootFits Status.finished read n ctx again r e h k =
    if-RootFits ctx.creation_failed (failed ErrorCode.memerror (read + n)) _ r e tt (λ e'.
      if-RootFits ctx.syntax_error (failed ErrorCode.syntaxerror (read + n)) _ r e' tt
        (λ e''. next_round-RootFits ctx.stack (loaded ctx.root (read + n)) again r e'' h.0 k))
conclude-RootFits Status.nedata read n ctx again r e h k =
    RootFits-same (failed ErrorCode.notenoughdata read) r e tt
conclude-RootFits Status.error read n ctx again r e h k =
    RootFits-same (failed ErrorCode.malformated read) r e tt

load_loop-RootFits :
    (ops : FloatOps) (fuel : ℕ) (source : List ℕ) (read : ℕ) (ctx : Context) (r : Loaded)
    → All IsByte source
    → IsFitted ctx
    → load_loop ops fuel source read ctx ≡ some r
    → RootFits r.item
unfolding load_loop
load_loop-RootFits ops zero source read ctx r h fits e = cc
load_loop-RootFits ops (suc fuel) [] read ctx r h fits e =
    RootFits-same (failed ErrorCode.notenoughdata read) r e tt
load_loop-RootFits ops (suc fuel) (b ∷ rest) read ctx r h fits e =
    let d = stream_decode ops (b ∷ rest) in
    let ctx' = handle_event d.event ctx in
    let fits' = handle_event-IsFitted d.event ctx (stream_decode-CallFits ops (b ∷ rest) h) fits in
    conclude-RootFits d.result.status read d.result.read ctx' _ r e fits' (λ e'.
      load_loop-RootFits ops fuel (drop d.result.read (b ∷ rest)) (read + d.result.read) ctx' r
        (All-drop IsByte d.result.read (b ∷ rest) h) fits' e')

-- Each container within an item that cbor_load returns from a source of bytes, whatever the allocator
-- answers, holds no more members than its storage has room for, and no such storage has 2 ^ 64 bytes.
pub load-RootFits :
    (ops : FloatOps) (answers : Allocator) (source : List ℕ) (before : LoadResult) (r : Loaded)
    → All IsByte source
    → load ops answers source before ≡ some r
    → RootFits r.item
unfolding load
load-RootFits ops answers [] before r h e =
    RootFits-same (record { item = none; result = record before { code = ErrorCode.nodata } }) r e
      tt
load-RootFits ops answers (b ∷ rest) before r h e =
    load_loop-RootFits ops (suc (length (b ∷ rest))) (b ∷ rest) 0 (fresh answers) r h (tt, tt) e
