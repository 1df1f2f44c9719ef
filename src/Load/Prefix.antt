-- ===== src/Load/Prefix.antt =====
-- src/cbor.c: cbor_load looks at no byte behind the item that it returns.
use libcbor.Base.{ℕ, zero, suc, ◌+◌, ◌≤◌, ◌≡◌, ◌≢◌, ap, sym, refl, subst, arith}
use libcbor.Base.{List, [], ◌∷◌, ◌++◌, Option, some, true, false, Bool, All}
use libcbor.Base.{length, drop, if◌then◌else◌, length-append, drop-append_le}
use libcbor.Builder.{Context, Frame}
use libcbor.Items.{Item}
use libcbor.Load.{
  ErrorCode, LoadResult, Loaded, loaded, handle_event, next_round, conclude, load_loop, fresh, load,
}
use libcbor.Base.{All-drop}
use libcbor.Loaders.{FloatOps}
use libcbor.Memory.{Allocator}
use libcbor.Streaming.{Status, Decoded, stream_decode}
use libcbor.Streaming.Contract.{
  IsByte, Outcome, stream_decode-Outcome, stream_decode-append_settled,
}

abbrev code_of : Option Loaded → ErrorCode
code_of Option.none = ErrorCode.nodata
code_of (some r) = r.result.code

-- A result for which the source was long enough.
abbrev pub IsSettled : Loaded → Type 0
IsSettled r = r.result.code ≢ ErrorCode.notenoughdata

conclude-settled :
    {size : ℕ} (read : ℕ) (d : Decoded) (ctx : Context) (again : Option Loaded) (r : Loaded)
    → Outcome size d
    → IsSettled r
    → conclude d.result.status read d.result.read ctx again ≡ some r
    → (d.result.status ≢ Status.nedata) × (d.result.read ≤ size)
conclude-settled read _ ctx again r (Outcome.finished k event pos small) long e = (λ s. cc, small)
conclude-settled read _ ctx again r Outcome.refused long e = (λ s. cc, omega arith)
conclude-settled read _ ctx again r (Outcome.needs m large fits) long e =
    absurd (long (ap code_of (sym e)))

next_round-again :
    (s : List Frame) (stop again again' : Option Loaded) (r : Loaded)
    → next_round s stop again ≡ some r
    → (again ≡ some r → again' ≡ some r)
    → next_round s stop again' ≡ some r
next_round-again [] stop again again' r e h = e
next_round-again (f ∷ s) stop again again' r e h = h e

if-again :
    (c : Bool) (stop x y : Option Loaded) (r : Loaded)
    → (if c then stop else x) ≡ some r
    → (x ≡ some r → y ≡ some r)
    → (if c then stop else y) ≡ some r
if-again true stop x y r e h = e
if-again false stop x y r e h = h e

conclude-again :
    (status : Status) (read k : ℕ) (ctx : Context) (again again' : Option Loaded) (r : Loaded)
    → conclude status read k ctx again ≡ some r
    → (again ≡ some r → again' ≡ some r)
    → conclude status read k ctx again' ≡ some r
conclude-again Status.finished read k ctx again again' r e h =
    if-again ctx.creation_failed _ _ _ r e
      (λ e'. if-again ctx.syntax_error _ _ _ r e' (λ e''. next_round-again ctx.stack _ _ _ r e'' h))
conclude-again Status.nedata read k ctx again again' r e h = e
conclude-again Status.error read k ctx again again' r e h = e

load_loop-append :
    (ops : FloatOps) (fuel extra : ℕ) (source more : List ℕ) (read : ℕ) (ctx : Context) (r : Loaded)
    → All IsByte source
    → IsSettled r
    → load_loop ops fuel source read ctx ≡ some r
    → load_loop ops (fuel + extra) (source ++ more) read ctx ≡ some r
unfolding load_loop
load_loop-append ops zero extra source more read ctx r h long e = cc
load_loop-append ops (suc fuel) extra [] more read ctx r h long e =
    absurd (long (ap code_of (sym e)))
load_loop-append ops (suc fuel) extra (b ∷ rest) more read ctx r h long e =
    let d = stream_decode ops (b ∷ rest) in
    let k = d.result.read in
    let ctx' = handle_event d.event ctx in
    let left = drop k (b ∷ rest) in
    let (settled, within) =
      conclude-settled read d ctx' _ r (stream_decode-Outcome ops (b ∷ rest) h) long e in
    let same : stream_decode ops (b ∷ (rest ++ more)) ≡ d =
      stream_decode-append_settled ops (b ∷ rest) more h settled in
    let fuel_suc : suc fuel + extra ≡ suc (fuel + extra) = omega arith in
    rw (fuel_suc, same)
      (conclude-again d.result.status read k ctx' (load_loop ops fuel left (read + k) ctx') _ r e
        (λ again. rw (drop-append_le k (b ∷ rest) more within) (
          load_loop-append ops fuel extra left more (read + k) ctx' r
            (All-drop IsByte k (b ∷ rest) h) long again)))

empty_fails :
    (ops : FloatOps) (answers : Allocator) (before : LoadResult) (r : Loaded)
    → r.result.code ≡ ErrorCode.none
    → load ops answers [] before ≢ some r
unfolding load
empty_fails ops answers before r h e = cc (ap code_of e)

-- Where cbor_load returns anything but NOTENOUGHDATA from a source of bytes that is not empty, it returns
-- the same item or error, having read the same number of bytes, from that source with anything behind
-- it; the allocator answers alike.
pub load-append_settled :
    (ops : FloatOps) (answers : Allocator) (b : ℕ) (rest more : List ℕ) (before : LoadResult)
    (r : Loaded)
    → All IsByte (b ∷ rest)
    → IsSettled r
    → load ops answers (b ∷ rest) before ≡ some r
    → load ops answers ((b ∷ rest) ++ more) before ≡ some r
unfolding load
load-append_settled ops answers b rest more before r h long e =
    let longer : suc (length (b ∷ rest)) + length more ≡ suc (length (b ∷ (rest ++ more))) =
      omega (arith, length-append rest more) in
    subst (λ fuel. load_loop ops fuel (b ∷ (rest ++ more)) 0 (fresh answers) ≡ some r) longer
      (load_loop-append ops (suc (length (b ∷ rest))) (length more) (b ∷ rest) more 0
        (fresh answers) r h long e)

-- Where cbor_load returns an item from a source of bytes, it returns the same item from that
-- source with anything behind it, having read the same number of bytes; the allocator answers alike.
pub load-append :
    (ops : FloatOps) (answers : Allocator) (source more : List ℕ) (before : LoadResult)
    (root : Option Item) (n : ℕ)
    → All IsByte source
    → load ops answers source before ≡ some (loaded root n)
    → load ops answers (source ++ more) before ≡ some (loaded root n)
load-append ops answers [] more before root n h e =
    absurd (empty_fails ops answers before (loaded root n) refl e)
load-append ops answers (b ∷ rest) more before root n h e =
    load-append_settled ops answers b rest more before (loaded root n) h (λ c. cc) e
