-- ===== src/Streaming/Contract.antt =====
-- What data.h and streaming.h promise of the result of `cbor_stream_decode`.
use libcbor.Base.{
  ℕ, suc, ◌+◌, ◌-◌, ◌%◌, ◌^◌, ◌≤◌, ◌<◌, ◌≡◌, ◌≢◌, ◌⊎◌, inl, inr, refl, sym, ◌∙◌, arith,
}
use libcbor.Base.{List, [], ◌∷◌, ◌++◌, Bool, true, false, none, some, All}
use libcbor.Base.{length, drop, if◌then◌else◌, leb, length-append, take-append_le}
use libcbor.Base.{drop-append_le, length-drop}
use libcbor.Loaders.{FloatOps, load_uint64}
use libcbor.Streaming.{Status, Event, Decoded, stream_decode}
use libcbor.Streaming.Plan.{Plan, follow, plan, short}
use libcbor.Streaming.Plan.Switch.{stream_decode-plan}
use libcbor.Streaming.Plan.Local.{IsLocal, plan-IsLocal}

abbrev pub IsByte : ℕ → Type 0
IsByte b = b < 256

-- The three outcomes over a source of `size` bytes. Only a finished step invokes a callback and
-- reads; only a lack of data sets `required`.
pub data Outcome (size : ℕ) : Decoded → Type 0 where
  finished :
      (read : ℕ) (event : Event)
      → 1 ≤ read
      → read ≤ size
      → Outcome size (record {
        result = record { read = read; status = Status.finished; required = 0 };
        event = some event;
      })
  refused :
      Outcome size
        (record { result = record { read = 0; status = Status.error; required = 0 }; event = none })
  needs :
      (n : ℕ)
      → size < n
      → n ≤ 2 ^ 64 + 8
      → Outcome size (record {
        result = record { read = 0; status = Status.nedata; required = n % 2 ^ 64 };
        event = none;
      })

Outcome-if :
    {size : ℕ} (c : Bool) {x y : Decoded}
    → (c ≡ true → Outcome size x)
    → (c ≡ false → Outcome size y)
    → Outcome size (if c then x else y)
Outcome-if true hx hy = hx refl
Outcome-if false hx hy = hy refl

follow-Outcome : {p : Plan} → IsLocal p → (s : List ℕ) → Outcome (suc (length s)) (follow p s)
unfolding follow
follow-Outcome (IsLocal.now event) s = Outcome.finished 1 event (omega arith) (omega arith)
follow-Outcome IsLocal.refuse s = Outcome.refused
follow-Outcome (IsLocal.fixed {n} small _) s =
    Outcome-if (leb n (length s)) (λ e. Outcome.finished _ _ (ground arith) (ground arith))
      (λ e. Outcome.needs (1 + n) (ground arith) (omega arith))
follow-Outcome (IsLocal.counted {k} {count} small fits _) s =
    Outcome-if (leb k (length s))
      (λ e.
        Outcome-if (leb (count s) (length s - k))
          (λ e'. Outcome.finished _ _ (ground arith) (ground arith))
          (λ e'. Outcome.needs (count s + k + 1) (ground arith) (omega (arith, fits s))))
      (λ e. Outcome.needs (1 + k) (ground arith) (omega arith))

-- On a source of bytes, `cbor_stream_decode` ends in one of three outcomes: FINISHED, with one callback
-- invoked, one byte at least and no more than the source read, and `required` 0; ERROR, with no
-- callback, nothing read and `required` 0; or NEDATA, with no callback, nothing read, and `required`
-- the remainder by 2 ^ 64 of a number that is larger than the source and at most 2 ^ 64 + 8.
pub stream_decode-Outcome :
    (ops : FloatOps) (src : List ℕ) → All IsByte src → Outcome (length src) (stream_decode ops src)
stream_decode-Outcome ops [] h = unfold stream_decode in Outcome.needs 1 (omega arith) (omega arith)
stream_decode-Outcome ops (b ∷ s) h =
    rw (stream_decode-plan ops b s h.0) (follow-Outcome (plan-IsLocal ops b) s)

follow-append :
    {p : Plan}
    → IsLocal p
    → (s more : List ℕ) → (follow p s).result.status ≢ Status.nedata
    → follow p (s ++ more) ≡ follow p s
unfolding follow
follow-append (IsLocal.now event) s more h = refl
follow-append IsLocal.refuse s more h = refl
follow-append (IsLocal.fixed {n} _ reads) s more h =
    ground (arith, length-append s more, reads s more)
follow-append (IsLocal.counted {k} {count} _ _ reads) s more h = ground (
  arith,
  length-append s more,
  reads s more,
  length-drop k s,
  drop-append_le k s more,
  take-append_le (count s) (drop k s) more,
)

pub stream_decode-append_settled :
    (ops : FloatOps) (src more : List ℕ)
    → All IsByte src
    → (stream_decode ops src).result.status ≢ Status.nedata
    → stream_decode ops (src ++ more) ≡ stream_decode ops src
stream_decode-append_settled ops [] more h e = absurd (e (unfold stream_decode in refl))
stream_decode-append_settled ops (b ∷ s) more h e =
    stream_decode-plan ops b (s ++ more) h.0
    ∙ follow-append (plan-IsLocal ops b) s more (rw (stream_decode-plan ops b s h.0) at e)
    ∙ sym (stream_decode-plan ops b s h.0)

-- Where `cbor_stream_decode` finishes on a source of bytes, it does the same, its callback and its result
-- included, on that source with anything behind it.
pub stream_decode-append :
    (ops : FloatOps) (src more : List ℕ)
    → All IsByte src
    → (stream_decode ops src).result.status ≡ Status.finished
    → stream_decode ops (src ++ more) ≡ stream_decode ops src
stream_decode-append ops src more h e = stream_decode-append_settled ops src more h (λ short. cc)

-- The number of bytes that a step asks for, before it is cut down to a size_t.
pub wanted : Plan → List ℕ → ℕ
wanted (Plan.now event) s = 1
wanted Plan.refuse s = 1
wanted (Plan.fixed n callback) s = 1 + n
wanted (Plan.counted k count callback) s = if leb k (length s) then count s + k + 1 else 1 + k

follow-short :
    {p : Plan}
    → IsLocal p
    → (s more : List ℕ) → (follow p s).result.status ≡ Status.nedata
    → (length s + 1 < wanted p s)
      × (wanted p s ≤ 2 ^ 64 + 8)
      × (follow p s ≡ short (wanted p s))
      × (length (s ++ more) + 1 < wanted p s → (follow p (s ++ more)).result.status ≡ Status.nedata)
unfolding follow wanted
follow-short (IsLocal.now event) s more h = cc
follow-short IsLocal.refuse s more h = cc
follow-short (IsLocal.fixed {n} small reads) s more h =
    (ground arith, ground arith, ground arith, ground (arith, length-append s more))
follow-short (IsLocal.counted {k} {count} small fits reads) s more h = (
  ground arith,
  ground (arith, fits s),
  ground arith,
  ground (arith, length-append s more, reads s more),
)

-- Where `cbor_stream_decode` reports NEDATA on a source of bytes, there is a number, larger than the
-- source and at most 2 ^ 64 + 8, such that `required` is its remainder by 2 ^ 64 and the source with
-- anything behind it that is still shorter than the number gives NEDATA again.
pub stream_decode_required :
    (ops : FloatOps) (src : List ℕ)
    → All IsByte src
    → (stream_decode ops src).result.status ≡ Status.nedata
    → (n : ℕ) × (length src < n)
      × (n ≤ 2 ^ 64 + 8)
      × ((stream_decode ops src).result.required ≡ n % 2 ^ 64)
      × ((more : List ℕ)
          → length (src ++ more) < n
          → (stream_decode ops (src ++ more)).result.status ≡ Status.nedata)
stream_decode_required ops [] h e =
    (1, omega arith, omega arith, unfold stream_decode in refl, empty_again)
  where
    empty_again :
        (more : List ℕ) → length more < 1 → (stream_decode ops more).result.status ≡ Status.nedata
    empty_again [] small = unfold stream_decode in refl
    empty_again (x ∷ more) small = absurd (omega arith)
stream_decode_required ops (b ∷ s) h e =
    let e' = rw (stream_decode-plan ops b s h.0) at e in
    let p = plan ops b in
    let (many, few, same, again) = follow-short (plan-IsLocal ops b) s [] e' in
    (
      wanted p s,
      omega arith,
      few,
      rw (stream_decode-plan ops b s h.0) (rw same),
      λ more small.
          rw (stream_decode-plan ops b (s ++ more) h.0)
            ((follow-short (plan-IsLocal ops b) s more e').3 (omega arith)),
    )

follow_wraps :
    (callback : List ℕ → Event) (s : List ℕ)
    → 8 ≤ length s
    → length s < 2 ^ 63
    → 2 ^ 64 - 9 ≤ load_uint64 s
    → load_uint64 s < 2 ^ 64
    → ((follow (Plan.counted 8 load_uint64 callback) s).result.status ≡ Status.nedata)
      × ((follow (Plan.counted 8 load_uint64 callback) s).result.required < suc (length s))
unfolding follow
follow_wraps callback s eight small large fits = (ground arith, ground arith)

-- The sum behind `required` wraps: on the leading byte of a byte string or string with an eight-byte
-- length (0x5B or 0x7B), that length being 2 ^ 64 - 9 at least and the source less than 2 ^ 63 bytes
-- behind the leading byte, `cbor_stream_decode` reports NEDATA and asks for fewer bytes than it was given.
pub required_wraps :
    (ops : FloatOps) (b : ℕ) (s : List ℕ)
    → (b ≡ 0x5B) ⊎ (b ≡ 0x7B)
    → 8 ≤ length s
    → length s < 2 ^ 63
    → 2 ^ 64 - 9 ≤ load_uint64 s
    → load_uint64 s < 2 ^ 64
    → ((stream_decode ops (b ∷ s)).result.status ≡ Status.nedata)
      × ((stream_decode ops (b ∷ s)).result.required < length (b ∷ s))
unfolding plan
required_wraps ops b s (inl e) eight small large fits = rw e (
    rw (stream_decode-plan ops 0x5B s (omega arith))
      (follow_wraps Event.byte_string s eight small large fits))
required_wraps ops b s (inr e) eight small large fits = rw e (
    rw (stream_decode-plan ops 0x7B s (omega arith))
      (follow_wraps Event.string s eight small large fits))
