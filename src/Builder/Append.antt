-- ===== src/Builder/Append.antt =====
-- src/cbor/internal/builder_callbacks.c: `_cbor_builder_append`. A finished item goes into the
-- container on top of the stack; a container that is complete by that goes to the one below.
use libcbor.Base.{ℕ, ◌+◌, ◌-◌, ◌%◌, ◌^◌, List, [], ◌∷◌, Option, none, some}
use libcbor.Base.{true, false, if◌then◌else◌, ◌==◌}
use libcbor.Builder.State.{
  open_array, open_map, open_tag, open_bytestring, open_string, Frame, frame, Context,
}
use libcbor.Containers.{array_push, map_add_key}
use libcbor.Items.{Metadata, Item, Pairs, snoc_pair}

-- `subitems--` on a size_t, and `subitems ^= 1` on 0 and 1.
abbrev pub decrement : ℕ → ℕ
decrement n = (n + 2 ^ 64 - 1) % 2 ^ 64

abbrev pub flip : ℕ → ℕ
flip n = if n % 2 == 0 then n + 1 else n - 1

-- The context after an assertion failed or NULL was read.
abbrev pub faulty : Context → Context
faulty ctx = record ctx { fault = true }

-- A map with one entry more or one value more, `n` being its `subitems` before that: a definite map
-- is closed when none is left, by `closed`.
abbrev pub settle_map :
    Metadata → ℕ → Pairs → Option Item → ℕ → List Frame → Context → (Context → Context) → Context
settle_map Metadata.definite allocated ps pending n lower ctx closed =
    if n == 0
    then faulty ctx
    else if decrement n == 0
    then closed (record ctx { stack = lower })
    else record ctx {
      stack = frame (open_map Metadata.definite allocated ps pending) (decrement n) ∷ lower;
    }
settle_map Metadata.indefinite allocated ps pending n lower ctx closed = record ctx {
  stack = frame (open_map Metadata.indefinite allocated ps pending) (flip n) ∷ lower;
}

-- The stack is passed by itself: the recursion is on it.
unfoldable pub append_to : List Frame → Item → Context → Context
append_to [] item ctx = record ctx { root = some item; stack = [] }
append_to (frame (open_array Metadata.definite allocated xs) n ∷ lower) item ctx =
    if n == 0
    then faulty ctx
    else (let (pushed, answers) = array_push Metadata.definite allocated xs item ctx.answers in
        elim pushed [
          | none ↦ record ctx {
            creation_failed = true;
            answers = answers;
            stack = frame (open_array Metadata.definite allocated xs) n ∷ lower;
          }
          | some (allocated', xs') ↦
              if decrement n == 0
              then append_to lower (Item.array Metadata.definite allocated' xs')
                  (record ctx { answers = answers; stack = lower })
              else record ctx {
                answers = answers;
                stack = frame (open_array Metadata.definite allocated' xs') (decrement n) ∷ lower;
              }
        ])
append_to (frame (open_array Metadata.indefinite allocated xs) n ∷ lower) item ctx =
    let (pushed, answers) = array_push Metadata.indefinite allocated xs item ctx.answers in
    elim pushed [
      | none ↦ record ctx {
        creation_failed = true;
        answers = answers;
        stack = frame (open_array Metadata.indefinite allocated xs) n ∷ lower;
      }
      | some (allocated', xs') ↦ record ctx {
        answers = answers;
        stack = frame (open_array Metadata.indefinite allocated' xs') n ∷ lower;
      }
    ]
append_to (frame (open_map d allocated ps (some key)) n ∷ lower) item ctx =
    if n % 2 == 0
    then faulty ctx
    else settle_map d allocated (snoc_pair ps key item) none n lower
        (record ctx { creation_failed = false })
        (append_to lower (Item.map d allocated (snoc_pair ps key item)))
append_to (frame (open_map d allocated ps none) n ∷ lower) item ctx =
    if n % 2 == 0
    then (let (room, answers) = map_add_key d allocated ps ctx.answers in
        elim room [
          | none ↦ record ctx {
            creation_failed = true;
            answers = answers;
            stack = frame (open_map d allocated ps none) n ∷ lower;
          }
          | some allocated' ↦
              settle_map d allocated' ps (some item) n lower (record ctx { answers = answers })
                faulty
        ])
    else faulty ctx
append_to (frame (open_tag value) n ∷ lower) item ctx =
    let closed = append_to lower (Item.tag value item) (record ctx { stack = lower }) in
    if n == 1 then closed else faulty ctx
append_to (frame (open_bytestring capacity chunks) n ∷ lower) item ctx = record ctx {
  syntax_error = true;
  stack = frame (open_bytestring capacity chunks) n ∷ lower;
}
append_to (frame (open_string capacity chunks) n ∷ lower) item ctx = record ctx {
  syntax_error = true;
  stack = frame (open_string capacity chunks) n ∷ lower;
}

unfoldable pub append : Item → Context → Context
unfolding append_to
append item ctx = append_to ctx.stack item ctx
